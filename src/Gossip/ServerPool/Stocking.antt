-- ===== src/Gossip/ServerPool/Stocking.antt =====
-- The selection sets of the server pool: their weights, and the range of their sums.
use go_mini_opera.Prelude.{
  ℕ, zero, suc, ◌+◌, ◌*◌, ◌^◌, ◌<◌, ◌≤◌, ◌≡◌, refl, ap, ◌∙◌, ◌⊎◌, inl, inr, true, false, Option,
  some, ◌==◌, ltb, if◌then◌else◌, Bool-cases, arith,
}
use go_mini_opera.Gossip.WeightedSelect.{WeightedSelect}
use go_mini_opera.Gossip.WeightedSelect.Updating.{IsSelect, IsUpdate, Updates, weight_in}
use go_mini_opera.Gossip.WeightedSelect.Drawing.{Refreshing, still, turned}

abbrev sum_below : (ℕ → ℕ) → ℕ → ℕ
sum_below f zero = 0
sum_below f (suc n) = sum_below f n + f n

at_self : (f : ℕ → ℕ) (e w n : ℕ) → n ≡ e → (if n == e then w else f n) ≡ w
at_self f e w n h = ground arith

at_other : (f : ℕ → ℕ) (e w n : ℕ) → (n == e) ≡ false → (if n == e then w else f n) ≡ f n
at_other f e w n h = rw h refl

-- What another value at one place changes.
sum_below-above :
    (f g : ℕ → ℕ) (e w n : ℕ)
    → ((a : ℕ) → g a ≡ (if a == e then w else f a))
    → n ≤ e
    → sum_below g n ≡ sum_below f n
sum_below-above f g e w zero law le = refl
sum_below-above f g e w (suc n) law le =
    let other : (n == e) ≡ false = ground arith in
    omega (arith, law n ∙ at_other f e w n other, sum_below-above f g e w n law (omega arith))

sum_below-put :
    (f g : ℕ → ℕ) (e w n : ℕ)
    → ((a : ℕ) → g a ≡ (if a == e then w else f a))
    → e < n
    → sum_below g n + f e ≡ sum_below f n + w
sum_below-put f g e w zero law lt = absurd (omega arith)
sum_below-put f g e w (suc n) law lt = elim (Bool-cases (n == e)) [
  | inl same ↦
      let is : n ≡ e = ground arith in
      omega
        (arith, law n ∙ at_self f e w n is, ap f is, sum_below-above f g e w n law (omega arith))
  | inr other ↦
      omega (arith, law n ∙ at_other f e w n other, sum_below-put f g e w n law (ground arith))
]

sum_below-most : (f : ℕ → ℕ) (n : ℕ) → ((e : ℕ) → f e ≤ 1000000000) → sum_below f n ≤ n * 1000000000
sum_below-most f zero few = omega arith
sum_below-most f (suc n) few = omega (arith, few n, sum_below-most f n few)

-- A valid set of entries that are made, with weights of at most 10^9 and their sum; at most 2^33
-- entries are made.
pub record IsStocked (s : WeightedSelect) (next : ℕ) : Type 0 where
  pub valid : IsSelect s
  pub made : (e : ℕ) → next ≤ e → weight_in s e ≡ 0
  pub few : (e : ℕ) → weight_in s e ≤ 1000000000
  pub sum : s.root.sum_weight ≡ sum_below (weight_in s) next
  pub entries : next ≤ 2 ^ 33

-- No sum of such a set and a weight leaves the range of an int64.
pub IsStocked-small :
    (s : WeightedSelect) (next w : ℕ)
    → IsStocked s next
    → w ≤ 1000000000
    → s.root.sum_weight + w < 2 ^ 63
IsStocked-small s next w h le =
    omega (arith, h.sum, h.entries, sum_below-most (weight_in s) next h.few)

-- A further entry is made.
pub IsStocked-more :
    (s : WeightedSelect) (next : ℕ) → IsStocked s next → next < 2 ^ 33 → IsStocked s (next + 1)
IsStocked-more s next h lt =
    let one : suc next ≡ next + 1 = omega arith in
    let own : weight_in s next ≡ 0 = h.made next (omega arith) in
    let more : s.root.sum_weight ≡ sum_below (weight_in s) (suc next) = omega (arith, h.sum, own) in
    record {
      valid = h.valid;
      made = λ e le. h.made e (omega arith);
      few = h.few;
      sum = more ∙ ap (sum_below (weight_in s)) one;
      entries = omega arith;
    }

-- An update of a set with an entry that is made, or with no weight.
pub IsStocked-update :
    (s s' : WeightedSelect) (next e w : ℕ)
    → IsStocked s next
    → (e < next) ⊎ (w ≡ 0)
    → w ≤ 1000000000
    → IsUpdate s e w s'
    → IsStocked s' next
IsStocked-update s s' next e w h own le (valid, law, sum) = record {
  valid = valid;
  made = λ f above. elim (Bool-cases (f == e)) [
    | inl same ↦ law f ∙ (at_self (weight_in s) e w f (ground arith) ∙ no_weight f above same own)
    | inr other ↦ law f ∙ (at_other (weight_in s) e w f other ∙ h.made f above)
  ];
  few = λ f. elim (Bool-cases (f == e)) [
    | inl same ↦ omega (arith, law f ∙ at_self (weight_in s) e w f (ground arith), le)
    | inr other ↦ omega (arith, law f ∙ at_other (weight_in s) e w f other, h.few f)
  ];
  sum = elim (Bool-cases (ltb e next)) [
    | inl below ↦
        let lt : e < next = ground arith in
        omega (arith, h.sum, sum, sum_below-put (weight_in s) (weight_in s') e w next law lt)
    | inr over ↦
        let above : next ≤ e = ground arith in
        omega (
          arith,
          h.sum,
          sum,
          h.made e above,
          no_weight e above (ground arith) own,
          sum_below-above (weight_in s) (weight_in s') e w next law above,
        )
  ];
  entries = h.entries;
}
  where
    no_weight : (f : ℕ) → next ≤ f → (f == e) ≡ true → (e < next) ⊎ (w ≡ 0) → w ≡ 0
    no_weight f above same (inl lt) = let is : f ≡ e = ground arith in absurd (omega arith)
    no_weight f above same (inr gone) = gone

pub updated-IsStocked :
    (s : WeightedSelect) (next e w : ℕ) (run : Option WeightedSelect)
    → IsStocked s next
    → (e < next) ⊎ (w ≡ 0)
    → w ≤ 1000000000
    → Updates s e w run
    → (s' : WeightedSelect) × (run ≡ some s') × IsStocked s' next
updated-IsStocked s next e w run h own le (s', done, updated) =
    (s', done, IsStocked-update s s' next e w h own le updated)

-- The turns of choose.
pub Refreshing-IsStocked :
    (weight : ℕ → ℕ → ℕ) (s s' : WeightedSelect) (next : ℕ)
    → ((t e : ℕ) → weight t e ≤ 1000000000)
    → IsStocked s next
    → Refreshing weight s s'
    → IsStocked s' next
Refreshing-IsStocked weight s s' next le h still = h
Refreshing-IsStocked weight s s' next le h (turned {s' = mid} t e heavy updated rest) =
    let lt : e < next = elim (Bool-cases (ltb e next)) [
      | inl below ↦ ground arith
      | inr over ↦
          let above : next ≤ e = ground arith in absurd (omega (arith, heavy, h.made e above))
    ] in
    Refreshing-IsStocked weight mid s' next le
      (IsStocked-update s mid next e (weight t e) h (inl lt) (le t e) updated) rest
