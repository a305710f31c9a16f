-- ===== src/Gossip/ServerPool/Counting.antt =====
-- The counters of the server pool against its entries.
use go_mini_opera.Prelude.{
  ℕ, zero, suc, ◌+◌, ◌<◌, ◌≤◌, ◌≡◌, ◌≢◌, refl, sym, ap, ◌∙◌, inl, inr, Bool, true, false, ◌==◌,
  if◌then◌else◌, Bool-cases, arith,
}
use go_mini_opera.Gossip.ServerPool.{PoolEntry}

-- The number of entries below the pointer that pass a test.
abbrev pub count_entries : (PoolEntry → Bool) → (ℕ → PoolEntry) → ℕ → ℕ
count_entries test store zero = 0
count_entries test store (suc n) = (if test (store n) then 1 else 0) + count_entries test store n

abbrev pub bit : Bool → ℕ
bit b = if b then 1 else 0

abbrev pub stored : (ℕ → PoolEntry) → ℕ → PoolEntry → ℕ → PoolEntry
stored store e entry f = if f == e then entry else store f

stored_self : (store : ℕ → PoolEntry) (e : ℕ) (entry : PoolEntry) → stored store e entry e ≡ entry
stored_self store e entry = let same : (e == e) ≡ true = ground arith in rw same refl

stored_ne :
    (store : ℕ → PoolEntry) (e : ℕ) (entry : PoolEntry) (f : ℕ)
    → f ≢ e
    → stored store e entry f ≡ store f
stored_ne store e entry f h = let differ : (f == e) ≡ false = ground arith in rw differ refl

pub count_above :
    (test : PoolEntry → Bool) (store : ℕ → PoolEntry) (e : ℕ) (entry : PoolEntry) (n : ℕ)
    → n ≤ e
    → count_entries test (stored store e entry) n ≡ count_entries test store n
count_above test store e entry zero h = refl
count_above test store e entry (suc n) h =
    let rest = count_above test store e entry n (omega arith) in
    let other : stored store e entry n ≡ store n = stored_ne store e entry n (omega arith) in
    omega (arith, rest, ap (λ x. bit (test x)) other)

-- What a new entry at a pointer changes.
pub count_put :
    (test : PoolEntry → Bool) (store : ℕ → PoolEntry) (e : ℕ) (entry : PoolEntry) (n : ℕ)
    → e < n
    → count_entries test (stored store e entry) n + bit (test (store e))
      ≡ count_entries test store n + bit (test entry)
count_put test store e entry zero h = absurd (omega arith)
count_put test store e entry (suc n) h = elim (Bool-cases (n == e)) [
  | inl same ↦
      let is : n ≡ e = ground arith in
      let above = count_above test store e entry n (omega arith) in
      let here : bit (test (stored store e entry n)) ≡ bit (test entry) =
        ap (λ k. bit (test (stored store e entry k))) is
        ∙ ap (λ x. bit (test x)) (stored_self store e entry) in
      omega (arith, above, here, ap (λ k. bit (test (store k))) is)
  | inr differ ↦
      let other : bit (test (stored store e entry n)) ≡ bit (test (store n)) =
        ap (λ x. bit (test x)) (stored_ne store e entry n (ground arith)) in
      omega (arith, other, count_put test store e entry n (ground arith))
]

-- A change that the test does not see.
pub count_same :
    (test : PoolEntry → Bool) (store : ℕ → PoolEntry) (e : ℕ) (entry : PoolEntry) (n : ℕ)
    → test entry ≡ test (store e)
    → count_entries test (stored store e entry) n ≡ count_entries test store n
count_same test store e entry zero h = refl
count_same test store e entry (suc n) h = elim (Bool-cases (n == e)) [
  | inl same ↦
      let is : n ≡ e = ground arith in
      let here : bit (test (stored store e entry n)) ≡ bit (test (store n)) =
        ap (λ k. bit (test (stored store e entry k))) is
        ∙ ap (λ x. bit (test x)) (stored_self store e entry)
        ∙ ap bit h
        ∙ ap (λ k. bit (test (store k))) (sym is) in
      omega (arith, here, count_same test store e entry n h)
  | inr differ ↦
      let other : bit (test (stored store e entry n)) ≡ bit (test (store n)) =
        ap (λ x. bit (test x)) (stored_ne store e entry n (ground arith)) in
      omega (arith, other, count_same test store e entry n h)
]
