-- ===== src/Gossip/WeightedSelect/Updating.antt =====
-- setWeight as an update of a function from the items to their weights.
use go_mini_opera.Prelude.{
  ℕ, zero, suc, ◌+◌, ◌≡◌, ◌≢◌, refl, sym, ap, ◌∙◌, inl, inr, true, false, Option, none, some, List,
  [], ◌∷◌, ◌==◌, if◌then◌else◌, get_elem?, get_or, set, Bool-cases, Option-cases, arith,
}
use go_mini_opera.Gossip.RandomSelect.{WrsNode, WrsChild}
use go_mini_opera.Gossip.RandomSelect.Flat.{
  Entry, no_entry, entries, entry_weight, total, total-set,
}
use go_mini_opera.Gossip.RandomSelect.Valid.{IsWrs}
use go_mini_opera.Gossip.RandomSelect.Setting.{entry_of, entry_weight-entry_of}
use go_mini_opera.Gossip.WeightedSelect.{WeightedSelect}

abbrev pub places : WeightedSelect → List Entry
places s = entries s.level s.root

-- The tree is valid, and the map has the place of each item of it and of no other.
pub record IsSelect (s : WeightedSelect) : Type 0 where
  pub tree : IsWrs s.level s.root
  pub placed :
      (a i : ℕ) → s.idx a ≡ some i → (w : ℕ) × (get_elem? (places s) i ≡ some (some (a, w)))
  pub indexed : (a w i : ℕ) → get_elem? (places s) i ≡ some (some (a, w)) → s.idx a ≡ some i

abbrev pub weight_at : Option ℕ → List Entry → ℕ
weight_at none es = 0
weight_at (some i) es = entry_weight (get_or es i none)

-- The weight of an item in the set, 0 if it is not there.
abbrev pub weight_in : WeightedSelect → ℕ → ℕ
weight_in s a = weight_at (s.idx a) (places s)

-- Another valid set, in which the item has the weight, and the others have theirs.
abbrev pub IsUpdate : WeightedSelect → ℕ → ℕ → WeightedSelect → Type 0
IsUpdate s item w s' =
    IsSelect s'
    × ((a : ℕ) → weight_in s' a ≡ (if a == item then w else weight_in s a))
    × (s'.root.sum_weight + weight_in s item ≡ s.root.sum_weight + w)

-- setWeight returns a set in which the item has the weight, and the others have theirs.
abbrev pub Updates : WeightedSelect → ℕ → ℕ → Option WeightedSelect → Type 0
Updates s item w run = (s' : WeightedSelect) × (run ≡ some s') × IsUpdate s item w s'

get_elem?-set_self :
    (es : List Entry) (i : ℕ) (e : Entry) {old : Entry}
    → get_elem? es i ≡ some old
    → get_elem? (set es i e) i ≡ some e
get_elem?-set_self [] i e h = absurd cc
get_elem?-set_self (x ∷ es) zero e h = refl
get_elem?-set_self (x ∷ es) (suc i) e h = get_elem?-set_self es i e h

get_elem?-set_ne :
    (es : List Entry) (i j : ℕ) (e : Entry) → i ≢ j → get_elem? (set es i e) j ≡ get_elem? es j
get_elem?-set_ne [] i j e h = refl
get_elem?-set_ne (x ∷ es) zero zero e h = absurd (h refl)
get_elem?-set_ne (x ∷ es) zero (suc j) e h = refl
get_elem?-set_ne (x ∷ es) (suc i) zero e h = refl
get_elem?-set_ne (x ∷ es) (suc i) (suc j) e h = get_elem?-set_ne es i j e (λ p. h (ap suc p))

pub get_or-some :
    (es : List Entry) (i : ℕ) {e : Entry} → get_elem? es i ≡ some e → get_or es i none ≡ e
get_or-some [] i h = absurd cc
get_or-some (x ∷ es) zero h = cc
get_or-some (x ∷ es) (suc i) h = get_or-some es i h

abbrev pub place_of : ℕ → ℕ → Option ℕ
place_of i w = if w == 0 then none else some i

place_of-some : (i w j : ℕ) → place_of i w ≡ some j → (j ≡ i) × ((w == 0) ≡ false)
place_of-some i w j h = elim (Bool-cases (w == 0)) [
  | inl gone ↦ absurd (none_ne_some (rw gone at h))
  | inr has ↦ let e : some i ≡ some j = rw has at h in (cc, has)
]
  where
    none_ne_some : ¬ (none ≡ some j)
    none_ne_some e = absurd cc

entry_of-some :
    (item w a v i : ℕ) → entry_of item w ≡ some (a, v) → (a ≡ item) × (place_of i w ≡ some i)
entry_of-some item w a v i h = elim (Bool-cases (w == 0)) [
  | inl gone ↦ absurd (none_ne_some (rw gone at h))
  | inr has ↦ (item_eq (rw has at h), rw has refl)
]
  where
    none_ne_some : ¬ (no_entry ≡ some (a, v))
    none_ne_some e = absurd cc

    item_eq : ◌≡◌ {A = Entry} (some (item, w)) (some (a, v)) → a ≡ item
    item_eq e = cc

pub some_injective : {A : Type 0} {a b : A} → some a ≡ some b → a ≡ b
some_injective h = cc

-- The item's entry is written at the place `i`, where the item stood or nothing did.
module _ (s : WeightedSelect) (item w i : ℕ) (root' : WrsNode (WrsChild s.level))
    (idx' : ℕ → Option ℕ) (old : Entry) (valid : IsSelect s) (tree' : IsWrs s.level root')
    (flat : entries s.level root' ≡ set (places s) i (entry_of item w))
    (law : (a : ℕ) → idx' a ≡ (if a == item then place_of i w else s.idx a))
    (was : get_elem? (places s) i ≡ some old) (own : (a v : ℕ) → old ≡ some (a, v) → a ≡ item)
    (sole : (j : ℕ) → s.idx item ≡ some j → j ≡ i)
    (stored : weight_in s item ≡ entry_weight old) where
  apart : (a j : ℕ) → a ≢ item → s.idx a ≡ some j → i ≢ j
  apart a j differ h same =
      let (v, there) = valid.placed a j h in
      differ (own a v (some_injective (sym was ∙ ap (get_elem? (places s)) same ∙ there)))

  now_at_place : get_elem? (entries s.level root') i ≡ some (entry_of item w)
  now_at_place =
      ap (λ es. get_elem? es i) flat ∙ get_elem?-set_self (places s) i (entry_of item w) was

  elsewhere : (j : ℕ) → i ≢ j → get_elem? (entries s.level root') j ≡ get_elem? (places s) j
  elsewhere j differ =
      ap (λ es. get_elem? es j) flat ∙ get_elem?-set_ne (places s) i j (entry_of item w) differ

  idx_item : (a : ℕ) → (a == item) ≡ true → idx' a ≡ place_of i w
  idx_item a same = law a ∙ rw same refl

  idx_other : (a : ℕ) → (a == item) ≡ false → idx' a ≡ s.idx a
  idx_other a differ = law a ∙ rw differ refl

  new_placed :
      (a j : ℕ)
      → idx' a ≡ some j
      → (v : ℕ) × (get_elem? (entries s.level root') j ≡ some (some (a, v)))
  new_placed a j h = elim (Bool-cases (a == item)) [
    | inl same ↦
        let (at, has) = place_of-some i w j (sym (idx_item a same) ∙ h) in
        let is : item ≡ a = ground arith in
        let e : entry_of item w ≡ some (a, w) = rw has (ap (λ b. some (b, w)) is) in
        (w, ap (get_elem? (entries s.level root')) at ∙ now_at_place ∙ ap some e)
    | inr differ ↦
        let other : s.idx a ≡ some j = sym (idx_other a differ) ∙ h in
        let (v, there) = valid.placed a j other in
        (v, elsewhere j (apart a j (ground arith) other) ∙ there)
  ]

  new_indexed :
      (a v j : ℕ) → get_elem? (entries s.level root') j ≡ some (some (a, v)) → idx' a ≡ some j
  new_indexed a v j h = elim (Bool-cases (i == j)) [
    | inl same ↦
        let at : i ≡ j = ground arith in
        let (is, place) =
          entry_of-some item w a v i
            (some_injective (sym now_at_place ∙ ap (get_elem? (entries s.level root')) at ∙ h)) in
        idx_item a (ground arith) ∙ place ∙ ap some at
    | inr differ ↦
        let away : i ≢ j = ground arith in
        let old_idx : s.idx a ≡ some j = valid.indexed a v j (sym (elsewhere j away) ∙ h) in
        elim (Bool-cases (a == item)) [
          | inl same ↦
              let is : a ≡ item = ground arith in
              absurd (away (sym (sole j (ap s.idx (sym is) ∙ old_idx))))
          | inr other ↦ idx_other a other ∙ old_idx
        ]
  ]

  weight_item : weight_at (place_of i w) (entries s.level root') ≡ w
  weight_item = elim (Bool-cases (w == 0)) [
    | inl gone ↦ let e : w ≡ 0 = ground arith in rw gone (sym e)
    | inr has ↦ rw has (
        ap entry_weight (get_or-some (entries s.level root') i now_at_place)
        ∙ entry_weight-entry_of item w)
  ]

  weight_other : (a : ℕ) → a ≢ item → weight_at (s.idx a) (entries s.level root') ≡ weight_in s a
  weight_other a differ = elim (Option-cases (s.idx a)) [
    | inl gone ↦ rw gone refl
    | inr (j, there) ↦
        let (v, at) = valid.placed a j there in
        let now = elsewhere j (apart a j differ there) in
        rw there (
          ap entry_weight
            (get_or-some (entries s.level root') j (now ∙ at) ∙ sym (get_or-some (places s) j at)))
  ]

  pub written : Updates s item w (some (record { level = s.level; root = root'; idx = idx' }))
  written = (
    record { level = s.level; root = root'; idx = idx' },
    refl,
    (
      record { tree = tree'; placed = new_placed; indexed = new_indexed },
      (λ a. elim (Bool-cases (a == item)) [
        | inl same ↦
            rw same (ap (λ o. weight_at o (entries s.level root')) (idx_item a same) ∙ weight_item)
        | inr differ ↦ rw differ (
            ap (λ o. weight_at o (entries s.level root')) (idx_other a differ)
            ∙ weight_other a (ground arith))
      ]),
      omega (
        arith,
        tree'.sum,
        valid.tree.sum,
        ap (total entry_weight) flat,
        total-set entry_weight (places s) i (entry_of item w) was,
        entry_weight-entry_of item w,
        stored,
      ),
    ),
  )
