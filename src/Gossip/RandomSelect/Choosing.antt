-- ===== src/Gossip/RandomSelect/Choosing.antt =====
-- choose of a tree is a linear search of its list of places.
use go_mini_opera.Prelude.{
  ℕ, zero, suc, ◌+◌, ◌-◌, ◌*◌, ◌<◌, ◌≤◌, ◌≡◌, refl, sym, ap, ◌∙◌, Option, none, some, true, false,
  ltb, if◌then◌else◌, ◌>>=◌, Bool-cases, inl, inr, List, [], ◌∷◌, ◌++◌, get_elem?, All, arith,
}
use go_mini_opera.Gossip.RandomSelect.{WrsSlot, WrsNode, WrsChild, choose_branch, choose}
use go_mini_opera.Gossip.RandomSelect.Flat.{
  Entry, width, flatten, leaf_entry, node_entries, block, entries, entry_weight, total,
  total-replicate,
}
use go_mini_opera.Gossip.RandomSelect.Valid.{IsSub, IsSlot, IsWrs, IsSlot-weight}

-- The entry in whose share of the weights the value lies.
abbrev pub pick : List Entry → ℕ → Option (ℕ × ℕ)
pick [] val = none
pick (none ∷ es) val = pick es val
pick (some (a, w) ∷ es) val =
    let later = pick es (val - w) in if ltb val w then some (a, w) else later

pick-append_left :
    (xs ys : List Entry) (val : ℕ) → val < total entry_weight xs → pick (xs ++ ys) val ≡ pick xs val
pick-append_left [] ys val h = absurd (omega arith)
pick-append_left (none ∷ xs) ys val h = pick-append_left xs ys val (omega arith)
pick-append_left (some (a, w) ∷ xs) ys val h = elim (Bool-cases (ltb val w)) [
  | inl here ↦ rw here refl
  | inr later ↦
      let beyond : w ≤ val = ground arith in
      rw later (pick-append_left xs ys (val - w) (omega arith))
]

pick-append_right :
    (xs ys : List Entry) (val : ℕ)
    → total entry_weight xs ≤ val
    → pick (xs ++ ys) val ≡ pick ys (val - total entry_weight xs)
pick-append_right [] ys val h = ap (pick ys) (omega arith)
pick-append_right (none ∷ xs) ys val h =
    let e : val - total entry_weight xs ≡ val - (0 + total entry_weight xs) = omega arith in
    pick-append_right xs ys val (omega arith) ∙ ap (pick ys) e
pick-append_right (some (a, w) ∷ xs) ys val h =
    let later : ltb val w ≡ false = ground arith in
    let e : val - w - total entry_weight xs ≡ val - (w + total entry_weight xs) = omega arith in
    rw later (pick-append_right xs ys (val - w) (omega arith) ∙ ap (pick ys) e)

-- A value below the sum of the weights picks an entry that has a weight.
pub pick-total :
    (es : List Entry) (val : ℕ)
    → val < total entry_weight es
    → (a : ℕ) × (w : ℕ) × (i : ℕ) × (pick es val ≡ some (a, w))
      × (get_elem? es i ≡ some (some (a, w)))
      × (0 < w)
pick-total [] val h = absurd (omega arith)
pick-total (none ∷ es) val h =
    let (a, w, i, picked, there, pos) = pick-total es val (omega arith) in
    (a, w, suc i, picked, there, pos)
pick-total (some (b, v) ∷ es) val h = elim (Bool-cases (ltb val v)) [
  | inl here ↦ (b, v, 0, rw here refl, refl, ground arith)
  | inr later ↦
      let beyond : v ≤ val = ground arith in
      let (a, w, i, picked, there, pos) = pick-total es (val - v) (omega arith) in
      (a, w, suc i, rw later picked, there, pos)
]

-- The loop over the branches, with what is done at the one that it finds.
choose_branch_lem :
    {C : Type 0} (f : WrsSlot C → List Entry) (P : WrsSlot C → Type 0)
    (next : C × ℕ × ℕ → Option (ℕ × ℕ))
    → ((s : WrsSlot C) → P s → s.weight ≡ total entry_weight (f s))
    → ((s : WrsSlot C) (val : ℕ)
        → P s
        → val < s.weight
        → ((s.item >>= λ c. some (c, s.weight, val)) >>= next) ≡ pick (f s) val)
    → (ss : List (WrsSlot C)) (val : ℕ) → All P ss
    → (choose_branch ss val >>= next) ≡ pick (flatten f ss) val
unfolding choose_branch
choose_branch_lem f P next weight here [] val h = refl
choose_branch_lem f P next weight here (s ∷ ss) val (h, hs) = elim (Bool-cases (ltb val s.weight)) [
  | inl found ↦
      let lt : val < s.weight = ground arith in
      let e = weight s h in
      rw found (here s val h lt ∙ sym (pick-append_left (f s) (flatten f ss) val (omega arith)))
  | inr later ↦
      let beyond : s.weight ≤ val = ground arith in
      let e = weight s h in
      rw later (
        choose_branch_lem f P next weight here ss (val - s.weight) hs
        ∙ ap (λ v. pick (flatten f ss) (val - v)) e
        ∙ sym (pick-append_right (f s) (flatten f ss) val (omega arith)))
]

choose_leaf :
    (o : Option ℕ) (w val : ℕ)
    → w ≡ entry_weight (leaf_entry o w) + 0
    → val < w
    → ((o >>= λ a. some (a, w, val)) >>= λ (p : ℕ × ℕ × ℕ). some (p.0, p.1))
      ≡ pick (leaf_entry o w ∷ []) val
choose_leaf none w val h lt = absurd (omega arith)
choose_leaf (some a) w val h lt = let found : ltb val w ≡ true = ground arith in rw found refl

choose_sub :
    (l : ℕ) (o : Option (WrsNode (WrsChild l))) (w val : ℕ)
    → ((c : WrsNode (WrsChild l)) → IsWrs l c → choose l c val ≡ pick (entries l c) val)
    → w ≡ total entry_weight (node_entries (block l) (width (suc l)) o)
    → IsSub (IsWrs l) o
    → val < w
    → ((o >>= λ c. some (c, w, val)) >>= λ (p : WrsNode (WrsChild l) × ℕ × ℕ). choose l p.0 p.2)
      ≡ pick (node_entries (block l) (width (suc l)) o) val
choose_sub l none w val each e h lt =
    absurd (omega (arith, total-replicate entry_weight (8 * width l) refl))
choose_sub l (some c) w val each e h lt = each c h

choose-pick_all :
    (l : ℕ) (n : WrsNode (WrsChild l)) (val : ℕ)
    → IsWrs l n
    → choose l n val ≡ pick (entries l n) val
unfolding choose block
choose-pick_all zero n val h =
    choose_branch_lem (block 0) (IsSlot 0) (λ (p : ℕ × ℕ × ℕ). some (p.0, p.1)) (IsSlot-weight 0)
      (λ s v valid lt. choose_leaf s.item s.weight v valid.0 lt) n.slots val h.parts
choose-pick_all (suc l) n val h =
    choose_branch_lem (block (suc l)) (IsSlot (suc l))
      (λ (p : WrsNode (WrsChild l) × ℕ × ℕ). choose l p.0 p.2) (IsSlot-weight (suc l))
      (λ s v valid lt.
        choose_sub l s.item s.weight v (λ c. choose-pick_all l c v) valid.0 valid.1 lt)
      n.slots val h.parts

-- choose is the linear search, and finds an item when the value is below the sum of the weights.
abbrev pub Chooses : (l : ℕ) → WrsNode (WrsChild l) → ℕ → Type 0
Chooses l n val =
    (choose l n val ≡ pick (entries l n) val)
    × ((a : ℕ) × (w : ℕ) × (i : ℕ) × (choose l n val ≡ some (a, w))
        × (get_elem? (entries l n) i ≡ some (some (a, w)))
        × (0 < w))

-- For a value below the sum of a valid tree, choose of the tree is the linear search of its items
-- for the one in whose share of the weights the value lies, and it finds an item of the tree, which
-- has a weight.
pub choose-Chooses :
    (l : ℕ) (n : WrsNode (WrsChild l)) (val : ℕ) → IsWrs l n → val < n.sum_weight → Chooses l n val
choose-Chooses l n val h lt =
    let whole = choose-pick_all l n val h in
    let (a, w, i, picked, there, pos) = pick-total (entries l n) val (omega (arith, h.sum)) in
    (whole, (a, w, i, whole ∙ picked, there, pos))
