-- ===== src/Gossip/RandomSelect/Setting.antt =====
-- setWeight of a tree is a write to its list of places.
use go_mini_opera.Prelude.{
  ℕ, zero, suc, ◌+◌, ◌-◌, ◌*◌, ◌/◌, ◌^◌, ◌<◌, ◌≤◌, ◌≡◌, refl, sym, ap, ◌∙◌, subst, Option, none,
  some, ◌==◌, if◌then◌else◌, List, [], ◌∷◌, length, get_elem?, get_or, set, get_elem?-get_or, arith,
}
use native.Mathlib.Nat.{div-mul-le_self, lt-div-mul-add, div-lt_iff_lt-mul}
use go_mini_opera.Gossip.RandomSelect.{
  WrsSlot, WrsNode, WrsChild, no_slot, reweighted, set_weight, change_64,
}
use go_mini_opera.Gossip.RandomSelect.Flat.{
  Entry, no_entry, width, leaf_entry, node_entries, block, entries, entry_weight, entry_count,
  total, total-set, get_elem?-flatten, get_elem?-replicate,
}
use go_mini_opera.Gossip.RandomSelect.Valid.{
  IsSub, IsSlot, IsWrs, All-get_or, lengths, length-entries, IsWrs-set, slot_few,
}

-- What stands at an item's place after its weight is set.
abbrev pub entry_of : ℕ → ℕ → Entry
entry_of a w = if w == 0 then none else some (a, w)

-- setWeight returns, with the weight that stood at the place, a valid tree with the new one.
abbrev pub SetsWeight :
    (l : ℕ) → WrsNode (WrsChild l) → ℕ → ℕ → ℕ → ℕ → Option (WrsNode (WrsChild l) × ℕ) → Type 0
SetsWeight l n idx a old w run =
    (n' : WrsNode (WrsChild l)) × (run ≡ some (n', old))
    × IsWrs l n'
    × (entries l n' ≡ set (entries l n) idx (entry_of a w))

-- The sum does not wrap.
change_64_lem : (v old w : ℕ) → old ≤ v → v + w < 2 ^ 63 → change_64 v old w + old ≡ v + w
change_64_lem v old w least small = omega arith

pub entry_weight-entry_of : (a w : ℕ) → entry_weight (entry_of a w) ≡ w
entry_weight-entry_of a w = ground arith

entry_count-entry_of :
    (a w c : ℕ) → 1 ≤ c → (if w == 0 then c - 1 else c) + 1 ≡ c + entry_count (entry_of a w)
entry_count-entry_of a w c h = ground arith

-- The new slot of setWeight, in a node with the weight of the slot replaced.
reweighted-SetsWeight :
    (l : ℕ) (n : WrsNode (WrsChild l)) (b j idx a old w : ℕ) (new : WrsSlot (WrsChild l))
    → IsWrs l n
    → b < 8
    → n.sum_weight + w < 2 ^ 63
    → j < width l
    → b * width l + j ≡ idx
    → IsSlot l new
    → block l new ≡ set (block l (get_or n.slots b no_slot)) j (entry_of a w)
    → get_elem? (entries l n) idx ≡ some (some (a, old))
    → SetsWeight l n idx a old w (some (reweighted n b new old w, old))
unfolding reweighted
reweighted-SetsWeight l n b j idx a old w new h hb small hj place valid changed was =
    let was' = subst (λ i. get_elem? (entries l n) i ≡ some (some (a, old))) (sym place) was in
    let weights = total-set entry_weight (entries l n) idx none was in
    let number = total-set entry_count (entries l n) idx none was in
    let least : old ≤ n.sum_weight = omega (arith, weights, h.sum) in
    let sums : change_64 n.sum_weight old w + old ≡ n.sum_weight + entry_weight (entry_of a w) =
      omega (arith, entry_weight-entry_of a w, change_64_lem n.sum_weight old w least small) in
    let counts = entry_count-entry_of a w n.item_cnt (omega (arith, number, h.count)) in
    let (next, flat) =
      IsWrs-set l n b j new (change_64 n.sum_weight old w)
        (if w == 0 then n.item_cnt - 1 else n.item_cnt) (some (a, old)) (entry_of a w) h hb hj valid
        changed was' sums counts in
    (
      reweighted n b new old w,
      refl,
      next,
      flat ∙ ap (λ i. set (entries l n) i (entry_of a w)) place,
    )

leaf_entry_inv :
    (o : Option ℕ) (v a old : ℕ) → leaf_entry o v ≡ some (a, old) → (o ≡ some a) × (v ≡ old)
leaf_entry_inv none v a old h = absurd cc
leaf_entry_inv (some b) v a old h = (cc, cc)

some_injective : {a b : Entry} → some a ≡ some b → a ≡ b
some_injective h = cc

pub in_bounds : (es : List Entry) (i : ℕ) {e : Entry} → get_elem? es i ≡ some e → i < length es
in_bounds [] i h = absurd cc
in_bounds (x ∷ es) zero h = omega arith
in_bounds (x ∷ es) (suc i) h = let lt = in_bounds es i h in omega arith

-- The slot of a leaf where an item stands.
leaf_slot :
    (n : WrsNode ℕ) (idx a old : ℕ)
    → IsWrs 0 n
    → get_elem? (entries 0 n) idx ≡ some (some (a, old))
    → (idx < 8)
      × ((get_or n.slots idx no_slot).item ≡ some a)
      × ((get_or n.slots idx no_slot).weight ≡ old)
unfolding block
leaf_slot n idx a old h was =
    let lt : idx < 8 = omega (arith, in_bounds (entries 0 n) idx was, length-entries 0 n h) in
    let place : idx * 1 + 0 ≡ idx = omega arith in
    let there =
      get_elem?-flatten (block 0) 1 n.slots idx 0 (lengths 0 n.slots h.parts)
        (omega (arith, h.branches)) (omega arith) in
    let (item, weight) =
      leaf_entry_inv (get_or n.slots idx no_slot).item (get_or n.slots idx no_slot).weight a old
        (some_injective (sym there ∙ ap (get_elem? (entries 0 n)) place ∙ was)) in
    (lt, item, weight)

leaf_entry-entry_of :
    (o : Option ℕ) (a w : ℕ) → o ≡ some a → leaf_entry (if w == 0 then none else o) w ≡ entry_of a w
leaf_entry-entry_of o a w h = ground arith

set_leaf :
    (n : WrsNode ℕ) (idx a old w : ℕ)
    → IsWrs 0 n
    → n.sum_weight + w < 2 ^ 63
    → get_elem? (entries 0 n) idx ≡ some (some (a, old))
    → SetsWeight 0 n idx a old w (set_weight 0 n idx w)
unfolding set_weight block
set_leaf n idx a old w h small was =
    let (lt, item, weight) = leaf_slot n idx a old h was in
    let s = get_or n.slots idx no_slot in
    let found : get_elem? n.slots idx ≡ some s =
      get_elem?-get_or n.slots idx no_slot (omega (arith, h.branches)) in
    let new : WrsSlot ℕ = record { item = if w == 0 then none else s.item; weight = w } in
    let entry : leaf_entry new.item w ≡ entry_of a w = leaf_entry-entry_of s.item a w item in
    let valid : w ≡ entry_weight (leaf_entry new.item w) + 0 =
      omega (arith, ap entry_weight entry, entry_weight-entry_of a w) in
    rw found (
      subst (λ v. SetsWeight 0 n idx a old w (some (reweighted n idx new v w, v))) (sym weight)
        (reweighted-SetsWeight 0 n idx 0 idx a old w new h lt small (omega arith) (omega arith)
          (valid, tt) (ap (λ e. e ∷ []) entry) was))

-- An index in eight blocks of `m` places, taken apart as the code does.
index_parts :
    (m idx : ℕ)
    → 0 < m
    → idx < 8 * m
    → (idx / m < 8) × (idx - idx / m * m < m) × (idx / m * m + (idx - idx / m * m) ≡ idx)
index_parts m idx hm lt =
    let below = div-mul-le_self idx m in
    let above = lt-div-mul-add {a = idx} hm in
    ((div-lt_iff_lt-mul hm).1 lt, omega arith, omega arith)

pub width_pos : (l : ℕ) → 0 < width l
width_pos zero = omega arith
width_pos (suc l) = let rest = width_pos l in omega arith

-- The child of a slot where an item stands.
child_of :
    (l : ℕ) (o : Option (WrsNode (WrsChild l))) (j : ℕ) {p : ℕ × ℕ}
    → get_elem? (node_entries (block l) (width (suc l)) o) j ≡ some (some p)
    → j < width (suc l)
    → (c : WrsNode (WrsChild l)) × (o ≡ some c)
child_of l none j h lt = absurd (some_ne_none (sym h ∙ get_elem?-replicate (8 * width l) j lt))
  where
    some_ne_none : {p : ℕ × ℕ} → ¬ (some (some p) ≡ some no_entry)
    some_ne_none e = absurd cc
child_of l (some c) j h lt = (c, refl)

-- The run of setWeight through a child.
set_weight_run :
    (l : ℕ) (n : WrsNode (WrsNode (WrsChild l))) (m idx old w : ℕ)
    (s : WrsSlot (WrsNode (WrsChild l))) (c c' : WrsNode (WrsChild l))
    → n.max_items / 8 ≡ m
    → get_elem? n.slots (idx / m) ≡ some s
    → s.item ≡ some c
    → set_weight l c (idx - idx / m * m) w ≡ some (c', old)
    → set_weight (suc l) n idx w
      ≡ some (
        reweighted n (idx / m) (record { item = some c'; weight = change_64 s.weight old w }) old w,
        old,
      )
unfolding set_weight
set_weight_run l n m idx old w s c c' items slot child run = rw (items, slot, child, run) refl

set_inner :
    (l : ℕ) (n : WrsNode (WrsNode (WrsChild l))) (idx a old w : ℕ)
    → ((c : WrsNode (WrsChild l)) (j : ℕ)
        → IsWrs l c
        → c.sum_weight + w < 2 ^ 63
        → get_elem? (entries l c) j ≡ some (some (a, old))
        → SetsWeight l c j a old w (set_weight l c j w))
    → IsWrs (suc l) n
    → n.sum_weight + w < 2 ^ 63
    → get_elem? (entries (suc l) n) idx ≡ some (some (a, old))
    → SetsWeight (suc l) n idx a old w (set_weight (suc l) n idx w)
unfolding block
set_inner l n idx a old w sets h small was =
    let m : ℕ = width (suc l) in
    let below : idx < 8 * m =
      omega (arith, in_bounds (entries (suc l) n) idx was, length-entries (suc l) n h) in
    let (hb, hj, place) = index_parts m idx (width_pos (suc l)) below in
    let b : ℕ = idx / m in
    let j : ℕ = idx - idx / m * m in
    let s = get_or n.slots b no_slot in
    let lt : b < length n.slots = omega (arith, h.branches) in
    let there : get_elem? (block (suc l) s) j ≡ some (some (a, old)) =
      sym (get_elem?-flatten (block (suc l)) m n.slots b j (lengths (suc l) n.slots h.parts) lt hj)
      ∙ ap (get_elem? (entries (suc l) n)) place
      ∙ was in
    let (c, child) = child_of l s.item j there hj in
    let part : IsSlot (suc l) s = All-get_or (IsSlot (suc l)) n.slots b no_slot h.parts lt in
    let sub : IsWrs l c = subst (λ o. IsSub (IsWrs l) o) child part.1 in
    let same : block (suc l) s ≡ entries l c = ap (node_entries (block l) m) child in
    let inside : get_elem? (entries l c) j ≡ some (some (a, old)) =
      ap (λ es. get_elem? es j) (sym same) ∙ there in
    let few = slot_few (suc l) n b h hb in
    let light : c.sum_weight + w < 2 ^ 63 =
      omega (arith, sub.sum, part.0, ap (total entry_weight) same, few) in
    let (c', run, valid, flat) = sets c j sub light inside in
    let new : WrsSlot (WrsNode (WrsChild l)) = record {
      item = some c';
      weight = change_64 s.weight old w;
    } in
    let moved = total-set entry_weight (entries l c) j (entry_of a w) inside in
    let least : old ≤ s.weight = omega (
      arith,
      part.0,
      ap (total entry_weight) same,
      total-set entry_weight (entries l c) j none inside,
    ) in
    let weight : change_64 s.weight old w ≡ total entry_weight (entries l c') = omega (
      arith,
      part.0,
      ap (total entry_weight) same,
      ap (total entry_weight) flat,
      moved,
      entry_weight-entry_of a w,
      change_64_lem s.weight old w least (omega (arith, few, small)),
    ) in
    let changed : entries l c' ≡ set (block (suc l) s) j (entry_of a w) =
      flat ∙ ap (λ es. set es j (entry_of a w)) (sym same) in
    let items : n.max_items / 8 ≡ m = omega (arith, h.most) in
    let found = get_elem?-get_or n.slots b no_slot lt in
    subst (SetsWeight (suc l) n idx a old w)
      (sym (set_weight_run l n m idx old w s c c' items found child run))
      (reweighted-SetsWeight (suc l) n b j idx a old w new h hb small hj place (weight, valid)
        changed was)

pub set_weight-SetsWeight :
    (l : ℕ) (n : WrsNode (WrsChild l)) (idx a old w : ℕ)
    → IsWrs l n
    → n.sum_weight + w < 2 ^ 63
    → get_elem? (entries l n) idx ≡ some (some (a, old))
    → SetsWeight l n idx a old w (set_weight l n idx w)
set_weight-SetsWeight zero n idx a old w h small was = set_leaf n idx a old w h small was
set_weight-SetsWeight (suc l) n idx a old w h small was =
    set_inner l n idx a old w (λ c j. set_weight-SetsWeight l c j a old w) h small was
