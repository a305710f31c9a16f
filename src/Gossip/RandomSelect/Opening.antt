-- ===== src/Gossip/RandomSelect/Opening.antt =====
-- The branch that insert finds, and the node that it goes on in.
use go_mini_opera.Prelude.{
  ℕ, zero, suc, ◌+◌, ◌*◌, ◌/◌, ◌<◌, ◌≤◌, ◌≡◌, refl, sym, ap, ◌∙◌, Option, none, some, Bool, true,
  false, ◌==◌, ◌>>=◌, Bool-cases, ◌⊎◌, inl, inr, List, [], ◌∷◌, ◌++◌, length, get_or, replicate,
  All, arith,
}
use go_mini_opera.Gossip.RandomSelect.{
  WrsSlot, WrsNode, WrsChild, no_slot, new_wrs_node, open_or, open_branch, sub_node, node_is_full,
}
use go_mini_opera.Gossip.RandomSelect.Flat.{
  Entry, no_entry, width, flatten, node_entries, block, entries, entry_weight, entry_count, total,
  total-append, total-replicate, replicate-append,
}
use go_mini_opera.Gossip.RandomSelect.Valid.{IsSub, IsSlot, IsWrs, length-entries}
use go_mini_opera.Gossip.RandomSelect.Setting.{width_pos}

module _ {C : Type 0} (full : C → Bool) where
  abbrev pub IsOpen : Option C → Type 0
  IsOpen none = Unit {0}
  IsOpen (some c) = full c ≡ false

  abbrev pub IsClosed : Option C → Type 0
  IsClosed none = ⊥
  IsClosed (some c) = full c ≡ true

  open_or-cases :
      (o : Option C) (later : Option ℕ)
      → ((open_or o full later ≡ some 0) × IsOpen o) ⊎ ((open_or o full later ≡ later) × IsClosed o)
  open_or-cases none later = inl (refl, tt)
  open_or-cases (some c) later = elim (Bool-cases (full c)) [
    | inl closed ↦ inr (rw closed refl, closed)
    | inr free ↦ inl (rw free refl, free)
  ]

  -- The loop finds a branch when the items are fewer than the places.
  pub open_branch_lem :
      (f : WrsSlot C → List Entry) (k : ℕ) (P : WrsSlot C → Type 0)
      → ((s : WrsSlot C) → P s → IsClosed s.item → total entry_count (f s) ≡ k)
      → (ss : List (WrsSlot C)) → All P ss
      → total entry_count (flatten f ss) < length ss * k
      → (b : ℕ) × (open_branch ss full ≡ some b)
        × (b < length ss)
        × IsOpen (get_or ss b no_slot).item
  unfolding open_branch
  open_branch_lem f k P count [] h room = absurd (omega arith)
  open_branch_lem f k P count (s ∷ ss) (h, hs) room =
      elim (open_or-cases s.item (open_branch ss full >>= λ i. some (suc i))) [
        | inl (here, free) ↦ (0, here, omega arith, free)
        | inr (there, closed) ↦
            let (b, found, lt, free) =
              open_branch_lem f k P count ss hs
                (omega (arith, count s h closed, total-append entry_count (f s) (flatten f ss))) in
            (suc b, there ∙ ap (λ o. o >>= λ i. some (suc i)) found, omega arith, free)
      ]

-- The places of a new node are free.
pub flatten-new :
    (l n : ℕ) → flatten (block l) (replicate n no_slot) ≡ replicate (n * width l) no_entry
unfolding block
flatten-new l zero = let e : 0 ≡ 0 * width l = omega arith in ap (λ (k : ℕ). replicate k no_entry) e
flatten-new l (suc n) =
    let e : width l + n * width l ≡ suc n * width l = omega arith in
    ap (λ es. es ++ flatten (block l) (replicate n no_slot)) (block-empty l)
    ∙ (ap (λ es. replicate (width l) no_entry ++ es) (flatten-new l n)
        ∙ (replicate-append (width l) (n * width l) ∙ ap (λ (k : ℕ). replicate k no_entry) e))
  where
    block-empty : (l : ℕ) → block l no_slot ≡ replicate (width l) no_entry
    block-empty zero = refl
    block-empty (suc l) = refl

pub All-replicate : {S : Type 0} (P : S → Type 0) (n : ℕ) (s : S) → P s → All P (replicate n s)
All-replicate P zero s p = tt
All-replicate P (suc n) s p = (p, All-replicate P n s p)

pub IsSlot-empty : (l : ℕ) → IsSlot l no_slot
unfolding block
IsSlot-empty zero = (refl, tt)
IsSlot-empty (suc l) = (sym (total-replicate entry_weight (8 * width l) refl), tt)

pub new_wrs_node-IsWrs : (l max : ℕ) → max ≡ 8 * width l → IsWrs l (new_wrs_node max)
new_wrs_node-IsWrs l max e =
    let flat = flatten-new l 8 in
    record {
      branches = refl;
      most = e;
      sum = sym (ap (total entry_weight) flat ∙ total-replicate entry_weight (8 * width l) refl);
      count = sym (ap (total entry_count) flat ∙ total-replicate entry_count (8 * width l) refl);
      parts = All-replicate (IsSlot l) 8 no_slot (IsSlot-empty l);
    }

pub count_few : (es : List Entry) → total entry_count es ≤ length es
count_few [] = omega arith
count_few (none ∷ es) = let rest = count_few es in omega arith
count_few (some p ∷ es) = let rest = count_few es in omega arith

-- The node that insert goes on in: valid, not full, and with the places of the slot.
pub sub_node_lem :
    (l : ℕ) (o : Option (WrsNode (WrsChild l))) (max : ℕ)
    → max ≡ 8 * width (suc l)
    → IsSub (IsWrs l) o
    → IsOpen node_is_full o
    → IsWrs l (sub_node o max)
      × ((sub_node o max).item_cnt < (sub_node o max).max_items)
      × (node_entries (block l) (width (suc l)) o ≡ entries l (sub_node o max))
unfolding sub_node
sub_node_lem l none max e h free =
    let most : max / 8 ≡ 8 * width l = omega (arith, e) in
    (new_wrs_node-IsWrs l (max / 8) most, omega (arith, most, width_pos l), sym (flatten-new l 8))
sub_node_lem l (some c) max e h free = (
  h,
  (let few = count_few (entries l c) in
      let most : c.item_cnt ≤ c.max_items =
        omega (arith, h.count, h.most, few, length-entries l c h) in
      let differ : (c.item_cnt == c.max_items) ≡ false = free in ground arith),
  refl,
)
