-- ===== src/Gossip/RandomSelect/Valid.antt =====
-- The invariant of a tree, and a change at one place of it.
use go_mini_opera.Prelude.{
  ℕ, zero, suc, ◌+◌, ◌*◌, ◌<◌, ◌≤◌, ◌≡◌, refl, sym, ap, ◌∙◌, Option, none, some, List, [], ◌∷◌,
  length, get_elem?, get_or, set, All, length-set, length-replicate, arith,
}
use go_mini_opera.Gossip.RandomSelect.{WrsSlot, WrsNode, WrsChild, no_slot}
use go_mini_opera.Gossip.RandomSelect.Flat.{
  Entry, no_entry, width, flatten, node_entries, block, entries, entry_weight, entry_count, total,
  total-set, total-append, length-flatten, flatten-set,
}

-- A node with a valid slot for each branch, and the sum and the number of its items.
pub record IsNode {C : Type 0} (P : WrsSlot C → Type 0) (f : WrsSlot C → List Entry) (k : ℕ)
    (n : WrsNode C) : Type 0 where
  pub branches : length n.slots ≡ 8
  pub most : n.max_items ≡ 8 * k
  pub sum : n.sum_weight ≡ total entry_weight (flatten f n.slots)
  pub count : n.item_cnt ≡ total entry_count (flatten f n.slots)
  pub parts : All P n.slots

abbrev pub IsSub : {C : Type 0} → (WrsNode C → Type 0) → Option (WrsNode C) → Type 0
IsSub P none = Unit {0}
IsSub P (some c) = P c

-- The weight of a slot is that of its places, and the node that it holds is valid.
abbrev pub IsSlot : (l : ℕ) → WrsSlot (WrsChild l) → Type 0
IsSlot zero s = (s.weight ≡ total entry_weight (block zero s)) × Unit {0}
IsSlot (suc l) s =
    (s.weight ≡ total entry_weight (block (suc l) s))
    × IsSub (IsNode (IsSlot l) (block l) (width l)) s.item

abbrev pub IsWrs : (l : ℕ) → WrsNode (WrsChild l) → Type 0
IsWrs l n = IsNode (IsSlot l) (block l) (width l) n

pub IsSlot-weight :
    (l : ℕ) (s : WrsSlot (WrsChild l)) → IsSlot l s → s.weight ≡ total entry_weight (block l s)
IsSlot-weight zero s h = h.0
IsSlot-weight (suc l) s h = h.0

pub All-get_or :
    {S : Type 0} (P : S → Type 0) (ss : List S) (i : ℕ) (d : S)
    → All P ss
    → i < length ss
    → P (get_or ss i d)
All-get_or P [] i d h lt = absurd (omega arith)
All-get_or P (s ∷ ss) zero d (h, hs) lt = h
All-get_or P (s ∷ ss) (suc i) d (h, hs) lt = All-get_or P ss i d hs (omega arith)

All-set :
    {S : Type 0} (P : S → Type 0) (ss : List S) (i : ℕ) (v : S)
    → All P ss
    → P v
    → All P (set ss i v)
All-set P [] i v h p = tt
All-set P (s ∷ ss) zero v (h, hs) p = (p, hs)
All-set P (s ∷ ss) (suc i) v (h, hs) p = (h, All-set P ss i v hs p)

All-map :
    {S : Type 0} (P Q : S → Type 0) (ss : List S) → ((s : S) → P s → Q s) → All P ss → All Q ss
All-map P Q [] f h = tt
All-map P Q (s ∷ ss) f (h, hs) = (f s h, All-map P Q ss f hs)

length-node_entries :
    (l : ℕ) (c : Option (WrsNode (WrsChild l)))
    → ((s : WrsSlot (WrsChild l)) → IsSlot l s → length (block l s) ≡ width l)
    → IsSub (IsWrs l) c
    → length (node_entries (block l) (width (suc l)) c) ≡ width (suc l)
length-node_entries l none each h = length-replicate (8 * width l) no_entry
length-node_entries l (some c) each h =
    length-flatten (block l) (width l) c.slots
      (All-map (IsSlot l) (λ s. length (block l s) ≡ width l) c.slots each h.parts)
    ∙ ap (λ b. b * width l) h.branches

pub length-block : (l : ℕ) (s : WrsSlot (WrsChild l)) → IsSlot l s → length (block l s) ≡ width l
unfolding block
length-block zero s h = refl
length-block (suc l) s (e, h) = length-node_entries l s.item (length-block l) h

pub lengths :
    (l : ℕ) (ss : List (WrsSlot (WrsChild l)))
    → All (IsSlot l) ss
    → All (λ s. length (block l s) ≡ width l) ss
lengths l ss h = All-map (IsSlot l) (λ s. length (block l s) ≡ width l) ss (length-block l) h

-- The weight of a slot is at most the sum of the node.
pub slot_few :
    (l : ℕ) (n : WrsNode (WrsChild l)) (b : ℕ)
    → IsWrs l n
    → b < 8
    → (get_or n.slots b no_slot).weight ≤ n.sum_weight
slot_few l n b h lt =
    let few = go n.slots b h.parts (omega (arith, h.branches)) in omega (arith, h.sum, few)
  where
    go :
        (ss : List (WrsSlot (WrsChild l))) (i : ℕ)
        → All (IsSlot l) ss
        → i < length ss
        → (get_or ss i no_slot).weight ≤ total entry_weight (flatten (block l) ss)
    go [] i h lt = absurd (omega arith)
    go (s ∷ ss) zero (h, hs) lt =
        omega
          (arith, IsSlot-weight l s h, total-append entry_weight (block l s) (flatten (block l) ss))
    go (s ∷ ss) (suc i) (h, hs) lt = omega (
      arith,
      go ss i hs (omega arith),
      total-append entry_weight (block l s) (flatten (block l) ss),
    )

pub length-entries :
    (l : ℕ) (n : WrsNode (WrsChild l)) → IsWrs l n → length (entries l n) ≡ 8 * width l
length-entries l n h =
    length-flatten (block l) (width l) n.slots (lengths l n.slots h.parts)
    ∙ ap (λ b. b * width l) h.branches

-- A node with another slot at `b`, which differs from the old one at the place `j`.
pub IsWrs-set :
    (l : ℕ) (n : WrsNode (WrsChild l)) (b j : ℕ) (new : WrsSlot (WrsChild l)) (sum' cnt' : ℕ)
    (old e : Entry)
    → IsWrs l n
    → b < 8
    → j < width l
    → IsSlot l new
    → block l new ≡ set (block l (get_or n.slots b no_slot)) j e
    → get_elem? (entries l n) (b * width l + j) ≡ some old
    → sum' + entry_weight old ≡ n.sum_weight + entry_weight e
    → cnt' + entry_count old ≡ n.item_cnt + entry_count e
    → IsWrs l (record n { slots = set n.slots b new; sum_weight = sum'; item_cnt = cnt' })
      × (flatten (block l) (set n.slots b new) ≡ set (entries l n) (b * width l + j) e)
IsWrs-set l n b j new sum' cnt' old e h hb hj valid changed was sums counts =
    let all = lengths l n.slots h.parts in
    let lt : b < length n.slots = omega (arith, h.branches) in
    let flat = flatten-set (block l) (width l) n.slots b j new e all lt hj changed in
    let i : ℕ = b * width l + j in
    (
      record {
        branches = length-set n.slots b new ∙ h.branches;
        most = h.most;
        sum =
            let weights = total-set entry_weight (entries l n) i e was in
            let here : sum' ≡ total entry_weight (set (entries l n) i e) =
              omega (arith, h.sum, weights, sums) in
            here ∙ ap (total entry_weight) (sym flat);
        count =
            let number = total-set entry_count (entries l n) i e was in
            let here : cnt' ≡ total entry_count (set (entries l n) i e) =
              omega (arith, h.count, number, counts) in
            here ∙ ap (total entry_count) (sym flat);
        parts = All-set (IsSlot l) n.slots b new h.parts valid;
      },
      flat,
    )
