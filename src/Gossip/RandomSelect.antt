-- ===== src/Gossip/RandomSelect.antt =====
-- gossip/randselect.go. The field `level` of a node is the argument of WrsChild: a node of
-- level 0 holds items, one of level l + 1 holds nodes of level l. A weight is a number, and a
-- change of weight is an old and a new weight. `none` is a panic.
-- An int64 is its bits, a number below 2^64; the comparisons are those of numbers, which are the
-- code's on weights and sums that are not negative.
pub mod Flat
pub mod Valid
pub mod Setting
pub mod Opening
pub mod Inserting
pub mod Choosing
use go_mini_opera.Prelude.{
  ℕ, zero, suc, ◌+◌, ◌-◌, ◌*◌, ◌/◌, ◌%◌, ◌^◌, Bool, true, false, Option, none, some, List, [], ◌∷◌,
  ltb, ◌==◌, if◌then◌else◌, ◌>>=◌, get_elem?, get_or, set, replicate,
}

-- A place of a node: an element of `items` and the one of `weights` at the same index.
pub record WrsSlot (C : Type 0) : Type 0 where
  pub item : Option C
  pub weight : ℕ

pub record WrsNode (C : Type 0) : Type 0 where
  pub slots : List (WrsSlot C)
  pub sum_weight : ℕ
  pub item_cnt : ℕ
  pub max_items : ℕ

-- What a node of the level holds; an item is a number, which stands for its pointer.
abbrev pub WrsChild : ℕ → Type 0
WrsChild zero = ℕ
WrsChild (suc l) = WrsNode (WrsChild l)

abbrev pub wrs_branches : ℕ
wrs_branches = 8

-- The sum of two int64.
abbrev pub add_64 : ℕ → ℕ → ℕ
add_64 v w = (v + w) % 2 ^ 64

-- An int64 with the difference of `w` and `old` added.
abbrev pub change_64 : ℕ → ℕ → ℕ → ℕ
change_64 v old w = (v + (w + (2 ^ 64 - old))) % 2 ^ 64

module _ {C : Type 0} where
  abbrev pub no_slot : WrsSlot C
  no_slot = record { item = none; weight = 0 }

  -- `&wrsNode{maxItems: max}`.
  abbrev pub new_wrs_node : ℕ → WrsNode C
  new_wrs_node max = record {
    slots = replicate wrs_branches no_slot;
    sum_weight = 0;
    item_cnt = 0;
    max_items = max;
  }

  abbrev pub open_or : Option C → (C → Bool) → Option ℕ → Option ℕ
  open_or none full later = some 0
  open_or (some c) full later = if full c then later else some 0

  -- The loop at the start of `insert`: the first branch that is nil or not full.
  unfoldable pub open_branch : List (WrsSlot C) → (C → Bool) → Option ℕ
  open_branch [] full = none
  open_branch (s ∷ rest) full =
      let later = (open_branch rest full >>= λ i. some (suc i)) in open_or s.item full later

  -- The node after `insert` at a branch.
  unfoldable pub inserted : WrsNode C → ℕ → C → ℕ → WrsNode C
  inserted n branch c w = record n {
    slots =
        set n.slots branch
          (record { item = some c; weight = add_64 (get_or n.slots branch no_slot).weight w });
    sum_weight = add_64 n.sum_weight w;
    item_cnt = n.item_cnt + 1;
  }

  -- The node after `setWeight`: the item and the weight at the branch, and the change from `old` to `w`.
  unfoldable pub reweighted : WrsNode C → ℕ → WrsSlot C → ℕ → ℕ → WrsNode C
  reweighted n branch s old w = record n {
    slots = set n.slots branch s;
    sum_weight = change_64 n.sum_weight old w;
    item_cnt = if w == 0 then n.item_cnt - 1 else n.item_cnt;
  }

  abbrev pub choose_or : WrsSlot C → ℕ → Option (C × ℕ × ℕ) → Option (C × ℕ × ℕ)
  choose_or s val later =
      if ltb val s.weight then (s.item >>= λ c. some (c, s.weight, val)) else later

  -- The loop of `choose`: the item at the branch, its weight, and what is left of the value.
  unfoldable pub choose_branch : List (WrsSlot C) → ℕ → Option (C × ℕ × ℕ)
  choose_branch [] val = none
  choose_branch (s ∷ rest) val =
      let later = choose_branch rest (val - s.weight) in choose_or s val later

  -- The node of a branch of a node with `max` items, a new one if it is nil.
  unfoldable pub sub_node : Option (WrsNode C) → ℕ → WrsNode C
  sub_node (some c) max = c
  sub_node none max = new_wrs_node (max / wrs_branches)

  abbrev pub node_is_full : WrsNode C → Bool
  node_is_full n = n.item_cnt == n.max_items

-- `wrsNode.insert`, which returns the index of the item.
unfoldable pub insert : (l : ℕ) → WrsNode (WrsChild l) → ℕ → ℕ → Option (WrsNode (WrsChild l) × ℕ)
insert zero n a w =
    open_branch n.slots (λ c. true) >>= λ branch. some (inserted n branch a w, branch)
insert (suc l) n a w = open_branch n.slots node_is_full >>= λ branch.
    insert l (sub_node (get_or n.slots branch no_slot).item n.max_items) a w >>= λ (sub, idx).
    some (inserted n branch sub w, sub.max_items * branch + idx)

-- `wrsNode.setWeight`; the change that it returns is the one from the weight in the result to `w`.
unfoldable pub set_weight :
    (l : ℕ) → WrsNode (WrsChild l) → ℕ → ℕ → Option (WrsNode (WrsChild l) × ℕ)
set_weight zero n idx w = get_elem? n.slots idx >>= λ s. some (
  reweighted n idx (record { item = if w == 0 then none else s.item; weight = w }) s.weight w,
  s.weight,
)
set_weight (suc l) n idx w =
    let items = n.max_items / wrs_branches in
    let branch = idx / items in
    get_elem? n.slots branch >>= λ s. s.item >>= λ c.
    set_weight l c (idx - branch * items) w >>= λ (sub, old).
    some (
      reweighted n branch (record { item = some sub; weight = change_64 s.weight old w }) old w,
      old,
    )

-- `wrsNode.choose`.
unfoldable pub choose : (l : ℕ) → WrsNode (WrsChild l) → ℕ → Option (ℕ × ℕ)
choose zero n val = choose_branch n.slots val >>= λ (a, w, rest). some (a, w)
choose (suc l) n val = choose_branch n.slots val >>= λ (c, w, rest). choose l c rest
