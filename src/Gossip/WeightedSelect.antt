-- ===== src/Gossip/WeightedSelect.antt =====
-- weightedRandomSelect of gossip/randselect.go: the tree and the index of each item in it. The
-- random numbers are a function of the number of the call and of its bound. Weight() of the items
-- reads the clock: it is a function of the time and the item, where the time of a turn of `choose`
-- is the number of its first random number.
pub mod Updating
pub mod Growing
pub mod Drawing
pub mod Fresh
pub mod Examples
use go_mini_opera.Prelude.{
  ℕ, zero, suc, ◌+◌, ◌*◌, Bool, true, false, not, ◌||◌, Option, none, some, ltb, leb, ◌==◌,
  if◌then◌else◌, ◌>>=◌, replicate, set,
}
use go_mini_opera.Gossip.RandomSelect.{
  WrsNode, WrsChild, wrs_branches, no_slot, new_wrs_node, node_is_full, insert, set_weight, choose,
}

pub record WeightedSelect : Type 0 where
  pub level : ℕ
  pub root : WrsNode (WrsChild level)
  pub idx : ℕ → Option ℕ

unfoldable pub new_weighted_random_select : WeightedSelect
new_weighted_random_select = record { level = 0; root = new_wrs_node wrs_branches; idx = λ a. none }

-- The new root of a further level.
unfoldable pub add_level : (l : ℕ) → WrsNode (WrsChild l) → WrsNode (WrsNode (WrsChild l))
add_level l n = record {
  slots = set (replicate wrs_branches no_slot) 0 (record { item = some n; weight = n.sum_weight });
  sum_weight = n.sum_weight;
  item_cnt = n.item_cnt;
  max_items = n.max_items * wrs_branches;
}

unfoldable pub grown : WeightedSelect → WeightedSelect
grown s =
    if node_is_full s.root
    then record { level = suc s.level; root = add_level s.level s.root; idx = s.idx }
    else s

abbrev pub put_idx : (ℕ → Option ℕ) → ℕ → Option ℕ → ℕ → Option ℕ
put_idx idx item i a = if a == item then i else idx a

-- The two branches of `setWeight`.
unfoldable pub set_weight_of : WeightedSelect → ℕ → ℕ → Option ℕ → Option WeightedSelect
set_weight_of s item w (some i) = set_weight s.level s.root i w >>= λ (root, old). some (record {
  level = s.level;
  root = root;
  idx = if w == 0 then put_idx s.idx item none else s.idx;
})
set_weight_of s item w none =
    let s' = grown s in
    let added =
      (insert s'.level s'.root item w >>= λ (root, i).
      some (record { level = s'.level; root = root; idx = put_idx s'.idx item (some i) })) in
    if w == 0 then some s else added

-- `weightedRandomSelect.setWeight`.
unfoldable pub select_set_weight : WeightedSelect → ℕ → ℕ → Option WeightedSelect
select_set_weight s item w = set_weight_of s item w (s.idx item)

module _ (weight : ℕ → ℕ → ℕ) where
  -- `update`.
  unfoldable pub select_update : (time : ℕ) → WeightedSelect → ℕ → Option WeightedSelect
  select_update time s item = select_set_weight s item (weight time item)

  -- The weight of the chosen item brought up to date.
  unfoldable pub refreshed : (time : ℕ) → WeightedSelect → ℕ → ℕ → Option WeightedSelect
  refreshed time s a last =
      if weight time a == last then some s else select_set_weight s a (weight time a)

-- `remove`.
unfoldable pub select_remove : WeightedSelect → ℕ → Option WeightedSelect
select_remove s item = select_set_weight s item 0

module _ (weight : ℕ → ℕ → ℕ) (int63n : ℕ → ℕ → ℕ) where
  -- Whether the chosen item is returned, with the second random number of the turn at the time.
  unfoldable pub is_accepted : ℕ → ℕ → ℕ → Bool
  is_accepted time a last = leb last (weight time a) || ltb (int63n (suc time) last) (weight time a)

  -- `weightedRandomSelect.choose` from the k-th random number on; `none` is a panic or the end of the
  -- fuel.
  unfoldable pub select_choose :
      (fuel : ℕ) → ℕ → WeightedSelect → Option (Option ℕ × WeightedSelect)
  select_choose zero k s = none
  select_choose (suc fuel) k s =
      let chosen =
        (choose s.level s.root (int63n k s.root.sum_weight) >>= λ (a, last).
        refreshed weight k s a last >>= λ s'.
        let again = select_choose fuel (suc (suc k)) s' in
        if is_accepted k a last then some (some a, s') else again) in
      if s.root.sum_weight == 0 then some (none, s) else chosen
