-- ===== src/Gossip/WeightedSelect/Growing.antt =====
-- A further level keeps the items and makes room.
use go_mini_opera.Prelude.{
  ℕ, zero, suc, ◌+◌, ◌*◌, ◌^◌, ◌<◌, ◌≤◌, ◌≡◌, refl, sym, ap, ◌∙◌, subst, inl, inr, false, Option,
  none, some, List, [], ◌∷◌, ◌++◌, ◌==◌, if◌then◌else◌, ◌>>=◌, get_elem?, get_or, set, replicate,
  Bool-cases, Option-cases, arith,
}
use go_mini_opera.Gossip.RandomSelect.{WrsNode, WrsChild, no_slot, node_is_full, insert}
use go_mini_opera.Gossip.RandomSelect.Flat.{
  Entry, no_entry, width, block, entries, entry_weight, entry_count, total, total-append,
  total-replicate,
}
use go_mini_opera.Gossip.RandomSelect.Valid.{IsSlot, IsWrs, length-entries}
use go_mini_opera.Gossip.RandomSelect.Setting.{entry_of, set_weight-SetsWeight, width_pos}
use go_mini_opera.Gossip.RandomSelect.Opening.{flatten-new, All-replicate, IsSlot-empty, count_few}
use go_mini_opera.Gossip.RandomSelect.Inserting.{insert-Inserts}
use go_mini_opera.Gossip.WeightedSelect.{
  WeightedSelect, add_level, grown, put_idx, set_weight_of, select_set_weight,
}
use go_mini_opera.Gossip.WeightedSelect.Updating.{
  IsSelect, places, place_of, some_injective, weight_at, weight_in, get_or-some, Updates, written,
}

entries-add_level :
    (l : ℕ) (n : WrsNode (WrsChild l))
    → entries (suc l) (add_level l n) ≡ entries l n ++ replicate (7 * width (suc l)) no_entry
unfolding add_level block
entries-add_level l n = ap (λ es. entries l n ++ es) (flatten-new (suc l) 7)

add_level-IsWrs : (l : ℕ) (n : WrsNode (WrsChild l)) → IsWrs l n → IsWrs (suc l) (add_level l n)
unfolding add_level block
add_level-IsWrs l n h =
    let rest = replicate (7 * width (suc l)) no_entry in
    let flat = entries-add_level l n in
    record {
      branches = refl;
      most = omega (arith, h.most);
      sum =
          let none_left = total-replicate entry_weight (7 * width (suc l)) refl in
          let here : n.sum_weight ≡ total entry_weight (entries l n ++ rest) =
            omega (arith, h.sum, none_left, total-append entry_weight (entries l n) rest) in
          here ∙ ap (total entry_weight) (sym flat);
      count =
          let none_left = total-replicate entry_count (7 * width (suc l)) refl in
          let here : n.item_cnt ≡ total entry_count (entries l n ++ rest) =
            omega (arith, h.count, none_left, total-append entry_count (entries l n) rest) in
          here ∙ ap (total entry_count) (sym flat);
      parts = ((h.sum, h), All-replicate (IsSlot (suc l)) 7 no_slot (IsSlot-empty (suc l)));
    }

-- What a list of free places at the end changes.
extended :
    (es : List Entry) (k i : ℕ) {p : ℕ × ℕ}
    → get_elem? (es ++ replicate k no_entry) i ≡ some (some p)
    → get_elem? es i ≡ some (some p)
extended [] zero i h = absurd cc
extended [] (suc k) zero h = absurd cc
extended [] (suc k) (suc i) h = extended [] k i h
extended (x ∷ es) k zero h = h
extended (x ∷ es) k (suc i) h = extended es k i h

extending :
    (es : List Entry) (k i : ℕ) {e : Entry}
    → get_elem? es i ≡ some e
    → get_elem? (es ++ replicate k no_entry) i ≡ some e
extending [] k i h = absurd cc
extending (x ∷ es) k zero h = h
extending (x ∷ es) k (suc i) h = extending es k i h

get_or-extended :
    (es : List Entry) (k i : ℕ) → get_or (es ++ replicate k no_entry) i none ≡ get_or es i none
get_or-extended [] zero i = refl
get_or-extended [] (suc k) zero = refl
get_or-extended [] (suc k) (suc i) = get_or-extended [] k i
get_or-extended (x ∷ es) k zero = refl
get_or-extended (x ∷ es) k (suc i) = get_or-extended es k i

-- The set with the same items and with room for another.
abbrev HasRoom : WeightedSelect → WeightedSelect → Type 0
HasRoom s s' =
    IsSelect s'
    × (s'.root.item_cnt < s'.root.max_items)
    × ((a : ℕ) → weight_in s' a ≡ weight_in s a)
    × ((a : ℕ) → s'.idx a ≡ s.idx a)
    × (s'.root.sum_weight ≡ s.root.sum_weight)

abbrev taller : WeightedSelect → WeightedSelect
taller s = record { level = suc s.level; root = add_level s.level s.root; idx = s.idx }

weight_at-extended :
    (o : Option ℕ) (es : List Entry) (k : ℕ)
    → weight_at o (es ++ replicate k no_entry) ≡ weight_at o es
weight_at-extended none es k = refl
weight_at-extended (some i) es k = ap entry_weight (get_or-extended es k i)

taller-HasRoom :
    (s : WeightedSelect) → IsSelect s → s.root.item_cnt ≡ s.root.max_items → HasRoom s (taller s)
unfolding add_level
taller-HasRoom s h full =
    let flat = entries-add_level s.level s.root in
    let k : ℕ = 7 * width (suc s.level) in
    let pos = width_pos s.level in
    (
      record {
        tree = add_level-IsWrs s.level s.root h.tree;
        placed = λ a i there.
            let (w, entry) = h.placed a i there in
            (w, ap (λ es. get_elem? es i) flat ∙ extending (places s) k i entry);
        indexed = λ a w i entry.
            h.indexed a w i
              (extended (places s) k i (sym (ap (λ es. get_elem? es i) flat) ∙ entry));
      },
      omega (arith, full, h.tree.most, pos),
      (λ a. ap (weight_at (s.idx a)) flat ∙ weight_at-extended (s.idx a) (places s) k),
      (λ a. refl),
      refl,
    )

grown-HasRoom : (s : WeightedSelect) → IsSelect s → HasRoom s (grown s)
unfolding grown add_level
grown-HasRoom s h = elim (Bool-cases (node_is_full s.root)) [
  | inl full ↦ rw full (taller-HasRoom s h (ground arith))
  | inr free ↦ rw free (
    h,
    (let few = count_few (places s) in
        let most : s.root.item_cnt ≤ s.root.max_items =
          omega (arith, h.tree.count, h.tree.most, few, length-entries s.level s.root h.tree) in
        ground arith),
    (λ a. refl),
    (λ a. refl),
    refl,
  )
]

set_present :
    (s : WeightedSelect) (item w i : ℕ)
    → IsSelect s
    → s.idx item ≡ some i
    → s.root.sum_weight + w < 2 ^ 63
    → Updates s item w (set_weight_of s item w (some i))
unfolding set_weight_of
set_present s item w i h there small =
    let (v, was) = h.placed item i there in
    let (root', run, valid, flat) =
      set_weight-SetsWeight s.level s.root i item v w h.tree small was in
    let idx' = if w == 0 then put_idx s.idx item none else s.idx in
    let stored : weight_in s item ≡ v =
      ap (λ o. weight_at o (places s)) there ∙ ap entry_weight (get_or-some (places s) i was) in
    rw run (
      written s item w i root' idx' (some (item, v)) h valid flat law was (λ a u e. ground arith)
        (λ j e. some_injective (sym e ∙ there)) stored)
  where
    law :
        (a : ℕ)
        → (if w == 0 then put_idx s.idx item none else s.idx) a
          ≡ (if a == item then place_of i w else s.idx a)
    law a = elim (Bool-cases (w == 0)) [
      | inl gone ↦ rw gone refl
      | inr has ↦ rw has (elim (Bool-cases (a == item)) [
        | inl same ↦ let is : a ≡ item = ground arith in rw same (ap s.idx is ∙ there)
        | inr differ ↦ rw differ refl
      ])
    ]

-- An update of the set with room is one of the set.
updates_of :
    (s s' : WeightedSelect) (item w : ℕ) (run : Option WeightedSelect)
    → HasRoom s s'
    → Updates s' item w run
    → Updates s item w run
updates_of s s' item w run (h', room, weights, same_idx, sum) (t, done, (h, law, total')) = (
  t,
  done,
  (
    h,
    (λ a. law a ∙ ap (λ v. if a == item then w else v) (weights a)),
    omega (arith, weights item, sum, total'),
  ),
)

insert_new :
    (s : WeightedSelect) (item w : ℕ)
    → IsSelect s
    → s.root.item_cnt < s.root.max_items
    → s.idx item ≡ none
    → (w == 0) ≡ false
    → s.root.sum_weight + w < 2 ^ 63
    → Updates s item w (
        insert s.level s.root item w >>= λ (root, i).
        some (record { level = s.level; root = root; idx = put_idx s.idx item (some i) }))
insert_new s item w h room absent has small =
    let (root', i, run, valid, free, flat) =
      insert-Inserts s.level s.root item w h.tree room small in
    let entry : some (item, w) ≡ entry_of item w = rw has refl in
    rw run (
      written s item w i root' (put_idx s.idx item (some i)) none h valid
        (flat ∙ ap (set (places s) i) entry) (λ a. rw has refl) free (λ a v e. absurd cc)
        (λ j e. absurd (none_ne_some j (sym absent ∙ e))) (ap (λ o. weight_at o (places s)) absent))
  where
    none_ne_some : (j : ℕ) → ¬ (none ≡ some j)
    none_ne_some j e = absurd cc

set_absent :
    (s : WeightedSelect) (item w : ℕ)
    → IsSelect s
    → s.idx item ≡ none
    → s.root.sum_weight + w < 2 ^ 63
    → Updates s item w (set_weight_of s item w none)
unfolding set_weight_of
set_absent s item w h absent small =
    let nothing : weight_in s item ≡ 0 = ap (λ o. weight_at o (places s)) absent in
    elim (Bool-cases (w == 0)) [
      | inl gone ↦
          let zero_w : w ≡ 0 = ground arith in
          rw gone (s, refl, (h, unchanged (nothing ∙ sym zero_w), omega (arith, nothing, zero_w)))
      | inr has ↦
          let more = grown-HasRoom s h in
          rw has (
            updates_of s (grown s) item w _ more (
              insert_new (grown s) item w more.0 more.1 (more.3 item ∙ absent) has
                (omega (arith, more.4, small))))
    ]
  where
    unchanged :
        weight_in s item ≡ w → (a : ℕ) → weight_in s a ≡ (if a == item then w else weight_in s a)
    unchanged e a = elim (Bool-cases (a == item)) [
      | inl same ↦ let is : a ≡ item = ground arith in rw same (ap (weight_in s) is ∙ e)
      | inr differ ↦ rw differ refl
    ]

-- When the tree is valid, the map has the place of each of its items, and the sum with the new
-- weight is below 2^63, setWeight returns such a set again, in which the item has the weight that
-- was set, 0 for an item that is not in the set, every other item has the weight that it had, and
-- the sum of the weights has changed accordingly.
pub select_set_weight-Updates :
    (s : WeightedSelect) (item w : ℕ)
    → IsSelect s
    → s.root.sum_weight + w < 2 ^ 63
    → Updates s item w (select_set_weight s item w)
unfolding select_set_weight
select_set_weight-Updates s item w h small = elim (Option-cases (s.idx item)) [
  | inl absent ↦
      subst (λ o. Updates s item w (set_weight_of s item w o)) (sym absent)
        (set_absent s item w h absent small)
  | inr (i, there) ↦
      subst (λ o. Updates s item w (set_weight_of s item w o)) (sym there)
        (set_present s item w i h there small)
]
