-- ===== src/Gossip/RandomSelect/Inserting.antt =====
-- insert of a tree with room takes a free place of its list.
use go_mini_opera.Prelude.{
  ℕ, zero, suc, ◌+◌, ◌*◌, ◌^◌, ◌<◌, ◌≤◌, ◌≡◌, refl, sym, ap, ◌∙◌, subst, Option, none, some, true,
  ◌==◌, [], ◌∷◌, get_elem?, get_or, set, arith,
}
use go_mini_opera.Gossip.RandomSelect.{
  WrsSlot, WrsNode, WrsChild, no_slot, open_branch, inserted, sub_node, node_is_full, insert,
  add_64,
}
use go_mini_opera.Gossip.RandomSelect.Flat.{
  no_entry, width, leaf_entry, node_entries, block, entries, entry_weight, entry_count, total,
  total-set, get_elem?-flatten,
}
use go_mini_opera.Gossip.RandomSelect.Valid.{
  IsSub, IsSlot, IsWrs, All-get_or, lengths, length-entries, IsWrs-set, slot_few,
}
use go_mini_opera.Gossip.RandomSelect.Setting.{in_bounds}
use go_mini_opera.Gossip.RandomSelect.Opening.{IsOpen, IsClosed, open_branch_lem, sub_node_lem}

-- insert returns an index that was free and a valid tree with the item there.
abbrev pub Inserts :
    (l : ℕ) → WrsNode (WrsChild l) → ℕ → ℕ → Option (WrsNode (WrsChild l) × ℕ) → Type 0
Inserts l n a w run =
    (n' : WrsNode (WrsChild l)) × (i : ℕ) × (run ≡ some (n', i))
    × IsWrs l n'
    × (get_elem? (entries l n) i ≡ some none)
    × (entries l n' ≡ set (entries l n) i (some (a, w)))

-- A node at whose branch `b` an item is added, with the weight of the branch and the sum.
abbrev added : {C : Type 0} → WrsNode C → ℕ → C → ℕ → ℕ → WrsNode C
added n b c v sum = record n {
  slots = set n.slots b (record { item = some c; weight = v });
  sum_weight = sum;
  item_cnt = n.item_cnt + 1;
}

-- The sums do not wrap.
inserted-added :
    (l : ℕ) (n : WrsNode (WrsChild l)) (b w : ℕ) (c : WrsChild l)
    → IsWrs l n
    → b < 8
    → n.sum_weight + w < 2 ^ 63
    → inserted n b c w ≡ added n b c ((get_or n.slots b no_slot).weight + w) (n.sum_weight + w)
unfolding inserted
inserted-added l n b w c h hb small =
    let v = (get_or n.slots b no_slot).weight in
    let few : v ≤ n.sum_weight = slot_few l n b h hb in
    let slot : add_64 v w ≡ v + w = omega arith in
    let sum : add_64 n.sum_weight w ≡ n.sum_weight + w = omega arith in
    ap (λ x. added n b c x (add_64 n.sum_weight w)) slot ∙ ap (added n b c (v + w)) sum

-- A node at whose branch `b` an item is added at the free place `j`.
inserted-Inserts :
    (l : ℕ) (n : WrsNode (WrsChild l)) (b j a w : ℕ) (c : WrsChild l)
    → IsWrs l n
    → b < 8
    → j < width l
    → n.sum_weight + w < 2 ^ 63
    → IsSlot l (record { item = some c; weight = (get_or n.slots b no_slot).weight + w })
    → block l (record { item = some c; weight = (get_or n.slots b no_slot).weight + w })
      ≡ set (block l (get_or n.slots b no_slot)) j (some (a, w))
    → get_elem? (block l (get_or n.slots b no_slot)) j ≡ some none
    → Inserts l n a w (some (inserted n b c w, b * width l + j))
inserted-Inserts l n b j a w c h hb hj small valid changed free =
    let was : get_elem? (entries l n) (b * width l + j) ≡ some none =
      get_elem?-flatten (block l) (width l) n.slots b j (lengths l n.slots h.parts)
        (omega (arith, h.branches)) hj
      ∙ free in
    let new : WrsSlot (WrsChild l) = record {
      item = some c;
      weight = (get_or n.slots b no_slot).weight + w;
    } in
    let (next, flat) =
      IsWrs-set l n b j new (n.sum_weight + w) (n.item_cnt + 1) none (some (a, w)) h hb hj valid
        changed was (omega arith) (omega arith) in
    subst (λ n'. Inserts l n a w (some (n', b * width l + j)))
      (sym (inserted-added l n b w c h hb small))
      (
        added n b c ((get_or n.slots b no_slot).weight + w) (n.sum_weight + w),
        b * width l + j,
        refl,
        next,
        was,
        flat,
      )

-- A slot without an item has no weight, and all its places are free.
leaf_none :
    (s : WrsSlot ℕ)
    → IsSlot 0 s
    → IsOpen (λ c. true) s.item
    → (s.weight ≡ 0) × (block 0 s ≡ no_entry ∷ [])
unfolding block
leaf_none s (weight, h) free =
    let none' = item_none s.item free in
    let places : leaf_entry s.item s.weight ≡ no_entry = ap (λ o. leaf_entry o s.weight) none' in
    (omega (arith, weight, ap entry_weight places), ap (λ e. e ∷ []) places)
  where
    item_none : (o : Option ℕ) → IsOpen (λ c. true) o → o ≡ none
    item_none none h = refl
    item_none (some c) h = absurd cc

one_entry : (o : Option ℕ) (v : ℕ) → IsClosed (λ c. true) o → entry_count (leaf_entry o v) ≡ 1
one_entry none v h = absurd h
one_entry (some c) v h = refl

insert_leaf :
    (n : WrsNode ℕ) (a w : ℕ)
    → IsWrs 0 n
    → n.item_cnt < n.max_items
    → n.sum_weight + w < 2 ^ 63
    → Inserts 0 n a w (insert 0 n a w)
unfolding insert block
insert_leaf n a w h room small =
    let (b, found, lt, free) =
      open_branch_lem (λ c. true) (block 0) 1 (IsSlot 0) leaf_count n.slots h.parts
        (omega (arith, h.count, h.most, h.branches)) in
    let s = get_or n.slots b no_slot in
    let (weight, places) = leaf_none s (All-get_or (IsSlot 0) n.slots b no_slot h.parts lt) free in
    let sum : s.weight + w ≡ w = omega (arith, weight) in
    let at : b * 1 + 0 ≡ b = omega arith in
    rw found (
      subst (λ i. Inserts 0 n a w (some (inserted n b a w, i))) at
        (inserted-Inserts 0 n b 0 a w a h (omega (arith, h.branches)) (omega arith) small
          (leaf_valid (s.weight + w))
          (leaf_changed (s.weight + w) sum ∙ ap (λ es. set es 0 (some (a, w))) (sym places))
          (ap (λ es. get_elem? es 0) places)))
  where
    leaf_count :
        (s : WrsSlot ℕ)
        → IsSlot 0 s
        → IsClosed (λ c. true) s.item
        → total entry_count (block 0 s) ≡ 1
    leaf_count s h closed = omega (arith, one_entry s.item s.weight closed)

    leaf_valid : (v : ℕ) → IsSlot 0 (record { item = some a; weight = v })
    leaf_valid v = (omega arith, tt)

    leaf_changed :
        (v : ℕ) → v ≡ w → block 0 (record { item = some a; weight = v }) ≡ some (a, w) ∷ []
    leaf_changed v e = ap (λ x. some (a, x) ∷ []) e

full_count :
    (l : ℕ) (s : WrsSlot (WrsNode (WrsChild l)))
    → IsSlot (suc l) s
    → IsClosed node_is_full s.item
    → total entry_count (block (suc l) s) ≡ width (suc l)
unfolding block
full_count l s (weight, valid) closed = go s.item valid closed
  where
    go :
        (o : Option (WrsNode (WrsChild l)))
        → IsSub (IsWrs l) o
        → IsClosed node_is_full o
        → total entry_count (node_entries (block l) (width (suc l)) o) ≡ width (suc l)
    go none h closed = absurd closed
    go (some c) h closed =
        let full : (c.item_cnt == c.max_items) ≡ true = closed in
        let same : c.item_cnt ≡ c.max_items = ground arith in omega (arith, h.count, h.most)

-- The run of insert through a child.
insert_run :
    (l : ℕ) (n : WrsNode (WrsNode (WrsChild l))) (a w b i : ℕ) (sub : WrsNode (WrsChild l))
    → open_branch n.slots node_is_full ≡ some b
    → insert l (sub_node (get_or n.slots b no_slot).item n.max_items) a w ≡ some (sub, i)
    → insert (suc l) n a w ≡ some (inserted n b sub w, sub.max_items * b + i)
unfolding insert
insert_run l n a w b i sub branch run = rw (branch, run) refl

place_of : (m max b i : ℕ) → max ≡ m → b * m + i ≡ max * b + i
place_of m max b i e = rw e (omega arith)

insert_inner :
    (l : ℕ) (n : WrsNode (WrsNode (WrsChild l))) (a w : ℕ)
    → ((c : WrsNode (WrsChild l))
        → IsWrs l c
        → c.item_cnt < c.max_items
        → c.sum_weight + w < 2 ^ 63
        → Inserts l c a w (insert l c a w))
    → IsWrs (suc l) n
    → n.item_cnt < n.max_items
    → n.sum_weight + w < 2 ^ 63
    → Inserts (suc l) n a w (insert (suc l) n a w)
unfolding block
insert_inner l n a w inserts h room small =
    let m : ℕ = width (suc l) in
    let (b, branch, lt, free) =
      open_branch_lem node_is_full (block (suc l)) m (IsSlot (suc l)) (full_count l) n.slots h.parts
        (omega (arith, h.count, h.most, room, ap (λ c. c * width (suc l)) h.branches)) in
    let s = get_or n.slots b no_slot in
    let part : IsSlot (suc l) s = All-get_or (IsSlot (suc l)) n.slots b no_slot h.parts lt in
    let (valid, space, same) = sub_node_lem l s.item n.max_items h.most part.1 free in
    let old = sub_node s.item n.max_items in
    let few = slot_few (suc l) n b h (omega (arith, h.branches)) in
    let light : old.sum_weight + w < 2 ^ 63 =
      omega (arith, valid.sum, part.0, ap (total entry_weight) same, few) in
    let (sub, i, run, valid', vacant, flat) = inserts old valid space light in
    let below : i < m =
      omega (arith, in_bounds (entries l old) i vacant, length-entries l old valid) in
    let weight : s.weight + w ≡ total entry_weight (entries l sub) = omega (
      arith,
      part.0,
      ap (total entry_weight) same,
      ap (total entry_weight) flat,
      total-set entry_weight (entries l old) i (some (a, w)) vacant,
    ) in
    let changed : entries l sub ≡ set (block (suc l) s) i (some (a, w)) =
      flat ∙ ap (λ es. set es i (some (a, w))) (sym same) in
    let at : b * m + i ≡ sub.max_items * b + i = place_of m sub.max_items b i valid'.most in
    subst (Inserts (suc l) n a w) (sym (insert_run l n a w b i sub branch run)) (
      subst (λ k. Inserts (suc l) n a w (some (inserted n b sub w, k))) at
        (inserted-Inserts (suc l) n b i a w sub h (omega (arith, h.branches)) below small
          (weight, valid') changed (ap (λ es. get_elem? es i) same ∙ vacant)))

pub insert-Inserts :
    (l : ℕ) (n : WrsNode (WrsChild l)) (a w : ℕ)
    → IsWrs l n
    → n.item_cnt < n.max_items
    → n.sum_weight + w < 2 ^ 63
    → Inserts l n a w (insert l n a w)
insert-Inserts zero n a w h room small = insert_leaf n a w h room small
insert-Inserts (suc l) n a w h room small =
    insert_inner l n a w (λ c. insert-Inserts l c a w) h room small
