-- ===== src/Gossip/WeightedSelect/Examples.antt =====
-- A set of one item, whose weight has changed since.
use go_mini_opera.Prelude.{
  ℕ, zero, suc, ◌+◌, ◌-◌, ◌^◌, ◌<◌, ◌≡◌, refl, sym, ap, ◌∙◌, true, Option, some, none, ◌∷◌, ◌==◌,
  if◌then◌else◌, get_elem?, replicate, Bool-cases, inl, inr, arith,
}
use go_mini_opera.Gossip.RandomSelect.{WrsNode, no_slot}
use go_mini_opera.Gossip.RandomSelect.Flat.{Entry, block}
use go_mini_opera.Gossip.RandomSelect.Valid.{IsWrs}
use go_mini_opera.Gossip.RandomSelect.Choosing.{Chooses, choose-Chooses}
use go_mini_opera.Gossip.WeightedSelect.{WeightedSelect, select_set_weight, select_choose}
use go_mini_opera.Gossip.WeightedSelect.Fresh.{nothing_in}
use go_mini_opera.Gossip.WeightedSelect.Updating.{IsSelect, places, Updates}
use go_mini_opera.Gossip.WeightedSelect.Growing.{select_set_weight-Updates}
use go_mini_opera.Gossip.WeightedSelect.Drawing.{Draws, select_choose-Draws}

abbrev one_leaf : WrsNode ℕ
one_leaf = record {
  slots = record { item = some 7; weight = 3 } ∷ replicate 7 no_slot;
  sum_weight = 3;
  item_cnt = 1;
  max_items = 8;
}

one_leaf-IsWrs : IsWrs 0 one_leaf
unfolding block
one_leaf-IsWrs = record {
  branches = refl;
  most = refl;
  sum = refl;
  count = refl;
  parts = (
    (refl, tt),
    (
      (refl, tt),
      ((refl, tt), ((refl, tt), ((refl, tt), ((refl, tt), ((refl, tt), ((refl, tt), tt)))))),
    ),
  );
}

abbrev one_item : WeightedSelect
one_item = record { level = 0; root = one_leaf; idx = λ a. if a == 7 then some 0 else none }

one_item-IsSelect : IsSelect one_item
unfolding block
one_item-IsSelect = record { tree = one_leaf-IsWrs; placed = placed_one; indexed = indexed_one }
  where
    first : (i : ℕ) → some 0 ≡ some i → 0 ≡ i
    first i e = cc

    nowhere : (i : ℕ) → ¬ (none ≡ some i)
    nowhere i e = absurd cc

    placed_one :
        (a i : ℕ)
        → (if a == 7 then some 0 else none) ≡ some i
        → (w : ℕ) × (get_elem? (places one_item) i ≡ some (some (a, w)))
    placed_one a i e = elim (Bool-cases (a == 7)) [
      | inl same ↦
          let at : 0 ≡ i = first i (rw same at e) in
          let is : 7 ≡ a = ground arith in
          (3, ap (get_elem? (places one_item)) (sym at) ∙ ap (λ b. some (some (b, 3))) is)
      | inr other ↦ absurd (nowhere i (rw other at e))
    ]

    item_is : (a w : ℕ) → ◌≡◌ {A = Option Entry} (some (some (7, 3))) (some (some (a, w))) → a ≡ 7
    item_is a w e = cc

    indexed_one :
        (a w i : ℕ)
        → get_elem? (places one_item) i ≡ some (some (a, w))
        → (if a == 7 then some 0 else none) ≡ some i
    indexed_one a w zero e =
        let is = item_is a w e in let same : (a == 7) ≡ true = ground arith in rw same refl
    indexed_one a w (suc i) e = absurd (nothing_in 7 i a w e)

choose-Chooses_example : Chooses 0 one_leaf 2
choose-Chooses_example = choose-Chooses 0 one_leaf 2 one_leaf-IsWrs (omega arith)

select_set_weight-Updates_example : Updates one_item 9 4 (select_set_weight one_item 9 4)
select_set_weight-Updates_example =
    select_set_weight-Updates one_item 9 4 one_item-IsSelect (omega arith)

-- A weight that is 1 at first and 2 later, so that the item is stale in two turns.
abbrev decaying : ℕ → ℕ → ℕ
decaying t a = if t == 0 then 1 else 2

decaying_small : (t a : ℕ) → 3 + decaying t a < 2 ^ 63
decaying_small t a = ground arith

-- The largest random number below a bound.
abbrev last_number : ℕ → ℕ → ℕ
last_number k n = n - 1

last_number_in_range : (k n : ℕ) → 0 < n → last_number k n < n
last_number_in_range k n pos_n = omega arith

select_choose-Draws_example :
    Draws decaying one_item (select_choose decaying last_number 4 0 one_item)
select_choose-Draws_example =
    select_choose-Draws decaying last_number last_number_in_range 4 0 one_item one_item-IsSelect
      (omega arith) (λ t a. decaying_small t a)
