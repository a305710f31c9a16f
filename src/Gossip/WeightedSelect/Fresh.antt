-- ===== src/Gossip/WeightedSelect/Fresh.antt =====
-- The new set is valid.
use go_mini_opera.Prelude.{ℕ, ◌≡◌, refl, none, some, sym, ap, ◌∙◌, get_elem?, replicate, zero, suc}
use go_mini_opera.Gossip.RandomSelect.Flat.{no_entry}
use go_mini_opera.Gossip.RandomSelect.Opening.{new_wrs_node-IsWrs, flatten-new}
use go_mini_opera.Gossip.WeightedSelect.{new_weighted_random_select}
use go_mini_opera.Gossip.WeightedSelect.Updating.{IsSelect}

pub nothing_in : (n i a w : ℕ) → ¬ (get_elem? (replicate n no_entry) i ≡ some (some (a, w)))
nothing_in zero i a w h = absurd cc
nothing_in (suc n) zero a w h = absurd cc
nothing_in (suc n) (suc i) a w h = nothing_in n i a w h

pub new_weighted_random_select-IsSelect : IsSelect new_weighted_random_select
unfolding new_weighted_random_select
new_weighted_random_select-IsSelect = record {
  tree = new_wrs_node-IsWrs 0 8 refl;
  placed = λ a i there. absurd (nowhere i there);
  indexed = λ a w i there.
      absurd (nothing_in 8 i a w (sym (ap (λ es. get_elem? es i) (flatten-new 0 8)) ∙ there));
}
  where
    nowhere : (i : ℕ) → ¬ (none ≡ some i)
    nowhere i e = absurd cc
