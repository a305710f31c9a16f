-- ===== src/Gossip/WeightedSelect/Drawing.antt =====
-- choose of the set: it ends, with an item that has a weight now.
use go_mini_opera.Prelude.{
  ℕ, zero, suc, ◌+◌, ◌^◌, ◌<◌, ◌≡◌, refl, sym, ap, ◌∙◌, inl, inr, true, false, Option, none, some,
  ◌==◌, if◌then◌else◌, get_elem?, Bool-cases, arith,
}
use go_mini_opera.Gossip.RandomSelect.Flat.{entry_weight}
use go_mini_opera.Gossip.RandomSelect.Choosing.{choose-Chooses}
use go_mini_opera.Gossip.WeightedSelect.{WeightedSelect, refreshed, is_accepted, select_choose}
use go_mini_opera.Gossip.WeightedSelect.Updating.{
  IsSelect, IsUpdate, places, weight_at, weight_in, get_or-some,
}
use go_mini_opera.Gossip.WeightedSelect.Growing.{select_set_weight-Updates}

module _ (weight : ℕ → ℕ → ℕ) where
  -- choose returns an item that had a weight in a turn, which is the one that the set stores, or nil
  -- from a set whose weights are all 0.
  abbrev pub IsDrawn : Option ℕ → WeightedSelect → Type 0
  IsDrawn none s' = s'.root.sum_weight ≡ 0
  IsDrawn (some a) s' = (t : ℕ) × (0 < weight t a) × (weight_in s' a ≡ weight t a)

  -- The steps from a set to another, each of which gives an item of the set that has a weight
  -- there, and is in range, what Weight() returns at a time.
  pub data Refreshing : WeightedSelect → WeightedSelect → Type 0 where
    still : {s : WeightedSelect} → Refreshing s s
    turned :
        {s s' s'' : WeightedSelect} (t a : ℕ)
        → 0 < weight_in s a
        → IsUpdate s a (weight t a) s'
        → Refreshing s' s''
        → Refreshing s s''

  -- The set after one turn of the loop, with the item's weight up to date.
  abbrev Refreshes : ℕ → WeightedSelect → ℕ → ℕ → Option WeightedSelect → Type 0
  Refreshes t s a last run =
      (s' : WeightedSelect) × (run ≡ some s')
      × (weight_in s a ≡ last)
      × IsUpdate s a (weight t a) s'

  refreshed-Refreshes :
      (t : ℕ) (s : WeightedSelect) (a last i : ℕ)
      → IsSelect s
      → get_elem? (places s) i ≡ some (some (a, last))
      → s.root.sum_weight + weight t a < 2 ^ 63
      → Refreshes t s a last (refreshed weight t s a last)
  unfolding refreshed
  refreshed-Refreshes t s a last i h was small =
      let there : weight_in s a ≡ last =
        ap (λ o. weight_at o (places s)) (h.indexed a last i was)
        ∙ ap entry_weight (get_or-some (places s) i was) in
      elim (Bool-cases (weight t a == last)) [
        | inl same ↦
            let is : weight t a ≡ last = ground arith in
            rw same (s, refl, there, (h, unchanged (there ∙ sym is), omega (arith, there, is)))
        | inr differ ↦
            let (s', run, updated) = select_set_weight-Updates s a (weight t a) h small in
            rw differ (s', run, there, updated)
      ]
    where
      unchanged :
          weight_in s a ≡ weight t a
          → (b : ℕ) → weight_in s b ≡ (if b == a then weight t a else weight_in s b)
      unchanged e b = elim (Bool-cases (b == a)) [
        | inl same ↦ let is : b ≡ a = ground arith in rw same (ap (weight_in s) is ∙ e)
        | inr differ ↦ rw differ refl
      ]

  -- choose returns what a set with valid weights must, and leaves such a set.
  abbrev pub Draws : WeightedSelect → Option (Option ℕ × WeightedSelect) → Type 0
  Draws s run =
      (r : Option ℕ) × (s' : WeightedSelect) × (run ≡ some (r, s'))
      × IsSelect s'
      × IsDrawn r s'
      × Refreshing s s'

module _ (weight : ℕ → ℕ → ℕ) (int63n : ℕ → ℕ → ℕ)
    (in_range : (k n : ℕ) → 0 < n → int63n k n < n) where
  accepted_weight :
      (t a last : ℕ) → 0 < last → is_accepted weight int63n t a last ≡ true → 0 < weight t a
  unfolding is_accepted
  accepted_weight t a last pos yes_ = ground arith

  rejected_weight : (t a last : ℕ) → is_accepted weight int63n t a last ≡ false → weight t a < last
  unfolding is_accepted
  rejected_weight t a last no_ = ground arith

  eq_refl : (a : ℕ) → (a == a) ≡ true
  eq_refl a = ground arith

  -- When a set is valid, the random numbers lie below their bounds, its sum with any value of
  -- Weight() is below 2^63, and the loop may take more turns than its sum, choose ends, whatever
  -- Weight() returns at each time, and leaves a valid set: with nil if its sum is 0, or with an
  -- item whose Weight() in a turn was not 0 and is what the set stores; the set comes from the old
  -- one by steps that each give an item with a weight in the set the value of its Weight() at a
  -- time, and leave the other weights.
  pub select_choose-Draws :
      (fuel k : ℕ) (s : WeightedSelect)
      → IsSelect s
      → s.root.sum_weight < fuel
      → ((t a : ℕ) → s.root.sum_weight + weight t a < 2 ^ 63)
      → Draws weight s (select_choose weight int63n fuel k s)
  unfolding select_choose
  select_choose-Draws zero k s h enough small = absurd (omega arith)
  select_choose-Draws (suc fuel) k s h enough small = elim (Bool-cases (s.root.sum_weight == 0)) [
    | inl nothing ↦ rw nothing (none, s, refl, h, ground arith, Refreshing.still)
    | inr filled ↦
        let pos : 0 < s.root.sum_weight = ground arith in
        let (whole, (a, last, i, run, was, heavy)) =
          choose-Chooses s.level s.root (int63n k s.root.sum_weight) h.tree
            (in_range k s.root.sum_weight pos) in
        let (t, fresh, there, step) = refreshed-Refreshes weight k s a last i h was (small k a) in
        let (ht, law, sum) = step in
        let heavy' : 0 < weight_in s a = omega (arith, there, heavy) in
        let now : weight_in t a ≡ weight k a =
          law a ∙ ap (λ b. if b then weight k a else weight_in s a) (eq_refl a) in
        elim (Bool-cases (is_accepted weight int63n k a last)) [
          | inl taken ↦
              rw (filled, run, fresh, taken)
                (
                  some a,
                  t,
                  refl,
                  ht,
                  (k, accepted_weight k a last heavy taken, now),
                  Refreshing.turned k a heavy' step Refreshing.still,
                )
          | inr again ↦
              let lighter = rejected_weight k a last again in
              let less : t.root.sum_weight < s.root.sum_weight =
                omega (arith, sum, there, lighter) in
              let (r, s', rest, h', drawn, steps) =
                select_choose-Draws fuel (suc (suc k)) t ht (omega arith)
                  (λ u b. let old = small u b in omega arith) in
              rw (filled, run, fresh, again)
                (r, s', rest, h', drawn, Refreshing.turned k a heavy' step steps)
        ]
  ]
