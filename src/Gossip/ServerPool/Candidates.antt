-- ===== src/Gossip/ServerPool/Candidates.antt =====
-- The entries that choose returns: they are made, and not connected.
use go_mini_opera.Prelude.{
  ℕ, suc, ◌<◌, ◌≤◌, ◌≡◌, refl, inl, inr, Bool, true, false, not, ◌||◌, Option, none, some, ltb,
  if◌then◌else◌, Bool-cases, arith,
}
use go_mini_opera.Gossip.WeightedSelect.{WeightedSelect, select_choose}
use go_mini_opera.Gossip.WeightedSelect.Drawing.{IsDrawn, select_choose-Draws}
use go_mini_opera.Gossip.ServerPool.{
  PoolState, ServerPool, Chance, is_not_connected, new_weight, known_weight,
}
use go_mini_opera.Gossip.ServerPool.Stocking.{IsStocked, IsStocked-small, Refreshing-IsStocked}

-- Only an entry that is not connected has a weight.
pos_not_connected :
    (s : PoolState) (b : Bool) (v : ℕ)
    → 0 < (if not (is_not_connected s) || b then 0 else v)
    → s ≡ PoolState.not_connected
pos_not_connected PoolState.not_connected b v h = refl
pos_not_connected PoolState.dialed b v h = absurd (omega arith)
pos_not_connected PoolState.connected b v h = absurd (omega arith)
pos_not_connected PoolState.registered b v h = absurd (omega arith)

pub known_weight_pos :
    (p : ServerPool) (c : Chance) (call time e : ℕ)
    → 0 < known_weight p c call time e
    → (p.store e).state ≡ PoolState.not_connected
unfolding known_weight
known_weight_pos p c call time e h =
    pos_not_connected (p.store e).state (not (p.store e).is_known || (p.store e).delayed_retry)
      (c.known_formula call time e) h

pub new_weight_pos :
    (p : ServerPool) (c : Chance) (call time e : ℕ)
    → 0 < new_weight p c call time e
    → (p.store e).state ≡ PoolState.not_connected
unfolding new_weight
new_weight_pos p c call time e h =
    pos_not_connected (p.store e).state (p.store e).delayed_retry (c.new_formula call time e) h

-- No weight is above 10^9, which the formulas do not exceed.
formula_few : (gone : Bool) (v : ℕ) → v ≤ 1000000000 → (if gone then 0 else v) ≤ 1000000000
formula_few true v le = omega arith
formula_few false v le = le

pub known_weight_few :
    (p : ServerPool) (c : Chance) (call time e : ℕ)
    → c.known_formula call time e ≤ 1000000000
    → known_weight p c call time e ≤ 1000000000
unfolding known_weight
known_weight_few p c call time e le =
    formula_few
      (not (is_not_connected (p.store e).state)
        || (not (p.store e).is_known || (p.store e).delayed_retry))
      (c.known_formula call time e) le

pub new_weight_few :
    (p : ServerPool) (c : Chance) (call time e : ℕ)
    → c.new_formula call time e ≤ 1000000000
    → new_weight p c call time e ≤ 1000000000
unfolding new_weight
new_weight_few p c call time e le =
    formula_few (not (is_not_connected (p.store e).state) || (p.store e).delayed_retry)
      (c.new_formula call time e) le

abbrev pub IsMade : (ℕ → ℕ → ℕ) → ℕ → Option ℕ → Type 0
IsMade weight next none = Unit {0}
IsMade weight next (some e) = (t : ℕ) × (0 < weight t e) × (e < next)

-- The draws of a set of made entries: choose ends, and its entry is made.
abbrev pub DrawsMade : (ℕ → ℕ → ℕ) → ℕ → Option (Option ℕ × WeightedSelect) → Type 0
DrawsMade weight next run =
    (r : Option ℕ) × (s' : WeightedSelect) × (run ≡ some (r, s'))
    × IsStocked s' next
    × IsMade weight next r

pub draws_made :
    (weight : ℕ → ℕ → ℕ) (int63n : ℕ → ℕ → ℕ) (s : WeightedSelect) (next : ℕ)
    → ((k n : ℕ) → 0 < n → int63n k n < n)
    → ((t e : ℕ) → weight t e ≤ 1000000000)
    → IsStocked s next
    → DrawsMade weight next (select_choose weight int63n (suc s.root.sum_weight) 0 s)
draws_made weight int63n s next range le h =
    let (r, s', run, h', drawn, steps) =
      select_choose-Draws weight int63n range (suc s.root.sum_weight) 0 s h.valid (omega arith)
        (λ t e. IsStocked-small s next (weight t e) h (le t e)) in
    let stocked = Refreshing-IsStocked weight s s' next le h steps in
    (r, s', run, stocked, made_of r s' drawn stocked)
  where
    made_of :
        (r : Option ℕ) (s' : WeightedSelect)
        → IsDrawn weight r s'
        → IsStocked s' next
        → IsMade weight next r
    made_of none s' d stocked = tt
    made_of (some e) s' (t, pos_e, now) stocked = (
      t,
      pos_e,
      elim (Bool-cases (ltb e next)) [
        | inl below ↦ ground arith
        | inr above ↦
            let over : next ≤ e = ground arith in
            absurd (omega (arith, pos_e, now, stocked.made e over))
      ],
    )
