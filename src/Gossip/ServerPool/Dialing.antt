-- ===== src/Gossip/ServerPool/Dialing.antt =====
-- The turns of checkDial: each dials an entry, unless there is none.
use go_mini_opera.Prelude.{
  ℕ, suc, ◌-◌, ◌<◌, ◌≤◌, ◌≡◌, refl, sym, ap, ◌∙◌, subst, ◌⊎◌, inl, inr, Bool, true, false, ◌&&◌,
  Option, none, some, if◌then◌else◌, arith,
}
use go_mini_opera.Prelude.Int.{inc_ℤ}
use go_mini_opera.Gossip.WeightedSelect.{WeightedSelect}
use go_mini_opera.Gossip.ServerPool.{
  PoolState, ServerPool, Chance, is_not_connected, new_weight, known_weight, put_entry, dial,
  dial_known, dial_new, try_known, try_new,
}
use go_mini_opera.Gossip.ServerPool.Events.{has_peer}
use go_mini_opera.Gossip.ServerPool.Counting.{count_entries}
use go_mini_opera.Gossip.ServerPool.Invariant.{
  is_known_chosen, is_new_chosen, IsPool, HasConns-same, dialed_entry, IsCounted-dial_known,
  IsCounted-dial_new,
}
use go_mini_opera.Gossip.ServerPool.Stocking.{IsStocked}
use go_mini_opera.Gossip.ServerPool.Candidates.{
  known_weight_pos, new_weight_pos, known_weight_few, new_weight_few, draws_made, IsMade,
}

-- The pool after `dial` of an entry that it does not refuse.
abbrev counted_dial : ServerPool → ℕ → Bool → ServerPool
counted_dial p e known =
    let p' =
      put_entry p e (record (p.store e) { state = PoolState.dialed; is_known_selected = known }) in
    if known
    then record p' { known_selected = inc_ℤ p'.known_selected }
    else record p' { new_selected = inc_ℤ p'.new_selected }

-- What is left of the five entries of a kind.
abbrev pub left_known : ServerPool → ℕ
left_known p = 5 - count_entries is_known_chosen p.store p.next_entry

abbrev pub left_new : ServerPool → ℕ
left_new p = 5 - count_entries is_new_chosen p.store p.next_entry

-- A turn of a loop keeps the invariant, and dials an entry unless there is none.
abbrev pub Turns : (ServerPool → ℕ) → ServerPool → Option (Bool × ServerPool) → Type 0
Turns left p run =
    (b : Bool) × (p' : ServerPool) × (run ≡ some (b, p'))
    × IsPool p'
    × ((b ≡ false) ⊎ (left p' < left p))

-- `dial` of an entry that it does not refuse.
dial_run :
    (p : ServerPool) (e : ℕ) (known : Bool)
    → p.has_server ≡ true
    → (p.store e).state ≡ PoolState.not_connected
    → dial p e known ≡ counted_dial p e known
unfolding dial
dial_run p e known server state =
    ap (λ b. if b then counted_dial p e known else p)
      (ap (λ b. b && is_not_connected (p.store e).state) server ∙ ap is_not_connected state)

fewer : (a b : ℕ) → suc a ≡ b → a < 5 → 5 - b < 5 - a
fewer a b e lt = omega arith

dialed_known :
    (p : ServerPool) (e : ℕ)
    → IsPool p
    → e < p.next_entry
    → (p.store e).state ≡ PoolState.not_connected
    → count_entries is_known_chosen p.store p.next_entry < 5
    → IsPool (dial p e true) × (left_known (dial p e true) < left_known p)
unfolding put_entry
dialed_known p e h lt state room =
    let (counted, more) =
      IsCounted-dial_known p.store e p.next_entry p.known_selected p.new_selected lt state room
        h.counted in
    subst (λ q. IsPool q × (left_known q < left_known p)) (sym (dial_run p e true h.server state))
      (
        record {
          server = h.server;
          counted = counted;
          conns =
              HasConns-same p.store e (dialed_entry (p.store e) true) p.next_entry p.conn_wg
                (sym (ap has_peer state)) h.conns;
          knowns = h.knowns;
          news = h.news;
          known_order = h.known_order;
          new_order = h.new_order;
          ids = h.ids;
        },
        fewer _ _ more room,
      )

dialed_new :
    (p : ServerPool) (e : ℕ)
    → IsPool p
    → e < p.next_entry
    → (p.store e).state ≡ PoolState.not_connected
    → count_entries is_new_chosen p.store p.next_entry < 5
    → IsPool (dial p e false) × (left_new (dial p e false) < left_new p)
unfolding put_entry
dialed_new p e h lt state room =
    let (counted, more) =
      IsCounted-dial_new p.store e p.next_entry p.known_selected p.new_selected lt state room
        h.counted in
    subst (λ q. IsPool q × (left_new q < left_new p)) (sym (dial_run p e false h.server state))
      (
        record {
          server = h.server;
          counted = counted;
          conns =
              HasConns-same p.store e (dialed_entry (p.store e) false) p.next_entry p.conn_wg
                (sym (ap has_peer state)) h.conns;
          knowns = h.knowns;
          news = h.news;
          known_order = h.known_order;
          new_order = h.new_order;
          ids = h.ids;
        },
        fewer _ _ more room,
      )

-- The random numbers lie below their bounds, and no formula yields more than 10^9.
pub record IsChance (c : Chance) : Type 0 where
  pub in_range : (turn k n : ℕ) → 0 < n → c.int63n turn k n < n
  pub known_few : (call time e : ℕ) → c.known_formula call time e ≤ 1000000000
  pub new_few : (call time e : ℕ) → c.new_formula call time e ≤ 1000000000

pub try_known-Turns :
    (c : Chance) (turn : ℕ) (p : ServerPool)
    → IsChance c
    → IsPool p
    → count_entries is_known_chosen p.store p.next_entry < 5
    → Turns left_known p (try_known c turn p)
unfolding try_known
try_known-Turns c turn p range h room =
    let (r, sel, run, stocked, made) =
      draws_made (known_weight p c turn) (c.int63n turn) p.known_select p.next_entry
        (range.in_range turn) (λ t e. known_weight_few p c turn t e (range.known_few turn t e))
        h.knowns in
    rw run (drawn r sel stocked made)
  where
    with_set :
        (sel : WeightedSelect)
        → IsStocked sel p.next_entry
        → IsPool (record p { known_select = sel })
    with_set sel stocked = record {
      server = h.server;
      counted = h.counted;
      conns = h.conns;
      knowns = stocked;
      news = h.news;
      known_order = h.known_order;
      new_order = h.new_order;
      ids = h.ids;
    }

    drawn :
        (r : Option ℕ) (sel : WeightedSelect)
        → IsStocked sel p.next_entry
        → IsMade (known_weight p c turn) p.next_entry r
        → Turns left_known p (some (dial_known p (r, sel)))
    drawn none sel stocked made =
        (false, record p { known_select = sel }, refl, with_set sel stocked, inl refl)
    drawn (some e) sel stocked (t, pos_e, lt) =
        let (h', less) =
          dialed_known (record p { known_select = sel }) e (with_set sel stocked) lt
            (known_weight_pos p c turn t e pos_e) room in
        (true, dial (record p { known_select = sel }) e true, refl, h', inr less)

pub try_new-Turns :
    (c : Chance) (turn : ℕ) (p : ServerPool)
    → IsChance c
    → IsPool p
    → count_entries is_new_chosen p.store p.next_entry < 5
    → Turns left_new p (try_new c turn p)
unfolding try_new
try_new-Turns c turn p range h room =
    let (r, sel, run, stocked, made) =
      draws_made (new_weight p c turn) (c.int63n turn) p.new_select p.next_entry
        (range.in_range turn) (λ t e. new_weight_few p c turn t e (range.new_few turn t e))
        h.news in
    rw run (drawn r sel stocked made)
  where
    with_set :
        (sel : WeightedSelect) → IsStocked sel p.next_entry → IsPool (record p { new_select = sel })
    with_set sel stocked = record {
      server = h.server;
      counted = h.counted;
      conns = h.conns;
      news = stocked;
      knowns = h.knowns;
      known_order = h.known_order;
      new_order = h.new_order;
      ids = h.ids;
    }

    drawn :
        (r : Option ℕ) (sel : WeightedSelect)
        → IsStocked sel p.next_entry
        → IsMade (new_weight p c turn) p.next_entry r
        → Turns left_new p (some (dial_new p (r, sel)))
    drawn none sel stocked made =
        (false, record p { new_select = sel }, refl, with_set sel stocked, inl refl)
    drawn (some e) sel stocked (t, pos_e, lt) =
        let (h', less) =
          dialed_new (record p { new_select = sel }) e (with_set sel stocked) lt
            (new_weight_pos p c turn t e pos_e) room in
        (true, dial (record p { new_select = sel }) e false, refl, h', inr less)
