-- ===== src/Gossip/ServerPool/Loops.antt =====
-- checkDial and updateCheckDial end and keep the invariant.
use go_mini_opera.Prelude.{
  ℕ, zero, suc, ◌+◌, ◌-◌, ◌<◌, ◌≡◌, refl, sym, ap, ◌∙◌, ◌⊎◌, inl, inr, Bool, true, false, not, ◌&&◌,
  Option, some, ltb, Bool-cases, arith,
}
use go_mini_opera.Prelude.Int.{pos, ◌+ℤ◌, below_ℤ}
use go_mini_opera.Gossip.WeightedSelect.{select_update}
use go_mini_opera.Gossip.WeightedSelect.Growing.{select_set_weight-Updates}
use go_mini_opera.Gossip.ServerPool.{
  ServerPool, Chance, new_weight, known_weight, try_known, try_new, dial_loop, wants_known,
  wants_servers, wants_more_known, check_dial, update_check_dial,
}
use go_mini_opera.Gossip.ServerPool.Counting.{count_entries}
use go_mini_opera.Gossip.ServerPool.Invariant.{is_known_chosen, is_new_chosen, IsPool, Keeps}
use go_mini_opera.Gossip.ServerPool.Stocking.{IsStocked-small, updated-IsStocked}
use go_mini_opera.Gossip.ServerPool.Candidates.{known_weight_few, new_weight_few}
use go_mini_opera.Gossip.ServerPool.Dialing.{
  left_known, left_new, Turns, IsChance, try_known-Turns, try_new-Turns,
}

-- A loop ends, by its condition or because nothing is left to dial.
abbrev pub Loops : (ServerPool → Bool) → Option (Bool × ServerPool) → Type 0
Loops more run =
    (b : Bool) × (p' : ServerPool) × (run ≡ some (b, p'))
    × IsPool p'
    × ((b ≡ false) ⊎ (more p' ≡ false))

dial_loop-Loops :
    (turn : ℕ → ServerPool → Option (Bool × ServerPool)) (more : ServerPool → Bool)
    (left : ServerPool → ℕ)
    → ((i : ℕ) (p : ServerPool) → IsPool p → more p ≡ true → Turns left p (turn i p))
    → (fuel : ℕ) (p : ServerPool) → IsPool p
    → left p < fuel
    → Loops more (dial_loop turn more fuel p)
unfolding dial_loop
dial_loop-Loops turn more left each zero p h enough = absurd (omega arith)
dial_loop-Loops turn more left each (suc fuel) p h enough = elim (Bool-cases (more p)) [
  | inr done ↦ rw done (true, p, refl, h, inr done)
  | inl again ↦
      let (b, p', run, h', next) = each fuel p h again in
      elim (Bool-cases b) [
        | inr stop ↦ rw (again, run, stop) (false, p', refl, h', inl refl)
        | inl go ↦
            rw (again, run, go)
              (dial_loop-Loops turn more left each fuel p' h'
                (elim next [ inl stop ↦ absurd (differ b go stop) | inr less ↦ omega arith ]))
      ]
]
  where
    differ : (b : Bool) → b ≡ true → ¬ (b ≡ false)
    differ b e f = absurd cc

-- What the conditions of the loops say of the counters.
wants_known_room :
    (p : ServerPool)
    → IsPool p
    → wants_known p ≡ true
    → count_entries is_known_chosen p.store p.next_entry < 5
unfolding wants_known
wants_known_room p h wants =
    let below : ltb (count_entries is_known_chosen p.store p.next_entry) 3 ≡ true =
      ap (λ z. below_ℤ z 3) (sym h.counted.known_count) ∙ wants in
    ground arith

wants_more_known_room :
    (p : ServerPool)
    → IsPool p
    → wants_more_known p ≡ true
    → count_entries is_known_chosen p.store p.next_entry < 5
unfolding wants_more_known
wants_more_known_room p h wants =
    let below : ltb (count_entries is_known_chosen p.store p.next_entry) 5 ≡ true =
      ap (λ z. below_ℤ z 5) (sym h.counted.known_count) ∙ wants in
    ground arith

wants_servers_room :
    (p : ServerPool)
    → IsPool p
    → wants_servers p ≡ true
    → count_entries is_new_chosen p.store p.next_entry < 5
unfolding wants_servers
wants_servers_room p h wants =
    let knowns = count_entries is_known_chosen p.store p.next_entry in
    let news = count_entries is_new_chosen p.store p.next_entry in
    let below : ltb (knowns + news) 5 ≡ true =
      ap (λ z. below_ℤ (z +ℤ pos news) 5) (sym h.counted.known_count)
      ∙ ap (λ z. below_ℤ (p.known_selected +ℤ z) 5) (sym h.counted.new_count)
      ∙ wants in
    ground arith

six : (a : ℕ) → 5 - a < 6
six a = omega arith

pub check_dial-Keeps :
    (c : Chance) (p : ServerPool) → IsChance c → IsPool p → Keeps (check_dial c p)
unfolding check_dial
check_dial-Keeps c p range h =
    let (b1, p1, run1, h1, end1) =
      dial_loop-Loops (try_known c) wants_known left_known
        (λ i q hq wants. try_known-Turns c i q range hq (wants_known_room q hq wants)) 6 p h
        (six _) in
    let (b2, p2, run2, h2, end2) =
      dial_loop-Loops (λ i. try_new c (6 + i)) wants_servers left_new
        (λ i q hq wants. try_new-Turns c (6 + i) q range hq (wants_servers_room q hq wants)) 6 p1 h1
        (six _) in
    let (b3, p3, run3, h3, end3) =
      dial_loop-Loops (λ i. try_known c (12 + i)) wants_more_known left_known
        (λ i q hq wants. try_known-Turns c (12 + i) q range hq (wants_more_known_room q hq wants)) 6
        p2 h2 (six _) in
    elim (Bool-cases (not p.fast_discover && b1)) [
      | inl fill ↦ (p3, rw (run1, run2, run3, fill) refl, h3)
      | inr full ↦ (p2, rw (run1, run2, full) refl, h2)
    ]

pub update_check_dial-Keeps :
    (c : Chance) (p : ServerPool) (e : ℕ)
    → IsChance c
    → IsPool p
    → e < p.next_entry
    → Keeps (update_check_dial c p e)
unfolding update_check_dial select_update
update_check_dial-Keeps c p e range h lt =
    let w = new_weight p c 18 0 e in
    let w_few = new_weight_few p c 18 0 e (range.new_few 18 0 e) in
    let v = known_weight p c 19 0 e in
    let v_few = known_weight_few p c 19 0 e (range.known_few 19 0 e) in
    let (news, run1, news_in) =
      updated-IsStocked p.new_select p.next_entry e w _ h.news (inl lt) w_few (
        select_set_weight-Updates p.new_select e w h.news.valid
          (IsStocked-small p.new_select p.next_entry w h.news w_few)) in
    let (knowns, run2, knowns_in) =
      updated-IsStocked p.known_select p.next_entry e v _ h.knowns (inl lt) v_few (
        select_set_weight-Updates p.known_select e v h.knowns.valid
          (IsStocked-small p.known_select p.next_entry v h.knowns v_few)) in
    let (p', run3, h') =
      check_dial-Keeps c (record p { new_select = news; known_select = knowns }) range
        (record {
          server = h.server;
          counted = h.counted;
          conns = h.conns;
          knowns = knowns_in;
          news = news_in;
          known_order = h.known_order;
          new_order = h.new_order;
          ids = h.ids;
        }) in
    (p', rw (run1, run2) run3, h')
