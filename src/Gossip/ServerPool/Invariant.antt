-- ===== src/Gossip/ServerPool/Invariant.antt =====
-- The invariant of the server pool, and what dialing an entry does to the counters.
use go_mini_opera.Prelude.{
  ℕ, suc, ◌<◌, ◌≤◌, ◌≡◌, refl, sym, ap, ◌∙◌, Bool, true, false, not, ◌&&◌, Option, some, arith,
}
use go_mini_opera.Prelude.Int.{ℤ, pos, inc_ℤ}
use go_mini_opera.Gossip.PoolQueue.Oldest.{IsQueue}
use go_mini_opera.Gossip.ServerPool.{PoolState, PoolEntry, ServerPool, is_not_connected}
use go_mini_opera.Gossip.ServerPool.Stocking.{IsStocked}
use go_mini_opera.Gossip.ServerPool.Events.{has_peer}
use go_mini_opera.Gossip.ServerPool.Counting.{count_entries, stored, count_put, count_same, bit}

-- Dialed or connected, and selected as a known entry or as a new one.
abbrev pub is_known_chosen : PoolEntry → Bool
is_known_chosen entry = not (is_not_connected entry.state) && entry.is_known_selected

abbrev pub is_new_chosen : PoolEntry → Bool
is_new_chosen entry = not (is_not_connected entry.state) && not entry.is_known_selected

-- The counters number the chosen entries, and there are at most five of each kind.
pub record IsCounted (store : ℕ → PoolEntry) (next : ℕ) (knowns news : ℤ) : Type 0 where
  pub known_count : knowns ≡ pos (count_entries is_known_chosen store next)
  pub new_count : news ≡ pos (count_entries is_new_chosen store next)
  pub known_few : count_entries is_known_chosen store next ≤ 5
  pub new_few : count_entries is_new_chosen store next ≤ 5

-- The wait group counts the entries that have a peer.
abbrev pub is_joined : PoolEntry → Bool
is_joined entry = has_peer entry.state

abbrev pub HasConns : (ℕ → PoolEntry) → ℕ → ℕ → Type 0
HasConns store next conn_wg = conn_wg ≡ count_entries is_joined store next

pub record IsPool (p : ServerPool) : Type 0 where
  pub server : p.has_server ≡ true
  pub counted : IsCounted p.store p.next_entry p.known_selected p.new_selected
  pub conns : HasConns p.store p.next_entry p.conn_wg
  pub knowns : IsStocked p.known_select p.next_entry
  pub news : IsStocked p.new_select p.next_entry
  pub known_order : IsQueue p.known_queue
  pub new_order : IsQueue p.new_queue
  pub ids : (id e : ℕ) → p.entry_of_id id ≡ some e → e < p.next_entry

-- A run that does not panic and keeps the invariant.
abbrev pub Keeps : Option ServerPool → Type 0
Keeps run = (p' : ServerPool) × (run ≡ some p') × IsPool p'

pub IsCounted-same :
    (store : ℕ → PoolEntry) (e : ℕ) (entry : PoolEntry) (n : ℕ) (a b : ℤ)
    → entry.state ≡ (store e).state
    → entry.is_known_selected ≡ (store e).is_known_selected
    → IsCounted store n a b
    → IsCounted (stored store e entry) n a b
IsCounted-same store e entry n a b state selected h =
    let known : is_known_chosen entry ≡ is_known_chosen (store e) = rw (state, selected) refl in
    let new : is_new_chosen entry ≡ is_new_chosen (store e) = rw (state, selected) refl in
    let kc = count_same is_known_chosen store e entry n known in
    let nc = count_same is_new_chosen store e entry n new in
    record {
      known_count = h.known_count ∙ ap pos (sym kc);
      new_count = h.new_count ∙ ap pos (sym nc);
      known_few = omega (arith, kc, h.known_few);
      new_few = omega (arith, nc, h.new_few);
    }

abbrev pub dialed_entry : PoolEntry → Bool → PoolEntry
dialed_entry entry known = record entry { state = PoolState.dialed; is_known_selected = known }

-- An entry that was not chosen and now is.
pub IsCounted-dial_known :
    (store : ℕ → PoolEntry) (e n : ℕ) (a b : ℤ)
    → e < n
    → (store e).state ≡ PoolState.not_connected
    → count_entries is_known_chosen store n < 5
    → IsCounted store n a b
    → IsCounted (stored store e (dialed_entry (store e) true)) n (inc_ℤ a) b
      × (suc (count_entries is_known_chosen store n)
          ≡ count_entries is_known_chosen (stored store e (dialed_entry (store e) true)) n)
IsCounted-dial_known store e n a b lt state room h =
    let entry = dialed_entry (store e) true in
    let free : is_known_chosen (store e) ≡ false = rw state refl in
    let free' : is_new_chosen (store e) ≡ false = rw state refl in
    let put = count_put is_known_chosen store e entry n lt in
    let same = count_same is_new_chosen store e entry n (sym free') in
    let more : suc (count_entries is_known_chosen store n)
        ≡ count_entries is_known_chosen (stored store e entry) n =
      omega (arith, put, ap bit free) in
    (
      record {
        known_count = ap inc_ℤ h.known_count ∙ ap pos more;
        new_count = h.new_count ∙ ap pos (sym same);
        known_few = omega (arith, more);
        new_few = omega (arith, same, h.new_few);
      },
      more,
    )

pub IsCounted-dial_new :
    (store : ℕ → PoolEntry) (e n : ℕ) (a b : ℤ)
    → e < n
    → (store e).state ≡ PoolState.not_connected
    → count_entries is_new_chosen store n < 5
    → IsCounted store n a b
    → IsCounted (stored store e (dialed_entry (store e) false)) n a (inc_ℤ b)
      × (suc (count_entries is_new_chosen store n)
          ≡ count_entries is_new_chosen (stored store e (dialed_entry (store e) false)) n)
IsCounted-dial_new store e n a b lt state room h =
    let entry = dialed_entry (store e) false in
    let free : is_new_chosen (store e) ≡ false = rw state refl in
    let free' : is_known_chosen (store e) ≡ false = rw state refl in
    let put = count_put is_new_chosen store e entry n lt in
    let same = count_same is_known_chosen store e entry n (sym free') in
    let more : suc (count_entries is_new_chosen store n)
        ≡ count_entries is_new_chosen (stored store e entry) n =
      omega (arith, put, ap bit free) in
    (
      record {
        new_count = ap inc_ℤ h.new_count ∙ ap pos more;
        known_count = h.known_count ∙ ap pos (sym same);
        new_few = omega (arith, more);
        known_few = omega (arith, same, h.known_few);
      },
      more,
    )

pub HasConns-same :
    (store : ℕ → PoolEntry) (e : ℕ) (entry : PoolEntry) (n w : ℕ)
    → has_peer entry.state ≡ has_peer (store e).state
    → HasConns store n w
    → HasConns (stored store e entry) n w
HasConns-same store e entry n w state h = h ∙ sym (count_same is_joined store e entry n state)
