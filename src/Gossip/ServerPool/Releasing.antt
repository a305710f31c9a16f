-- ===== src/Gossip/ServerPool/Releasing.antt =====
-- Changes of one entry of the server pool: its flags, its state, and its release.
use go_mini_opera.Prelude.{
  ℕ, zero, suc, ◌+◌, subst, ◌<◌, ◌≡◌, refl, sym, ap, ◌∙◌, inl, inr, Bool, true, false, not, ◌&&◌,
  if◌then◌else◌, Bool-cases, arith,
}
use go_mini_opera.Prelude.Int.{ℤ, pos, dec_ℤ}
use go_mini_opera.Gossip.ServerPool.{PoolState, PoolEntry, ServerPool, is_not_connected, put_entry}
use go_mini_opera.Gossip.ServerPool.Events.{
  set_retry_dial, freed, release, is_dialed, has_peer, dial_timeout, wait_done, disconnect,
}
use go_mini_opera.Gossip.ServerPool.Counting.{count_entries, stored, count_put, count_same, bit}
use go_mini_opera.Gossip.ServerPool.Invariant.{
  is_known_chosen, is_new_chosen, is_joined, IsCounted, HasConns, HasConns-same, IsPool, Keeps,
  IsCounted-same,
}

-- A change of an entry that keeps its state and how it was selected.
pub put_entry-IsPool :
    (p : ServerPool) (e : ℕ) (entry : PoolEntry)
    → entry.state ≡ (p.store e).state
    → entry.is_known_selected ≡ (p.store e).is_known_selected
    → IsPool p
    → IsPool (put_entry p e entry)
unfolding put_entry
put_entry-IsPool p e entry state selected h = record {
  server = h.server;
  counted =
      IsCounted-same p.store e entry p.next_entry p.known_selected p.new_selected state selected
        h.counted;
  conns = HasConns-same p.store e entry p.next_entry p.conn_wg (ap has_peer state) h.conns;
  knowns = h.knowns;
  news = h.news;
  known_order = h.known_order;
  new_order = h.new_order;
  ids = h.ids;
}

-- Another state of an entry, with what the wait group then counts, among the chosen ones.
pub chosen_entry-IsPool :
    (p : ServerPool) (e : ℕ) (entry : PoolEntry) (w : ℕ)
    → entry.is_known_selected ≡ (p.store e).is_known_selected
    → is_not_connected entry.state ≡ false
    → is_not_connected (p.store e).state ≡ false
    → HasConns (stored p.store e entry) p.next_entry w
    → IsPool p
    → IsPool (record (put_entry p e entry) { conn_wg = w })
unfolding put_entry
chosen_entry-IsPool p e entry w selected chosen was conns h =
    let known : is_known_chosen entry ≡ is_known_chosen (p.store e) =
      rw (chosen, was, selected) refl in
    let new : is_new_chosen entry ≡ is_new_chosen (p.store e) = rw (chosen, was, selected) refl in
    let kc = count_same is_known_chosen p.store e entry p.next_entry known in
    let nc = count_same is_new_chosen p.store e entry p.next_entry new in
    record {
      server = h.server;
      counted = record {
        known_count = h.counted.known_count ∙ ap pos (sym kc);
        new_count = h.counted.new_count ∙ ap pos (sym nc);
        known_few = omega (arith, kc, h.counted.known_few);
        new_few = omega (arith, nc, h.counted.new_few);
      };
      conns = conns;
      knowns = h.knowns;
      news = h.news;
      known_order = h.known_order;
      new_order = h.new_order;
      ids = h.ids;
    }

dec_suc : (n m : ℕ) → n ≡ suc m → dec_ℤ (pos n) ≡ pos m
dec_suc n m e = ap (λ k. dec_ℤ (pos k)) e

-- An entry that was chosen and now is not.
IsCounted-release :
    (store : ℕ → PoolEntry) (e n : ℕ) (a b : ℤ) (selected : Bool)
    → e < n
    → is_not_connected (store e).state ≡ false
    → (store e).is_known_selected ≡ selected
    → IsCounted store n a b
    → IsCounted
        (stored store e (record (store e) { state = PoolState.not_connected }))
        n
        (if selected then dec_ℤ a else a)
        (if selected then b else dec_ℤ b)
IsCounted-release store e n a b true lt chosen selected h =
    let entry = record (store e) { state = PoolState.not_connected } in
    let was : is_known_chosen (store e) ≡ true = rw (chosen, selected) refl in
    let other : is_new_chosen (store e) ≡ false = rw (chosen, selected) refl in
    let put = count_put is_known_chosen store e entry n lt in
    let same = count_same is_new_chosen store e entry n (sym other) in
    let less : count_entries is_known_chosen store n
        ≡ suc (count_entries is_known_chosen (stored store e entry) n) =
      omega (arith, put, ap bit was) in
    record {
      known_count = ap dec_ℤ h.known_count ∙ dec_suc _ _ less;
      new_count = h.new_count ∙ ap pos (sym same);
      known_few = omega (arith, less, h.known_few);
      new_few = omega (arith, same, h.new_few);
    }
IsCounted-release store e n a b false lt chosen selected h =
    let entry = record (store e) { state = PoolState.not_connected } in
    let was : is_new_chosen (store e) ≡ true = rw (chosen, selected) refl in
    let other : is_known_chosen (store e) ≡ false = rw (chosen, selected) refl in
    let put = count_put is_new_chosen store e entry n lt in
    let same = count_same is_known_chosen store e entry n (sym other) in
    let less : count_entries is_new_chosen store n
        ≡ suc (count_entries is_new_chosen (stored store e entry) n) =
      omega (arith, put, ap bit was) in
    record {
      known_count = h.known_count ∙ ap pos (sym same);
      new_count = ap dec_ℤ h.new_count ∙ dec_suc _ _ less;
      known_few = omega (arith, same, h.known_few);
      new_few = omega (arith, less, h.new_few);
    }

abbrev free_entry : PoolEntry → PoolEntry
free_entry entry = record entry { state = PoolState.not_connected }

freed-IsPool :
    (p : ServerPool) (e : ℕ) (selected : Bool) (w : ℕ)
    → (p.store e).is_known_selected ≡ selected
    → IsPool p
    → e < p.next_entry
    → is_not_connected (p.store e).state ≡ false
    → HasConns (stored p.store e (free_entry (p.store e))) p.next_entry w
    → IsPool (record (freed p e selected) { conn_wg = w })
unfolding freed put_entry
freed-IsPool p e true w own h lt chosen conns = record {
  server = h.server;
  counted =
      IsCounted-release p.store e p.next_entry p.known_selected p.new_selected true lt chosen own
        h.counted;
  conns = conns;
  knowns = h.knowns;
  news = h.news;
  known_order = h.known_order;
  new_order = h.new_order;
  ids = h.ids;
}
freed-IsPool p e false w own h lt chosen conns = record {
  server = h.server;
  counted =
      IsCounted-release p.store e p.next_entry p.known_selected p.new_selected false lt chosen own
        h.counted;
  conns = conns;
  knowns = h.knowns;
  news = h.news;
  known_order = h.known_order;
  new_order = h.new_order;
  ids = h.ids;
}

release-IsPool :
    (p : ServerPool) (e w : ℕ)
    → IsPool p
    → e < p.next_entry
    → is_not_connected (p.store e).state ≡ false
    → HasConns (stored p.store e (free_entry (p.store e))) p.next_entry w
    → IsPool (record (release p e) { conn_wg = w })
unfolding release set_retry_dial put_entry
release-IsPool p e w h lt chosen conns =
    put_entry-IsPool (record (freed p e (p.store e).is_known_selected) { conn_wg = w }) e _ refl
      refl (freed-IsPool p e (p.store e).is_known_selected w refl h lt chosen conns)

release_conn_wg : (p : ServerPool) (e : ℕ) → (release p e).conn_wg ≡ p.conn_wg
unfolding release set_retry_dial put_entry freed
release_conn_wg p e = elim (Bool-cases (p.store e).is_known_selected) [
  | inl known ↦ rw known refl
  | inr new ↦ rw new refl
]

-- A timeout only concerns an entry that is dialed.
dialed_states :
    (s : PoolState) (removed : Bool) → (not removed && is_dialed s) ≡ true → s ≡ PoolState.dialed
dialed_states PoolState.dialed removed d = refl
dialed_states PoolState.connected true d = absurd cc
dialed_states PoolState.connected false d = absurd cc
dialed_states PoolState.registered true d = absurd cc
dialed_states PoolState.registered false d = absurd cc
dialed_states PoolState.not_connected true d = absurd cc
dialed_states PoolState.not_connected false d = absurd cc

pub dial_timeout-IsPool :
    (p : ServerPool) (e : ℕ) → IsPool p → e < p.next_entry → IsPool (dial_timeout p e)
unfolding dial_timeout
dial_timeout-IsPool p e h lt =
    elim (Bool-cases (not (p.store e).is_removed && is_dialed (p.store e).state)) [
      | inl due ↦
          let state = dialed_states (p.store e).state (p.store e).is_removed due in
          let conns =
            HasConns-same p.store e (free_entry (p.store e)) p.next_entry p.conn_wg
              (sym (ap has_peer state)) h.conns in
          rw due (
            subst (λ w. IsPool (record (release p e) { conn_wg = w })) (sym (release_conn_wg p e))
              (release-IsPool p e p.conn_wg h lt (ap is_not_connected state) conns))
      | inr early ↦ rw early h
    ]

pub peer_chosen : (s : PoolState) → has_peer s ≡ true → is_not_connected s ≡ false
peer_chosen PoolState.not_connected h = absurd cc
peer_chosen PoolState.dialed h = refl
peer_chosen PoolState.connected h = refl
peer_chosen PoolState.registered h = refl

positive : (n m : ℕ) → n ≡ m + 1 → (k : ℕ) × (n ≡ suc k) × (k ≡ m)
positive zero m e = absurd (omega arith)
positive (suc k) m e = (k, refl, omega arith)

pub disconnect-Keeps :
    (p : ServerPool) (e : ℕ)
    → IsPool p
    → e < p.next_entry
    → has_peer (p.store e).state ≡ true
    → Keeps (disconnect p e)
unfolding disconnect
disconnect-Keeps p e h lt peer =
    let put = count_put is_joined p.store e (free_entry (p.store e)) p.next_entry lt in
    let (k, whole, left) =
      positive p.conn_wg
        (count_entries is_joined (stored p.store e (free_entry (p.store e))) p.next_entry)
        (omega (arith, put, h.conns, ap bit peer)) in
    (
      record (release p e) { conn_wg = k },
      ap (wait_done (release p e)) (release_conn_wg p e ∙ whole),
      release-IsPool p e k h lt (peer_chosen (p.store e).state peer) left,
    )
