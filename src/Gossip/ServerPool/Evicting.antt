-- ===== src/Gossip/ServerPool/Evicting.antt =====
-- The queues of the server pool, and the entries that it makes and forgets.
use go_mini_opera.Prelude.{
  ℕ, suc, ◌+◌, ◌^◌, ◌<◌, ◌≡◌, refl, ap, ◌∙◌, subst, inl, inr, true, Option, none, some, List, [],
  ◌∷◌, ◌==◌, if◌then◌else◌, Bool-cases, arith,
}
use go_mini_opera.Prelude.Int.{ℤ, pos}
use go_mini_opera.Gossip.PoolQueue.Oldest.{set_latest-SetsLatest}
use go_mini_opera.Gossip.WeightedSelect.{select_remove}
use go_mini_opera.Gossip.WeightedSelect.Growing.{select_set_weight-Updates}
use go_mini_opera.Gossip.ServerPool.{PoolEntry, ServerPool, put_entry}
use go_mini_opera.Gossip.ServerPool.Stocking.{IsStocked-small, IsStocked-more, updated-IsStocked}
use go_mini_opera.Gossip.ServerPool.Events.{
  remove_from_pool, evict, latest_known, latest_new, new_entry, entry_for, find_or_new_node,
}
use go_mini_opera.Gossip.ServerPool.Counting.{count_entries, stored, count_above, bit}
use go_mini_opera.Gossip.ServerPool.Invariant.{
  is_known_chosen, is_new_chosen, is_joined, HasConns, HasConns-same, IsCounted, IsPool,
  IsCounted-same,
}

-- A run that keeps the invariant and makes no entry.
abbrev pub KeepsAll : ℕ → Option ServerPool → Type 0
KeepsAll next run = (p' : ServerPool) × (run ≡ some p') × IsPool p' × (p'.next_entry ≡ next)

without_id :
    (ids : ℕ → Option ℕ) (gone next : ℕ)
    → ((id e : ℕ) → ids id ≡ some e → e < next)
    → (id e : ℕ) → (if id == gone then none else ids id) ≡ some e
    → e < next
without_id ids gone next h id e found = elim (Bool-cases (id == gone)) [
  | inl same ↦ absurd (none_ne_some (rw same at found))
  | inr other ↦ h id e (rw other at found)
]
  where
    none_ne_some : ¬ (none ≡ some e)
    none_ne_some x = absurd cc

remove_from_pool-KeepsAll :
    (p : ServerPool) (e : ℕ) → IsPool p → KeepsAll p.next_entry (remove_from_pool p e)
unfolding remove_from_pool select_remove put_entry
remove_from_pool-KeepsAll p e h =
    let (news, run1, news_in) =
      updated-IsStocked p.new_select p.next_entry e 0 _ h.news (inr refl) (omega arith) (
        select_set_weight-Updates p.new_select e 0 h.news.valid
          (IsStocked-small p.new_select p.next_entry 0 h.news (omega arith))) in
    let (knowns, run2, knowns_in) =
      updated-IsStocked p.known_select p.next_entry e 0 _ h.knowns (inr refl) (omega arith) (
        select_set_weight-Updates p.known_select e 0 h.knowns.valid
          (IsStocked-small p.known_select p.next_entry 0 h.knowns (omega arith))) in
    (
      record (put_entry p e (record (p.store e) { is_removed = true })) {
        new_select = news;
        known_select = knowns;
        entry_of_id = λ id. if id == (p.store e).node_id then none else p.entry_of_id id;
      },
      rw (run1, run2) refl,
      record {
        server = h.server;
        counted =
            IsCounted-same p.store e (record (p.store e) { is_removed = true }) p.next_entry
              p.known_selected p.new_selected refl refl h.counted;
        conns =
            HasConns-same p.store e (record (p.store e) { is_removed = true }) p.next_entry
              p.conn_wg refl h.conns;
        knowns = knowns_in;
        news = news_in;
        known_order = h.known_order;
        new_order = h.new_order;
        ids = without_id p.entry_of_id (p.store e).node_id p.next_entry h.ids;
      },
      refl,
    )

evict-KeepsAll : (es : List ℕ) (p : ServerPool) → IsPool p → KeepsAll p.next_entry (evict p es)
unfolding evict
evict-KeepsAll [] p h = (p, refl, h, refl)
evict-KeepsAll (e ∷ es) p h =
    let (p1, run1, h1, same1) = remove_from_pool-KeepsAll p e h in
    let (p2, run2, h2, same2) = evict-KeepsAll es p1 h1 in (p2, rw run1 run2, h2, same2 ∙ same1)

pub latest_known-KeepsAll :
    (p : ServerPool) (e : ℕ) → IsPool p → KeepsAll p.next_entry (latest_known p e)
unfolding latest_known
latest_known-KeepsAll p e h =
    let (q, run, order, latest) =
      set_latest-SetsLatest (record p.known_queue { queue_idx = p.queue_index; removed = [] }) e
        h.known_order in
    let (p', evicted, h', same) =
      evict-KeepsAll q.removed (record p { known_queue = q; queue_index = q.queue_idx })
        (record {
          server = h.server;
          counted = h.counted;
          conns = h.conns;
          knowns = h.knowns;
          news = h.news;
          known_order = order;
          new_order = h.new_order;
          ids = h.ids;
        }) in
    (p', rw run evicted, h', same)

pub latest_new-KeepsAll :
    (p : ServerPool) (e : ℕ) → IsPool p → KeepsAll p.next_entry (latest_new p e)
unfolding latest_new
latest_new-KeepsAll p e h =
    let (q, run, order, latest) =
      set_latest-SetsLatest (record p.new_queue { queue_idx = p.queue_index; removed = [] }) e
        h.new_order in
    let (p', evicted, h', same) =
      evict-KeepsAll q.removed (record p { new_queue = q; queue_index = q.queue_idx })
        (record {
          server = h.server;
          counted = h.counted;
          conns = h.conns;
          knowns = h.knowns;
          news = h.news;
          known_order = h.known_order;
          new_order = order;
          ids = h.ids;
        }) in
    (p', rw run evicted, h', same)

-- The counters with an entry more, which is not connected.
IsCounted-new :
    (store : ℕ → PoolEntry) (id n : ℕ) (a b : ℤ)
    → IsCounted store n a b
    → IsCounted (stored store n (new_entry id)) (n + 1) a b
IsCounted-new store id n a b h =
    let next : suc n ≡ n + 1 = omega arith in
    let own : stored store n (new_entry id) n ≡ new_entry id =
      let same : (n == n) ≡ true = ground arith in rw same refl in
    let kc = count_above is_known_chosen store n (new_entry id) n (omega arith) in
    let nc = count_above is_new_chosen store n (new_entry id) n (omega arith) in
    let kb : bit (is_known_chosen (stored store n (new_entry id) n)) ≡ 0 =
      ap (λ x. bit (is_known_chosen x)) own in
    let nb : bit (is_new_chosen (stored store n (new_entry id) n)) ≡ 0 =
      ap (λ x. bit (is_new_chosen x)) own in
    let known : count_entries is_known_chosen store n
        ≡ count_entries is_known_chosen (stored store n (new_entry id)) (suc n) =
      omega (arith, kc, kb) in
    let new : count_entries is_new_chosen store n
        ≡ count_entries is_new_chosen (stored store n (new_entry id)) (suc n) =
      omega (arith, nc, nb) in
    subst (λ m. IsCounted (stored store n (new_entry id)) m a b) next
      (record {
        known_count = h.known_count ∙ ap pos known;
        new_count = h.new_count ∙ ap pos new;
        known_few = omega (arith, known, h.known_few);
        new_few = omega (arith, new, h.new_few);
      })

conns_new :
    (store : ℕ → PoolEntry) (id n w : ℕ)
    → HasConns store n w
    → HasConns (stored store n (new_entry id)) (n + 1) w
conns_new store id n w h =
    let next : suc n ≡ n + 1 = omega arith in
    let own : stored store n (new_entry id) n ≡ new_entry id =
      let same : (n == n) ≡ true = ground arith in rw same refl in
    let above = count_above is_joined store n (new_entry id) n (omega arith) in
    let off : bit (is_joined (stored store n (new_entry id) n)) ≡ 0 =
      ap (λ x. bit (is_joined x)) own in
    let more : w ≡ count_entries is_joined (stored store n (new_entry id)) (suc n) =
      omega (arith, h, above, off) in
    more ∙ ap (count_entries is_joined (stored store n (new_entry id))) next

-- What findOrNewNode returns: an entry that is made.
abbrev pub Finds : Option (ServerPool × ℕ) → Type 0
Finds run = (p' : ServerPool) × (e : ℕ) × (run ≡ some (p', e)) × IsPool p' × (e < p'.next_entry)

entry_for-IsPool :
    (p : ServerPool) (id : ℕ) (o : Option ℕ)
    → IsPool p
    → p.next_entry < 2 ^ 33
    → p.entry_of_id id ≡ o
    → IsPool (entry_for p id o).0 × ((entry_for p id o).1 < (entry_for p id o).0.next_entry)
unfolding entry_for put_entry
entry_for-IsPool p id (some e) h few found = (h, h.ids id e found)
entry_for-IsPool p id none h few found = (
  record {
    server = h.server;
    counted = IsCounted-new p.store id p.next_entry p.known_selected p.new_selected h.counted;
    conns = conns_new p.store id p.next_entry p.conn_wg h.conns;
    knowns = IsStocked-more p.known_select p.next_entry h.knowns few;
    news = IsStocked-more p.new_select p.next_entry h.news few;
    known_order = h.known_order;
    new_order = h.new_order;
    ids = with_id;
  },
  omega arith,
)
  where
    with_id :
        (other e : ℕ)
        → (if other == id then some p.next_entry else p.entry_of_id other) ≡ some e
        → e < p.next_entry + 1
    with_id other e there = elim (Bool-cases (other == id)) [
      | inl same ↦
          let is : some p.next_entry ≡ some e = rw same at there in
          let at : p.next_entry ≡ e = cc in omega arith
      | inr differ ↦ let lt = h.ids other e (rw differ at there) in omega arith
    ]

pub find_or_new_node-Finds :
    (p : ServerPool) (id : ℕ) → IsPool p → p.next_entry < 2 ^ 33 → Finds (find_or_new_node p id)
unfolding find_or_new_node
find_or_new_node-Finds p id h few =
    let (h1, lt) = entry_for-IsPool p id (p.entry_of_id id) h few refl in
    let p1 = (entry_for p id (p.entry_of_id id)).0 in
    let e = (entry_for p id (p.entry_of_id id)).1 in
    elim (Bool-cases (p1.store e).is_known) [
      | inl known ↦ rw known (p1, e, refl, h1, lt)
      | inr new ↦
          let (p2, run, h2, same) = latest_new-KeepsAll p1 e h1 in
          rw (new, run) (p2, e, refl, h2, omega (arith, same, lt))
    ]
