-- ===== src/Gossip/Processing/Consistency.antt =====
-- What processEvent keeps of the tables when it connects an event.
use go_mini_opera.Prelude.{
  ℕ, ◌≡◌, ◌≢◌, refl, sym, ap, ◌∙◌, subst, inl, inr, true, false, none, some, List, [], ◌∷◌, ◌==◌,
  if◌then◌else◌, Option-cases, Bool-cases,
}
use go_mini_opera.Inter.Event.{Event}
use go_mini_opera.Gossip.Kv.{KvLaws}
use go_mini_opera.Gossip.Heads.{EventId, is_head, is_some, IsIn, IsEventOf}
use go_mini_opera.Gossip.Heads.Tracking.{Tracks, track_event-Tracks, id-cases, true_ne_false}
use go_mini_opera.Gossip.Processing.{
  ServiceKv, Service, Consensus, ProcessError, rejected, has_event, set_event, run_engine,
  reset_epoch_store, on_connected, commit_failed, process_event,
}
use go_mini_opera.Gossip.Processing.Steps.{
  outcomes, after_engine-some, with_engine, connected, ran, ran-events, ran-epoch_store,
}

module _ (kv : ServiceKv) (consensus : Consensus kv) (event_laws : KvLaws kv.events)
    (head_laws : KvLaws kv.epoch.heads) where
  -- The connected events of the epoch are stored, and the heads are those without descendants.
  pub record IsConsistent (s : Service kv) (events : List Event) : Type 0 where
    pub tracks : Tracks kv.epoch head_laws s.epoch_store events
    pub stored : (id : EventId) → IsEventOf events id → has_event kv consensus s id ≡ true

  stored_new :
      (s : Service kv) (e : Event) (events : List Event)
      → ((id : EventId) → IsEventOf events id → has_event kv consensus s id ≡ true)
      → (id : EventId) → IsEventOf (e ∷ events) id
      → has_event kv consensus (ran kv consensus s e) id ≡ true
  unfolding has_event
  stored_new s e events stored id known =
      ap is_some (ap (λ t. kv.events.get t id) (ran-events kv consensus s e))
      ∙ (elim (id-cases id e.id) [
        | inl same ↦ ap is_some (
            ap (λ x. kv.events.get (kv.events.put s.events e.id e) x) same
            ∙ event_laws.get-put_self s.events e.id e)
        | inr differ ↦
            ap is_some (event_laws.get-put_ne s.events e.id id e differ)
            ∙ stored id (elim known [ inl same ↦ absurd (differ same) | inr old ↦ old ])
      ])

  fresh :
      (s : Service kv) (e : Event) (events : List Event)
      → ((id : EventId) → IsEventOf events id → has_event kv consensus s id ≡ true)
      → has_event kv consensus s e.id ≡ false
      → ¬ IsEventOf events e.id
  fresh s e events stored unknown known = true_ne_false (sym (stored e.id known) ∙ unknown)

  with_engine-IsConsistent :
      (s : Service kv) (events : List Event) (engine : kv.Engine)
      → IsConsistent s events
      → IsConsistent (with_engine kv consensus s engine) events
  unfolding has_event
  with_engine-IsConsistent s events engine consistent = record {
    tracks = consistent.tracks;
    stored = consistent.stored;
  }

  -- The events of the epoch that the service is in after `e` is connected.
  abbrev pub now_connected : Service kv → Service kv → Event → List Event → List Event
  now_connected s r e events = if r.epoch == s.epoch then e ∷ events else []

  on_connected-epoch :
      (old : ℕ) (s : Service kv) (e : Event) → (on_connected kv consensus old e s).epoch ≡ s.epoch
  unfolding on_connected reset_epoch_store
  on_connected-epoch old s e = elim (Bool-cases (s.epoch == old)) [
    | inl same ↦ rw same refl
    | inr sealed ↦ rw sealed refl
  ]

  module _
      (empty : (n : ℕ) (id : EventId)
        → is_head kv.epoch (consensus.new_epoch_store n) id ≡ false) where
    on_connected-IsConsistent :
        (s s' : Service kv) (e : Event) (events : List Event)
        → Tracks kv.epoch head_laws s'.epoch_store events
        → ((id : EventId) → IsEventOf (e ∷ events) id → has_event kv consensus s' id ≡ true)
        → (¬ IsEventOf events e.id)
        → ((id : EventId) → IsIn id e.parents → IsEventOf events id)
        → IsConsistent (on_connected kv consensus s.epoch e s') (now_connected s s' e events)
    unfolding on_connected reset_epoch_store has_event
    on_connected-IsConsistent s s' e events tracks stored new parents =
        elim (Bool-cases (s'.epoch == s.epoch)) [
          | inl same ↦ rw same (record {
            tracks =
                track_event-Tracks kv.epoch head_laws s'.epoch_store events e tracks new parents;
            stored = stored;
          })
          | inr sealed ↦ rw sealed (record {
            tracks = record {
              heads = λ id.
                  ((λ h. absurd (true_ne_false (sym h ∙ empty s'.epoch id))), λ h. absurd h.event);
              closed = λ id none'. none';
            };
            stored = λ id none'. absurd none';
          })
        ]

    after_connected :
        (s : Service kv) (e : Event) (events : List Event)
        → IsConsistent s events
        → ((id : EventId) → IsIn id e.parents → IsEventOf events id)
        → has_event kv consensus s e.id ≡ false
        → (engine : kv.Engine)
        → IsConsistent
            (with_engine kv consensus
              (on_connected kv consensus s.epoch e (ran kv consensus s e))
              engine)
            (now_connected s (on_connected kv consensus s.epoch e (ran kv consensus s e)) e events)
    after_connected s e events consistent parents unknown engine =
        with_engine-IsConsistent _ _ engine (
          subst
            (λ n.
              IsConsistent (on_connected kv consensus s.epoch e (ran kv consensus s e))
                (if n == s.epoch then e ∷ events else []))
            (sym (on_connected-epoch s.epoch (ran kv consensus s e) e))
            (on_connected-IsConsistent s (ran kv consensus s e) e events
              (subst (λ t. Tracks kv.epoch head_laws t events)
                (sym (ran-epoch_store kv consensus s e)) consistent.tracks)
              (stored_new s e events consistent.stored) (fresh s e events consistent.stored unknown)
              parents))

    -- If the Heads table holds exactly the connected events without descendants, and the connected
    -- events are stored, this is so again after processEvent returns nil for an event whose parents
    -- are connected: with the event added when the epoch goes on, and for no events when the epoch
    -- is sealed, given that a new epoch's Heads table is empty and that tables read what was last
    -- put or deleted.
    pub process_event-IsConsistent :
        (s r : Service kv) (e : Event) (events : List Event)
        → IsConsistent s events
        → ((id : EventId) → IsIn id e.parents → IsEventOf events id)
        → process_event kv consensus s e ≡ (none, r)
        → IsConsistent r (now_connected s r e events)
    process_event-IsConsistent s r e events consistent parents h =
        elim (outcomes kv consensus s e) [
          | inl (err, stops) ↦ absurd (none_not_some err (ap (λ p. p.0) (sym h ∙ stops)))
          | inr (unknown, run) ↦
              elim (Option-cases (run_engine kv consensus (set_event kv consensus s e) e).0) [
                | inr (err, fails) ↦ absurd (
                    none_not_some (rejected err) (
                      ap (λ p. p.0)
                        (sym h ∙ run ∙ after_engine-some kv consensus s.epoch e _ _ err fails)))
                | inl passes ↦
                    elim (connected kv consensus s.epoch e _ (ran kv consensus s e) passes).1 [
                      | inr (c, fails) ↦
                          absurd
                            (none_not_some (commit_failed c) (ap (λ p. p.0) (sym h ∙ run ∙ fails)))
                      | inl fine ↦
                          subst (λ x. IsConsistent x (now_connected s x e events))
                            (ap (λ p. p.1) (sym (run ∙ fine) ∙ h))
                            (after_connected s e events consistent parents unknown _)
                    ]
              ]
        ]
      where
        none_not_some : (x : ProcessError) → none ≢ (some x)
        none_not_some x y = absurd cc
