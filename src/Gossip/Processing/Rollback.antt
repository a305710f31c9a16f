-- ===== src/Gossip/Processing/Rollback.antt =====
-- What processEvent leaves as it was when it fails.
use go_mini_opera.Prelude.{
  ◌≡◌, ◌≢◌, refl, sym, ap, ◌∙◌, subst, inl, inr, false, none, some, Option-cases,
}
use go_mini_opera.Inter.Event.{Event}
use go_mini_opera.EventCheck.Errors.{CheckError}
use go_mini_opera.Gossip.Kv.{KvLaws}
use go_mini_opera.Gossip.Heads.{EventId}
use go_mini_opera.Gossip.Heads.Tracking.{id-cases}
use go_mini_opera.Gossip.Processing.{
  ServiceKv, Service, Consensus, ProcessError, has_event, set_event, del_event, run_engine,
  commit_failed, process_event,
}
use go_mini_opera.Gossip.Processing.Steps.{
  outcomes, after_engine-some, connected, ran, ran-events, ran-epoch_store, ran-packs, not_stored,
}

module _ (kv : ServiceKv) (consensus : Consensus kv) (event_laws : KvLaws kv.events) where
  -- The tables of `r` read as those of `s`.
  pub record SameTables (s r : Service kv) : Type 0 where
    pub events : (id : EventId) → kv.events.get r.events id ≡ kv.events.get s.events id
    pub epoch_store : r.epoch_store ≡ s.epoch_store
    pub packs : r.packs ≡ s.packs

  rolled_back :
      (s : Service kv) (e : Event)
      → has_event kv consensus s e.id ≡ false
      → SameTables s (del_event kv consensus (ran kv consensus s e) e.id)
  unfolding del_event
  rolled_back s e unknown = record {
    events = λ id. elim (id-cases id e.id) [
      | inl same ↦
          ap (λ x. kv.events.get (kv.events.delete (ran kv consensus s e).events e.id) x) same
          ∙ event_laws.get-delete_self (ran kv consensus s e).events e.id
          ∙ sym (not_stored kv consensus s e.id unknown)
          ∙ ap (λ x. kv.events.get s.events x) (sym same)
      | inr differ ↦
          event_laws.get-delete_ne (ran kv consensus s e).events e.id id differ
          ∙ ap (λ t. kv.events.get t id) (ran-events kv consensus s e)
          ∙ event_laws.get-put_ne s.events e.id id e differ
    ];
    epoch_store = ran-epoch_store kv consensus s e;
    packs = ran-packs kv consensus s e;
  }

  same_service : (s r : Service kv) → s ≡ r → SameTables s r
  same_service s r same =
      subst (λ x. SameTables s x) same
        (record { events = λ id. refl; epoch_store = refl; packs = refl })

  -- When processEvent returns an error that is not Commit's, the events, the heads, the last events
  -- and the packs read as they did before, also when the engine fails after the event was stored,
  -- given that tables read what was last put or deleted.
  pub process_event-failed :
      (s r : Service kv) (e : Event) (err : ProcessError)
      → process_event kv consensus s e ≡ (some err, r)
      → ((c : CheckError) → err ≢ commit_failed c)
      → SameTables s r
  process_event-failed s r e err h not_commit = elim (outcomes kv consensus s e) [
    | inl (early, stops) ↦ same_service s r (ap (λ p. p.1) (sym stops ∙ h))
    | inr (unknown, run) ↦
        elim (Option-cases (run_engine kv consensus (set_event kv consensus s e) e).0) [
          | inl passes ↦ elim (connected kv consensus s.epoch e _ (ran kv consensus s e) passes).1 [
            | inl fine ↦ absurd (some_not_none (ap (λ p. p.0) (sym h ∙ run ∙ fine)))
            | inr (c, fails) ↦
                absurd (not_commit c (error_same (ap (λ p. p.0) (sym h ∙ run ∙ fails))))
          ]
          | inr (failure, fails) ↦
              subst (λ x. SameTables s x)
                (ap (λ p. p.1)
                  (sym (run ∙ after_engine-some kv consensus s.epoch e _ _ failure fails) ∙ h))
                (rolled_back s e unknown)
        ]
  ]
    where
      some_not_none : (some err) ≢ none
      some_not_none x = absurd cc

      error_same : {x : ProcessError} → some err ≡ some x → err ≡ x
      error_same x = cc
