-- ===== src/Gossip/Processing/Steps.antt =====
-- The steps of processEvent, one equation for each outcome.
use go_mini_opera.Prelude.{
  ℕ, ◌≡◌, refl, sym, ap, ◌∙◌, arith, ◌⊎◌, inl, inr, Bool, false, Option, none, some, ◌==◌, not,
  ◌&&◌, if◌then◌else◌, Option-cases, Bool-cases,
}
use go_mini_opera.Inter.Event.{Event}
use go_mini_opera.EventCheck.Errors.{CheckError, already_connected}
use go_mini_opera.Gossip.Heads.{EventId, is_some}
use go_mini_opera.Gossip.Heads.Tracking.{true_ne_false}
use go_mini_opera.Gossip.Processing.{
  ServiceKv, Service, Consensus, ProcessError, rejected, service_stopped, has_event, set_event,
  del_event, run_engine, on_connected, commit, after_commit, commit_failed, after_engine,
  process_event,
}

module _ (kv : ServiceKv) (consensus : Consensus kv) where
  -- The outcomes of processEvent.
  pub outcomes :
      (s : Service kv) (e : Event)
      → ((err : ProcessError) × (process_event kv consensus s e ≡ (some err, s)))
        ⊎ ((has_event kv consensus s e.id ≡ false)
            × (process_event kv consensus s e
                ≡ after_engine kv consensus s.epoch e
                    (run_engine kv consensus (set_event kv consensus s e) e)))
  unfolding process_event
  outcomes s e = elim (Bool-cases s.stopped) [
    | inl stopped ↦ inl (service_stopped, ground arith)
    | inr running ↦ elim (Bool-cases (has_event kv consensus s e.id)) [
      | inl known ↦ inl (rejected already_connected, ground arith)
      | inr unknown ↦ elim (Option-cases (consensus.epoch_check s.epoch e)) [
        | inr (err, fails) ↦ inl (rejected err, ground arith)
        | inl passes ↦ inr (unknown, ground arith)
      ]
    ]
  ]

  pub after_engine-some :
      (old : ℕ) (e : Event) (o : Option CheckError) (s : Service kv) (err : CheckError)
      → o ≡ some err
      → after_engine kv consensus old e (o, s)
        ≡ (some (rejected err), del_event kv consensus s e.id)
  unfolding after_engine
  after_engine-some old e o s err failed = rw failed refl

  after_commit-cases :
      (o : Option CheckError) (s : Service kv)
      → (after_commit kv consensus (o, s) ≡ (none, s))
        ⊎ ((c : CheckError) × (after_commit kv consensus (o, s) ≡ (some (commit_failed c), s)))
  unfolding after_commit
  after_commit-cases none s = inl refl
  after_commit-cases (some c) s = inr (c, refl)

  -- The service with another state of the engine.
  abbrev pub with_engine : Service kv → kv.Engine → Service kv
  with_engine s engine = record s { engine = engine }

  -- Commit changes no table.
  commit_lem :
      (s : Service kv) (id : EventId) (immediately : Bool)
      → (o : Option CheckError) × (engine : kv.Engine) × (commit kv consensus s id immediately
          ≡ (o, with_engine s engine))
  unfolding commit
  commit_lem s id immediately =
      elim (Bool-cases (not immediately && not (consensus.is_flush_needed s.engine))) [
        | inl later ↦ (none, s.engine, ap (λ b. if b then (none, s) else flushed) later)
        | inr now ↦ (flushed.0, flushed.1.engine, ap (λ b. if b then (none, s) else flushed) now)
      ]
    where
      flushed : Option CheckError × Service kv
      flushed =
          let (err, engine) = consensus.flush s.engine id in (err, record s { engine = engine })

  -- After a successful run of the engine, processEvent fails only where Commit does.
  pub connected :
      (old : ℕ) (e : Event) (o : Option CheckError) (s : Service kv)
      → o ≡ none
      → (engine : kv.Engine) × ((after_engine kv consensus old e (o, s)
            ≡ (none, with_engine (on_connected kv consensus old e s) engine))
          ⊎ ((c : CheckError) × (after_engine kv consensus old e (o, s) ≡ (
            some (commit_failed c),
            with_engine (on_connected kv consensus old e s) engine,
          ))))
  unfolding after_engine
  connected old e o s passed =
      let done = on_connected kv consensus old e s in
      let (result, engine, run) = commit_lem done e.id (not (done.epoch == old)) in
      elim (after_commit-cases result (with_engine done engine)) [
        | inl fine ↦ (engine, inl (rw passed (ap (λ r. after_commit kv consensus r) run ∙ fine)))
        | inr (c, fails) ↦
            (engine, inr (c, rw passed (ap (λ r. after_commit kv consensus r) run ∙ fails)))
      ]

  -- The service after the engine ran on the stored event.
  abbrev pub ran : Service kv → Event → Service kv
  ran s e = (run_engine kv consensus (set_event kv consensus s e) e).1

  pub ran-events : (s : Service kv) (e : Event) → (ran s e).events ≡ kv.events.put s.events e.id e
  unfolding run_engine set_event
  ran-events s e = refl

  pub ran-epoch_store : (s : Service kv) (e : Event) → (ran s e).epoch_store ≡ s.epoch_store
  unfolding run_engine set_event
  ran-epoch_store s e = refl

  pub ran-packs : (s : Service kv) (e : Event) → (ran s e).packs ≡ s.packs
  unfolding run_engine set_event
  ran-packs s e = refl

  pub not_stored :
      (s : Service kv) (id : EventId)
      → has_event kv consensus s id ≡ false
      → kv.events.get s.events id ≡ none
  unfolding has_event
  not_stored s id h = elim (Option-cases (kv.events.get s.events id)) [
    | inl absent ↦ absent
    | inr (e, there) ↦ absurd (true_ne_false (sym (ap is_some there) ∙ h))
  ]
