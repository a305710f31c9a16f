-- ===== src/EventCheck/Heavy.antt =====
-- The queue of eventcheck/heavycheck: Overloaded, Enqueue and the loop of a worker.
use go_mini_opera.Prelude.{
  ◌⊎◌, inl, inr, drop-drop, drop_beyond, take_beyond, append-nil, append_assoc, Bool-cases, ℕ, zero,
  suc, ◌+◌, ◌-◌, ◌/◌, ◌<◌, ◌≤◌, ◌≡◌, refl, sym, ap, ◌∙◌, arith, not, true, false, ◌>>=◌, Bool,
  Option, none, some, List, [], ◌∷◌, ◌++◌, map, leb, ltb, if◌then◌else◌, length, take, drop, All,
  length-take, length-drop, take-append-drop,
}
use go_mini_opera.Inter.Event.{Event}
use go_mini_opera.EventCheck.Errors.{Failure}

abbrev pub max_queued_tasks : ℕ
max_queued_tasks = 128

abbrev pub max_batch : ℕ
max_batch = 4

-- `TaskData`, without the callback.
pub record TaskData : Type 0 where
  pub events : List Event
  pub result : List Failure

-- `Overloaded`, of the number of queued tasks.
unfoldable pub overloaded : ℕ → Bool
overloaded queued = ltb (max_queued_tasks / 2) queued

-- A task that was sent, before those that the rest of the loop sends.
abbrev pub sent_first : List Event → Option (List TaskData × Bool) → Option (List TaskData × Bool)
sent_first op none = none
sent_first op (some (ops, terminated)) =
    some (record { events = op; result = [] } ∷ ops, terminated)

-- `end` of the task at `start`, of so many events.
abbrev pub batch_end : ℕ → ℕ → ℕ
batch_end start n = if ltb (start + max_batch) n then start + max_batch else n

-- The loop of Enqueue from the position `start`. `accepts` says for the task of each position whether
-- the channel takes it before the checker is quit; the result is the tasks that were sent, and
-- whether errTerminated is returned.
unfoldable pub enqueue_from :
    (fuel : ℕ) → (ℕ → Bool) → List Event → ℕ → Option (List TaskData × Bool)
enqueue_from zero accepts events start = none
enqueue_from (suc fuel) accepts events start =
    let rest = enqueue_from fuel accepts events (start + max_batch) in
    if not (ltb start (length events))
    then some ([], false)
    else (if accepts start
        then sent_first (take (batch_end start (length events) - start) (drop start events)) rest
        else some ([], true))

-- `Enqueue`, with fuel for every position.
unfoldable pub enqueue : (ℕ → Bool) → List Event → Option (List TaskData × Bool)
enqueue accepts events = enqueue_from (suc (length events)) accepts events 0

-- What the worker does with a task: the results that it passes to the callback. A panic of
-- Validate is `none`.
unfoldable pub validate_all : (Event → Option Failure) → List Event → Option (List Failure)
validate_all validate [] = some []
validate_all validate (e ∷ es) = do r ← validate e; rs ← validate_all validate es; some (r ∷ rs)

-- One round of `loop`.
unfoldable pub run_task : (Event → Option Failure) → TaskData → Option TaskData
run_task validate op = do
  result ← validate_all validate op.events
  some (record op { result = result })

-- The events of the tasks, in the order that they were sent.
abbrev pub all_events : List TaskData → List Event
all_events [] = []
all_events (op ∷ ops) = op.events ++ all_events ops

abbrev pub IsBatch : TaskData → Type 0
IsBatch op = (0 < length op.events) × (length op.events ≤ max_batch) × (op.result ≡ [])

batch_size :
    (start n : ℕ)
    → start < n
    → ((batch_end start n - start ≡ 4) × (start + 4 < n))
      ⊎ ((batch_end start n - start ≡ n - start) × (n ≤ start + 4))
batch_size start n h = elim (Bool-cases (leb n (start + 4))) [
  | inl near ↦ inr (ground arith, ground arith)
  | inr far ↦ inl (ground arith, ground arith)
]

abbrev batch_at : List Event → ℕ → List Event
batch_at events start = take (batch_end start (length events) - start) (drop start events)

-- A batch and what is behind it.
batch_at_lem :
    (events : List Event) (start : ℕ)
    → start < length events
    → IsBatch (record { events = batch_at events start; result = [] })
batch_at_lem events start h = elim (batch_size start (length events) h) [
  | inl (four, far) ↦ (omega (arith, sized), omega (arith, sized), refl)
  | inr (all, near) ↦ (omega (arith, sized), omega (arith, sized), refl)
]
  where
    sized : length (batch_at events start) ≡ batch_end start (length events) - start
    sized = length-take _ _ (ground (arith, length-drop start events))

batch-rest :
    (events : List Event) (start : ℕ)
    → start < length events
    → batch_at events start ++ drop (start + 4) events ≡ drop start events
batch-rest events start h = elim (batch_size start (length events) h) [
  | inl (four, far) ↦
      rw (four, sym (drop-drop 4 start events)) (take-append-drop 4 (drop start events))
  | inr (all, near) ↦
      rw
        (
          all,
          drop_beyond (start + 4) events near,
          take_beyond (length events - start) (drop start events)
              (omega (arith, length-drop start events)),
        )
        (append-nil _)
]

module _ (accepts : ℕ → Bool) (events : List Event) where
  -- What a run of the loop from `start` ends with: a part of the events is sent in batches, and it
  -- is all of them unless the checker was quit.
  abbrev pub Sends : ℕ → Option (List TaskData × Bool) → Type 0
  Sends start run =
      (ops : List TaskData) × (terminated : Bool) × (rest : List Event) × (run
        ≡ some (ops, terminated))
      × All IsBatch ops
      × (all_events ops ++ rest ≡ drop start events)
      × ((terminated ≡ true) ⊎ (rest ≡ []))

  enqueue_from_lem :
      (k start : ℕ)
      → length events ≤ start + k
      → Sends start (enqueue_from (suc k) accepts events start)
  unfolding enqueue_from
  enqueue_from_lem zero start h =
      ([], false, [], ground arith, tt, sym (drop_beyond start events (omega arith)), inr refl)
  enqueue_from_lem (suc k) start h = elim (Bool-cases (leb (length events) start)) [
    | inl past ↦
        ([], false, [], ground arith, tt, sym (drop_beyond start events (ground arith)), inr refl)
    | inr within ↦ elim (Bool-cases (accepts start)) [
      | inr quit ↦ ([], true, drop start events, ground arith, tt, refl, inl refl)
      | inl sent ↦
          let (ops, terminated, rest, run, batches, split, all) =
            enqueue_from_lem k (start + 4) (omega arith) in
          let inside : start < length events = ground arith in
          (
            record { events = batch_at events start; result = [] } ∷ ops,
            terminated,
            rest,
            ground arith,
            (batch_at_lem events start inside, batches),
            append_assoc (batch_at events start) (all_events ops) rest
                ∙ ap (λ r. batch_at events start ++ r) split
                ∙ batch-rest events start inside,
            all,
          )
    ]
  ]

  -- Enqueue ends within its fuel and sends a beginning of the events in their order, in tasks of
  -- one to four events whose results are empty; the beginning is all of the events when
  -- errTerminated is not returned.
  pub enqueue_lem : Sends 0 (enqueue accepts events)
  unfolding enqueue
  enqueue_lem = enqueue_from_lem (length events) 0 (omega arith)

-- A worker whose checks do not panic hands the callback one result for each event of a task, in
-- their order.
pub run_task_lem :
    (check : Event → Failure) (validate : Event → Option Failure) (op : TaskData)
    → ((e : Event) → validate e ≡ some (check e))
    → run_task validate op ≡ some (record op { result = map check op.events })
unfolding run_task validate_all
run_task_lem check validate op total = rw (all op.events) refl
  where
    all : (es : List Event) → validate_all validate es ≡ some (map check es)
    all [] = refl
    all (e ∷ es) = rw (total e, all es) refl
