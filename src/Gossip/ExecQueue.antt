-- ===== src/Gossip/ExecQueue.antt =====
-- gossip/execqueue.go: a queue of functions that one goroutine calls. A lock covers each operation, so
-- an interleaving is a sequence of them. A queued function is not nil.
pub mod Order
pub mod Draining
pub mod Examples
use go_mini_opera.Prelude.{
  ℕ, Bool, true, false, not, ◌&&◌, List, [], ◌∷◌, ◌++◌, ltb, if◌then◌else◌, length,
}

pub record ExecQueue (F : Type 0) : Type 0 where
  pub funcs : List F
  -- `cap(q.funcs)`, which no operation changes.
  pub capacity : ℕ
  -- `closeWait` is made.
  pub closed : Bool

-- How waitNext goes on: it returns a function, returns nil, or waits for a signal.
pub data Next (F : Type 0) : Type 0 where
  call : F → Next F
  stop wait : Next F

module _ {F : Type 0} where
  -- The queue that `newExecQueue` makes.
  unfoldable pub new_exec_queue : ℕ → ExecQueue F
  new_exec_queue capacity = record { funcs = []; capacity = capacity; closed = false }

  -- `canQueue`.
  unfoldable pub can_queue : ExecQueue F → Bool
  can_queue q = not q.closed && ltb (length q.funcs) q.capacity

  -- `queue`.
  unfoldable pub queue : ExecQueue F → F → Bool × ExecQueue F
  queue q f =
      let ok = not q.closed && ltb (length q.funcs) q.capacity in
      if ok then (ok, record q { funcs = q.funcs ++ (f ∷ []) }) else (ok, q)

  -- `clear`.
  unfoldable pub clear : ExecQueue F → ExecQueue F
  clear q = record q { funcs = [] }

  -- `quit`, before it waits.
  unfoldable pub quit : ExecQueue F → ExecQueue F
  quit q = record q { closed = true }

  -- The functions without the first one.
  abbrev pub rest_of : List F → List F
  rest_of [] = []
  rest_of (f ∷ fs) = fs

  -- The first function, if there is one.
  abbrev pub next_of : List F → Next F
  next_of [] = wait
  next_of (f ∷ fs) = call f

  -- `waitNext` until it returns or waits; when it is woken it goes on as `wait_next false`.
  unfoldable pub wait_next : Bool → ExecQueue F → Next F × ExecQueue F
  wait_next drop q =
      let q' = (if drop then record q { funcs = rest_of q.funcs } else q) in
      (if q'.closed then stop else next_of q'.funcs, q')

-- The goroutine of `loop` beside the queue: whether its next waitNext drops, and what it called.
pub record Loop (F : Type 0) : Type 0 where
  pub exec_queue : ExecQueue F
  pub drop : Bool
  pub calls : List F
  -- The functions that `queue` accepted.
  pub accepted : List F

-- What the goroutines do one after the other.
pub data Action (F : Type 0) : Type 0 where
  -- A call of `queue` and a call of `quit`.
  submit : F → Action F
  close : Action F
  -- waitNext of the loop and the call of its function, or its wake-up.
  round : Action F

module _ {F : Type 0} where
  unfoldable pub submitted : Loop F → F → Bool × ExecQueue F → Loop F
  submitted l f (true, q) = record l { exec_queue = q; accepted = l.accepted ++ (f ∷ []) }
  submitted l f (false, q) = record l { exec_queue = q }

  unfoldable pub after_next : Loop F → Next F × ExecQueue F → Loop F
  after_next l (call f, q) = record l { exec_queue = q; drop = true; calls = l.calls ++ (f ∷ []) }
  after_next l (wait, q) = record l { exec_queue = q; drop = false }
  after_next l (stop, q) = record l { exec_queue = q; drop = false }

  unfoldable pub act : Loop F → Action F → Loop F
  act l (submit f) = submitted l f (queue l.exec_queue f)
  act l close = record l { exec_queue = quit l.exec_queue }
  act l round = after_next l (wait_next l.drop l.exec_queue)

  unfoldable pub run : Loop F → List (Action F) → Loop F
  run l [] = l
  run l (a ∷ rest) = run (act l a) rest

  -- The goroutine that newExecQueue starts.
  unfoldable pub new_loop : ℕ → Loop F
  new_loop capacity = record {
    exec_queue = new_exec_queue capacity;
    drop = false;
    calls = [];
    accepted = [];
  }
