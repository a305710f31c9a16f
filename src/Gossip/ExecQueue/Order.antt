-- ===== src/Gossip/ExecQueue/Order.antt =====
-- The functions are called once each, in the order that they were queued.
use go_mini_opera.Prelude.{
  ◌<◌, ◌≤◌, ◌≡◌, ◌≢◌, refl, sym, ap, ◌∙◌, arith, Bool, true, false, not, ◌&&◌, List, [], ◌∷◌, ◌++◌,
  ltb, if◌then◌else◌, length, append_assoc, length-append, Bool-cases, inl, inr, subst,
}
use go_mini_opera.Gossip.ExecQueue.{
  ExecQueue, stop, wait, queue, clear, quit, rest_of, next_of, wait_next, Loop, Action, submit,
  close, round, submitted, after_next, act, run,
}

false_ne_true : false ≢ true
false_ne_true h = absurd cc

module _ {F : Type 0} where
  -- What is queued and not called yet: the function being called stays in the queue.
  abbrev pub pending : Bool → List F → List F
  pending true fs = rest_of fs
  pending false fs = fs

  -- A call that runs is the first of the queue, the calls and what is pending are what was
  -- accepted, and the queue keeps to its capacity.
  pub record IsInOrder (l : Loop F) : Type 0 where
    pub running : l.drop ≡ true → 0 < length l.exec_queue.funcs
    pub order : l.calls ++ pending l.drop l.exec_queue.funcs ≡ l.accepted
    pub bounded : length l.exec_queue.funcs ≤ l.exec_queue.capacity

  pending-append :
      (drop : Bool) (fs : List F) (f : F)
      → (drop ≡ true → 0 < length fs)
      → pending drop (fs ++ (f ∷ [])) ≡ pending drop fs ++ (f ∷ [])
  pending-append true [] f busy = absurd (omega (arith, busy refl))
  pending-append true (g ∷ fs) f busy = refl
  pending-append false fs f busy = refl

  submit_lem : (l : Loop F) (f : F) → IsInOrder l → IsInOrder (submitted l f (queue l.exec_queue f))
  unfolding submitted queue
  submit_lem l f ok =
      elim (Bool-cases
        (not l.exec_queue.closed && ltb (length l.exec_queue.funcs) l.exec_queue.capacity)) [
          | inl room ↦ rw room (record {
            running = λ busy. omega (arith, length-append l.exec_queue.funcs (f ∷ []));
            order =
                ap (λ p. l.calls ++ p) (pending-append l.drop l.exec_queue.funcs f ok.running)
                ∙ sym (append_assoc l.calls (pending l.drop l.exec_queue.funcs) (f ∷ []))
                ∙ ap (λ p. p ++ (f ∷ [])) ok.order;
            bounded = ground (arith, length-append l.exec_queue.funcs (f ∷ []));
          })
          | inr full ↦
              rw full (record { running = ok.running; order = ok.order; bounded = ok.bounded })
        ]

  settle :
      (l : Loop F) (q : ExecQueue F) (fs : List F) (c : Bool)
      → l.calls ++ fs ≡ l.accepted
      → length fs ≤ q.capacity
      → IsInOrder (after_next l ((if c then stop else next_of fs), record q { funcs = fs }))
  unfolding after_next
  settle l q fs true order few = record {
    running = λ busy. absurd (false_ne_true busy);
    order = order;
    bounded = few;
  }
  settle l q [] false order few = record {
    running = λ busy. absurd (false_ne_true busy);
    order = order;
    bounded = few;
  }
  settle l q (f ∷ fs) false order few = record {
    running = λ busy. omega arith;
    order = append_assoc l.calls (f ∷ []) fs ∙ order;
    bounded = few;
  }

  length-rest_of : (fs : List F) → length (rest_of fs) ≤ length fs
  length-rest_of [] = omega arith
  length-rest_of (f ∷ fs) = omega arith

  by_drop :
      (l : Loop F) (drop : Bool) (q : ExecQueue F)
      → l.calls ++ pending drop q.funcs ≡ l.accepted
      → length q.funcs ≤ q.capacity
      → IsInOrder (after_next l (wait_next drop q))
  unfolding wait_next
  by_drop l true q order few =
      settle l q (rest_of q.funcs) q.closed order (omega (arith, length-rest_of q.funcs))
  by_drop l false q order few = settle l q q.funcs q.closed order few

  act-IsInOrder : (l : Loop F) (a : Action F) → IsInOrder l → IsInOrder (act l a)
  unfolding act quit
  act-IsInOrder l (submit f) ok = submit_lem l f ok
  act-IsInOrder l close ok = record { running = ok.running; order = ok.order; bounded = ok.bounded }
  act-IsInOrder l round ok = by_drop l l.drop l.exec_queue ok.order ok.bounded

  -- If the functions called and those pending are the accepted ones, once each and in the order of
  -- their submission, the running one is first in the queue and the queue is within its capacity,
  -- this is so again after any sequence of submissions, of rounds of the loop and of closing,
  -- without clear.
  pub run-IsInOrder :
      (actions : List (Action F)) (l : Loop F) → IsInOrder l → IsInOrder (run l actions)
  unfolding run
  run-IsInOrder [] l ok = ok
  run-IsInOrder (a ∷ rest) l ok = run-IsInOrder rest (act l a) (act-IsInOrder l a ok)

  -- When a queue that is not closed is cleared while a function runs and then accepts another
  -- function, the loop drops that function without calling it and waits with an empty queue.
  pub wait_next-clear :
      (q q' : ExecQueue F) (f : F)
      → q.closed ≡ false
      → queue (clear q) f ≡ (true, q')
      → wait_next true q' ≡ (wait, clear q)
  unfolding wait_next queue clear
  wait_next-clear q q' f running h = elim (Bool-cases (not q.closed && ltb 0 q.capacity)) [
    | inl room ↦
        let now = rw room at h in
        subst (λ x. wait_next true x ≡ (wait, clear q)) (ap (λ r. r.1) now)
          (ap (λ c. ((if c then stop else wait), clear q)) running)
    | inr full ↦ let now = rw full at h in absurd (false_ne_true (ap (λ r. r.0) now))
  ]
