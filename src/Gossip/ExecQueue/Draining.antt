-- ===== src/Gossip/ExecQueue/Draining.antt =====
-- The loop calls everything that is queued.
use go_mini_opera.Prelude.{
  suc, ◌≡◌, refl, sym, ap, ◌∙◌, Bool, true, false, List, [], ◌∷◌, ◌++◌, append-nil, append_assoc,
  length, replicate, if◌then◌else◌,
}
use go_mini_opera.Gossip.ExecQueue.{
  ExecQueue, stop, next_of, wait_next, Loop, round, after_next, act, run,
}
use go_mini_opera.Gossip.ExecQueue.Order.{pending}

module _ {F : Type 0} where
  -- The queue as the round leaves it.
  abbrev trimmed : Bool → ExecQueue F → ExecQueue F
  trimmed drop q = record q { funcs = pending drop q.funcs }

  wait_next-trimmed :
      (drop : Bool) (q : ExecQueue F)
      → wait_next drop q
        ≡ (if q.closed then stop else next_of (pending drop q.funcs), trimmed drop q)
  unfolding wait_next
  wait_next-trimmed true q = refl
  wait_next-trimmed false q = refl

  -- The loop that waits after it called `fs`.
  abbrev pub drained : Loop F → List F → Loop F
  drained l fs = record l {
    exec_queue = record l.exec_queue { funcs = [] };
    drop = false;
    calls = l.calls ++ fs;
  }

  act_round :
      (l : Loop F) (fs : List F)
      → l.exec_queue.closed ≡ false
      → pending l.drop l.exec_queue.funcs ≡ fs
      → act l round ≡ after_next l (next_of fs, record l.exec_queue { funcs = fs })
  unfolding act
  act_round l fs lives queued = rw (wait_next-trimmed l.drop l.exec_queue, lives, queued) refl

  -- When a queue is not closed, the loop calls all of the functions that are pending, in their
  -- order and in one round each, and then waits with an empty queue, if nothing else happens in
  -- between.
  pub run-drained :
      (fs : List F) (l : Loop F)
      → l.exec_queue.closed ≡ false
      → pending l.drop l.exec_queue.funcs ≡ fs
      → run l (replicate (suc (length fs)) round) ≡ drained l fs
  unfolding run after_next
  run-drained [] l lives queued =
      act_round l [] lives queued
      ∙ ap
          (λ c. record l {
            exec_queue = record l.exec_queue { funcs = [] };
            drop = false;
            calls = c;
          })
          (sym (append-nil l.calls))
  run-drained (f ∷ fs) l lives queued =
      let next : Loop F = record l {
        exec_queue = record l.exec_queue { funcs = f ∷ fs };
        drop = true;
        calls = l.calls ++ (f ∷ []);
      } in
      ap (λ l'. run l' (replicate (suc (length fs)) round)) (act_round l (f ∷ fs) lives queued)
      ∙ run-drained fs next lives refl
      ∙ ap
          (λ c. record l {
            exec_queue = record l.exec_queue { funcs = [] };
            drop = false;
            calls = c;
          })
          (append_assoc l.calls (f ∷ []) fs)
