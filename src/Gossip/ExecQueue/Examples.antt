-- ===== src/Gossip/ExecQueue/Examples.antt =====
-- A queue for two functions.
use go_mini_opera.Prelude.{ℕ, ◌≡◌, refl, arith, true, false, [], ◌∷◌}
use go_mini_opera.Gossip.ExecQueue.{
  Loop, ExecQueue, submit, close, round, clear, queue, wait_next, run, new_exec_queue, new_loop,
  wait,
}
use go_mini_opera.Gossip.ExecQueue.Draining.{drained, run-drained}
use go_mini_opera.Gossip.ExecQueue.Order.{IsInOrder, run-IsInOrder, wait_next-clear}

new_loop-IsInOrder : IsInOrder (new_loop {F = ℕ} 2)
unfolding new_loop new_exec_queue
new_loop-IsInOrder = record { running = λ busy. absurd cc; order = refl; bounded = omega arith }

run-IsInOrder_example : IsInOrder (
    run
      (new_loop {F = ℕ} 2)
      (submit 7 ∷ round ∷ submit 8 ∷ submit 9 ∷ round ∷ close ∷ submit 5 ∷ round ∷ []))
run-IsInOrder_example =
    run-IsInOrder (submit 7 ∷ round ∷ submit 8 ∷ submit 9 ∷ round ∷ close ∷ submit 5 ∷ round ∷ [])
      (new_loop {F = ℕ} 2) new_loop-IsInOrder

abbrev one_running : ExecQueue ℕ
one_running = record { funcs = 7 ∷ []; capacity = 2; closed = false }

wait_next-clear_example :
    wait_next true (record one_running { funcs = 8 ∷ [] }) ≡ (wait, clear one_running)
unfolding queue clear
wait_next-clear_example =
    wait_next-clear one_running (record one_running { funcs = 8 ∷ [] }) 8 refl refl

abbrev two_queued : Loop ℕ
two_queued = record {
  exec_queue = record { funcs = 7 ∷ 8 ∷ 9 ∷ []; capacity = 4; closed = false };
  drop = true;
  calls = 7 ∷ [];
  accepted = 7 ∷ 8 ∷ 9 ∷ [];
}

run-drained_example : run two_queued (round ∷ round ∷ round ∷ []) ≡ drained two_queued (8 ∷ 9 ∷ [])
run-drained_example = run-drained (8 ∷ 9 ∷ []) two_queued refl refl
