-- ===== src/Scheduler/Examples.antt =====
-- The scheduler with the heads 10, 11 and 12, and the threads of the nodes 20, 30 and 40.
use chestnut.Base.{◌≡◌, refl, false, none, some, [], ◌∷◌, get_elem?, if◌then◌else◌, arith}
use chestnut.Links.{insert_before, init_head, set_next, set_prev, delete, is_empty}
use chestnut.Links.Ring.{IsRing}
use chestnut.Scheduler.{
  Scheduler, init_thread_queue, add_thread, requeue, round_robin, stub, restore,
  exit_current_thread, rounds,
}
use chestnut.Scheduler.Laws.{IsRunning, IsExited, rounds_turn, exit_current_thread-IsExited}

abbrev empty : Scheduler
empty = record {
  ready = 10;
  waiting = 11;
  exit = 12;
  links = record { prev = λ _. 0; next = λ _. 0 };
  thr = λ _. 0;
  initialized = λ t. false;
  cur_thread = none;
}

-- The first call of `RoundRobin`.
abbrev started : Scheduler
started =
    (round_robin
      (add_thread 40 400 (add_thread 30 300 (add_thread 20 200 (init_thread_queue empty))))).1

started-IsRunning : IsRunning started 10 20 (30 ∷ 40 ∷ [])
unfolding round_robin requeue is_empty add_thread init_thread_queue init_head insert_before delete
    set_next set_prev
started-IsRunning = record {
  ready = refl;
  running = refl;
  ring = record {
    chain = (refl, refl, (refl, refl, (refl, refl)));
    distinct = (refl, (refl, (refl, tt)));
  };
  apart = refl;
}

started_exits : IsRing started.links started.exit []
unfolding round_robin requeue is_empty add_thread init_thread_queue init_head insert_before delete
    set_next set_prev
started_exits = record { chain = (refl, refl); distinct = (refl, tt) }

rounds_turn_example : (rounds 2 started).cur_thread ≡ get_elem? (30 ∷ 40 ∷ []) 1
rounds_turn_example = rounds_turn 1 started 10 20 (30 ∷ 40 ∷ []) started-IsRunning (omega arith)

exit_current_thread-IsExited_example :
    (s' : Scheduler) × (exit_current_thread started
      ≡ some (
        if started.initialized (started.thr 30)
            then restore (started.thr 30)
            else stub (started.thr 30),
        s',
      ))
    × IsExited started s' 10 20 30 (40 ∷ []) []
unfolding round_robin requeue is_empty add_thread init_thread_queue insert_before set_next set_prev
    init_head
exit_current_thread-IsExited_example =
    exit_current_thread-IsExited started 10 20 30 (40 ∷ []) [] started-IsRunning started_exits
      (λ a h. ground (arith, h)) refl
