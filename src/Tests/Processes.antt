-- ===== src/Tests/Processes.antt =====
-- A scheduler with eight processes: the queues, the scheduler and a semaphore at work on it.
use kerosene.Base.{ℕ, ◌+◌, refl, true, [], ◌∷◌, arith, ◌==◌, if◌then◌else◌}
use kerosene.Process.{Ptr, null, State, Process, Memory}
use kerosene.Process.Queue.{Queue, queue_init}
use kerosene.Process.Queue.Fifo.{Holds}
use kerosene.Scheduler.{Scheduler, to_next_process, kill_process, set_sleep, wake}
use kerosene.Scheduler.Dispatch.{Rotated, to_next_process-Rotated}
use kerosene.Scheduler.Wake.{Ticked, wake-Ticked}
use kerosene.Scheduler.Kill.{Killed, kill_process-Killed}
use kerosene.Scheduler.Sleep.{Slept, set_sleep-Slept}
use kerosene.Semaphore.{Semaphore, acquire, release}
use kerosene.Semaphore.Acquire.{Blocked, acquire-Blocked}
use kerosene.Semaphore.Release.{Released, release-Released}

abbrev process : State → ℕ → ℕ → Ptr → Process
process state sleep_ticks need next = record {
  id = 2;
  state = state;
  alive_ticks = 3;
  sleep_ticks = sleep_ticks;
  page_directory = 4096;
  is_user = true;
  received_exit_code = 0;
  attached_from = null;
  saved_esp = 7000 + next;
  tss_esp0 = 9000;
  waiting_for_resource_count = need;
  queue_next = next;
  global_next = null;
  global_prev = null;
}

-- 20 runs for 50, which waits for it; 10 and 30 are ready, 40 and 60 asleep, 70 and 80 blocked.
abbrev memory : Memory
memory a =
    if a == 10
    then process State.ready 0 0 30
    else if a == 20
    then record (process State.active 0 0 0) { attached_from = 50 }
    else if a == 40
    then process State.sleep 5 0 60
    else if a == 60
    then process State.sleep 9 0 0
    else if a == 70
    then process State.block 0 2 80
    else if a == 80
    then process State.block 0 5 0
    else process State.ready 0 0 0

abbrev sleepers : Queue
sleepers = record { top = 40; bottom = 60; size = 2 }

abbrev blocked : Queue
blocked = record { top = 70; bottom = 80; size = 2 }

abbrev ready_ones : Queue
ready_ones = record { top = 10; bottom = 30; size = 2 }

abbrev scheduler : Scheduler
scheduler = record {
  memory = memory;
  ready = ready_ones;
  sleep = sleepers;
  delete = queue_init;
  current = 20;
  global_bottom = 80;
  global_size = 8;
  global_sleep_ticks = 5;
  page_directory = 4096;
  tss_esp0 = 9000;
  deleted = [];
}

abbrev semaphore : Semaphore
semaphore = record { count = 1; waiting = blocked }

ready_ones-Holds : Holds memory ready_ones (10 ∷ 30 ∷ [])
ready_ones-Holds = record {
  chain = ground arith;
  distinct = ground arith;
  bottom = refl;
  size = refl;
  fits = omega arith;
}

sleepers-Holds : Holds memory sleepers (40 ∷ 60 ∷ [])
sleepers-Holds = record {
  chain = ground arith;
  distinct = ground arith;
  bottom = refl;
  size = refl;
  fits = omega arith;
}

blocked-Holds : Holds memory blocked (70 ∷ 80 ∷ [])
blocked-Holds = record {
  chain = ground arith;
  distinct = ground arith;
  bottom = refl;
  size = refl;
  fits = omega arith;
}

empty-Holds : Holds memory queue_init []
empty-Holds = record { chain = refl; distinct = tt; bottom = tt; size = refl; fits = omega arith }

release-Released_example :
    Released (release 3 semaphore 4 scheduler) 5 scheduler (70 ∷ 80 ∷ []) (10 ∷ 30 ∷ [])
release-Released_example =
    release-Released 3 semaphore 4 scheduler (70 ∷ 80 ∷ []) (10 ∷ 30 ∷ []) blocked-Holds
      ready_ones-Holds (λ a i. ground arith) (omega arith) (omega arith)

acquire-Blocked_example :
    Blocked
      (acquire 5000 semaphore 4 scheduler)
      5000
      4
      semaphore
      scheduler
      (70 ∷ 80 ∷ [])
      10
      (30 ∷ [])
acquire-Blocked_example =
    acquire-Blocked 5000 4 semaphore scheduler (70 ∷ 80 ∷ []) 10 (30 ∷ []) (omega arith)
      (omega arith) refl refl (λ a i. ground arith) blocked-Holds ready_ones-Holds (omega arith)

wake-Ticked_example : Ticked (wake 3 scheduler) scheduler 6 (40 ∷ 60 ∷ []) (10 ∷ 30 ∷ [])
wake-Ticked_example =
    wake-Ticked 3 scheduler 40 (60 ∷ []) (10 ∷ 30 ∷ []) sleepers-Holds ready_ones-Holds
      (ground arith) (λ a i. ground arith) (omega arith) (omega arith)

to_next_process-Rotated_example :
    Rotated (to_next_process 5000 true scheduler) 5000 scheduler (10 ∷ 30 ∷ [])
to_next_process-Rotated_example =
    to_next_process-Rotated 5000 scheduler (10 ∷ 30 ∷ []) (omega arith) refl ready_ones-Holds
      (omega arith)

kill_process-Killed_example :
    Killed (kill_process 5000 3 scheduler) 3 scheduler [] 10 (30 ∷ 50 ∷ [])
kill_process-Killed_example =
    kill_process-Killed 5000 3 scheduler (10 ∷ 30 ∷ []) [] 10 (30 ∷ 50 ∷ []) (omega arith)
      (omega arith) ready_ones-Holds empty-Holds (λ a i. ground arith) (λ a i. ground arith) refl
      refl (omega arith) (omega arith)

set_sleep-Slept_example :
    Slept (set_sleep 2 5000 3 scheduler) 3 scheduler (40 ∷ 60 ∷ []) 10 (30 ∷ [])
set_sleep-Slept_example =
    set_sleep-Slept 2 5000 3 scheduler (40 ∷ 60 ∷ []) 10 (30 ∷ []) (omega arith) refl refl
      (λ a i. ground arith) sleepers-Holds ready_ones-Holds (ground arith) (omega arith)
      (omega arith)
