-- ===== src/Scheduler.antt =====
-- kernel/src/process/scheduler.c: the queues, the global list and the switch between processes.
-- A function that returns a stack pointer returns it beside the new state; `none` is an access
-- through NULL. Interrupts are off in all of these, so each call is one step.
pub mod Ready
pub mod Wake
pub mod Dispatch
pub mod Sleep
pub mod Kill
use kerosene.Base.{
  ℕ, zero, suc, ◌+◌, ◌%◌, ◌^◌, Bool, true, false, not, Option, none, some, List, [], ◌∷◌, ◌==◌, leb,
  if◌then◌else◌, ◌>>=◌,
}
use kerosene.Base.Words.{add32, sub32}
use kerosene.Process.{Ptr, null, State, Process, Memory, load, update}
use kerosene.Process.Queue.{Queue, queue_init, sort_by_sleep_ticks, push, sorted_push, pop}

-- PROCESS_ALIVE_TICKS of example.env
abbrev pub process_alive_ticks : ℕ
process_alive_ticks = 4

-- The static variables of the file, the memory of the processes, what the processor has loaded
-- (page directory, kernel stack) and, newest first, the processes given to process_delete.
pub record Scheduler : Type 0 where
  pub memory : Memory
  pub ready : Queue
  pub sleep : Queue
  pub delete : Queue
  pub current : Ptr
  pub global_bottom : Ptr
  pub global_size : ℕ
  pub global_sleep_ticks : ℕ
  pub page_directory : Ptr
  pub tss_esp0 : ℕ
  pub deleted : List Ptr

abbrev pub with_state : State → Process → Process
with_state st x = record x { state = st }

unfoldable pub global_list_push : Scheduler → Ptr → Option Scheduler
global_list_push s proc = do
  m₁ ← update s.memory s.global_bottom (λ x. record x { global_next = proc })
  m₂ ← update m₁ proc (λ x. record x { global_prev = s.global_bottom; global_next = null })
  some (record s { memory = m₂; global_bottom = proc; global_size = add32 s.global_size 1 })

unfoldable pub global_list_pop : Scheduler → Ptr → Option Scheduler
global_list_pop s proc = do
  x ← load s.memory proc
  m₁ ← update s.memory x.global_prev (λ y. record y { global_next = x.global_next })
  m₂ ←
      if (m₁ proc).global_next == null
      then some m₁
      else update m₁ (m₁ proc).global_next (λ y. record y { global_prev = (m₁ proc).global_prev })
  some (record s {
    memory = m₂;
    global_bottom = if proc == s.global_bottom then (m₂ proc).global_prev else s.global_bottom;
    global_size = sub32 s.global_size 1;
  })

unfoldable pub push_ready : Scheduler → Ptr → Option Scheduler
push_ready s proc = do
  m₁ ← update s.memory proc (with_state State.ready)
  (m₂, q) ← push m₁ s.ready proc
  some (record s { memory = m₂; ready = q })

unfoldable pub add_process : Scheduler → Ptr → Option Scheduler
add_process s proc = do
  m₁ ← update s.memory proc (with_state State.ready)
  s₂ ← global_list_push (record s { memory = m₁ }) proc
  (m₃, q) ← push s₂.memory s₂.ready proc
  some (record s₂ { memory = m₃; ready = q })

-- The second half of scheduler_to_next_process.
unfoldable pub dispatch : Scheduler → Option (ℕ × Scheduler)
dispatch s = do
  let popped = pop s.memory s.ready
  m ← update s.memory popped.0 (with_state State.active)
  some (
    (m popped.0).saved_esp,
    record s {
      memory = m;
      ready = popped.1;
      current = popped.0;
      page_directory = (m popped.0).page_directory;
      tss_esp0 = (m popped.0).tss_esp0;
    },
  )

unfoldable pub to_next_process : ℕ → Bool → Scheduler → Option (ℕ × Scheduler)
to_next_process regs add_back s = do
  m ← update s.memory s.current (λ x. record x { saved_esp = regs })
  s₁ ←
      if add_back
      then push_ready (record s { memory = m }) s.current
      else some (record s { memory = m })
  dispatch s₁

unfoldable pub kill_process : ℕ → ℕ → Scheduler → Option (ℕ × Scheduler)
kill_process regs exit_code s = do
  x ← load s.memory s.current
  if x.id == 1 then some (regs, s) else do
    s₁ ← if x.attached_from == null then some s else do
      m ← update s.memory x.attached_from (λ y. record y { received_exit_code = exit_code })
      push_ready (record s { memory = m }) x.attached_from
    (m₂, q) ← push s₁.memory s₁.delete s₁.current
    to_next_process regs false (record s₁ { memory = m₂; delete = q })

-- `cs` is the code selector of the caller's registers: its two low bits are the privilege level.
unfoldable pub attach : ℕ → ℕ → Ptr → Scheduler → Option (ℕ × Scheduler)
attach regs cs proc s = if not (cs % 4 == 0) then kill_process regs 13 s else do
  m ← update s.memory proc (λ x. record x { attached_from = s.current })
  s₁ ← add_process (record s { memory = m }) proc
  to_next_process regs false s₁

-- `fuel` bounds the walk over the sleep queue.
unfoldable pub set_sleep : ℕ → ℕ → ℕ → Scheduler → Option (ℕ × Scheduler)
set_sleep fuel regs ticks s = do
  m ←
      update s.memory s.current (λ x. record x {
        sleep_ticks = (ticks + s.global_sleep_ticks) % 2 ^ 64;
        state = State.sleep;
      })
  (m₁, q) ← sorted_push sort_by_sleep_ticks fuel m s.sleep s.current
  to_next_process regs false (record s { memory = m₁; sleep = q })

-- `while(delete_queue.size) { ... }`
unfoldable pub delete_loop : ℕ → Scheduler → Option Scheduler
delete_loop zero s = none
delete_loop (suc fuel) s =
    let rest = (do
      let popped = pop s.memory s.delete
      s₁ ← global_list_pop (record s { delete = popped.1 }) popped.0
      delete_loop fuel (record s₁ { deleted = popped.0 ∷ s₁.deleted })) in
    if s.delete.size == 0 then some s else rest

-- `while(sleep_queue.top && sleep_queue.top->sleep_ticks <= global_sleep_ticks) { ... }`
unfoldable pub wake_loop : ℕ → Scheduler → Option Scheduler
wake_loop zero s = none
wake_loop (suc fuel) s =
    let rest = (do
      let popped = pop s.memory s.sleep
      s₁ ← push_ready (record s { sleep = popped.1 }) popped.0
      wake_loop fuel s₁) in
    if s.sleep.top == null
    then some s
    else if leb (s.memory s.sleep.top).sleep_ticks s.global_sleep_ticks
    then rest
    else some s

unfoldable pub wake : ℕ → Scheduler → Option Scheduler
wake fuel s = if s.sleep.size == 0 then some s else do
  s₁ ← wake_loop fuel (record s { global_sleep_ticks = (s.global_sleep_ticks + 1) % 2 ^ 64 })
  some (if s₁.sleep.size == 0 then record s₁ { global_sleep_ticks = 0 } else s₁)

-- `fuel` bounds each of the two loops.
unfoldable pub switch : ℕ → ℕ → Scheduler → Option (ℕ × Scheduler)
switch fuel regs s = do
  s₁ ← delete_loop fuel s
  s₂ ← wake fuel s₁
  m ←
      update s₂.memory s₂.current
        (λ x. record x { alive_ticks = (x.alive_ticks + 1) % 2 ^ 64; saved_esp = regs })
  if (m s₂.current).alive_ticks % process_alive_ticks == 0
      then to_next_process regs true (record s₂ { memory = m })
      else some ((m s₂.current).saved_esp, record s₂ { memory = m })

-- scheduler_init, over the static initialisers. The page directory and the kernel stack that are
-- loaded at boot stay.
unfoldable pub init : Memory → Ptr → ℕ → Ptr → Option Scheduler
init m page_directory tss_esp0 idle = do
  m₁ ←
      update m idle (λ x. record x { state = State.active; global_next = null; global_prev = null })
  some (record {
    memory = m₁;
    ready = queue_init;
    sleep = queue_init;
    delete = queue_init;
    current = idle;
    global_bottom = idle;
    global_size = 1;
    global_sleep_ticks = 0;
    page_directory = page_directory;
    tss_esp0 = tss_esp0;
    deleted = [];
  })
