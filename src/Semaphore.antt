-- ===== src/Semaphore.antt =====
-- kernel/src/semaphore.c: counting semaphores with a queue of waiting processes. The spin lock is
-- held over the whole of each function and is free at its start, so it is left out.
-- semaphore_syscall_create, which makes a file for the semaphore, belongs to the file system.
pub mod Release
pub mod Acquire
use kerosene.Base.{
  ℕ, zero, suc, ◌+◌, ◌-◌, ◌%◌, ◌^◌, Bool, false, not, Option, none, some, ◌==◌, ltb, leb,
  if◌then◌else◌, ◌>>=◌,
}
use kerosene.Base.Int.{ℤ, pos, negsuc}
use kerosene.Base.Words.{u32, add32, sub32}
use kerosene.Process.{Ptr, null, State, Process, Memory, load, write, update}
use kerosene.Process.Queue.{Queue, queue_init, push, pop}
use kerosene.Scheduler.{Scheduler, with_state, push_ready, to_next_process, kill_process}

-- semaphore_t
pub record Semaphore : Type 0 where
  pub count : ℕ
  pub waiting : Queue

abbrev pub semaphore_init : ℕ → Semaphore
semaphore_init initial_count = record { count = initial_count; waiting = queue_init }

-- A return value or stack pointer, the semaphore and the scheduler after the call.
abbrev pub Outcome : Type 0
Outcome = ℕ × Semaphore × Scheduler

unfoldable pub acquire : ℕ → Semaphore → ℕ → Scheduler → Option Outcome
acquire regs sem count s =
    if leb count sem.count then some (regs, record sem { count = sem.count - count }, s) else do
      m₁ ←
          update s.memory s.current
            (λ x. record x { state = State.block; waiting_for_resource_count = count })
      (m₂, q) ← push m₁ sem.waiting s.current
      (esp, s') ← to_next_process regs false (record s { memory = m₂ })
      some (esp, record sem { waiting = q }, s')

-- `while(semaphore->waiting_queue.size > 0) { ... }`; the size of the queue is fuel enough.
unfoldable pub release_loop : ℕ → Semaphore → Scheduler → Option (Semaphore × Scheduler)
release_loop zero sem s = none
release_loop (suc fuel) sem s =
    let need = (s.memory sem.waiting.top).waiting_for_resource_count in
    let rest = (do
      let popped = pop s.memory sem.waiting
      m ← update s.memory sem.waiting.top (with_state State.ready)
      s₁ ← push_ready (record s { memory = m }) sem.waiting.top
      release_loop fuel (record { count = sem.count - need; waiting = popped.1 }) s₁) in
    if sem.waiting.size == 0
    then some (sem, s)
    else if leb need sem.count
    then rest
    else some (sem, s)

unfoldable pub release : ℕ → Semaphore → ℕ → Scheduler → Option (Semaphore × Scheduler)
release fuel sem count s = release_loop fuel (record sem { count = add32 sem.count count }) s

-- What a slot of the file descriptor table leads to.
pub data Slot : Type 0 where
  no_node : Slot
  other_node : Slot
  semaphore_node : Ptr → Slot

-- The semaphores in memory, and the descriptor table of the current process.
pub record Kernel : Type 0 where
  pub scheduler : Scheduler
  pub semaphores : Ptr → Semaphore
  pub descriptors : ℕ → Slot

-- MAX_FILE of example.env
abbrev pub max_file : ℕ
max_file = 128

-- The pointer to the semaphore behind a descriptor, or NULL where one of the guards fails.
unfoldable pub find : Kernel → ℤ → Ptr
find k (negsuc n) = null
find k (pos fd) =
    if leb max_file fd then null else elim (k.descriptors fd) [ semaphore_node p ↦ p | _ ↦ null ]

abbrev pub minus_one : ℕ
minus_one = 2 ^ 32 - 1

set_semaphore : Kernel → Ptr → Semaphore → Scheduler → Kernel
set_semaphore k p sem s = record k {
  scheduler = s;
  semaphores = λ a. if a == p then sem else k.semaphores a;
}

-- The stack pointer to return to, `regs->eax`, and the kernel after the call.
unfoldable pub syscall_acquire : ℕ → ℤ → ℕ → Kernel → Option (ℕ × ℕ × Kernel)
unfolding set_semaphore
syscall_acquire regs fd count k = if find k fd == null then some (regs, minus_one, k) else do
  (esp, sem, s) ← acquire regs (k.semaphores (find k fd)) count k.scheduler
  some (esp, 0, set_semaphore k (find k fd) sem s)

unfoldable pub syscall_release : ℕ → ℤ → ℕ → Kernel → Option (ℕ × Kernel)
unfolding set_semaphore
syscall_release fuel fd count k = if find k fd == null then some (minus_one, k) else do
  (sem, s) ← release fuel (k.semaphores (find k fd)) count k.scheduler
  some (0, set_semaphore k (find k fd) sem s)

-- Only the kernel (privilege level 0 in `cs`) may call this: any other caller is killed.
unfoldable pub syscall_kacquire : ℕ → ℕ → Semaphore → ℕ → Scheduler → Option Outcome
syscall_kacquire regs cs sem count s =
    if not (cs % 4 == 0)
    then (do (esp, s') ← kill_process regs 13 s; some (esp, sem, s'))
    else acquire regs sem count s
