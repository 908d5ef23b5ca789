-- ===== src/Process.antt =====
-- The process structure of kernel/include/process.h and the kernel memory that holds the processes.
-- A pointer is an address and NULL is 0. Memory holds a structure at every other address, so a
-- dangling pointer reads what is there; a read or a write through NULL is a fault (`none`).
pub mod Queue
use kerosene.Base.{ℕ, ◌≡◌, ◌≢◌, refl, Bool, Option, none, some, arith, ◌==◌, if◌then◌else◌}

abbrev pub Ptr : Type 0
Ptr = ℕ

abbrev pub null : Ptr
null = 0

-- enum PROCESS_STATE
pub data State : Type 0 where
  ready active sleep block : State

-- process_t, less the arguments, environment, stack and files, which no scheduler code reads.
pub record Process : Type 0 where
  pub id : ℕ
  pub state : State
  pub alive_ticks : ℕ
  pub sleep_ticks : ℕ
  pub page_directory : Ptr
  pub is_user : Bool
  pub received_exit_code : ℕ
  pub attached_from : Ptr
  pub saved_esp : ℕ
  pub tss_esp0 : ℕ
  pub waiting_for_resource_count : ℕ
  pub queue_next : Ptr
  pub global_next : Ptr
  pub global_prev : Ptr

abbrev pub Memory : Type 0
Memory = Ptr → Process

unfoldable pub load : Memory → Ptr → Option Process
load m p = if p == null then none else some (m p)

-- The memory after a write at `p`.
unfoldable pub write : Memory → Ptr → Process → Memory
write m p x a = if a == p then x else m a

-- `*p = f(*p)`
unfoldable pub update : Memory → Ptr → (Process → Process) → Option Memory
unfolding write
update m p f = if p == null then none else some (write m p (f (m p)))

abbrev pub with_next : Ptr → Process → Process
with_next n x = record x { queue_next = n }

pub write_self : (m : Memory) (p : Ptr) (x : Process) → write m p x p ≡ x
unfolding write
write_self m p x = ground arith

pub write_ne : (m : Memory) (p : Ptr) (x : Process) (a : Ptr) → a ≢ p → write m p x a ≡ m a
unfolding write
write_ne m p x a ne = ground arith

-- A write that keeps a field keeps it everywhere.
pub write_keeps {ℓ} :
    {A : Type ℓ} (f : Process → A) (m : Memory) (p : Ptr) (x : Process) (a : Ptr)
    → f x ≡ f (m p)
    → f (write m p x a) ≡ f (m a)
unfolding write
write_keeps f m p x a e = ground arith
