-- ===== src/Process/Queue.antt =====
-- kernel/src/process/process_queue.c: a singly linked queue through `queue_next`.
pub mod Chain
pub mod Fifo
pub mod Sorted
use kerosene.Base.{
  ℕ, zero, suc, ◌+◌, ◌%◌, Bool, not, Option, none, some, ◌==◌, ltb, if◌then◌else◌, ◌>>=◌,
}
use kerosene.Base.Words.{add32, sub32}
use kerosene.Process.{Ptr, null, Process, Memory, load, write, update, with_next}

-- process_queue_t
pub record Queue : Type 0 where
  pub top : Ptr
  pub bottom : Ptr
  pub size : ℕ

-- PROCESS_QUEUE_INIT
abbrev pub queue_init : Queue
queue_init = record { top = null; bottom = null; size = 0 }

abbrev pub sort_by_sleep_ticks : Process → Process → Bool
sort_by_sleep_ticks a b = ltb a.sleep_ticks b.sleep_ticks

unfoldable pub push : Memory → Queue → Ptr → Option (Memory × Queue)
unfolding update
push m q proc = do
  m₁ ← update m proc (with_next null)
  m₂ ← if q.top == null then some m₁ else update m₁ q.bottom (with_next proc)
  some (
    m₂,
    record { top = if q.top == null then proc else q.top; bottom = proc; size = add32 q.size 1 },
  )

-- The walk `while(prev->queue_next && cmp(prev->queue_next, proc)) prev = prev->queue_next`, which
-- ends at the node to insert behind.
unfoldable pub sorted_walk : (Process → Process → Bool) → ℕ → Memory → Ptr → Ptr → Option Ptr
sorted_walk cmp zero m proc prev = none
sorted_walk cmp (suc fuel) m proc prev =
    let rest = sorted_walk cmp fuel m proc (m prev).queue_next in
    if (m prev).queue_next == null
    then some prev
    else if cmp (m (m prev).queue_next) (m proc)
    then rest
    else some prev

-- `fuel` bounds the walk; the length of the queue is enough.
unfoldable pub sorted_push :
    (Process → Process → Bool) → ℕ → Memory → Queue → Ptr → Option (Memory × Queue)
unfolding load update
sorted_push cmp fuel m q proc =
    if q.top == null
    then (do
      m₁ ← update m proc (with_next null)
      some (m₁, record { top = proc; bottom = proc; size = add32 q.size 1 }))
    else do
      first ← load m q.top
      new ← load m proc
      if not (cmp first new)
          then (do
            m₁ ← update m proc (with_next q.top)
            some (m₁, record { top = proc; bottom = q.bottom; size = add32 q.size 1 }))
          else do
            prev ← sorted_walk cmp fuel m proc q.top
            m₁ ← update m proc (with_next (m prev).queue_next)
            m₂ ← update m₁ prev (with_next proc)
            some (
              m₂,
              record {
                top = q.top;
                bottom = if (m prev).queue_next == null then proc else q.bottom;
                size = add32 q.size 1;
              },
            )

-- The popped address; NULL from an empty queue.
unfoldable pub pop : Memory → Queue → Ptr × Queue
pop m q = if q.top == null then (null, q) else (
  q.top,
  record {
    top = if q.top == q.bottom then null else (m q.top).queue_next;
    bottom = q.bottom;
    size = sub32 q.size 1;
  },
)
