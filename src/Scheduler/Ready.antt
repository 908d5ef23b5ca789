-- ===== src/Scheduler/Ready.antt =====
-- scheduler_push_ready: the process goes to the end of the ready queue.
use kerosene.Base.{◌+◌, ◌<◌, ◌≡◌, ◌∙◌, ap, ◌≢◌, some, List, [], ◌∷◌, ◌++◌, arith, length}
use kerosene.Base.Words.{u32}
use kerosene.Process.{Ptr, null, State, Process, Memory, update, write, with_next}
use kerosene.Process.Queue.{Queue}
use kerosene.Process.Queue.Chain.{◌∉◌}
use kerosene.Process.Queue.Fifo.{Holds, Holds-frame, push-append}
use kerosene.Scheduler.{Scheduler, with_state, push_ready}

-- The same process but for its link and its state.
abbrev pub bare : Process → Process
bare x = with_state State.ready (with_next null x)

pub record Readied (s : Scheduler) (p : Ptr) (rs : List Ptr) : Type 0 where
  pub mem : Memory
  pub queue : Queue
  pub runs : push_ready s p ≡ some (record s { memory = mem; ready = queue })
  pub holds : Holds mem queue (rs ++ p ∷ [])
  pub outside : (a : Ptr) → a ∉ (p ∷ rs) → mem a ≡ s.memory a
  pub same : (a : Ptr) → bare (mem a) ≡ bare (s.memory a)
  pub is_ready : (mem p).state ≡ State.ready

pub push_ready-append :
    (s : Scheduler) (p : Ptr) (rs : List Ptr)
    → Holds s.memory s.ready rs
    → p ≢ null
    → p ∉ rs
    → length rs + 1 < u32
    → Readied s p rs
unfolding push_ready update write
push_ready-append s p rs h ne out fits =
    let m₁ = write s.memory p (with_state State.ready (s.memory p)) in
    let h₁ = Holds-frame s.memory m₁ s.ready rs h (ground arith) in
    let st = push-append m₁ s.ready p rs h₁ ne out fits in
    let marked : (a : Ptr) → bare (m₁ a) ≡ bare (s.memory a) = ground arith in
    let now : (m₁ p).state ≡ State.ready = ground arith in
    record {
      mem = st.mem;
      queue = st.queue;
      runs = ground (arith, st.runs);
      holds = st.holds;
      outside = λ a o. ground (arith, st.outside a);
      same = λ a. ap (with_state State.ready) (st.links_only a) ∙ marked a;
      is_ready = ap (λ x. x.state) (st.links_only p) ∙ now;
    }
