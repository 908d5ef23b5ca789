-- ===== src/Scheduler/Dispatch.antt =====
-- scheduler_to_next_process: the switch to the first ready process.
use kerosene.Base.{
  ℕ, ◌+◌, ◌<◌, ◌≡◌, refl, ◌∙◌, ap, ◌≢◌, true, false, Option, none, some, List, [], ◌∷◌, ◌++◌, arith,
  length,
}
use kerosene.Base.Words.{u32}
use kerosene.Process.{Ptr, null, State, Memory, update, write}
use kerosene.Process.Queue.{Queue, pop}
use kerosene.Process.Queue.Chain.{◌∉◌}
use kerosene.Process.Queue.Fifo.{Holds, Holds-frame, pop-cons, pop-nil}
use kerosene.Scheduler.{Scheduler, with_state, dispatch, to_next_process}
use kerosene.Scheduler.Ready.{bare, push_ready-append}

-- A run that ends with `y` on the processor and `ys` ready; `m` is the memory before the switch.
pub record Running (o : Option (ℕ × Scheduler)) (m : Memory) (y : Ptr) (ys : List Ptr)
    : Type 0 where
  pub after : Scheduler
  pub runs : o ≡ some ((m y).saved_esp, after)
  pub current : after.current ≡ y
  pub active : (after.memory y).state ≡ State.active
  pub loaded : after.page_directory ≡ (m y).page_directory
  pub stack : after.tss_esp0 ≡ (m y).tss_esp0
  pub ready : Holds after.memory after.ready ys
  pub others : (a : Ptr) → a ≢ y → after.memory a ≡ m a
  pub same : (a : Ptr) → bare (after.memory a) ≡ bare (m a)
  pub links : (a : Ptr) → (after.memory a).queue_next ≡ (m a).queue_next

pub dispatch-Running :
    (s : Scheduler) (y : Ptr) (ys : List Ptr)
    → Holds s.memory s.ready (y ∷ ys)
    → (r : Running (dispatch s) s.memory y ys) × (r.after.sleep ≡ s.sleep)
      × (r.after.delete ≡ s.delete)
unfolding dispatch update write
dispatch-Running s y ys h =
    let popped = pop-cons h in
    let m : Memory = write s.memory y (with_state State.active (s.memory y)) in
    (
      record {
        after = record s {
          memory = m;
          ready = (pop s.memory s.ready).1;
          current = y;
          page_directory = (s.memory y).page_directory;
          tss_esp0 = (s.memory y).tss_esp0;
        };
        runs = ground (arith, popped.0, h.chain);
        current = refl;
        active = ground arith;
        loaded = refl;
        stack = refl;
        ready = Holds-frame s.memory m (pop s.memory s.ready).1 ys popped.1 (ground arith);
        others = ground arith;
        same = ground arith;
        links = ground arith;
      },
      refl,
      refl,
    )

dispatch-none : (s : Scheduler) → Holds s.memory s.ready [] → dispatch s ≡ none
unfolding dispatch update
dispatch-none s h = ground (arith, pop-nil h)

-- The memory after the current process's stack pointer is saved.
abbrev pub saved : ℕ → Scheduler → Memory
saved regs s = write s.memory s.current (record (s.memory s.current) { saved_esp = regs })

save_frame :
    (regs : ℕ) (s : Scheduler) (q : Queue) (xs : List Ptr)
    → Holds s.memory q xs
    → Holds (saved regs s) q xs
unfolding write
save_frame regs s q xs h = Holds-frame s.memory (saved regs s) q xs h (ground arith)

-- Without adding the current process back, the first ready process runs next, on its own stack,
-- with its page directory and kernel stack loaded, and leaves the ready queue.
pub to_next_process-Running :
    (regs : ℕ) (s : Scheduler) (y : Ptr) (ys : List Ptr)
    → s.current ≢ null
    → Holds s.memory s.ready (y ∷ ys)
    → (r : Running (to_next_process regs false s) (saved regs s) y ys) × (r.after.sleep ≡ s.sleep)
      × (r.after.delete ≡ s.delete)
unfolding to_next_process update
to_next_process-Running regs s y ys ne h =
    let s₁ : Scheduler = record s { memory = saved regs s } in
    let d = dispatch-Running s₁ y ys (save_frame regs s s.ready (y ∷ ys) h) in
    (
      record {
        after = d.0.after;
        runs = ground (arith, d.0.runs);
        current = d.0.current;
        active = d.0.active;
        loaded = d.0.loaded;
        stack = d.0.stack;
        ready = d.0.ready;
        others = d.0.others;
        same = d.0.same;
        links = d.0.links;
      },
      d.1,
      d.2,
    )

-- With no process ready the kernel reads through NULL.
pub to_next_process-none :
    (regs : ℕ) (s : Scheduler) → Holds s.memory s.ready [] → to_next_process regs false s ≡ none
unfolding to_next_process update
to_next_process-none regs s h =
    ground
      (arith, dispatch-none (record s { memory = saved regs s }) (save_frame regs s s.ready [] h))

-- The first of a queue and the rest, after `x` has been put at its end.
abbrev pub first : List Ptr → Ptr → Ptr
first [] x = x
first (y ∷ ys) x = y

abbrev pub rest : List Ptr → Ptr → List Ptr
rest [] x = []
rest (y ∷ ys) x = ys ++ x ∷ []

split_first : (xs : List Ptr) (x : Ptr) → xs ++ x ∷ [] ≡ first xs x ∷ rest xs x
split_first [] x = refl
split_first (y ∷ ys) x = refl

ne_first : (a x : Ptr) (xs : List Ptr) → a ∉ (x ∷ xs) → a ≢ first xs x
ne_first a x [] out = ground arith
ne_first a x (y ∷ ys) out = ground arith

-- One turn of the round robin.
pub record Rotated (o : Option (ℕ × Scheduler)) (regs : ℕ) (s : Scheduler) (rs : List Ptr)
    : Type 0 where
  pub after : Scheduler
  pub runs : o ≡ some ((saved regs s (first rs s.current)).saved_esp, after)
  pub current : after.current ≡ first rs s.current
  pub active : (after.memory (first rs s.current)).state ≡ State.active
  pub waits : s.current ≢ first rs s.current → (after.memory s.current).state ≡ State.ready
  pub kept : (after.memory s.current).saved_esp ≡ regs
  pub ready : Holds after.memory after.ready (rest rs s.current)
  pub others : (a : Ptr) → a ∉ (s.current ∷ rs) → after.memory a ≡ s.memory a

-- Adding the current process back, the processes take turns: the current one goes behind the ready
-- ones with its stack pointer saved, and the first of them all runs next.
pub to_next_process-Rotated :
    (regs : ℕ) (s : Scheduler) (rs : List Ptr)
    → s.current ≢ null
    → s.current ∉ rs
    → Holds s.memory s.ready rs
    → length rs + 1 < u32
    → Rotated (to_next_process regs true s) regs s rs
unfolding to_next_process update write
to_next_process-Rotated regs s rs ne out h fits =
    let s₁ : Scheduler = record s { memory = saved regs s } in
    let r = push_ready-append s₁ s.current rs (save_frame regs s s.ready rs h) ne out fits in
    let s₂ : Scheduler = record s₁ { memory = r.mem; ready = r.queue } in
    let esp : (a : Ptr) → (r.mem a).saved_esp ≡ (saved regs s a).saved_esp =
      λ a. ap (λ p. p.saved_esp) (r.same a) in
    let d =
      (dispatch-Running s₂ (first rs s.current) (rest rs s.current)
        (rw (split_first rs s.current) at r.holds)).0 in
    record {
      after = d.after;
      runs = ground (arith, r.runs, d.runs, esp (first rs s.current));
      current = d.current;
      active = d.active;
      waits = λ other. ap (λ p. p.state) (d.others s.current other) ∙ r.is_ready;
      kept = ap (λ p. p.saved_esp) (d.same s.current) ∙ esp s.current ∙ now;
      ready = d.ready;
      others =
          λ a o. d.others a (ne_first a s.current rs o) ∙ r.outside a o ∙ spared a (ground arith);
    }
  where
    now : (saved regs s s.current).saved_esp ≡ regs
    now = ground arith

    spared : (a : Ptr) → a ≢ s.current → saved regs s a ≡ s.memory a
    spared a o = ground arith
