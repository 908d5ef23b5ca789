-- ===== src/Semaphore/Acquire.antt =====
-- semaphore_acquire where the units do not suffice: the current process blocks.
use kerosene.Base.{
  ℕ, ◌+◌, ◌<◌, ◌≡◌, refl, sym, ◌∙◌, ap, ◌≢◌, true, false, Option, some, List, [], ◌∷◌, ◌++◌, arith,
  length,
}
use kerosene.Base.Words.{u32}
use kerosene.Process.{Ptr, null, State, Memory, update, write, write_self, write_ne, write_keeps}
use kerosene.Process.Queue.{Queue, push}
use kerosene.Process.Queue.Chain.{has, ◌∉◌, ne_of_not_has}
use kerosene.Process.Queue.Fifo.{Holds, Holds-frame, Disjoint, push-append}
use kerosene.Scheduler.{Scheduler, to_next_process}
use kerosene.Scheduler.Dispatch.{saved, to_next_process-Running}
use kerosene.Semaphore.{Semaphore, Outcome, acquire}

-- The memory after the current process is marked as waiting for `count` units.
abbrev waits_for : ℕ → Scheduler → Memory
waits_for count s =
    write s.memory s.current
      (record (s.memory s.current) { state = State.block; waiting_for_resource_count = count })

not_has_cons : (a x : Ptr) (xs : List Ptr) → a ≢ x → a ∉ xs → a ∉ (x ∷ xs)
not_has_cons a x xs ne out = ground arith

-- The current process waits behind `ws`, and `y` runs.
pub record Blocked (o : Option Outcome) (regs count : ℕ) (sem : Semaphore) (s : Scheduler)
    (ws : List Ptr) (y : Ptr) (ys : List Ptr) : Type 0 where
  pub after : Semaphore
  pub scheduler : Scheduler
  pub runs : o ≡ some ((s.memory y).saved_esp, after, scheduler)
  pub units : after.count ≡ sem.count
  pub waiting : Holds scheduler.memory after.waiting (ws ++ s.current ∷ [])
  pub need : (scheduler.memory s.current).waiting_for_resource_count ≡ count
  pub state : (scheduler.memory s.current).state ≡ State.block
  pub kept : (scheduler.memory s.current).saved_esp ≡ regs
  pub current : scheduler.current ≡ y
  pub ready : Holds scheduler.memory scheduler.ready ys

acquire_step :
    (regs count : ℕ) (sem : Semaphore) (s : Scheduler) (m : Memory) (q : Queue) (esp : ℕ)
    (s' : Scheduler)
    → sem.count < count
    → s.current ≢ null
    → push (waits_for count s) sem.waiting s.current ≡ some (m, q)
    → to_next_process regs false (record s { memory = m }) ≡ some (esp, s')
    → acquire regs sem count s ≡ some (esp, record sem { waiting = q }, s')
unfolding acquire update
acquire_step regs count sem s m q esp s' less ne pushed switched = ground arith

-- Asking for more units than there are takes none of them: the current process, marked with its need and
-- its stack pointer saved, goes behind the waiting ones, and the first ready process runs.
pub acquire-Blocked :
    (regs count : ℕ) (sem : Semaphore) (s : Scheduler) (ws : List Ptr) (y : Ptr) (ys : List Ptr)
    → sem.count < count
    → s.current ≢ null
    → s.current ∉ ws
    → s.current ∉ (y ∷ ys)
    → Disjoint (y ∷ ys) ws
    → Holds s.memory sem.waiting ws
    → Holds s.memory s.ready (y ∷ ys)
    → length ws + 1 < u32
    → Blocked (acquire regs sem count s) regs count sem s ws y ys
acquire-Blocked regs count sem s ws y ys less ne out_w out_r apart hw hr fits =
    let m = waits_for count s in
    let spared : (a : Ptr) → a ≢ s.current → m a ≡ s.memory a = λ a o.
      write_ne s.memory s.current
        (record (s.memory s.current) { state = State.block; waiting_for_resource_count = count }) a
        o in
    let hw₁ : Holds m sem.waiting ws =
      Holds-frame s.memory m sem.waiting ws hw
        (λ a i. ap (λ x. x.queue_next) (spared a (ne_of_not_has a s.current ws i out_w))) in
    let p = push-append m sem.waiting s.current ws hw₁ ne out_w fits in
    let s₁ : Scheduler = record s { memory = p.mem } in
    let unmoved : (a : Ptr) → has a (y ∷ ys) ≡ true → p.mem a ≡ s.memory a = λ a i.
      let other : a ≢ s.current = ne_of_not_has a s.current (y ∷ ys) i out_r in
      p.outside a (not_has_cons a s.current ws other (apart a i)) ∙ spared a other in
    let hr₁ : Holds p.mem s.ready (y ∷ ys) =
      Holds-frame s.memory p.mem s.ready (y ∷ ys) hr
        (λ a i. ap (λ x. x.queue_next) (unmoved a i)) in
    let r = to_next_process-Running regs s₁ y ys ne hr₁ in
    let ne_y : y ≢ s.current = ne_of_not_has y s.current (y ∷ ys) (ground arith) out_r in
    let now : r.0.after.memory s.current ≡ saved regs s₁ s.current =
      r.0.others s.current (λ e. ne_y (sym e)) in
    let esp : (saved regs s₁ y).saved_esp ≡ (s.memory y).saved_esp =
      ap (λ x. x.saved_esp) (write_ne p.mem s.current _ y ne_y ∙ unmoved y (ground arith)) in
    record {
      after = record sem { waiting = p.queue };
      scheduler = r.0.after;
      runs =
          acquire_step regs count sem s p.mem p.queue (saved regs s₁ y).saved_esp r.0.after less ne
            p.runs r.0.runs
          ∙ ap (λ (n : ℕ). some (n, record sem { waiting = p.queue }, r.0.after)) esp;
      units = refl;
      waiting =
          Holds-frame p.mem r.0.after.memory p.queue (ws ++ s.current ∷ []) p.holds
            (λ a i. r.0.links a ∙ write_keeps (λ x. x.queue_next) p.mem s.current _ a refl);
      need =
          ap (λ x. x.waiting_for_resource_count) now
          ∙ write_keeps (λ x. x.waiting_for_resource_count) p.mem s.current _ s.current refl
          ∙ ap (λ x. x.waiting_for_resource_count) (p.links_only s.current)
          ∙ ap (λ x. x.waiting_for_resource_count) (write_self s.memory s.current _);
      state =
          ap (λ x. x.state) now
          ∙ write_keeps (λ x. x.state) p.mem s.current _ s.current refl
          ∙ ap (λ x. x.state) (p.links_only s.current)
          ∙ ap (λ x. x.state) (write_self s.memory s.current _);
      kept = ap (λ x. x.saved_esp) now ∙ ap (λ x. x.saved_esp) (write_self p.mem s.current _);
      current = r.0.current;
      ready = r.0.ready;
    }
