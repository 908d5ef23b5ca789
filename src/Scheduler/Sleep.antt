-- ===== src/Scheduler/Sleep.antt =====
-- scheduler_set_sleep: the current process goes to its place in the sleep queue.
use kerosene.Base.{
  ℕ, ◌+◌, ◌%◌, ◌^◌, ◌<◌, ◌≤◌, ◌≡◌, refl, sym, ◌∙◌, ap, ◌≢◌, true, false, Option, some, List, [],
  ◌∷◌, arith, length,
}
use kerosene.Base.Words.{u32}
use kerosene.Process.{Ptr, null, State, Memory, update, write, write_self, write_ne, write_keeps}
use kerosene.Process.Queue.{Queue, sort_by_sleep_ticks, sorted_push}
use kerosene.Process.Queue.Chain.{has, ◌∉◌, ne_of_not_has}
use kerosene.Process.Queue.Fifo.{Holds, Holds-frame, Disjoint}
use kerosene.Process.Queue.Sorted.{Below, IsSorted, insert, insert-IsSorted, sorted_push-insert}
use kerosene.Scheduler.{Scheduler, to_next_process, set_sleep}
use kerosene.Scheduler.Dispatch.{to_next_process-Running}

Below-cong :
    (m m' : Memory) (t : ℕ) (xs : List Ptr)
    → ((a : Ptr) → has a xs ≡ true → (m' a).sleep_ticks ≡ (m a).sleep_ticks)
    → Below t m xs
    → Below t m' xs
Below-cong m m' t [] same b = tt
Below-cong m m' t (x ∷ xs) same b = rw (same x (ground arith)) b

pub IsSorted-cong :
    (m m' : Memory) (xs : List Ptr)
    → ((a : Ptr) → has a xs ≡ true → (m' a).sleep_ticks ≡ (m a).sleep_ticks)
    → IsSorted m xs
    → IsSorted m' xs
IsSorted-cong m m' [] same s = tt
IsSorted-cong m m' (x ∷ xs) same s =
    let on_rest : (a : Ptr) → has a xs ≡ true → (m' a).sleep_ticks ≡ (m a).sleep_ticks =
      λ a i. same a (ground arith) in
    (
      rw (same x (ground arith)) (Below-cong m m' (m x).sleep_ticks xs on_rest s.0),
      IsSorted-cong m m' xs on_rest s.1,
    )

-- The memory after the current process is marked asleep until its target.
abbrev pub marked : ℕ → Scheduler → Memory
marked ticks s = write s.memory s.current (record (s.memory s.current) {
  sleep_ticks = (ticks + s.global_sleep_ticks) % 2 ^ 64;
  state = State.sleep;
})

not_has_cons : (a x : Ptr) (xs : List Ptr) → a ≢ x → a ∉ xs → a ∉ (x ∷ xs)
not_has_cons a x xs ne out = ground arith

pub record Slept (o : Option (ℕ × Scheduler)) (ticks : ℕ) (s : Scheduler) (ss : List Ptr) (y : Ptr)
    (ys : List Ptr) : Type 0 where
  pub after : Scheduler
  pub runs : o ≡ some ((s.memory y).saved_esp, after)
  pub current : after.current ≡ y
  pub ready : Holds after.memory after.ready ys
  pub asleep :
      Holds after.memory after.sleep (insert sort_by_sleep_ticks (marked ticks s) s.current ss)
  pub sorted : IsSorted after.memory (insert sort_by_sleep_ticks (marked ticks s) s.current ss)
  pub target : (after.memory s.current).sleep_ticks ≡ (ticks + s.global_sleep_ticks) % 2 ^ 64
  pub state : (after.memory s.current).state ≡ State.sleep

set_sleep_step :
    (fuel regs ticks : ℕ) (s : Scheduler) (m : Memory) (q : Queue)
    → s.current ≢ null
    → sorted_push sort_by_sleep_ticks fuel (marked ticks s) s.sleep s.current ≡ some (m, q)
    → set_sleep fuel regs ticks s ≡ to_next_process regs false (record s { memory = m; sleep = q })
unfolding set_sleep update
set_sleep_step fuel regs ticks s m q ne runs = ground arith

-- Sleeping sets the target `ticks` after the sleep clock (modulo 2^64), puts the current process into
-- the sleep queue so that it stays in order of targets, and runs the first ready process.
pub set_sleep-Slept :
    (fuel regs ticks : ℕ) (s : Scheduler) (ss : List Ptr) (y : Ptr) (ys : List Ptr)
    → s.current ≢ null
    → s.current ∉ ss
    → s.current ∉ (y ∷ ys)
    → Disjoint (y ∷ ys) ss
    → Holds s.memory s.sleep ss
    → Holds s.memory s.ready (y ∷ ys)
    → IsSorted s.memory ss
    → length ss + 1 < u32
    → length ss ≤ fuel
    → Slept (set_sleep fuel regs ticks s) ticks s ss y ys
set_sleep-Slept fuel regs ticks s ss y ys ne out_s out_r apart hs hr sorted fits enough =
    let m = marked ticks s in
    let spared : (a : Ptr) → a ≢ s.current → m a ≡ s.memory a = λ a o.
      write_ne s.memory s.current
        (record (s.memory s.current) {
          sleep_ticks = (ticks + s.global_sleep_ticks) % 2 ^ 64;
          state = State.sleep;
        })
        a o in
    let links : (a : Ptr) → has a ss ≡ true → (m a).queue_next ≡ (s.memory a).queue_next =
      λ a i. ap (λ x. x.queue_next) (spared a (ne_of_not_has a s.current ss i out_s)) in
    let hs₁ : Holds m s.sleep ss = Holds-frame s.memory m s.sleep ss hs links in
    let p =
      sorted_push-insert sort_by_sleep_ticks m s.current fuel s.sleep ss hs₁ ne out_s fits enough in
    let ps = insert sort_by_sleep_ticks m s.current ss in
    let order : IsSorted m ps = insert-IsSorted m s.current ss (
      IsSorted-cong s.memory m ss
        (λ a i. ap (λ x. x.sleep_ticks) (spared a (ne_of_not_has a s.current ss i out_s)))
        sorted) in
    let s₁ : Scheduler = record s { memory = p.mem; sleep = p.queue } in
    let kept : (a : Ptr) → has a (y ∷ ys) ≡ true → p.mem a ≡ s.memory a = λ a i.
      let ne : a ≢ s.current = ne_of_not_has a s.current (y ∷ ys) i out_r in
      p.outside a (not_has_cons a s.current ss ne (apart a i)) ∙ spared a ne in
    let hr₁ : Holds p.mem s.ready (y ∷ ys) =
      Holds-frame s.memory p.mem s.ready (y ∷ ys) hr (λ a i. ap (λ x. x.queue_next) (kept a i)) in
    let r = to_next_process-Running regs s₁ y ys ne hr₁ in
    let ticks_kept : (a : Ptr) → (r.0.after.memory a).sleep_ticks ≡ (m a).sleep_ticks = λ a.
      ap (λ x. x.sleep_ticks) (r.0.same a)
      ∙ write_keeps (λ x. x.sleep_ticks) p.mem s.current _ a refl
      ∙ ap (λ x. x.sleep_ticks) (p.links_only a) in
    let ne_y : y ≢ s.current = ne_of_not_has y s.current (y ∷ ys) (ground arith) out_r in
    record {
      after = r.0.after;
      runs =
          set_sleep_step fuel regs ticks s p.mem p.queue ne p.runs
          ∙ r.0.runs
          ∙ ap (λ (n : ℕ). some (n, r.0.after))
              (ap (λ x. x.saved_esp) (write_ne p.mem s.current _ y ne_y ∙ kept y (ground arith)));
      current = r.0.current;
      ready = r.0.ready;
      asleep = rw r.1 (
          Holds-frame p.mem r.0.after.memory p.queue ps p.holds
            (λ a i. r.0.links a ∙ write_keeps (λ x. x.queue_next) p.mem s.current _ a refl));
      sorted = IsSorted-cong m r.0.after.memory ps (λ a i. ticks_kept a) order;
      target = ticks_kept s.current ∙ ap (λ x. x.sleep_ticks) (write_self s.memory s.current _);
      state =
          ap (λ x. x.state) (r.0.others s.current (λ e. ne_y (sym e)))
          ∙ write_keeps (λ x. x.state) p.mem s.current _ s.current refl
          ∙ ap (λ x. x.state) (p.links_only s.current)
          ∙ ap (λ x. x.state) (write_self s.memory s.current _);
    }
