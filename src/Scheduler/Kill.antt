-- ===== src/Scheduler/Kill.antt =====
-- scheduler_kill_process: the current process goes to the delete queue, the one waiting for it is
-- told its exit code and made ready.
use kerosene.Base.{
  ℕ, ◌+◌, ◌<◌, ◌≡◌, refl, ◌∙◌, ap, ◌≢◌, inl, inr, Bool-cases, true, false, Option, some, List, [],
  ◌∷◌, ◌++◌, arith, ◌==◌, if◌then◌else◌, ◌>>=◌, length,
}
use mathlib.Core.List.{append-nil}
use kerosene.Base.Words.{u32}
use kerosene.Process.{
  Ptr, null, Process, Memory, load, update, write, write_self, write_ne, write_keeps,
}
use kerosene.Process.Queue.{Queue, push}
use kerosene.Process.Queue.Chain.{has, ◌∉◌, ne_of_not_has}
use kerosene.Process.Queue.Fifo.{Holds, Holds-frame, Disjoint, push-append}
use kerosene.Scheduler.{Scheduler, push_ready, to_next_process, kill_process}
use kerosene.Scheduler.Ready.{bare, push_ready-append}
use kerosene.Scheduler.Dispatch.{to_next_process-Running}

-- The idle process is never killed.
pub kill_process-idle :
    (regs exit_code : ℕ) (s : Scheduler)
    → s.current ≢ null
    → (s.memory s.current).id ≡ 1
    → kill_process regs exit_code s ≡ some (regs, s)
unfolding kill_process load
kill_process-idle regs exit_code s ne e = ground arith

-- The process that waits for the current one to end.
abbrev pub parents : Scheduler → List Ptr
parents s =
    if (s.memory s.current).attached_from == null
    then []
    else (s.memory s.current).attached_from ∷ []

-- The first part of the function: the waiting process is told and made ready.
tell_parent : ℕ → Scheduler → Option Scheduler
tell_parent exit_code s =
    let p = (s.memory s.current).attached_from in
    if p == null then some s else do
      m ← update s.memory p (λ y. record y { received_exit_code = exit_code })
      push_ready (record s { memory = m }) p

-- The process but for what the wake-up writes.
abbrev untold : Process → Process
untold x = bare (record x { received_exit_code = 0 })

record Told (o : Option Scheduler) (exit_code : ℕ) (s : Scheduler) (rs ps : List Ptr) : Type 0 where
  mem : Memory
  queue : Queue
  runs : o ≡ some (record s { memory = mem; ready = queue })
  ready : Holds mem queue (rs ++ ps)
  outside : (a : Ptr) → a ∉ (rs ++ ps) → mem a ≡ s.memory a
  same : (a : Ptr) → untold (mem a) ≡ untold (s.memory a)
  told : (a : Ptr) → has a (ps) ≡ true → (mem a).received_exit_code ≡ exit_code

not_has_append : (a : Ptr) (xs ys : List Ptr) → a ∉ (xs ++ ys) → (a ∉ xs) × (a ∉ ys)
not_has_append a [] ys out = (refl, out)
not_has_append a (x ∷ xs) ys out = ground (arith, not_has_append a xs ys)

last_out : (a x : Ptr) (xs : List Ptr) → a ∉ (xs ++ x ∷ []) → a ∉ (x ∷ xs)
last_out a x xs out =
    let parts = not_has_append a xs (x ∷ []) out in ground (arith, parts.0, parts.1)

last_ne : (a x : Ptr) (xs : List Ptr) → a ∉ (xs ++ x ∷ []) → a ≢ x
last_ne a x xs out = let parts = not_has_append a xs (x ∷ []) out in ground (arith, parts.1)

single : (a x : Ptr) → has a (x ∷ []) ≡ true → a ≡ x
single a x i = ground arith

clear_code : Process → Process
clear_code x = record x { received_exit_code = 0 }

tell_parent-Told :
    (exit_code : ℕ) (s : Scheduler) (rs : List Ptr)
    → Holds s.memory s.ready rs
    → Disjoint (parents s) rs
    → length rs + 1 < u32
    → Told (tell_parent exit_code s) exit_code s rs (parents s)
unfolding tell_parent update clear_code
tell_parent-Told exit_code s rs h apart fits =
    elim (Bool-cases ((s.memory s.current).attached_from == null)) [
      | inl orphan ↦ rw orphan (record {
        mem = s.memory;
        queue = s.ready;
        runs = refl;
        ready = rw (append-nil rs) h;
        outside = λ a o. refl;
        same = λ a. refl;
        told = λ a i. cc;
      })
      | inr waiting ↦
          let p : Ptr = (s.memory s.current).attached_from in
          let ne : p ≢ null = ground arith in
          let x : Process = record (s.memory p) { received_exit_code = exit_code } in
          let m : Memory = write s.memory p x in
          let h₁ =
            Holds-frame s.memory m s.ready rs h
              (λ a i. write_keeps (λ y. y.queue_next) s.memory p x a refl) in
          let r =
            push_ready-append (record s { memory = m }) p rs h₁ ne
              (apart p (rw waiting (ground arith))) fits in
          rw waiting (record {
            mem = r.mem;
            queue = r.queue;
            runs = ground (arith, r.runs);
            ready = r.holds;
            outside =
                λ a o. r.outside a (last_out a p rs o) ∙ write_ne s.memory p x a (last_ne a p rs o);
            same = λ a. ap clear_code (r.same a) ∙ write_keeps untold s.memory p x a refl;
            told = λ a i. rw (single a p i) (
                ap (λ y. y.received_exit_code) (r.same p)
                ∙ ap (λ y. y.received_exit_code) (write_self s.memory p x));
          })
    ]

Disjoint-sym : (xs ys : List Ptr) → Disjoint xs ys → Disjoint ys xs
Disjoint-sym xs ys apart a i = ground (arith, apart a)

kill_step :
    (regs exit_code : ℕ) (s s₁ : Scheduler) (m : Memory) (q : Queue)
    → s.current ≢ null
    → (s.memory s.current).id ≢ 1
    → tell_parent exit_code s ≡ some s₁
    → push s₁.memory s₁.delete s₁.current ≡ some (m, q)
    → kill_process regs exit_code s
      ≡ to_next_process regs false (record s₁ { memory = m; delete = q })
unfolding kill_process tell_parent load
kill_step regs exit_code s s₁ m q ne id told pushed = ground arith

pub record Killed (o : Option (ℕ × Scheduler)) (exit_code : ℕ) (s : Scheduler) (ds : List Ptr)
    (y : Ptr) (ys : List Ptr) : Type 0 where
  pub after : Scheduler
  pub runs : o ≡ some ((s.memory y).saved_esp, after)
  pub current : after.current ≡ y
  pub ready : Holds after.memory after.ready ys
  pub doomed : Holds after.memory after.delete (ds ++ s.current ∷ [])
  pub told : (a : Ptr) → has a (parents s) ≡ true → (after.memory a).received_exit_code ≡ exit_code
  pub asleep : after.sleep ≡ s.sleep

-- Killing a process other than the idle one puts it at the end of the delete queue, hands its exit
-- code to the process that waits for it, if any, which becomes the last of the ready ones, and runs
-- the first ready process from its saved stack pointer.
pub kill_process-Killed :
    (regs exit_code : ℕ) (s : Scheduler) (rs ds : List Ptr) (y : Ptr) (ys : List Ptr)
    → s.current ≢ null
    → (s.memory s.current).id ≢ 1
    → Holds s.memory s.ready rs
    → Holds s.memory s.delete ds
    → Disjoint (parents s) rs
    → Disjoint (s.current ∷ ds) (rs ++ parents s)
    → s.current ∉ ds
    → rs ++ parents s ≡ y ∷ ys
    → length rs + 1 < u32
    → length ds + 1 < u32
    → Killed (kill_process regs exit_code s) exit_code s ds y ys
kill_process-Killed regs exit_code s rs ds y ys ne id hr hd fresh apart_doomed out split fits
      fits_d =
    let apart : Disjoint (rs ++ parents s) (s.current ∷ ds) =
      Disjoint-sym (s.current ∷ ds) (rs ++ parents s) apart_doomed in
    let t = tell_parent-Told exit_code s rs hr fresh fits in
    let s₁ : Scheduler = record s { memory = t.mem; ready = t.queue } in
    let doomed_kept : (a : Ptr) → has a (s.current ∷ ds) ≡ true → t.mem a ≡ s.memory a =
      λ a i. t.outside a (apart_doomed a i) in
    let hd₁ : Holds t.mem s.delete ds =
      Holds-frame s.memory t.mem s.delete ds hd
        (λ a i. ap (λ x. x.queue_next) (doomed_kept a (ground arith))) in
    let p = push-append t.mem s.delete s.current ds hd₁ ne out fits_d in
    let s₂ : Scheduler = record s₁ { memory = p.mem; delete = p.queue } in
    let hr₂ : Holds p.mem t.queue (rs ++ parents s) =
      Holds-frame t.mem p.mem t.queue (rs ++ parents s) t.ready
        (λ a i. ap (λ x. x.queue_next) (p.outside a (apart a i))) in
    let r = to_next_process-Running regs s₂ y ys ne (rw split at hr₂) in
    let y_in : has y (rs ++ parents s) ≡ true = rw split (has_self y ys) in
    let ne_y : y ≢ s.current =
      ne_of_not_has y s.current (rs ++ parents s) y_in
        (apart_doomed s.current (has_self s.current ds)) in
    record {
      after = r.0.after;
      runs =
          kill_step regs exit_code s s₁ p.mem p.queue ne id t.runs p.runs
          ∙ r.0.runs
          ∙ ap (λ (n : ℕ). some (n, r.0.after))
              (ap (λ x. x.saved_esp)
                  (write_ne p.mem s.current _ y ne_y ∙ p.outside y (apart y y_in))
                ∙ ap (λ x. x.saved_esp) (t.same y));
      current = r.0.current;
      ready = r.0.ready;
      doomed = rw r.2 (
          Holds-frame p.mem r.0.after.memory p.queue (ds ++ s.current ∷ []) p.holds
            (λ a i. r.0.links a ∙ write_keeps (λ x. x.queue_next) p.mem s.current _ a refl));
      told = λ a i.
          ap (λ x. x.received_exit_code) (r.0.same a)
          ∙ write_keeps (λ x. x.received_exit_code) p.mem s.current _ a refl
          ∙ ap (λ x. x.received_exit_code) (p.links_only a)
          ∙ t.told a i;
      asleep = r.1;
    }
  where
    has_self : (a : Ptr) (xs : List Ptr) → has a (a ∷ xs) ≡ true
    has_self a xs = ground arith
