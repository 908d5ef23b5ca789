-- ===== src/Scheduler/Wake.antt =====
-- The sleep queue of scheduler_switch: every process whose time has come is made ready, in order.
use kerosene.Base.{
  ℕ, zero, suc, ◌+◌, ◌%◌, ◌^◌, ◌<◌, ◌≤◌, ◌≡◌, refl, ◌∙◌, ap, Bool-cases, true, Option, some, inl,
  inr, List, [], ◌∷◌, ◌++◌, arith, ◌==◌, leb, if◌then◌else◌, length, length-append,
}
use mathlib.Core.List.{append_assoc, append-nil}
use kerosene.Base.Words.{u32}
use kerosene.Process.{Ptr, Memory}
use kerosene.Process.Queue.{Queue, pop}
use kerosene.Process.Queue.Chain.{has, ◌∉◌, ne_of_not_has}
use kerosene.Process.Queue.Fifo.{Holds, Holds-frame, Disjoint, has-append, pop-cons}
use kerosene.Process.Queue.Sorted.{Below, IsSorted}
use kerosene.Scheduler.{Scheduler, wake_loop, wake}
use kerosene.Scheduler.Ready.{bare, push_ready-append}

-- The sleepers from the front whose target is at most `now`, and the rest.
abbrev pub due : Memory → ℕ → List Ptr → List Ptr
due m now [] = []
due m now (x ∷ xs) = if leb (m x).sleep_ticks now then x ∷ due m now xs else []

abbrev pub later : Memory → ℕ → List Ptr → List Ptr
later m now [] = []
later m now (x ∷ xs) = if leb (m x).sleep_ticks now then later m now xs else x ∷ xs

due-cong :
    (m m' : Memory) (now : ℕ) (xs : List Ptr)
    → ((a : Ptr) → bare (m' a) ≡ bare (m a))
    → (due m' now xs ≡ due m now xs) × (later m' now xs ≡ later m now xs)
due-cong m m' now [] same = (refl, refl)
due-cong m m' now (x ∷ xs) same =
    let rest = due-cong m m' now xs same in
    let ticks : (m' x).sleep_ticks ≡ (m x).sleep_ticks = ap (λ p. p.sleep_ticks) (same x) in
    rw ticks (ground (arith, rest.0), ground (arith, rest.1))

-- A run of the loop from `s`, with the sleepers `ss` and the ready processes `rs`.
pub record Woken (o : Option Scheduler) (s : Scheduler) (now : ℕ) (ss rs : List Ptr) : Type 0 where
  pub mem : Memory
  pub sleep : Queue
  pub ready : Queue
  pub runs : o ≡ some (record s { memory = mem; sleep = sleep; ready = ready })
  pub asleep : Holds mem sleep (later s.memory now ss)
  pub is_ready : Holds mem ready (rs ++ due s.memory now ss)
  pub outside : (a : Ptr) → a ∉ ss → a ∉ rs → mem a ≡ s.memory a
  pub same : (a : Ptr) → bare (mem a) ≡ bare (s.memory a)

wake_loop-due :
    (fuel : ℕ) (s : Scheduler) (ss rs : List Ptr)
    → Holds s.memory s.sleep ss
    → Holds s.memory s.ready rs
    → Disjoint ss rs
    → length ss + length rs < u32
    → length ss < fuel
    → Woken (wake_loop fuel s) s s.global_sleep_ticks ss rs
unfolding wake_loop
wake_loop-due zero s ss rs hs hr apart fits enough = absurd (omega arith)
wake_loop-due (suc fuel) s [] rs hs hr apart fits enough = record {
  mem = s.memory;
  sleep = s.sleep;
  ready = s.ready;
  runs = ground (arith, hs.chain);
  asleep = hs;
  is_ready = rw (append-nil rs) hr;
  outside = λ a i o. refl;
  same = λ a. refl;
}
wake_loop-due (suc fuel) s (x ∷ ss) rs hs hr apart fits enough =
    elim (Bool-cases (leb (s.memory x).sleep_ticks s.global_sleep_ticks)) [
      | inl now ↦
          let popped = pop-cons hs in
          let s₀ = record s { sleep = (pop s.memory s.sleep).1 } in
          let r = push_ready-append s₀ x rs hr hs.chain.1 (apart x (ground arith)) (omega arith) in
          let s₁ = record s₀ { memory = r.mem; ready = r.queue } in
          let spared : (a : Ptr) → has a ss ≡ true → a ∉ (x ∷ rs) =
            λ a i. ground (arith, apart a, ne_of_not_has a x ss i hs.distinct.0) in
          let hs₁ : Holds r.mem s₁.sleep ss =
            Holds-frame s.memory r.mem s₁.sleep ss popped.1
              (λ a i. ap (λ p. p.queue_next) (r.outside a (spared a i))) in
          let apart₁ : Disjoint ss (rs ++ x ∷ []) = λ a i.
            has-append a rs x (apart a (ground arith)) (ne_of_not_has a x ss i hs.distinct.0) in
          let rest =
            wake_loop-due fuel s₁ ss (rs ++ x ∷ []) hs₁ r.holds apart₁
              (omega (arith, length-append rs (x ∷ []))) (omega arith) in
          let cong = due-cong s.memory r.mem s.global_sleep_ticks ss r.same in
          record {
            mem = rest.mem;
            sleep = rest.sleep;
            ready = rest.ready;
            runs = ground (arith, popped.0, hs.chain, r.runs, rest.runs);
            asleep = rw now (rw cong.1 at rest.asleep);
            is_ready = rw now (rw (cong.0, append_assoc) at rest.is_ready);
            outside = λ a i o.
                rest.outside a (ground arith) (has-append a rs x o (ground arith))
                ∙ r.outside a (ground arith);
            same = λ a. rest.same a ∙ r.same a;
          }
      | inr not_yet ↦ record {
        mem = s.memory;
        sleep = s.sleep;
        ready = s.ready;
        runs = ground (arith, hs.chain);
        asleep = rw not_yet hs;
        is_ready = rw not_yet (rw (append-nil rs) hr);
        outside = λ a i o. refl;
        same = λ a. refl;
      }
    ]

abbrev pub All {ℓ} : (Ptr → Type ℓ) → List Ptr → Type ℓ
All P [] = Unit
All P (x ∷ xs) = P x × All P xs

due-All : (m : Memory) (now : ℕ) (xs : List Ptr) → All (λ a. (m a).sleep_ticks ≤ now) (due m now xs)
due-All m now [] = tt
due-All m now (x ∷ xs) = elim (Bool-cases (leb (m x).sleep_ticks now)) [
  | inl h ↦ rw h (ground arith, due-All m now xs)
  | inr h ↦ rw h tt
]

above :
    (m : Memory) (now t : ℕ) (xs : List Ptr)
    → now < t
    → Below t m xs
    → IsSorted m xs
    → All (λ a. now < (m a).sleep_ticks) xs
above m now t [] h b s = tt
above m now t (x ∷ xs) h b s = (omega arith, above m now (m x).sleep_ticks xs (omega arith) s.0 s.1)

later-All :
    (m : Memory) (now : ℕ) (xs : List Ptr)
    → IsSorted m xs
    → All (λ a. now < (m a).sleep_ticks) (later m now xs)
later-All m now [] s = tt
later-All m now (x ∷ xs) s = elim (Bool-cases (leb (m x).sleep_ticks now)) [
  | inl h ↦ rw h (later-All m now xs s.1)
  | inr h ↦ rw h (
      let late : now < (m x).sleep_ticks = ground arith in
      (late, above m now (m x).sleep_ticks xs late s.0 s.1))
]

due-append-later : (m : Memory) (now : ℕ) (xs : List Ptr) → due m now xs ++ later m now xs ≡ xs
due-append-later m now [] = refl
due-append-later m now (x ∷ xs) = ground (arith, due-append-later m now xs)

-- One tick: the sleepers fall apart into those to wake and those to leave.
pub record Ticked (o : Option Scheduler) (s : Scheduler) (now : ℕ) (ss rs : List Ptr) : Type 0 where
  pub after : Scheduler
  pub woken : List Ptr
  pub left : List Ptr
  pub runs : o ≡ some after
  pub split : woken ++ left ≡ ss
  pub over : All (λ a. (s.memory a).sleep_ticks ≤ now) woken
  pub not_over : All (λ a. now < (s.memory a).sleep_ticks) left
  pub is_ready : Holds after.memory after.ready (rs ++ woken)
  pub asleep : Holds after.memory after.sleep left
  pub clock : after.global_sleep_ticks ≡ (if length left == 0 then 0 else now)
  pub others : (a : Ptr) → a ∉ ss → a ∉ rs → after.memory a ≡ s.memory a

-- With sleepers in order, one tick advances the sleep clock and makes ready, in order and behind
-- the ready processes, exactly the sleepers whose target the clock has reached. The others stay
-- asleep, the clock starts again at 0 when none is left, and no other process changes.
pub wake-Ticked :
    (fuel : ℕ) (s : Scheduler) (x : Ptr) (ss rs : List Ptr)
    → Holds s.memory s.sleep (x ∷ ss)
    → Holds s.memory s.ready rs
    → IsSorted s.memory (x ∷ ss)
    → Disjoint (x ∷ ss) rs
    → length (x ∷ ss) + length rs < u32
    → length (x ∷ ss) < fuel
    → Ticked (wake fuel s) s ((s.global_sleep_ticks + 1) % 2 ^ 64) (x ∷ ss) rs
unfolding wake
wake-Ticked fuel s x ss rs hs hr sorted apart fits enough =
    let now : ℕ = (s.global_sleep_ticks + 1) % 2 ^ 64 in
    let s₁ = record s { global_sleep_ticks = now } in
    let w = wake_loop-due fuel s₁ (x ∷ ss) rs hs hr apart fits enough in
    let s₂ = record s₁ { memory = w.mem; sleep = w.sleep; ready = w.ready } in
    record {
      after = record s₂ { global_sleep_ticks = if w.sleep.size == 0 then 0 else now };
      woken = due s.memory now (x ∷ ss);
      left = later s.memory now (x ∷ ss);
      runs = ground (arith, hs.size, w.runs);
      split = due-append-later s.memory now (x ∷ ss);
      over = due-All s.memory now (x ∷ ss);
      not_over = later-All s.memory now (x ∷ ss) sorted;
      is_ready = w.is_ready;
      asleep = w.asleep;
      clock = ap (λ (n : ℕ). if n == 0 then 0 else now) w.asleep.size;
      others = w.outside;
    }
