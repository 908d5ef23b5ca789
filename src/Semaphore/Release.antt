-- ===== src/Semaphore/Release.antt =====
-- semaphore_release: units go to the waiting processes in the order in which they came.
use kerosene.Base.{
  ℕ, zero, suc, ◌+◌, ◌-◌, ◌<◌, ◌≡◌, refl, ◌∙◌, ap, ◌≢◌, Bool-cases, true, Option, some, inl, inr,
  List, [], ◌∷◌, ◌++◌, arith, leb, if◌then◌else◌, length, length-append,
}
use mathlib.Core.List.{append_assoc, append-nil}
use kerosene.Base.Words.{u32, add32}
use kerosene.Process.{Ptr, null, State, Memory, update, write}
use kerosene.Process.Queue.{Queue, pop}
use kerosene.Process.Queue.Chain.{◌∉◌, ne_of_not_has}
use kerosene.Process.Queue.Fifo.{Holds, Holds-frame, Disjoint, has-append, pop-cons}
use kerosene.Scheduler.{Scheduler, with_state, push_ready}
use kerosene.Scheduler.Ready.{bare, push_ready-append}
use kerosene.Semaphore.{Semaphore, release_loop, release}

abbrev pub need : Memory → Ptr → ℕ
need m x = (m x).waiting_for_resource_count

-- Who is served from `c` units, who is left waiting, and the units left.
abbrev pub served : Memory → ℕ → List Ptr → List Ptr
served m c [] = []
served m c (x ∷ xs) = if leb (need m x) c then x ∷ served m (c - need m x) xs else []

abbrev pub unserved : Memory → ℕ → List Ptr → List Ptr
unserved m c [] = []
unserved m c (x ∷ xs) = if leb (need m x) c then unserved m (c - need m x) xs else x ∷ xs

abbrev pub units_left : Memory → ℕ → List Ptr → ℕ
units_left m c [] = c
units_left m c (x ∷ xs) = if leb (need m x) c then units_left m (c - need m x) xs else c

abbrev pub needs : Memory → List Ptr → ℕ
needs m [] = 0
needs m (x ∷ xs) = need m x + needs m xs

served-cong :
    (m m' : Memory) (c : ℕ) (xs : List Ptr)
    → ((a : Ptr) → need m' a ≡ need m a)
    → (served m' c xs ≡ served m c xs)
      × (unserved m' c xs ≡ unserved m c xs)
      × (units_left m' c xs ≡ units_left m c xs)
served-cong m m' c [] same = (refl, refl, refl)
served-cong m m' c (x ∷ xs) same =
    let rest = served-cong m m' (c - need m x) xs same in
    rw (same x) (ground (arith, rest.0), ground (arith, rest.1), ground (arith, rest.2))

record Served (o : Option (Semaphore × Scheduler)) (c : ℕ) (s : Scheduler) (ws rs : List Ptr)
    : Type 0 where
  mem : Memory
  waiting : Queue
  ready : Queue
  runs :
      o
      ≡ some (
        record { count = units_left s.memory c ws; waiting = waiting },
        record s { memory = mem; ready = ready },
      )
  still : Holds mem waiting (unserved s.memory c ws)
  is_ready : Holds mem ready (rs ++ served s.memory c ws)
  others : (a : Ptr) → a ∉ ws → a ∉ rs → mem a ≡ s.memory a
  same : (a : Ptr) → bare (mem a) ≡ bare (s.memory a)

-- One round that serves the first of the waiting processes.
release_step :
    (fuel c : ℕ) (q : Queue) (s : Scheduler) (x : Ptr)
    → q.size ≢ 0
    → q.top ≡ x
    → x ≢ null
    → leb (need s.memory x) c ≡ true
    → {s₁ : Scheduler}
    → push_ready (record s { memory = write s.memory x (with_state State.ready (s.memory x)) }) x
      ≡ some s₁
    → release_loop (suc fuel) (record { count = c; waiting = q }) s
      ≡ release_loop fuel (record { count = c - need s.memory x; waiting = (pop s.memory q).1 }) s₁
unfolding release_loop update
release_step fuel c q s x size top ne enough runs = ground arith

release_loop-Served :
    (fuel c : ℕ) (q : Queue) (s : Scheduler) (ws rs : List Ptr)
    → Holds s.memory q ws
    → Holds s.memory s.ready rs
    → Disjoint ws rs
    → length ws + length rs < u32
    → length ws < fuel
    → Served (release_loop fuel (record { count = c; waiting = q }) s) c s ws rs
unfolding release_loop update write
release_loop-Served zero c q s ws rs hs hr apart fits enough = absurd (omega arith)
release_loop-Served (suc fuel) c q s [] rs hs hr apart fits enough = record {
  mem = s.memory;
  waiting = q;
  ready = s.ready;
  runs = ground (arith, hs.size);
  still = hs;
  is_ready = rw (append-nil rs) hr;
  others = λ a i o. refl;
  same = λ a. refl;
}
release_loop-Served (suc fuel) c q s (x ∷ ws) rs hs hr apart fits enough =
    elim (Bool-cases (leb (need s.memory x) c)) [
      | inl enough_units ↦
          let popped = pop-cons hs in
          let m₀ : Memory = write s.memory x (with_state State.ready (s.memory x)) in
          let s₀ : Scheduler = record s { memory = m₀ } in
          let hr₀ : Holds m₀ s.ready rs = Holds-frame s.memory m₀ s.ready rs hr (ground arith) in
          let r = push_ready-append s₀ x rs hr₀ hs.chain.1 (apart x (ground arith)) (omega arith) in
          let s₁ : Scheduler = record s { memory = r.mem; ready = r.queue } in
          let q₁ : Queue = (pop s.memory q).1 in
          let outside : (a : Ptr) → a ≢ x → a ∉ rs → r.mem a ≡ s.memory a =
            λ a ne o. r.outside a (ground arith) ∙ ground arith in
          let hs₁ : Holds r.mem q₁ ws = Holds-frame s.memory r.mem q₁ ws popped.1 (λ a i.
            ap (λ p. p.queue_next)
              (outside a (ne_of_not_has a x ws i hs.distinct.0) (apart a (ground arith)))) in
          let apart₁ : Disjoint ws (rs ++ x ∷ []) = λ a i.
            has-append a rs x (apart a (ground arith)) (ne_of_not_has a x ws i hs.distinct.0) in
          let rest =
            release_loop-Served fuel (c - need s.memory x) q₁ s₁ ws (rs ++ x ∷ []) hs₁ r.holds
              apart₁ (omega (arith, length-append rs (x ∷ []))) (omega arith) in
          let same : (a : Ptr) → bare (r.mem a) ≡ bare (s.memory a) =
            λ a. r.same a ∙ ground arith in
          let cong =
            served-cong s.memory r.mem (c - need s.memory x) ws
              (λ a. ap (λ p. p.waiting_for_resource_count) (same a)) in
          record {
            mem = rest.mem;
            waiting = rest.waiting;
            ready = rest.ready;
            runs = rw enough_units (
                release_step fuel c q s x (omega (arith, hs.size)) hs.chain.0 hs.chain.1
                  enough_units r.runs
                ∙ rest.runs
                ∙ ap
                    (λ n. some (
                      record { count = n; waiting = rest.waiting },
                      record s { memory = rest.mem; ready = rest.ready },
                    ))
                    cong.2);
            still = rw enough_units (rw cong.1 at rest.still);
            is_ready = rw enough_units (rw (cong.0, append_assoc) at rest.is_ready);
            others = λ a i o.
                rest.others a (ground arith) (has-append a rs x o (ground arith))
                ∙ outside a (ground arith) o;
            same = λ a. rest.same a ∙ same a;
          }
      | inr too_few ↦ record {
        mem = s.memory;
        waiting = q;
        ready = s.ready;
        runs = ground (arith, hs.size, hs.chain);
        still = rw too_few hs;
        is_ready = rw too_few (rw (append-nil rs) hr);
        others = λ a i o. refl;
        same = λ a. refl;
      }
    ]

-- Where a release stops: nobody waits, or the first in the queue needs more than is left.
abbrev pub Stuck : Memory → ℕ → List Ptr → Type 0
Stuck m c [] = Unit
Stuck m c (x ∷ xs) = c < need m x

unserved-Stuck :
    (m : Memory) (c : ℕ) (xs : List Ptr) → Stuck m (units_left m c xs) (unserved m c xs)
unserved-Stuck m c [] = tt
unserved-Stuck m c (x ∷ xs) = elim (Bool-cases (leb (need m x) c)) [
  | inl h ↦ rw h (unserved-Stuck m (c - need m x) xs)
  | inr h ↦ rw h (ground arith)
]

needs-served :
    (m : Memory) (c : ℕ) (xs : List Ptr) → units_left m c xs + needs m (served m c xs) ≡ c
needs-served m c [] = omega arith
needs-served m c (x ∷ xs) = ground (arith, needs-served m (c - need m x) xs)

served-append-unserved :
    (m : Memory) (c : ℕ) (xs : List Ptr) → served m c xs ++ unserved m c xs ≡ xs
served-append-unserved m c [] = refl
served-append-unserved m c (x ∷ xs) = ground (arith, served-append-unserved m (c - need m x) xs)

-- What a release from `s`, with `c` units to give, does to the waiting and the ready processes.
pub record Released (o : Option (Semaphore × Scheduler)) (c : ℕ) (s : Scheduler) (ws rs : List Ptr)
    : Type 0 where
  pub after : Semaphore
  pub scheduler : Scheduler
  pub granted : List Ptr
  pub left : List Ptr
  pub runs : o ≡ some (after, scheduler)
  pub order : granted ++ left ≡ ws
  pub conserved : after.count + needs s.memory granted ≡ c
  pub is_maximal : Stuck s.memory after.count left
  pub waiting : Holds scheduler.memory after.waiting left
  pub ready : Holds scheduler.memory scheduler.ready (rs ++ granted)
  pub others : (a : Ptr) → a ∉ ws → a ∉ rs → scheduler.memory a ≡ s.memory a

-- Releasing wakes a longest run of waiting processes from the front, in order and behind the ready
-- ones: the units that they need and the units left make up the old count and the released ones
-- (modulo 2^32), and the first who goes on waiting needs more than is left. No other process changes.
pub release-Released :
    (fuel : ℕ) (sem : Semaphore) (count : ℕ) (s : Scheduler) (ws rs : List Ptr)
    → Holds s.memory sem.waiting ws
    → Holds s.memory s.ready rs
    → Disjoint ws rs
    → length ws + length rs < u32
    → length ws < fuel
    → Released (release fuel sem count s) (add32 sem.count count) s ws rs
unfolding release
release-Released fuel sem count s ws rs hw hr apart fits enough =
    let c : ℕ = add32 sem.count count in
    let r = release_loop-Served fuel c sem.waiting s ws rs hw hr apart fits enough in
    record {
      after = record { count = units_left s.memory c ws; waiting = r.waiting };
      scheduler = record s { memory = r.mem; ready = r.ready };
      granted = served s.memory c ws;
      left = unserved s.memory c ws;
      runs = r.runs;
      order = served-append-unserved s.memory c ws;
      conserved = needs-served s.memory c ws;
      is_maximal = unserved-Stuck s.memory c ws;
      waiting = r.still;
      ready = r.is_ready;
      others = r.others;
    }
