-- ===== src/Process/Queue/Sorted.antt =====
-- process_queue_sorted_push: the process goes in front of the first one that does not come before it.
use kerosene.Base.{
  ℕ, zero, suc, ◌+◌, ◌<◌, ◌≤◌, ◌≡◌, refl, ◌∙◌, ap, ◌≢◌, Bool, Bool-cases, true, some, inl, inr,
  List, [], ◌∷◌, arith, ◌==◌, ltb, if◌then◌else◌, length,
}
use kerosene.Base.Words.{u32}
use kerosene.Process.{Ptr, null, Process, Memory, write, with_next}
use kerosene.Process.Queue.{Queue, sort_by_sleep_ticks, sorted_walk, sorted_push}
use kerosene.Process.Queue.Chain.{
  has, ◌∉◌, Distinct, Chain, last, Chain-write, Chain-frame, ne_of_not_has, Chain-ne_null,
}
use kerosene.Process.Queue.Fifo.{Holds, Stored}

module _ (cmp : Process → Process → Bool) (m : Memory) (x : Ptr) where
  unfoldable pub insert : List Ptr → List Ptr
  insert [] = x ∷ []
  insert (y ∷ ys) = if cmp (m y) (m x) then y ∷ insert ys else x ∷ y ∷ ys

  length-insert : (xs : List Ptr) → length (insert xs) ≡ length xs + 1
  unfolding insert
  length-insert [] = omega arith
  length-insert (y ∷ ys) = ground (arith, length-insert ys)

  has-insert : (a : Ptr) (xs : List Ptr) → a ∉ xs → a ≢ x → a ∉ insert xs
  unfolding insert
  has-insert a [] out ne = ground arith
  has-insert a (y ∷ ys) out ne = ground (arith, has-insert a ys)

  Distinct-insert : (xs : List Ptr) → Distinct xs → x ∉ xs → Distinct (insert xs)
  unfolding insert
  Distinct-insert [] d out = (refl, tt)
  Distinct-insert (y ∷ ys) d out = elim (Bool-cases (cmp (m y) (m x))) [
    | inl before ↦
        rw before (has-insert y ys d.0 (ground arith), Distinct-insert ys d.1 (ground arith))
    | inr after ↦ rw after (out, d)
  ]

  -- The memory after the two writes of an insertion behind `prev`.
  abbrev linked : Ptr → Memory
  linked prev =
      let m₁ = write m x (with_next (m prev).queue_next (m x)) in
      write m₁ prev (with_next x (m₁ prev))

  -- Where the walk from `y` ends, and what the two writes there make of the chain.
  record Walked (fuel : ℕ) (p y : Ptr) (ys : List Ptr) : Type 0 where
    prev : Ptr
    found : sorted_walk cmp fuel m x y ≡ some prev
    member : has prev (y ∷ ys) ≡ true
    chain : Chain (linked prev) p (y ∷ insert ys)
    bottom : last y (insert ys) ≡ (if (m prev).queue_next == null then x else last y ys)

  walk :
      (fuel : ℕ) (p y : Ptr) (ys : List Ptr)
      → Chain m p (y ∷ ys)
      → Distinct (y ∷ ys)
      → x ∉ (y ∷ ys)
      → x ≢ null
      → length ys < fuel
      → Walked fuel p y ys
  unfolding sorted_walk insert write
  walk zero p y ys c d out ne fits = absurd (omega arith)
  walk (suc fuel) p y [] c d out ne fits = record {
    prev = y;
    found = ground arith;
    member = ground arith;
    chain = ground arith;
    bottom = ground arith;
  }
  walk (suc fuel) p y (z ∷ zs) c d out ne fits = elim (Bool-cases (cmp (m z) (m x))) [
    | inl before ↦
        let rest = walk fuel (m y).queue_next z zs c.2 d.1 (ground arith) ne (omega arith) in
        let apart : rest.prev ≢ y = ne_of_not_has rest.prev y (z ∷ zs) rest.member d.0 in
        let same : (linked rest.prev y).queue_next ≡ (m y).queue_next = ground arith in
        record {
          prev = rest.prev;
          found = ground (arith, rest.found);
          member = ground (arith, rest.member);
          chain = rw before (c.0, c.1, rw same rest.chain);
          bottom = rw before rest.bottom;
        }
    | inr after ↦
        let back : (linked y x).queue_next ≡ (m y).queue_next = ground arith in
        let spared : Chain (linked y) (m y).queue_next (z ∷ zs) =
          Chain-frame m (linked y) (m y).queue_next (z ∷ zs) c.2
            (λ a i. ground (arith, ne_of_not_has a y (z ∷ zs), ne_of_not_has a x (z ∷ zs))) in
        record {
          prev = y;
          found = ground arith;
          member = ground arith;
          chain = rw after (c.0, c.1, (ground arith, ne, rw back spared));
          bottom = ground arith;
        }
  ]

  -- Pushing in order inserts the process in front of the first that does not come before it; only
  -- links of the queue's processes are written, and as many rounds as the queue is long suffice.
  pub sorted_push-insert :
      (fuel : ℕ) (q : Queue) (xs : List Ptr)
      → Holds m q xs
      → x ≢ null
      → x ∉ xs
      → length xs + 1 < u32
      → length xs ≤ fuel
      → Stored (sorted_push cmp fuel m q x) m (x ∷ xs) (insert xs)
  unfolding sorted_push insert write
  sorted_push-insert fuel q [] h ne out fits enough = record {
    mem = write m x (with_next null (m x));
    queue = record { top = x; bottom = x; size = 1 };
    runs = ground (arith, h.chain, h.size);
    holds = record {
      chain = ground arith;
      distinct = (refl, tt);
      bottom = refl;
      size = refl;
      fits = omega arith;
    };
    outside = ground arith;
    links_only = ground arith;
  }
  sorted_push-insert fuel q (y ∷ ys) h ne out fits enough = elim (Bool-cases (cmp (m y) (m x))) [
    | inl before ↦
        let w = walk fuel q.top y ys h.chain h.distinct out ne (omega arith) in
        record {
          mem = linked w.prev;
          queue = record {
            top = q.top;
            bottom = if (m w.prev).queue_next == null then x else q.bottom;
            size = length ys + 2;
          };
          runs = ground (
            arith,
            w.found,
            h.chain,
            h.size,
            Chain-ne_null m q.top w.prev (y ∷ ys) h.chain w.member,
          );
          holds = record {
            chain = rw before w.chain;
            distinct = Distinct-insert (y ∷ ys) h.distinct out;
            bottom =
                rw before
                  (w.bottom ∙ ap (λ b. if (m w.prev).queue_next == null then x else b) h.bottom);
            size = rw before (omega (arith, length-insert ys));
            fits = rw before (omega (arith, length-insert ys));
          };
          outside = λ a o. ground (arith, ne_of_not_has w.prev a (y ∷ ys), w.member);
          links_only = ground arith;
        }
    | inr after ↦
        let tail : Chain (write m x (with_next y (m x))) y (y ∷ ys) =
          Chain-write m y x y (y ∷ ys) (refl, h.chain.1, h.chain.2) out in
        record {
          mem = write m x (with_next y (m x));
          queue = record { top = x; bottom = q.bottom; size = length ys + 2 };
          runs = ground (arith, h.chain, h.size);
          holds = record {
            chain = rw after (refl, ne, (ground arith, tail.1, tail.2));
            distinct = Distinct-insert (y ∷ ys) h.distinct out;
            bottom = rw after h.bottom;
            size = rw after (omega arith);
            fits = rw after (omega arith);
          };
          outside = ground arith;
          links_only = ground arith;
        }
  ]

abbrev pub Below : ℕ → Memory → List Ptr → Type 0
Below t m [] = Unit
Below t m (x ∷ xs) = t ≤ (m x).sleep_ticks

-- The sleep targets do not fall along the list.
abbrev pub IsSorted : Memory → List Ptr → Type 0
IsSorted m [] = Unit
IsSorted m (x ∷ xs) = Below (m x).sleep_ticks m xs × IsSorted m xs

module _ (m : Memory) (x : Ptr) where
  Below-insert :
      (t : ℕ) (xs : List Ptr)
      → t ≤ (m x).sleep_ticks
      → Below t m xs
      → Below t m (insert sort_by_sleep_ticks m x xs)
  unfolding insert
  Below-insert t [] h b = h
  Below-insert t (y ∷ ys) h b = ground arith

  -- Inserting by sleep target keeps the order.
  pub insert-IsSorted :
      (xs : List Ptr) → IsSorted m xs → IsSorted m (insert sort_by_sleep_ticks m x xs)
  unfolding insert
  insert-IsSorted [] s = (tt, tt)
  insert-IsSorted (y ∷ ys) s = elim (Bool-cases (ltb (m y).sleep_ticks (m x).sleep_ticks)) [
    | inl before ↦
        rw before (Below-insert (m y).sleep_ticks ys (ground arith) s.0, insert-IsSorted ys s.1)
    | inr after ↦ rw after (ground arith, s)
  ]
