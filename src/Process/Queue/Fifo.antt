-- ===== src/Process/Queue/Fifo.antt =====
-- A queue of process_queue.c stands for a list of distinct processes; push and pop work at its ends.
use kerosene.Base.{
  suc, ◌+◌, ◌<◌, ◌≡◌, refl, ◌≢◌, true, Option, some, List, [], ◌∷◌, ◌++◌, arith, length,
  length-append,
}
use kerosene.Base.Words.{u32}
use kerosene.Process.{Ptr, null, Memory, write, with_next}
use kerosene.Process.Queue.{Queue, push, pop}
use kerosene.Process.Queue.Chain.{
  has, ◌∉◌, Distinct, Chain, last, Chain-write, Chain-frame, Chain-append, has-last, ne_of_not_has,
  Chain-ne_null,
}

abbrev pub Bottom : Ptr → List Ptr → Type 0
Bottom b [] = Unit
Bottom b (x ∷ xs) = last x xs ≡ b

pub record Holds (m : Memory) (q : Queue) (xs : List Ptr) : Type 0 where
  pub chain : Chain m q.top xs
  pub distinct : Distinct xs
  pub bottom : Bottom q.bottom xs
  pub size : q.size ≡ length xs
  pub fits : length xs < u32

-- The processes are the same but for their links.
abbrev pub SameButLinks : Memory → Memory → Type 0
SameButLinks m m' = (a : Ptr) → with_next null (m' a) ≡ with_next null (m a)

-- `o` is a run that ends with a queue that holds `xs`, and that wrote at most to links in `touched`.
pub record Stored (o : Option (Memory × Queue)) (m : Memory) (touched xs : List Ptr) : Type 0 where
  pub mem : Memory
  pub queue : Queue
  pub runs : o ≡ some (mem, queue)
  pub holds : Holds mem queue xs
  pub outside : (a : Ptr) → a ∉ touched → mem a ≡ m a
  pub links_only : SameButLinks m mem

pub has-append : (a : Ptr) (xs : List Ptr) (x : Ptr) → a ∉ xs → a ≢ x → a ∉ (xs ++ x ∷ [])
has-append a [] x out ne = ground arith
has-append a (y ∷ xs) x out ne = ground (arith, has-append a xs x)

Distinct-append : (xs : List Ptr) (x : Ptr) → Distinct xs → x ∉ xs → Distinct (xs ++ x ∷ [])
Distinct-append [] x d out = (refl, tt)
Distinct-append (y ∷ xs) x d out =
    (has-append y xs x d.0 (ground arith), Distinct-append xs x d.1 (ground arith))

last-append : (y x : Ptr) (xs : List Ptr) → last y (xs ++ x ∷ []) ≡ x
last-append y x [] = refl
last-append y x (z ∷ xs) = last-append z x xs

-- Popping the first of a non-empty queue yields its address and leaves the others, in order.
pub pop-cons :
    {m : Memory} {q : Queue} {x : Ptr} {xs : List Ptr}
    → Holds m q (x ∷ xs)
    → ((pop m q).0 ≡ x) × Holds m (pop m q).1 xs
unfolding pop
pop-cons {xs = []} h = (
  ground arith,
  record {
    chain = ground arith;
    distinct = tt;
    bottom = tt;
    size = ground arith;
    fits = omega arith;
  },
)
pop-cons {m} {q} {x} {xs = y ∷ ys} h =
    let apart : q.bottom ≢ x =
      ground (arith, has-last y ys, ne_of_not_has (last y ys) x (y ∷ ys)) in
    let run : pop m q ≡ (x, record { top = y; bottom = q.bottom; size = suc (length ys) }) =
      ground (arith, h.chain) in
    rw run (
      refl,
      record {
        chain = ground (arith, h.chain);
        distinct = h.distinct.1;
        bottom = h.bottom;
        size = refl;
        fits = omega (arith, h.fits);
      },
    )

-- Popping an empty queue yields NULL and changes nothing.
pub pop-nil : {m : Memory} {q : Queue} → Holds m q [] → pop m q ≡ (null, q)
unfolding pop
pop-nil h = ground (arith, h.chain)

-- Pushing puts the process behind the others, and writes only the links of the queue's processes.
pub push-append :
    (m : Memory) (q : Queue) (x : Ptr) (xs : List Ptr)
    → Holds m q xs
    → x ≢ null
    → x ∉ xs
    → length xs + 1 < u32
    → Stored (push m q x) m (x ∷ xs) (xs ++ x ∷ [])
unfolding push write
push-append m q x [] h ne out fits = record {
  mem = write m x (with_next null (m x));
  queue = record { top = x; bottom = x; size = 1 };
  runs = ground (arith, h.chain, h.size);
  holds = record {
    chain = ground arith;
    distinct = (refl, tt);
    bottom = refl;
    size = refl;
    fits = omega arith;
  };
  outside = ground arith;
  links_only = ground arith;
}
push-append m q x (y ∷ ys) h ne out fits =
    let m₁ = write m x (with_next null (m x)) in
    let chain₁ : Chain m₁ q.top (y ∷ ys) = Chain-write m q.top x null (y ∷ ys) h.chain out in
    let b_ne : q.bottom ≢ x = ground (arith, has-last y ys, ne_of_not_has (last y ys) x (y ∷ ys)) in
    let b_real : q.bottom ≢ null =
      Chain-ne_null m q.top q.bottom (y ∷ ys) h.chain (ground (arith, has-last y ys)) in
    record {
      mem = write m₁ q.bottom (with_next x (m₁ q.bottom));
      queue = record { top = q.top; bottom = x; size = length (y ∷ ys) + 1 };
      runs = ground (arith, h.chain);
      holds = record {
        chain =
            Chain-append m₁ q.top q.bottom x y ys chain₁ h.distinct h.bottom out ne (ground arith);
        distinct = Distinct-append (y ∷ ys) x h.distinct out;
        bottom = last-append y x ys;
        size = omega (arith, length-append (y ∷ ys) (x ∷ []));
        fits = omega (arith, length-append (y ∷ ys) (x ∷ []));
      };
      outside = λ a o. ground (arith, has-last y ys, ne_of_not_has q.bottom a (y ∷ ys));
      links_only = ground arith;
    }

-- A change that spares the links of the queue's processes leaves the queue as it is.
pub Holds-frame :
    (m m' : Memory) (q : Queue) (xs : List Ptr)
    → Holds m q xs
    → ((a : Ptr) → has a xs ≡ true → (m' a).queue_next ≡ (m a).queue_next)
    → Holds m' q xs
Holds-frame m m' q xs h same = record {
  chain = Chain-frame m m' q.top xs h.chain same;
  distinct = h.distinct;
  bottom = h.bottom;
  size = h.size;
  fits = h.fits;
}

abbrev pub Disjoint : List Ptr → List Ptr → Type 0
Disjoint xs ys = (a : Ptr) → has a xs ≡ true → a ∉ ys
