-- ===== src/Heap/Merge.antt =====
-- heap_free: a region and its free neighbours become one region.
use kerosene.Base.{
  ℕ, ◌+◌, ◌<◌, ◌≤◌, ◌≡◌, refl, sym, ◌∙◌, inl, inr, Bool-cases, true, false, ◌&&◌, List, [], ◌∷◌,
  ◌++◌, arith, ◌==◌, ltb, if◌then◌else◌,
}
use kerosene.Base.Words.{u32, add32}
use kerosene.Process.{Ptr, null}
use kerosene.Process.Queue.Chain.{last}
use kerosene.Heap.{heap_free, header_size, Header, next_header, put, set_prev, absorb, merge_next}
use kerosene.Heap.Regions.{Regions, Regions-from, Regions-replace, Regions-frame, Regions-le}

-- Each region knows the one before it.
abbrev pub Linked : (Ptr → Header) → Ptr → List Ptr → Type 0
Linked hs p [] = Unit
Linked hs p (x ∷ xs) = ((hs x).prev ≡ p) × Linked hs x xs

-- A change that spares the links from `p` on.
pub Linked-frame :
    (hs hs' : Ptr → Header) (end : ℕ) (p q : Ptr) (xs : List Ptr)
    → Regions hs end p xs
    → Linked hs q xs
    → ((a : Ptr) → p ≤ a → a < end → (hs' a).prev ≡ (hs a).prev)
    → Linked hs' q xs
Linked-frame hs hs' end p q [] r l same = tt
Linked-frame hs hs' end p q (x ∷ xs) (e, lt, r) (l, ls) same = (
  same x (omega (arith, e)) lt ∙ l,
  Linked-frame hs hs' end (next_header hs x) x xs r ls
      (λ a lo hi. same a (omega (arith, e, lo)) hi),
)

-- A change from `x` on, with new links there.
pub Linked-replace :
    (hs hs' : Ptr → Header) (end : ℕ) (p q x : Ptr) (before after middle : List Ptr)
    → Regions hs end p (before ++ x ∷ after)
    → Linked hs q (before ++ x ∷ after)
    → ((a : Ptr) → a < x → (hs' a).prev ≡ (hs a).prev)
    → Linked hs' (last q before) middle
    → Linked hs' q (before ++ middle)
Linked-replace hs hs' end p q x [] after middle r l same m = m
Linked-replace hs hs' end p q x (y ∷ before) after middle (e, lt, r) (l, ls) same m =
    let below = (Regions-from hs end (next_header hs y) x before after r).0 in
    (
      same y (omega (arith, below)) ∙ l,
      Linked-replace hs hs' end (next_header hs y) y x before after middle r ls same m,
    )

pub Linked-from :
    (hs : Ptr → Header) (q x : Ptr) (before after : List Ptr)
    → Linked hs q (before ++ x ∷ after)
    → Linked hs (last q before) (x ∷ after)
Linked-from hs q x [] after l = l
Linked-from hs q x (y ∷ before) after (l, ls) = Linked-from hs y x before after ls

-- The regions of a heap: without a gap, and linked.
pub record IsTiled (hs : Ptr → Header) (end : ℕ) (p : Ptr) (xs : List Ptr) : Type 0 where
  pub regions : Regions hs end p xs
  pub linked : Linked hs null xs

-- What joining `p` and the region `q` behind it does to each header.
pub absorb_lem :
    (hs : Ptr → Header) (end : ℕ) (p q a : Ptr)
    → q ≡ next_header hs p
    → (next_header hs q) < u32
    → let n = next_header hs q in
      ((absorb hs end p q a).size
        ≡ (if a == p then (hs p).size + (hs q).size + header_size else (hs a).size))
      × ((absorb hs end p q a).prev ≡ (if (a == n) && ltb n end then p else (hs a).prev))
      × ((absorb hs end p q a).magic ≡ (hs a).magic)
unfolding absorb set_prev
absorb_lem hs end p q a e small =
    let sum : add32 (hs p).size (add32 (hs q).size header_size)
        ≡ (hs p).size + (hs q).size + header_size =
      omega arith in
    let joined =
      put hs p (record (hs p) { size = add32 (hs p).size (add32 (hs q).size header_size) }) in
    let at : next_header joined p ≡ next_header hs q = ground (arith, sum) in
    rw at (ground (arith, sum), ground (arith, sum), ground (arith, sum))

absorb-Linked :
    (hs : Ptr → Header) (end : ℕ) (p q : Ptr) (zs : List Ptr)
    → q ≡ next_header hs p
    → end < u32
    → Regions hs end (next_header hs q) zs
    → Linked hs q zs
    → Linked (absorb hs end p q) p zs
absorb-Linked hs end p q [] at small r l = tt
absorb-Linked hs end p q (z ∷ zs) at small (e, lt, r) (l, ls) =
    let lem = λ (a : ℕ). absorb_lem hs end p q a at (omega (arith, e)) in
    (
      ground (arith, lem z, e, lt),
      Linked-frame hs (absorb hs end p q) end (next_header hs z) z zs r ls
          (λ a lo hi. ground (arith, lem a, e)),
    )

pub absorb-IsTiled :
    (hs : Ptr → Header) (end : ℕ) (first p q : Ptr) (before after : List Ptr)
    → IsTiled hs end first (before ++ p ∷ q ∷ after)
    → end < u32
    → IsTiled (absorb hs end p q) end first (before ++ p ∷ after)
absorb-IsTiled hs end first p q before after t small =
    let (_, p_lt, (at, q_lt, tail)) =
      (Regions-from hs end first p before (q ∷ after) t.regions).1 in
    let n = next_header hs q in
    let n_le : n ≤ end = Regions-le hs end n after tail in
    let links = Linked-from hs null p before (q ∷ after) t.linked in
    let hs' = absorb hs end p q in
    let lem = λ (a : ℕ). absorb_lem hs end p q a (sym at) (omega (arith, n_le)) in
    let next_p : next_header hs' p ≡ n = ground (arith, lem p, at) in
    let p_before : p < n = omega (arith, at) in
    let rest : Regions hs' end n after =
      Regions-frame hs hs' end n after tail (λ a lo hi. ground (arith, lem a)) in
    record {
      regions =
          Regions-replace hs hs' end first p before (q ∷ after) (p ∷ after) t.regions
            (λ a lt. ground (arith, lem a)) (refl, p_lt, rw next_p rest);
      linked =
          Linked-replace hs hs' end first null p before (q ∷ after) (p ∷ after) t.regions t.linked
            (λ a lt. ground (arith, lem a))
            (
              ground (arith, lem p, links.0),
              absorb-Linked hs end p q after (sym at) small tail links.1.1,
            );
    }

pub mark-IsTiled :
    (hs : Ptr → Header) (end : ℕ) (first x : Ptr) (xs : List Ptr)
    → IsTiled hs end first xs
    → IsTiled (put hs x (record (hs x) { magic = heap_free })) end first xs
mark-IsTiled hs end first x xs t =
    let hs' = put hs x (record (hs x) { magic = heap_free }) in
    record {
      regions = Regions-frame hs hs' end first xs t.regions (λ a lo hi. ground arith);
      linked = Linked-frame hs hs' end first null xs t.regions t.linked (λ a lo hi. ground arith);
    }

-- The regions behind `x` once the next one, if it is free, is joined with `x`.
abbrev pub after_next : (Ptr → Header) → List Ptr → List Ptr
after_next hs [] = []
after_next hs (y ∷ ys) = if (hs y).magic == heap_free then ys else y ∷ ys

-- What joining with the next region leaves.
pub record NextMerged (hs hs' : Ptr → Header) (end : ℕ) (first x : Ptr) (before after : List Ptr)
    : Type 0 where
  pub tiled : IsTiled hs' end first (before ++ x ∷ after_next hs after)
  pub magics : (a : Ptr) → (hs' a).magic ≡ (hs a).magic
  pub grows : (hs x).size ≤ (hs' x).size
  pub prev_kept : (hs' x).prev ≡ (hs x).prev

pub merge_next-NextMerged :
    (hs : Ptr → Header) (end : ℕ) (first x : Ptr) (before after : List Ptr)
    → IsTiled hs end first (before ++ x ∷ after)
    → end < u32
    → NextMerged hs (merge_next hs end x) end first x before after
unfolding merge_next
merge_next-NextMerged hs end first x before [] t small =
    let (_, x_lt, at) = (Regions-from hs end first x before [] t.regions).1 in
    let last_one : ltb (next_header hs x) end ≡ false = ground (arith, at) in
    rw last_one (record { tiled = t; magics = λ a. refl; grows = omega arith; prev_kept = refl })
merge_next-NextMerged hs end first x before (y ∷ ys) t small =
    let (_, x_lt, (at, y_lt, tail)) = (Regions-from hs end first x before (y ∷ ys) t.regions).1 in
    let inside : ltb (next_header hs x) end ≡ true = ground (arith, at) in
    let n_le = Regions-le hs end (next_header hs y) ys tail in
    let lem = λ (a : ℕ). absorb_lem hs end x y a (sym at) (omega (arith, n_le)) in
    elim (Bool-cases ((hs y).magic == heap_free)) [
      | inl free ↦
          rw (inside, at, free)
            (record {
              tiled = rw free (absorb-IsTiled hs end first x y before ys t small);
              magics = λ a. (lem a).2;
              grows = ground (arith, lem x);
              prev_kept = ground (arith, lem x, at);
            })
      | inr used ↦
          rw (inside, at, used)
            (record {
              tiled = rw used t;
              magics = λ a. refl;
              grows = omega arith;
              prev_kept = refl;
            })
    ]
