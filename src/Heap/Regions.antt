-- ===== src/Heap/Regions.antt =====
-- The regions of a heap, one behind the other, and heap_alloc where one of them fits.
use kerosene.Base.{
  ℕ, zero, suc, ◌<◌, ◌≤◌, ◌≡◌, refl, Bool, true, false, ◌&&◌, some, List, [], ◌∷◌, ◌++◌, arith,
  ◌==◌, leb, length,
}
use kerosene.Process.{Ptr}
use kerosene.Process.Queue.Chain.{last}
use kerosene.Heap.{heap_free, Header, next_header, search}

-- From `p` up to `end` the regions `xs` follow one another without a gap.
abbrev pub Regions : (Ptr → Header) → ℕ → Ptr → List Ptr → Type 0
Regions hs end p [] = p ≡ end
Regions hs end p (x ∷ xs) = (p ≡ x) × (x < end) × Regions hs end (next_header hs x) xs

-- The region is free and has `reg_size` bytes.
abbrev pub fits : (Ptr → Header) → ℕ → Ptr → Bool
fits hs reg_size x = ((hs x).magic == heap_free) && leb reg_size (hs x).size

abbrev pub NoneFits : (Ptr → Header) → ℕ → List Ptr → Type 0
NoneFits hs reg_size [] = Unit
NoneFits hs reg_size (x ∷ xs) = (fits hs reg_size x ≡ false) × NoneFits hs reg_size xs

pub search-end :
    (fuel : ℕ) (hs : Ptr → Header) (end reg_size : ℕ) (p final : Ptr) (xs : List Ptr)
    → Regions hs end p xs
    → NoneFits hs reg_size xs
    → length xs < fuel
    → search fuel hs end reg_size p final ≡ some (end, last final xs)
unfolding search
search-end zero hs end reg_size p final xs r misses h = absurd (omega arith)
search-end (suc fuel) hs end reg_size p final [] r misses h = ground arith
search-end (suc fuel) hs end reg_size p final (x ∷ xs) (e, lt, r) (miss, misses) h =
    let rest = search-end fuel hs end reg_size (next_header hs x) x xs r misses (omega arith) in
    rw e ground (arith, rest)

pub search-fits :
    (fuel : ℕ) (hs : Ptr → Header) (end reg_size : ℕ) (p final x : Ptr) (before after : List Ptr)
    → Regions hs end p (before ++ x ∷ after)
    → NoneFits hs reg_size before
    → fits hs reg_size x ≡ true
    → length before < fuel
    → search fuel hs end reg_size p final ≡ some (x, last final before)
unfolding search
search-fits zero hs end reg_size p final x before after r misses hit h = absurd (omega arith)
search-fits (suc fuel) hs end reg_size p final x [] after (e, lt, r) misses hit h =
    rw e ground arith
search-fits (suc fuel) hs end reg_size p final x (y ∷ before) after (e, lt, r) (miss, misses) hit
      h =
    let rest =
      search-fits fuel hs end reg_size (next_header hs y) y x before after r misses hit
        (omega arith) in
    rw e ground (arith, rest)

-- The regions from `x` on.
pub Regions-from :
    (hs : Ptr → Header) (end : ℕ) (p x : Ptr) (before after : List Ptr)
    → Regions hs end p (before ++ x ∷ after)
    → (p ≤ x) × Regions hs end x (x ∷ after)
Regions-from hs end p x [] after (e, lt, r) = (omega (arith, e), (refl, lt, r))
Regions-from hs end p x (y ∷ before) after (e, lt, r) =
    let rest = Regions-from hs end (next_header hs y) x before after r in
    (ground (arith, rest.0), rest.1)

-- A change from `x` on leaves the regions before it as they are.
pub Regions-replace :
    (hs hs' : Ptr → Header) (end : ℕ) (p x : Ptr) (before after middle : List Ptr)
    → Regions hs end p (before ++ x ∷ after)
    → ((a : Ptr) → a < x → (hs' a).size ≡ (hs a).size)
    → Regions hs' end x middle
    → Regions hs' end p (before ++ middle)
Regions-replace hs hs' end p x [] after middle (e, lt, r) same m = rw e m
Regions-replace hs hs' end p x (y ∷ before) after middle (e, lt, r) same m =
    let below = (Regions-from hs end (next_header hs y) x before after r).0 in
    let size : (hs' y).size ≡ (hs y).size = same y (omega (arith, below)) in
    let rest = Regions-replace hs hs' end (next_header hs y) x before after middle r same m in
    (e, lt, rw size rest)

-- A change before `p` leaves the regions from `p` on as they are.
pub Regions-frame :
    (hs hs' : Ptr → Header) (end : ℕ) (p : Ptr) (xs : List Ptr)
    → Regions hs end p xs
    → ((a : Ptr) → p ≤ a → a < end → (hs' a).size ≡ (hs a).size)
    → Regions hs' end p xs
Regions-frame hs hs' end p [] r same = r
Regions-frame hs hs' end p (x ∷ xs) (e, lt, r) same =
    let size : (hs' x).size ≡ (hs x).size = same x (omega (arith, e)) lt in
    (
      e,
      lt,
      rw size (
          Regions-frame hs hs' end (next_header hs x) xs r
            (λ a lo hi. same a (omega (arith, e, lo)) hi)),
    )

pub Regions-le :
    (hs : Ptr → Header) (end : ℕ) (p : Ptr) (xs : List Ptr) → Regions hs end p xs → p ≤ end
Regions-le hs end p [] r = omega (arith, r)
Regions-le hs end p (x ∷ xs) (e, lt, r) = omega (arith, e, lt)
