-- ===== src/Process/Queue/Chain.antt =====
-- What a chain of `queue_next` pointers stands for: the list of the processes' addresses.
use kerosene.Base.{◌≡◌, ◌≢◌, Bool, true, false, ◌||◌, List, [], ◌∷◌, ◌++◌, arith, ◌==◌}
use kerosene.Process.{Ptr, null, Memory, write, with_next}

abbrev pub has : Ptr → List Ptr → Bool
has a [] = false
has a (x ∷ xs) = (a == x) || has a xs

infix 40 ◌∉◌
abbrev pub ◌∉◌ : Ptr → List Ptr → Type 0
a ∉ xs = has a xs ≡ false

abbrev pub Distinct : List Ptr → Type 0
Distinct [] = Unit
Distinct (x ∷ xs) = (x ∉ xs) × Distinct xs

-- From `p` the pointers lead through `xs` to NULL.
abbrev pub Chain : Memory → Ptr → List Ptr → Type 0
Chain m p [] = p ≡ null
Chain m p (x ∷ xs) = (p ≡ x) × (x ≢ null) × Chain m (m x).queue_next xs

abbrev pub last : Ptr → List Ptr → Ptr
last d [] = d
last d (x ∷ xs) = last x xs

-- A chain survives any change that spares the links of its own processes.
pub Chain-frame :
    (m m' : Memory) (p : Ptr) (xs : List Ptr)
    → Chain m p xs
    → ((a : Ptr) → has a xs ≡ true → (m' a).queue_next ≡ (m a).queue_next)
    → Chain m' p xs
Chain-frame m m' p [] c same = c
Chain-frame m m' p (x ∷ xs) (e, ne, c) same = (
  e,
  ne,
  Chain-frame m m' (m' x).queue_next xs (rw (same x (ground arith)) c)
      (λ a i. same a (ground arith)),
)

pub Chain-write :
    (m : Memory) (p a n : Ptr) (xs : List Ptr)
    → Chain m p xs
    → a ∉ xs
    → Chain (write m a (with_next n (m a))) p xs
unfolding write
Chain-write m p a n xs c out = Chain-frame m (write m a (with_next n (m a))) p xs c (ground arith)

pub has-last : (x : Ptr) (xs : List Ptr) → has (last x xs) (x ∷ xs) ≡ true
has-last x [] = ground arith
has-last x (y ∷ xs) = ground (arith, has-last y xs)

pub ne_of_not_has : (a x : Ptr) (xs : List Ptr) → has a xs ≡ true → x ∉ xs → a ≢ x
ne_of_not_has a x [] h out = ground arith
ne_of_not_has a x (y ∷ xs) h out = ground (arith, ne_of_not_has a x xs)

pub Chain-ne_null :
    (m : Memory) (p a : Ptr) (xs : List Ptr) → Chain m p xs → has a xs ≡ true → a ≢ null
Chain-ne_null m p a [] c i = cc
Chain-ne_null m p a (x ∷ xs) c i = ground (arith, Chain-ne_null m (m x).queue_next a xs c.2)

-- Appending a process behind the last one.
pub Chain-append :
    (m : Memory) (p b x : Ptr) (y : Ptr) (xs : List Ptr)
    → Chain m p (y ∷ xs)
    → Distinct (y ∷ xs)
    → last y xs ≡ b
    → x ∉ (y ∷ xs)
    → x ≢ null
    → (m x).queue_next ≡ null
    → Chain (write m b (with_next x (m b))) p ((y ∷ xs) ++ x ∷ [])
unfolding write
Chain-append m p b x y [] c d l out ne nx = ground arith
Chain-append m p b x y (z ∷ xs) (e, nz, c) d l out ne nx =
    let rest = Chain-append m (m y).queue_next b x z xs c d.1 l (ground arith) ne nx in
    let apart : b ≢ y = ground (arith, has-last z xs, ne_of_not_has (last z xs) y (z ∷ xs)) in
    let same : (write m b (with_next x (m b)) y).queue_next ≡ (m y).queue_next = ground arith in
    (e, nz, rw same rest)
