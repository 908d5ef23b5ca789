-- ===== src/Ramfs/Content.antt =====
-- The abstract view of a chain of data nodes: its addresses, and the bytes it holds.
use kerosene.Base.{
  ℕ, zero, suc, ◌-◌, ◌*◌, ◌≤◌, ◌≡◌, ◌≢◌, refl, ap, List, [], ◌∷◌, ◌++◌, length, take, drop, arith,
  length-append,
}
use kerosene.Process.{Ptr, null}

-- From `p` the nodes lead through `xs` to NULL.
abbrev pub Chain : (Ptr → Ptr) → Ptr → List Ptr → Type 0
Chain next p [] = p ≡ null
Chain next p (x ∷ xs) = (p ≡ x) × (x ≢ null) × Chain next (next x) xs

-- Every block has its full size.
abbrev pub Full : (Ptr → List ℕ) → List Ptr → Type 0
Full block [] = Unit
Full block (x ∷ xs) = (length (block x) ≡ 512) × Full block xs

unfoldable pub content : (Ptr → List ℕ) → List Ptr → List ℕ
content block [] = []
content block (x ∷ xs) = block x ++ content block xs

pub length-content :
    (block : Ptr → List ℕ) (xs : List Ptr)
    → Full block xs
    → length (content block xs) ≡ 512 * length xs
unfolding content
length-content block [] full = refl
length-content block (x ∷ xs) (l, full) =
    omega (arith, length-append (block x) (content block xs), l, length-content block xs full)

pub take-append_le : (n : ℕ) (xs ys : List ℕ) → n ≤ length xs → take n (xs ++ ys) ≡ take n xs
take-append_le zero xs ys h = refl
take-append_le (suc n) [] ys h = elim h [ ]
take-append_le (suc n) (x ∷ xs) ys h = ap (λ l. x ∷ l) (take-append_le n xs ys (omega arith))

pub take-append_ge :
    (n : ℕ) (xs ys : List ℕ) → length xs ≤ n → take n (xs ++ ys) ≡ xs ++ take (n - length xs) ys
take-append_ge n [] ys h = let e : n - 0 ≡ n = omega arith in rw e refl
take-append_ge zero (x ∷ xs) ys h = elim h [ ]
take-append_ge (suc n) (x ∷ xs) ys h =
    let e : suc n - suc (length xs) ≡ n - length xs = omega arith in
    rw e (ap (λ l. x ∷ l) (take-append_ge n xs ys (omega arith)))

pub drop-append_le : (n : ℕ) (xs ys : List ℕ) → n ≤ length xs → drop n (xs ++ ys) ≡ drop n xs ++ ys
drop-append_le zero xs ys h = refl
drop-append_le (suc n) [] ys h = elim h [ ]
drop-append_le (suc n) (x ∷ xs) ys h = drop-append_le n xs ys (omega arith)

pub drop-append_ge :
    (n : ℕ) (xs ys : List ℕ) → length xs ≤ n → drop n (xs ++ ys) ≡ drop (n - length xs) ys
drop-append_ge n [] ys h = let e : n - 0 ≡ n = omega arith in rw e refl
drop-append_ge zero (x ∷ xs) ys h = elim h [ ]
drop-append_ge (suc n) (x ∷ xs) ys h =
    let e : suc n - suc (length xs) ≡ n - length xs = omega arith in
    rw e (drop-append_ge n xs ys (omega arith))

pub take_all : (n : ℕ) (xs : List ℕ) → length xs ≤ n → take n xs ≡ xs
take_all zero [] h = refl
take_all zero (x ∷ xs) h = elim h [ ]
take_all (suc n) [] h = refl
take_all (suc n) (x ∷ xs) h = ap (λ l. x ∷ l) (take_all n xs (omega arith))

pub drop_all : (n : ℕ) (xs : List ℕ) → length xs ≤ n → drop n xs ≡ []
drop_all zero [] h = refl
drop_all zero (x ∷ xs) h = elim h [ ]
drop_all (suc n) [] h = refl
drop_all (suc n) (x ∷ xs) h = drop_all n xs (omega arith)
