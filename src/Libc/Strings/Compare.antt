-- ===== src/Libc/Strings/Compare.antt =====
-- strlen, strcmp and strncmp on the strings that the memory holds.
use kerosene.Base.{
  ℕ, zero, suc, ◌+◌, ◌-◌, ◌<◌, ◌≡◌, refl, ◌≢◌, ◌↔◌, ◌⊎◌, inl, inr, ◌∙◌, ap, Bool-cases, true, false,
  Option, some, List, [], ◌∷◌, arith, ◌==◌, leb, if◌then◌else◌, length, take,
}
use kerosene.Base.Int.{ℤ, pos, negsuc, sub_ℕ}
use kerosene.Libc.Memory.{Mem}
use kerosene.Libc.Strings.{strlen_loop, strlen, strcmp, strncmp}

-- At `p` stand the characters `xs`, none of them NUL, and then a NUL.
abbrev pub IsString : Mem → ℕ → List ℕ → Type 0
IsString m p [] = m p ≡ 0
IsString m p (x ∷ xs) = (m p ≡ x) × (x ≢ 0) × IsString m (p + 1) xs

strlen_loop-length :
    (fuel : ℕ) (m : Mem) (str len : ℕ) (xs : List ℕ)
    → IsString m (str + len) xs
    → length xs < fuel
    → strlen_loop fuel m str len ≡ some (len + length xs)
unfolding strlen_loop
strlen_loop-length zero m str len xs s h = absurd (omega arith)
strlen_loop-length (suc fuel) m str len [] s h =
    let e : len + 0 ≡ len = omega arith in rw e (ground arith)
strlen_loop-length (suc fuel) m str len (x ∷ xs) s h =
    let e : str + (len + 1) ≡ str + len + 1 = omega arith in
    let rest = strlen_loop-length fuel m str (len + 1) xs (rw e s.2) (omega arith) in
    let n : len + 1 + length xs ≡ len + suc (length xs) = omega arith in ground (arith, rest, n)

-- strlen counts the characters before the NUL.
pub strlen-length :
    (fuel : ℕ) (m : Mem) (str : ℕ) (xs : List ℕ)
    → IsString m str xs
    → length xs < fuel
    → strlen fuel m str ≡ some (length xs)
unfolding strlen
strlen-length fuel m str xs s h =
    let e : str + 0 ≡ str = omega arith in
    let n : 0 + length xs ≡ length xs = omega arith in
    strlen_loop-length fuel m str 0 xs (rw e s) h ∙ ap some n

-- The difference of the first two characters that differ, the end of a string counting as 0.
abbrev pub difference : List ℕ → List ℕ → ℤ
difference [] [] = pos 0
difference [] (y ∷ ys) = sub_ℕ 0 y
difference (x ∷ xs) [] = sub_ℕ x 0
difference (x ∷ xs) (y ∷ ys) = if x == y then difference xs ys else sub_ℕ x y

strcmp-difference :
    (fuel : ℕ) (m : Mem) (p q : ℕ) (xs ys : List ℕ)
    → IsString m p xs
    → IsString m q ys
    → length xs < fuel
    → strcmp fuel m p q ≡ some (difference xs ys)
unfolding strcmp
strcmp-difference zero m p q xs ys s t h = absurd (omega arith)
strcmp-difference (suc fuel) m p q [] [] s t h = ground arith
strcmp-difference (suc fuel) m p q [] (y ∷ ys) s t h = ground arith
strcmp-difference (suc fuel) m p q (x ∷ xs) [] s t h = ground arith
strcmp-difference (suc fuel) m p q (x ∷ xs) (y ∷ ys) s t h =
    ground (arith, strcmp-difference fuel m (p + 1) (q + 1) xs ys s.2 t.2)

difference-eq :
    (m : Mem) (p q : ℕ) (xs ys : List ℕ)
    → IsString m p xs
    → IsString m q ys
    → difference xs ys ≡ pos 0
    → xs ≡ ys
difference-eq m p q [] [] s t e = refl
difference-eq m p q [] (y ∷ ys) s t e = absurd (t.1 (ground arith))
difference-eq m p q (x ∷ xs) [] s t e = absurd (s.1 (ground arith))
difference-eq m p q (x ∷ xs) (y ∷ ys) s t e =
    ground (arith, difference-eq m (p + 1) (q + 1) xs ys s.2 t.2)

difference_self : (xs : List ℕ) → difference xs xs ≡ pos 0
difference_self [] = refl
difference_self (x ∷ xs) = ground (arith, difference_self xs)

-- The order of strings: by the first character that differs, a proper prefix first.
abbrev pub Precedes : List ℕ → List ℕ → Type 0
Precedes xs [] = ⊥
Precedes [] (y ∷ ys) = Unit
Precedes (x ∷ xs) (y ∷ ys) = (x < y) ⊎ ((x ≡ y) × Precedes xs ys)

abbrev pub IsNegative : ℤ → Type 0
IsNegative (pos n) = ⊥
IsNegative (negsuc n) = Unit

IsNegative-of_lt : (a b : ℕ) → a < b → IsNegative (sub_ℕ a b)
IsNegative-of_lt a b h = let e : sub_ℕ a b ≡ negsuc (b - a - 1) = ground arith in rw e tt

lt_of_negative : (a b : ℕ) → IsNegative (sub_ℕ a b) → a < b
lt_of_negative a b n = elim (Bool-cases (leb b a)) [
  | inl h ↦ let e : sub_ℕ a b ≡ pos (a - b) = ground arith in absurd (rw e at n)
  | inr h ↦ ground arith
]

difference-Precedes : (xs ys : List ℕ) → IsNegative (difference xs ys) → Precedes xs ys
difference-Precedes [] [] n = n
difference-Precedes [] (y ∷ ys) n = tt
difference-Precedes (x ∷ xs) [] n = absurd (omega (arith, lt_of_negative x 0 n))
difference-Precedes (x ∷ xs) (y ∷ ys) n = elim (Bool-cases (x == y)) [
  | inl e ↦ inr (ground arith, difference-Precedes xs ys (rw e at n))
  | inr e ↦ inl (lt_of_negative x y (rw e at n))
]

Precedes-difference :
    (m : Mem) (q : ℕ) (xs ys : List ℕ)
    → IsString m q ys
    → Precedes xs ys
    → IsNegative (difference xs ys)
Precedes-difference m q [] [] t p = p
Precedes-difference m q [] (y ∷ ys) t p = IsNegative-of_lt 0 y (ground arith)
Precedes-difference m q (x ∷ xs) [] t p = absurd p
Precedes-difference m q (x ∷ xs) (y ∷ ys) t (inl less) =
    let e : (x == y) ≡ false = ground arith in rw e (IsNegative-of_lt x y less)
Precedes-difference m q (x ∷ xs) (y ∷ ys) t (inr (same, p)) =
    let e : (x == y) ≡ true = ground arith in rw e (Precedes-difference m (q + 1) xs ys t.2 p)

-- What a comparison of strings answers.
pub record Ordered (o : Option ℤ) (xs ys : List ℕ) : Type 0 where
  pub result : ℤ
  pub runs : o ≡ some result
  pub zero_iff : (result ≡ pos 0) ↔ (xs ≡ ys)
  pub negative_iff : IsNegative result ↔ Precedes xs ys

-- strcmp ends; it yields 0 exactly on equal strings and a negative number exactly if the first comes
-- before the second in the order of the dictionary.
pub strcmp-Ordered :
    (fuel : ℕ) (m : Mem) (p q : ℕ) (xs ys : List ℕ)
    → IsString m p xs
    → IsString m q ys
    → length xs < fuel
    → Ordered (strcmp fuel m p q) xs ys
strcmp-Ordered fuel m p q xs ys s t h = record {
  result = difference xs ys;
  runs = strcmp-difference fuel m p q xs ys s t h;
  zero_iff = (difference-eq m p q xs ys s t, λ e. rw e (difference_self ys));
  negative_iff = (difference-Precedes xs ys, Precedes-difference m q xs ys t);
}

-- strncmp compares the first `n` characters as strcmp compares whole strings.
pub strncmp-take :
    (n : ℕ) (m : Mem) (p q : ℕ) (xs ys : List ℕ)
    → IsString m p xs
    → IsString m q ys
    → strncmp m p q n ≡ difference (take n xs) (take n ys)
unfolding strncmp
strncmp-take zero m p q xs ys s t = refl
strncmp-take (suc n) m p q [] [] s t = ground arith
strncmp-take (suc n) m p q [] (y ∷ ys) s t = ground arith
strncmp-take (suc n) m p q (x ∷ xs) [] s t = ground arith
strncmp-take (suc n) m p q (x ∷ xs) (y ∷ ys) s t =
    ground (arith, strncmp-take n m (p + 1) (q + 1) xs ys s.2 t.2)
