-- ===== src/Libc/Strings/Capitals.antt =====
-- strcmp_case_insensitive and toupper: the comparison in capitals.
use kerosene.Base.{
  ℕ, zero, suc, ◌+◌, ◌<◌, ◌≡◌, refl, ◌≢◌, ◌↔◌, inl, inr, ◌∙◌, sym, Bool-cases, Option, some, List,
  [], ◌∷◌, arith, ◌==◌, if◌then◌else◌, length, map,
}
use kerosene.Base.Int.{ℤ, pos, sub_ℕ}
use kerosene.Libc.Memory.{Mem}
use kerosene.Libc.Strings.{toupper, biased, strcmp_case_insensitive}
use kerosene.Libc.Strings.Compare.{IsString}

toupper-ne_zero : (x : ℕ) → x ≢ 0 → toupper x ≢ 0
unfolding toupper
toupper-ne_zero x h = ground arith

toupper_zero : toupper 0 ≡ 0
unfolding toupper
toupper_zero = refl

-- The difference of the first two capitals that differ, as signed characters.
abbrev capital_difference : List ℕ → List ℕ → ℤ
capital_difference [] [] = pos 0
capital_difference [] (y ∷ ys) = sub_ℕ 128 (biased (toupper y))
capital_difference (x ∷ xs) [] = sub_ℕ (biased (toupper x)) 128
capital_difference (x ∷ xs) (y ∷ ys) =
    if toupper x == toupper y
    then capital_difference xs ys
    else sub_ℕ (biased (toupper x)) (biased (toupper y))

strcmp_case_insensitive-difference :
    (fuel : ℕ) (m : Mem) (p q : ℕ) (xs ys : List ℕ)
    → IsString m p xs
    → IsString m q ys
    → length xs < fuel
    → strcmp_case_insensitive fuel m p q ≡ some (capital_difference xs ys)
unfolding strcmp_case_insensitive
strcmp_case_insensitive-difference zero m p q xs ys s t h = absurd (omega arith)
strcmp_case_insensitive-difference (suc fuel) m p q [] [] s t h = ground (arith, toupper_zero)
strcmp_case_insensitive-difference (suc fuel) m p q [] (y ∷ ys) s t h = ground (arith, toupper_zero)
strcmp_case_insensitive-difference (suc fuel) m p q (x ∷ xs) [] s t h = ground (arith, toupper_zero)
strcmp_case_insensitive-difference (suc fuel) m p q (x ∷ xs) (y ∷ ys) s t h =
    ground (arith, strcmp_case_insensitive-difference fuel m (p + 1) (q + 1) xs ys s.2 t.2)

biased_injective : (a b : ℕ) → a < 256 → b < 256 → biased a ≡ biased b → a ≡ b
biased_injective a b ha hb e = omega arith

toupper-lt : (x : ℕ) → x < 256 → toupper x < 256
unfolding toupper
toupper-lt x h = ground arith

-- Two bytes whose capitals differ by nothing have the same capital.
same_capital :
    (x y : ℕ)
    → x < 256
    → y < 256
    → sub_ℕ (biased (toupper x)) (biased (toupper y)) ≡ pos 0
    → toupper x ≡ toupper y
same_capital x y hx hy e =
    biased_injective (toupper x) (toupper y) (toupper-lt x hx) (toupper-lt y hy) (ground arith)

capitals_of_zero :
    (m : Mem) (p q : ℕ) (xs ys : List ℕ)
    → ((a : ℕ) → m a < 256)
    → IsString m p xs
    → IsString m q ys
    → capital_difference xs ys ≡ pos 0
    → map toupper xs ≡ map toupper ys
capitals_of_zero m p q [] [] bytes s t e = refl
capitals_of_zero m p q [] (y ∷ ys) bytes s t e =
    let below : y < 256 = omega (arith, t.0, bytes q) in
    let same : toupper 0 ≡ toupper y = same_capital 0 y (omega arith) below (rw toupper_zero e) in
    absurd (toupper-ne_zero y t.1 (sym same ∙ toupper_zero))
capitals_of_zero m p q (x ∷ xs) [] bytes s t e =
    let below : x < 256 = omega (arith, s.0, bytes p) in
    let same : toupper x ≡ toupper 0 = same_capital x 0 below (omega arith) (rw toupper_zero e) in
    absurd (toupper-ne_zero x s.1 (same ∙ toupper_zero))
capitals_of_zero m p q (x ∷ xs) (y ∷ ys) bytes s t e = elim (Bool-cases (toupper x == toupper y)) [
  | inl same ↦
      let rest = capitals_of_zero m (p + 1) (q + 1) xs ys bytes s.2 t.2 (rw same at e) in
      ground (arith, rest)
  | inr differ ↦
      let x_below : x < 256 = omega (arith, s.0, bytes p) in
      let y_below : y < 256 = omega (arith, t.0, bytes q) in
      let same : toupper x ≡ toupper y = same_capital x y x_below y_below (rw differ at e) in
      absurd (ground arith)
]

zero_of_capitals :
    (xs ys : List ℕ) → map toupper xs ≡ map toupper ys → capital_difference xs ys ≡ pos 0
zero_of_capitals [] [] e = refl
zero_of_capitals [] (y ∷ ys) e = ground arith
zero_of_capitals (x ∷ xs) [] e = ground arith
zero_of_capitals (x ∷ xs) (y ∷ ys) e = ground (arith, zero_of_capitals xs ys)

-- What a comparison of strings without case answers.
pub record Matched (o : Option ℤ) (xs ys : List ℕ) : Type 0 where
  pub result : ℤ
  pub runs : o ≡ some result
  pub zero_iff : (result ≡ pos 0) ↔ (map toupper xs ≡ map toupper ys)

-- Over a memory of bytes, the comparison without case ends, and yields 0 exactly on strings that are
-- the same in capitals.
pub strcmp_case_insensitive-Matched :
    (fuel : ℕ) (m : Mem) (p q : ℕ) (xs ys : List ℕ)
    → ((a : ℕ) → m a < 256)
    → IsString m p xs
    → IsString m q ys
    → length xs < fuel
    → Matched (strcmp_case_insensitive fuel m p q) xs ys
strcmp_case_insensitive-Matched fuel m p q xs ys bytes s t h = record {
  result = capital_difference xs ys;
  runs = strcmp_case_insensitive-difference fuel m p q xs ys s t h;
  zero_iff = (capitals_of_zero m p q xs ys bytes s t, zero_of_capitals xs ys);
}
