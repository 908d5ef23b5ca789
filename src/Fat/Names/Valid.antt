-- ===== src/Fat/Names/Valid.antt =====
-- What is_valid_sfn of kernel/src/filesystem/fat32.c accepts.
use kerosene.Base.{
  ℕ, suc, ◌+◌, ◌-◌, ◌≤◌, ◌≡◌, ◌↔◌, inl, inr, refl, ◌∙◌, ap, Bool-cases, Option-cases, true, false,
  not, ◌&&◌, ◌||◌, Option, none, some, List, [], ◌∷◌, ◌++◌, length, length-append, arith, ◌==◌, ltb,
  leb, if◌then◌else◌,
}
use kerosene.Fat.Names.{is_lower, is_special, sfn_loop, is_valid_sfn}

-- No lowercase letter, space, special character or dot.
abbrev pub Plain : List ℕ → Type 0
Plain [] = Unit
Plain (c ∷ cs) = ((is_lower c || is_special c) ≡ false) × ((c == b'.') ≡ false) × Plain cs

-- A base of 1 to 8 plain characters, alone or with a dot and an extension of at most 3 behind it.
pub data IsShort (name : List ℕ) : Type 0 where
  bare : Plain name → 1 ≤ length name → length name ≤ 8 → IsShort name
  dotted :
      (base ext : List ℕ)
      → name ≡ base ++ b'.' ∷ ext
      → Plain base
      → Plain ext
      → 1 ≤ length base
      → length base ≤ 8
      → length ext ≤ 3
      → IsShort name

sfn_loop-Plain : (cs : List ℕ) (i : ℕ) (dot : Option ℕ) → Plain cs → sfn_loop cs i dot ≡ some dot
unfolding sfn_loop
sfn_loop-Plain [] i dot p = refl
sfn_loop-Plain (c ∷ cs) i dot (ok, no_dot, p) = rw (ok, no_dot) (sfn_loop-Plain cs (i + 1) dot p)

sfn_loop-dotted :
    (base ext : List ℕ) (i : ℕ)
    → Plain base
    → Plain ext
    → sfn_loop (base ++ b'.' ∷ ext) i none ≡ some (some (i + length base))
unfolding sfn_loop
sfn_loop-dotted [] ext i p q =
    let e : i + 0 ≡ i = omega arith in rw (sfn_loop-Plain ext (i + 1) (some i) q, e) refl
sfn_loop-dotted (c ∷ cs) ext i (ok, no_dot, p) q =
    let e : i + 1 + length cs ≡ i + suc (length cs) = omega arith in
    rw (ok, no_dot) (sfn_loop-dotted cs ext (i + 1) p q ∙ rw e refl)

-- Behind a dot.
sfn_loop-after :
    (cs : List ℕ) (i p : ℕ) (r : Option ℕ)
    → sfn_loop cs i (some p) ≡ some r
    → Plain cs × (r ≡ some p)
unfolding sfn_loop
sfn_loop-after [] i p r e = (tt, ground (arith, e))
sfn_loop-after (c ∷ cs) i p r e = elim (Bool-cases (is_lower c || is_special c)) [
  | inl bad ↦ absurd (cc (rw bad at e))
  | inr fine ↦ elim (Bool-cases (c == b'.')) [
    | inl dot ↦ absurd (cc (rw (fine, dot) at e))
    | inr no_dot ↦
        let (plain, same) = sfn_loop-after cs (i + 1) p r (rw (fine, no_dot) at e) in
        ((fine, no_dot, plain), same)
  ]
]

-- What the loop finds in the characters `cs` from index `i` on.
data Found (cs : List ℕ) (i : ℕ) (r : Option ℕ) : Type 0 where
  no_dots : Plain cs → r ≡ none → Found cs i r
  one_dot :
      (base ext : List ℕ)
      → cs ≡ base ++ b'.' ∷ ext
      → Plain base
      → Plain ext
      → r ≡ some (i + length base)
      → Found cs i r

sfn_loop-Found : (cs : List ℕ) (i : ℕ) (r : Option ℕ) → sfn_loop cs i none ≡ some r → Found cs i r
unfolding sfn_loop
sfn_loop-Found [] i r e = no_dots tt (ground (arith, e))
sfn_loop-Found (c ∷ cs) i r e = elim (Bool-cases (is_lower c || is_special c)) [
  | inl bad ↦ absurd (cc (rw bad at e))
  | inr fine ↦ elim (Bool-cases (c == b'.')) [
    | inl dot ↦
        let (plain, same) = sfn_loop-after cs (i + 1) i r (rw (fine, dot) at e) in
        let is_dot : c ≡ b'.' = ground (arith, dot) in
        let at_start : i ≡ i + 0 = omega arith in
        one_dot [] cs (rw is_dot refl) tt plain (same ∙ ap (λ (n : ℕ). some n) at_start)
    | inr no_dot ↦ elim (sfn_loop-Found cs (i + 1) r (rw (fine, no_dot) at e)) [
      | no_dots plain none_found ↦ no_dots (fine, no_dot, plain) none_found
      | one_dot base ext split plain plain' same ↦
          let sum : i + 1 + length base ≡ i + suc (length base) = omega arith in
          one_dot (c ∷ base) ext (ap (λ (l : List ℕ). c ∷ l) split) (fine, no_dot, plain) plain'
            (same ∙ ap (λ (n : ℕ). some n) sum)
    ]
  ]
]

numbers :
    (b e : ℕ)
    → 1 ≤ b
    → b ≤ 8
    → e ≤ 3
    → (if (b + suc e == 0) || ltb 12 (b + suc e)
        then false
        else leb b 8 && (leb (b + suc e - b - 1) 3 && not (b == 0)))
      ≡ true
numbers b e low high short = ground (arith, low, high, short)

pub short→valid : (name : List ℕ) → IsShort name → is_valid_sfn name ≡ true
unfolding is_valid_sfn
short→valid name (bare plain low high) =
    rw (sfn_loop-Plain name 0 none plain) (ground (arith, low, high))
short→valid name (dotted base ext split plain plain' low high short) =
    let len = length-append base (b'.' ∷ ext) in
    let zero_base : 0 + length base ≡ length base = omega arith in
    let found = sfn_loop-dotted base ext 0 plain plain' in
    rw (split, found, len, zero_base) (numbers (length base) (length ext) low high short)

valid→short : (name : List ℕ) → is_valid_sfn name ≡ true → IsShort name
unfolding is_valid_sfn
valid→short name e = elim (Option-cases (sfn_loop name 0 none)) [
  | inl refused ↦ absurd (ground (arith, rw refused at e))
  | inr (r, found) ↦ elim (sfn_loop-Found name 0 r found) [
    | no_dots plain none_found ↦
        let e' = rw (found, none_found) at e in bare plain (ground (arith, e')) (ground (arith, e'))
    | one_dot base ext split plain plain' same ↦
        let zero_base : 0 + length base ≡ length base = omega arith in
        let len : length name ≡ length base + suc (length ext) =
          ap length split ∙ length-append base (b'.' ∷ ext) in
        let e' = rw (found, same, zero_base, len) at e in
        dotted base ext split plain plain' (ground (arith, e')) (ground (arith, e'))
          (ground (arith, e'))
  ]
]

-- is_valid_sfn accepts exactly the short names: 1 to 8 characters, or 1 to 8, a dot and at most 3 behind
-- it, where no character is a lowercase letter, a space or one of `+,;=[]` and no other one is a dot.
pub is_valid_sfn-IsShort : (name : List ℕ) → (is_valid_sfn name ≡ true) ↔ IsShort name
is_valid_sfn-IsShort name = (valid→short name, short→valid name)
