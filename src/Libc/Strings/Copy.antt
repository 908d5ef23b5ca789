-- ===== src/Libc/Strings/Copy.antt =====
-- strcpy, strcat and strrev: the strings that they leave in memory.
use kerosene.Base.{
  ℕ, zero, suc, ◌+◌, ◌-◌, ◌*◌, ◌/◌, ◌<◌, ◌≤◌, ◌≡◌, refl, ◌≢◌, ◌⊎◌, inl, inr, ◌∙◌, ap, Bool-cases,
  Option, some, List, [], ◌∷◌, arith, ◌==◌, length,
}
use kerosene.Libc.Memory.{Mem, store}
use kerosene.Libc.Strings.{strlen_loop, strlen, copy_string, strcpy, strcat, swap_loop, strrev}
use kerosene.Libc.Strings.Compare.{IsString, strlen-length}

-- A string survives a change that spares its characters and its NUL.
pub IsString-frame :
    (m m' : Mem) (p : ℕ) (xs : List ℕ)
    → IsString m p xs
    → ((a : ℕ) → p ≤ a → a ≤ p + length xs → m' a ≡ m a)
    → IsString m' p xs
IsString-frame m m' p [] s same = same p (omega arith) (omega arith) ∙ s
IsString-frame m m' p (x ∷ xs) s same = (
  same p (omega arith) (omega arith) ∙ s.0,
  s.1,
  IsString-frame m m' (p + 1) xs s.2 (λ a lo hi. same a (omega arith) (omega arith)),
)

-- Where the `n + 1` bytes from `d` on and those from `src` on do not meet.
abbrev pub Apart : ℕ → ℕ → ℕ → Type 0
Apart d src n = (d + n < src) ⊎ (src + n < d)

-- The memory after a copy: the string at the target, and no other byte changed.
pub record Copied (o : Option Mem) (m : Mem) (d : ℕ) (xs : List ℕ) : Type 0 where
  pub mem : Mem
  pub runs : o ≡ some mem
  pub string : IsString mem d xs
  pub others : (a : ℕ) → (a < d) ⊎ (d + length xs < a) → mem a ≡ m a

copy_string-Copied :
    (fuel : ℕ) (m : Mem) (d src : ℕ) (xs : List ℕ)
    → IsString m src xs
    → Apart d src (length xs)
    → length xs < fuel
    → Copied (copy_string fuel m d src) m d xs
unfolding copy_string store
copy_string-Copied zero m d src xs s apart h = absurd (omega arith)
copy_string-Copied (suc fuel) m d src [] s apart h = record {
  mem = store m d (m src);
  runs = ground arith;
  string = ground arith;
  others = ground arith;
}
copy_string-Copied (suc fuel) m d src (x ∷ xs) s apart h =
    let m₁ : Mem = store m d (m src) in
    let kept : IsString m₁ (src + 1) xs =
      IsString-frame m m₁ (src + 1) xs s.2 (λ a lo hi. ground arith) in
    let rest = copy_string-Copied fuel m₁ (d + 1) (src + 1) xs kept (omega arith) (omega arith) in
    record {
      mem = rest.mem;
      runs = ground (arith, rest.runs);
      string = (rest.others d (omega arith) ∙ ground arith, s.1, rest.string);
      others = λ a o. rest.others a (omega arith) ∙ ground arith;
    }

-- strcpy ends; the target then holds the string of the source, and no other byte has changed.
pub strcpy-Copied :
    (fuel : ℕ) (m : Mem) (dst src : ℕ) (xs : List ℕ)
    → IsString m src xs
    → Apart dst src (length xs)
    → length xs < fuel
    → Copied (strcpy fuel m dst src) m dst xs
unfolding strcpy
strcpy-Copied fuel m dst src xs s apart h = copy_string-Copied fuel m dst src xs s apart h

-- strcat ends; behind the string of the target then stands that of the source, which lies apart, and
-- the characters of the target and all that lies behind the result are as before.
pub strcat-Copied :
    (fuel : ℕ) (m : Mem) (dst src : ℕ) (xs ys : List ℕ)
    → IsString m dst xs
    → IsString m src ys
    → Apart (dst + length xs) src (length ys)
    → length xs < fuel
    → length ys < fuel
    → Copied (strcat fuel m dst src) m (dst + length xs) ys
unfolding strcat
strcat-Copied fuel m dst src xs ys s t apart hx hy =
    let c = copy_string-Copied fuel m (dst + length xs) src ys t apart hy in
    record { mem = c.mem; runs = rw (length_run) c.runs; string = c.string; others = c.others }
  where
    length_run : strlen_loop fuel m dst 0 ≡ some (length xs)
    length_run = unfold strlen in strlen-length fuel m dst xs s hx

-- The bytes before the index `i` and those after its mirror image are not touched.
swap_loop-others :
    (n i : ℕ) (m : Mem) (p len a : ℕ)
    → 2 * (i + n) ≤ len
    → (a < p + i) ⊎ (p + (len - i) ≤ a)
    → swap_loop m p len n i a ≡ m a
unfolding swap_loop store
swap_loop-others zero i m p len a h o = refl
swap_loop-others (suc n) i m p len a h o =
    let m₁ : Mem = store m (p + i) (m (p + (len - i - 1))) in
    let m₂ : Mem = store m₁ (p + (len - i - 1)) (m (p + i)) in
    swap_loop-others n (i + 1) m₂ p len a (omega arith) (ground arith) ∙ ground arith

-- The bytes between them come out in the reverse order.
swap_loop-mirrors :
    (n i : ℕ) (m : Mem) (p len k : ℕ)
    → 2 * (i + n) ≤ len
    → len ≤ 2 * (i + n) + 1
    → i ≤ k
    → k < len - i
    → swap_loop m p len n i (p + k) ≡ m (p + (len - 1 - k))
unfolding swap_loop store
swap_loop-mirrors zero i m p len k h h' lo hi = ap (λ j. m (p + j)) (omega arith)
swap_loop-mirrors (suc n) i m p len k h h' lo hi =
    let m₁ : Mem = store m (p + i) (m (p + (len - i - 1))) in
    let m₂ : Mem = store m₁ (p + (len - i - 1)) (m (p + i)) in
    let far : p + (len - i - 1) ≢ p + i = λ e. absurd (omega (arith, e)) in
    elim (Bool-cases (k == i)) [
      | inl e ↦
          let near : p + k ≡ p + i = ground arith in
          let mirror : p + (len - 1 - k) ≡ p + (len - i - 1) = ground arith in
          swap_loop-others n (i + 1) m₂ p len (p + k) (omega arith) (ground arith)
          ∙ rw (near, mirror) ground (arith, far)
      | inr ne ↦ elim (Bool-cases (k == len - i - 1)) [
        | inl e ↦
            let near : p + k ≡ p + (len - i - 1) = ground arith in
            let mirror : p + (len - 1 - k) ≡ p + i = ground arith in
            swap_loop-others n (i + 1) m₂ p len (p + k) (omega arith) (ground arith)
            ∙ rw (near, mirror) ground arith
        | inr ne' ↦
            swap_loop-mirrors n (i + 1) m₂ p len k (omega arith) (omega arith) (ground arith)
              (ground arith)
            ∙ ground arith
      ]
    ]

-- What strrev leaves in memory: `mem`, with the `len` characters from `p` on in the reverse order.
pub record Reversed (run : Option Mem) (m : Mem) (p : ℕ) (len : ℕ) : Type 0 where
  pub mem : Mem
  pub runs : run ≡ some mem
  pub mirrors : (k : ℕ) → k < len → mem (p + k) ≡ m (p + (len - 1 - k))
  pub others : (a : ℕ) → (a < p) ⊎ (p + len ≤ a) → mem a ≡ m a

-- strrev ends; the characters of the string then stand in the reverse order, and no other byte, the NUL
-- included, has changed.
pub strrev-Reversed :
    (fuel : ℕ) (m : Mem) (p : ℕ) (xs : List ℕ)
    → IsString m p xs
    → length xs < fuel
    → Reversed (strrev fuel m p) m p (length xs)
unfolding strrev
strrev-Reversed fuel m p xs s h =
    let len = length xs in
    record {
      mem = swap_loop m p len (len / 2) 0;
      runs = rw (strlen-length fuel m p xs s h) refl;
      mirrors = λ k lt.
          swap_loop-mirrors (len / 2) 0 m p len k (omega arith) (omega arith) (omega arith)
            (omega arith);
      others = λ a o. swap_loop-others (len / 2) 0 m p len a (omega arith) (ground arith);
    }
