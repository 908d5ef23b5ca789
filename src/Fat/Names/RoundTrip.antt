-- ===== src/Fat/Names/RoundTrip.antt =====
-- The name that process_sfn_entry of kernel/src/filesystem/fat32.c reads from a short name that
-- fat32_add_entry has generated.
use kerosene.Base.{
  ℕ, zero, suc, ◌+◌, ◌-◌, ◌≤◌, ◌≡◌, refl, ◌∙◌, ap, Bool-cases, inl, inr, Bool, true, false, not,
  ◌&&◌, ◌||◌, List, [], ◌∷◌, ◌++◌, map, length, take, drop, get_or, replicate, length-append,
  length-replicate, arith, ◌==◌, ltb, if◌then◌else◌,
}
use mathlib.Core.List.{map-append}
use kerosene.Ramfs.Content.{take-append_le, take_all, drop-append_ge}
use kerosene.Fat.Names.{
  is_lower, is_special, is_valid_sfn, dot_loop, fill, pad, uppercase, short_name, before_space,
  process_sfn_entry,
}
use kerosene.Fat.Names.Valid.{Plain, dotted, short→valid}

plain_char :
    (c : ℕ)
    → (is_lower c || is_special c) ≡ false
    → (is_lower c ≡ false) × (is_special c ≡ false) × ((c == b' ') ≡ false)
plain_char c h = elim (Bool-cases (is_lower c)) [
  | inl low ↦ absurd (cc (rw low at h))
  | inr high ↦ (high, rw high at h, ground (arith, h))
]

fill-Plain :
    (skips : ℕ → Bool) (cs : List ℕ) (n : ℕ)
    → ((c : ℕ) → is_special c ≡ false → (c == b'.') ≡ false → skips c ≡ false)
    → Plain cs
    → length cs ≤ n
    → fill skips cs n ≡ cs
unfolding fill
fill-Plain skips [] n keeps p le = refl
fill-Plain skips (c ∷ cs) n keeps (ok, no_dot, p) le =
    let kept = keeps c (plain_char c ok).1 no_dot in
    let some_left : (n == 0) ≡ false = ground (arith, le) in
    rw (kept, some_left)
      (ap (λ (l : List ℕ). c ∷ l) (fill-Plain skips cs (n - 1) keeps p (omega (arith, le))))

no_dot_at : (cs : List ℕ) (p : ℕ) → Plain cs → (get_or cs p 0 == b'.') ≡ false
no_dot_at [] p plain = refl
no_dot_at (c ∷ cs) zero (ok, no_dot, plain) = no_dot
no_dot_at (c ∷ cs) (suc p) (ok, no_dot, plain) = no_dot_at cs p plain

dot_loop-Plain : (cs : List ℕ) (p : ℕ) → Plain cs → dot_loop cs p ≡ 0
unfolding dot_loop
dot_loop-Plain cs zero plain = refl
dot_loop-Plain cs (suc p) plain = rw (no_dot_at cs (suc p) plain) (dot_loop-Plain cs p plain)

get_or-append : (xs ys : List ℕ) (k d : ℕ) → get_or (xs ++ ys) (length xs + k) d ≡ get_or ys k d
get_or-append [] ys k d = let e : 0 + k ≡ k = omega arith in rw e refl
get_or-append (x ∷ xs) ys k d =
    let e : suc (length xs) + k ≡ suc (length xs + k) = omega arith in
    rw e (get_or-append xs ys k d)

dot_loop-dotted :
    (base ext : List ℕ) (k : ℕ)
    → Plain ext
    → 1 ≤ length base
    → dot_loop (base ++ b'.' ∷ ext) (length base + k) ≡ length base
unfolding dot_loop
dot_loop-dotted [] ext k plain low = absurd (omega (arith, low))
dot_loop-dotted (b ∷ bs) ext zero plain low =
    let e : suc (length bs) + 0 ≡ suc (length bs) = omega arith in
    let found : get_or (bs ++ b'.' ∷ ext) (length bs) 0 ≡ b'.' =
      let e' : length bs + 0 ≡ length bs = omega arith in
      rw e' at (get_or-append bs (b'.' ∷ ext) 0 0) in
    rw (e, found) refl
dot_loop-dotted (b ∷ bs) ext (suc k) plain low =
    let e : suc (length bs) + suc k ≡ suc (suc (length bs) + k) = omega arith in
    let e' : suc (length bs) + k ≡ length bs + suc k = omega arith in
    let miss : (get_or (bs ++ b'.' ∷ ext) (suc (length bs) + k) 0 == b'.') ≡ false =
      rw (e', get_or-append bs (b'.' ∷ ext) (suc k) 0) (no_dot_at ext k plain) in
    rw (e, miss) (dot_loop-dotted (b ∷ bs) ext k plain low)

before_space-pad : (n : ℕ) (cs : List ℕ) → Plain cs → before_space (cs ++ replicate n b' ') ≡ cs
unfolding before_space
before_space-pad zero [] plain = refl
before_space-pad (suc n) [] plain = refl
before_space-pad n (c ∷ cs) (ok, no_dot, plain) =
    rw (plain_char c ok).2 (ap (λ (l : List ℕ). c ∷ l) (before_space-pad n cs plain))

uppercase-Plain : (cs : List ℕ) → Plain cs → map uppercase cs ≡ cs
uppercase-Plain [] plain = refl
uppercase-Plain (c ∷ cs) (ok, no_dot, plain) =
    let high = (plain_char c ok).0 in rw (high, uppercase-Plain cs plain) refl

uppercase-replicate : (n : ℕ) → map uppercase (replicate n b' ') ≡ replicate n b' '
uppercase-replicate zero = refl
uppercase-replicate (suc n) = ap (λ (l : List ℕ). b' ' ∷ l) (uppercase-replicate n)

uppercase-pad : (n : ℕ) (cs : List ℕ) → Plain cs → map uppercase (pad n cs) ≡ pad n cs
uppercase-pad n cs plain =
    rw (map-append, uppercase-Plain cs plain, uppercase-replicate (n - length cs)) refl

length-pad : (n : ℕ) (cs : List ℕ) → length cs ≤ n → length (pad n cs) ≡ n
length-pad n cs le = omega (
  arith,
  length-append cs (replicate (n - length cs) b' '),
  length-replicate {A = ℕ} (n - length cs) b' ',
  le,
)

-- process_sfn_entry on the two parts of a name.
process-pad :
    (base ext : List ℕ)
    → Plain base
    → length base ≤ 8
    → process_sfn_entry (pad 8 base ++ pad 3 ext) ≡ (
        if not (get_or (pad 3 ext) 0 b' ' == b' ')
        then base ++ b'.' ∷ before_space (pad 3 ext)
        else base)
unfolding process_sfn_entry
process-pad base ext plain le =
    let len = length-pad 8 base le in
    let front : take 8 (pad 8 base ++ pad 3 ext) ≡ pad 8 base =
      take-append_le 8 (pad 8 base) (pad 3 ext) (omega (arith, len))
      ∙ take_all 8 (pad 8 base) (omega (arith, len)) in
    let back : drop 8 (pad 8 base ++ pad 3 ext) ≡ pad 3 ext =
      drop-append_ge 8 (pad 8 base) (pad 3 ext) (omega (arith, len)) ∙ rw len refl in
    let at_8 : length (pad 8 base) + 0 ≡ 8 = omega (arith, len) in
    let first = rw at_8 at (get_or-append (pad 8 base) (pad 3 ext) 0 b' ') in
    rw (front, back, first, before_space-pad (8 - length base) base plain) refl

no_skip :
    (c : ℕ) → is_special c ≡ false → (c == b'.') ≡ false → ((c == b'.') || is_special c) ≡ false
no_skip c plain no_dot = rw (no_dot, plain) refl

-- A name of 1 to 8 plain characters is read back from the short name that is generated for it, for files
-- and for directories.
pub process_sfn_entry-short_name :
    (isdir : Bool) (base : List ℕ)
    → Plain base
    → length base ≤ 8
    → process_sfn_entry (short_name isdir base) ≡ base
unfolding short_name
process_sfn_entry-short_name isdir base plain le =
    let none_found = dot_loop-Plain base (length base - 1) plain in
    let whole = fill-Plain (λ (c : ℕ). (c == b'.') || is_special c) base 8 no_skip plain le in
    let fits : ltb 8 (length base) ≡ false = ground (arith, le) in
    let no_tail : (isdir && false) ≡ false = elim (Bool-cases isdir) [
      | inl d ↦ rw d refl
      | inr f ↦ rw f refl
    ] in
    let upper : map uppercase (pad 8 base ++ pad 3 []) ≡ pad 8 base ++ pad 3 [] =
      rw (map-append, uppercase-pad 8 base plain) refl in
    rw (none_found, whole, fits, no_tail, upper) (process-pad base [] plain le)

-- The short name of a file with an extension.
short_name-dotted :
    (base ext : List ℕ)
    → Plain base
    → Plain ext
    → 1 ≤ length base
    → length base ≤ 8
    → length ext ≤ 3
    → short_name false (base ++ b'.' ∷ ext) ≡ pad 8 base ++ pad 3 ext
unfolding short_name
short_name-dotted base ext plain plain' low le short =
    let last : length (base ++ b'.' ∷ ext) - 1 ≡ length base + length ext =
      omega (arith, length-append base (b'.' ∷ ext)) in
    let dot = dot_loop-dotted base ext (length ext) plain' low in
    let there : ltb 0 (length base) ≡ true = ground (arith, low) in
    let fits : ltb 8 (length base) ≡ false = ground (arith, le) in
    let front : take (length base) (base ++ b'.' ∷ ext) ≡ base =
      take-append_le (length base) base (b'.' ∷ ext) (omega arith)
      ∙ take_all (length base) base (omega arith) in
    let one : length base + 1 - length base ≡ 1 = omega arith in
    let back : drop (length base + 1) (base ++ b'.' ∷ ext) ≡ ext =
      drop-append_ge (length base + 1) base (b'.' ∷ ext) (omega arith) ∙ rw one refl in
    let whole = fill-Plain (λ (c : ℕ). (c == b'.') || is_special c) base 8 no_skip plain le in
    let all = fill-Plain is_special ext 3 (λ c p no_dot. p) plain' short in
    rw (last, dot, there, fits, front, back, whole, all)
      (map-append uppercase (pad 8 base) (pad 3 ext)
        ∙ rw (uppercase-pad 8 base plain, uppercase-pad 3 ext plain') refl)

-- A name of 1 to 8 plain characters, a dot and 1 to 3 plain characters is read back from the short name
-- that is generated for a file of that name.
pub process_sfn_entry-short_name_dotted :
    (base ext : List ℕ)
    → Plain base
    → Plain ext
    → 1 ≤ length base
    → length base ≤ 8
    → 1 ≤ length ext
    → length ext ≤ 3
    → process_sfn_entry (short_name false (base ++ b'.' ∷ ext)) ≡ base ++ b'.' ∷ ext
process_sfn_entry-short_name_dotted base [] plain plain' low le some_ext short =
    absurd (omega (arith, some_ext))
process_sfn_entry-short_name_dotted base (c ∷ cs) plain plain' low le some_ext short =
    let read = before_space-pad (3 - length (c ∷ cs)) (c ∷ cs) plain' in
    let no_space = (plain_char c plain'.0).2 in
    rw (short_name-dotted base (c ∷ cs) plain plain' low le short)
      (process-pad base (c ∷ cs) plain le ∙ rw (no_space, read) refl)

-- A name of 1 to 8 plain characters and a dot at the end is accepted as a short name, so that it gets no
-- long one, but is read back without the dot.
pub process_sfn_entry-short_name_trailing :
    (base : List ℕ)
    → Plain base
    → 1 ≤ length base
    → length base ≤ 8
    → (is_valid_sfn (base ++ b'.' ∷ []) ≡ true)
      × (process_sfn_entry (short_name false (base ++ b'.' ∷ [])) ≡ base)
process_sfn_entry-short_name_trailing base plain low le = (
  short→valid (base ++ b'.' ∷ []) (dotted base [] refl plain tt low le (omega arith)),
  rw (short_name-dotted base [] plain tt low le (omega arith)) (process-pad base [] plain le),
)
