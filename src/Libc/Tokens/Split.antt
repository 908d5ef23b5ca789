-- ===== src/Libc/Tokens/Split.antt =====
-- strtok_r of libc/src/string against the tokens of a string.
use kerosene.Base.{
  ℕ, zero, suc, ◌+◌, ◌<◌, ◌≤◌, ◌≡◌, ◌≢◌, refl, ◌∙◌, inl, inr, Bool-cases, false, Option, some, List,
  [], ◌∷◌, length, arith, ◌==◌, if◌then◌else◌,
}
use mathlib.Core.Path.{fun_ext}
use kerosene.Process.Queue.Chain.{has}
use kerosene.Libc.Memory.{Mem, store}
use kerosene.Libc.Strings.Compare.{IsString}
use kerosene.Libc.Strings.Copy.{IsString-frame}
use kerosene.Libc.Numbers.Decimal.{store_here, store_else}
use kerosene.Process.{null}
use kerosene.Libc.Tokens.{is_delimiter, skip_leading, find_end, strtok_r}

-- What is left of a string behind its leading delimiters.
unfoldable pub behind_leading : List ℕ → List ℕ → List ℕ
behind_leading ds [] = []
behind_leading ds (x ∷ xs) = let rest = behind_leading ds xs in if has x ds then rest else x ∷ xs

-- The characters before the first delimiter, and those behind it.
unfoldable pub before_delimiter : List ℕ → List ℕ → List ℕ
before_delimiter ds [] = []
before_delimiter ds (x ∷ xs) =
    let rest = before_delimiter ds xs in if has x ds then [] else x ∷ rest

unfoldable pub behind_delimiter : List ℕ → List ℕ → List ℕ
behind_delimiter ds [] = []
behind_delimiter ds (x ∷ xs) = let rest = behind_delimiter ds xs in if has x ds then xs else rest

is_delimiter-has :
    (fuel : ℕ) (m : Mem) (p c : ℕ) (ds : List ℕ)
    → IsString m p ds
    → length ds < fuel
    → is_delimiter fuel m p c ≡ some (has c ds)
unfolding is_delimiter
is_delimiter-has zero m p c ds s enough = absurd (omega (arith, enough))
is_delimiter-has (suc fuel) m p c [] s enough = rw s refl
is_delimiter-has (suc fuel) m p c (x ∷ xs) (here, ne, s) enough =
    let more : (x == 0) ≡ false = ground (arith, ne) in
    elim (Bool-cases (c == x)) [
      | inl same ↦ rw (here, more, same) refl
      | inr differ ↦
          rw (here, more, differ) (is_delimiter-has fuel m (p + 1) c xs s (omega (arith, enough)))
    ]

module _ (inner : ℕ) (m : Mem) (delimiters : ℕ) (ds : List ℕ) (is_ds : IsString m delimiters ds)
    (enough : length ds < inner) where
  skip_leading-string :
      (fuel p : ℕ) (xs : List ℕ)
      → IsString m p xs
      → length xs < fuel
      → (q : ℕ) × (skip_leading inner fuel m delimiters p ≡ some q)
        × IsString m q (behind_leading ds xs)
  unfolding skip_leading behind_leading
  skip_leading-string zero p xs s h = absurd (omega (arith, h))
  skip_leading-string (suc fuel) p [] s h = (p, rw s refl, s)
  skip_leading-string (suc fuel) p (x ∷ xs) (here, ne, s) h =
      let more : (x == 0) ≡ false = ground (arith, ne) in
      let known = is_delimiter-has inner m delimiters x ds is_ds enough in
      elim (Bool-cases (has x ds)) [
        | inl delim ↦
            let (q, runs, rest) = skip_leading-string fuel (p + 1) xs s (omega (arith, h)) in
            (q, rw (here, more, known, delim) runs, rw delim rest)
        | inr char ↦ (p, rw (here, more, known, char) refl, rw char (here, ne, s))
      ]

  -- Where the token that begins at `p` ends: at a NUL, or at a delimiter that is made one.
  record Ends (fuel p : ℕ) (xs : List ℕ) : Type 0 where
    stop : ℕ
    runs : find_end inner fuel m delimiters p ≡ some stop
    from : p ≤ stop
    token : IsString (store m stop 0) p (before_delimiter ds xs)
    rest :
        IsString (store m stop 0) (if m stop == 0 then stop else stop + 1) (behind_delimiter ds xs)

  find_end-Ends : (fuel p : ℕ) (xs : List ℕ) → IsString m p xs → length xs < fuel → Ends fuel p xs
  unfolding find_end before_delimiter behind_delimiter
  find_end-Ends zero p xs s h = absurd (omega (arith, h))
  find_end-Ends (suc fuel) p [] s h = record {
    stop = p;
    runs = rw s refl;
    from = omega arith;
    token = store_here m p 0;
    rest = rw s (store_here m p 0);
  }
  find_end-Ends (suc fuel) p (x ∷ xs) (here, ne, s) h =
      let more : (x == 0) ≡ false = ground (arith, ne) in
      let known = is_delimiter-has inner m delimiters x ds is_ds enough in
      elim (Bool-cases (has x ds)) [
        | inl delim ↦
            let live : (m p == 0) ≡ false = rw here more in
            record {
              stop = p;
              runs = rw (here, more, known, delim) refl;
              from = omega arith;
              token = rw delim (store_here m p 0);
              rest =
                  rw (live, delim)
                    (IsString-frame m (store m p 0) (p + 1) xs s
                      (λ a lo hi. store_else m p 0 a (omega (arith, lo))));
            }
        | inr char ↦
            let r = find_end-Ends fuel (p + 1) xs s (omega (arith, h)) in
            record {
              stop = r.stop;
              runs = rw (here, more, known, char) r.runs;
              from = omega (arith, r.from);
              token = rw char (store_else m r.stop 0 p (omega (arith, r.from)) ∙ here, ne, r.token);
              rest = rw char r.rest;
            }
      ]

-- What strtok_r leaves: a token that is a string of its own with the rest behind *token_ptr, or no token
-- and nothing behind *token_ptr.
pub record Splits (run : Option (Mem × ℕ × ℕ)) (token rest : List ℕ) : Type 0 where
  pub mem : Mem
  pub next : ℕ
  pub start : ℕ
  pub runs : run ≡ some (mem, next, start)
  pub found : (token ≢ []) → IsString mem start token
  pub none_left : (token ≡ []) → start ≡ null
  pub behind : IsString mem next rest

abbrev outcome : Mem → ℕ → ℕ → Mem × ℕ × ℕ
outcome m start end =
    if m start == 0
    then (m, start, null)
    else if m end == 0
    then (m, end, start)
    else (store m end 0, end + 1, start)

store_nothing : (m : Mem) (a : ℕ) → m a ≡ 0 → store m a 0 ≡ m
unfolding store
store_nothing m a z = fun_ext (λ b. ground (arith, z))

splits :
    (m : Mem) (q stop : ℕ) (left ds : List ℕ)
    → IsString m q left
    → IsString (store m stop 0) q (before_delimiter ds left)
    → IsString (store m stop 0) (if m stop == 0 then stop else stop + 1) (behind_delimiter ds left)
    → (left ≢ [] → before_delimiter ds left ≢ [])
    → (run : Option (Mem × ℕ × ℕ)) → run ≡ some (outcome m q stop)
    → Splits run (before_delimiter ds left) (behind_delimiter ds left)
unfolding before_delimiter behind_delimiter
splits m q stop [] ds s token rest whole run runs = record {
  mem = m;
  next = q;
  start = null;
  runs = runs ∙ rw s refl;
  found = λ ne. absurd (ne refl);
  none_left = λ e. refl;
  behind = s;
}
splits m q stop (x ∷ xs) ds (here, nz, s) token rest whole run runs =
    let live : (x == 0) ≡ false = ground (arith, nz) in
    let some_token = whole (λ e. absurd (cc e)) in
    elim (Bool-cases (m stop == 0)) [
      | inl last ↦
          let same = store_nothing m stop (ground (arith, last)) in
          record {
            mem = m;
            next = stop;
            start = q;
            runs = runs ∙ rw (here, live, last) refl;
            found = λ ne. rw same at token;
            none_left = λ e. absurd (some_token e);
            behind = rw (last, same) at rest;
          }
      | inr more ↦ record {
        mem = store m stop 0;
        next = stop + 1;
        start = q;
        runs = runs ∙ rw (here, live, more) refl;
        found = λ ne. token;
        none_left = λ e. absurd (some_token e);
        behind = rw more at rest;
      }
    ]

behind_leading-le : (ds xs : List ℕ) → length (behind_leading ds xs) ≤ length xs
unfolding behind_leading
behind_leading-le ds [] = omega arith
behind_leading-le ds (x ∷ xs) = elim (Bool-cases (has x ds)) [
  | inl delim ↦ rw delim (omega (arith, behind_leading-le ds xs))
  | inr char ↦ rw char (omega arith)
]

-- What is left begins with a character that is no delimiter.
behind_leading-starts :
    (ds xs : List ℕ) → behind_leading ds xs ≢ [] → before_delimiter ds (behind_leading ds xs) ≢ []
unfolding behind_leading before_delimiter
behind_leading-starts ds [] ne = absurd (ne refl)
behind_leading-starts ds (x ∷ xs) ne = elim (Bool-cases (has x ds)) [
  | inl delim ↦ rw delim (behind_leading-starts ds xs (rw delim at ne))
  | inr char ↦ rw (char, char) (λ e. absurd (cc e))
]

-- Called with a string, strtok_r ends; behind the leading delimiters it gives the characters up to the
-- next delimiter as a string of its own, and leaves the string behind that delimiter for the next call;
-- where only delimiters are left it gives NULL. A round of fuel for each character of the string and of
-- the delimiters is enough.
pub strtok_r-Splits :
    (fuel : ℕ) (m : Mem) (str delimiters token_ptr : ℕ) (xs ds : List ℕ)
    → IsString m str xs
    → IsString m delimiters ds
    → length xs < fuel
    → length ds < fuel
    → str ≢ null
    → let left = behind_leading ds xs in
      Splits
        (strtok_r fuel m str delimiters token_ptr)
        (before_delimiter ds left)
        (behind_delimiter ds left)
unfolding strtok_r
strtok_r-Splits fuel m str delimiters token_ptr xs ds s t enough enough' real =
    let given : (str == null) ≡ false = ground (arith, real) in
    let (q, skips, left) =
      skip_leading-string fuel m delimiters ds t enough' fuel str xs s enough in
    let short = behind_leading-le ds xs in
    let r =
      find_end-Ends fuel m delimiters ds t enough' fuel q (behind_leading ds xs) left
        (omega (arith, short, enough)) in
    let whole = behind_leading-starts ds xs in
    let runs : strtok_r fuel m str delimiters token_ptr ≡ some (outcome m q r.stop) =
      rw (given, skips, r.runs) refl in
    splits m q r.stop (behind_leading ds xs) ds left r.token r.rest whole _ runs
