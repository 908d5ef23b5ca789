-- ===== src/Libc/Tokens/Again.antt =====
-- strtok_r of libc/src/string, called again for the next token.
use kerosene.Base.{ℕ, ◌<◌, ◌≡◌, ◌≢◌, refl, ◌∙◌, false, List, [], ◌∷◌, length, arith, ◌==◌}
use kerosene.Libc.Memory.{Mem}
use kerosene.Libc.Strings.Compare.{IsString}
use kerosene.Process.{null}
use kerosene.Libc.Tokens.{strtok_r}
use kerosene.Libc.Tokens.Split.{
  behind_leading, before_delimiter, behind_delimiter, Splits, strtok_r-Splits,
}

same_call :
    (fuel : ℕ) (m : Mem) (delimiters p : ℕ)
    → p ≢ null
    → m p ≢ 0
    → strtok_r fuel m null delimiters p ≡ strtok_r fuel m p delimiters p
unfolding strtok_r
same_call fuel m delimiters p real more =
    let there : (p == null) ≡ false = ground (arith, real) in
    let live : (m p == 0) ≡ false = ground (arith, more) in rw (there, live) refl

-- Called with NULL and the pointer that an earlier call has left, strtok_r goes on in the same way with
-- the string there, and gives no token at the end of the string.
pub strtok_r-again :
    (fuel : ℕ) (m : Mem) (delimiters p : ℕ) (xs ds : List ℕ)
    → IsString m p xs
    → IsString m delimiters ds
    → length xs < fuel
    → length ds < fuel
    → p ≢ null
    → let left = behind_leading ds xs in
      Splits
        (strtok_r fuel m null delimiters p)
        (before_delimiter ds left)
        (behind_delimiter ds left)
unfolding strtok_r behind_leading before_delimiter behind_delimiter
strtok_r-again fuel m delimiters p [] ds s t enough enough' real =
    let there : (p == null) ≡ false = ground (arith, real) in
    record {
      mem = m;
      next = p;
      start = null;
      runs = rw (there, s) refl;
      found = λ ne. absurd (ne refl);
      none_left = λ e. refl;
      behind = s;
    }
strtok_r-again fuel m delimiters p (x ∷ xs) ds s t enough enough' real =
    let r = strtok_r-Splits fuel m p delimiters p (x ∷ xs) ds s t enough enough' real in
    let live : m p ≢ 0 = λ z. absurd (ground (arith, s.0, s.1, z)) in
    record {
      mem = r.mem;
      next = r.next;
      start = r.start;
      runs = same_call fuel m delimiters p real live ∙ r.runs;
      found = r.found;
      none_left = r.none_left;
      behind = r.behind;
    }
