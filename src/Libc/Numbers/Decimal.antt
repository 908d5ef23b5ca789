-- ===== src/Libc/Numbers/Decimal.antt =====
-- The decimal digits that itoa of libc/src/stdlib writes and atoi reads.
use kerosene.Base.{
  ℕ, zero, suc, ◌+◌, ◌-◌, ◌*◌, ◌/◌, ◌%◌, ◌<◌, ◌≤◌, ◌≡◌, ◌≢◌, ◌⊎◌, inl, inr, refl, ◌∙◌, ap,
  Bool-cases, true, not, some, List, [], ◌∷◌, length, arith, ◌==◌, ltb,
}
use mathlib.Core.Path.{subst}
use native.Mathlib.Nat.{add_comm}
use kerosene.Base.Words.{u32, add32, sub32, mul32}
use kerosene.Libc.Memory.{Mem, store}
use kerosene.Libc.Strings.{strrev}
use kerosene.Libc.Strings.Compare.{IsString}
use kerosene.Libc.Strings.Copy.{Reversed, strrev-Reversed}
use kerosene.Libc.Numbers.{char_word, atoi_loop, digit_loop}

-- The `k` decimal digits of `n` from `p` on, the highest first.
abbrev pub Digits : Mem → ℕ → ℕ → ℕ → Type 0
Digits m p zero n = n ≡ 0
Digits m p (suc k) n = (m (p + k) ≡ 48 + n % 10) × Digits m p k (n / 10)

-- The same digits, the lowest first.
abbrev pub Backwards : Mem → ℕ → ℕ → ℕ → Type 0
Backwards m p zero n = n ≡ 0
Backwards m p (suc k) n = (m p ≡ 48 + n % 10) × Backwards m (p + 1) k (n / 10)

pub turned :
    (m m' : Mem) (p q k n : ℕ)
    → ((i : ℕ) → i < k → m' (p + i) ≡ m (q + (k - 1 - i)))
    → Backwards m q k n
    → Digits m' p k n
turned m m' p q zero n same z = z
turned m m' p q (suc k) n same (first, rest) =
    let last : q + (suc k - 1 - k) ≡ q = omega arith in
    (
      rw last at (same k (omega arith)) ∙ first,
      turned m m' p (q + 1) k (n / 10)
          (λ i lt.
            let e : q + (suc k - 1 - i) ≡ q + 1 + (k - 1 - i) = omega (arith, lt) in
            same i (omega (arith, lt)) ∙ ap m e)
          rest,
    )

-- One round of atoi on a digit.
digit_step : (n : ℕ) → n < u32 → sub32 (add32 (mul32 (n / 10) 10) (char_word (48 + n % 10))) 48 ≡ n
digit_step n lt =
    let ascii : ltb (48 + n % 10) 128 ≡ true = ground arith in rw ascii (omega (arith, lt))

atoi_loop-Digits :
    (k fuel : ℕ) (m : Mem) (p n : ℕ)
    → n < u32
    → Digits m p k n
    → atoi_loop (k + fuel) m p 0 ≡ atoi_loop fuel m (p + k) n
atoi_loop-Digits zero fuel m p n lt z =
    let e : 0 + fuel ≡ fuel = omega arith in let e' : p + 0 ≡ p = omega arith in rw (e, e', z) refl
atoi_loop-Digits (suc k) fuel m p n lt (last, rest) =
    let e : suc k + fuel ≡ k + suc fuel = omega arith in
    let ih = atoi_loop-Digits k (suc fuel) m p (n / 10) (omega (arith, lt)) rest in
    rw e (ih ∙ one_digit)
  where
    one_digit : atoi_loop (suc fuel) m (p + k) (n / 10) ≡ atoi_loop fuel m (p + suc k) n
    one_digit =
        unfold atoi_loop in
        let more : not (48 + n % 10 == 0) ≡ true = ground arith in
        let next : p + k + 1 ≡ p + suc k = omega arith in
        rw (last, more, digit_step n lt, next) refl

abbrev pub pow10 : ℕ → ℕ
pow10 zero = 1
pow10 (suc k) = 10 * pow10 k

pub store_here : (m : Mem) (a c : ℕ) → store m a c a ≡ c
unfolding store
store_here m a c = ground arith

pub store_else : (m : Mem) (a c b : ℕ) → b ≢ a → store m a c b ≡ m b
unfolding store
store_else m a c b ne = ground (arith, ne)

-- What the loop of itoa leaves: the digits backwards, and nothing else changed.
pub record Dealt (k fuel : ℕ) (m : Mem) (buff n cnt : ℕ) : Type 0 where
  pub mem : Mem
  pub count : ℕ
  pub runs : digit_loop fuel m buff 10 n cnt ≡ some (mem, cnt + count)
  pub digits : Backwards mem (buff + cnt) count n
  pub few : count ≤ k
  pub others : (a : ℕ) → (a < buff + cnt) ⊎ (buff + cnt + count ≤ a) → mem a ≡ m a

digit_loop-done : (k fuel : ℕ) (m : Mem) (buff n cnt : ℕ) → n ≡ 0 → Dealt k (suc fuel) m buff n cnt
digit_loop-done k fuel m buff n cnt z = record {
  mem = m;
  count = 0;
  runs = unfold digit_loop in let e : cnt + 0 ≡ cnt = omega arith in rw (z, e) refl;
  digits = z;
  few = omega arith;
  others = λ a o. refl;
}

digit_loop_step :
    (fuel : ℕ) (m : Mem) (buff n cnt : ℕ)
    → ltb (n % 10) 10 ≡ true
    → not (n == 0) ≡ true
    → digit_loop (suc fuel) m buff 10 n cnt
      ≡ digit_loop fuel (store m (buff + cnt) (n % 10 + 48)) buff 10 (n / 10) (cnt + 1)
unfolding digit_loop
digit_loop_step fuel m buff n cnt low go = rw (low, go) refl

pub digit_loop-Dealt :
    (k fuel : ℕ) (m : Mem) (buff n cnt : ℕ) → n < pow10 k → k < fuel → Dealt k fuel m buff n cnt
digit_loop-Dealt k zero m buff n cnt lt enough = absurd (omega (arith, enough))
digit_loop-Dealt zero (suc fuel) m buff n cnt lt enough =
    digit_loop-done zero fuel m buff n cnt (omega (arith, lt))
digit_loop-Dealt (suc k) (suc fuel) m buff n cnt lt enough = elim (Bool-cases (n == 0)) [
  | inl nothing ↦ digit_loop-done (suc k) fuel m buff n cnt (ground (arith, nothing))
  | inr more ↦
      let m₁ = store m (buff + cnt) (n % 10 + 48) in
      let r =
        digit_loop-Dealt k fuel m₁ buff (n / 10) (cnt + 1) (omega (arith, lt))
          (omega (arith, enough)) in
      let low : ltb (n % 10) 10 ≡ true = ground arith in
      let go : not (n == 0) ≡ true = rw more refl in
      let sum : cnt + 1 + r.count ≡ cnt + suc r.count = omega arith in
      let step : digit_loop (suc fuel) m buff 10 n cnt
          ≡ digit_loop fuel m₁ buff 10 (n / 10) (cnt + 1) =
        digit_loop_step fuel m buff n cnt low go in
      let place : buff + cnt + 1 ≡ buff + (cnt + 1) = omega arith in
      record {
        mem = r.mem;
        count = suc r.count;
        runs = step ∙ r.runs ∙ ap (λ (c : ℕ). some (r.mem, c)) sum;
        digits = (
          r.others (buff + cnt) (inl (omega arith))
              ∙ store_here m (buff + cnt) (n % 10 + 48)
              ∙ add_comm (n % 10) 48,
          rw place r.digits,
        );
        few = omega (arith, r.few);
        others = λ a o.
            r.others a
              (elim o [ inl lo ↦ inl (omega (arith, lo)) | inr hi ↦ inr (omega (arith, hi)) ])
            ∙ store_else m (buff + cnt) (n % 10 + 48) a (ground (arith, o));
      }
]

-- A run of bytes that are not 0, closed by a NUL, is a string.
as_string :
    (m : Mem) (p k : ℕ)
    → ((i : ℕ) → i < k → m (p + i) ≢ 0)
    → m (p + k) ≡ 0
    → (xs : List ℕ) × (length xs ≡ k) × IsString m p xs
as_string m p zero full end = let e : p + 0 ≡ p = omega arith in ([], refl, rw e at end)
as_string m p (suc k) full end =
    let e : p + suc k ≡ p + 1 + k = omega arith in
    let zero_on : p + 0 ≡ p = omega arith in
    let (xs, len, s) =
      as_string m (p + 1) k
        (λ i lt.
          let e' : p + suc i ≡ p + 1 + i = omega arith in
          rw e' at (full (suc i) (omega (arith, lt))))
        (rw e at end) in
    (m p ∷ xs, ap suc len, (refl, rw zero_on at (full 0 (omega arith)), s))

pub Backwards-full : (m : Mem) (q k n i : ℕ) → Backwards m q k n → i < k → m (q + i) ≢ 0
Backwards-full m q zero n i back lt = absurd (omega (arith, lt))
Backwards-full m q (suc k) n zero (first, rest) lt =
    let e : q + 0 ≡ q = omega arith in rw e (λ z. absurd (omega (arith, first, z)))
Backwards-full m q (suc k) n (suc i) (first, rest) lt =
    let e : q + suc i ≡ q + 1 + i = omega arith in
    rw e (Backwards-full m (q + 1) k (n / 10) i rest (omega (arith, lt)))

-- atoi on digits that are closed by a NUL.
pub atoi_loop-value :
    (k fuel : ℕ) (m : Mem) (p n : ℕ)
    → n < u32
    → Digits m p k n
    → m (p + k) ≡ 0
    → k < fuel
    → atoi_loop fuel m p 0 ≡ some n
atoi_loop-value k fuel m p n lt digits end enough =
    let e : fuel ≡ k + suc (fuel - k - 1) = omega (arith, enough) in
    rw e (atoi_loop-Digits k (suc (fuel - k - 1)) m p n lt digits ∙ at_end)
  where
    at_end : atoi_loop (suc (fuel - k - 1)) m (p + k) n ≡ some n
    at_end = unfold atoi_loop in rw end refl

pub Digits-first : (m : Mem) (p k n : ℕ) → Digits m p (suc k) n → (48 ≤ m p) × (m p < 58)
Digits-first m p zero n (last, rest) =
    let e : p + 0 ≡ p = omega arith in omega (arith, rw e at last)
Digits-first m p (suc k) n (last, rest) = Digits-first m p k (n / 10) rest

-- The string that itoa turns round: `k` digits backwards and perhaps a sign.
pub turn :
    (fuel : ℕ) (m : Mem) (buff k : ℕ)
    → ((i : ℕ) → i < k → m (buff + i) ≢ 0)
    → m (buff + k) ≡ 0
    → k < fuel
    → Reversed (strrev fuel m buff) m buff k
turn fuel m buff k full end enough =
    let (xs, len, s) = as_string m buff k full end in
    subst (Reversed (strrev fuel m buff) m buff) len
      (strrev-Reversed fuel m buff xs s (omega (arith, len, enough)))
