-- ===== src/Libc/Numbers/RoundTrip.antt =====
-- atoi of libc/src/stdlib reads back what itoa writes.
use kerosene.Base.{
  ℕ, zero, suc, ◌+◌, ◌-◌, ◌^◌, ◌<◌, ◌≤◌, ◌≡◌, ◌≢◌, inl, inr, refl, ◌∙◌, sym, Bool-cases, true,
  false, some, arith, ◌==◌, leb,
}
use mathlib.Core.Path.{subst}
use kerosene.Base.Words.{u32, sub32}
use kerosene.Libc.Memory.{Mem, store}
use kerosene.Libc.Numbers.{atoi, itoa}
use kerosene.Libc.Numbers.Decimal.{
  Digits, Backwards, turned, Backwards-full, store_here, store_else, atoi_loop-value, Digits-first,
  turn, digit_loop-Dealt,
}

-- atoi on a string of digits, and on one with a sign.
atoi-value :
    (k fuel : ℕ) (m : Mem) (p n : ℕ)
    → n < u32
    → Digits m p (suc k) n
    → m (p + suc k) ≡ 0
    → suc k < fuel
    → atoi fuel m p ≡ some n
unfolding atoi
atoi-value k fuel m p n lt digits end enough =
    let first = Digits-first m p k n digits in
    let plain : (m p == 45) ≡ false = ground (arith, first.0) in
    rw (plain, atoi_loop-value (suc k) fuel m p n lt digits end enough) refl

atoi-negative :
    (k fuel : ℕ) (m : Mem) (p n : ℕ)
    → n < u32
    → m p ≡ 45
    → Digits m (p + 1) k n
    → m (p + 1 + k) ≡ 0
    → k < fuel
    → atoi fuel m p ≡ some (sub32 0 n)
unfolding atoi
atoi-negative k fuel m p n lt minus digits end enough =
    rw (minus, atoi_loop-value k fuel m (p + 1) n lt digits end enough) refl

digits_pos : (m : Mem) (q k n : ℕ) → Backwards m q k n → n ≢ 0 → k ≡ suc (k - 1)
digits_pos m q zero n z ne = absurd (ne z)
digits_pos m q (suc k) n back ne = omega arith

atoi-itoa_zero :
    (fuel : ℕ) (m : Mem) (buff : ℕ)
    → 12 ≤ fuel
    → (m' : Mem) × (itoa fuel m 0 buff 10 ≡ some m') × (atoi fuel m' buff ≡ some 0)
unfolding itoa
atoi-itoa_zero fuel m buff enough =
    let m₁ = store m buff 48 in
    let m' = store m₁ (buff + 1) 0 in
    let e : buff + 0 ≡ buff = omega arith in
    let digit : m' (buff + 0) ≡ 48 =
      rw e (store_else m₁ (buff + 1) 0 buff (omega arith) ∙ store_here m buff 48) in
    (
      m',
      refl,
      atoi-value 0 fuel m' buff 0 (omega arith) (digit, omega arith) (store_here m₁ (buff + 1) 0)
          (omega (arith, enough)),
    )

atoi-itoa_positive :
    (fuel : ℕ) (m : Mem) (num buff : ℕ)
    → num < u32
    → 12 ≤ fuel
    → (num == 0) ≡ false
    → leb (2 ^ 31) num ≡ false
    → (m' : Mem) × (itoa fuel m num buff 10 ≡ some m') × (atoi fuel m' buff ≡ some num)
unfolding itoa
atoi-itoa_positive fuel m num buff lt enough more positive =
    let r = digit_loop-Dealt 10 fuel m buff num 0 (omega (arith, lt)) (omega (arith, enough)) in
    let e : buff + 0 ≡ buff = omega arith in
    let digits = rw e at r.digits in
    let m₁ = store r.mem (buff + r.count) 0 in
    let inner : (i : ℕ) → i < r.count → m₁ (buff + i) ≡ r.mem (buff + i) =
      λ i k. store_else r.mem (buff + r.count) 0 (buff + i) (omega (arith, k)) in
    let t =
      turn fuel m₁ buff r.count
        (λ i k. rw (inner i k) (Backwards-full r.mem buff r.count num i digits k))
        (store_here r.mem (buff + r.count) 0) (omega (arith, r.few, enough)) in
    let forth =
      turned r.mem t.mem buff buff r.count num
        (λ i k. t.mirrors i k ∙ inner (r.count - 1 - i) (omega (arith, k))) digits in
    let some_digit = digits_pos r.mem buff r.count num digits (ground (arith, more)) in
    let end : t.mem (buff + r.count) ≡ 0 =
      t.others (buff + r.count) (inr (omega arith)) ∙ store_here r.mem (buff + r.count) 0 in
    let sum : 0 + r.count ≡ r.count = omega arith in
    (
      t.mem,
      rw (more, positive, r.runs, sum, t.runs) refl,
      atoi-value (r.count - 1) fuel t.mem buff num lt
          (subst (λ k. Digits t.mem buff k num) some_digit forth) (rw (sym some_digit) end)
          (omega (arith, r.few, enough)),
    )

atoi-itoa_negative :
    (fuel : ℕ) (m : Mem) (num buff : ℕ)
    → num < u32
    → 12 ≤ fuel
    → (num == 0) ≡ false
    → leb (2 ^ 31) num ≡ true
    → (m' : Mem) × (itoa fuel m num buff 10 ≡ some m') × (atoi fuel m' buff ≡ some num)
unfolding itoa
atoi-itoa_negative fuel m num buff lt enough more negative =
    let n = sub32 0 num in
    let n_lt : n < u32 = omega arith in
    let r = digit_loop-Dealt 10 fuel m buff n 0 (omega (arith, n_lt)) (omega (arith, enough)) in
    let e : buff + 0 ≡ buff = omega arith in
    let digits = rw e at r.digits in
    let m₁ = store r.mem (buff + r.count) 45 in
    let m₂ = store m₁ (buff + (r.count + 1)) 0 in
    let minus : m₂ (buff + r.count) ≡ 45 =
      store_else m₁ (buff + (r.count + 1)) 0 (buff + r.count) (omega arith)
      ∙ store_here r.mem (buff + r.count) 45 in
    let inner : (i : ℕ) → i < r.count → m₂ (buff + i) ≡ r.mem (buff + i) = λ i k.
      store_else m₁ (buff + (r.count + 1)) 0 (buff + i) (omega (arith, k))
      ∙ store_else r.mem (buff + r.count) 45 (buff + i) (omega (arith, k)) in
    let full : (i : ℕ) → i < r.count + 1 → m₂ (buff + i) ≢ 0 = λ i k.
      elim (Bool-cases (i == r.count)) [
        | inl last ↦
            let same : i ≡ r.count = ground (arith, last) in
            rw same (λ z. absurd (omega (arith, minus, z)))
        | inr before ↦
            let below : i < r.count = ground (arith, before, k) in
            rw (inner i below) (Backwards-full r.mem buff r.count n i digits below)
      ] in
    let t =
      turn fuel m₂ buff (r.count + 1) full (store_here m₁ (buff + (r.count + 1)) 0)
        (omega (arith, r.few, enough)) in
    let first : t.mem buff ≡ 45 =
      let e' : r.count + 1 - 1 - 0 ≡ r.count = omega arith in
      rw (e, e') at (t.mirrors 0 (omega arith)) ∙ minus in
    let forth =
      turned r.mem t.mem (buff + 1) buff r.count n
        (λ i k.
          let place : buff + 1 + i ≡ buff + (i + 1) = omega arith in
          let mirror : r.count + 1 - 1 - (i + 1) ≡ r.count - 1 - i = omega arith in
          rw place (rw mirror at (t.mirrors (i + 1) (omega (arith, k))))
          ∙ inner (r.count - 1 - i) (omega (arith, k)))
        digits in
    let end : t.mem (buff + 1 + r.count) ≡ 0 =
      let place : buff + 1 + r.count ≡ buff + (r.count + 1) = omega arith in
      rw place (t.others (buff + (r.count + 1)) (inr (omega arith)))
      ∙ store_here m₁ (buff + (r.count + 1)) 0 in
    let sum : 0 + r.count ≡ r.count = omega arith in
    let back : sub32 0 n ≡ num = ground (arith, lt, more) in
    (
      t.mem,
      rw (more, negative, r.runs, sum, t.runs) refl,
      atoi-negative r.count fuel t.mem buff n n_lt first forth end (omega (arith, r.few, enough))
          ∙ rw back refl,
    )

-- atoi gives back the number that itoa has written in decimal, for every `int`, the lowest one (for
-- which the negation wraps around) included. Both end within 12 rounds.
pub atoi-itoa :
    (fuel : ℕ) (m : Mem) (num buff : ℕ)
    → num < u32
    → 12 ≤ fuel
    → (m' : Mem) × (itoa fuel m num buff 10 ≡ some m') × (atoi fuel m' buff ≡ some num)
atoi-itoa fuel m num buff lt enough = elim (Bool-cases (num == 0)) [
  | inl nothing ↦
      let e : num ≡ 0 = ground (arith, nothing) in rw e (atoi-itoa_zero fuel m buff enough)
  | inr more ↦ elim (Bool-cases (leb (2 ^ 31) num)) [
    | inl negative ↦ atoi-itoa_negative fuel m num buff lt enough more negative
    | inr positive ↦ atoi-itoa_positive fuel m num buff lt enough more positive
  ]
]
