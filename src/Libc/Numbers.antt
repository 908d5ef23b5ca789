-- ===== src/Libc/Numbers.antt =====
-- atoi and itoa of libc/src/stdlib. An `int` is its 32-bit word, and arithmetic on it wraps around. A loop
-- over a string runs on fuel (`none`: out of fuel).
pub mod Decimal
pub mod RoundTrip
use kerosene.Base.{
  ℕ, zero, suc, ◌+◌, ◌-◌, ◌*◌, ◌/◌, ◌%◌, ◌^◌, Bool, not, ◌&&◌, Option, none, some, ◌==◌, ltb, leb,
  if◌then◌else◌, ◌>>=◌,
}
use kerosene.Base.Words.{u32, add32, sub32, mul32}
use kerosene.Libc.Memory.{Mem, store}
use kerosene.Libc.Strings.{strrev}

-- A `char` as a word; it is signed.
abbrev pub char_word : ℕ → ℕ
char_word c = if ltb c 128 then c else c + u32 - 256

unfoldable pub atoi_loop : ℕ → Mem → ℕ → ℕ → Option ℕ
atoi_loop zero m p ret = none
atoi_loop (suc fuel) m p ret =
    let rest = atoi_loop fuel m (p + 1) (sub32 (add32 (mul32 ret 10) (char_word (m p))) b'0') in
    if not (m p == 0) then rest else some ret

unfoldable pub atoi : ℕ → Mem → ℕ → Option ℕ
atoi fuel m buff =
    let negative = m buff == b'-' in
    do
      ret ← atoi_loop fuel m (if negative then buff + 1 else buff) 0
      some (if negative then sub32 0 ret else ret)

-- `while(n)`: the memory, and `cnt`.
unfoldable pub digit_loop : ℕ → Mem → ℕ → ℕ → ℕ → ℕ → Option (Mem × ℕ)
digit_loop zero m buff radix n cnt = none
digit_loop (suc fuel) m buff radix n cnt =
    let i = n % radix in
    let digit = if ltb i 10 then i + b'0' else i + b'a' - 10 in
    let rest = digit_loop fuel (store m (buff + cnt) digit) buff radix (n / radix) (cnt + 1) in
    if not (n == 0) then rest else some (m, cnt)

unfoldable pub itoa : ℕ → Mem → ℕ → ℕ → ℕ → Option Mem
itoa fuel m num buff radix =
    let sign = (radix == 10) && leb (2 ^ 31) num in
    let written = (do
      (m₁, cnt) ← digit_loop fuel m buff radix (if sign then sub32 0 num else num) 0
      let m₂ = if sign then store m₁ (buff + cnt) b'-' else m₁
      strrev fuel (store m₂ (buff + (if sign then cnt + 1 else cnt)) 0) buff) in
    if num == 0 then some (store (store m buff b'0') (buff + 1) 0) else written
