-- ===== src/Libc/Strings.antt =====
-- The functions on NUL-terminated strings of libc/src/string and ctype. A loop over a string runs on
-- fuel (`none`: out of fuel, a string with no end in sight). Characters are bytes; a `char` is signed,
-- so the bytes from 128 on are the negative ones, which toupper leaves alone.
pub mod Compare
pub mod Copy
pub mod Capitals
use kerosene.Base.{
  ℕ, zero, suc, ◌+◌, ◌-◌, ◌*◌, ◌/◌, ◌%◌, Bool, true, false, not, ◌&&◌, ◌||◌, Option, none, some,
  ◌==◌, ltb, leb, if◌then◌else◌, ◌>>=◌,
}
use kerosene.Base.Int.{ℤ, pos, sub_ℕ}
use kerosene.Libc.Memory.{Mem, store}

abbrev pub isprint : ℕ → Bool
isprint c = leb b' ' c && leb c b'~'

unfoldable pub toupper : ℕ → ℕ
toupper chr = if leb b'a' chr && leb chr b'z' then chr - 32 else chr

unfoldable pub strlen_loop : ℕ → Mem → ℕ → ℕ → Option ℕ
strlen_loop zero m str len = none
strlen_loop (suc fuel) m str len =
    let rest = strlen_loop fuel m str (len + 1) in if m (str + len) == 0 then some len else rest

unfoldable pub strlen : ℕ → Mem → ℕ → Option ℕ
strlen fuel m str = strlen_loop fuel m str 0

unfoldable pub strcmp : ℕ → Mem → ℕ → ℕ → Option ℤ
strcmp zero m str1 str2 = none
strcmp (suc fuel) m str1 str2 =
    let rest = strcmp fuel m (str1 + 1) (str2 + 1) in
    if not (m str1 == 0) && (m str1 == m str2) then rest else some (sub_ℕ (m str1) (m str2))

-- The value of a `char`, counted from -128.
abbrev pub biased : ℕ → ℕ
biased c = (c + 128) % 256

unfoldable pub strcmp_case_insensitive : ℕ → Mem → ℕ → ℕ → Option ℤ
strcmp_case_insensitive zero m str1 str2 = none
strcmp_case_insensitive (suc fuel) m str1 str2 =
    let rest = strcmp_case_insensitive fuel m (str1 + 1) (str2 + 1) in
    if not (m str1 == 0) && (not (m str2 == 0) && (toupper (m str1) == toupper (m str2)))
    then rest
    else some (sub_ℕ (biased (toupper (m str1))) (biased (toupper (m str2))))

unfoldable pub strncmp : Mem → ℕ → ℕ → ℕ → ℤ
strncmp m str1 str2 zero = pos 0
strncmp m str1 str2 (suc n) =
    let rest = strncmp m (str1 + 1) (str2 + 1) n in
    if not (m str1 == m str2) then sub_ℕ (m str1) (m str2) else if m str1 == 0 then pos 0 else rest

-- `while((*d++ = *src++));`
unfoldable pub copy_string : ℕ → Mem → ℕ → ℕ → Option Mem
copy_string zero m d src = none
copy_string (suc fuel) m d src =
    let c = m src in
    let m₁ = store m d c in
    let rest = copy_string fuel m₁ (d + 1) (src + 1) in if c == 0 then some m₁ else rest

unfoldable pub strcpy : ℕ → Mem → ℕ → ℕ → Option Mem
strcpy fuel m dst src = copy_string fuel m dst src

unfoldable pub strcat : ℕ → Mem → ℕ → ℕ → Option Mem
strcat fuel m dst src = do len ← strlen_loop fuel m dst 0; copy_string fuel m (dst + len) src

-- The rounds left, and the index `i`.
unfoldable pub swap_loop : Mem → ℕ → ℕ → ℕ → ℕ → Mem
swap_loop m str len zero i = m
swap_loop m str len (suc rounds) i =
    let temp = m (str + i) in
    let m₁ = store m (str + i) (m (str + (len - i - 1))) in
    swap_loop (store m₁ (str + (len - i - 1)) temp) str len rounds (i + 1)

unfoldable pub strrev : ℕ → Mem → ℕ → Option Mem
strrev fuel m str = do len ← strlen fuel m str; some (swap_loop m str len (len / 2) 0)
