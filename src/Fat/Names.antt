-- ===== src/Fat/Names.antt =====
-- The short names of kernel/src/filesystem/fat32.c: is_valid_sfn, the generation of a short name in
-- fat32_add_entry, process_sfn_entry and gen_checksum. A name is the list of its characters, without the
-- NUL; the 11 characters of an entry are a list of 11.
pub mod Valid
pub mod RoundTrip
use kerosene.Base.{
  ℕ, zero, suc, ◌+◌, ◌-◌, ◌/◌, ◌%◌, Bool, true, false, not, ◌&&◌, ◌||◌, Option, none, some, List,
  [], ◌∷◌, ◌++◌, map, length, take, drop, get_or, set, replicate, ◌==◌, ltb, leb, if◌then◌else◌,
}

abbrev pub is_lower : ℕ → Bool
is_lower c = leb b'a' c && leb c b'z'

-- Spaces and special characters.
abbrev pub is_special : ℕ → Bool
is_special c =
    (c == b' ')
    || ((c == b'+')
        || ((c == b',') || ((c == b';') || ((c == b'=') || ((c == b'[') || (c == b']'))))))

abbrev pub is_some : Option ℕ → Bool
is_some none = false
is_some (some n) = true

-- `for(int i = 0; i < len; i++)`: dot_pos, which is `none` for -1; `none` for `return false`.
unfoldable pub sfn_loop : List ℕ → ℕ → Option ℕ → Option (Option ℕ)
sfn_loop [] i dot_pos = some dot_pos
sfn_loop (c ∷ cs) i dot_pos =
    let rest = sfn_loop cs (i + 1) (if c == b'.' then some i else dot_pos) in
    if is_lower c || is_special c
    then none
    else if (c == b'.') && is_some dot_pos
    then none
    else rest

abbrev fits_sfn : ℕ → Option (Option ℕ) → Bool
fits_sfn len none = false
fits_sfn len (some none) = leb len 8
fits_sfn len (some (some dot_pos)) =
    leb dot_pos 8 && (leb (len - dot_pos - 1) 3 && not (dot_pos == 0))

unfoldable pub is_valid_sfn : List ℕ → Bool
is_valid_sfn name =
    let len = length name in
    if (len == 0) || ltb 12 len then false else fits_sfn len (sfn_loop name 0 none)

-- `for(dot_pos = namelen-1; dot_pos > 0; dot_pos--)`
unfoldable pub dot_loop : List ℕ → ℕ → ℕ
dot_loop name zero = 0
dot_loop name (suc p) =
    let rest = dot_loop name p in if get_or name (suc p) 0 == b'.' then suc p else rest

-- The first `n` characters that are not skipped.
unfoldable pub fill : (ℕ → Bool) → List ℕ → ℕ → List ℕ
fill skips [] n = []
fill skips (c ∷ cs) n =
    let rest = fill skips cs (if skips c then n else n - 1) in
    if n == 0 then [] else if skips c then rest else c ∷ rest

abbrev pub pad : ℕ → List ℕ → List ℕ
pad n cs = cs ++ replicate (n - length cs) b' '

abbrev pub uppercase : ℕ → ℕ
uppercase c = if leb 0x61 c && leb c 0x7a then c - 0x20 else c

-- The short name of an entry that is neither `.` nor `..`.
unfoldable pub short_name : Bool → List ℕ → List ℕ
short_name isdir name =
    let namelen = length name in
    let dot_pos = dot_loop name (namelen - 1) in
    let has_extension = ltb 0 dot_pos && not isdir in
    let extension = if has_extension then fill is_special (drop (dot_pos + 1) name) 3 else [] in
    let base =
      fill (λ (c : ℕ). (c == b'.') || is_special c)
        (if has_extension then take dot_pos name else name) 8 in
    let shortname = pad 8 base ++ pad 3 extension in
    map uppercase (
      if ltb 8 dot_pos || (isdir && ltb 8 namelen)
      then set (set shortname 6 b'~') 7 b'1'
      else shortname)

-- The characters before the first space.
unfoldable pub before_space : List ℕ → List ℕ
before_space [] = []
before_space (c ∷ cs) = let rest = before_space cs in if not (c == b' ') then c ∷ rest else []

unfoldable pub process_sfn_entry : List ℕ → List ℕ
process_sfn_entry name =
    let base = before_space (take 8 name) in
    if not (get_or name 8 b' ' == b' ') then base ++ b'.' ∷ before_space (drop 8 name) else base

-- `sum` is a byte; the characters come one after the other.
unfoldable pub checksum_loop : ℕ → List ℕ → ℕ
checksum_loop sum [] = sum
checksum_loop sum (c ∷ cs) =
    checksum_loop (((if sum % 2 == 0 then 0 else 0x80) + sum / 2 + c) % 256) cs

unfoldable pub gen_checksum : List ℕ → ℕ
gen_checksum shortname = checksum_loop 0 shortname
