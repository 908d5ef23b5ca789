-- ===== src/Libc/Tokens.antt =====
-- strtok_r of libc/src/string. A loop over a string runs on fuel (`none`: out of fuel).
pub mod Split
pub mod Again
use kerosene.Base.{
  ℕ, zero, suc, ◌+◌, Bool, true, false, not, ◌&&◌, ◌||◌, Option, none, some, ◌==◌, if◌then◌else◌,
  ◌>>=◌,
}
use kerosene.Process.{null}
use kerosene.Libc.Memory.{Mem, store}

-- `for(int i = 0; delimiters[i] != '\0'; i++)`: whether `c` is one of them.
unfoldable pub is_delimiter : ℕ → Mem → ℕ → ℕ → Option Bool
is_delimiter zero m delimiters c = none
is_delimiter (suc fuel) m delimiters c =
    let rest = is_delimiter fuel m (delimiters + 1) c in
    if m delimiters == 0 then some false else if c == m delimiters then some true else rest

-- The first loop: the token behind its leading delimiters.
unfoldable pub skip_leading : ℕ → ℕ → Mem → ℕ → ℕ → Option ℕ
skip_leading inner zero m delimiters token = none
skip_leading inner (suc fuel) m delimiters token =
    let rest = skip_leading inner fuel m delimiters (token + 1) in
    let next = (do
      delimiters_exist ← is_delimiter inner m delimiters (m token)
      if delimiters_exist then rest else some token) in
    if m token == 0 then some token else next

-- The second loop: the address of the first delimiter from `p` on, or of the NUL.
unfoldable pub find_end : ℕ → ℕ → Mem → ℕ → ℕ → Option ℕ
find_end inner zero m delimiters p = none
find_end inner (suc fuel) m delimiters p =
    let rest = find_end inner fuel m delimiters (p + 1) in
    let next = (do found ← is_delimiter inner m delimiters (m p); if found then some p else rest) in
    if m p == 0 then some p else next

-- The memory, *token_ptr and tok_start.
unfoldable pub strtok_r : ℕ → Mem → ℕ → ℕ → ℕ → Option (Mem × ℕ × ℕ)
strtok_r fuel m str delimiters token_ptr =
    let token = if not (str == null) then str else token_ptr in
    let cut = (do
      start ← skip_leading fuel fuel m delimiters token
      end ← find_end fuel fuel m delimiters start
      some (
          if m start == 0
          then (m, start, null)
          else if m end == 0
          then (m, end, start)
          else (store m end 0, end + 1, start))) in
    if (str == null) && ((token_ptr == null) || (m token_ptr == 0))
    then some (m, token_ptr, null)
    else cut
