-- ===== src/Kutils.antt =====
-- kernel/src/kutils.c: whether a system call may follow an address that a process gave it. Only the
-- processes in user mode are checked; `m` is the memory that they see.
pub mod Valid
use kerosene.Base.{
  ℕ, zero, suc, ◌+◌, ◌-◌, ◌%◌, ◌^◌, Bool, true, false, not, ◌&&◌, ◌==◌, ltb, leb, if◌then◌else◌,
}
use kerosene.Base.Words.{u32, add32}
use kerosene.Process.{null}
use kerosene.Libc.Memory.{Mem}

-- KERNEL_START of example.env
abbrev pub kernel_start : ℕ
kernel_start = 3221225472

unfoldable pub validate_user_buffer : Bool → ℕ → ℕ → Bool
validate_user_buffer is_user buf size =
    let end = add32 buf size in
    if not is_user
    then true
    else if ltb end buf
    then false
    else if ltb kernel_start end
    then false
    else true

-- The rounds left before `p` reaches the kernel.
unfoldable pub string_loop : Mem → ℕ → ℕ → Bool
string_loop m zero p = false
string_loop m (suc rounds) p =
    let rest = string_loop m rounds (p + 1) in if m p == 0 then true else rest

unfoldable pub validate_user_string : Bool → Mem → ℕ → Bool
validate_user_string is_user m str =
    if not is_user
    then true
    else if leb kernel_start str
    then false
    else string_loop m (kernel_start - str) str

-- The rounds left, and the index `i`.
unfoldable pub double_null_loop : Bool → Mem → ℕ → ℕ → ℕ → Bool
double_null_loop is_user m str zero i = true
double_null_loop is_user m str (suc rounds) i =
    let rest = double_null_loop is_user m str rounds (i + 1) in
    if not (validate_user_buffer is_user (add32 str i) 1)
    then false
    else if ltb 0 i && ((m (add32 str i) == 0) && (m (add32 str (i - 1)) == 0))
    then true
    else rest

unfoldable pub validate_user_double_null : Bool → Mem → ℕ → ℕ → Bool
validate_user_double_null is_user m str max_len =
    if str == null then true else double_null_loop is_user m str max_len 0
