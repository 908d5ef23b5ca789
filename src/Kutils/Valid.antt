-- ===== src/Kutils/Valid.antt =====
-- What the checks of user addresses accept.
use kerosene.Base.{
  ℕ, zero, suc, ◌+◌, ◌-◌, ◌<◌, ◌≤◌, ◌≡◌, ◌∙◌, ap, inl, inr, ◌↔◌, Bool-cases, true, arith, ◌==◌, leb,
}
use kerosene.Base.Words.{u32}
use kerosene.Libc.Memory.{Mem}
use kerosene.Kutils.{kernel_start, validate_user_buffer, string_loop, validate_user_string}

-- Of a process in user mode, a buffer is accepted exactly if it ends, without wrapping around the address
-- space, below the kernel.
pub validate_user_buffer-end :
    (buf size : ℕ)
    → buf < u32
    → size < u32
    → (validate_user_buffer true buf size ≡ true) ↔ (buf + size ≤ kernel_start)
unfolding validate_user_buffer
validate_user_buffer-end buf size hb hs = (λ e. ground arith, λ le. ground arith)

-- A NUL among the `n` bytes from `p` on.
abbrev pub HasNul : Mem → ℕ → ℕ → Type 0
HasNul m p n = (k : ℕ) × (k < n) × (m (p + k) ≡ 0)

HasNul-string_loop : (m : Mem) (n p : ℕ) → string_loop m n p ≡ true → HasNul m p n
unfolding string_loop
HasNul-string_loop m zero p e = ground arith
HasNul-string_loop m (suc n) p e = elim (Bool-cases (m p == 0)) [
  | inl end ↦ (0, omega arith, ground arith)
  | inr more ↦
      let (k, lt, nul) = HasNul-string_loop m n (p + 1) (rw more at e) in
      (k + 1, omega arith, ap m (omega arith) ∙ nul)
]

string_loop-HasNul : (m : Mem) (n p k : ℕ) → k < n → m (p + k) ≡ 0 → string_loop m n p ≡ true
unfolding string_loop
string_loop-HasNul m zero p k lt nul = ground arith
string_loop-HasNul m (suc n) p zero lt nul = ground arith
string_loop-HasNul m (suc n) p (suc k) lt nul =
    ground (arith, string_loop-HasNul m n (p + 1) k (omega arith) (ap m (omega arith) ∙ nul))

-- Of a process in user mode, a string is accepted exactly if it starts below the kernel and has its NUL
-- there.
pub validate_user_string-HasNul :
    (m : Mem) (str : ℕ)
    → (validate_user_string true m str ≡ true) ↔ HasNul m str (kernel_start - str)
unfolding validate_user_string
validate_user_string-HasNul m str = elim (Bool-cases (leb kernel_start str)) [
  | inl above ↦ rw above (
    λ e. ground arith,
    λ h. let le : kernel_start ≤ str = ground arith in absurd (omega (arith, h.1)),
  )
  | inr below ↦ rw below (
    HasNul-string_loop m (kernel_start - str) str,
    λ h. string_loop-HasNul m (kernel_start - str) str h.0 h.1 h.2,
  )
]
