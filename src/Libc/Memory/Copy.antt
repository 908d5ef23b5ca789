-- ===== src/Libc/Memory/Copy.antt =====
-- What the copying functions leave in memory, byte by byte.
use kerosene.Base.{
  ℕ, zero, suc, ◌+◌, ◌-◌, ◌%◌, ◌<◌, ◌≤◌, ◌≡◌, refl, ◌⊎◌, inl, inr, Bool, Bool-cases, ◌&&◌, arith,
  ◌==◌, ltb, leb, if◌then◌else◌,
}
use kerosene.Base.Int.{ℤ, pos, negsuc}
use kerosene.Libc.Memory.{
  Mem, store, set_loop, memset, copy_up, copy_down, memcpy, memmove, compare_loop, memcmp,
}

-- The address lies in the `n` bytes from `p` on.
abbrev pub within : ℕ → ℕ → ℕ → Bool
within p n a = leb p a && ltb a (p + n)

set_loop_lem :
    (n i : ℕ) (m : Mem) (buf value a : ℕ)
    → set_loop m buf value n i a ≡ (if within (buf + i) n a then value % 256 else m a)
unfolding set_loop store
set_loop_lem zero i m buf value a = ground arith
set_loop_lem (suc n) i m buf value a =
    ground (arith, set_loop_lem n (i + 1) (store m (buf + i) (value % 256)) buf value a)

-- memset writes the low byte of the value into each byte of the buffer, and nothing else.
pub memset_lem :
    (m : Mem) (buf value size a : ℕ)
    → memset m buf value size a ≡ (if within buf size a then value % 256 else m a)
unfolding memset
memset_lem m buf value size a = ground (arith, set_loop_lem size 0 m buf value a)

copy_up_lem :
    (n i : ℕ) (m : Mem) (dst src a : ℕ)
    → (dst ≤ src) ⊎ (src + (i + n) ≤ dst)
    → copy_up m dst src n i a ≡ (if within (dst + i) n a then m (src + (a - dst)) else m a)
unfolding copy_up store
copy_up_lem zero i m dst src a h = ground arith
copy_up_lem (suc n) i m dst src a h =
    ground (arith, copy_up_lem n (i + 1) (store m (dst + i) (m (src + i))) dst src a)

copy_down_lem :
    (n : ℕ) (m : Mem) (dst src a : ℕ)
    → src ≤ dst
    → copy_down m dst src n a ≡ (if within dst n a then m (src + (a - dst)) else m a)
unfolding copy_down store
copy_down_lem zero m dst src a h = ground arith
copy_down_lem (suc n) m dst src a h =
    ground (arith, copy_down_lem n (store m (dst + n) (m (src + n))) dst src a)

-- memmove leaves in the target what the source held before the call, however the two overlap, and
-- changes no other byte.
pub memmove_lem :
    (m : Mem) (dst src size a : ℕ)
    → memmove m dst src size a ≡ (if within dst size a then m (src + (a - dst)) else m a)
unfolding memmove
memmove_lem m dst src size a = elim (Bool-cases (ltb dst src)) [
  | inl up ↦ ground (arith, copy_up_lem size 0 m dst src a (inl (ground arith)))
  | inr down ↦ ground (arith, copy_down_lem size m dst src a)
]

-- memcpy agrees with memmove where the target does not begin inside the source.
pub memcpy-memmove :
    (m : Mem) (dst src size a : ℕ)
    → (dst ≤ src) ⊎ (src + size ≤ dst)
    → memcpy m dst src size a ≡ memmove m dst src size a
unfolding memcpy
memcpy-memmove m dst src size a h =
    ground (arith, copy_up_lem size 0 m dst src a, memmove_lem m dst src size a)

-- The two areas hold the same bytes.
abbrev pub SameBytes : Mem → ℕ → ℕ → ℕ → Type 0
SameBytes m a b size = (k : ℕ) → k < size → m (a + k) ≡ m (b + k)

-- How a comparison ends: with 0 over equal bytes, else by the first byte that differs.
abbrev pub Compared : Mem → ℕ → ℕ → ℕ → ℤ → Type 0
Compared m a b size r =
    ((r ≡ pos 0) × SameBytes m a b size)
    ⊎ ((k : ℕ) × (k < size)
        × SameBytes m a b k
        × (((r ≡ negsuc 0) × (m (a + k) < m (b + k))) ⊎ ((r ≡ pos 1) × (m (b + k) < m (a + k)))))

compare_loop-Compared :
    (n i : ℕ) (m : Mem) (a b : ℕ)
    → SameBytes m a b i
    → Compared m a b (i + n) (compare_loop m a b n i)
unfolding compare_loop
compare_loop-Compared zero i m a b same = inl (refl, λ k h. same k (omega arith))
compare_loop-Compared (suc n) i m a b same = elim (Bool-cases (ltb (m (a + i)) (m (b + i)))) [
  | inl less ↦ rw less (inr (i, omega arith, same, inl (refl, ground arith)))
  | inr not_less ↦ rw not_less (elim (Bool-cases (ltb (m (b + i)) (m (a + i)))) [
    | inl more ↦ rw more (inr (i, omega arith, same, inr (refl, ground arith)))
    | inr not_more ↦
        let e : i + 1 + n ≡ i + suc n = omega arith in
        rw (not_more, ← e)
          (compare_loop-Compared n (i + 1) m a b (λ k h. elim (Bool-cases (k == i)) [
            | inl at ↦ let same_k : k ≡ i = ground arith in rw same_k (ground arith)
            | inr before ↦ same k (ground arith)
          ]))
  ])
]

-- memcmp yields 0 exactly over equal areas, and otherwise -1 or 1 by the first byte that differs,
-- compared without sign.
pub memcmp-Compared : (m : Mem) (a b size : ℕ) → Compared m a b size (memcmp m a b size)
unfolding memcmp
memcmp-Compared m a b size =
    let e : 0 + size ≡ size = omega arith in
    rw e at (compare_loop-Compared size 0 m a b (λ k h. absurd (omega arith)))
