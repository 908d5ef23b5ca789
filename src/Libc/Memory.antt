-- ===== src/Libc/Memory.antt =====
-- libc/src/string/memset.c, memcpy.c, memmove.c and memcmp.c over a memory of bytes. A pointer is an
-- address, and no object reaches past the end of the address space.
pub mod Copy
use kerosene.Base.{ℕ, zero, suc, ◌+◌, ◌%◌, Bool, ◌==◌, ltb, if◌then◌else◌}
use kerosene.Base.Int.{ℤ, pos, negsuc}

abbrev pub Mem : Type 0
Mem = ℕ → ℕ

unfoldable pub store : Mem → ℕ → ℕ → Mem
store m p v a = if a == p then v else m a

-- The rounds left, and the index.
unfoldable pub set_loop : Mem → ℕ → ℕ → ℕ → ℕ → Mem
set_loop m buf value zero i = m
set_loop m buf value (suc rounds) i =
    set_loop (store m (buf + i) (value % 256)) buf value rounds (i + 1)

unfoldable pub memset : Mem → ℕ → ℕ → ℕ → Mem
memset m buf value size = set_loop m buf value size 0

-- `for(size_t i = 0; i < size; i++) dst[i] = src[i];`
unfoldable pub copy_up : Mem → ℕ → ℕ → ℕ → ℕ → Mem
copy_up m dst src zero i = m
copy_up m dst src (suc rounds) i = copy_up (store m (dst + i) (m (src + i))) dst src rounds (i + 1)

-- `for(size_t i = size; i != 0; i--) dst[i-1] = src[i-1];`
unfoldable pub copy_down : Mem → ℕ → ℕ → ℕ → Mem
copy_down m dst src zero = m
copy_down m dst src (suc i) = copy_down (store m (dst + i) (m (src + i))) dst src i

unfoldable pub memcpy : Mem → ℕ → ℕ → ℕ → Mem
memcpy m dst src size = copy_up m dst src size 0

unfoldable pub memmove : Mem → ℕ → ℕ → ℕ → Mem
memmove m dst src size = if ltb dst src then copy_up m dst src size 0 else copy_down m dst src size

unfoldable pub compare_loop : Mem → ℕ → ℕ → ℕ → ℕ → ℤ
compare_loop m a b zero i = pos 0
compare_loop m a b (suc rounds) i =
    let rest = compare_loop m a b rounds (i + 1) in
    if ltb (m (a + i)) (m (b + i))
    then negsuc 0
    else if ltb (m (b + i)) (m (a + i))
    then pos 1
    else rest

unfoldable pub memcmp : Mem → ℕ → ℕ → ℕ → ℤ
memcmp m a b size = compare_loop m a b size 0
