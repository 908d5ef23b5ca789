-- ===== src/Frames.antt =====
-- kernel/src/mem/pmmngr.c: the physical memory manager, a bitmap with one bit for each page frame.
-- A 32-bit word of the bitmap is its bits: `bitmap i j` is bit j of `bitmap[i]`, true for a frame in
-- use; the array of the source has 24576 words, enough for 3 GiB, and is unbounded here. The functions
-- that return -1 for "none" return an option. The kernel is single-threaded here.
pub mod Search
pub mod Count
pub mod Block
pub mod Runs
pub mod Blocks
pub mod Boot
use kerosene.Base.{
  ℕ, zero, suc, ◌+◌, ◌-◌, ◌*◌, ◌/◌, ◌%◌, Bool, true, false, not, ◌&&◌, Option, none, some, ◌==◌,
  ltb, leb, if◌then◌else◌,
}
use kerosene.Base.Words.{u32, add32, sub32, mul32}

abbrev pub page_size : ℕ
page_size = 4096

abbrev pub Word : Type 0
Word = ℕ → Bool

abbrev pub Bitmap : Type 0
Bitmap = ℕ → Word

pub record Frames : Type 0 where
  pub bitmap : Bitmap
  pub used_block : ℕ
  pub total_block : ℕ

abbrev pub write_bit : Bool → Bitmap → ℕ → Bitmap
write_bit v b bit i j = if (i == bit / 32) && (j == bit % 32) then v else b i j

abbrev pub set_bit : Bitmap → ℕ → Bitmap
set_bit = write_bit true

abbrev pub unset_bit : Bitmap → ℕ → Bitmap
unset_bit = write_bit false

abbrev pub test_bit : Bitmap → ℕ → Bool
test_bit b bit = b (bit / 32) (bit % 32)

-- `word == 0xffffffff`, on the lowest `n` bits
abbrev pub all_set : ℕ → Word → Bool
all_set zero w = true
all_set (suc n) w = w n && all_set n w

unfoldable pub is_full : Word → Bool
is_full = all_set 32

-- How the loop over the bits of one word ends.
pub data Scan : Type 0 where
  next : Scan
  past_end : Scan
  found : ℕ → Scan

-- The rounds left, and the bit `j` to look at.
unfoldable pub scan_bits : ℕ → Word → ℕ → ℕ → ℕ → Scan
scan_bits total w i zero j = next
scan_bits total w i (suc rounds) j =
    if leb total (i * 32 + j)
    then past_end
    else if not (w j)
    then found (i * 32 + j)
    else scan_bits total w i rounds (j + 1)

-- The words left, and the word `i` to look at.
unfoldable pub scan_words : ℕ → Bitmap → ℕ → ℕ → Option ℕ
scan_words total b zero i = none
scan_words total b (suc words) i =
    let rest = scan_words total b words (i + 1) in
    if is_full (b i)
    then rest
    else elim (scan_bits total (b i) i 32 0) [ next ↦ rest | past_end ↦ none | found n ↦ some n ]

abbrev pub num_chunks : Frames → ℕ
num_chunks f = (f.total_block + 31) / 32

unfoldable pub find_first_free_block : Frames → Option ℕ
find_first_free_block f = scan_words f.total_block f.bitmap (num_chunks f) 0

-- `for(; k < frame_cnt; k++) if(test_bit(i + k)) break;`: the final k.
unfoldable pub run_length : Bitmap → ℕ → ℕ → ℕ → ℕ
run_length b i zero k = k
run_length b i (suc rounds) k =
    let rest = run_length b i rounds (k + 1) in if test_bit b (i + k) then k else rest

-- The loop over start frames up to `last`; `fuel` rounds suffice where `last < i + fuel`.
unfoldable pub scan_runs : ℕ → Bitmap → ℕ → ℕ → ℕ → Option ℕ
scan_runs zero b frame_cnt last i = none
scan_runs (suc fuel) b frame_cnt last i =
    let k = run_length b i (frame_cnt - 1) 1 in
    let advance = scan_runs fuel b frame_cnt last (i + 1) in
    let skip = scan_runs fuel b frame_cnt last (i + k + 1) in
    if ltb last i
    then none
    else if test_bit b i
    then advance
    else if k == frame_cnt
    then some i
    else skip

unfoldable pub find_first_free : Frames → ℕ → Option ℕ
find_first_free f frame_cnt =
    if frame_cnt == 0
    then none
    else if frame_cnt == 1
    then find_first_free_block f
    else if ltb f.total_block frame_cnt
    then none
    else scan_runs (f.total_block + 1) f.bitmap frame_cnt (f.total_block - frame_cnt) 0

-- The set bits of one word that stand for frames below `total`.
unfoldable pub count_bits : ℕ → Word → ℕ → ℕ → ℕ → ℕ
count_bits total w i zero j = 0
count_bits total w i (suc rounds) j =
    let rest = count_bits total w i rounds (j + 1) in
    if leb total (i * 32 + j) then 0 else if w j then 1 + rest else rest

-- The bits of the last, perhaps partial, word.
abbrev pub bits_in_last : ℕ → ℕ
bits_in_last total = if total % 32 == 0 then 32 else total % 32

-- What word `i` adds, with `words` words behind it.
unfoldable pub count_word : ℕ → Word → ℕ → ℕ → ℕ
count_word total w words i =
    if is_full w && ((if words == 0 then bits_in_last total else 32) == 32)
    then 32
    else count_bits total w i 32 0

unfoldable pub count_words : ℕ → Bitmap → ℕ → ℕ → ℕ
count_words total b zero i = 0
count_words total b (suc words) i =
    count_word total (b i) words i + count_words total b words (i + 1)

unfoldable pub update_usage : Frames → Frames
update_usage f = record f { used_block = count_words f.total_block f.bitmap (num_chunks f) 0 % u32 }

abbrev pub get_size : Frames → ℕ
get_size f = mul32 f.total_block page_size

abbrev pub get_used_size : Frames → ℕ
get_used_size f = mul32 f.used_block page_size

abbrev pub get_free_size : Frames → ℕ
get_free_size f = mul32 (sub32 f.total_block f.used_block) page_size

-- `for(; block > 0; block--) write(start++)`
unfoldable pub write_bits : Bool → ℕ → ℕ → Bitmap → Bitmap
write_bits v zero start b = b
write_bits v (suc block) start b = write_bits v block (start + 1) (write_bit v b start)

unfoldable pub init_region : Frames → ℕ → ℕ → Frames
init_region f base size = record f {
  bitmap = set_bit (write_bits false (size / page_size) (base / page_size) f.bitmap) 0;
}

unfoldable pub deinit_region : Frames → ℕ → ℕ → Frames
deinit_region f base size = record f {
  bitmap = write_bits true (size / page_size) (base / page_size) f.bitmap;
}

-- The address of the block, 0 for none.
unfoldable pub alloc_block : Frames → ℕ × Frames
alloc_block f = if f.total_block == f.used_block then (0, f) else elim (find_first_free_block f) [
  | none ↦ (0, f)
  | some frame ↦ (
    mul32 frame page_size,
    record f { bitmap = set_bit f.bitmap frame; used_block = add32 f.used_block 1 },
  )
]

unfoldable pub alloc_multi_block : Frames → ℕ → ℕ × Frames
alloc_multi_block f cnt =
    if ltb f.total_block (add32 f.used_block cnt) then (0, f) else elim (find_first_free f cnt) [
      | none ↦ (0, f)
      | some frame ↦ (
        mul32 frame page_size,
        record f {
          bitmap = write_bits true cnt frame f.bitmap;
          used_block = add32 f.used_block cnt;
        },
      )
    ]

unfoldable pub free_frame : Frames → ℕ → Frames
free_frame f frame =
    if test_bit f.bitmap frame
    then record f { bitmap = unset_bit f.bitmap frame; used_block = sub32 f.used_block 1 }
    else f

unfoldable pub free_block : Frames → ℕ → Frames
unfolding free_frame
free_block f addr = if addr / page_size == 0 then f else free_frame f (addr / page_size)

-- The rounds left, and the frame to free.
unfoldable pub free_frames : ℕ → Frames → ℕ → Frames
free_frames zero f frame = f
free_frames (suc rounds) f frame =
    let rest = free_frames rounds (free_frame f frame) (frame + 1) in
    if leb f.total_block frame then f else rest

unfoldable pub free_multi_block : Frames → ℕ → ℕ → Frames
unfolding free_frames free_frame
free_multi_block f addr cnt =
    if addr / page_size == 0 then f else free_frames cnt f (addr / page_size)

-- Every frame is in use at the start.
unfoldable pub init : ℕ → Frames
init size = record {
  bitmap = λ i j. true;
  used_block = size / page_size;
  total_block = size / page_size;
}
