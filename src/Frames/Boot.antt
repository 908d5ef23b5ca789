-- ===== src/Frames/Boot.antt =====
-- pmmngr_init_region with pmmngr_update_usage, which end the start of the kernel, and
-- pmmngr_free_multi_block: the count stays right.
use kerosene.Base.{
  ℕ, zero, suc, ◌+◌, ◌*◌, ◌/◌, ◌<◌, ◌≤◌, ◌≡◌, ◌≢◌, Bool-cases, true, false, inl, inr, arith, ◌==◌,
  leb,
}
use kerosene.Frames.{
  page_size, Frames, write_bits, update_usage, init_region, free_block, free_frame, free_frames,
  free_multi_block,
}
use kerosene.Frames.Count.{test_bit-write_bit, update_usage-count}
use kerosene.Frames.Block.{IsValid, free_block-IsValid}

-- Once a region of memory is marked as free and the frames in use are counted, the count is right and
-- frame 0 is in use, whatever the frames were before and whatever the region is.
pub update_usage-IsValid :
    (f : Frames) (base size : ℕ)
    → f.total_block ≤ 24576 * 32
    → IsValid (update_usage (init_region f base size))
unfolding update_usage init_region
update_usage-IsValid f base size small = record {
  counted = update_usage-count (init_region f base size) (omega arith);
  small = small;
  low_used =
      test_bit-write_bit true (write_bits false (size / page_size) (base / page_size) f.bitmap) 0 0;
}

free_frame-IsValid :
    (f : Frames) (n : ℕ) → IsValid f → n ≢ 0 → n < f.total_block → IsValid (free_frame f n)
unfolding free_block free_frame
free_frame-IsValid f n v ne h =
    let same : n * page_size / page_size ≡ n = omega arith in
    let high : (n == 0) ≡ false = ground arith in
    let inside : n * page_size / page_size < f.total_block = rw same h in
    let freed : IsValid (free_block f (n * page_size)) =
      free_block-IsValid f (n * page_size) v inside in
    rw (same, high) at freed

total_block-free_frame : (f : Frames) (n : ℕ) → (free_frame f n).total_block ≡ f.total_block
unfolding free_frame
total_block-free_frame f n = ground arith

free_frames-IsValid :
    (rounds : ℕ) (f : Frames) (n : ℕ) → IsValid f → n ≢ 0 → IsValid (free_frames rounds f n)
unfolding free_frames
free_frames-IsValid zero f n v ne = v
free_frames-IsValid (suc rounds) f n v ne = elim (Bool-cases (leb f.total_block n)) [
  | inl past ↦ rw past v
  | inr below ↦ rw below (
      free_frames-IsValid rounds (free_frame f n) (n + 1)
        (free_frame-IsValid f n v ne (ground arith)) (omega arith))
]

-- Freeing any number of frames from any address on keeps the count right and frame 0 in use.
pub free_multi_block-IsValid :
    (f : Frames) (addr cnt : ℕ) → IsValid f → IsValid (free_multi_block f addr cnt)
unfolding free_multi_block
free_multi_block-IsValid f addr cnt v = elim (Bool-cases (addr / page_size == 0)) [
  | inl low ↦ rw low v
  | inr high ↦ rw high (free_frames-IsValid cnt f (addr / page_size) v (ground arith))
]
