-- ===== src/Frames/Blocks.antt =====
-- pmmngr_alloc_multi_block: a run of frames is taken as a whole.
use kerosene.Base.{
  ℕ, zero, suc, ◌+◌, ◌*◌, ◌<◌, ◌≤◌, ◌≡◌, refl, sym, ◌∙◌, ◌≢◌, ◌⊎◌, ap, Bool, Bool-cases, true,
  Option-cases, some, inl, inr, ◌&&◌, arith, ltb, leb, if◌then◌else◌,
}
use kerosene.Base.Words.{u32, add32, mul32}
use kerosene.Frames.{
  Frames, Bitmap, page_size, test_bit, write_bit, find_first_free, write_bits, alloc_multi_block,
}
use kerosene.Frames.Count.{weight, count, test_bit-write_bit, count-le, count-write_bit}
use kerosene.Frames.Block.{IsValid}
use kerosene.Frames.Runs.{AllFree, FirstRun, find_first_free-FirstRun}

pub test_bit-write_bits :
    (v : Bool) (n s : ℕ) (b : Bitmap) (m : ℕ)
    → test_bit (write_bits v n s b) m ≡ (if leb s m && ltb m (s + n) then v else test_bit b m)
unfolding write_bits
test_bit-write_bits v zero s b m = ground arith
test_bit-write_bits v (suc n) s b m =
    rw (test_bit-write_bits v n (s + 1) (write_bit v b s) m, test_bit-write_bit v b s m)
      (ground arith)

count-write_bits :
    (total n s : ℕ) (b : Bitmap)
    → AllFree b s (s + n)
    → s + n ≤ total
    → count (write_bits true n s b) total ≡ count b total + n
unfolding write_bits
count-write_bits total zero s b free h = omega arith
count-write_bits total (suc n) s b free h =
    let step : count (write_bit true b s) total + weight (test_bit b s) ≡ count b total + 1 =
      count-write_bit true b s total (omega arith) in
    let flat : count (write_bit true b s) total + 0 ≡ count b total + 1 =
      rw (free s (omega arith) (omega arith)) at step in
    let rest =
      count-write_bits total n (s + 1) (write_bit true b s)
        (λ m above below.
          test_bit-write_bit true b s m ∙ ground (arith, free m (omega arith) (omega arith)))
        (omega arith) in
    omega (arith, flat, rest)

abbrev pub taken_run : Frames → ℕ → ℕ → Frames
taken_run f n cnt = record f {
  bitmap = write_bits true cnt n f.bitmap;
  used_block = f.used_block + cnt;
}

taken_run-IsValid :
    (f : Frames) (n cnt : ℕ)
    → IsValid f
    → n + cnt ≤ f.total_block
    → AllFree f.bitmap n (n + cnt)
    → IsValid (taken_run f n cnt)
taken_run-IsValid f n cnt v inside free = record {
  counted = omega (arith, v.counted, count-write_bits f.total_block cnt n f.bitmap free inside);
  small = v.small;
  low_used = rw (test_bit-write_bits true cnt n f.bitmap 0) (ground (arith, v.low_used));
}

-- What an allocation of `cnt` blocks in a row yields.
abbrev pub AllocatedRun : Frames → ℕ → ℕ × Frames → Type 0
AllocatedRun f cnt r =
    ((r ≡ (0, f)) × ((s : ℕ) → s + cnt ≤ f.total_block → ¬ AllFree f.bitmap s (s + cnt)))
    ⊎ ((n : ℕ) × (n + cnt ≤ f.total_block)
        × AllFree f.bitmap n (n + cnt)
        × (n ≢ 0)
        × (r ≡ (n * page_size, taken_run f n cnt))
        × IsValid (taken_run f n cnt))

-- Allocating `cnt` blocks fails, with nothing changed, only if there is no run of `cnt` free frames.
-- Otherwise it takes such a run, which does not start at frame 0, returns the address of its first
-- frame, marks exactly its frames and keeps the count right.
pub alloc_multi_block-AllocatedRun :
    (f : Frames) (cnt : ℕ)
    → IsValid f
    → 0 < cnt
    → cnt < u32
    → AllocatedRun f cnt (alloc_multi_block f cnt)
unfolding alloc_multi_block
alloc_multi_block-AllocatedRun f cnt v pos word =
    let search = find_first_free-FirstRun f cnt pos in
    let le : count f.bitmap f.total_block ≤ f.total_block = count-le f.bitmap f.total_block in
    elim (Bool-cases (ltb f.total_block (add32 f.used_block cnt))) [
      | inl full ↦ rw full (
          inl (
            refl,
            λ s h free.
                let room = count-write_bits f.total_block cnt s f.bitmap free h in
                absurd (
                  ground (
                    arith,
                    room,
                    count-le (write_bits true cnt s f.bitmap) f.total_block,
                    v.counted,
                    v.small,
                  )),
          ))
      | inr fits ↦ rw fits (elim (Option-cases (find_first_free f cnt)) [
        | inl e ↦ rw e (inl (refl, rw e at search))
        | inr (n, e) ↦
            let s : FirstRun f.total_block f.bitmap cnt (some n) = rw e at search in
            let ne : n ≢ 0 = λ z. cc (
              sym v.low_used
              ∙ ap (test_bit f.bitmap) (sym z)
              ∙ s.1 n (omega arith) (omega arith)) in
            let address : mul32 n page_size ≡ n * page_size = omega (arith, s.0, v.small) in
            let counted : add32 f.used_block cnt ≡ f.used_block + cnt =
              omega (arith, v.counted, v.small, s.0, le) in
            rw (e, address, counted)
              (inr (n, s.0, s.1, ne, refl, taken_run-IsValid f n cnt v s.0 s.1))
      ])
    ]
