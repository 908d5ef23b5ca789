-- ===== src/Tests/Pages.antt =====
-- A memory of 40 frames, of which the first 33 and frame 35 are in use.
use kerosene.Base.{◌≡◌, refl, ◌&&◌, ◌||◌, some, arith, ◌==◌}
use kerosene.Frames.{Frames, run_length, scan_runs, find_first_free, alloc_multi_block}
use kerosene.Frames.Count.{count}
use kerosene.Frames.Block.{IsValid}
use kerosene.Frames.Blocks.{AllocatedRun, alloc_multi_block-AllocatedRun}

abbrev frames : Frames
frames = record {
  bitmap = λ i j. (i == 0) || ((i == 1) && ((j == 0) || (j == 3)));
  used_block = 34;
  total_block = 40;
}

frames-IsValid : IsValid frames
unfolding count
frames-IsValid = record { counted = refl; small = omega arith; low_used = refl }

third : find_first_free frames 3 ≡ some 36
unfolding find_first_free scan_runs run_length
third = refl

alloc_multi_block-AllocatedRun_example : AllocatedRun frames 3 (alloc_multi_block frames 3)
alloc_multi_block-AllocatedRun_example =
    alloc_multi_block-AllocatedRun frames 3 frames-IsValid (omega arith) (omega arith)
