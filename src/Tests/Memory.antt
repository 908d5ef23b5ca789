-- ===== src/Tests/Memory.antt =====
-- A heap at 1000 with three regions: 20 bytes in use, 100 free, and 50 in use.
use kerosene.Base.{ℕ, ◌+◌, ◌*◌, ◌≤◌, ◌<◌, refl, [], ◌∷◌, arith, ◌==◌, if◌then◌else◌}
use kerosene.Process.{Ptr}
use kerosene.Frames.{page_size}
use kerosene.Heap.{
  heap_free, heap_used, Header, Pages, Heap, expand, alloc, pages_needed, merge_next, merge_prev,
  merge, contract, free,
}
use kerosene.Heap.Merge.{IsTiled}
use kerosene.Heap.Free.{Freed, merge-Freed}
use kerosene.Heap.Shrink.{contract-IsTiled, free-overshoots}
use kerosene.Heap.Fit.{Fitted, alloc-Fitted}
use kerosene.Heap.Grow.{Reissued, alloc-Reissued}

-- Frames are handed out one after the other, and each page is mapped to the frame of its number.
abbrev counter : Pages ℕ
counter = record {
  alloc_multi_block = λ w count. (4096 * (w + 1), w + count);
  free_block = λ w addr. w;
  map = λ w phys virt flags. w;
  unmap = λ w virt. w;
  to_physical_addr = λ w virt. virt;
}

abbrev headers : Ptr → Header
headers a =
    if a == 1014
    then record { magic = heap_used; size = 20; prev = 0 }
    else if a == 1046
    then record { magic = heap_free; size = 100; prev = 1014 }
    else record { magic = heap_used; size = 50; prev = 1046 }

abbrev heap : Heap ℕ
heap = record {
  base = 1000;
  end = 1220;
  max_addr = 100000;
  min_size = 220;
  flags = 1;
  headers = headers;
  world = 0;
}

headers-IsTiled : IsTiled headers 1220 1014 (1014 ∷ 1046 ∷ 1158 ∷ [])
headers-IsTiled = record {
  regions = (refl, omega arith, (refl, omega arith, (refl, omega arith, refl)));
  linked = (refl, (refl, (refl, tt)));
}

alloc-Fitted_example : Fitted (alloc counter 4 heap 40) heap 40 1046 (1014 ∷ []) (1158 ∷ [])
alloc-Fitted_example =
    alloc-Fitted counter 4 heap 40 1046 (1014 ∷ []) (1158 ∷ []) headers-IsTiled (refl, tt) refl
      (omega arith) (omega arith)

alloc-Reissued_example : Reissued (alloc counter 4 heap 200) heap 1158
unfolding expand pages_needed
alloc-Reissued_example =
    alloc-Reissued counter 4 heap 200 1014 (1046 ∷ 1158 ∷ [])
      (refl, omega arith, (refl, omega arith, (refl, omega arith, refl))) (refl, (refl, (refl, tt)))
      refl refl (omega arith)

merge-Freed_example : Freed (merge headers 1220 1158) headers 1220 1014 1158 (1014 ∷ 1046 ∷ []) []
merge-Freed_example =
    merge-Freed headers 1220 1014 1158 (1014 ∷ 1046 ∷ []) [] headers-IsTiled (omega arith)
      (omega arith)

-- A heap of five pages with two regions in use, the last one of 8,000 bytes.
abbrev wide_headers : Ptr → Header
wide_headers a =
    if a == 4110
    then record { magic = heap_used; size = 12442; prev = 0 }
    else record { magic = heap_used; size = 8000; prev = 4110 }

abbrev wide_heap : Heap ℕ
wide_heap = record {
  base = 4096;
  end = 24576;
  max_addr = 100000;
  min_size = 4096;
  flags = 1;
  headers = wide_headers;
  world = 0;
}

contract-IsTiled_example :
    IsTiled
      (contract counter wide_heap 1 16564).headers
      (contract counter wide_heap 1 16564).end
      4110
      (4110 ∷ 16564 ∷ [])
    × (4096 + 4096 ≤ (contract counter wide_heap 1 16564).end)
    × (24576 ≤ (contract counter wide_heap 1 16564).end + 1 * page_size)
contract-IsTiled_example =
    contract-IsTiled counter wide_heap 1 16564 (4110 ∷ [])
      (record {
        regions = (refl, omega arith, (refl, omega arith, refl));
        linked = (refl, (refl, tt));
      })
      (omega arith) (omega arith) (omega arith) (omega arith)

free-overshoots_example :
    (free counter wide_heap 16576).end < (merge wide_headers 24576 16564).1 + 12
unfolding merge merge_next merge_prev
free-overshoots_example =
    free-overshoots counter wide_heap 16564 refl (refl, omega arith, omega arith, omega arith)
      (omega arith) (omega arith)
