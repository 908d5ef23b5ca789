-- ===== src/Heap/Grow.antt =====
-- heap_alloc where no region fits and the heap grows behind a region that is in use.
use kerosene.Base.{ℕ, ◌+◌, ◌<◌, ◌≡◌, false, Option, some, List, ◌∷◌, arith, length}
use kerosene.Base.Words.{add32}
use kerosene.Process.{Ptr, null}
use kerosene.Process.Queue.Chain.{last}
use kerosene.Heap.{
  heap_used, header_size, Header, Pages, Heap, first_header, pages_needed, take_region, expand,
  alloc,
}
use kerosene.Heap.Regions.{Regions, NoneFits, search-end}

-- `x` was in use in `h`, and is what the run hands out.
pub record Reissued {W : Type 0} (o : Option (ℕ × Heap W)) (h : Heap W) (x : Ptr) : Type 0 where
  pub heap : Heap W
  pub runs : o ≡ some (x + header_size, heap)
  pub was_used : (h.headers x).magic ≡ heap_used
  pub still_used : (heap.headers x).magic ≡ heap_used

take_region-used :
    (hs : Ptr → Header) (end size : ℕ) (x : Ptr) → (take_region hs end size x x).magic ≡ heap_used
unfolding take_region
take_region-used hs end size x = ground arith

module _ {W : Type 0} (pages : Pages W) where
  -- Where no region is free and large enough, the last region is in use, and the heap can grow,
  -- heap_alloc returns the address of that last region, which is in use, and not of the new one.
  pub alloc-Reissued :
      (fuel : ℕ) (h : Heap W) (size : ℕ) (x : Ptr) (xs : List Ptr)
      → Regions h.headers h.end (first_header h) (x ∷ xs)
      → NoneFits h.headers (add32 size header_size) (x ∷ xs)
      → (h.headers (last x xs)).magic ≡ heap_used
      → (expand pages h (pages_needed h.headers size (last x xs)) (last x xs)).0 ≡ false
      → length (x ∷ xs) < fuel
      → Reissued (alloc pages fuel h size) h (last x xs)
  unfolding alloc
  alloc-Reissued fuel h size x xs r misses in_use grows enough =
      let grown = (expand pages h (pages_needed h.headers size (last x xs)) (last x xs)).1 in
      let found =
        search-end fuel h.headers h.end (add32 size header_size) (first_header h) null (x ∷ xs) r
          misses enough in
      record {
        heap = record grown { headers = take_region grown.headers grown.end size (last x xs) };
        runs = ground (arith, found, grows);
        was_used = in_use;
        still_used = take_region-used grown.headers grown.end size (last x xs);
      }
