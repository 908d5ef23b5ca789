-- ===== src/Heap/Shrink.antt =====
-- heap_contract, and when heap_free calls it: giving back pages at the end of the heap.
use kerosene.Base.{
  ℕ, zero, suc, ◌+◌, ◌-◌, ◌*◌, ◌/◌, ◌^◌, ◌<◌, ◌≤◌, ◌≡◌, ◌∙◌, true, List, [], ◌∷◌, ◌++◌, arith, ltb,
  leb,
}
use kerosene.Base.Words.{u32, sub32, mul32}
use kerosene.Process.{Ptr, null}
use kerosene.Frames.{page_size}
use kerosene.Heap.{
  min_region_size, heap_used, header_size, Header, Pages, Heap, first_header, next_header, put,
  merge, contract_count, contract_loop, contract, free,
}
use kerosene.Heap.Regions.{Regions, Regions-from}
use kerosene.Heap.Merge.{IsTiled, Linked-frame}

contract_count-le :
    (base end min_size page_count : ℕ)
    → base + min_size ≤ end
    → end < u32
    → end < base + page_count * page_size + 2 ^ 31
    → base + page_count * page_size ≤ end
    → (contract_count base end min_size page_count ≤ page_count)
      × (base + min_size + contract_count base end min_size page_count * page_size ≤ end)
unfolding contract_count
contract_count-le base end min_size page_count h small short enough =
    let moved : mul32 page_count page_size ≡ page_count * page_size = omega arith in
    let remain : sub32 (sub32 end (page_count * page_size)) base
        ≡ end - page_count * page_size - base =
      omega arith in
    let whole : sub32 (sub32 end base) min_size ≡ end - base - min_size = omega arith in
    rw (moved, remain, whole) (ground arith, ground arith)

contract_count-room :
    (base end min_size page_count : ℕ)
    → base + page_count * page_size + min_size ≤ end
    → end < u32
    → end < base + page_count * page_size + 2 ^ 31
    → contract_count base end min_size page_count ≡ page_count
unfolding contract_count
contract_count-room base end min_size page_count h small short =
    let moved : mul32 page_count page_size ≡ page_count * page_size = omega arith in
    let remain : sub32 (sub32 end (page_count * page_size)) base
        ≡ end - page_count * page_size - base =
      omega arith in
    rw (moved, remain) (ground arith)

-- A heap cut off within its last region.
Regions-cut :
    (hs hs' : Ptr → Header) (end end' : ℕ) (p r : Ptr) (before : List Ptr)
    → Regions hs end p (before ++ r ∷ [])
    → ((a : Ptr) → a < r → (hs' a).size ≡ (hs a).size)
    → r < end'
    → next_header hs' r ≡ end'
    → Regions hs' end' p (before ++ r ∷ [])
Regions-cut hs hs' end end' p r [] (e, lt, t) same inside cut = (e, inside, cut)
Regions-cut hs hs' end end' p r (y ∷ before) (e, lt, t) same inside cut =
    let below = (Regions-from hs end (next_header hs y) r before [] t).0 in
    let size : (hs' y).size ≡ (hs y).size = same y (omega (arith, below)) in
    let rest = Regions-cut hs hs' end end' (next_header hs y) r before t same inside cut in
    (e, omega (arith, below), rw size rest)

module _ {W : Type 0} (pages : Pages W) where
  contract_loop-end :
      (count : ℕ) (w : W) (end : ℕ) → (contract_loop pages count w end).1 ≡ end - count * page_size
  unfolding contract_loop
  contract_loop-end zero w end = omega arith
  contract_loop-end (suc count) w end =
      contract_loop-end count
        (pages.unmap (pages.free_block w (pages.to_physical_addr w (end - page_size)))
          (end - page_size))
        (end - page_size)
      ∙ omega arith

  -- In a heap below 2^32 whose regions follow one another, each knowing the one before it, which is not
  -- smaller than it began and would be left with less than 2 GiB, shrinking by no more pages than the last
  -- region has bytes for gives back no more than those, and leaves at least the size that the heap began
  -- with; the regions still follow one another up to the new end, each knowing the one before it.
  pub contract-IsTiled :
      (h : Heap W) (page_count : ℕ) (r : Ptr) (before : List Ptr)
      → IsTiled h.headers h.end (first_header h) (before ++ r ∷ [])
      → h.end < u32
      → h.base + h.min_size ≤ h.end
      → h.end < h.base + page_count * page_size + 2 ^ 31
      → page_count * page_size ≤ (h.headers r).size
      → IsTiled
          (contract pages h page_count r).headers
          (contract pages h page_count r).end
          (first_header h)
          (before ++ r ∷ [])
        × (h.base + h.min_size ≤ (contract pages h page_count r).end)
        × (h.end ≤ (contract pages h page_count r).end + page_count * page_size)
  unfolding contract
  contract-IsTiled h page_count r before t small least short enough =
      let first = first_header h in
      let count = contract_count h.base h.end h.min_size page_count in
      let size = (h.headers r).size - count * page_size in
      let (low, (_, r_lt, at)) = Regions-from h.headers h.end first r before [] t.regions in
      let le =
        contract_count-le h.base h.end h.min_size page_count least small short
          (omega (arith, at, enough, low)) in
      let give : mul32 count page_size ≡ count * page_size = omega (arith, at, le, enough) in
      let wrap : sub32 (h.headers r).size (count * page_size) ≡ size =
        omega (arith, at, le, enough) in
      let hs' = put h.headers r (record (h.headers r) { size = size }) in
      let end' = h.end - count * page_size in
      rw (contract_loop-end count h.world h.end, give, wrap)
        (
          record {
            regions =
                Regions-cut h.headers hs' h.end end' first r before t.regions (λ a lt. ground arith)
                  (omega (arith, at, le, enough)) (ground (arith, at, le, enough));
            linked =
                Linked-frame h.headers hs' h.end first null (before ++ r ∷ []) t.regions t.linked
                  (λ a lo hi. ground arith);
          },
          omega (arith, le),
          omega (arith, le),
        )

  -- Freeing a region in use, in a heap below 2^32 and of less than 2 GiB whose end is that of the region
  -- that the freed one becomes: where that region is smaller than the whole pages of two fifths of the
  -- heap, of which there is one or more, and the heap without those pages is not smaller than it began,
  -- heap_free's test for enough room wraps around and it gives the pages back all the same; the heap then
  -- ends before the bytes of that region begin.
  pub free-overshoots :
      (h : Heap W) (x : Ptr)
      → (h.headers x).magic ≡ heap_used
      → (let r = merge h.headers h.end x in
          let ideal = (h.end - h.base) * 2 / 5 / page_size in
          (h.end ≡ next_header r.0 r.1)
          × (0 < ideal)
          × ((r.0 r.1).size < ideal * page_size)
          × (h.base + ideal * page_size + h.min_size ≤ h.end))
      → h.end < u32
      → h.end < h.base + 2 ^ 31
      → (free pages h (x + header_size)).end < (merge h.headers h.end x).1 + header_size
  unfolding free contract
  free-overshoots h x used (last_one, some_page, short, room) small under =
      let r = merge h.headers h.end x in
      let ideal = (h.end - h.base) * 2 / 5 / page_size in
      let count =
        contract_count-room h.base h.end h.min_size ideal room small (omega (arith, under)) in
      let total : sub32 h.end h.base ≡ h.end - h.base = omega (arith, small, room) in
      let double : mul32 (h.end - h.base) 2 ≡ (h.end - h.base) * 2 = omega (arith, under) in
      let pages_back : mul32 ideal page_size ≡ ideal * page_size = omega (arith, room, small) in
      let shrunk = contract_loop-end ideal h.world h.end in
      let give : ℕ = ideal * page_size in
      let size : ℕ = (r.0 r.1).size in
      let wraps : sub32 size give ≡ size + u32 - give = omega (arith, short, room, small) in
      let passes : leb min_region_size (size + u32 - give) ≡ true =
        ground (arith, short, room, small) in
      let back : x + header_size - header_size ≡ x = omega arith in
      let goes : ltb 0 ideal ≡ true = ground (arith, some_page) in
      let at_end : leb h.end (next_header r.0 r.1) ≡ true = ground (arith, last_one) in
      rw (back, total, double, used, pages_back, wraps, passes, goes, at_end, count, shrunk)
        (omega (arith, last_one, short, room))
