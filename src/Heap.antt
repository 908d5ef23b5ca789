-- ===== src/Heap.antt =====
-- kernel/src/mem/heap.c and kheap.c: the regions of a heap, for the calls with `page_align` false,
-- which are the only ones in the repository. A header is at its address in `headers`; the bytes in the
-- regions are not modelled. A heap ends below 2^32, so an address does not wrap; a size may, and has its
-- modulus written out. The lock is free at the start of each call.
pub mod Regions
pub mod Fit
pub mod Merge
pub mod Free
pub mod Shrink
pub mod Grow
use kerosene.Base.{
  ℕ, zero, suc, ◌+◌, ◌-◌, ◌*◌, ◌/◌, ◌%◌, ◌^◌, Bool, true, false, not, ◌&&◌, ◌||◌, Option, none,
  some, ◌==◌, ltb, leb, if◌then◌else◌, ◌>>=◌,
}
use kerosene.Base.Words.{u32, add32, sub32, mul32}
use kerosene.Process.{Ptr, null}
use kerosene.Frames.{page_size}

abbrev pub min_region_size : ℕ
min_region_size = 4

abbrev pub heap_free : ℕ
heap_free = 2125066990

abbrev pub heap_used : ℕ
heap_used = 2125021933

-- sizeof(heap_t) and sizeof(heap_header_t), both packed
abbrev pub heap_size : ℕ
heap_size = 14

abbrev pub header_size : ℕ
header_size = 12

-- heap_header_t
pub record Header : Type 0 where
  pub magic : ℕ
  pub size : ℕ
  pub prev : Ptr

-- What a heap uses of the page frames and the page tables, whose state is a `W`.
pub record Pages (W : Type 0) : Type 0 where
  pub alloc_multi_block : W → ℕ → ℕ × W
  pub free_block : W → ℕ → W
  pub map : W → ℕ → ℕ → ℕ → W
  pub unmap : W → ℕ → W
  pub to_physical_addr : W → ℕ → ℕ

-- heap_t, at the address `base`, with the headers and the pages.
pub record Heap (W : Type 0) : Type 0 where
  pub base : Ptr
  pub end : ℕ
  pub max_addr : ℕ
  pub min_size : ℕ
  pub flags : ℕ
  pub headers : Ptr → Header
  pub world : W

abbrev pub first_header : {W : Type 0} → Heap W → Ptr
first_header h = h.base + heap_size

abbrev pub next_header : (Ptr → Header) → Ptr → Ptr
next_header hs p = p + header_size + (hs p).size

abbrev pub put : (Ptr → Header) → Ptr → Header → Ptr → Header
put hs p x a = if a == p then x else hs a

-- `if((uint32_t)n < heap->end) n->prev = p;`
unfoldable pub set_prev : (Ptr → Header) → ℕ → Ptr → Ptr → Ptr → Header
set_prev hs end n p = if ltb n end then put hs n (record (hs n) { prev = p }) else hs

-- PTE_PRESENT, PTE_USER and PTE_WRITABLE, by the flags HEAP_SUPERVISOR and HEAP_READONLY.
abbrev pub pte_flags : ℕ → ℕ
pte_flags flags = 1 + (if flags % 2 == 0 then 4 else 0) + (if flags / 2 % 2 == 0 then 2 else 0)

-- The search for a free region: the region it ends at, and the last region it has passed.
unfoldable pub search : ℕ → (Ptr → Header) → ℕ → ℕ → Ptr → Ptr → Option (Ptr × Ptr)
search zero hs end reg_size header final = none
search (suc fuel) hs end reg_size header final =
    let rest = search fuel hs end reg_size (next_header hs header) header in
    if leb end header
    then some (header, final)
    else if ((hs header).magic == heap_free) && leb reg_size (hs header).size
    then some (header, final)
    else rest

-- Cuts off the bytes behind the first `size`: a free region of `spare` bytes begins there.
unfoldable pub split_region : (Ptr → Header) → ℕ → ℕ → ℕ → Ptr → Ptr → Header
split_region hs end size spare header =
    let newh = header + header_size + size in
    let hs₁ = put hs newh (record { magic = heap_free; size = spare; prev = header }) in
    let hs₂ = set_prev hs₁ end (newh + header_size + spare) newh in
    put hs₂ header (record (hs₂ header) { size = size })

-- Marks the region as used, after cutting off the bytes that it has too many.
unfoldable pub take_region : (Ptr → Header) → ℕ → ℕ → Ptr → Ptr → Header
take_region hs end size header =
    let spare = sub32 (sub32 (hs header).size size) header_size in
    let hs₁ = if leb min_region_size spare then split_region hs end size spare header else hs in
    put hs₁ header (record (hs₁ header) { magic = heap_used })

-- The size to grow by, rounded up to pages.
unfoldable pub pages_needed : (Ptr → Header) → ℕ → Ptr → ℕ
pages_needed hs size final =
    let needed =
      if (hs final).magic == heap_used
      then add32 size header_size
      else sub32 size (hs final).size in
    let rounded =
      if ltb 0 (needed % page_size)
      then add32 needed (page_size - needed % page_size)
      else needed in
    rounded / page_size

-- Joins `p` with the region `q` behind it.
unfoldable pub absorb : (Ptr → Header) → ℕ → Ptr → Ptr → Ptr → Header
absorb hs end p q =
    let joined =
      put hs p (record (hs p) { size = add32 (hs p).size (add32 (hs q).size header_size) }) in
    set_prev joined end (next_header joined p) p

unfoldable pub merge_next : (Ptr → Header) → ℕ → Ptr → Ptr → Header
merge_next hs end header =
    let next = next_header hs header in
    if ltb next end && ((hs next).magic == heap_free) then absorb hs end header next else hs

-- With the region that is left.
unfoldable pub merge_prev : (Ptr → Header) → ℕ → Ptr → (Ptr → Header) × Ptr
merge_prev hs end header =
    let prev = (hs header).prev in
    if not (prev == null) && ((hs prev).magic == heap_free)
    then (absorb hs end prev header, prev)
    else (hs, header)

-- Marks a region as free and joins it with its free neighbours.
unfoldable pub merge : (Ptr → Header) → ℕ → Ptr → (Ptr → Header) × Ptr
merge hs end header =
    let freed = put hs header (record (hs header) { magic = heap_free }) in
    merge_prev (merge_next freed end header) end header

-- The pages to give back, others than asked for if the heap would get smaller than it began.
-- `remain_size` is an `int`: from 2^31 on it is negative.
unfoldable pub contract_count : ℕ → ℕ → ℕ → ℕ → ℕ
contract_count base end min_size page_count =
    let remain = sub32 (sub32 end (mul32 page_count page_size)) base in
    let overshoot = leb (2 ^ 31) remain || ltb remain min_size in
    if overshoot then sub32 (sub32 end base) min_size / page_size else page_count

module _ {W : Type 0} (pages : Pages W) where
  -- `for(i = 0; i < page_count; i++) vmmngr_map(phys + i * PAGE, virt + i * PAGE, flags)`
  unfoldable pub map_pages : W → ℕ → ℕ → ℕ → ℕ → W
  map_pages w zero phys virt flags = w
  map_pages w (suc count) phys virt flags =
      map_pages (pages.map w phys virt flags) count (phys + page_size) (virt + page_size) flags

  unfoldable pub heap_new : W → (Ptr → Header) → ℕ → ℕ → ℕ → ℕ → Option (Heap W)
  heap_new w hs start size max_size flags =
      let got = pages.alloc_multi_block w (size / page_size) in
      let count = (size + page_size - 1) / page_size in
      let first = start + heap_size in
      if got.0 == 0
      then none
      else some (record {
        base = start;
        end = start + size;
        max_addr = start + max_size;
        min_size = size;
        flags = flags;
        headers = put hs first (record {
          magic = heap_free;
          size = sub32 (sub32 (start + size) first) header_size;
          prev = null;
        });
        world = map_pages got.1 count got.0 start (pte_flags flags);
      })

  -- The Boolean is the error.
  unfoldable pub expand : Heap W → ℕ → Ptr → Bool × Heap W
  expand h page_count last =
      let got = pages.alloc_multi_block h.world page_count in
      let grown = mul32 page_count page_size in
      let old = h.headers last in
      let headers =
        if old.magic == heap_free
        then put h.headers last (record old { size = add32 old.size grown })
        else put h.headers h.end
            (record { magic = heap_free; size = sub32 grown header_size; prev = last }) in
      if ltb h.max_addr (add32 h.end grown)
      then (true, h)
      else if got.0 == 0
      then (true, record h { world = got.1 })
      else (
        false,
        record h {
          end = add32 h.end grown;
          headers = headers;
          world = map_pages got.1 page_count got.0 h.end (pte_flags h.flags);
        },
      )

  -- The address of the block, 0 for none.
  unfoldable pub alloc : ℕ → Heap W → ℕ → Option (ℕ × Heap W)
  alloc fuel h size = do
    (header, final) ← search fuel h.headers h.end (add32 size header_size) (first_header h) null
    let grown = expand h (pages_needed h.headers size final) final
    if not (leb h.end header)
        then some
            (header + header_size, record h { headers = take_region h.headers h.end size header })
        else if grown.0
        then some (0, grown.1)
        else some (
          final + header_size,
          record grown.1 { headers = take_region grown.1.headers grown.1.end size final },
        )

  unfoldable pub contract_loop : ℕ → W → ℕ → W × ℕ
  contract_loop zero w end = (w, end)
  contract_loop (suc count) w end =
      let below = end - page_size in
      let freed = pages.free_block w (pages.to_physical_addr w below) in
      contract_loop count (pages.unmap freed below) below

  unfoldable pub contract : Heap W → ℕ → Ptr → Heap W
  contract h page_count last =
      let count = contract_count h.base h.end h.min_size page_count in
      let x = h.headers last in
      let done = contract_loop count h.world h.end in
      record h {
        headers = put h.headers last (record x { size = sub32 x.size (mul32 count page_size) });
        end = done.1;
        world = done.0;
      }

  unfoldable pub free : Heap W → ℕ → Heap W
  free h addr =
      let header = addr - header_size in
      let merged = merge h.headers h.end header in
      let h₁ = record h { headers = merged.0 } in
      let ideal = mul32 (sub32 h.end h.base) 2 / 5 / page_size in
      let left = sub32 (merged.0 merged.1).size (mul32 ideal page_size) in
      if not ((h.headers header).magic == heap_used)
      then h
      else if leb h.end (next_header merged.0 merged.1) && (ltb 0 ideal && leb min_region_size left)
      then contract h₁ ideal merged.1
      else h₁
