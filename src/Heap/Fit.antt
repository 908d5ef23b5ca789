-- ===== src/Heap/Fit.antt =====
-- heap_alloc where a region fits.
use kerosene.Base.{
  ℕ, ◌+◌, ◌-◌, ◌<◌, ◌≤◌, ◌≡◌, refl, ◌⊎◌, inl, inr, Bool-cases, true, Option, some, List, [], ◌∷◌,
  ◌++◌, arith, ◌&&◌, ◌==◌, leb, ltb, if◌then◌else◌, length,
}
use kerosene.Base.Words.{u32, add32, sub32}
use kerosene.Process.{Ptr, null}
use kerosene.Process.Queue.Chain.{has, last}
use kerosene.Heap.{
  min_region_size, heap_free, heap_used, header_size, Header, Pages, Heap, first_header,
  next_header, put, set_prev, search, split_region, take_region, alloc,
}
use kerosene.Heap.Regions.{
  Regions, fits, NoneFits, search-fits, Regions-from, Regions-replace, Regions-frame, Regions-le,
}
use kerosene.Heap.Merge.{IsTiled, Linked, Linked-frame, Linked-from, Linked-replace}

-- `x` is cut out of the heap: `cut` is the rest of its region, if that is large enough.
record Cut (hs hs' : Ptr → Header) (end size : ℕ) (x : Ptr) (after : List Ptr) : Type 0 where
  cut : List Ptr
  used : (hs' x).magic ≡ heap_used
  large : size ≤ (hs' x).size
  small : (hs' x).size < size + header_size + min_region_size
  tiles : Regions hs' end x (x ∷ (cut ++ after))
  cut_free : (a : Ptr) → has a cut ≡ true → (hs' a).magic ≡ heap_free
  links : (q : Ptr) → Linked hs q (x ∷ after) → Linked hs' q (x ∷ (cut ++ after))
  prevs : (a : Ptr) → a < x → (hs' a).prev ≡ (hs a).prev
  before : (a : Ptr) → a < x → ((hs' a).size ≡ (hs a).size) × ((hs' a).magic ≡ (hs a).magic)
  behind :
      (a : Ptr)
      → next_header hs x ≤ a
      → ((hs' a).size ≡ (hs a).size) × ((hs' a).magic ≡ (hs a).magic)

split_region-size :
    (hs : Ptr → Header) (end size spare : ℕ) (x a : Ptr)
    → (split_region hs end size spare x a).size
      ≡ (if a == x then size else if a == x + header_size + size then spare else (hs a).size)
unfolding split_region set_prev
split_region-size hs end size spare x a = ground arith

split_region-magic :
    (hs : Ptr → Header) (end size spare : ℕ) (x a : Ptr)
    → (split_region hs end size spare x a).magic
      ≡ (if a == x + header_size + size then heap_free else (hs a).magic)
unfolding split_region set_prev
split_region-magic hs end size spare x a = ground arith

split_region-prev :
    (hs : Ptr → Header) (end size spare : ℕ) (x a : Ptr)
    → let n = x + header_size + size + header_size + spare in
      (split_region hs end size spare x a).prev ≡ (
        if (a == n) && ltb n end
        then x + header_size + size
        else if a == x + header_size + size
        then x
        else (hs a).prev)
unfolding split_region set_prev
split_region-prev hs end size spare x a = ground arith

take_region-whole :
    (hs : Ptr → Header) (end size : ℕ) (x : Ptr)
    → (hs x).size < u32
    → size + header_size ≤ (hs x).size
    → (hs x).size < size + header_size + min_region_size
    → take_region hs end size x ≡ put hs x (record (hs x) { magic = heap_used })
unfolding take_region
take_region-whole hs end size x small enough tight = ground arith

take_region-split :
    (hs : Ptr → Header) (end size : ℕ) (x : Ptr)
    → (hs x).size < u32
    → size + header_size + min_region_size ≤ (hs x).size
    → take_region hs end size x ≡ (
        let g = split_region hs end size ((hs x).size - size - header_size) x in
        put g x (record (g x) { magic = heap_used }))
unfolding take_region
take_region-split hs end size x small room =
    let spare : sub32 (sub32 (hs x).size size) header_size ≡ (hs x).size - size - header_size =
      omega arith in
    rw spare ground arith

whole-Cut :
    (hs hs' : Ptr → Header) (end size : ℕ) (x : Ptr) (after : List Ptr)
    → Regions hs end x (x ∷ after)
    → size + header_size ≤ (hs x).size
    → (hs x).size < size + header_size + min_region_size
    → hs' ≡ put hs x (record (hs x) { magic = heap_used })
    → Cut hs hs' end size x after
whole-Cut hs hs' end size x after (_, lt, r) enough tight e = rw e (record {
  cut = [];
  used = ground arith;
  large = ground arith;
  small = ground arith;
  tiles =
      let put_size : (a : Ptr)
          → (put hs x (record (hs x) { magic = heap_used }) a).size ≡ (hs a).size =
        λ a. ground arith in
      let next = put_size x in
      let rest =
        Regions-frame hs (put hs x (record (hs x) { magic = heap_used })) end (next_header hs x)
          after r (λ a lo hi. put_size a) in
      (refl, lt, rw next rest);
  cut_free = λ a i. ground arith;
  links = λ q l.
      Linked-frame hs (put hs x (record (hs x) { magic = heap_used })) end x q (x ∷ after)
        (refl, lt, r) l (λ a lo hi. ground arith);
  prevs = λ a h. ground arith;
  before = λ a h. ground arith;
  behind = λ a h. ground arith;
})

-- The regions behind the one that is split: the first of them gets a new neighbour.
split-Linked :
    (hs hs' : Ptr → Header) (end newh x : ℕ) (after : List Ptr)
    → Regions hs end (next_header hs x) after
    → Linked hs x after
    → newh < next_header hs x
    → ((a : Ptr)
        → (hs' a).prev ≡ (
            if (a == next_header hs x) && ltb (next_header hs x) end
            then newh
            else if a == newh
            then x
            else (hs a).prev))
    → Linked hs' newh after
split-Linked hs hs' end newh x [] r l below prevs = tt
split-Linked hs hs' end newh x (z ∷ zs) (e, lt, r) (l, ls) below prevs = (
  ground (arith, prevs z, e, lt),
  Linked-frame hs hs' end (next_header hs z) z zs r ls
      (λ a lo hi. ground (arith, prevs a, e, below)),
)

split-Cut :
    (hs hs' : Ptr → Header) (end size : ℕ) (x : Ptr) (after : List Ptr)
    → Regions hs end x (x ∷ after)
    → size + header_size + min_region_size ≤ (hs x).size
    → hs' ≡ (
        let g = split_region hs end size ((hs x).size - size - header_size) x in
        put g x (record (g x) { magic = heap_used }))
    → Cut hs hs' end size x after
split-Cut hs hs' end size x after (_, lt, r) room e =
    let spare = (hs x).size - size - header_size in
    let newh = x + header_size + size in
    let sizes : (a : Ptr)
        → (hs' a).size ≡ (if a == x then size else if a == newh then spare else (hs a).size) =
      λ a. rw e ground (arith, split_region-size hs end size spare x a) in
    let magics : (a : Ptr)
        → (hs' a).magic
          ≡ (if a == x then heap_used else if a == newh then heap_free else (hs a).magic) =
      λ a. rw e ground (arith, split_region-magic hs end size spare x a) in
    let prevs : (a : Ptr)
        → (hs' a).prev ≡ (
            if (a == next_header hs x) && ltb (next_header hs x) end
            then newh
            else if a == newh
            then x
            else (hs a).prev) =
      λ a. rw e ground (arith, split_region-prev hs end size spare x a) in
    let behind_size : (a : Ptr) → next_header hs x ≤ a → (hs' a).size ≡ (hs a).size =
      λ a h. ground (arith, sizes a) in
    let next_x : next_header hs' x ≡ newh = ground (arith, sizes x) in
    let next_new : next_header hs' newh ≡ next_header hs x = ground (arith, sizes newh) in
    let inside : newh < end = omega (arith, Regions-le hs end (next_header hs x) after r) in
    let rest : Regions hs' end (next_header hs x) after =
      Regions-frame hs hs' end (next_header hs x) after r (λ a lo hi. behind_size a lo) in
    record {
      cut = newh ∷ [];
      used = ground (arith, magics x);
      large = ground (arith, sizes x);
      small = ground (arith, sizes x);
      tiles = (refl, lt, (next_x, inside, rw next_new rest));
      cut_free = λ a i. ground (arith, magics a);
      links = λ q l. (
        ground (arith, prevs x, l.0),
        (
          ground (arith, prevs newh),
          split-Linked hs hs' end newh x after r l.1 (omega arith) (λ a. prevs a),
        ),
      );
      prevs = λ a h. ground (arith, prevs a);
      before = λ a h. (ground (arith, sizes a), ground (arith, magics a));
      behind = λ a h. (behind_size a h, ground (arith, magics a));
    }

-- What an allocation in the region at `x` leaves, between the regions `before` and `after`.
pub record Fitted {W : Type 0} (o : Option (ℕ × Heap W)) (h : Heap W) (size : ℕ) (x : Ptr)
    (before after : List Ptr) : Type 0 where
  pub heap : Heap W
  pub cut : List Ptr
  pub runs : o ≡ some (x + header_size, heap)
  pub used : (heap.headers x).magic ≡ heap_used
  pub large : size ≤ (heap.headers x).size
  pub small : (heap.headers x).size < size + header_size + min_region_size
  pub tiles : IsTiled heap.headers heap.end (first_header heap) (before ++ (x ∷ (cut ++ after)))
  pub cut_free : (a : Ptr) → has a cut ≡ true → (heap.headers a).magic ≡ heap_free
  pub others :
      (a : Ptr)
      → (a < x) ⊎ (next_header h.headers x ≤ a)
      → ((heap.headers a).size ≡ (h.headers a).size)
        × ((heap.headers a).magic ≡ (h.headers a).magic)

take_region-Cut :
    (hs : Ptr → Header) (end size : ℕ) (x : Ptr) (after : List Ptr)
    → Regions hs end x (x ∷ after)
    → (hs x).size < u32
    → size + header_size ≤ (hs x).size
    → Cut hs (take_region hs end size x) end size x after
take_region-Cut hs end size x after r small enough =
    elim (Bool-cases (leb (size + header_size + min_region_size) (hs x).size)) [
      | inl room ↦
          split-Cut hs (take_region hs end size x) end size x after r (ground arith)
            (take_region-split hs end size x small (ground arith))
      | inr tight ↦
          whole-Cut hs (take_region hs end size x) end size x after r enough (ground arith)
            (take_region-whole hs end size x small enough (ground arith))
    ]

module _ {W : Type 0} (pages : Pages W) where
  alloc_step :
      (fuel : ℕ) (h : Heap W) (size : ℕ) (x final : Ptr)
      → search fuel h.headers h.end (add32 size header_size) (first_header h) null ≡ some (x, final)
      → x < h.end
      → alloc pages fuel h size
        ≡ some (x + header_size, record h { headers = take_region h.headers h.end size x })
  unfolding alloc
  alloc_step fuel h size x final found inside = ground arith

  -- In a heap whose regions follow one another without a gap, each knowing the one before it, heap_alloc
  -- takes the first free region that holds the size and a header, if there is one, the fuel is more than
  -- the regions before it, and its size is below 2^32. Its address comes back, it is in use and has the
  -- size asked for, up to 15 bytes more; what it had beyond that is a free region. The regions again
  -- follow one another without a gap, each knowing the one before it, and the others have the size and
  -- the mark that they had.
  pub alloc-Fitted :
      (fuel : ℕ) (h : Heap W) (size : ℕ) (x : Ptr) (before after : List Ptr)
      → IsTiled h.headers h.end (first_header h) (before ++ x ∷ after)
      → NoneFits h.headers (size + header_size) before
      → fits h.headers (size + header_size) x ≡ true
      → (h.headers x).size < u32
      → length before < fuel
      → Fitted (alloc pages fuel h size) h size x before after
  alloc-Fitted fuel h size x before after t misses hit small enough =
      let r = t.regions in
      let large : size + header_size ≤ (h.headers x).size = ground arith in
      let plain : add32 size header_size ≡ size + header_size = omega arith in
      let tail = (Regions-from h.headers h.end (first_header h) x before after r).1 in
      let c = take_region-Cut h.headers h.end size x after tail small large in
      let found =
        search-fits fuel h.headers h.end (size + header_size) (first_header h) null x before after r
          misses hit enough in
      record {
        heap = record h { headers = take_region h.headers h.end size x };
        cut = c.cut;
        runs = alloc_step fuel h size x (last null before) (rw plain found) (tail.1);
        used = c.used;
        large = c.large;
        small = c.small;
        tiles = record {
          regions =
              Regions-replace h.headers (take_region h.headers h.end size x) h.end (first_header h)
                x before after (x ∷ (c.cut ++ after)) r (λ a lt. (c.before a lt).0) c.tiles;
          linked =
              Linked-replace h.headers (take_region h.headers h.end size x) h.end (first_header h)
                null x before after (x ∷ (c.cut ++ after)) r t.linked c.prevs
                (c.links (last null before) (Linked-from h.headers null x before after t.linked));
        };
        cut_free = c.cut_free;
        others = λ a o. elim o [ inl lt ↦ c.before a lt | inr ge ↦ c.behind a ge ];
      }
