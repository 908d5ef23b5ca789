-- ===== src/Frames/Block.antt =====
-- Allocating and freeing one page frame.
use kerosene.Base.{
  ℕ, ◌+◌, ◌-◌, ◌*◌, ◌/◌, ◌%◌, ◌<◌, ◌≤◌, ◌≡◌, refl, sym, ◌∙◌, ◌≢◌, ◌⊎◌, ap, Bool-cases, true, false,
  Option-cases, inl, inr, arith, ◌==◌, if◌then◌else◌,
}
use kerosene.Base.Words.{u32, mul32}
use kerosene.Frames.{
  Frames, Bitmap, page_size, test_bit, set_bit, unset_bit, find_first_free_block, alloc_block,
  free_block,
}
use kerosene.Frames.Search.{AllUsed, IsFirst, find_first_free_block-Searched}
use kerosene.Frames.Count.{weight, count, test_bit-write_bit, count-le, count-write_bit}

-- The count is right, the bitmap has room for all frames, and frame 0, whose address is NULL, is not
-- given out.
pub record IsValid (f : Frames) : Type 0 where
  pub counted : f.used_block ≡ count f.bitmap f.total_block
  pub small : f.total_block ≤ 24576 * 32
  pub low_used : test_bit f.bitmap 0 ≡ true

count_lt : (b : Bitmap) (m n : ℕ) → m < n → test_bit b m ≡ false → count b n < n
count_lt b m n h free =
    let step : count (set_bit b m) n + weight (test_bit b m) ≡ count b n + 1 =
      count-write_bit true b m n h in
    let flat : count (set_bit b m) n + 0 ≡ count b n + 1 = rw free at step in
    omega (arith, flat, count-le (set_bit b m) n)

AllUsed-of_count : (b : Bitmap) (n : ℕ) → count b n ≡ n → AllUsed b 0 n
AllUsed-of_count b n e m above below = elim (Bool-cases (test_bit b m)) [
  | inl used ↦ used
  | inr free ↦ absurd (omega (arith, count_lt b m n below free))
]

abbrev pub taken : Frames → ℕ → Frames
taken f n = record f { bitmap = set_bit f.bitmap n; used_block = f.used_block + 1 }

taken-IsValid :
    (f : Frames) (n : ℕ)
    → IsValid f
    → n < f.total_block
    → test_bit f.bitmap n ≡ false
    → IsValid (taken f n)
taken-IsValid f n v h free =
    let step : count (set_bit f.bitmap n) f.total_block + weight (test_bit f.bitmap n)
        ≡ count f.bitmap f.total_block + 1 =
      count-write_bit true f.bitmap n f.total_block h in
    let flat : count (set_bit f.bitmap n) f.total_block + 0 ≡ count f.bitmap f.total_block + 1 =
      rw free at step in
    record {
      counted = omega (arith, flat, v.counted);
      small = v.small;
      low_used = rw (test_bit-write_bit true f.bitmap n 0) (ground (arith, v.low_used));
    }

-- What an allocation of one block yields.
abbrev pub Allocated : Frames → ℕ × Frames → Type 0
Allocated f r =
    ((r ≡ (0, f)) × AllUsed f.bitmap 0 f.total_block)
    ⊎ ((n : ℕ) × IsFirst f.total_block f.bitmap 0 n
        × (n ≢ 0)
        × (r ≡ (n * page_size, taken f n))
        × IsValid (taken f n))

-- Allocating a block fails, with nothing changed, only if every frame is in use. Otherwise it takes
-- the lowest free frame, which is not frame 0, returns its address, marks that frame alone, and keeps
-- the count right.
pub alloc_block-Allocated : (f : Frames) → IsValid f → Allocated f (alloc_block f)
unfolding alloc_block
alloc_block-Allocated f v =
    let search = find_first_free_block-Searched f in
    elim (Bool-cases (f.total_block == f.used_block)) [
      | inl full ↦
          rw full (inl (refl, AllUsed-of_count f.bitmap f.total_block (ground (arith, v.counted))))
      | inr room ↦ rw room (elim (Option-cases (find_first_free_block f)) [
        | inl e ↦ rw e (inl (refl, rw e at search))
        | inr (n, e) ↦
            let s : IsFirst f.total_block f.bitmap 0 n = rw e at search in
            let ne : n ≢ 0 = λ z. cc (sym v.low_used ∙ ap (test_bit f.bitmap) (sym z) ∙ s.free) in
            let le : count f.bitmap f.total_block ≤ f.total_block =
              count-le f.bitmap f.total_block in
            let address : mul32 n page_size ≡ n * page_size = omega (arith, s.inside, v.small) in
            let counted : (f.used_block + 1) % u32 ≡ f.used_block + 1 =
              omega (arith, v.counted, v.small, le) in
            rw (e, address, counted) (inr (n, s, ne, refl, taken-IsValid f n v s.inside s.free))
      ])
    ]

-- Freeing a frame below the number of frames keeps the count right, also where it is free already.
pub free_block-IsValid :
    (f : Frames) (addr : ℕ)
    → IsValid f
    → addr / page_size < f.total_block
    → IsValid (free_block f addr)
unfolding free_block
free_block-IsValid f addr v h =
    let n : ℕ = addr / page_size in
    elim (Bool-cases (n == 0)) [
      | inl low ↦ rw low v
      | inr high ↦ rw high (elim (Bool-cases (test_bit f.bitmap n)) [
        | inl used ↦
            let step : count (unset_bit f.bitmap n) f.total_block + weight (test_bit f.bitmap n)
                ≡ count f.bitmap f.total_block + 0 =
              count-write_bit false f.bitmap n f.total_block h in
            let flat : count (unset_bit f.bitmap n) f.total_block + 1
                ≡ count f.bitmap f.total_block + 0 =
              rw used at step in
            rw used (record {
              counted = omega (arith, flat, v.counted, v.small, count-le f.bitmap f.total_block);
              small = v.small;
              low_used =
                  rw (test_bit-write_bit false f.bitmap n 0) (ground (arith, v.low_used, high));
            })
        | inr free ↦ rw free v
      ])
    ]

-- Every frame of `g` is as in `f`, and so are the counts.
abbrev pub SameFrames : Frames → Frames → Type 0
SameFrames f g =
    ((m : ℕ) → test_bit g.bitmap m ≡ test_bit f.bitmap m)
    × (g.used_block ≡ f.used_block)
    × (g.total_block ≡ f.total_block)

free_taken :
    (f : Frames) (n : ℕ)
    → IsValid f
    → n < f.total_block
    → n ≢ 0
    → test_bit f.bitmap n ≡ false
    → SameFrames f (free_block (taken f n) (n * page_size))
unfolding free_block
free_taken f n v inside ne free =
    let frame : n * page_size / page_size ≡ n = omega arith in
    let high : (n == 0) ≡ false = ground arith in
    let used : test_bit (taken f n).bitmap n ≡ true =
      rw (test_bit-write_bit true f.bitmap n n) (ground arith) in
    let counted : (f.used_block + 1 + u32 - 1) % u32 ≡ f.used_block =
      omega (arith, v.counted, v.small, count-le f.bitmap f.total_block) in
    rw (frame, high, used)
      (λ m. test_bit-write_bit false (set_bit f.bitmap n) n m ∙ spared m, counted, refl)
  where
    spared :
        (m : ℕ) → (if m == n then false else test_bit (set_bit f.bitmap n) m) ≡ test_bit f.bitmap m
    spared m = elim (Bool-cases (m == n)) [
      | inl e ↦ let same : m ≡ n = ground arith in rw (same) (ground (arith, free))
      | inr e ↦ rw (test_bit-write_bit true f.bitmap n m, e)
    ]

-- Freeing what has just been allocated gives back the old counts, and every frame its old state.
pub free_block-alloc_block :
    (f : Frames) (addr : ℕ) {g : Frames}
    → IsValid f
    → alloc_block f ≡ (addr, g)
    → addr ≢ 0
    → SameFrames f (free_block g addr)
free_block-alloc_block f addr {g} v e ne = elim (alloc_block-Allocated f v) [
  | inl (failed, _) ↦ absurd (ne (ap (λ r. r.0) (sym e ∙ failed)))
  | inr (n, first, high, took, _) ↦
      let both : (addr, g) ≡ (n * page_size, taken f n) = sym e ∙ took in
      let at : addr ≡ n * page_size = ap (λ r. r.0) both in
      let to : g ≡ taken f n = ap (λ r. r.1) both in
      rw (at, to) (free_taken f n v first.inside high first.free)
]
