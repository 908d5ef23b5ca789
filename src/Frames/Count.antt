-- ===== src/Frames/Count.antt =====
-- The number of frames in use, and pmmngr_update_usage, which counts it word by word.
use Prim.Native.Nat.{min}
use kerosene.Base.{
  ℕ, zero, suc, ◌+◌, ◌*◌, ◌<◌, ◌≤◌, ◌≡◌, refl, sym, ap, Bool, Bool-cases, true, inl, inr, arith,
  ◌==◌, leb, if◌then◌else◌,
}
use kerosene.Base.Words.{u32}
use kerosene.Frames.{
  Frames, Bitmap, test_bit, write_bit, is_full, bits_in_last, count_bits, count_word, count_words,
  num_chunks, update_usage,
}
use kerosene.Frames.Search.{AllUsed, test_bit-word, full_AllUsed}

abbrev pub weight : Bool → ℕ
weight v = if v then 1 else 0

-- The frames below `n` that are in use.
unfoldable pub count : Bitmap → ℕ → ℕ
count b zero = 0
count b (suc n) = weight (test_bit b n) + count b n

pub test_bit-write_bit :
    (v : Bool) (b : Bitmap) (x m : ℕ)
    → test_bit (write_bit v b x) m ≡ (if m == x then v else test_bit b m)
test_bit-write_bit v b x m = ground arith

pub count-le : (b : Bitmap) (n : ℕ) → count b n ≤ n
unfolding count
count-le b zero = omega arith
count-le b (suc n) = ground (arith, count-le b n)

pub count_all : (b : Bitmap) (n : ℕ) → AllUsed b 0 n → count b n ≡ n
unfolding count
count_all b zero h = refl
count_all b (suc n) h =
    let last : test_bit b n ≡ true = h n (omega arith) (omega arith) in
    rw last (omega (arith, count_all b n (λ m a l. h m a (omega arith))))

pub count_outside :
    (v : Bool) (b : Bitmap) (x n : ℕ) → n ≤ x → count (write_bit v b x) n ≡ count b n
unfolding count
count_outside v b x zero h = refl
count_outside v b x (suc n) h =
    rw (test_bit-write_bit v b x n) (ground (arith, count_outside v b x n))

-- Writing one bit below `n` exchanges its weight for that of the new value.
pub count-write_bit :
    (v : Bool) (b : Bitmap) (x n : ℕ)
    → x < n
    → count (write_bit v b x) n + weight (test_bit b x) ≡ count b n + weight v
unfolding count
count-write_bit v b x zero h = absurd (omega arith)
count-write_bit v b x (suc n) h = rw (test_bit-write_bit v b x n) (elim (Bool-cases (n == x)) [
  | inl e ↦
      let same : n ≡ x = ground arith in
      rw e (rw same (omega (arith, count_outside v b x x (omega arith))))
  | inr e ↦ rw e (let lt : x < n = ground arith in omega (arith, count-write_bit v b x n lt))
])

count_next : (b : Bitmap) (n : ℕ) → count b (n + 1) ≡ weight (test_bit b n) + count b n
unfolding count
count_next b n = let e : n + 1 ≡ suc n = omega arith in rw e

count_range : (b : Bitmap) (lo n : ℕ) → AllUsed b lo (lo + n) → count b (lo + n) ≡ n + count b lo
count_range b lo zero h = let e : lo + 0 ≡ lo = omega arith in rw e (omega arith)
count_range b lo (suc n) h =
    let e : lo + suc n ≡ lo + n + 1 = omega arith in
    rw (e, count_next b (lo + n), h (lo + n) (omega arith) (omega arith))
      (omega (arith, count_range b lo n (λ m a l. h m a (omega arith))))

-- The scan of one word adds the frames of that word below `total`.
count_bits-count :
    (total : ℕ) (b : Bitmap) (i rounds j : ℕ)
    → j + rounds ≡ 32
    → i * 32 + j ≤ total
    → count_bits total (b i) i rounds j + count b (i * 32 + j) ≡ count b (min total (i * 32 + 32))
unfolding count_bits
count_bits-count total b i zero j e h =
    let same : i * 32 + j ≡ min total (i * 32 + 32) = omega arith in rw same (omega arith)
count_bits-count total b i (suc rounds) j e h = elim (Bool-cases (leb total (i * 32 + j))) [
  | inl out ↦
      let same : i * 32 + j ≡ min total (i * 32 + 32) = ground arith in
      rw out (omega (arith, ap (count b) same))
  | inr inn ↦
      let rest = count_bits-count total b i rounds (j + 1) (omega arith) (ground arith) in
      let step : i * 32 + (j + 1) ≡ i * 32 + j + 1 = omega arith in
      let one : count b (i * 32 + (j + 1)) ≡ weight (b i j) + count b (i * 32 + j) =
        rw (step, count_next b (i * 32 + j), test_bit-word b i j (omega arith)) refl in
      rw inn (ground (arith, rest, one))
]

-- The words that are left from word `i` on end at `total`.
abbrev Ends : ℕ → ℕ → ℕ → Type 0
Ends total i words = (total ≤ (i + words) * 32) × ((i + words) * 32 < total + 32)

count_word-count :
    (total : ℕ) (b : Bitmap) (words i : ℕ)
    → Ends total i (suc words)
    → count_word total (b i) words i + count b (i * 32) ≡ count b (min total (i * 32 + 32))
unfolding count_word
count_word-count total b words i h =
    let origin : i * 32 + 0 ≡ i * 32 = omega arith in
    let by_bits : count_bits total (b i) i 32 0 + count b (i * 32)
        ≡ count b (min total (i * 32 + 32)) =
      rw origin at (count_bits-count total b i 32 0 refl (omega arith)) in
    elim (Bool-cases (is_full (b i))) [
      | inl full ↦
          rw full (elim (Bool-cases ((if words == 0 then bits_in_last total else 32) == 32)) [
            | inl whole ↦
                let inside : i * 32 + 32 ≤ total = ground arith in
                let same : min total (i * 32 + 32) ≡ i * 32 + 32 = omega arith in
                rw (whole, same) (sym (count_range b (i * 32) 32 (full_AllUsed b i full)))
            | inr part ↦ rw part by_bits
          ])
      | inr holes ↦ rw holes by_bits
    ]

count_words-count :
    (total : ℕ) (b : Bitmap) (words i : ℕ)
    → i * 32 ≤ total
    → Ends total i words
    → count_words total b words i + count b (i * 32) ≡ count b total
unfolding count_words
count_words-count total b zero i le h =
    let e : i * 32 ≡ total = omega arith in omega (arith, ap (count b) e)
count_words-count total b (suc zero) i le h =
    let e : min total (i * 32 + 32) ≡ total = omega arith in
    omega (arith, count_word-count total b zero i h, ap (count b) e)
count_words-count total b (suc (suc words)) i le h =
    let e : min total (i * 32 + 32) ≡ (i + 1) * 32 = omega arith in
    omega (
      arith,
      count_word-count total b (suc words) i h,
      ap (count b) e,
      count_words-count total b (suc words) (i + 1) (omega arith) (omega arith),
    )

-- Counting word by word finds the number of frames in use: the full words, whose frames are not
-- looked at one by one, and the padding bits of the last word are counted right.
pub update_usage-count :
    (f : Frames) → f.total_block < u32 → (update_usage f).used_block ≡ count f.bitmap f.total_block
unfolding update_usage count
update_usage-count f small =
    let all =
      count_words-count f.total_block f.bitmap (num_chunks f) 0 (omega arith) (omega arith) in
    omega (arith, all, count-le f.bitmap f.total_block)
