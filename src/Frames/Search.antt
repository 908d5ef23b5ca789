-- ===== src/Frames/Search.antt =====
-- find_first_free_block: the scan by words finds the lowest free frame.
use kerosene.Base.{
  ℕ, zero, suc, ◌+◌, ◌*◌, ◌/◌, ◌%◌, ◌<◌, ◌≤◌, ◌≡◌, refl, Bool-cases, true, false, Option, none,
  some, inl, inr, arith, ◌==◌, leb,
}
use kerosene.Frames.{
  Frames, Word, Bitmap, test_bit, all_set, is_full, Scan, next, past_end, found, scan_bits,
  scan_words, num_chunks, find_first_free_block,
}

-- Every frame from `lo` up to `hi` is in use.
abbrev pub AllUsed : Bitmap → ℕ → ℕ → Type 0
AllUsed b lo hi = (m : ℕ) → lo ≤ m → m < hi → test_bit b m ≡ true

-- `n` is the lowest free frame from `lo` on.
pub record IsFirst (total : ℕ) (b : Bitmap) (lo n : ℕ) : Type 0 where
  pub inside : n < total
  pub above : lo ≤ n
  pub free : test_bit b n ≡ false
  pub before : AllUsed b lo n

pub test_bit-word : (b : Bitmap) (i j : ℕ) → j < 32 → test_bit b (i * 32 + j) ≡ b i j
test_bit-word b i j h =
    let e : (i * 32 + j) / 32 ≡ i = omega arith in
    let e' : (i * 32 + j) % 32 ≡ j = omega arith in rw (e, e')

AllUsed-cons :
    (b : Bitmap) (lo hi : ℕ) → test_bit b lo ≡ true → AllUsed b (lo + 1) hi → AllUsed b lo hi
AllUsed-cons b lo hi h rest m above below = elim (Bool-cases (m == lo)) [
  | inl e ↦ let same : m ≡ lo = ground arith in rw same h
  | inr e ↦ rest m (ground arith) below
]

AllUsed-join : (b : Bitmap) (lo mid hi : ℕ) → AllUsed b lo mid → AllUsed b mid hi → AllUsed b lo hi
AllUsed-join b lo mid hi p q m above below = elim (Bool-cases (leb mid m)) [
  | inl e ↦ q m (ground arith) below
  | inr e ↦ p m above (ground arith)
]

-- What a scan of the bits of word `i` from bit `j` on tells.
abbrev Scanned : ℕ → Bitmap → ℕ → ℕ → Scan → Type 0
Scanned total b lo hi next = AllUsed b lo hi
Scanned total b lo hi past_end = AllUsed b lo total
Scanned total b lo hi (found n) = IsFirst total b lo n

Scanned-cons :
    (total : ℕ) (b : Bitmap) (lo hi : ℕ) (s : Scan)
    → test_bit b lo ≡ true
    → Scanned total b (lo + 1) hi s
    → Scanned total b lo hi s
Scanned-cons total b lo hi next h p = AllUsed-cons b lo hi h p
Scanned-cons total b lo hi past_end h p = AllUsed-cons b lo total h p
Scanned-cons total b lo hi (found n) h p = record {
  inside = p.inside;
  above = omega (arith, p.above);
  free = p.free;
  before = AllUsed-cons b lo n h p.before;
}

scan_bits-Scanned :
    (total : ℕ) (b : Bitmap) (i rounds j : ℕ)
    → j + rounds ≡ 32
    → Scanned total b (i * 32 + j) (i * 32 + 32) (scan_bits total (b i) i rounds j)
unfolding scan_bits
scan_bits-Scanned total b i zero j e = λ m above below. absurd (omega arith)
scan_bits-Scanned total b i (suc rounds) j e = elim (Bool-cases (leb total (i * 32 + j))) [
  | inl out ↦ rw out (λ m above below. absurd (ground arith))
  | inr inn ↦ rw inn (elim (Bool-cases (b i j)) [
    | inl used ↦
        let bit : test_bit b (i * 32 + j) ≡ true =
          ground (arith, test_bit-word b i j (omega arith)) in
        let step : i * 32 + j + 1 ≡ i * 32 + (j + 1) = omega arith in
        rw used (
          Scanned-cons total b (i * 32 + j) (i * 32 + 32) (scan_bits total (b i) i rounds (j + 1))
            bit (rw step (scan_bits-Scanned total b i rounds (j + 1) (omega arith))))
    | inr free ↦ rw free (record {
      inside = ground arith;
      above = omega arith;
      free = ground (arith, test_bit-word b i j (omega arith));
      before = λ m above below. absurd (omega arith);
    })
  ])
]

all_set-bit : (n : ℕ) (w : Word) (j : ℕ) → all_set n w ≡ true → j < n → w j ≡ true
all_set-bit zero w j h lt = absurd (omega arith)
all_set-bit (suc n) w j h lt = ground (arith, all_set-bit n w j)

pub full_AllUsed : (b : Bitmap) (i : ℕ) → is_full (b i) ≡ true → AllUsed b (i * 32) (i * 32 + 32)
unfolding is_full
full_AllUsed b i h m above below =
    let e : m / 32 ≡ i = omega arith in rw e (all_set-bit 32 (b i) (m % 32) h (omega arith))

-- The outcome of a search from `lo` on.
abbrev pub Searched : ℕ → Bitmap → ℕ → Option ℕ → Type 0
Searched total b lo none = AllUsed b lo total
Searched total b lo (some n) = IsFirst total b lo n

Searched-join :
    (total : ℕ) (b : Bitmap) (lo mid : ℕ) (o : Option ℕ)
    → lo ≤ mid
    → AllUsed b lo mid
    → Searched total b mid o
    → Searched total b lo o
Searched-join total b lo mid none le p q = AllUsed-join b lo mid total p q
Searched-join total b lo mid (some n) le p q = record {
  inside = q.inside;
  above = omega (arith, q.above);
  free = q.free;
  before = AllUsed-join b lo mid n p q.before;
}

scan_words-Searched :
    (total : ℕ) (b : Bitmap) (words i : ℕ)
    → total ≤ (i + words) * 32
    → Searched total b (i * 32) (scan_words total b words i)
unfolding scan_words
scan_words-Searched total b zero i h = λ m above below. absurd (omega arith)
scan_words-Searched total b (suc words) i h =
    let step : i * 32 + 32 ≡ (i + 1) * 32 = omega arith in
    let rest : Searched total b (i * 32 + 32) (scan_words total b words (i + 1)) =
      rw step (scan_words-Searched total b words (i + 1) (omega arith)) in
    let origin : i * 32 + 0 ≡ i * 32 = omega arith in
    elim (Bool-cases (is_full (b i))) [
      | inl full ↦ rw full (
          Searched-join total b (i * 32) (i * 32 + 32) (scan_words total b words (i + 1))
            (omega arith) (full_AllUsed b i full) rest)
      | inr open_word ↦ rw open_word (
          split (scan_bits total (b i) i 32 0) (scan_words total b words (i + 1))
            (rw origin at (scan_bits-Scanned total b i 32 0 refl)) rest)
    ]
  where
    split :
        (s : Scan) (o : Option ℕ)
        → Scanned total b (i * 32) (i * 32 + 32) s
        → Searched total b (i * 32 + 32) o
        → Searched total b (i * 32) (elim s [ next ↦ o | past_end ↦ none | found n ↦ some n ])
    split next o p q = Searched-join total b (i * 32) (i * 32 + 32) o (omega arith) p q
    split past_end o p q = p
    split (found n) o p q = p

-- The search yields the lowest free frame below the number of frames; where it yields none, every
-- frame below that number is in use.
pub find_first_free_block-Searched :
    (f : Frames) → Searched f.total_block f.bitmap 0 (find_first_free_block f)
unfolding find_first_free_block
find_first_free_block-Searched f =
    scan_words-Searched f.total_block f.bitmap (num_chunks f) 0 (omega arith)
