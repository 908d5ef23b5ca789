-- ===== src/Frames/Runs.antt =====
-- find_first_free and pmmngr_alloc_multi_block: the first run of free frames that is long enough.
use kerosene.Base.{
  ℕ, zero, suc, ◌+◌, ◌-◌, ◌<◌, ◌≤◌, ◌≡◌, sym, ◌∙◌, ◌⊎◌, Bool-cases, true, false, Option, none, some,
  inl, inr, arith, ◌==◌, ltb, leb,
}
use kerosene.Frames.{
  Frames, Bitmap, test_bit, run_length, scan_runs, find_first_free_block, find_first_free,
}
use kerosene.Frames.Search.{Searched, find_first_free_block-Searched}

abbrev pub AllFree : Bitmap → ℕ → ℕ → Type 0
AllFree b lo hi = (m : ℕ) → lo ≤ m → m < hi → test_bit b m ≡ false

AllFree-cons :
    (b : Bitmap) (lo hi : ℕ) → test_bit b lo ≡ false → AllFree b (lo + 1) hi → AllFree b lo hi
AllFree-cons b lo hi h rest m above below = elim (Bool-cases (m == lo)) [
  | inl e ↦ let same : m ≡ lo = ground arith in rw same h
  | inr e ↦ rest m (ground arith) below
]

-- What the count of free frames behind `i` comes to.
record Counted (b : Bitmap) (i cnt k r : ℕ) : Type 0 where
  low : k ≤ r
  high : r ≤ cnt
  free : AllFree b (i + k) (i + r)
  stop : (r ≡ cnt) ⊎ ((r < cnt) × (test_bit b (i + r) ≡ true))

run_length-Counted :
    (b : Bitmap) (i cnt rounds k : ℕ)
    → k + rounds ≡ cnt
    → Counted b i cnt k (run_length b i rounds k)
unfolding run_length
run_length-Counted b i cnt zero k e = record {
  low = omega arith;
  high = omega arith;
  free = λ m above below. absurd (omega arith);
  stop = inl (omega arith);
}
run_length-Counted b i cnt (suc rounds) k e =
    let rest = run_length-Counted b i cnt rounds (k + 1) (omega arith) in
    elim (Bool-cases (test_bit b (i + k))) [
      | inl used ↦ rw used (record {
        low = omega arith;
        high = omega arith;
        free = λ m above below. absurd (omega arith);
        stop = inr (omega arith, used);
      })
      | inr free ↦
          let step : i + (k + 1) ≡ i + k + 1 = omega arith in
          rw free (record {
            low = omega (arith, rest.low);
            high = rest.high;
            free = AllFree-cons b (i + k) _ free (rw step at rest.free);
            stop = rest.stop;
          })
    ]

-- A frame in use keeps a run of `cnt` frames from starting at `s`.
abbrev pub Blocked : Bitmap → ℕ → ℕ → Type 0
Blocked b cnt s = (m : ℕ) × (s ≤ m) × (m < s + cnt) × (test_bit b m ≡ true)

abbrev RunFound : Bitmap → ℕ → ℕ → ℕ → Option ℕ → Type 0
RunFound b cnt last i none = (s : ℕ) → i ≤ s → s ≤ last → Blocked b cnt s
RunFound b cnt last i (some n) =
    (i ≤ n) × (n ≤ last) × AllFree b n (n + cnt) × ((s : ℕ) → i ≤ s → s < n → Blocked b cnt s)

RunFound-skip :
    (b : Bitmap) (cnt last i j : ℕ) (o : Option ℕ)
    → i ≤ j
    → ((s : ℕ) → i ≤ s → s < j → Blocked b cnt s)
    → RunFound b cnt last j o
    → RunFound b cnt last i o
RunFound-skip b cnt last i j none le early rest = λ s above below. elim (Bool-cases (leb j s)) [
  | inl h ↦ rest s (ground arith) below
  | inr h ↦ early s above (ground arith)
]
RunFound-skip b cnt last i j (some n) le early rest = (
  omega (arith, rest.0),
  rest.1,
  rest.2,
  λ s above below. elim (Bool-cases (leb j s)) [
    | inl h ↦ rest.3 s (ground arith) below
    | inr h ↦ early s above (ground arith)
  ],
)

scan_runs-RunFound :
    (fuel : ℕ) (b : Bitmap) (cnt last i : ℕ)
    → 0 < cnt
    → last < i + fuel
    → RunFound b cnt last i (scan_runs fuel b cnt last i)
unfolding scan_runs
scan_runs-RunFound zero b cnt last i pos h = λ s above below. absurd (omega arith)
scan_runs-RunFound (suc fuel) b cnt last i pos h =
    let k : ℕ = run_length b i (cnt - 1) 1 in
    let c = run_length-Counted b i cnt (cnt - 1) 1 (omega arith) in
    elim (Bool-cases (ltb last i)) [
      | inl out ↦ rw out (λ s above below. absurd (ground arith))
      | inr inn ↦ rw inn (elim (Bool-cases (test_bit b i)) [
        | inl used ↦ rw used (
            RunFound-skip b cnt last i (i + 1) (scan_runs fuel b cnt last (i + 1)) (omega arith)
              (λ s above below. (i, omega arith, omega arith, used))
              (scan_runs-RunFound fuel b cnt last (i + 1) pos (omega arith)))
        | inr free ↦ rw free (elim (Bool-cases (k == cnt)) [
          | inl long ↦
              let e : k ≡ cnt = ground arith in
              rw long (
                omega arith,
                ground arith,
                AllFree-cons b i (i + cnt) free (rw e at c.free),
                λ s above below. absurd (omega arith),
              )
          | inr short ↦
              let stopped : (k < cnt) × (test_bit b (i + k) ≡ true) = elim c.stop [
                | inl e ↦ absurd (ground arith)
                | inr p ↦ p
              ] in
              rw short (
                RunFound-skip b cnt last i (i + k + 1) (scan_runs fuel b cnt last (i + k + 1))
                  (omega arith) (λ s above below. (i + k, omega arith, omega arith, stopped.1))
                  (scan_runs-RunFound fuel b cnt last (i + k + 1) pos (omega arith)))
        ])
      ])
    ]

Blocked-not_free : (b : Bitmap) (cnt s : ℕ) → Blocked b cnt s → ¬ AllFree b s (s + cnt)
Blocked-not_free b cnt s (m, above, below, used) free = cc (sym used ∙ free m above below)

-- The first run of `cnt` free frames below `total`, if there is one.
abbrev pub FirstRun : ℕ → Bitmap → ℕ → Option ℕ → Type 0
FirstRun total b cnt none = (s : ℕ) → s + cnt ≤ total → ¬ AllFree b s (s + cnt)
FirstRun total b cnt (some n) =
    (n + cnt ≤ total) × AllFree b n (n + cnt) × ((s : ℕ) → s < n → ¬ AllFree b s (s + cnt))

of_RunFound :
    (total : ℕ) (b : Bitmap) (cnt : ℕ) (o : Option ℕ)
    → cnt ≤ total
    → RunFound b cnt (total - cnt) 0 o
    → FirstRun total b cnt o
of_RunFound total b cnt none le p =
    λ s h. Blocked-not_free b cnt s (p s (omega arith) (omega arith))
of_RunFound total b cnt (some n) le p =
    (omega (arith, p.1), p.2, λ s h. Blocked-not_free b cnt s (p.3 s (omega arith) h))

of_Searched : (total : ℕ) (b : Bitmap) (o : Option ℕ) → Searched total b 0 o → FirstRun total b 1 o
of_Searched total b none p =
    λ s h free. cc (sym (p s (omega arith) (omega arith)) ∙ free s (omega arith) (omega arith))
of_Searched total b (some n) p = (
  omega (arith, p.inside),
  λ m above below. let e : m ≡ n = omega arith in rw e p.free,
  λ s h free. cc (sym (p.before s (omega arith) h) ∙ free s (omega arith) (omega arith)),
)

-- The search for `cnt` frames in a row yields the lowest frame that starts such a run below the
-- number of frames; where it yields none, there is no such run. The skip over the frames that were
-- seen to be too few loses none.
pub find_first_free-FirstRun :
    (f : Frames) (cnt : ℕ) → 0 < cnt → FirstRun f.total_block f.bitmap cnt (find_first_free f cnt)
unfolding find_first_free
find_first_free-FirstRun f cnt pos =
    let zero_not : (cnt == 0) ≡ false = ground arith in
    rw zero_not (elim (Bool-cases (cnt == 1)) [
      | inl one ↦
          let e : cnt ≡ 1 = ground arith in
          rw one (
            rw e (
              of_Searched f.total_block f.bitmap (find_first_free_block f)
                (find_first_free_block-Searched f)))
      | inr many ↦ rw many (elim (Bool-cases (ltb f.total_block cnt)) [
        | inl large ↦ rw large (λ s h. absurd (ground arith))
        | inr fits ↦ rw fits (
            of_RunFound f.total_block f.bitmap cnt
              (scan_runs (f.total_block + 1) f.bitmap cnt (f.total_block - cnt) 0) (ground arith)
              (scan_runs-RunFound (f.total_block + 1) f.bitmap cnt (f.total_block - cnt) 0 pos
                (omega arith)))
      ])
    ])
