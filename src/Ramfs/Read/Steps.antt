-- ===== src/Ramfs/Read/Steps.antt =====
-- Reading from a node on, as read_file of kernel/src/filesystem/ramfs.c does after it has skipped nodes.
use kerosene.Base.{
  ℕ, zero, suc, ◌+◌, ◌-◌, ◌*◌, ◌<◌, ◌≤◌, ◌≡◌, refl, ◌∙◌, sym, inl, inr, Bool-cases, true, false,
  Option, some, List, [], ◌∷◌, ◌++◌, length, take, drop, length-drop, arith, ◌==◌, ltb, leb,
  if◌then◌else◌,
}
use mathlib.Core.List.{append-nil}
use kerosene.Process.{Ptr, null}
use kerosene.Files.{FsErr}
use kerosene.Ramfs.{Nodes, read_loop, read_at}
use kerosene.Ramfs.Content.{
  Chain, Full, content, take-append_le, take-append_ge, drop-append_le, take_all,
}

-- Success for a read that stays in a chain of `total` bytes, else the end of the file.
abbrev pub status : ℕ → ℕ → FsErr
status end total = if leb end total then FsErr.success else FsErr.eof

-- A read that ends with this error and these bytes.
abbrev pub Gives : Option (FsErr × List ℕ × Ptr) → FsErr → List ℕ → Type 0
Gives o e bytes = (q : Ptr) × (o ≡ some (e, bytes, q))

le_of : (a b : ℕ) → leb a b ≡ false → b ≤ a
le_of a b h = ground (arith, h)

leb_shift :
    (size n : ℕ) → 512 ≤ size → leb (size - 512) (512 * suc n) ≡ leb size (512 * suc (suc n))
leb_shift size n le =
    let more : 512 * suc (suc n) ≡ 512 * suc n + 512 = omega arith in rw more (ground (arith, le))

module _ {W : Type 0} (s : Nodes W) where
  -- A read that ends in its first node.
  read_loop-fits :
      (fuel : ℕ) (x : Ptr) (xs : List Ptr) (size : ℕ)
      → length (s.block x) ≡ 512
      → leb size 512 ≡ true
      → Gives
          (read_loop (suc fuel) s x size)
          (status size (512 * length (x ∷ xs)))
          (take size (content s.block (x ∷ xs)))
  unfolding read_loop content
  read_loop-fits fuel x xs size l fits =
      let all : (if ltb size 512 then size else 512) ≡ size = ground (arith, fits) in
      let done : (size - size == 0) ≡ true = ground arith in
      let inside : leb size (512 * suc (length xs)) ≡ true = ground (arith, fits) in
      let bytes = take-append_le size (s.block x) (content s.block xs) (ground (arith, fits, l)) in
      (x, rw (all, done, inside, bytes) refl)

  read_loop-Gives :
      (fuel : ℕ) (x : Ptr) (xs : List Ptr) (size : ℕ)
      → Chain s.next x (x ∷ xs)
      → Full s.block (x ∷ xs)
      → length xs < fuel
      → Gives
          (read_loop fuel s x size)
          (status size (512 * length (x ∷ xs)))
          (take size (content s.block (x ∷ xs)))
  unfolding read_loop content
  read_loop-Gives zero x xs size c full enough = elim enough [ ]
  read_loop-Gives (suc fuel) x [] size (e, ne, end) (l, full) enough =
      elim (Bool-cases (leb size 512)) [
        | inl fits ↦ read_loop-fits fuel x [] size l fits
        | inr more ↦
            let part : (if ltb size 512 then size else 512) ≡ 512 = ground (arith, more) in
            let left : (size - 512 == 0) ≡ false = ground (arith, more) in
            let bytes : take 512 (s.block x) ≡ take size (s.block x ++ []) = rw append-nil (
              take_all 512 (s.block x) (omega (arith, l))
              ∙ sym (take_all size (s.block x) (ground (arith, l, more)))) in
            (x, rw (part, left, end, more, bytes) refl)
      ]
  read_loop-Gives (suc fuel) x (y ∷ ys) size (e, ne, (to, ny, chain)) (l, full) enough =
      elim (Bool-cases (leb size 512)) [
        | inl fits ↦ read_loop-fits fuel x (y ∷ ys) size l fits
        | inr more ↦
            let part : (if ltb size 512 then size else 512) ≡ 512 = ground (arith, more) in
            let left : (size - 512 == 0) ≡ false = ground (arith, more) in
            let real : (y == null) ≡ false = ground (arith, ny) in
            let whole = take_all 512 (s.block x) (omega (arith, l)) in
            let bytes : take size (s.block x ++ content s.block (y ∷ ys))
                ≡ s.block x ++ take (size - 512) (content s.block (y ∷ ys)) =
              take-append_ge size (s.block x) (content s.block (y ∷ ys)) (ground (arith, more, l))
              ∙ rw l refl in
            let same : leb (size - 512) (512 * suc (length ys))
                ≡ leb size (512 * suc (suc (length ys))) =
              leb_shift size (length ys) (ground (arith, more)) in
            let (q, rest) =
              read_loop-Gives fuel y ys (size - 512) (refl, ny, chain) full
                (omega (arith, enough)) in
            (q, rw (part, left, to, real, rest, whole, bytes, same) refl)
      ]

  -- The first node of a read that begins within it.
  read_at-fits :
      (fuel : ℕ) (x : Ptr) (xs : List Ptr) (size offset : ℕ)
      → length (s.block x) ≡ 512
      → (offset == 0) ≡ false
      → offset < 512
      → leb size (512 - offset) ≡ true
      → Gives
          (read_at fuel s x size offset)
          (status (offset + size) (512 * length (x ∷ xs)))
          (take size (drop offset (content s.block (x ∷ xs))))
  unfolding read_at content
  read_at-fits fuel x xs size offset l nz lt fits =
      let inside : leb (offset + size) (512 * suc (length xs)) ≡ true = ground (arith, fits, lt) in
      let cut = drop-append_le offset (s.block x) (content s.block xs) (omega (arith, l, lt)) in
      let bytes =
        take-append_le size (drop offset (s.block x)) (content s.block xs)
          (ground (arith, fits, length-drop offset (s.block x), l)) in
      (x, rw (nz, fits, inside, cut, bytes) refl)

  -- The bytes of a read that reaches the end of its first node.
  pub bytes_over :
      (x : Ptr) (rest : List ℕ) (size offset : ℕ)
      → length (s.block x) ≡ 512
      → offset < 512
      → 512 - offset ≤ size
      → take size (drop offset (s.block x ++ rest))
        ≡ take (512 - offset) (drop offset (s.block x)) ++ take (size - (512 - offset)) rest
  bytes_over x rest size offset l lt over =
      let cut = drop-append_le offset (s.block x) rest (omega (arith, l, lt)) in
      let piece = drop offset (s.block x) in
      let len : length piece ≡ 512 - offset = length-drop offset (s.block x) ∙ rw l refl in
      let whole = take_all (512 - offset) piece (omega (arith, len)) in
      let split = take-append_ge size piece rest (omega (arith, over, len)) in
      rw (cut, whole, split, len) refl

  read_at-over :
      (fuel : ℕ) (x : Ptr) (xs : List Ptr) (size offset : ℕ)
      → Chain s.next x (x ∷ xs)
      → Full s.block (x ∷ xs)
      → length xs < fuel
      → (offset == 0) ≡ false
      → offset < 512
      → leb size (512 - offset) ≡ false
      → Gives
          (read_at fuel s x size offset)
          (status (offset + size) (512 * length (x ∷ xs)))
          (take size (drop offset (content s.block (x ∷ xs))))
  unfolding read_at content
  read_at-over fuel x [] size offset (e, ne, end) (l, full) enough nz lt over =
      let beyond : leb (offset + size) 512 ≡ false = ground (arith, over) in
      let none_left : take (size - (512 - offset)) (content s.block []) ≡ [] =
        take_all (size - (512 - offset)) [] (omega arith) in
      let bytes = bytes_over x [] size offset l lt (le_of size (512 - offset) over) in
      (x, rw (nz, over, end, beyond, bytes, none_left, append-nil) refl)
  read_at-over fuel x (y ∷ ys) size offset (e, ne, (to, ny, chain)) (l, full) enough nz lt over =
      let left = size - (512 - offset) in
      let real : (y == null) ≡ false = ground (arith, ny) in
      let (q, rest) =
        read_loop-Gives fuel y ys left (refl, ny, chain) full (omega (arith, enough)) in
      let same : leb left (512 * suc (length ys))
          ≡ leb (offset + size) (512 * suc (suc (length ys))) =
        ground (arith, over, lt) in
      let bytes =
        bytes_over x (content s.block (y ∷ ys)) size offset l lt (le_of size (512 - offset) over) in
      (q, rw (nz, over, to, real, rest, bytes, same) refl)

  pub read_at-Gives :
      (fuel : ℕ) (x : Ptr) (xs : List Ptr) (size offset : ℕ)
      → Chain s.next x (x ∷ xs)
      → Full s.block (x ∷ xs)
      → length xs < fuel
      → offset < 512
      → Gives
          (read_at fuel s x size offset)
          (status (offset + size) (512 * length (x ∷ xs)))
          (take size (drop offset (content s.block (x ∷ xs))))
  unfolding read_at content
  read_at-Gives fuel x xs size offset c full enough lt = elim (Bool-cases (offset == 0)) [
    | inl start ↦
        let at_start : offset ≡ 0 = ground (arith, start) in
        let plain : 0 + size ≡ size = omega arith in
        rw (at_start, plain) (read_loop-Gives fuel x xs size c full enough)
    | inr nz ↦ elim (Bool-cases (leb size (512 - offset))) [
      | inl fits ↦ read_at-fits fuel x xs size offset full.0 nz lt fits
      | inr over ↦ read_at-over fuel x xs size offset c full enough nz lt over
    ]
  ]
