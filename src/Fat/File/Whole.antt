-- ===== src/Fat/File/Whole.antt =====
-- read_file of kernel/src/filesystem/fat32.c from its first loop on.
use kerosene.Base.{
  ℕ, zero, suc, ◌+◌, ◌-◌, ◌<◌, ◌≤◌, ◌≡◌, refl, ◌∙◌, ap, ◌⊎◌, inl, inr, Bool-cases, true, false,
  Option, some, List, [], ◌∷◌, ◌++◌, length, take, drop, length-append, arith, ltb, leb,
  if◌then◌else◌,
}
use mathlib.Core.List.{append-nil}
use kerosene.Files.{FsErr}
use kerosene.Fat.{Volume, Disk}
use kerosene.Fat.Entries.{fat}
use kerosene.Fat.Chains.Link.{Chain}
use kerosene.Fat.File.{cluster_size, cluster_bytes, Skipped, stopped, at, skip, read_file}
use kerosene.Fat.File.Read.{
  IsSized, content, Gives, inner, last_one, length-cluster_bytes, read_at-Gives,
}
use kerosene.Ramfs.Content.{take_all, drop-append_ge, drop_all}
use kerosene.Ramfs.Read.{status}

module _ (v : Volume) (sized : IsSized v) (d : Disk) where
  -- Where skipping `offset` bytes ends.
  SkipsTo : Option Skipped → ℕ → List ℕ → Type 0
  SkipsTo o offset xs =
      ((q : ℕ) × (o ≡ some (stopped FsErr.eof q)) × (length (content v d xs) ≤ offset))
      ⊎ ((y : ℕ) × (ys : List ℕ) × (left : ℕ) × (o ≡ some (at y left))
          × Chain (fat v d) y (y ∷ ys)
          × (length ys < length xs)
          × (left < cluster_size v)
          × (drop offset (content v d xs) ≡ drop left (content v d (y ∷ ys)))
          × (offset + length (content v d (y ∷ ys)) ≡ left + length (content v d xs)))

  skip-SkipsTo :
      (fuel : ℕ) (x : ℕ) (xs : List ℕ) (offset : ℕ)
      → Chain (fat v d) x (x ∷ xs)
      → length xs < fuel
      → SkipsTo (skip fuel v d x offset) offset (x ∷ xs)
  unfolding skip content SkipsTo
  skip-SkipsTo zero x xs offset chain enough = elim enough [ ]
  skip-SkipsTo (suc fuel) x [] offset (e, is, end) enough =
      elim (Bool-cases (ltb offset (cluster_size v))) [
        | inl here ↦ inr (
          x,
          [],
          offset,
          rw here refl,
          (e, is, end),
          omega arith,
          ground (arith, here),
          refl,
          omega arith,
        )
        | inr beyond ↦
            let (stop, good) = last_one (fat v d x) end in
            inl (
              x,
              rw (beyond, good, stop) refl,
              rw append-nil (ground (arith, beyond, length-cluster_bytes v sized d x)),
            )
      ]
  skip-SkipsTo (suc fuel) x (y ∷ ys) offset (e, is, (to, is_y, chain)) enough =
      let w = cluster_bytes v d x in
      let rest = content v d (y ∷ ys) in
      let len : length w ≡ cluster_size v = length-cluster_bytes v sized d x in
      let total = length-append w rest in
      elim (Bool-cases (ltb offset (cluster_size v))) [
        | inl here ↦ inr (
          x,
          y ∷ ys,
          offset,
          rw here refl,
          (e, is, (to, is_y, chain)),
          omega arith,
          ground (arith, here),
          refl,
          omega arith,
        )
        | inr beyond ↦
            let (on, good) = inner y is_y in
            let le : cluster_size v ≤ offset = ground (arith, beyond) in
            let step : skip (suc fuel) v d x offset ≡ skip fuel v d y (offset - cluster_size v) =
              rw (beyond, to, on, good) refl in
            let bytes : drop offset (w ++ rest) ≡ drop (offset - cluster_size v) rest =
              drop-append_ge offset w rest (omega (arith, le, len)) ∙ rw len refl in
            elim (skip-SkipsTo fuel y ys (offset - cluster_size v) (refl, is_y, chain)
              (omega (arith, enough))) [
                | inl (q, stops, out) ↦ inl (q, step ∙ stops, omega (arith, out, total, len, le))
                | inr (z, zs, left, lands, chain_z, fewer, lt, same, sum) ↦ inr (
                  z,
                  zs,
                  left,
                  step ∙ lands,
                  chain_z,
                  omega (arith, fewer),
                  lt,
                  bytes ∙ same,
                  omega (arith, sum, total, len, le),
                )
              ]
      ]

  pub length-content_cons : (y : ℕ) (ys : List ℕ) → cluster_size v ≤ length (content v d (y ∷ ys))
  unfolding content
  length-content_cons y ys = omega (
    arith,
    length-append (cluster_bytes v d y) (content v d ys),
    length-cluster_bytes v sized d y,
  )

  -- read_file reads the bytes of the chain from the offset on: as many as asked for, with success, or as
  -- many as there are, with the end of file. An offset at the end of the chain or behind it gives the end
  -- of file and no bytes, also where no bytes are asked for. The clusters have one sector or more, and a
  -- round of fuel for each cluster is enough.
  pub read_file-Gives :
      (fuel : ℕ) (x : ℕ) (xs : List ℕ) (size offset : ℕ)
      → Chain (fat v d) x (x ∷ xs)
      → length xs < fuel
      → let c = content v d (x ∷ xs) in
        Gives
          (read_file fuel v d x size offset)
          (if ltb offset (length c) then status (offset + size) (length c) else FsErr.eof)
          (take size (drop offset c))
  unfolding read_file SkipsTo
  read_file-Gives fuel x xs size offset chain enough =
      let c = content v d (x ∷ xs) in
      elim (skip-SkipsTo fuel x xs offset chain enough) [
        | inl (q, stops, out) ↦
            let past : ltb offset (length c) ≡ false = ground (arith, out) in
            let nothing : take size (drop offset c) ≡ [] =
              ap (take size) (drop_all offset c out) ∙ take_all size [] (omega arith) in
            (q, rw (stops, past, nothing) refl)
        | inr (y, ys, left, lands, chain_y, fewer, lt, bytes, sum) ↦
            let here = content v d (y ∷ ys) in
            let (q, reads) =
              read_at-Gives v sized d fuel y ys size left chain_y (omega (arith, fewer, enough))
                lt in
            let room = length-content_cons y ys in
            let inside : ltb offset (length c) ≡ true = ground (arith, sum, lt, room) in
            let same : leb (left + size) (length here) ≡ leb (offset + size) (length c) =
              ground (arith, sum) in
            (q, rw (lands, reads, inside, bytes, same) refl)
      ]
