-- ===== src/Ramfs/Read.antt =====
-- read_file against the content of the chain.
pub mod Steps
pub use kerosene.Ramfs.Read.Steps.{status, Gives, bytes_over}
use kerosene.Ramfs.Read.Steps.{read_at-Gives}
use kerosene.Base.{
  ℕ, zero, suc, ◌+◌, ◌-◌, ◌*◌, ◌<◌, ◌≤◌, ◌≡◌, refl, ◌∙◌, sym, ap, ◌⊎◌, inl, inr, Bool-cases, true,
  false, Option, some, List, [], ◌∷◌, ◌++◌, length, take, drop, length-drop, arith, ◌==◌, ltb, leb,
  if◌then◌else◌,
}
use mathlib.Core.List.{append-nil}
use kerosene.Process.{Ptr, null}
use kerosene.Files.{FsErr}
use kerosene.Ramfs.{Nodes, Skipped, past_end, at, skip, read_loop, read_at, read_file}
use kerosene.Ramfs.Content.{
  Chain, Full, content, length-content, take-append_le, take-append_ge, drop-append_le,
  drop-append_ge, take_all, drop_all,
}

module _ {W : Type 0} (s : Nodes W) where
  -- Where skipping `offset` bytes ends.
  SkipsTo : Option Skipped → ℕ → List Ptr → Type 0
  SkipsTo o offset xs =
      ((q : Ptr) × (o ≡ some (past_end q)) × (512 * length xs ≤ offset))
      ⊎ ((y : Ptr) × (ys : List Ptr) × (left : ℕ) × (o ≡ some (at y left))
          × Chain s.next y (y ∷ ys)
          × Full s.block (y ∷ ys)
          × (length ys < length xs)
          × (left < 512)
          × (drop offset (content s.block xs) ≡ drop left (content s.block (y ∷ ys)))
          × (offset + 512 * length (y ∷ ys) ≡ left + 512 * length xs))

  skip-SkipsTo :
      (fuel : ℕ) (x : Ptr) (xs : List Ptr) (offset : ℕ)
      → Chain s.next x (x ∷ xs)
      → Full s.block (x ∷ xs)
      → length xs < fuel
      → SkipsTo (skip fuel s.next x offset) offset (x ∷ xs)
  unfolding skip content SkipsTo
  skip-SkipsTo zero x xs offset c full enough = elim enough [ ]
  skip-SkipsTo (suc fuel) x [] offset (e, ne, end) full enough =
      elim (Bool-cases (ltb offset 512)) [
        | inl here ↦ rw here (
            inr (
              x,
              [],
              offset,
              refl,
              (refl, ne, end),
              full,
              omega arith,
              ground (arith, here),
              refl,
              omega arith,
            ))
        | inr far ↦ rw (far, end) (inl (x, refl, ground (arith, far)))
      ]
  skip-SkipsTo (suc fuel) x (y ∷ ys) offset (e, ne, (to, ny, chain)) (l, full) enough =
      elim (Bool-cases (ltb offset 512)) [
        | inl here ↦ rw here (
            inr (
              x,
              y ∷ ys,
              offset,
              refl,
              (refl, ne, (to, ny, chain)),
              (l, full),
              omega arith,
              ground (arith, here),
              refl,
              omega arith,
            ))
        | inr far ↦
            let real : (y == null) ≡ false = ground (arith, ny) in
            let cut : drop offset (s.block x ++ content s.block (y ∷ ys))
                ≡ drop (offset - 512) (content s.block (y ∷ ys)) =
              drop-append_ge offset (s.block x) (content s.block (y ∷ ys)) (ground (arith, far, l))
              ∙ rw l refl in
            rw (far, to, real, cut)
              (elim (skip-SkipsTo fuel y ys (offset - 512) (refl, ny, chain) full
                (omega (arith, enough))) [
                  | inl (q, r, le) ↦ inl (q, r, ground (arith, le, far))
                  | inr (z, zs, left, r, c, f, shorter, lt, bytes, sum) ↦ inr (
                    z,
                    zs,
                    left,
                    r,
                    c,
                    f,
                    omega (arith, shorter),
                    lt,
                    bytes,
                    ground (arith, sum, far),
                  )
                ])
      ]

  -- Reading `size` bytes from an offset on in a chain of whole data nodes ends, with as much fuel as
  -- the chain has nodes, and gives those of the bytes that the chain holds; the result is success where
  -- the chain holds them all and the offset lies in it, and the end of the file otherwise.
  pub read_file-content :
      (fuel : ℕ) (x : Ptr) (xs : List Ptr) (size offset : ℕ)
      → Chain s.next x (x ∷ xs)
      → Full s.block (x ∷ xs)
      → length xs < fuel
      → let bytes = content s.block (x ∷ xs) in
        Gives
          (read_file fuel s x size offset)
          (if ltb offset (length bytes) then status (offset + size) (length bytes) else FsErr.eof)
          (take size (drop offset bytes))
  unfolding read_file SkipsTo
  read_file-content fuel x xs size offset c full enough =
      let len = length-content s.block (x ∷ xs) full in
      elim (skip-SkipsTo fuel x xs offset c full enough) [
        | inl (q, r, le) ↦
            let beyond : ltb offset (512 * suc (length xs)) ≡ false = ground (arith, le) in
            let nothing : take size (drop offset (content s.block (x ∷ xs))) ≡ [] =
              ap (take size) (drop_all offset (content s.block (x ∷ xs)) (omega (arith, le, len)))
              ∙ take_all size [] (omega arith) in
            (q, rw (r, len, beyond, nothing) refl)
        | inr (y, ys, left, r, c', f, shorter, lt, bytes, sum) ↦
            let (q, reads) =
              read_at-Gives s fuel y ys size left c' f (omega (arith, shorter, enough)) lt in
            let inside : ltb offset (512 * suc (length xs)) ≡ true = ground (arith, sum, lt) in
            let same : leb (left + size) (512 * suc (length ys))
                ≡ leb (offset + size) (512 * suc (length xs)) =
              ground (arith, sum, lt) in
            (q, rw (r, reads, len, inside, bytes, same) refl)
      ]
