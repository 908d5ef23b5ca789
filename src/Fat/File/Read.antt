-- ===== src/Fat/File/Read.antt =====
-- read_file of kernel/src/filesystem/fat32.c against the bytes of the chain.
use kerosene.Base.{
  ℕ, zero, suc, ◌+◌, ◌-◌, ◌*◌, ◌<◌, ◌≤◌, ◌≡◌, refl, ◌∙◌, sym, ap, inl, inr, Bool-cases, true, false,
  Option, some, List, [], ◌∷◌, ◌++◌, length, take, drop, length-append, length-drop, arith, ◌==◌,
  ltb, leb,
}
use mathlib.Core.List.{append-nil}
use kerosene.Files.{FsErr}
use kerosene.Fat.{fat_eoc, fat_bad_cluster, Volume, Disk}
use kerosene.Fat.Entries.{fat}
use kerosene.Fat.Chains.Link.{IsCluster, Chain}
use kerosene.Fat.File.{cluster_size, cluster_bytes, segment, read_loop, read_at}
use kerosene.Ramfs.Content.{take-append_le, take-append_ge, drop-append_le, take_all}
use kerosene.Ramfs.Read.{status}

-- A cluster holds at least one sector and its size is a byte.
pub record IsSized (v : Volume) : Type 0 where
  pub sector : v.bootrec.bytes_per_sector ≡ 512
  pub low : 0 < v.bootrec.sectors_per_cluster
  pub high : v.bootrec.sectors_per_cluster < 256

-- The bytes of a chain.
unfoldable pub content : Volume → Disk → List ℕ → List ℕ
content v d [] = []
content v d (x ∷ xs) = cluster_bytes v d x ++ content v d xs

-- A read that ends with this error and these bytes.
abbrev pub Gives : Option (FsErr × List ℕ × ℕ) → FsErr → List ℕ → Type 0
Gives o e bytes = (q : ℕ) × (o ≡ some (e, bytes, q))

length-segment : (b : ℕ → ℕ) (i n : ℕ) → length (segment b i n) ≡ n
length-segment b i zero = refl
length-segment b i (suc n) = ap suc (length-segment b (i + 1) n)

le_of : (a b : ℕ) → leb a b ≡ false → b ≤ a
le_of a b h = ground (arith, h)

pub inner : (y : ℕ) → IsCluster y → (leb fat_eoc y ≡ false) × ((y == fat_bad_cluster) ≡ false)
inner y is = ground arith

pub last_one : (e : ℕ) → fat_eoc ≤ e → (leb fat_eoc e ≡ true) × ((e == fat_bad_cluster) ≡ false)
last_one e h = ground arith

shift : (c size rest all : ℕ) → c ≤ size → all ≡ c + rest → leb (size - c) rest ≡ leb size all
shift c size rest all le eq = ground (arith, le, eq)

module _ (v : Volume) (sized : IsSized v) (d : Disk) where
  pub size_eq : cluster_size v ≡ 512 * v.bootrec.sectors_per_cluster
  size_eq = rw sized.sector (omega (arith, sized.high))

  pub length-cluster_bytes : (x : ℕ) → length (cluster_bytes v d x) ≡ cluster_size v
  unfolding cluster_bytes
  length-cluster_bytes x = length-segment _ 0 _ ∙ sym size_eq

  pub cluster_size_pos : 0 < cluster_size v
  cluster_size_pos = omega (arith, size_eq, sized.low)

  -- A read that ends in its first cluster.
  read_loop-fits :
      (fuel : ℕ) (x : ℕ) (xs : List ℕ) (size : ℕ)
      → leb size (cluster_size v) ≡ true
      → Gives
          (read_loop (suc fuel) v d x size)
          (status size (length (content v d (x ∷ xs))))
          (take size (content v d (x ∷ xs)))
  unfolding read_loop content
  read_loop-fits fuel x xs size le =
      let w = cluster_bytes v d x in
      let len : length w ≡ cluster_size v = length-cluster_bytes x in
      let fits : leb size (length (w ++ content v d xs)) ≡ true =
        ground (arith, le, len, length-append w (content v d xs)) in
      let bytes = take-append_le size w (content v d xs) (ground (arith, le, len)) in
      elim (Bool-cases (ltb size (cluster_size v))) [
        | inl small ↦ (x, rw (small, fits, bytes) refl)
        | inr big ↦
            let done : (size - cluster_size v == 0) ≡ true = ground (arith, le) in
            let all : take size w ≡ w = take_all size w (ground (arith, len, big)) in
            (x, rw (big, done, fits, bytes, all) refl)
      ]

  pub read_loop-Gives :
      (fuel : ℕ) (x : ℕ) (xs : List ℕ) (size : ℕ)
      → Chain (fat v d) x (x ∷ xs)
      → length xs < fuel
      → Gives
          (read_loop fuel v d x size)
          (status size (length (content v d (x ∷ xs))))
          (take size (content v d (x ∷ xs)))
  unfolding read_loop content
  read_loop-Gives zero x xs size chain enough = elim enough [ ]
  read_loop-Gives (suc fuel) x [] size (e, is, end) enough =
      elim (Bool-cases (leb size (cluster_size v))) [
        | inl le ↦ read_loop-fits fuel x [] size le
        | inr more ↦
            let w = cluster_bytes v d x in
            let len : length w ≡ cluster_size v = length-cluster_bytes x in
            let big : ltb size (cluster_size v) ≡ false = ground (arith, more) in
            let left : (size - cluster_size v == 0) ≡ false = ground (arith, more) in
            let all : take size w ≡ w = take_all size w (ground (arith, len, more)) in
            let (stop, good) = last_one (fat v d x) end in
            (x, rw (big, left, stop, append-nil, all, len, more) refl)
      ]
  read_loop-Gives (suc fuel) x (y ∷ ys) size (e, is, (to, is_y, chain)) enough =
      elim (Bool-cases (leb size (cluster_size v))) [
        | inl le ↦ read_loop-fits fuel x (y ∷ ys) size le
        | inr more ↦
            let w = cluster_bytes v d x in
            let rest = content v d (y ∷ ys) in
            let len : length w ≡ cluster_size v = length-cluster_bytes x in
            let big : ltb size (cluster_size v) ≡ false = ground (arith, more) in
            let left : (size - cluster_size v == 0) ≡ false = ground (arith, more) in
            let (on, good) = inner y is_y in
            let bytes : take size (w ++ rest) ≡ w ++ take (size - cluster_size v) rest =
              take-append_ge size w rest (ground (arith, more, len)) ∙ rw len refl in
            let same : leb (size - cluster_size v) (length rest) ≡ leb size (length (w ++ rest)) =
              shift (cluster_size v) size (length rest) (length (w ++ rest)) (ground (arith, more))
                (omega (arith, len, length-append w rest)) in
            let (q, r) =
              read_loop-Gives fuel y ys (size - cluster_size v) (refl, is_y, chain)
                (omega (arith, enough)) in
            (q, rw (big, left, to, on, good, r, bytes, same) refl)
      ]

  -- A read that begins behind the start of its first cluster and ends in it.
  read_at-fits :
      (fuel : ℕ) (x : ℕ) (xs : List ℕ) (size offset : ℕ)
      → (offset == 0) ≡ false
      → offset < cluster_size v
      → leb size (cluster_size v - offset) ≡ true
      → Gives
          (read_at fuel v d x size offset)
          (status (offset + size) (length (content v d (x ∷ xs))))
          (take size (drop offset (content v d (x ∷ xs))))
  unfolding read_at content
  read_at-fits fuel x xs size offset nz lt fits =
      let w = cluster_bytes v d x in
      let len : length w ≡ cluster_size v = length-cluster_bytes x in
      let inside : leb (offset + size) (length (w ++ content v d xs)) ≡ true =
        ground (arith, fits, lt, len, length-append w (content v d xs)) in
      let cut = drop-append_le offset w (content v d xs) (omega (arith, len, lt)) in
      let bytes =
        take-append_le size (drop offset w) (content v d xs)
          (ground (arith, fits, length-drop offset w, len)) in
      (x, rw (nz, fits, inside, cut, bytes) refl)

  -- The bytes of a read that reaches the end of its first cluster.
  bytes_over :
      (w rest : List ℕ) (size offset : ℕ)
      → length w ≡ cluster_size v
      → offset < cluster_size v
      → cluster_size v - offset ≤ size
      → take size (drop offset (w ++ rest))
        ≡ take (cluster_size v - offset) (drop offset w)
          ++ take (size - (cluster_size v - offset)) rest
  bytes_over w rest size offset len lt over =
      let cut = drop-append_le offset w rest (omega (arith, len, lt)) in
      let piece : length (drop offset w) ≡ cluster_size v - offset =
        length-drop offset w ∙ rw len refl in
      let whole = take_all (cluster_size v - offset) (drop offset w) (omega (arith, piece)) in
      let split = take-append_ge size (drop offset w) rest (omega (arith, over, piece)) in
      rw (cut, whole, split, piece) refl

  read_at-over :
      (fuel : ℕ) (x : ℕ) (xs : List ℕ) (size offset : ℕ)
      → Chain (fat v d) x (x ∷ xs)
      → length xs < fuel
      → (offset == 0) ≡ false
      → offset < cluster_size v
      → leb size (cluster_size v - offset) ≡ false
      → Gives
          (read_at fuel v d x size offset)
          (status (offset + size) (length (content v d (x ∷ xs))))
          (take size (drop offset (content v d (x ∷ xs))))
  unfolding read_at content
  read_at-over fuel x [] size offset (e, is, end) enough nz lt over =
      let w = cluster_bytes v d x in
      let len : length w ≡ cluster_size v = length-cluster_bytes x in
      let beyond : leb (offset + size) (cluster_size v) ≡ false = ground (arith, over) in
      let none_left : take (size - (cluster_size v - offset)) (content v d []) ≡ [] =
        take_all (size - (cluster_size v - offset)) [] (omega arith) in
      let bytes = bytes_over w [] size offset len lt (le_of size (cluster_size v - offset) over) in
      let (stop, good) = last_one (fat v d x) end in
      let piece = take (cluster_size v - offset) (drop offset w) in
      (x, rw (nz, over, stop, bytes, none_left, append-nil w, append-nil piece, len, beyond) refl)
  read_at-over fuel x (y ∷ ys) size offset (e, is, (to, is_y, chain)) enough nz lt over =
      let w = cluster_bytes v d x in
      let rest = content v d (y ∷ ys) in
      let left = size - (cluster_size v - offset) in
      let len : length w ≡ cluster_size v = length-cluster_bytes x in
      let (on, good) = inner y is_y in
      let (q, r) = read_loop-Gives fuel y ys left (refl, is_y, chain) (omega (arith, enough)) in
      let same : leb left (length rest) ≡ leb (offset + size) (length (w ++ rest)) =
        ground (arith, over, lt, len, length-append w rest) in
      let bytes =
        bytes_over w rest size offset len lt (le_of size (cluster_size v - offset) over) in
      (q, rw (nz, over, to, on, good, r, bytes, same) refl)

  pub read_at-Gives :
      (fuel : ℕ) (x : ℕ) (xs : List ℕ) (size offset : ℕ)
      → Chain (fat v d) x (x ∷ xs)
      → length xs < fuel
      → offset < cluster_size v
      → Gives
          (read_at fuel v d x size offset)
          (status (offset + size) (length (content v d (x ∷ xs))))
          (take size (drop offset (content v d (x ∷ xs))))
  unfolding read_at
  read_at-Gives fuel x xs size offset chain enough lt = elim (Bool-cases (offset == 0)) [
    | inl start ↦
        let at_start : offset ≡ 0 = ground (arith, start) in
        let plain : 0 + size ≡ size = omega arith in
        rw (at_start, plain) (read_loop-Gives fuel x xs size chain enough)
    | inr nz ↦ elim (Bool-cases (leb size (cluster_size v - offset))) [
      | inl fits ↦ read_at-fits fuel x xs size offset nz lt fits
      | inr over ↦ read_at-over fuel x xs size offset chain enough nz lt over
    ]
  ]
