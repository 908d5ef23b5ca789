-- ===== src/Fat/File/Write/Back.antt =====
-- What write_file of kernel/src/filesystem/fat32.c writes into a cluster, read_file reads.
use kerosene.Base.{
  ℕ, zero, suc, ◌+◌, ◌-◌, ◌*◌, ◌<◌, ◌≤◌, ◌≡◌, refl, ◌∙◌, true, ◌&&◌, some, List, [], ◌∷◌, ◌++◌,
  length, take, drop, get_or, length-drop, arith, ltb, leb, Bool-cases, inl, inr, ◌==◌,
}
use kerosene.Process.Queue.Chain.{has}
use kerosene.Files.{FsErr}
use kerosene.Fat.{Volume, Disk, Fs}
use kerosene.Fat.Entries.{fat}
use kerosene.Fat.Chains.Link.{Chain, Chain-agree}
use kerosene.Fat.Chains.Count.{top_cluster, Below}
use kerosene.Fat.File.{cluster_size, segment, cluster_bytes, read_file}
use kerosene.Fat.File.Read.{content, Gives, size_eq, length-cluster_bytes}
use kerosene.Fat.File.Whole.{length-content_cons, read_file-Gives}
use kerosene.Fat.File.Write.{overlay, write_file}
use kerosene.Fat.File.Write.Layout.{IsLaid}
use kerosene.Fat.File.Write.Within.{Wrote, write_file-Wrote}
use kerosene.Ramfs.Content.{take-append_le, drop-append_le}
use kerosene.Ramfs.RoundTrip.{in_range}

-- The bytes of an overlay, from its offset on.
segment-overlay :
    (b : ℕ → ℕ) (offset n : ℕ) (bytes all : List ℕ) (i : ℕ)
    → ((j : ℕ) → j < length bytes → get_or all (i + j) 0 ≡ get_or bytes j 0)
    → i + length bytes ≡ length all
    → length bytes ≤ n
    → take (length bytes) (segment (overlay b offset all) (offset + i) n) ≡ bytes
segment-overlay b offset n [] all i same len le = refl
segment-overlay b offset zero (x ∷ xs) all i same len le = absurd (omega (arith, le))
segment-overlay b offset (suc n) (x ∷ xs) all i same len le =
    let hit : (leb offset (offset + i) && ltb (offset + i) (offset + length all)) ≡ true =
      ground (arith, len) in
    let back : offset + i - offset ≡ i = omega arith in
    let plain : i + 0 ≡ i = omega arith in
    let first : get_or all i 0 ≡ x = rw plain at (same 0 (omega arith)) in
    let next : offset + i + 1 ≡ offset + (i + 1) = omega arith in
    let ih =
      segment-overlay b offset n xs all (i + 1)
        (λ j k.
          let e : i + 1 + j ≡ i + suc j = omega arith in rw e (same (suc j) (omega (arith, k))))
        (omega (arith, len)) (omega (arith, le)) in
    rw (hit, back, first, next, ih) refl

drop-segment : (b : ℕ → ℕ) (k i n : ℕ) → k ≤ n → drop k (segment b i n) ≡ segment b (i + k) (n - k)
drop-segment b zero i n le =
    let e : n - 0 ≡ n = omega arith in let e' : i + 0 ≡ i = omega arith in rw (e, e') refl
drop-segment b (suc k) i zero le = absurd (omega (arith, le))
drop-segment b (suc k) i (suc n) le =
    let e : i + suc k ≡ i + 1 + k = omega arith in
    let e' : suc n - suc k ≡ n - k = omega arith in
    rw (e, e') (drop-segment b k (i + 1) n (omega (arith, le)))

Below-has : (top c : ℕ) (xs : List ℕ) → Below top xs → has c xs ≡ true → c < top
Below-has top c [] below mem = absurd (ground (arith, mem))
Below-has top c (x ∷ xs) (lt, below) mem = elim (Bool-cases (c == x)) [
  | inl same ↦ let e : c ≡ x = ground (arith, same) in rw e lt
  | inr differ ↦ Below-has top c xs below (rw differ at mem)
]

module _ (v : Volume) (laid : IsLaid v) where
  -- The bytes of a chain whose first cluster has been written.
  content-Wrote :
      (d d' : Disk) (x : ℕ) (xs : List ℕ) (offset : ℕ) (bytes : List ℕ)
      → offset + length bytes ≤ cluster_size v
      → Wrote v d d' x offset bytes
      → take (length bytes) (drop offset (content v d' (x ∷ xs))) ≡ bytes
  unfolding content
  content-Wrote d d' x xs offset bytes room w =
      let n = 512 * v.bootrec.sectors_per_cluster in
      let size = size_eq v laid.sized d in
      let rest = content v d' xs in
      let len = length-cluster_bytes v laid.sized d' x in
      let piece =
        drop-segment (overlay w.under offset bytes) offset 0 n (omega (arith, room, size)) in
      let zero_on : 0 + offset ≡ offset + 0 = omega arith in
      let cut = drop-append_le offset (cluster_bytes v d' x) rest (omega (arith, len, room)) in
      let first : take (length bytes) (drop offset (cluster_bytes v d' x) ++ rest)
          ≡ take (length bytes) (drop offset (cluster_bytes v d' x)) =
        take-append_le (length bytes) (drop offset (cluster_bytes v d' x)) rest
          (omega (arith, length-drop offset (cluster_bytes v d' x), len, room)) in
      rw (cut, first, w.written, piece, zero_on)
        (segment-overlay w.under offset (n - offset) bytes bytes 0
          (λ j k. let e : 0 + j ≡ j = omega arith in rw e refl) (omega arith)
          (omega (arith, room, size)))

  -- A write of fewer bytes than a cluster has that stays within the first cluster of a chain ends well, and
  -- a read of as many bytes at the same offset then ends with success and gives the bytes that were
  -- written. The clusters of the chain belong to the volume.
  pub read_file-write_within :
      (fuel : ℕ) (fs : Fs) (x : ℕ) (xs : List ℕ) (offset file_size next_position : ℕ)
      (bytes : List ℕ)
      → Chain (fat v fs.disk) x (x ∷ xs)
      → Below (top_cluster v) (x ∷ xs)
      → length xs < fuel
      → offset < cluster_size v
      → offset + length bytes ≤ cluster_size v
      → length bytes < cluster_size v
      → (fs' : Fs) × (write_file fuel v fs x bytes offset file_size next_position
          ≡ some (FsErr.success, length bytes, x, fs'))
        × Gives (read_file fuel v fs'.disk x (length bytes) offset) FsErr.success bytes
  read_file-write_within zero fs x xs offset file_size next_position bytes chain below enough here
        room small =
      elim enough [ ]
  read_file-write_within (suc fuel) fs x xs offset file_size next_position bytes chain below enough
        here room small =
      let (d, runs, w) =
        write_file-Wrote v laid fuel fs x offset file_size next_position bytes chain.1.0 below.0
          here room small in
      let chain' : Chain (fat v d) x (x ∷ xs) =
        Chain-agree (fat v fs.disk) (fat v d) x (x ∷ xs)
          (λ c mem is. w.table c (Below-has (top_cluster v) c (x ∷ xs) below mem)) chain in
      let (q, r) =
        read_file-Gives v laid.sized d (suc fuel) x xs (length bytes) offset chain' enough in
      let all = length-content_cons v laid.sized d x xs in
      let good =
        in_range offset (length bytes) (length (content v d (x ∷ xs))) (omega (arith, here, all))
          (omega (arith, room, all)) in
      (
        record fs { disk = d },
        runs,
        (q, r ∙ rw (good, content-Wrote fs.disk d x xs offset bytes room w) refl),
      )
