-- ===== src/Fat/File/Write/Within.antt =====
-- A write of kernel/src/filesystem/fat32.c that stays within the first cluster it is given.
use kerosene.Base.{
  ℕ, suc, ◌+◌, ◌-◌, ◌*◌, ◌/◌, ◌<◌, ◌≤◌, ◌≡◌, ◌≢◌, refl, ◌∙◌, true, false, some, List, length, take,
  drop, length-drop, arith, ltb, leb, ◌==◌, inl, inr, if◌then◌else◌, Bool-cases,
}
use native.Mathlib.Nat.{div-eq_of_lt}
use kerosene.Files.{FsErr}
use kerosene.Fat.{Volume, Disk, Fs}
use kerosene.Fat.Entries.{fat}
use kerosene.Fat.Chains.Count.{top_cluster}
use kerosene.Fat.File.{cluster_size, segment, cluster_bytes}
use kerosene.Fat.File.Write.{
  overlay, read_cluster, write_cluster, write_skip, write_loop, write_rest, write_at, write_file,
}
use kerosene.Fat.File.Write.Layout.{
  IsLaid, write_cluster-fat, cluster_bytes-write_cluster_self, cluster_bytes-write_cluster_ne,
}

-- The bytes lie in the cluster `x` from `offset` on, over `under`; the other clusters and the table are as
-- they were.
pub record Wrote (v : Volume) (d d' : Disk) (x offset : ℕ) (bytes : List ℕ) : Type 0 where
  pub under : ℕ → ℕ
  pub written :
      cluster_bytes v d' x
      ≡ segment (overlay under offset bytes) 0 (512 * v.bootrec.sectors_per_cluster)
  pub others :
      (c : ℕ) → 2 ≤ c → c < top_cluster v → x ≢ c → cluster_bytes v d' c ≡ cluster_bytes v d c
  pub table : (c : ℕ) → c < top_cluster v → fat v d' c ≡ fat v d c

no_whole : (n c : ℕ) → n < c → ltb 0 (n / c) ≡ false
no_whole n c lt = rw (div-eq_of_lt lt) refl

module _ (v : Volume) (laid : IsLaid v) where
  put_cluster-Wrote :
      (d : Disk) (x offset : ℕ) (bytes : List ℕ) (under : ℕ → ℕ)
      → 2 ≤ x
      → x < top_cluster v
      → Wrote v d (write_cluster v d x (overlay under offset bytes)) x offset bytes
  put_cluster-Wrote d x offset bytes under two lt = record {
    under = under;
    written = cluster_bytes-write_cluster_self v laid d x (overlay under offset bytes);
    others = λ c two' lt' ne.
        cluster_bytes-write_cluster_ne v laid d x c (overlay under offset bytes) two lt two' lt' ne;
    table = λ c k. write_cluster-fat v laid d x (overlay under offset bytes) c two lt k;
  }

  -- A write of fewer bytes than a cluster has that begins and ends in the first cluster ends well, counts
  -- all bytes, and leaves them in that cluster from the offset on; the other clusters of the volume and
  -- their entries in the table do not change.
  pub write_file-Wrote :
      (fuel : ℕ) (fs : Fs) (x offset file_size next_position : ℕ) (bytes : List ℕ)
      → 2 ≤ x
      → x < top_cluster v
      → offset < cluster_size v
      → offset + length bytes ≤ cluster_size v
      → length bytes < cluster_size v
      → (d : Disk) × (write_file (suc fuel) v fs x bytes offset file_size next_position
          ≡ some (FsErr.success, length bytes, x, record fs { disk = d }))
        × Wrote v fs.disk d x offset bytes
  unfolding write_file write_at write_rest write_loop write_skip
  write_file-Wrote fuel fs x offset file_size next_position bytes two lt here room small =
      let inside : ltb offset (cluster_size v) ≡ true = ground (arith, here) in
      elim (Bool-cases (offset == 0)) [
        | inl start ↦
            let at_start : offset ≡ 0 = ground (arith, start) in
            let none_whole = no_whole (length bytes) (cluster_size v) small in
            let part : ltb (length bytes) (cluster_size v) ≡ true = ground (arith, small) in
            let sum : 0 + length bytes ≡ length bytes = omega arith in
            let under =
              if leb next_position file_size then read_cluster v fs.disk x else (λ (j : ℕ). 0) in
            (
              write_cluster v fs.disk x (overlay under 0 bytes),
              rw (inside, start, none_whole, part, sum) refl,
              rw at_start (put_cluster-Wrote fs.disk x 0 bytes under two lt),
            )
        | inr later ↦
            let fits : leb (length bytes) (cluster_size v - offset) ≡ true = ground (arith, room) in
            let under = read_cluster v fs.disk x in
            (
              write_cluster v fs.disk x (overlay under offset bytes),
              rw (inside, later, fits) refl,
              put_cluster-Wrote fs.disk x offset bytes under two lt,
            )
      ]

  -- A write that begins behind the start of its first cluster and does not fit into it, by less than a
  -- cluster, ends with success and counts all bytes, but puts the bytes that did not fit to the start of
  -- the same cluster: every other cluster of the volume, the next one of the file among them, is as it was.
  pub write_file-overwrites :
      (fuel : ℕ) (fs : Fs) (x offset file_size next_position : ℕ) (bytes : List ℕ)
      → 2 ≤ x
      → x < top_cluster v
      → 0 < offset
      → offset < cluster_size v
      → cluster_size v - offset < length bytes
      → length bytes - (cluster_size v - offset) < cluster_size v
      → (d : Disk) × (write_file (suc fuel) v fs x bytes offset file_size next_position
          ≡ some (FsErr.success, length bytes, x, record fs { disk = d }))
        × Wrote v fs.disk d x 0 (drop (cluster_size v - offset) bytes)
  unfolding write_file write_at write_rest write_loop write_skip put_cluster-Wrote
  write_file-overwrites fuel fs x offset file_size next_position bytes two lt pos here over
        rest_small =
      let remain = cluster_size v - offset in
      let rest = drop remain bytes in
      let len : length rest ≡ length bytes - remain = length-drop remain bytes in
      let inside : ltb offset (cluster_size v) ≡ true = ground (arith, here) in
      let later : (offset == 0) ≡ false = ground (arith, pos) in
      let more : leb (length bytes) remain ≡ false = ground (arith, over) in
      let small : length rest < cluster_size v = omega (arith, len, rest_small) in
      let none_whole = no_whole (length rest) (cluster_size v) small in
      let part : ltb (length rest) (cluster_size v) ≡ true = ground (arith, small) in
      let sum : remain + length rest ≡ length bytes = omega (arith, len, over) in
      let under = read_cluster v fs.disk x in
      let d₁ = write_cluster v fs.disk x (overlay under offset (take remain bytes)) in
      let first = put_cluster-Wrote fs.disk x offset (take remain bytes) under two lt in
      let under₁ = if leb next_position file_size then read_cluster v d₁ x else (λ (j : ℕ). 0) in
      let second = put_cluster-Wrote d₁ x 0 rest under₁ two lt in
      (
        write_cluster v d₁ x (overlay under₁ 0 rest),
        rw (inside, later, more, none_whole, part, sum) refl,
        record {
          under = under₁;
          written = second.written;
          others = λ c two' lt' ne. second.others c two' lt' ne ∙ first.others c two' lt' ne;
          table = λ c k. second.table c k ∙ first.table c k;
        },
      )
