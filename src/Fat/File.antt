-- ===== src/Fat/File.antt =====
-- read_file, write_file and the operations on open files of kernel/src/filesystem/fat32.c. Bytes that are
-- read come as a list in the order in which they are put into the buffer of the caller, which lies apart,
-- and bytes to write are given as a list.
pub mod Read
pub mod Whole
pub mod Write
pub mod Position
use kerosene.Base.{
  ℕ, zero, suc, ◌+◌, ◌-◌, ◌*◌, ◌/◌, ◌%◌, Bool, not, ◌&&◌, ◌||◌, Option, none, some, List, [], ◌∷◌,
  ◌++◌, length, take, drop, get_or, ◌==◌, ltb, leb, if◌then◌else◌, ◌>>=◌,
}
use kerosene.Base.Words.{add32, sub32, mul32}
use kerosene.Files.{FsErr}
use kerosene.Fat.{
  fat_eoc, fat_bad_cluster, Volume, Disk, Fs, ata_read, ata_write, get_fat_entry,
  get_first_fat_sector, get_first_data_sector,
}
use kerosene.Fat.Chains.{expand_cluster_chain}

abbrev pub cluster_size : Volume → ℕ
cluster_size v = mul32 v.bootrec.sectors_per_cluster v.bootrec.bytes_per_sector

-- `fs->partition.LBA_start + first_sector`
unfoldable pub first_sector : Volume → ℕ → ℕ
first_sector v cluster = add32 v.lba_start (
    add32 (mul32 (sub32 cluster 2) v.bootrec.sectors_per_cluster) (get_first_data_sector v.bootrec))

-- `n` bytes of a buffer from `i` on.
abbrev pub segment : (ℕ → ℕ) → ℕ → ℕ → List ℕ
segment b i zero = []
segment b i (suc n) = b i ∷ segment b (i + 1) n

-- What a read of a whole cluster puts into a buffer.
unfoldable pub cluster_bytes : Volume → Disk → ℕ → List ℕ
cluster_bytes v d cluster =
    segment (ata_read d (first_sector v cluster)) 0 (512 * v.bootrec.sectors_per_cluster)

abbrev pub next_cluster : Volume → Disk → ℕ → ℕ
next_cluster v d cluster = get_fat_entry v d (get_first_fat_sector v.bootrec) cluster

-- Where `while(cluster_offset >= cluster_size)` of read_file ends: with an error, or at a cluster with the
-- offset left.
pub data Skipped : Type 0 where
  stopped : FsErr → ℕ → Skipped
  at : ℕ → ℕ → Skipped

unfoldable pub skip : ℕ → Volume → Disk → ℕ → ℕ → Option Skipped
skip zero v d current cluster_offset = none
skip (suc fuel) v d current cluster_offset =
    let fat_val = next_cluster v d current in
    let rest = skip fuel v d fat_val (cluster_offset - cluster_size v) in
    if ltb cluster_offset (cluster_size v)
    then some (at current cluster_offset)
    else if fat_val == fat_bad_cluster
    then some (stopped FsErr.bad_cluster current)
    else if leb fat_eoc fat_val
    then some (stopped FsErr.eof current)
    else rest

-- The error, the bytes read, and the cluster in *start_cluster.
unfoldable pub read_loop : ℕ → Volume → Disk → ℕ → ℕ → Option (FsErr × List ℕ × ℕ)
read_loop zero v d current size = none
read_loop (suc fuel) v d current size =
    let whole = cluster_bytes v d current in
    let left = size - cluster_size v in
    let fat_val = next_cluster v d current in
    let rest = read_loop fuel v d fat_val left in
    if ltb size (cluster_size v)
    then some (FsErr.success, take size whole, current)
    else if left == 0
    then some (FsErr.success, whole, current)
    else if leb fat_eoc fat_val
    then some (FsErr.eof, whole, current)
    else if fat_val == fat_bad_cluster
    then some (FsErr.bad_cluster, whole, current)
    else do (e, more, c) ← rest; some (e, whole ++ more, c)

-- From `if(cluster_offset > 0)` on.
unfoldable pub read_at : ℕ → Volume → Disk → ℕ → ℕ → ℕ → Option (FsErr × List ℕ × ℕ)
read_at fuel v d current size cluster_offset =
    let remain_size = cluster_size v - cluster_offset in
    let behind = drop cluster_offset (cluster_bytes v d current) in
    let fat_val = next_cluster v d current in
    if cluster_offset == 0
    then read_loop fuel v d current size
    else if leb size remain_size
    then some (FsErr.success, take size behind, current)
    else if leb fat_eoc fat_val
    then some (FsErr.eof, take remain_size behind, current)
    else if fat_val == fat_bad_cluster
    then some (FsErr.bad_cluster, take remain_size behind, current)
    else do
      (e, more, c) ← read_loop fuel v d fat_val (size - remain_size)
      some (e, take remain_size behind ++ more, c)

unfoldable pub read_file : ℕ → Volume → Disk → ℕ → ℕ → ℕ → Option (FsErr × List ℕ × ℕ)
read_file fuel v d start_cluster size cluster_offset = do
  skipped ← skip fuel v d start_cluster cluster_offset
  elim skipped [
    | stopped e current ↦ some (e, [], current)
    | at current offset ↦ read_at fuel v d current size offset
  ]
