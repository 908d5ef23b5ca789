-- ===== src/Fat/File/Write.antt =====
-- write_file of kernel/src/filesystem/fat32.c.
pub mod Layout
pub mod Within
pub mod Back
use kerosene.Base.{
  ℕ, zero, suc, ◌+◌, ◌-◌, ◌*◌, ◌/◌, ◌%◌, false, ◌&&◌, Option, none, some, List, length, take, drop,
  get_or, ◌==◌, ltb, leb, if◌then◌else◌, ◌>>=◌,
}
use kerosene.Files.{FsErr}
use kerosene.Fat.{fat_eoc, fat_bad_cluster, Volume, Disk, Fs, ata_read, ata_write, get_fat_entry}
use kerosene.Fat.Chains.{expand_cluster_chain}
use kerosene.Fat.File.{cluster_size, first_sector, next_cluster, Skipped, stopped, at}

-- memcpy of `bytes` into a buffer from `offset` on.
abbrev pub overlay : (ℕ → ℕ) → ℕ → List ℕ → ℕ → ℕ
overlay b offset bytes i =
    if leb offset i && ltb i (offset + length bytes) then get_or bytes (i - offset) 0 else b i

-- A whole cluster read and written.
abbrev pub read_cluster : Volume → Disk → ℕ → ℕ → ℕ
read_cluster v d cluster = ata_read d (first_sector v cluster)

abbrev pub write_cluster : Volume → Disk → ℕ → (ℕ → ℕ) → Disk
write_cluster v d cluster = ata_write d (first_sector v cluster) v.bootrec.sectors_per_cluster

-- `while((unsigned)cluster_offset >= cluster_size)`
unfoldable pub write_skip : ℕ → Volume → Fs → ℕ → ℕ → Option (Skipped × Fs)
write_skip zero v fs current cluster_offset = none
write_skip (suc fuel) v fs current cluster_offset =
    let fat_val = next_cluster v fs.disk current in
    let rest = write_skip fuel v fs fat_val (cluster_offset - cluster_size v) in
    let expanded = (do
      (new_cluster, fs₁) ←
          expand_cluster_chain fuel v fs current (cluster_offset / cluster_size v) false
      if new_cluster == 0
          then some (stopped FsErr.not_enough_space current, fs₁)
          else some (at new_cluster (cluster_offset % cluster_size v), fs₁)) in
    if ltb cluster_offset (cluster_size v)
    then some (at current cluster_offset, fs)
    else if leb fat_eoc fat_val
    then expanded
    else if fat_val == fat_bad_cluster
    then some (stopped FsErr.bad_cluster current, fs)
    else rest

-- What the code writes into a cluster that the rest of the buffer does not fill.
abbrev pub last_part : Volume → Disk → ℕ → List ℕ → ℕ → ℕ → ℕ → ℕ
last_part v d current buffer file_size next_position i =
    overlay (if leb next_position file_size then read_cluster v d current else (λ j. 0)) 0 buffer i

-- The error, *actual_write_size, the cluster in *start_cluster and the disk.
unfoldable pub write_loop : ℕ → Volume → Disk → ℕ → List ℕ → ℕ → ℕ → Option (FsErr × ℕ × ℕ × Disk)
write_loop zero v d current buffer file_size next_position = none
write_loop (suc fuel) v d current buffer file_size next_position =
    let size = length buffer in
    let left = size - cluster_size v in
    let whole = write_cluster v d current (λ i. get_or buffer i 0) in
    let fat_val = next_cluster v whole current in
    let rest =
      write_loop fuel v whole fat_val (drop (cluster_size v) buffer) file_size next_position in
    if ltb size (cluster_size v)
    then some (
      FsErr.success,
      size,
      current,
      write_cluster v d current (last_part v d current buffer file_size next_position),
    )
    else if left == 0
    then some (FsErr.success, cluster_size v, current, whole)
    else if leb fat_eoc fat_val
    then some (FsErr.success, cluster_size v, current, whole)
    else if fat_val == fat_bad_cluster
    then some (FsErr.bad_cluster, cluster_size v, current, whole)
    else do (e, more, c, d') ← rest; some (e, cluster_size v + more, c, d')

-- From `int estimated_clusters` on; `written` bytes are written before.
unfoldable pub write_rest : ℕ → Volume → Fs → ℕ → ℕ → List ℕ → ℕ → ℕ → Option (FsErr × ℕ × ℕ × Fs)
write_rest fuel v fs current written buffer file_size next_position = do
  let estimated_clusters = length buffer / cluster_size v
  (new_cluster, fs₁) ←
      if ltb 0 estimated_clusters
      then expand_cluster_chain fuel v fs current estimated_clusters false
      else some (current, fs)
  (e, more, c, d) ←
      if ltb 0 estimated_clusters && (new_cluster == 0)
      then some (FsErr.not_enough_space, 0, current, fs₁.disk)
      else write_loop fuel v fs₁.disk current buffer file_size next_position
  some (e, written + more, c, record fs₁ { disk = d })

-- From `if(cluster_offset > 0)` on. Behind a first cluster that the buffer fills, the code goes on with
-- the same cluster.
unfoldable pub write_at : ℕ → Volume → Fs → ℕ → List ℕ → ℕ → ℕ → ℕ → Option (FsErr × ℕ × ℕ × Fs)
write_at fuel v fs current buffer cluster_offset file_size next_position =
    let size = length buffer in
    let remain_size = cluster_size v - cluster_offset in
    let write_all = leb size remain_size in
    let part = if write_all then buffer else take remain_size buffer in
    let fs₁ = record fs {
      disk =
          write_cluster v fs.disk current
            (overlay (read_cluster v fs.disk current) cluster_offset part);
    } in
    if cluster_offset == 0
    then write_rest fuel v fs current 0 buffer file_size next_position
    else if write_all
    then some (FsErr.success, size, current, fs₁)
    else write_rest fuel v fs₁ current remain_size (drop remain_size buffer) file_size next_position

unfoldable pub write_file : ℕ → Volume → Fs → ℕ → List ℕ → ℕ → ℕ → ℕ → Option (FsErr × ℕ × ℕ × Fs)
write_file fuel v fs start_cluster buffer cluster_offset file_size next_position = do
  (skipped, fs₁) ← write_skip fuel v fs start_cluster cluster_offset
  elim skipped [
    | stopped e current ↦ some (e, 0, current, fs₁)
    | at current offset ↦ write_at fuel v fs₁ current buffer offset file_size next_position
  ]
