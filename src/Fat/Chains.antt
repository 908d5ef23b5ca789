-- ===== src/Fat/Chains.antt =====
-- The operations of kernel/src/filesystem/fat32.c on the chains of clusters in the table. A loop runs on
-- fuel (`none`: out of fuel), since a chain may come back to itself and the search for free clusters does
-- not stop at the end of the table.
pub mod Link
pub mod Free
pub mod Cut
pub mod Allocate
pub mod Extend
pub mod Allocated
pub mod Count
use kerosene.Base.{
  ℕ, zero, suc, ◌-◌, Bool, not, ◌&&◌, Option, none, some, ◌==◌, ltb, leb, if◌then◌else◌, ◌>>=◌,
}
use kerosene.Base.Words.{add32, sub32}
use kerosene.Files.{FsErr, ok}
use kerosene.Fat.{
  fat_eoc, fat_bad_cluster, Volume, Disk, get_fat_entry, set_fat_entry, get_first_fat_sector, Fs,
  update_fsinfo,
}

abbrev pub leads_on : ℕ → Bool
leads_on cluster = ltb cluster fat_eoc && not (cluster == fat_bad_cluster)

-- `while(cluster_count > 0)`: the disk, start_cluster, current_cluster and free_cluster_count. With
-- `clear` the code reads each new cluster into a buffer of its own, which changes nothing.
unfoldable pub allocate_loop : ℕ → Volume → Disk → ℕ → ℕ → ℕ → ℕ → ℕ → Option (Disk × ℕ × ℕ × ℕ)
allocate_loop zero v d cluster_count current start prev free = none
allocate_loop (suc fuel) v d cluster_count current start prev free =
    let first_fat_sector = get_first_fat_sector v.bootrec in
    let found = get_fat_entry v d first_fat_sector current == 0 in
    let linked =
      if found && not (start == 0) then set_fat_entry v d first_fat_sector prev current else d in
    let rest =
      allocate_loop fuel v linked (if found then cluster_count - 1 else cluster_count)
        (add32 current 1) (if found && (start == 0) then current else start)
        (if found then current else prev) (if found then sub32 free 1 else free) in
    if cluster_count == 0 then some (d, start, current, free) else rest

-- The start of the new chain, or 0.
unfoldable pub fat32_allocate_clusters : ℕ → Volume → Fs → ℕ → Bool → Option (ℕ × Fs)
fat32_allocate_clusters fuel v fs cluster_count clear = do
  (d, start, next, free) ←
      allocate_loop fuel v fs.disk cluster_count fs.available_clusters_start 0 0
        fs.free_cluster_count
  let current = sub32 next 1
  if start == 0
      then some (0, record fs { disk = d })
      else some (
        start,
        update_fsinfo v (record fs {
          disk = set_fat_entry v d (get_first_fat_sector v.bootrec) current fat_eoc;
          available_clusters_start = current;
          free_cluster_count = free;
        }),
      )

unfoldable pub expand_cluster_chain : ℕ → Volume → Fs → ℕ → ℕ → Bool → Option (ℕ × Fs)
expand_cluster_chain fuel v fs end_cluster cluster_count clear = do
  (new_chain, fs₁) ← fat32_allocate_clusters fuel v fs cluster_count clear
  if new_chain == 0
      then some (0, fs₁)
      else some (
        new_chain,
        record fs₁ {
          disk = set_fat_entry v fs₁.disk (get_first_fat_sector v.bootrec) end_cluster new_chain;
        },
      )

-- The disk, the entry at which the loop ends, and fsinfo_free_cluster_count.
unfoldable pub free_loop : ℕ → Volume → Disk → ℕ → ℕ → Option (Disk × ℕ × ℕ)
free_loop zero v d current count = none
free_loop (suc fuel) v d current count =
    let first_fat_sector = get_first_fat_sector v.bootrec in
    let fat_val = get_fat_entry v d first_fat_sector current in
    let rest =
      free_loop fuel v (set_fat_entry v d first_fat_sector current 0) fat_val (add32 count 1) in
    if leads_on current then rest else some (d, current, count)

unfoldable pub free_cluster_chain : ℕ → Volume → Fs → ℕ → Option (FsErr × Fs)
free_cluster_chain fuel v fs start_cluster = do
  (d, current, count) ← free_loop fuel v fs.disk start_cluster fs.free_cluster_count
  let start = fs.available_clusters_start
  if current == fat_bad_cluster
      then some (FsErr.bad_cluster, record fs { disk = d })
      else some (
        FsErr.success,
        update_fsinfo v (record fs {
          disk = d;
          available_clusters_start = if ltb start_cluster start then start_cluster else start;
          free_cluster_count = count;
        }),
      )

unfoldable pub cut_cluster_chain : ℕ → Volume → Fs → ℕ → Option (FsErr × Fs)
cut_cluster_chain fuel v fs start_cluster =
    let first_fat_sector = get_first_fat_sector v.bootrec in
    let fat_val = get_fat_entry v fs.disk first_fat_sector start_cluster in
    let freed = (do
      (err, fs₁) ← free_cluster_chain fuel v fs fat_val
      if ok err
          then some (
            FsErr.success,
            record fs₁ { disk = set_fat_entry v fs₁.disk first_fat_sector start_cluster fat_eoc },
          )
          else some (err, fs₁)) in
    if leb fat_eoc fat_val
    then some (FsErr.success, fs)
    else if fat_val == fat_bad_cluster
    then some (FsErr.bad_cluster, fs)
    else freed

-- The loop reads the entry of its cluster on each round.
unfoldable pub fat32_get_last_cluster_of_chain : ℕ → Volume → Disk → ℕ → Option ℕ
fat32_get_last_cluster_of_chain zero v d current = none
fat32_get_last_cluster_of_chain (suc fuel) v d current =
    let fat_val = get_fat_entry v d (get_first_fat_sector v.bootrec) current in
    let rest = fat32_get_last_cluster_of_chain fuel v d fat_val in
    if leads_on fat_val then rest else some current
