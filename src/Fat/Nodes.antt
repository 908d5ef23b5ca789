-- ===== src/Fat/Nodes.antt =====
-- The attributes of directory entries, fat32_node_reset and copy_cluster_chain of
-- kernel/src/filesystem/fat32.c. The flags that `|=` puts together are different bits, so that it adds them.
use kerosene.Base.{
  ℕ, zero, suc, ◌+◌, ◌*◌, ◌/◌, ◌%◌, ◌<◌, ◌≡◌, refl, false, Option, none, some, List, ◌∷◌, length,
  arith, ◌==◌, if◌then◌else◌, ◌>>=◌,
}
use kerosene.Base.Words.{u32}
use kerosene.Process.Queue.Chain.{Distinct}
use kerosene.Files.{FsErr, ok}
use kerosene.Fat.{Volume, Fs}
use kerosene.Fat.Entries.{fat, IsVolume}
use kerosene.Fat.Chains.{leads_on, fat32_allocate_clusters, expand_cluster_chain, cut_cluster_chain}
use kerosene.Fat.Chains.Link.{Chain}
use kerosene.Fat.Chains.Cut.{Cut, cut_cluster_chain_lem}
use kerosene.Fat.File.{next_cluster}
use kerosene.Fat.File.Write.{read_cluster, write_cluster}

unfoldable pub to_fat_attr : ℕ → ℕ
to_fat_attr flags =
    (if flags % 16 == 1 then 0x10 else 0) + (if flags / 16 % 2 == 0 then 0 else 0x02)

unfoldable pub to_fs_node_flags : ℕ → ℕ
to_fs_node_flags attr =
    (if attr / 16 % 2 == 0 then 0 else 1) + (if attr / 2 % 2 == 0 then 0 else 16)

-- Of the flags of a node an entry keeps whether it is a directory and whether it is hidden; every other
-- type comes back as a file.
pub to_fs_node_flags-to_fat_attr :
    (flags : ℕ)
    → to_fs_node_flags (to_fat_attr flags)
      ≡ (if flags % 16 == 1 then 1 else 0) + flags / 16 % 2 * 16
unfolding to_fs_node_flags to_fat_attr
to_fs_node_flags-to_fat_attr flags = ground arith

-- The error, the volume and the size of the node.
unfoldable pub fat32_node_reset : ℕ → Volume → Fs → ℕ → ℕ → Option (FsErr × Fs × ℕ)
fat32_node_reset fuel v fs start_cluster size = do
  (err, fs₁) ← cut_cluster_chain fuel v fs start_cluster
  some (err, fs₁, if ok err then 0 else size)

-- Resetting a file whose chain has different clusters leaves it empty, with its first cluster alone, and
-- the others free. The count of free clusters does not overflow.
pub fat32_node_reset_lem :
    (v : Volume) (valid : IsVolume v) (fuel : ℕ) (fs : Fs) (x : ℕ) (xs : List ℕ) (size : ℕ)
    → Chain (fat v fs.disk) x (x ∷ xs)
    → Distinct (x ∷ xs)
    → length xs < fuel
    → fs.free_cluster_count + length xs < u32
    → (fs' : Fs) × (fat32_node_reset fuel v fs x size ≡ some (FsErr.success, fs', 0))
      × Cut v fs fs' x xs
unfolding fat32_node_reset
fat32_node_reset_lem v valid fuel fs x xs size chain distinct enough small =
    let (fs', runs, cut) = cut_cluster_chain_lem v valid fuel fs x xs chain distinct enough small in
    (fs', rw runs refl, cut)

-- `while(true)`: `fuel` is for the loop and `inner` for the search for a free cluster. Where there is none
-- the code goes on with cluster 0.
unfoldable pub copy_loop : ℕ → ℕ → Volume → Fs → ℕ → ℕ → Option Fs
copy_loop inner zero v fs current copied = none
copy_loop inner (suc fuel) v fs current copied =
    let fs₁ = record fs {
      disk = write_cluster v fs.disk copied (read_cluster v fs.disk current);
    } in
    let next = next_cluster v fs₁.disk current in
    let rest = (do
      (copied₁, fs₂) ← expand_cluster_chain inner v fs₁ copied 1 false
      copy_loop inner fuel v fs₂ next copied₁) in
    if leads_on next then rest else some fs₁

-- The first cluster of the copy, or 0.
unfoldable pub copy_cluster_chain : ℕ → Volume → Fs → ℕ → Option (ℕ × Fs)
copy_cluster_chain fuel v fs start_cluster = do
  (copied, fs₁) ← fat32_allocate_clusters fuel v fs 1 false
  let filled = copy_loop fuel fuel v fs₁ start_cluster copied
  if copied == 0 then some (0, fs₁) else (filled >>= λ fs₂. some (copied, fs₂))
