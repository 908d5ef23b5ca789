-- ===== src/Tests/Volumes.antt =====
-- A FAT32 volume of eight clusters of a sector each, and a file of the clusters 5 and 6 on it.
use kerosene.Base.{
  ◌-◌, ◌≡◌, refl, ◌^◌, ◌%◌, false, some, [], ◌∷◌, length, take, drop, arith, ◌==◌, ltb,
  if◌then◌else◌,
}
use kerosene.Files.{FsErr}
use kerosene.Fat.{
  Volume, Disk, Fs, get_fat_entry, set_fat_entry, get_first_fat_sector, get_first_data_sector,
  get_total_clusters, get_total_data_sectors, get_total_sectors, get_fat_size, count_loop,
  count_free_cluster, fat_eoc,
}
use kerosene.Fat.Entries.{fat, set_fat, IsVolume, get_fat_entry-set_fat_entry}
use kerosene.Fat.Chains.{
  fat32_allocate_clusters, expand_cluster_chain, free_cluster_chain, cut_cluster_chain,
}
use kerosene.Fat.Chains.Link.{Chain}
use kerosene.Fat.Chains.Cut.{Cut, cut_cluster_chain_lem}
use kerosene.Fat.Chains.Count.{IsCounted, free_cluster_chain-IsCounted}
use kerosene.Fat.Chains.Allocate.{free_from}
use kerosene.Fat.Chains.Allocated.{
  Allocated, fat32_allocate_clusters_lem, fat32_allocate_clusters-IsCounted,
  expand_cluster_chain_lem,
}
use kerosene.Fat.File.{read_file, cluster_size}
use kerosene.Fat.File.Read.{IsSized, content, Gives}
use kerosene.Fat.File.Whole.{read_file-Gives}
use kerosene.Fat.File.Write.{write_file}
use kerosene.Fat.File.Write.Layout.{IsLaid}
use kerosene.Fat.File.Write.Within.{Wrote, write_file-overwrites}
use kerosene.Fat.File.Write.Back.{read_file-write_within}
use kerosene.Ramfs.Read.{status}

abbrev volume : Volume
volume = record {
  lba_start = 2048;
  bootrec = record {
    bytes_per_sector = 512;
    sectors_per_cluster = 1;
    reserved_sectors = 32;
    fats = 2;
    total_sectors = 42;
    sectors_per_fat = 0;
    large_sector_count = 0;
    large_fat = 1;
    rootdir_cluster = 2;
    fsinfo_sector = 1;
  };
}

abbrev disk : Disk
disk = set_fat volume (set_fat volume (λ a. 0) 5 6) 6 fat_eoc

abbrev fs : Fs
fs = record { free_cluster_count = 6; available_clusters_start = 2; info = λ i. 0; disk = disk }

volume-IsVolume : IsVolume volume
volume-IsVolume = record { sector = refl; info_sector = omega arith; addressed = omega arith }

volume-IsSized : IsSized volume
volume-IsSized = record { sector = refl; low = omega arith; high = omega arith }

volume-IsLaid : IsLaid volume
unfolding get_first_data_sector get_total_clusters get_total_data_sectors get_total_sectors
    get_fat_size
volume-IsLaid = record {
  volume = volume-IsVolume;
  sized = volume-IsSized;
  few = omega arith;
  table_fits = omega arith;
  disk_fits = omega arith;
}

entries : (fat volume disk 5 ≡ 6) × (fat volume disk 6 ≡ fat_eoc)
unfolding get_fat_entry set_fat_entry get_first_fat_sector
entries = (refl, refl)

disk-Chain : Chain (fat volume disk) 5 (5 ∷ 6 ∷ [])
disk-Chain = (
  refl,
  (omega arith, omega arith),
  (entries.0, (omega arith, omega arith), rw entries.1 (omega arith)),
)

fs-IsCounted : IsCounted volume fs
unfolding get_fat_entry set_fat_entry get_first_fat_sector count_loop count_free_cluster
    get_total_clusters get_total_data_sectors get_total_sectors get_fat_size get_first_data_sector
fs-IsCounted = refl

first_free : take 2 (free_from (fat volume fs.disk) fs.available_clusters_start 3) ≡ 2 ∷ 3 ∷ []
unfolding get_fat_entry set_fat_entry get_first_fat_sector free_from
first_free = refl

top : get_total_clusters volume.bootrec ≡ 8
unfolding get_total_clusters get_total_data_sectors get_total_sectors get_fat_size
    get_first_data_sector
top = refl

get_fat_entry-set_fat_entry_example :
    fat volume (set_fat volume disk 7 5) 5 ≡ (if 7 == 5 then 5 % 2 ^ 28 else fat volume disk 5)
get_fat_entry-set_fat_entry_example =
    get_fat_entry-set_fat_entry volume volume-IsVolume disk 7 5 5 (omega arith) (omega arith)

free_cluster_chain-IsCounted_example :
    (fs' : Fs) × (free_cluster_chain 3 volume fs 5 ≡ some (FsErr.success, fs'))
    × IsCounted volume fs'
free_cluster_chain-IsCounted_example =
    free_cluster_chain-IsCounted volume volume-IsVolume 3 fs 5 (6 ∷ []) (rw top (omega arith))
      fs-IsCounted disk-Chain (rw top (omega arith)) (refl, (refl, tt)) (omega arith)

cut_cluster_chain_lem_example :
    (fs' : Fs) × (cut_cluster_chain 2 volume fs 5 ≡ some (FsErr.success, fs'))
    × Cut volume fs fs' 5 (6 ∷ [])
cut_cluster_chain_lem_example =
    cut_cluster_chain_lem volume volume-IsVolume 2 fs 5 (6 ∷ []) disk-Chain (refl, (refl, tt))
      (omega arith) (omega arith)

fat32_allocate_clusters_lem_example :
    (fs' : Fs) × (fat32_allocate_clusters 4 volume fs 2 false ≡ some (2, fs'))
    × Allocated volume fs fs' 2 (3 ∷ [])
fat32_allocate_clusters_lem_example =
    fat32_allocate_clusters_lem volume volume-IsVolume 4 3 1 fs 2 (3 ∷ []) false first_free refl
      (omega arith) (omega arith) (omega arith) (omega arith) (omega arith)

fat32_allocate_clusters-IsCounted_example :
    (fs' : Fs) × (fat32_allocate_clusters 4 volume fs 2 false ≡ some (2, fs'))
    × IsCounted volume fs'
fat32_allocate_clusters-IsCounted_example =
    fat32_allocate_clusters-IsCounted volume volume-IsVolume 4 3 1 fs 2 (3 ∷ []) false first_free
      refl (omega arith) (omega arith) (rw top (omega arith)) (rw top (omega arith)) (omega arith)
      (omega arith) fs-IsCounted

expand_cluster_chain_lem_example :
    (fs' : Fs) × (expand_cluster_chain 4 volume fs 6 2 false ≡ some (2, fs'))
    × Chain (fat volume fs'.disk) 5 (5 ∷ 6 ∷ 2 ∷ 3 ∷ [])
expand_cluster_chain_lem_example =
    expand_cluster_chain_lem volume volume-IsVolume 4 3 1 fs 5 6 (5 ∷ []) 2 (3 ∷ []) false
      disk-Chain (refl, (refl, tt)) first_free refl (omega arith) (omega arith) (omega arith)
      (omega arith) (omega arith)

read_file-Gives_example :
    let c = content volume disk (5 ∷ 6 ∷ []) in
    Gives
      (read_file 2 volume disk 5 700 100)
      (if ltb 100 (length c) then status 800 (length c) else FsErr.eof)
      (take 700 (drop 100 c))
read_file-Gives_example =
    read_file-Gives volume volume-IsSized disk 2 5 (6 ∷ []) 700 100 disk-Chain (omega arith)

read_file-write_within_example :
    (fs' : Fs) × (write_file 2 volume fs 5 (1 ∷ 2 ∷ []) 100 1024 102
      ≡ some (FsErr.success, 2, 5, fs'))
    × Gives (read_file 2 volume fs'.disk 5 2 100) FsErr.success (1 ∷ 2 ∷ [])
read_file-write_within_example =
    read_file-write_within volume volume-IsLaid 2 fs 5 (6 ∷ []) 100 1024 102 (1 ∷ 2 ∷ []) disk-Chain
      (rw top (omega arith)) (omega arith) (omega arith) (omega arith) (omega arith)

write_file-overwrites_example :
    (d : Disk) × (write_file 2 volume fs 5 (1 ∷ 2 ∷ 3 ∷ []) 511 1024 514
      ≡ some (FsErr.success, 3, 5, record fs { disk = d }))
    × Wrote volume fs.disk d 5 0 (drop (cluster_size volume - 511) (1 ∷ 2 ∷ 3 ∷ []))
write_file-overwrites_example =
    write_file-overwrites volume volume-IsLaid 1 fs 5 511 1024 514 (1 ∷ 2 ∷ 3 ∷ []) (omega arith)
      (rw top (omega arith)) (omega arith) (omega arith) (omega arith) (omega arith)
