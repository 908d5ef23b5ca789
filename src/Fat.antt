-- ===== src/Fat.antt =====
-- kernel/src/filesystem/fat32.c: the geometry of a volume, the entries of its file allocation table and
-- the information sector. The disk is its bytes by address, a sector being 512 of them: an access of
-- ata_pio_LBA28_access reads or writes the sectors that it names (the code ignores its result). The boot
-- record of a volume does not change after fat32_init. Sizes and sector numbers are 32-bit words; the
-- number of a cluster has 28 bits, so that four times it does not overflow an `int`.
pub mod Entries
pub mod Chains
pub mod File
pub mod Dates
pub mod Nodes
pub mod Names
use kerosene.Base.{ℕ, zero, suc, ◌+◌, ◌-◌, ◌*◌, ◌/◌, ◌%◌, ◌^◌, ◌&&◌, ◌==◌, ltb, leb, if◌then◌else◌}
use kerosene.Base.Words.{u32, add32, sub32, mul32}

abbrev pub fat_eoc : ℕ
fat_eoc = 0x0ffffff8

abbrev pub fat_bad_cluster : ℕ
fat_bad_cluster = 0x0ffffff7

-- The fields of fat32_bootrecord_t that the code reads; `large_fat` is sectors_per_FAT of the ebpb.
pub record Bootrec : Type 0 where
  pub bytes_per_sector : ℕ
  pub sectors_per_cluster : ℕ
  pub reserved_sectors : ℕ
  pub fats : ℕ
  pub total_sectors : ℕ
  pub sectors_per_fat : ℕ
  pub large_sector_count : ℕ
  pub large_fat : ℕ
  pub rootdir_cluster : ℕ
  pub fsinfo_sector : ℕ

-- What is fixed of an fs_t: partition.LBA_start and the boot record.
pub record Volume : Type 0 where
  pub lba_start : ℕ
  pub bootrec : Bootrec

abbrev pub Disk : Type 0
Disk = ℕ → ℕ

-- The buffer that a read from sector `lba` on fills.
abbrev pub ata_read : Disk → ℕ → ℕ → ℕ
ata_read d lba i = d (512 * lba + i)

abbrev pub ata_write : Disk → ℕ → ℕ → (ℕ → ℕ) → Disk
ata_write d lba sector_cnt buff a =
    if leb (512 * lba) a && ltb a (512 * lba + 512 * sector_cnt) then buff (a - 512 * lba) else d a

-- A little-endian uint32_t in a buffer.
abbrev pub word : (ℕ → ℕ) → ℕ → ℕ
word b i = b i + 256 * b (i + 1) + 65536 * b (i + 2) + 16777216 * b (i + 3)

abbrev pub put_word : (ℕ → ℕ) → ℕ → ℕ → ℕ → ℕ
put_word b i val j =
    if j == i
    then val % 256
    else if j == i + 1
    then val / 256 % 256
    else if j == i + 2
    then val / 65536 % 256
    else if j == i + 3
    then val / 16777216 % 256
    else b j

unfoldable pub get_total_sectors : Bootrec → ℕ
get_total_sectors b = if b.total_sectors == 0 then b.large_sector_count else b.total_sectors

unfoldable pub get_fat_size : Bootrec → ℕ
get_fat_size b = if b.sectors_per_fat == 0 then b.large_fat else b.sectors_per_fat

unfoldable pub get_first_data_sector : Bootrec → ℕ
get_first_data_sector b = add32 b.reserved_sectors (mul32 b.fats (get_fat_size b))

unfoldable pub get_first_fat_sector : Bootrec → ℕ
get_first_fat_sector b = b.reserved_sectors

unfoldable pub get_total_data_sectors : Bootrec → ℕ
get_total_data_sectors b = sub32 (get_total_sectors b) (get_first_data_sector b)

unfoldable pub get_total_clusters : Bootrec → ℕ
get_total_clusters b = get_total_data_sectors b / b.sectors_per_cluster

-- The sector of the table that holds the entry of a cluster, and the place of the entry in it.
abbrev pub fat_sector : Volume → ℕ → ℕ → ℕ
fat_sector v first_fat_sector cluster =
    add32 v.lba_start (add32 first_fat_sector (cluster * 4 / v.bootrec.bytes_per_sector))

abbrev pub entry_offset : Volume → ℕ → ℕ
entry_offset v cluster = cluster * 4 % v.bootrec.bytes_per_sector

unfoldable pub set_fat_entry : Volume → Disk → ℕ → ℕ → ℕ → Disk
set_fat_entry v d first_fat_sector cluster val =
    let lba = fat_sector v first_fat_sector cluster in
    ata_write d lba 1 (put_word (ata_read d lba) (entry_offset v cluster) val)

-- `& 0x0fffffff`
unfoldable pub get_fat_entry : Volume → Disk → ℕ → ℕ → ℕ
get_fat_entry v d first_fat_sector cluster =
    word (ata_read d (fat_sector v first_fat_sector cluster)) (entry_offset v cluster) % 2 ^ 28

-- The rounds left, and `i`.
unfoldable pub count_loop : Volume → Disk → ℕ → ℕ → ℕ → ℕ → ℕ
count_loop v d first_fat_sector zero i free_count = free_count
count_loop v d first_fat_sector (suc rounds) i free_count =
    count_loop v d first_fat_sector rounds (i + 1)
      (if get_fat_entry v d first_fat_sector i == 0 then free_count + 1 else free_count)

unfoldable pub count_free_cluster : Volume → Disk → ℕ → ℕ
count_free_cluster v d first_fat_sector =
    count_loop v d first_fat_sector (get_total_clusters v.bootrec) 2 0

-- What changes of an fs_t: fat32_info.fsinfo (the two counters, and its other bytes by their offset) and
-- the disk.
pub record Fs : Type 0 where
  pub free_cluster_count : ℕ
  pub available_clusters_start : ℕ
  pub info : ℕ → ℕ
  pub disk : Disk

-- The bytes of fat32_fsinfo_t.
abbrev pub fsinfo_bytes : Fs → ℕ → ℕ
fsinfo_bytes fs =
    put_word (put_word fs.info 488 fs.free_cluster_count) 492 fs.available_clusters_start

unfoldable pub update_fsinfo : Volume → Fs → Fs
update_fsinfo v fs = record fs {
  disk = ata_write fs.disk (add32 v.lba_start v.bootrec.fsinfo_sector) 1 (fsinfo_bytes fs);
}
