-- ===== src/Fat/Entries.antt =====
-- The file allocation table as a function from clusters to entries.
use kerosene.Base.{
  ℕ, ◌+◌, ◌-◌, ◌*◌, ◌/◌, ◌%◌, ◌^◌, ◌<◌, ◌≤◌, ◌≡◌, ◌≢◌, refl, arith, ◌==◌, if◌then◌else◌, ltb, leb,
  ◌&&◌, Bool-cases, inl, inr, ◌∙◌, ap, sym, false,
}
use mathlib.Core.Path.{fun_ext}
use native.Mathlib.Nat.{add_assoc}
use kerosene.Base.Words.{add32}
use kerosene.Fat.{
  Volume, Disk, Fs, fsinfo_bytes, word, put_word, ata_read, ata_write, fat_sector, entry_offset,
  get_fat_entry, set_fat_entry, get_first_fat_sector, update_fsinfo,
}

-- The entry of a cluster on a disk.
abbrev pub fat : Volume → Disk → ℕ → ℕ
fat v d c = get_fat_entry v d (get_first_fat_sector v.bootrec) c

abbrev pub set_fat : Volume → Disk → ℕ → ℕ → Disk
set_fat v d c val = set_fat_entry v d (get_first_fat_sector v.bootrec) c val

-- Sectors of 512 bytes, the information sector among the reserved sectors, and the table within the
-- sectors that 32 bits number.
pub record IsVolume (v : Volume) : Type 0 where
  pub sector : v.bootrec.bytes_per_sector ≡ 512
  pub info_sector : v.bootrec.fsinfo_sector < v.bootrec.reserved_sectors
  pub addressed : v.lba_start + v.bootrec.reserved_sectors < 2 ^ 31

-- The address of the table, and of an entry.
abbrev pub table : Volume → ℕ
table v = 512 * (v.lba_start + v.bootrec.reserved_sectors)

sector_address :
    (l r c : ℕ)
    → l + r < 2 ^ 31
    → c < 2 ^ 28
    → 512 * add32 l (add32 r (c * 4 / 512)) + c * 4 % 512 ≡ 512 * (l + r) + 4 * c
sector_address l r c h k = omega arith

offset_small : (c : ℕ) → c * 4 % 512 ≤ 508
offset_small c = omega arith

-- An entry within its sector, read and written back.
sector_byte :
    (d : Disk) (sector offset val a : ℕ)
    → offset ≤ 508
    → ata_write d sector 1 (put_word (ata_read d sector) offset val) a
      ≡ put_word d (512 * sector + offset) val a
sector_byte d sector offset val a h =
    let b = 512 * sector in
    elim (Bool-cases (leb b a && ltb a (b + 512))) [
      | inl inside ↦
          let back : b + (a - b) ≡ a = ground (arith, inside) in
          rw inside (rw back (ground (arith, inside)))
      | inr outside ↦ rw outside (ground (arith, outside))
    ]

word-put_word_self : (d : Disk) (i val : ℕ) → word (put_word d i val) i % 2 ^ 28 ≡ val % 2 ^ 28
word-put_word_self d i val = ground arith

word-put_word_ne :
    (d : Disk) (t c c' val : ℕ)
    → c ≢ c'
    → word (put_word d (t + 4 * c) val) (t + 4 * c') ≡ word d (t + 4 * c')
word-put_word_ne d t c c' val ne = ground (arith, ne)

word-ata_read : (d : Disk) (sector i : ℕ) → word (ata_read d sector) i ≡ word d (512 * sector + i)
word-ata_read d sector i = simp (sym (add_assoc (512 * sector) i _)) refl

above :
    (d : Disk) (b : ℕ → ℕ) (l i r a : ℕ)
    → i < r
    → l + r < 2 ^ 31
    → 512 * (l + r) ≤ a
    → ata_write d (add32 l i) 1 b a ≡ d a
above d b l i r a h k le =
    let e : add32 l i ≡ l + i = omega arith in
    let far : ltb a (512 * (l + i) + 512 * 1) ≡ false = ground (arith, le, h) in
    let out : (leb (512 * (l + i)) a && false) ≡ false = ground arith in rw (e, far, out) refl

word_above :
    (d : Disk) (b : ℕ → ℕ) (l i r c : ℕ)
    → i < r
    → l + r < 2 ^ 31
    → word (ata_write d (add32 l i) 1 b) (512 * (l + r) + 4 * c) ≡ word d (512 * (l + r) + 4 * c)
word_above d b l i r c h k =
    let a = 512 * (l + r) + 4 * c in
    rw
      (
        above d b l i r a h k (omega arith),
        above d b l i r (a + 1) h k (omega arith),
        above d b l i r (a + 2) h k (omega arith),
        above d b l i r (a + 3) h k (omega arith),
      )
      refl

module _ (v : Volume) (ok : IsVolume v) where
  entry_address :
      (c : ℕ)
      → c < 2 ^ 28
      → 512 * fat_sector v v.bootrec.reserved_sectors c + entry_offset v c ≡ table v + 4 * c
  entry_address c h =
      rw ok.sector (sector_address v.lba_start v.bootrec.reserved_sectors c ok.addressed h)

  pub get_fat_entry-word :
      (d : Disk) (c : ℕ) → c < 2 ^ 28 → fat v d c ≡ word d (table v + 4 * c) % 2 ^ 28
  unfolding get_fat_entry get_first_fat_sector
  get_fat_entry-word d c h =
      ap (λ (n : ℕ). n % 2 ^ 28)
        (word-ata_read d (fat_sector v v.bootrec.reserved_sectors c) (entry_offset v c)
          ∙ ap (word d) (entry_address c h))

  -- Writing an entry changes its four bytes and nothing else of the disk.
  pub set_fat_entry-put_word :
      (d : Disk) (c val a : ℕ)
      → c < 2 ^ 28
      → set_fat v d c val a ≡ put_word d (table v + 4 * c) val a
  unfolding set_fat_entry get_first_fat_sector
  set_fat_entry-put_word d c val a h =
      let small : entry_offset v c ≤ 508 = rw ok.sector (offset_small c) in
      sector_byte d (fat_sector v v.bootrec.reserved_sectors c) (entry_offset v c) val a small
      ∙ ap (λ (i : ℕ). put_word d i val a) (entry_address c h)

  -- An entry that is written is read back with its lowest 28 bits, and the entry of every other cluster
  -- is as it was.
  pub get_fat_entry-set_fat_entry :
      (d : Disk) (c c' val : ℕ)
      → c < 2 ^ 28
      → c' < 2 ^ 28
      → fat v (set_fat v d c val) c' ≡ (if c == c' then val % 2 ^ 28 else fat v d c')
  get_fat_entry-set_fat_entry d c c' val h h' =
      let written : set_fat v d c val ≡ put_word d (table v + 4 * c) val =
        fun_ext (λ a. set_fat_entry-put_word d c val a h) in
      get_fat_entry-word (set_fat v d c val) c' h' ∙ elim (Bool-cases (c == c')) [
        | inl same ↦
            let e : c ≡ c' = ground (arith, same) in
            rw (written, same, e) (word-put_word_self d (table v + 4 * c') val)
        | inr differ ↦
            let ne : c ≢ c' = ground (arith, differ) in
            rw (written, differ)
              (ap (λ (n : ℕ). n % 2 ^ 28) (word-put_word_ne d (table v) c c' val ne)
                ∙ sym (get_fat_entry-word d c' h'))
      ]

  -- The information sector lies apart from the table.
  pub update_fsinfo-fat :
      (fs : Fs) (c : ℕ) → c < 2 ^ 28 → fat v (update_fsinfo v fs).disk c ≡ fat v fs.disk c
  unfolding update_fsinfo
  update_fsinfo-fat fs c h =
      let l = v.lba_start in
      let apart =
        word_above fs.disk (fsinfo_bytes fs) l v.bootrec.fsinfo_sector v.bootrec.reserved_sectors c
          ok.info_sector ok.addressed in
      get_fat_entry-word (update_fsinfo v fs).disk c h
      ∙ ap (λ (n : ℕ). n % 2 ^ 28) apart
      ∙ sym (get_fat_entry-word fs.disk c h)

  pub get_fat_entry-bound : (d : Disk) (c : ℕ) → fat v d c < 2 ^ 28
  unfolding get_fat_entry
  get_fat_entry-bound d c = omega arith
