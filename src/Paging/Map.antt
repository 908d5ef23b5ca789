-- ===== src/Paging/Map.antt =====
-- vmmngr_map: the address then leads to the frame, and no other page of the directory changes.
use kerosene.Base.{ℕ, ◌/◌, ◌≡◌, ◌≢◌, ◌⊎◌, true, false, Option, some}
use kerosene.Frames.{page_size, Frames}
use kerosene.Frames.Search.{AllUsed}
use kerosene.Frames.Block.{IsValid}
use kerosene.Paging.{
  Entry, Tables, Paging, MemErr, success, oom, zero_entry, is_present, page_directory_index,
  page_table_index, put_entry, set_frame, add_attrib, pte_present, bit,
}
use kerosene.Paging.Walk.{walk, same_page, IsDirectory}
use kerosene.Paging.Table.{with_table}

-- The entry that a mapping writes over `old`.
abbrev pub mapped_entry : Entry → ℕ → ℕ → Entry
mapped_entry old phys flags = set_frame (add_attrib (add_attrib old pte_present) flags) phys

pub record Mapped (o : Option (MemErr × Paging)) (s : Paging) (d virt phys flags : ℕ) : Type 0 where
  pub after : Paging
  pub entry : Entry
  pub runs : o ≡ some (success, after)
  pub frame : entry.frame ≡ phys / page_size
  pub flags_set : (k : ℕ) → bit flags k ≡ true → entry.attrib k ≡ true
  pub found : walk after.tables d virt ≡ some entry
  pub others :
      (w : ℕ)
      → page_directory_index w ≢ 1023
      → same_page virt w ≡ false
      → walk after.tables d w ≡ walk s.tables d w
  pub is_directory : IsDirectory after.tables after.frames d
  pub frames_valid : IsValid after.frames

-- The tables after one write to a table that is there.
abbrev remapped : Paging → ℕ → ℕ → ℕ → ℕ → Tables
remapped s d phys virt flags =
    let f = (s.tables d (page_directory_index virt)).frame in
    let k = page_table_index virt in put_entry s.tables f k (mapped_entry (s.tables f k) phys flags)

-- The tables with a new table in the frame at `addr`.
abbrev extended : Paging → ℕ → ℕ → ℕ → ℕ → ℕ → Tables
extended s d addr phys virt flags =
    let i = page_directory_index virt in
    let pde = set_frame (add_attrib (add_attrib (s.tables d i) flags) pte_present) addr in
    with_table s.tables d i pde (page_table_index virt) (mapped_entry zero_entry phys flags)

-- A run that ends well with these tables and frames.
record Ran (o : Option (MemErr × Paging)) (ts : Tables) (fr : Frames) : Type 0 where
  after : Paging
  runs : o ≡ some (success, after)
  tables : after.tables ≡ ts
  frames : after.frames ≡ fr

-- What a mapping comes to: it fails, with no table changed, only where the page table is missing and no
-- frame is free to hold one.
abbrev pub MapDone : Option (MemErr × Paging) → Paging → ℕ → ℕ → ℕ → ℕ → Type 0
MapDone o s d virt phys flags =
    ((t : Paging) × (o ≡ some (oom, t))
      × (t.tables ≡ s.tables)
      × (is_present (s.tables d (page_directory_index virt)) ≡ false)
      × AllUsed s.frames.bitmap 0 s.frames.total_block)
    ⊎ Mapped o s d virt phys flags
