-- ===== src/Paging/Walk.antt =====
-- The abstract view of a page directory: what the processor's walk finds for a virtual address.
use kerosene.Base.{ℕ, ◌/◌, ◌<◌, ◌≡◌, ◌≢◌, Bool, true, ◌&&◌, Option, none, some, ◌==◌, if◌then◌else◌}
use kerosene.Process.{Ptr, null}
use kerosene.Frames.{page_size, Frames, test_bit}
use kerosene.Paging.{Entry, Tables, Paging, is_present, page_directory_index, page_table_index}

-- The entry of the page table for an address, where both levels are present.
unfoldable pub walk : Tables → ℕ → ℕ → Option Entry
walk ts d virt =
    let pde = ts d (page_directory_index virt) in
    let pte = ts pde.frame (page_table_index virt) in
    if is_present pde && is_present pte then some pte else none

abbrev pub directory_of : Paging → Ptr → ℕ
directory_of s pd = if pd == null then s.current else pd / page_size

-- Both addresses lie in one page.
abbrev pub same_page : ℕ → ℕ → Bool
same_page v w =
    (page_directory_index v == page_directory_index w) && (page_table_index v == page_table_index w)

-- The directory and its tables are different frames, all in use. The last entry, which leads to the
-- directory itself, is left out.
pub record IsDirectory (ts : Tables) (frames : Frames) (d : ℕ) : Type 0 where
  pub taken : test_bit frames.bitmap d ≡ true
  pub tables_taken :
      (i : ℕ) → i < 1023 → is_present (ts d i) ≡ true → test_bit frames.bitmap (ts d i).frame ≡ true
  pub tables_apart : (i : ℕ) → i < 1023 → is_present (ts d i) ≡ true → (ts d i).frame ≢ d
  pub distinct :
      (i j : ℕ)
      → i < 1023
      → j < 1023
      → is_present (ts d i) ≡ true
      → is_present (ts d j) ≡ true
      → (ts d i).frame ≡ (ts d j).frame
      → i ≡ j
