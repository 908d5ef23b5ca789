-- ===== src/Paging.antt =====
-- kernel/src/mem/vmmngr.c: page directories and page tables. Tables lie in page frames: `tables` gives
-- the entries of each frame, by the frame's number. The code reaches a table through the last entry of
-- the current directory, which leads to the directory itself, or through one of two pages that it maps
-- for the time of a call; these two are the windows. An access through a window that is shut is a page
-- fault, `none`. Physical addresses are below 2^32, and interrupts are off.
pub mod Walk
pub mod Translate
pub mod Table
pub mod Map
pub mod Unmap
pub mod Directory
use kerosene.Base.{
  ℕ, zero, suc, ◌+◌, ◌-◌, ◌*◌, ◌/◌, ◌%◌, ◌^◌, Bool, true, false, not, ◌&&◌, ◌||◌, Option, none,
  some, ◌==◌, ltb, leb, if◌then◌else◌, ◌>>=◌,
}
use kerosene.Process.{Ptr, null}
use kerosene.Frames.{page_size, Frames, alloc_block, free_block}

-- A pde_t or pte_t: the number of the frame it leads to and its twelve attribute bits.
pub record Entry : Type 0 where
  pub frame : ℕ
  pub attrib : ℕ → Bool

abbrev pub zero_entry : Entry
zero_entry = record { frame = 0; attrib = λ i. false }

abbrev pub bit : ℕ → ℕ → Bool
bit n i = ltb i 12 && not (n / 2 ^ i % 2 == 0)

abbrev pub set_frame : Entry → ℕ → Entry
set_frame pe addr = record { frame = addr / page_size; attrib = λ i. pe.attrib i || bit addr i }

abbrev pub add_attrib : Entry → ℕ → Entry
add_attrib pe a = record pe { attrib = λ i. pe.attrib i || bit a i }

abbrev pub del_attrib : Entry → ℕ → Entry
del_attrib pe a = record pe { attrib = λ i. pe.attrib i && not (bit a i) }

abbrev pub pte_present : ℕ
pte_present = 1

abbrev pub pte_writable : ℕ
pte_writable = 2

abbrev pub is_present : Entry → Bool
is_present pe = pe.attrib 0

abbrev pub page_directory_index : ℕ → ℕ
page_directory_index virt = virt / 4194304 % 1024

abbrev pub page_table_index : ℕ → ℕ
page_table_index virt = virt / 4096 % 1024

abbrev pub Tables : Type 0
Tables = ℕ → ℕ → Entry

abbrev pub put_entry : Tables → ℕ → ℕ → Entry → Tables
put_entry ts f i e a j = if (a == f) && (j == i) then e else ts a j

-- The tables, the page frames, the frame of the current directory and of the kernel's own, and the
-- frames that the two windows VMMNGR_TEMP_PD and VMMNGR_TEMP_TABLE show.
pub record Paging : Type 0 where
  pub tables : Tables
  pub frames : Frames
  pub current : ℕ
  pub kernel : ℕ
  pub temp_pd : Option ℕ
  pub temp_table : Option ℕ

-- The addresses under which the code reaches a directory or a table.
pub data View : Type 0 where
  active_pd temp_pd temp_table : View
  active_table : ℕ → View

unfoldable pub frame_of : Paging → View → Option ℕ
frame_of s active_pd = some s.current
frame_of s temp_pd = s.temp_pd
frame_of s temp_table = s.temp_table
frame_of s (active_table i) =
    if is_present (s.tables s.current i) then some (s.tables s.current i).frame else none

unfoldable pub read_entry : Paging → View → ℕ → Option Entry
read_entry s v i = do f ← frame_of s v; some (s.tables f i)

unfoldable pub write_entry : Paging → View → ℕ → Entry → Option Paging
write_entry s v i e = do f ← frame_of s v; some (record s { tables = put_entry s.tables f i e })

abbrev pub map_temporary_pd : Paging → ℕ → Paging
map_temporary_pd s pd = record s { temp_pd = some (pd / page_size) }

abbrev pub unmap_temporary_pd : Paging → Paging
unmap_temporary_pd s = record s { temp_pd = none }

abbrev pub map_temporary_pt : Paging → ℕ → Paging
map_temporary_pt s frame = record s { temp_table = some frame }

abbrev pub unmap_temporary_pt : Paging → Paging
unmap_temporary_pt s = record s { temp_table = none }

-- `if(page_directory == NULL) virt_pd = VMMNGR_PD; else { ... }`, and the end of the function.
abbrev pub open_pd : Paging → Ptr → Paging
open_pd s pd = if pd == null then s else map_temporary_pd s pd

abbrev pub virt_pd : Ptr → View
virt_pd pd = if pd == null then active_pd else temp_pd

abbrev pub close_pd : Paging → Ptr → Paging
close_pd s pd = if pd == null then s else unmap_temporary_pd s

-- The table behind a present entry of the directory.
abbrev pub open_table : Paging → Ptr → Entry → Paging
open_table s pd pde = if pd == null then s else map_temporary_pt s pde.frame

abbrev pub virt_table : Ptr → ℕ → View
virt_table pd i = if pd == null then active_table i else temp_table

abbrev pub close_table : Paging → Bool → Paging
close_table s mapped_temp_table = if mapped_temp_table then unmap_temporary_pt s else s

-- The address of the frame, 0 if the page is not present. The entry is read once more at the end, when
-- the windows are shut.
unfoldable pub to_physical_addr : Paging → Ptr → ℕ → Option (ℕ × Paging)
unfolding read_entry frame_of
to_physical_addr s pd virt = do
  let s₁ = open_pd s pd
  pde ← read_entry s₁ (virt_pd pd) (page_directory_index virt)
  if not (is_present pde) then some (0, close_pd s₁ pd) else do
    let s₂ = open_table s₁ pd pde
    let table = virt_table pd (page_directory_index virt)
    pte ← read_entry s₂ table (page_table_index virt)
    let s₃ = close_pd (close_table s₂ (not (pd == null))) pd
    if not (is_present pte) then some (0, s₃) else do
      again ← read_entry s₃ table (page_table_index virt)
      some (again.frame * page_size, s₃)

-- MEM_ERR
pub data MemErr : Type 0 where
  success oom unmapped : MemErr

-- What the first half of vmmngr_map comes to: no memory for a new table, or the table, the view of
-- it, and whether it is in its window.
pub data Opened : Type 0 where
  no_memory : Frames → Opened
  opened : Paging → View → Bool → Opened

-- memset(table, 0, sizeof(page_table_t))
abbrev pub clear_table : Tables → ℕ → Tables
clear_table ts f a j = if (a == f) && ltb j 1024 then zero_entry else ts a j

unfoldable pub find_table : Paging → Ptr → ℕ → ℕ → Option Opened
unfolding read_entry write_entry frame_of
find_table s pd i flags = do
  pde ← read_entry s (virt_pd pd) i
  if is_present pde
      then some (opened (open_table s pd pde) (virt_table pd i) (not (pd == null)))
      else let got = alloc_block s.frames in
        let entry = set_frame (add_attrib (add_attrib pde flags) pte_present) got.0 in
        if got.0 == 0 then some (no_memory got.1) else do
          s₁ ← write_entry (record s { frames = got.1 }) (virt_pd pd) i entry
          let s₂ = map_temporary_pt s₁ (got.0 / page_size)
          let s₃ = record s₂ { tables = clear_table s₂.tables (got.0 / page_size) }
          some (opened s₃ temp_table true)

unfoldable pub map : Paging → Ptr → ℕ → ℕ → ℕ → Option (MemErr × Paging)
unfolding find_table read_entry write_entry frame_of
map s pd phys virt flags = do
  let s₁ = open_pd s pd
  found ← find_table s₁ pd (page_directory_index virt) flags
  elim found [
    | no_memory frames ↦ some (oom, close_pd (record s₁ { frames = frames }) pd)
    | opened s₂ table mapped ↦ do
      pte ← read_entry s₂ table (page_table_index virt)
      s₃ ←
          write_entry s₂ table (page_table_index virt)
            (set_frame (add_attrib (add_attrib pte pte_present) flags) phys)
      some (success, close_pd (close_table s₃ mapped) pd)
  ]

unfoldable pub unmap : Paging → Ptr → ℕ → Option Paging
unfolding read_entry write_entry frame_of
unmap s pd virt = do
  let s₁ = open_pd s pd
  pde ← read_entry s₁ (virt_pd pd) (page_directory_index virt)
  if not (is_present pde) then some (close_pd s₁ pd) else do
    let s₂ = open_table s₁ pd pde
    let table = virt_table pd (page_directory_index virt)
    pte ← read_entry s₂ table (page_table_index virt)
    s₃ ←
        if not (is_present pte)
        then some s₂
        else write_entry s₂ table (page_table_index virt) zero_entry
    some (close_pd (close_table s₃ (not (pd == null))) pd)

-- The error, the entry and the frames after the call.
unfoldable pub alloc_page : Entry → Frames → MemErr × Entry × Frames
alloc_page pte frames =
    let got = alloc_block frames in
    if got.0 == 0
    then (oom, pte, got.1)
    else (success, add_attrib (set_frame pte got.0) pte_present, got.1)

unfoldable pub free_page : Entry → Frames → Entry × Frames
free_page pte frames = (
  del_attrib pte pte_present,
  if pte.frame == 0 then frames else free_block frames (pte.frame * page_size),
)

-- memcpy of the kernel's directory, then its last entry made to lead to the new directory.
unfoldable pub alloc_page_directory : Paging → ℕ × Paging
alloc_page_directory s =
    let got = alloc_block s.frames in
    let d = got.0 / page_size in
    let copied : Tables =
      λ a j. if (a == d) && ltb j 1024 then s.tables s.kernel j else s.tables a j in
    let last = set_frame (add_attrib (add_attrib (copied d 1023) pte_present) pte_writable) got.0 in
    if got.0 == 0
    then (0, record s { frames = got.1 })
    else (got.0, record s { frames = got.1; tables = put_entry copied d 1023 last; temp_pd = none })

-- Whether an entry is 0.
abbrev pub no_bit : ℕ → (ℕ → Bool) → Bool
no_bit zero a = true
no_bit (suc n) a = not (a n) && no_bit n a

unfoldable pub is_zero : Entry → Bool
is_zero pe = (pe.frame == 0) && no_bit 12 pe.attrib

-- The frames behind the entries of one table: the rounds left, and the index.
unfoldable pub free_entries : (ℕ → Entry) → ℕ → ℕ → Frames → Frames
free_entries table zero j frames = frames
free_entries table (suc rounds) j frames =
    let f = (table j).frame in
    free_entries table rounds (j + 1) (if f == 0 then frames else free_block frames (f * page_size))

-- KERNEL_START / (PAGE_SIZE * 1024)
abbrev pub user_entries : ℕ
user_entries = 768

unfoldable pub free_tables : Tables → ℕ → ℕ → ℕ → Frames → Frames
free_tables ts d zero i frames = frames
free_tables ts d (suc rounds) i frames =
    let pde = ts d i in
    let freed = free_block (free_entries (ts pde.frame) 1024 0 frames) (pde.frame * page_size) in
    free_tables ts d rounds (i + 1) (if is_zero pde then frames else freed)

unfoldable pub free_page_directory : Paging → ℕ → Paging
free_page_directory s pd = record s {
  frames = free_block (free_tables s.tables (pd / page_size) user_entries 0 s.frames) pd;
  temp_pd = none;
  temp_table = none;
}

unfoldable pub switch_page_directory : Paging → ℕ → Paging
switch_page_directory s dir = record s { current = dir / page_size }

abbrev pub vmmngr_init : Paging → Paging
vmmngr_init s = record s { current = s.kernel }
