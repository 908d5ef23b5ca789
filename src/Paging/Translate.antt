-- ===== src/Paging/Translate.antt =====
-- vmmngr_to_physical_addr against the walk of the tables.
use kerosene.Base.{ℕ, ◌*◌, ◌/◌, ◌≡◌, ◌≢◌, Option, none, some, arith}
use kerosene.Process.{Ptr, null}
use kerosene.Frames.{page_size}
use kerosene.Paging.{Entry, Paging, frame_of, read_entry, to_physical_addr}
use kerosene.Paging.Walk.{walk}

-- The address of the frame that a walk has found, 0 for none.
abbrev pub address_of : Option Entry → ℕ
address_of none = 0
address_of (some e) = e.frame * page_size

-- In the current directory the translation is the walk's, and nothing changes.
pub to_physical_addr-walk :
    (s : Paging) (virt : ℕ)
    → to_physical_addr s null virt ≡ some (address_of (walk s.tables s.current virt), s)
unfolding to_physical_addr walk read_entry frame_of
to_physical_addr-walk s virt = ground arith

-- In a directory that is given by its address, the translation of a page that is present reads its
-- entry again through a window that is already shut, which is a page fault.
pub to_physical_addr-inactive :
    (s : Paging) (pd : Ptr) (virt : ℕ) (e : Entry)
    → pd ≢ null
    → walk s.tables (pd / page_size) virt ≡ some e
    → to_physical_addr s pd virt ≡ none
unfolding to_physical_addr walk read_entry frame_of
to_physical_addr-inactive s pd virt e ne found = ground arith
