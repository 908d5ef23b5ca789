-- ===== src/Paging/Unmap.antt =====
-- vmmngr_unmap: the address leads nowhere, and no other page of the directory changes.
use kerosene.Base.{
  ℕ, ◌≡◌, ◌≢◌, refl, ◌∙◌, true, false, Option, none, some, Bool-cases, Option-cases, inl, inr,
  arith, ◌==◌,
}
use kerosene.Process.{null}
use kerosene.Paging.{
  Entry, Tables, Paging, zero_entry, is_present, page_directory_index, page_table_index, put_entry,
  frame_of, read_entry, write_entry, unmap,
}
use kerosene.Paging.Walk.{walk, directory_of, same_page, IsDirectory}
use kerosene.Paging.Table.{walk-put_entry, put_entry-IsDirectory}

pub record Unmapped (o : Option Paging) (s : Paging) (d virt : ℕ) : Type 0 where
  pub after : Paging
  pub runs : o ≡ some after
  pub frames : after.frames ≡ s.frames
  pub gone : walk after.tables d virt ≡ none
  pub others :
      (w : ℕ)
      → page_directory_index w ≢ 1023
      → same_page virt w ≡ false
      → walk after.tables d w ≡ walk s.tables d w
  pub is_directory : IsDirectory after.tables after.frames d

-- A run that ends with these tables and the old frames.
record Ran (o : Option Paging) (s : Paging) (ts : Tables) : Type 0 where
  after : Paging
  runs : o ≡ some after
  tables : after.tables ≡ ts
  frames : after.frames ≡ s.frames

abbrev cleared : Paging → ℕ → ℕ → Tables
cleared s d virt =
    put_entry s.tables (s.tables d (page_directory_index virt)).frame (page_table_index virt)
      zero_entry

unmap_mapped :
    (s : Paging) (pd virt : ℕ) (e : Entry)
    → walk s.tables (directory_of s pd) virt ≡ some e
    → Ran (unmap s pd virt) s (cleared s (directory_of s pd) virt)
unfolding unmap walk read_entry write_entry frame_of
unmap_mapped s pd virt e found = elim (Bool-cases (pd == null)) [
  | inl active ↦ record {
    after = record s { tables = cleared s (directory_of s pd) virt };
    runs = ground (arith, found);
    tables = refl;
    frames = refl;
  }
  | inr inactive ↦ record {
    after = record s {
      tables = cleared s (directory_of s pd) virt;
      temp_pd = none;
      temp_table = none;
    };
    runs = ground (arith, found);
    tables = refl;
    frames = refl;
  }
]

unmap_missing :
    (s : Paging) (pd virt : ℕ)
    → walk s.tables (directory_of s pd) virt ≡ none
    → Ran (unmap s pd virt) s s.tables
unfolding unmap walk read_entry write_entry frame_of
unmap_missing s pd virt missing =
    let pde = s.tables (directory_of s pd) (page_directory_index virt) in
    elim (Bool-cases (pd == null)) [
      | inl active ↦ record {
        after = s;
        runs = elim (Bool-cases (is_present pde)) [
          | inl there ↦ ground (arith, missing, there)
          | inr absent ↦ ground (arith, absent)
        ];
        tables = refl;
        frames = refl;
      }
      | inr inactive ↦ elim (Bool-cases (is_present pde)) [
        | inl there ↦ record {
          after = record s { temp_pd = none; temp_table = none };
          runs = ground (arith, missing, there);
          tables = refl;
          frames = refl;
        }
        | inr absent ↦ record {
          after = record s { temp_pd = none };
          runs = ground (arith, absent);
          tables = refl;
          frames = refl;
        }
      ]
    ]

present_of_walk :
    (ts : Tables) (d virt : ℕ) (e : Entry)
    → walk ts d virt ≡ some e
    → is_present (ts d (page_directory_index virt)) ≡ true
unfolding walk
present_of_walk ts d virt e found = ground arith

-- Where the directory and its tables are different frames in use and the address is not one of the
-- directory's last entry, vmmngr_unmap ends; the address then leads nowhere, every other page below the
-- last entry's leads where it led before, no frame is given back, and the tables stay different frames in
-- use.
pub unmap-Unmapped :
    (s : Paging) (pd virt : ℕ)
    → IsDirectory s.tables s.frames (directory_of s pd)
    → page_directory_index virt ≢ 1023
    → Unmapped (unmap s pd virt) s (directory_of s pd) virt
unmap-Unmapped s pd virt h inner =
    let d = directory_of s pd in
    let i = page_directory_index virt in
    elim (Option-cases (walk s.tables d virt)) [
      | inl missing ↦
          let r = unmap_missing s pd virt missing in
          record {
            after = r.after;
            runs = r.runs;
            frames = r.frames;
            gone = rw r.tables missing;
            others = λ w nw other. rw r.tables refl;
            is_directory = rw (r.tables, r.frames) h;
          }
      | inr (e, found) ↦
          let present = present_of_walk s.tables d virt e found in
          let r = unmap_mapped s pd virt e found in
          let step = λ (w : ℕ) (nw : page_directory_index w ≢ 1023).
            walk-put_entry s.tables s.frames d virt w zero_entry h inner nw present in
          let self : same_page virt virt ≡ true = ground arith in
          record {
            after = r.after;
            runs = r.runs;
            frames = r.frames;
            gone = rw r.tables (step virt inner ∙ rw self refl);
            others = λ w nw other. rw r.tables (step w nw ∙ rw other refl);
            is_directory =
                rw (r.tables, r.frames)
                  (put_entry-IsDirectory s.tables s.frames d (s.tables d i).frame
                    (page_table_index virt) zero_entry h (h.tables_apart i (omega arith) present));
          }
    ]
