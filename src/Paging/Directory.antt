-- ===== src/Paging/Directory.antt =====
-- vmmngr_alloc_page_directory: a new directory sees what the kernel sees.
use kerosene.Base.{
  ℕ, ◌*◌, ◌/◌, ◌<◌, ◌≡◌, ◌≢◌, ◌⊎◌, refl, true, false, ◌&&◌, none, Bool-cases, inl, inr, arith, ◌==◌,
  ltb, if◌then◌else◌,
}
use kerosene.Frames.{page_size, test_bit}
use kerosene.Frames.Search.{AllUsed}
use kerosene.Frames.Block.{IsValid, taken, alloc_block-Allocated}
use kerosene.Paging.{
  Tables, Paging, is_present, page_directory_index, page_table_index, put_entry, set_frame,
  add_attrib, pte_present, pte_writable, alloc_page_directory,
}
use kerosene.Paging.Walk.{walk, IsDirectory}
use kerosene.Paging.Table.{ne_of_free}

-- The directory at `pd` is new.
pub record Created (r : ℕ × Paging) (s : Paging) (d : ℕ) : Type 0 where
  pub after : Paging
  pub runs : r ≡ (d * page_size, after)
  pub fresh : test_bit s.frames.bitmap d ≡ false
  pub frames : after.frames ≡ taken s.frames d
  pub itself : (is_present (after.tables d 1023) ≡ true) × ((after.tables d 1023).frame ≡ d)
  pub kernel_walk :
      (w : ℕ) → page_directory_index w ≢ 1023 → walk after.tables d w ≡ walk s.tables s.kernel w
  pub others : (a j : ℕ) → a ≢ d → after.tables a j ≡ s.tables a j

-- Where the kernel's directory and its tables are different frames in use and the count of frames is
-- right, vmmngr_alloc_page_directory fails only where every frame is in use. Otherwise it takes a free
-- frame, and the directory in it leads every address that the last entry does not serve where the
-- kernel's directory does; the last entry leads to the new directory itself, and no other table
-- changes.
pub alloc_page_directory-Created :
    (s : Paging)
    → IsDirectory s.tables s.frames s.kernel
    → IsValid s.frames
    → ((alloc_page_directory s).0 ≡ 0) × AllUsed s.frames.bitmap 0 s.frames.total_block
      ⊎ ((d : ℕ) × Created (alloc_page_directory s) s d)
unfolding alloc_page_directory walk
alloc_page_directory-Created s h v = elim (alloc_block-Allocated s.frames v) [
  | inl (got, used) ↦ inl (rw got refl, used)
  | inr (n, first, nz, got, valid) ↦
      let at : n * page_size / page_size ≡ n = omega arith in
      let some_page : (n * page_size == 0) ≡ false = ground arith in
      let k_apart : s.kernel ≢ n = ne_of_free s.frames s.kernel n h.taken first.free in
      let copied : Tables =
        λ a j. if (a == n) && ltb j 1024 then s.tables s.kernel j else s.tables a j in
      let last =
        set_frame (add_attrib (add_attrib (copied n 1023) pte_present) pte_writable)
          (n * page_size) in
      let ts = put_entry copied n 1023 last in
      inr (
        n,
        record {
          after = record s { frames = taken s.frames n; tables = ts; temp_pd = none };
          runs = rw (got, at, some_page) refl;
          fresh = first.free;
          frames = refl;
          itself = (ground arith, ground arith);
          kernel_walk = λ w nw.
              let j = page_directory_index w in
              let j_lt : j < 1023 = omega arith in
              let pde : ts n j ≡ s.tables s.kernel j = ground (arith, nw) in
              elim (Bool-cases (is_present (s.tables s.kernel j))) [
                | inr absent ↦ rw (pde, absent) refl
                | inl there ↦
                    let other : (s.tables s.kernel j).frame ≢ n =
                      ne_of_free s.frames (s.tables s.kernel j).frame n
                        (h.tables_taken j j_lt there) first.free in
                    let pte : ts (s.tables s.kernel j).frame (page_table_index w)
                        ≡ s.tables (s.tables s.kernel j).frame (page_table_index w) =
                      ground (arith, other) in
                    rw (pde, pte) refl
              ];
          others = λ a j ne. ground arith;
        },
      )
]
