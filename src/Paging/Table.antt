-- ===== src/Paging/Table.antt =====
-- What a write to a page table does to the walks of a directory.
use kerosene.Base.{
  ℕ, ◌<◌, ◌≡◌, ◌≢◌, refl, sym, true, false, Option, none, some, Bool-cases, inl, inr, arith, ◌==◌,
  if◌then◌else◌,
}
use kerosene.Frames.{Frames, set_bit, test_bit}
use kerosene.Frames.Count.{test_bit-write_bit}
use kerosene.Frames.Block.{taken}
use kerosene.Paging.{
  Entry, Tables, is_present, page_directory_index, page_table_index, put_entry, clear_table,
}
use kerosene.Paging.Walk.{walk, same_page, IsDirectory}

-- The walk once the entry for `v` is `e`.
abbrev pub overridden : Entry → Tables → ℕ → ℕ → ℕ → Option Entry
overridden e ts d v w =
    if same_page v w then (if is_present e then some e else none) else walk ts d w

pub walk-put_entry :
    (ts : Tables) (fr : Frames) (d v w : ℕ) (e : Entry)
    → IsDirectory ts fr d
    → page_directory_index v ≢ 1023
    → page_directory_index w ≢ 1023
    → is_present (ts d (page_directory_index v)) ≡ true
    → walk (put_entry ts (ts d (page_directory_index v)).frame (page_table_index v) e) d w
      ≡ overridden e ts d v w
unfolding walk
walk-put_entry ts fr d v w e h nv nw present =
    let i = page_directory_index v in
    let j = page_directory_index w in
    let i_lt : i < 1023 = omega arith in
    let j_lt : j < 1023 = omega arith in
    let apart : (ts d i).frame ≢ d = h.tables_apart i i_lt present in
    elim (Bool-cases (is_present (ts d j))) [
      | inr absent ↦ ground (arith, apart)
      | inl there ↦ ground (arith, apart, h.distinct i j i_lt j_lt present there)
    ]

pub put_entry-IsDirectory :
    (ts : Tables) (fr : Frames) (d f k : ℕ) (e : Entry)
    → IsDirectory ts fr d
    → f ≢ d
    → IsDirectory (put_entry ts f k e) fr d
put_entry-IsDirectory ts fr d f k e h apart =
    let same : (i : ℕ) → put_entry ts f k e d i ≡ ts d i = λ i. ground arith in
    record {
      taken = h.taken;
      tables_taken = λ i lt p. rw (same i) (h.tables_taken i lt (rw (same i) at p));
      tables_apart = λ i lt p. rw (same i) (h.tables_apart i lt (rw (same i) at p));
      distinct = λ i j li lj pi pj e.
          h.distinct i j li lj (rw (same i) at pi) (rw (same j) at pj) (rw (same i, same j) at e);
    }

pub ne_of_free :
    (fr : Frames) (a b : ℕ) → test_bit fr.bitmap a ≡ true → test_bit fr.bitmap b ≡ false → a ≢ b
ne_of_free fr a b used free e = cc

-- A directory entry for a new table in frame `n`, which is empty but for one entry.
abbrev pub with_table : Tables → ℕ → ℕ → Entry → ℕ → Entry → Tables
with_table ts d i pde k e = put_entry (clear_table (put_entry ts d i pde) pde.frame) pde.frame k e

pub walk-with_table :
    (ts : Tables) (fr : Frames) (d v w : ℕ) (pde e : Entry)
    → IsDirectory ts fr d
    → test_bit fr.bitmap pde.frame ≡ false
    → page_directory_index v ≢ 1023
    → page_directory_index w ≢ 1023
    → is_present (ts d (page_directory_index v)) ≡ false
    → is_present pde ≡ true
    → walk (with_table ts d (page_directory_index v) pde (page_table_index v) e) d w
      ≡ overridden e ts d v w
unfolding walk
walk-with_table ts fr d v w pde e h free nv nw absent present =
    let j = page_directory_index w in
    let j_lt : j < 1023 = omega arith in
    let k_lt : page_table_index w < 1024 = omega arith in
    let apart : d ≢ pde.frame = ne_of_free fr d pde.frame h.taken free in
    let i = page_directory_index v in
    let m = with_table ts d i pde (page_table_index v) e in
    elim (Bool-cases (i == j)) [
      | inl same ↦
          let pde_now : m d j ≡ pde = ground (arith, apart) in
          rw (pde_now, same) ground (arith, apart)
      | inr differ ↦
          let pde_now : m d j ≡ ts d j = ground (arith, apart) in
          rw (pde_now, differ)
            (elim (Bool-cases (is_present (ts d j))) [
              | inr no_table ↦ rw no_table refl
              | inl there ↦
                  let other : (ts d j).frame ≢ pde.frame =
                    ne_of_free fr (ts d j).frame pde.frame (h.tables_taken j j_lt there) free in
                  let pte_now : m (ts d j).frame (page_table_index w)
                      ≡ ts (ts d j).frame (page_table_index w) =
                    ground (arith, other, h.tables_apart j j_lt there) in
                  rw pte_now refl
            ])
    ]

pub with_table-IsDirectory :
    (ts : Tables) (fr : Frames) (d i k : ℕ) (pde e : Entry)
    → IsDirectory ts fr d
    → test_bit fr.bitmap pde.frame ≡ false
    → IsDirectory (with_table ts d i pde k e) (taken fr pde.frame) d
with_table-IsDirectory ts fr d i k pde e h free =
    let m = with_table ts d i pde k e in
    let apart : d ≢ pde.frame = ne_of_free fr d pde.frame h.taken free in
    let now : (j : ℕ) → m d j ≡ (if j == i then pde else ts d j) = λ j. ground (arith, apart) in
    let still : (a : ℕ)
        → test_bit fr.bitmap a ≡ true
        → test_bit (set_bit fr.bitmap pde.frame) a ≡ true =
      λ a t. rw (test_bit-write_bit true fr.bitmap pde.frame a) ground (arith, t) in
    let itself : test_bit (set_bit fr.bitmap pde.frame) pde.frame ≡ true =
      rw (test_bit-write_bit true fr.bitmap pde.frame pde.frame) ground arith in
    let fresh : (j : ℕ) → j < 1023 → is_present (ts d j) ≡ true → (ts d j).frame ≢ pde.frame =
      λ j lt p. ne_of_free fr (ts d j).frame pde.frame (h.tables_taken j lt p) free in
    record {
      taken = still d h.taken;
      tables_taken = λ j lt p. rw (now j) (elim (Bool-cases (j == i)) [
        | inl e ↦ rw e itself
        | inr ne ↦ rw ne (still (ts d j).frame (h.tables_taken j lt (rw (now j, ne) at p)))
      ]);
      tables_apart = λ j lt p. rw (now j) (elim (Bool-cases (j == i)) [
        | inl e ↦ rw e (λ q. apart (sym q))
        | inr ne ↦ rw ne (h.tables_apart j lt (rw (now j, ne) at p))
      ]);
      distinct = λ a b la lb pa pb q. elim (Bool-cases (a == i)) [
        | inl ea ↦ elim (Bool-cases (b == i)) [
          | inl eb ↦ ground arith
          | inr nb ↦
              absurd (fresh b lb (rw (now b, nb) at pb) (sym (rw (now a, now b, ea, nb) at q)))
        ]
        | inr na ↦ elim (Bool-cases (b == i)) [
          | inl eb ↦ absurd (fresh a la (rw (now a, na) at pa) (rw (now a, now b, na, eb) at q))
          | inr nb ↦
              h.distinct a b la lb (rw (now a, na) at pa) (rw (now b, nb) at pb)
                (rw (now a, now b, na, nb) at q)
        ]
      ];
    }
