-- ===== src/Ramfs/Seek/Reading.antt =====
-- Reading where ramfs_file_seek_absolute of kernel/src/filesystem/ramfs.c has left a description.
use kerosene.Base.{
  ℕ, zero, suc, ◌+◌, ◌-◌, ◌*◌, ◌%◌, ◌<◌, ◌≤◌, ◌≡◌, ◌⊎◌, refl, ◌∙◌, sym, ap, inl, inr, true, false,
  some, List, [], ◌∷◌, ◌++◌, length, take, drop, length-append, arith, ltb, leb, if◌then◌else◌,
}
use mathlib.Core.Path.{subst}
use kerosene.Base.Int.{pos}
use kerosene.Process.{Ptr}
use kerosene.Files.{FsErr}
use kerosene.Ramfs.{Nodes, read_file}
use kerosene.Ramfs.Read.{status, Gives, read_file-content}
use kerosene.Ramfs.Content.{Chain, Full, content, length-content, drop-append_ge}
use kerosene.Ramfs.Seek.{
  Cursor, seek_loop, ramfs_file_seek_absolute, offset_of, ramfs_file_read, seek_loop-Lands,
}

-- The content behind the nodes that are passed.
drop-content :
    (block : Ptr → List ℕ) (before : List Ptr) (rest : List Ptr) (k : ℕ)
    → Full block before
    → drop (512 * length before + k) (content block (before ++ rest)) ≡ drop k (content block rest)
unfolding content
drop-content block [] rest k full = let e : 512 * 0 + k ≡ k = omega arith in rw e refl
drop-content block (x ∷ before) rest k (l, full) =
    drop-append_ge (512 * suc (length before) + k) (block x) (content block (before ++ rest))
      (omega (arith, l))
    ∙ (let e : 512 * suc (length before) + k - length (block x) ≡ 512 * length before + k =
          omega (arith, l) in
        rw e (drop-content block before rest k full))

Full-split :
    (block : Ptr → List ℕ) (before rest : List Ptr)
    → Full block (before ++ rest)
    → Full block before × Full block rest
Full-split block [] rest full = (tt, full)
Full-split block (x ∷ before) rest (l, full) =
    let (a, b) = Full-split block before rest full in ((l, a), b)

-- The offset that ramfs_file_read computes, where the node is the one that holds the byte before the
-- position.
offset_of_lem :
    (position k : ℕ)
    → position ≤ 512 * k + 512
    → (k ≡ 0) ⊎ (512 * k < position)
    → 512 * k + offset_of position ≡ position
offset_of_lem position k le (inl z) = rw z (ground (arith, le, z))
offset_of_lem position k le (inr lt) = ground (arith, le, lt)

outcome_shift :
    (a o n m : ℕ)
    → (if ltb (a + o) (a + m) then status (a + o + n) (a + m) else FsErr.eof)
      ≡ (if ltb o m then status (o + n) m else FsErr.eof)
outcome_shift a o n m = ground arith

-- A read from the node behind `before` with the offset from its start.
read-from :
    {W : Type 0} (s : Nodes W) (fuel : ℕ) (before behind : List Ptr) (q : Ptr) (n offset : ℕ)
    → Chain s.next q (q ∷ behind)
    → Full s.block (before ++ q ∷ behind)
    → length behind < fuel
    → let total = 512 * length (before ++ q ∷ behind) in
      let position = 512 * length before + offset in
      Gives
        (read_file fuel s q n offset)
        (if ltb position total then status (position + n) total else FsErr.eof)
        (take n (drop position (content s.block (before ++ q ∷ behind))))
read-from s fuel before behind q n offset c full enough =
    let (full_before, full_behind) = Full-split s.block before (q ∷ behind) full in
    let found = read_file-content s fuel q behind n offset c full_behind enough in
    let bytes = drop-content s.block before (q ∷ behind) offset full_before in
    let len = length-content s.block (q ∷ behind) full_behind in
    let total : 512 * length (before ++ q ∷ behind)
        ≡ 512 * length before + 512 * length (q ∷ behind) =
      omega (arith, length-append before (q ∷ behind)) in
    let outcome = outcome_shift (512 * length before) offset n (512 * length (q ∷ behind)) in
    rw (total, outcome, bytes) (rw len at found)

-- A description at `position` reads the bytes from there on, where its node is the one that holds the
-- byte before the position, or the first one for the position 0.
ramfs_file_read-from :
    {W : Type 0} (s : Nodes W) (fuel position n : ℕ) (before behind : List Ptr) (q : Ptr)
    → Chain s.next q (q ∷ behind)
    → Full s.block (before ++ q ∷ behind)
    → length behind < fuel
    → position ≤ 512 * length before + 512
    → (length before ≡ 0) ⊎ (512 * length before < position)
    → let total = 512 * length (before ++ q ∷ behind) in
      Gives
        (ramfs_file_read fuel s (record { position = position; current_datanode = q }) n)
        (if ltb position total then status (position + n) total else FsErr.eof)
        (take n (drop position (content s.block (before ++ q ∷ behind))))
unfolding ramfs_file_read
ramfs_file_read-from s fuel position n before behind q c full enough le first =
    let place = offset_of_lem position (length before) le first in
    let r = read-from s fuel before behind q n (offset_of position) c full enough in rw place at r

-- The offset within the block of a position one block further on.
offset_behind :
    (t k : ℕ) → 512 * suc k < t → t ≤ 512 * suc k + 512 → 512 * k + offset_of t ≡ t - 512
offset_behind t k lt le = ground (arith, lt, le)

not_ltb : (a b : ℕ) → b ≤ a → ltb a b ≡ false
not_ltb a b le = ground (arith, le)

-- In a file of whole data nodes, seeking to a position that is no further than the present one and
-- within the nodes sets the position, and reading then gives the bytes of the file from there on, as
-- many as it holds of those asked for: with success if it holds them all and the position is before
-- their end, else with the end of the file.
pub ramfs_file_read-seek :
    {W : Type 0} (s : Nodes W) (fuel x : ℕ) (xs : List Ptr) (size t n : ℕ) (cursor : Cursor)
    → Chain s.next x (x ∷ xs)
    → Full s.block (x ∷ xs)
    → length xs < fuel
    → t ≤ cursor.position
    → t ≤ 512 * length (x ∷ xs)
    → let total = 512 * length (x ∷ xs) in
      (c : Cursor) × (ramfs_file_seek_absolute fuel s.next x size cursor (pos t) ≡ some c)
      × (c.position ≡ t)
      × Gives
          (ramfs_file_read fuel s c n)
          (if ltb t total then status (t + n) total else FsErr.eof)
          (take n (drop t (content s.block (x ∷ xs))))
unfolding ramfs_file_seek_absolute
ramfs_file_read-seek s fuel x xs size t n cursor c full enough back inside =
    let r = seek_loop-Lands fuel s.next x xs 0 t c (omega (arith, inside)) enough in
    let not_forward : ltb cursor.position t ≡ false = not_ltb cursor.position t back in
    let zero_base : 0 + 512 * length r.before ≡ 512 * length r.before = omega arith in
    let reached : ltb (512 * length r.before + 512) t ≡ false =
      not_ltb (512 * length r.before + 512) t (omega (arith, r.reached)) in
    let full_split : Full s.block (r.before ++ r.at ∷ r.behind) =
      subst (Full s.block) r.split full in
    let shorter : length r.behind < fuel =
      omega (arith, enough, ap length r.split, length-append r.before (r.at ∷ r.behind)) in
    let reads =
      ramfs_file_read-from s fuel t n r.before r.behind r.at r.chain full_split shorter
        (omega (arith, r.reached))
        (elim r.first [
          | inl empty ↦ inl (ap length empty)
          | inr below ↦ inr (omega (arith, below))
        ]) in
    (
      record { position = t; current_datanode = r.at },
      rw (not_forward, r.runs, zero_base, reached) refl,
      refl,
      subst
          (λ l.
            Gives (ramfs_file_read fuel s (record { position = t; current_datanode = r.at }) n)
              (if ltb t (512 * length l) then status (t + n) (512 * length l) else FsErr.eof)
              (take n (drop t (content s.block l))))
          (sym r.split) reads,
    )

-- In a file of whole data nodes, seeking forward by at most a block from a position that is a multiple
-- of 512, but not 0, keeps the data node, which is the one before the position: reading then gives
-- bytes of the file from 512 before the position on.
pub ramfs_file_read-behind :
    {W : Type 0} (s : Nodes W) (fuel first size t n : ℕ) (before behind : List Ptr) (q : Ptr)
    → Chain s.next q (q ∷ behind)
    → Full s.block (before ++ q ∷ behind)
    → length behind < fuel
    → let position = 512 * suc (length before) in
      position < t
      → t ≤ 512 * suc (length before) + 512
      → let total = 512 * length (before ++ q ∷ behind) in
        let here : Cursor = record { position = 512 * suc (length before); current_datanode = q } in
        (c : Cursor) × (ramfs_file_seek_absolute fuel s.next first size here (pos t) ≡ some c)
        × (c.position ≡ t)
        × Gives
            (ramfs_file_read fuel s c n)
            (if ltb (t - 512) total then status (t - 512 + n) total else FsErr.eof)
            (take n (drop (t - 512) (content s.block (before ++ q ∷ behind))))
unfolding ramfs_file_seek_absolute seek_loop ramfs_file_read
ramfs_file_read-behind s zero first size t n before behind q c full enough lt le = elim enough [ ]
ramfs_file_read-behind s (suc fuel) first size t n before behind q c full enough lt le =
    let p = 512 * suc (length before) in
    let forward : ltb p t ≡ true = ground (arith, lt) in
    let base : p - p % 512 ≡ p = omega arith in
    let here : leb t (p + 512) ≡ true = ground (arith, le) in
    let no_end : ltb (p + 512) t ≡ false = not_ltb (p + 512) t le in
    let place : 512 * length before + offset_of t ≡ t - 512 =
      offset_behind t (length before) lt le in
    let reads = read-from s (suc fuel) before behind q n (offset_of t) c full enough in
    (
      record { position = t; current_datanode = q },
      rw (forward, base, here, no_end) refl,
      refl,
      rw place at reads,
    )
