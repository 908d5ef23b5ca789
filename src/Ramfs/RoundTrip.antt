-- ===== src/Ramfs/RoundTrip.antt =====
-- What write_file writes, read_file reads.
use kerosene.Base.{
  ℕ, suc, ◌+◌, ◌-◌, ◌*◌, ◌<◌, ◌≤◌, ◌≡◌, refl, ◌∙◌, sym, ap, some, List, ◌∷◌, ◌++◌, length, take,
  drop, length-take, arith, ◌==◌, ltb, if◌then◌else◌,
}
use mathlib.Core.Path.{subst}
use kerosene.Process.{Ptr}
use kerosene.Process.Queue.Chain.{Distinct}
use kerosene.Files.{FsErr}
use kerosene.Ramfs.{Storage, Nodes, splice, read_file, write_file}
use kerosene.Ramfs.Content.{
  Chain, Full, content, length-content, take-append_le, drop-append_ge, take_all,
}
use kerosene.Ramfs.Read.{status, Gives, read_file-content}
use kerosene.Ramfs.Update.{write_file-Written}

spliced :
    (offset : ℕ) (bytes c : List ℕ)
    → offset + length bytes ≤ length c
    → take (length bytes) (drop offset (splice offset bytes c)) ≡ bytes
spliced offset bytes c le =
    let rest = drop (offset + length bytes) c in
    let len : length (take offset c) ≡ offset = omega (arith, length-take offset c, le) in
    let back : offset - offset ≡ 0 = omega arith in
    let skip : drop offset (splice offset bytes c) ≡ bytes ++ rest =
      drop-append_ge offset (take offset c) (bytes ++ rest) (omega (arith, len))
      ∙ rw (len, back) refl in
    rw skip (
      take-append_le (length bytes) bytes rest (omega arith)
      ∙ take_all (length bytes) bytes (omega arith))

pub in_range :
    (offset size total : ℕ)
    → offset < total
    → offset + size ≤ total
    → (if ltb offset total then status (offset + size) total else FsErr.eof) ≡ FsErr.success
in_range offset size total lt le = ground (arith, lt, le)

-- A write that begins in the first node of a chain of whole, different data nodes, lies within the chain
-- and fills no block from its start on (fewer than 512 bytes at offset 0, fewer than 1024 - offset behind
-- it) ends well, and a read of as many bytes at the same offset then ends with success and gives the bytes
-- that were written.
pub read_file-write_file :
    {W : Type 0} (storage : Storage W) (fuel : ℕ) (s : Nodes W) (x : Ptr) (xs : List Ptr)
    (bytes : List ℕ) (offset : ℕ)
    → Chain s.next x (x ∷ xs)
    → Full s.block (x ∷ xs)
    → Distinct (x ∷ xs)
    → length xs < fuel
    → offset < 512
    → offset + length bytes ≤ 512 * length (x ∷ xs)
    → length bytes < (if offset == 0 then 512 else 1024 - offset)
    → (q : Ptr) × (s' : Nodes W) × (write_file storage (suc fuel) s x bytes offset
        ≡ some (FsErr.success, length bytes, q, s'))
      × Gives (read_file fuel s' x (length bytes) offset) FsErr.success bytes
read_file-write_file storage fuel s x xs bytes offset c full d enough lt room small =
    let w = write_file-Written storage fuel s x xs bytes offset c full d lt room small in
    let c' : Chain w.nodes.next x (x ∷ xs) = subst (λ n. Chain n x (x ∷ xs)) (sym w.links) c in
    let (q, r) = read_file-content w.nodes fuel x xs (length bytes) offset c' w.full enough in
    let len = length-content w.nodes.block (x ∷ xs) w.full in
    let len_s = length-content s.block (x ∷ xs) full in
    let good = in_range offset (length bytes) (512 * suc (length xs)) (omega (arith, lt)) room in
    let back = spliced offset bytes (content s.block (x ∷ xs)) (omega (arith, len_s, room)) in
    let same = ap (λ l. take (length bytes) (drop offset l)) w.written ∙ back in
    (w.last, w.nodes, w.runs, (q, rw (len, good, same) at r))
