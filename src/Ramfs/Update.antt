-- ===== src/Ramfs/Update.antt =====
-- write_file over data nodes that are there: the bytes replace those at the offset.
use kerosene.Base.{
  ℕ, suc, ◌+◌, ◌-◌, ◌*◌, ◌/◌, ◌<◌, ◌≤◌, ◌≡◌, ◌≢◌, refl, ◌∙◌, ap, inl, inr, Bool-cases, true, false,
  some, List, [], ◌∷◌, ◌++◌, length, take, drop, length-drop, length-take, arith, ◌==◌, ltb, leb,
  if◌then◌else◌,
}
use kerosene.Process.{Ptr, null}
use kerosene.Process.Queue.Chain.{has, Distinct}
use kerosene.Files.{FsErr}
use kerosene.Ramfs.{
  Storage, Nodes, splice, write_block, write_loop, next_datanode, write_rest, write_at, write_file,
}
use kerosene.Ramfs.Content.{Chain, Full, content, take_all}
use kerosene.Ramfs.Write.{
  Written, content-frame, Full-frame, length-splice, write_block-others, write_block-elsewhere,
  write_loop-fits, has_cons, ne_null,
}
use kerosene.Ramfs.Splice.{splice_left, splice_over}

not_zero : (n k : ℕ) → k < n → (n - k == 0) ≡ false
not_zero n k lt = ground (arith, lt)

write_block-here :
    {W : Type 0} (s : Nodes W) (x : Ptr) (offset : ℕ) (bytes : List ℕ)
    → (write_block s x offset bytes).block x ≡ splice offset bytes (s.block x)
write_block-here s x offset bytes = ground arith

module _ {W : Type 0} (storage : Storage W) where
  -- Less than one block from the start of a node on.
  write_rest-Written :
      (fuel written : ℕ) (s : Nodes W) (x : Ptr) (xs : List Ptr) (bytes : List ℕ)
      → x ≢ null
      → Full s.block (x ∷ xs)
      → Distinct (x ∷ xs)
      → length bytes < 512
      → (w : Written
          (write_loop storage (suc fuel) s x bytes)
          s
          (x ∷ xs)
          bytes
          (bytes ++ drop (length bytes) (content s.block (x ∷ xs))))
        × (write_rest storage (suc fuel) s x written bytes
            ≡ some (FsErr.success, written + length bytes, w.last, w.nodes))
  unfolding write_rest
  write_rest-Written fuel written s x xs bytes ne full d small =
      let w = write_loop-fits storage fuel s x xs bytes full d (omega (arith, small)) in
      let short : ltb 0 (length bytes / 512) ≡ false = ground (arith, small) in
      (w, rw (short, ne_null x ne, w.runs) refl)

  -- A write that ends in its first node.
  write_at-fits :
      (fuel : ℕ) (s : Nodes W) (x : Ptr) (xs : List Ptr) (bytes : List ℕ) (offset : ℕ)
      → Full s.block (x ∷ xs)
      → Distinct (x ∷ xs)
      → (offset == 0) ≡ false
      → offset < 512
      → leb (length bytes) (512 - offset) ≡ true
      → Written
          (write_at storage fuel s x bytes offset)
          s
          (x ∷ xs)
          bytes
          (splice offset bytes (content s.block (x ∷ xs)))
  unfolding write_at content
  write_at-fits fuel s x xs bytes offset (l, full) (out, d) nz lt fits =
      let s₁ = write_block s x offset bytes in
      let same =
        λ (a : Ptr) (i : has a xs ≡ true). write_block-others s x a xs offset bytes out i in
      let le : offset + length bytes ≤ 512 = ground (arith, fits, lt) in
      let whole = take_all (length bytes) bytes (omega arith) in
      let done : (length bytes - length bytes == 0) ≡ true = ground arith in
      let here : s₁.block x ≡ splice offset bytes (s.block x) = ground arith in
      let frame = content-frame s.block s₁.block xs same in
      record {
        last = x;
        nodes = s₁;
        runs = rw (nz, fits, done, whole) refl;
        links = refl;
        written = rw (here, frame) (splice_left offset bytes (s.block x) (content s.block xs) l le);
        full = (
          ap length here ∙ length-splice offset bytes (s.block x) l le,
          Full-frame s.block s₁.block xs same full,
        );
        others = λ a i. write_block-elsewhere s x a offset bytes (has_cons a x xs i).0;
      }

  -- A write that ends in the node after its first one.
  write_at-over :
      (fuel : ℕ) (s : Nodes W) (x y : Ptr) (ys : List Ptr) (bytes : List ℕ) (offset : ℕ)
      → Chain s.next x (x ∷ y ∷ ys)
      → Full s.block (x ∷ y ∷ ys)
      → Distinct (x ∷ y ∷ ys)
      → (offset == 0) ≡ false
      → offset < 512
      → leb (length bytes) (512 - offset) ≡ false
      → length bytes < 1024 - offset
      → Written
          (write_at storage (suc fuel) s x bytes offset)
          s
          (x ∷ y ∷ ys)
          bytes
          (splice offset bytes (content s.block (x ∷ y ∷ ys)))
  unfolding write_at content next_datanode
  write_at-over fuel s x y ys bytes offset (e, ne, (to, ny, chain)) (l, full) (out, d) nz lt over
        small =
      let ws = 512 - offset in
      let first = take ws bytes in
      let s₁ = write_block s x offset first in
      let same = λ (a : Ptr) (i : has a (y ∷ ys) ≡ true).
        write_block-others s x a (y ∷ ys) offset first out i in
      let gt : ws < length bytes = ground (arith, over) in
      let left = length-drop ws bytes in
      let len : length first ≡ ws = omega (arith, length-take ws bytes, gt) in
      let full₁ : Full s₁.block (y ∷ ys) = Full-frame s.block s₁.block (y ∷ ys) same full in
      let frame = content-frame s.block s₁.block (y ∷ ys) same in
      let (w, runs) =
        write_rest-Written fuel ws s₁ y ys (drop ws bytes) ny full₁ d
          (omega (arith, left, small, lt)) in
      let not_done : (length bytes - ws == 0) ≡ false = not_zero (length bytes) ws gt in
      let sum : ws + length (drop ws bytes) ≡ length bytes = omega (arith, left, gt) in
      let here : w.nodes.block x ≡ splice offset first (s.block x) =
        w.others x out ∙ write_block-here s x offset first in
      record {
        last = w.last;
        nodes = w.nodes;
        runs = rw (nz, over, not_done, to, ne_null y ny, ne_null y ny, runs, sum) refl;
        links = w.links;
        written =
            rw (here, w.written, frame)
              (splice_over offset bytes (s.block x) (content s.block (y ∷ ys)) l lt
                (omega (arith, gt)));
        full = (
          ap length here ∙ length-splice offset first (s.block x) l (omega (arith, len, lt)),
          w.full,
        );
        others = λ a i.
            let (na, outside) = has_cons a x (y ∷ ys) i in
            w.others a outside ∙ write_block-elsewhere s x a offset first na;
      }

  at_zero :
      (fuel : ℕ) (s : Nodes W) (x : Ptr) (bytes : List ℕ)
      → write_at storage fuel s x bytes 0 ≡ write_rest storage fuel s x 0 bytes
  unfolding write_at
  at_zero fuel s x bytes = refl

  write_at-Written :
      (fuel : ℕ) (s : Nodes W) (x : Ptr) (xs : List Ptr) (bytes : List ℕ) (offset : ℕ)
      → Chain s.next x (x ∷ xs)
      → Full s.block (x ∷ xs)
      → Distinct (x ∷ xs)
      → (offset == 0) ≡ false
      → offset < 512
      → offset + length bytes ≤ 512 * length (x ∷ xs)
      → length bytes < 1024 - offset
      → Written
          (write_at storage (suc fuel) s x bytes offset)
          s
          (x ∷ xs)
          bytes
          (splice offset bytes (content s.block (x ∷ xs)))
  write_at-Written fuel s x xs bytes offset c full d nz lt room small =
      elim (Bool-cases (leb (length bytes) (512 - offset))) [
        | inl fits ↦ write_at-fits (suc fuel) s x xs bytes offset full d nz lt fits
        | inr over ↦ beyond xs c full d room over
      ]
    where
      beyond :
          (ys : List Ptr)
          → Chain s.next x (x ∷ ys)
          → Full s.block (x ∷ ys)
          → Distinct (x ∷ ys)
          → offset + length bytes ≤ 512 * length (x ∷ ys)
          → leb (length bytes) (512 - offset) ≡ false
          → Written
              (write_at storage (suc fuel) s x bytes offset)
              s
              (x ∷ ys)
              bytes
              (splice offset bytes (content s.block (x ∷ ys)))
      beyond [] c full d room over = absurd (ground (arith, room, over, lt))
      beyond (y ∷ ys) c full d room over =
          write_at-over fuel s x y ys bytes offset c full d nz lt over small

  -- A write that begins in the first node of a chain of whole, different data nodes, lies within the
  -- chain and fills no block from its start on (fewer than 512 bytes at offset 0, fewer than 1024 -
  -- offset behind it) ends well: all bytes are written, those at the offset are replaced and no others,
  -- and the links stay.
  pub write_file-Written :
      (fuel : ℕ) (s : Nodes W) (x : Ptr) (xs : List Ptr) (bytes : List ℕ) (offset : ℕ)
      → Chain s.next x (x ∷ xs)
      → Full s.block (x ∷ xs)
      → Distinct (x ∷ xs)
      → offset < 512
      → offset + length bytes ≤ 512 * length (x ∷ xs)
      → length bytes < (if offset == 0 then 512 else 1024 - offset)
      → Written
          (write_file storage (suc fuel) s x bytes offset)
          s
          (x ∷ xs)
          bytes
          (splice offset bytes (content s.block (x ∷ xs)))
  unfolding write_file
  write_file-Written fuel s x xs bytes offset c full d lt room small =
      let below : ltb offset 512 ≡ true = ground (arith, lt) in
      elim (Bool-cases (offset == 0)) [
        | inl start ↦
            let at_start : offset ≡ 0 = ground (arith, start) in
            let (w, runs) = write_rest-Written fuel 0 s x xs bytes c.1 full d (rw start at small) in
            let plain : 0 + length bytes ≡ length bytes = omega arith in
            record {
              last = w.last;
              nodes = w.nodes;
              runs = rw at_start (at_zero (suc fuel) s x bytes ∙ runs ∙ rw plain refl);
              links = w.links;
              written = rw (at_start, plain) w.written;
              full = w.full;
              others = w.others;
            }
        | inr nz ↦
            rw below
              (write_at-Written fuel s x xs bytes offset c full d nz lt room (rw nz at small))
      ]
