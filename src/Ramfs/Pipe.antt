-- ===== src/Ramfs/Pipe.antt =====
-- The ring of data nodes of a pipe in kernel/src/filesystem/ramfs.c: the loops of ramfs_pipe_read and
-- ramfs_pipe_write, once their semaphores have let them through for a number of bytes.
use kerosene.Base.{
  ℕ, zero, suc, ◌+◌, ◌-◌, ◌*◌, ◌<◌, ◌≤◌, ◌≡◌, ◌≢◌, refl, ◌∙◌, sym, ap, Bool-cases, inl, inr, true,
  false, not, ◌&&◌, ◌||◌, Option, none, some, List, [], ◌∷◌, ◌++◌, length, take, drop, length-drop,
  arith, ◌==◌, ltb, if◌then◌else◌, ◌>>=◌,
}
use kerosene.Process.{Ptr, null}
use kerosene.Ramfs.{datanode_size, Storage, Nodes}
use mathlib.Core.List.{append-nil}
use kerosene.Ramfs.Read.{bytes_over}
use kerosene.Ramfs.Write.{ne_null}
use kerosene.Ramfs.Content.{Chain, Full, content, take-append_le, drop-append_le, drop-append_ge}

-- How a loop of reading ends: the bytes, the first node and the offset in it, and the nodes.
pub record Taken (W : Type 0) : Type 0 where
  pub bytes : List ℕ
  pub first : Ptr
  pub head : ℕ
  pub nodes : Nodes W

abbrev pub put_before : {W : Type 0} → List ℕ → Taken W → Taken W
put_before piece t = record t { bytes = piece ++ t.bytes }

-- A pipe read from: the oldest `n` bytes have come out, the others are left in order.
pub record Oldest {W : Type 0} (o : Option (Taken W)) (s : Nodes W) (x : Ptr) (xs : List Ptr)
    (head n : ℕ) : Type 0 where
  pub after : Taken W
  pub runs : o ≡ some after
  pub came_out : after.bytes ≡ take n (drop head (content s.block (x ∷ xs)))
  pub behind : List Ptr
  pub chain : Chain after.nodes.next after.first (after.first ∷ behind)
  pub below : after.head < 512
  pub stays :
      drop after.head (content after.nodes.block (after.first ∷ behind))
      ≡ drop (head + n) (content s.block (x ∷ xs))
  pub others : (after.nodes.next ≡ s.next) × (after.nodes.block ≡ s.block)

ltb_ge : (a b : ℕ) → ltb a b ≡ false → b ≤ a
ltb_ge a b h = ground (arith, h)

module _ {W : Type 0} (storage : Storage W) where
  -- `while(remaining > 0)` of ramfs_pipe_read.
  unfoldable pub pipe_read_loop : ℕ → Nodes W → Ptr → ℕ → ℕ → Option (Taken W)
  pipe_read_loop zero s first head_offset remaining = none
  pipe_read_loop (suc fuel) s first head_offset remaining =
      let stop : Taken W = record { bytes = []; first = first; head = head_offset; nodes = s } in
      let chunk_avail = datanode_size - head_offset in
      let chunk_read = if ltb remaining chunk_avail then remaining else chunk_avail in
      let piece = take chunk_read (drop head_offset (s.block first)) in
      let consumed = head_offset + chunk_read == datanode_size in
      let advance = consumed && not (s.next first == null) in
      let freed = if advance then record s { world = storage.rfree s.world first } else s in
      let rest =
        pipe_read_loop fuel freed (if advance then s.next first else first)
          (if consumed then 0 else head_offset + chunk_read) (remaining - chunk_read) in
      if not (ltb 0 remaining) || ((first == null) || (chunk_read == 0))
      then some stop
      else do t ← rest; some (put_before piece t)

  pipe_read-stop :
      (fuel : ℕ) (s : Nodes W) (x : Ptr) (head : ℕ)
      → pipe_read_loop (suc fuel) s x head 0
        ≡ some (record { bytes = []; first = x; head = head; nodes = s })
  unfolding pipe_read_loop
  pipe_read-stop fuel s x head = refl

  pipe_read-chunk :
      (fuel : ℕ) (s : Nodes W) (x : Ptr) (head n : ℕ)
      → x ≢ null
      → (n == 0) ≡ false
      → head + n < 512
      → pipe_read_loop (suc (suc fuel)) s x head n
        ≡ some (record {
          bytes = take n (drop head (s.block x));
          first = x;
          head = head + n;
          nodes = s;
        })
  unfolding pipe_read_loop
  pipe_read-chunk fuel s x head n ne nz lt =
      let all : ltb n (512 - head) ≡ true = ground (arith, lt) in
      let not_consumed : (head + n == 512) ≡ false = ground (arith, lt) in
      let more : ltb 0 n ≡ true = ground (arith, nz) in
      let done : ltb 0 (n - n) ≡ false = ground arith in
      rw
        (
          all,
          not_consumed,
          more,
          ne_null x ne,
          nz,
          done,
          append-nil (take n (drop head (s.block x))),
        )
        refl

  -- A read that goes on to the next node.
  pipe_read-next :
      (fuel : ℕ) (s : Nodes W) (x y : Ptr) (head n : ℕ) (t : Taken W)
      → x ≢ null
      → s.next x ≡ y
      → y ≢ null
      → head < 512
      → 512 ≤ head + n
      → pipe_read_loop fuel (record s { world = storage.rfree s.world x }) y 0 (n - (512 - head))
        ≡ some t
      → pipe_read_loop (suc fuel) s x head n
        ≡ some (put_before (take (512 - head) (drop head (s.block x))) t)
  unfolding pipe_read_loop
  pipe_read-next fuel s x y head n t ne to ny lt le rest =
      let part : ltb n (512 - head) ≡ false = ground (arith, lt, le) in
      let end : (head + (512 - head) == 512) ≡ true = ground (arith, lt) in
      let more : ltb 0 n ≡ true = ground (arith, lt, le) in
      let some_bytes : (512 - head == 0) ≡ false = ground (arith, lt) in
      rw (part, end, more, ne_null x ne, some_bytes, to, ne_null y ny, rest) refl

  -- A read that ends within the first node.
  pipe_read-within :
      (fuel : ℕ) (s : Nodes W) (x : Ptr) (xs : List Ptr) (head n : ℕ)
      → Chain s.next x (x ∷ xs)
      → Full s.block (x ∷ xs)
      → head + n < 512
      → Oldest (pipe_read_loop (suc (suc fuel)) s x head n) s x xs head n
  unfolding content
  pipe_read-within fuel s x xs head n (e, ne, chain) (l, full) lt =
      let piece = take n (drop head (s.block x)) in
      let cut = drop-append_le head (s.block x) (content s.block xs) (omega (arith, l, lt)) in
      let same =
        take-append_le n (drop head (s.block x)) (content s.block xs)
          (omega (arith, length-drop head (s.block x), l, lt)) in
      let stop : Taken W = record { bytes = piece; first = x; head = head + n; nodes = s } in
      record {
        after = stop;
        runs = elim (Bool-cases (n == 0)) [
          | inl nothing ↦
              let is_zero : n ≡ 0 = ground (arith, nothing) in
              let plain : head + 0 ≡ head = omega arith in
              rw (is_zero, plain) (pipe_read-stop (suc fuel) s x head)
          | inr some_bytes ↦ pipe_read-chunk fuel s x head n ne some_bytes lt
        ];
        came_out = rw (cut, same) refl;
        behind = xs;
        chain = (e, ne, chain);
        below = lt;
        stays = refl;
        others = (refl, refl);
      }

  -- Reading from a pipe of whole data nodes whose bytes begin at `head` in the first of them, where the
  -- bytes asked for end before the end of the last node: the loop ends within one more round than there
  -- are nodes and one more, the oldest bytes come out in order, those left are the rest in order, and
  -- the first node and the offset say where they begin. No link and no block changes.
  pub pipe_read_loop-Oldest :
      (fuel : ℕ) (s : Nodes W) (x : Ptr) (xs : List Ptr) (head n : ℕ)
      → Chain s.next x (x ∷ xs)
      → Full s.block (x ∷ xs)
      → head < 512
      → head + n < 512 * length (x ∷ xs)
      → length (x ∷ xs) < fuel
      → Oldest (pipe_read_loop fuel s x head n) s x xs head n
  unfolding content
  pipe_read_loop-Oldest zero s x xs head n c full lt room enough = elim enough [ ]
  pipe_read_loop-Oldest (suc zero) s x xs head n c full lt room enough =
      absurd (omega (arith, enough))
  pipe_read_loop-Oldest (suc (suc fuel)) s x [] head n c full lt room enough =
      pipe_read-within fuel s x [] head n c full (omega (arith, room))
  pipe_read_loop-Oldest (suc (suc fuel)) s x (y ∷ ys) head n (e, ne, (to, ny, chain)) (l, full) lt
        room enough =
      elim (Bool-cases (ltb (head + n) 512)) [
        | inl within ↦
            pipe_read-within fuel s x (y ∷ ys) head n (e, ne, (to, ny, chain)) (l, full)
              (ground (arith, within))
        | inr over ↦
            let le = ltb_ge (head + n) 512 over in
            let left = n - (512 - head) in
            let freed : Nodes W = record s { world = storage.rfree s.world x } in
            let r =
              pipe_read_loop-Oldest (suc fuel) freed y ys 0 left (refl, ny, chain) full
                (omega arith) (omega (arith, room, lt, le)) (omega (arith, enough)) in
            let piece = take (512 - head) (drop head (s.block x)) in
            let bytes =
              bytes_over s x (content s.block (y ∷ ys)) n head l lt (omega (arith, lt, le)) in
            let skip : drop (head + n) (s.block x ++ content s.block (y ∷ ys))
                ≡ drop (0 + left) (content s.block (y ∷ ys)) =
              drop-append_ge (head + n) (s.block x) (content s.block (y ∷ ys))
                (omega (arith, l, le))
              ∙ ap (λ k. drop k (content s.block (y ∷ ys))) (omega (arith, l, lt, le)) in
            record {
              after = put_before piece r.after;
              runs = pipe_read-next (suc fuel) s x y head n r.after ne to ny lt le r.runs;
              came_out = ap (λ b. piece ++ b) r.came_out ∙ sym bytes;
              behind = r.behind;
              chain = r.chain;
              below = r.below;
              stays = r.stays ∙ sym skip;
              others = r.others;
            }
      ]
