-- ===== src/Files/Inside.antt =====
-- file_read: what it asks of the file system, and how it moves the position.
use kerosene.Base.{
  ℕ, ◌+◌, ◌-◌, ◌%◌, ◌<◌, ◌≤◌, ◌≡◌, refl, ◌⊎◌, Bool-cases, true, false, some, inl, inr, arith, ◌==◌,
  ltb, if◌then◌else◌,
}
use kerosene.Base.Words.{u32}
use kerosene.Process.{Ptr}
use kerosene.Files.{
  FsErr, failed, eof, has_flag, open_read, is_pipe, Files, Fs, ok_or_eof, with_position, system_of,
  read_size, file_read,
}

abbrev pub IsInside : {W : Type 0} → Files W → Type 0
IsInside s = s.file.position ≤ (s.nodes s.file.node).size

-- A read of `k` bytes for a caller that wants `size`: no more than that and than the file has left, and
-- all of the one or of the other.
pub record Asked {W : Type 0} (s : Files W) (size k : ℕ) : Type 0 where
  pub within : k ≤ size
  pub in_file : s.file.position + k ≤ (s.nodes s.file.node).size
  pub most : (k ≡ size) ⊎ (s.file.position + k ≡ (s.nodes s.file.node).size)

-- `out` is the answer `r` of the file system, with the position moved by what it has read.
pub record Moved {W : Type 0} (r out : FsErr × ℕ × Files W) : Type 0 where
  pub error : out.0 ≡ r.0
  pub count : out.1 ≡ r.1
  pub position : out.2.file.position ≡ r.2.file.position + (if ok_or_eof r.0 then r.1 else 0)
  pub same_file : (out.2.file.node ≡ r.2.file.node) × (out.2.file.mode ≡ r.2.file.mode)
  pub nodes : out.2.nodes ≡ r.2.nodes
  pub world : out.2.world ≡ r.2.world

read_size-Asked :
    {W : Type 0} (s : Files W) (size : ℕ)
    → IsInside s
    → (s.nodes s.file.node).size < u32
    → Asked s size (read_size s size)
unfolding read_size
read_size-Asked s size inside small =
    elim (Bool-cases (ltb (s.nodes s.file.node).size (s.file.position + size))) [
      | inl over ↦
          let left : ((s.nodes s.file.node).size + u32 - s.file.position % u32) % u32
              ≡ (s.nodes s.file.node).size - s.file.position =
            omega arith in
          rw (over, left)
            (record {
              within = ground (arith, over);
              in_file = ground (arith, over);
              most = inr (omega arith);
            })
      | inr fits ↦
          rw fits (record { within = omega arith; in_file = ground (arith, fits); most = inl refl })
    ]

account-Moved :
    {W : Type 0} (r : FsErr × ℕ × Files W)
    → Moved r (if ok_or_eof r.0 then (r.0, r.1, with_position r.2 (r.2.file.position + r.1)) else r)
account-Moved r = elim (Bool-cases (ok_or_eof r.0)) [
  | inl good ↦ rw good (record {
    error = refl;
    count = refl;
    position = rw good refl;
    same_file = (refl, refl);
    nodes = refl;
    world = refl;
  })
  | inr bad ↦ rw bad (record {
    error = refl;
    count = refl;
    position = rw bad (omega arith);
    same_file = (refl, refl);
    nodes = refl;
    world = refl;
  })
]

module _ {W : Type 0} (systems : Ptr → Fs W) where
  -- Reading from a file that is not a pipe and is below 2^32, at a position inside it: it fails and
  -- changes nothing where the description is not open for reading; it is at the end of the file and
  -- changes nothing exactly where the position is the size; and otherwise it asks the file system once,
  -- for all that is wanted or all that the file has left, never for more than either. The answer comes
  -- back as it is, with the position moved by the bytes read unless it is an error other than the end.
  pub file_read-Asked :
      (s : Files W) (size : ℕ) (read : Files W → ℕ → FsErr × ℕ × Files W)
      → (system_of systems s).file_read ≡ some read
      → is_pipe (s.nodes s.file.node) ≡ false
      → IsInside s
      → (s.nodes s.file.node).size < u32
      → ((has_flag s.file.mode open_read ≡ false) × (file_read systems s size ≡ (failed, 0, s)))
        ⊎ ((has_flag s.file.mode open_read ≡ true)
            × (s.file.position ≡ (s.nodes s.file.node).size)
            × (file_read systems s size ≡ (eof, 0, s)))
        ⊎ ((has_flag s.file.mode open_read ≡ true)
            × (s.file.position < (s.nodes s.file.node).size)
            × ((k : ℕ) × Asked s size k × Moved (read s k) (file_read systems s size)))
  unfolding file_read
  file_read-Asked s size read found no_pipe inside small =
      let n = s.nodes s.file.node in
      let k = read_size s size in
      elim (Bool-cases (has_flag s.file.mode open_read)) [
        | inr denied ↦ inl (denied, rw denied refl)
        | inl allowed ↦ elim (Bool-cases (s.file.position == n.size)) [
          | inl end ↦ inr (inl (allowed, ground (arith, end), rw (allowed, no_pipe, end) refl))
          | inr more ↦ inr (
              inr (
                allowed,
                ground (arith, more),
                (
                  k,
                  read_size-Asked s size inside small,
                  rw (allowed, no_pipe, more, found) (account-Moved (read s k)),
                ),
              ))
        ]
      ]
