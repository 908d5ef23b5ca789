-- ===== src/Files/Growth.antt =====
-- file_write: the size, the position and the time after a write that the file system has made.
use kerosene.Base.{
  ℕ, ◌+◌, ◌%◌, ◌<◌, ◌≤◌, ◌≡◌, refl, ◌≢◌, ◌⊎◌, Bool-cases, true, false, ◌||◌, some, inl, inr, arith,
  ltb,
}
use kerosene.Base.Words.{u32, add32}
use kerosene.Process.{Ptr}
use kerosene.Files.{
  FsErr, success, has_flag, open_write, open_append, is_file, is_memory, is_pipe, Files, Fs,
  with_node, system_of, advance, file_write,
}
use kerosene.Files.Inside.{IsInside}

-- `out` is the end of a write of `written` bytes, after which the file system has left the state `t`.
pub record Grown {W : Type 0} (out : FsErr × ℕ × Files W) (t : Files W) (now written : ℕ)
    : Type 0 where
  pub answer : (out.0 ≡ success) × (out.1 ≡ written)
  pub same_file : (out.2.file.node ≡ t.file.node) × (out.2.file.mode ≡ t.file.mode)
  pub position :
      ((has_flag t.file.mode open_append ≡ true)
        × (out.2.file.position ≡ (t.nodes t.file.node).size + written))
      ⊎ ((has_flag t.file.mode open_append ≡ false)
          × (out.2.file.position ≡ t.file.position + written))
  pub inside : IsInside out.2
  pub no_shrink : (t.nodes t.file.node).size ≤ (out.2.nodes t.file.node).size
  pub no_gap :
      ((out.2.nodes t.file.node).size ≡ (t.nodes t.file.node).size)
      ⊎ ((out.2.nodes t.file.node).size ≡ out.2.file.position)
  pub modified : (out.2.nodes t.file.node).modified_timestamp ≡ now
  pub others : (a : Ptr) → a ≢ t.file.node → out.2.nodes a ≡ t.nodes a

abbrev stamped : {W : Type 0} → ℕ → Files W → Files W
stamped now t = with_node t t.file.node (λ x. record x { modified_timestamp = now })

advance-Grown :
    {W : Type 0} (now written : ℕ) (t : Files W)
    → IsInside t
    → (t.nodes t.file.node).size + written < u32
    → Grown (success, written, stamped now (advance t written)) t now written
unfolding advance
advance-Grown now written t inside small =
    let sum : add32 (t.nodes t.file.node).size written ≡ (t.nodes t.file.node).size + written =
      omega arith in
    let end : (t.file.position + written) % u32 ≡ t.file.position + written = omega arith in
    elim (Bool-cases (has_flag t.file.mode open_append)) [
      | inl append ↦
          rw (append, sum)
            (record {
              answer = (refl, refl);
              same_file = (refl, refl);
              position = inl (append, refl);
              inside = ground arith;
              no_shrink = ground arith;
              no_gap = inr (ground arith);
              modified = ground arith;
              others = ground arith;
            })
      | inr plain ↦ elim (Bool-cases (ltb (t.nodes t.file.node).size (t.file.position + written))) [
        | inl over ↦
            rw (plain, over, end)
              (record {
                answer = (refl, refl);
                same_file = (refl, refl);
                position = inr (plain, refl);
                inside = ground arith;
                no_shrink = ground (arith, over);
                no_gap = inr (ground arith);
                modified = ground arith;
                others = ground arith;
              })
        | inr under ↦
            rw (plain, under)
              (record {
                answer = (refl, refl);
                same_file = (refl, refl);
                position = inr (plain, refl);
                inside = ground (arith, under);
                no_shrink = ground arith;
                no_gap = inl (ground arith);
                modified = ground arith;
                others = ground arith;
              })
      ]
    ]

module _ {W : Type 0} (systems : Ptr → Fs W) where
  -- A write, to a description open for writing whose node can be written, that the file system ends with
  -- success after `written` bytes, leaving a node that is no pipe and a position inside it, where the
  -- size cannot pass 2^32: file_write gives back success and that count, the position moves by the count,
  -- or to the new end where the description appends, and stays inside the file; the file does not
  -- shrink, and where its size changes it ends at the position. The node gets the time of the write, and
  -- no other node changes.
  pub file_write-Grown :
      (now size written : ℕ) (s t : Files W) (write : Files W → ℕ → FsErr × ℕ × Files W)
      → (system_of systems s).file_write ≡ some write
      → has_flag s.file.mode open_write ≡ true
      → (is_file (s.nodes s.file.node)
          || is_pipe (s.nodes s.file.node)
          || is_memory (s.nodes s.file.node))
        ≡ true
      → write s size ≡ (success, written, t)
      → is_pipe (t.nodes t.file.node) ≡ false
      → IsInside t
      → (t.nodes t.file.node).size + written < u32
      → Grown (file_write systems now s size) t now written
  unfolding file_write
  file_write-Grown now size written s t write found allowed kind ends no_pipe inside small =
      rw (allowed, kind, found, ends, no_pipe) (advance-Grown now written t inside small)
