-- ===== src/Files.antt =====
-- kernel/src/filesystem/file_op.c: seek, read, write and open of a file description. The node is shared
-- through its address; the file systems are an interface of operations that may be missing. A position
-- is never negative, as the file systems clamp it.
pub mod Inside
pub mod Growth
use kerosene.Base.{
  ℕ, zero, suc, ◌+◌, ◌-◌, ◌*◌, ◌/◌, ◌%◌, ◌^◌, Bool, true, false, not, ◌&&◌, ◌||◌, Option, none,
  some, ◌==◌, ltb, leb, if◌then◌else◌, ◌>>=◌,
}
use kerosene.Base.Int.{ℤ, pos, negsuc, ◌+ℤ◌}
use kerosene.Base.Words.{u32, add32}
use kerosene.Process.{Ptr, null}

-- FS_ERR
pub data FsErr : Type 0 where
  success failed entry_existed bad_cluster not_found target_not_found dir_not_empty invalid_fsinfo
        max_depth_reached not_enough_space oom not_file not_dir not_supported eof :
      FsErr

abbrev pub has_flag : ℕ → ℕ → Bool
has_flag mode bit = not (mode / 2 ^ bit % 2 == 0)

abbrev pub open_read : ℕ
open_read = 0

abbrev pub open_write : ℕ
open_write = 1

abbrev pub open_truncate : ℕ
open_truncate = 2

abbrev pub open_onlydir : ℕ
open_onlydir = 5

abbrev pub open_append : ℕ
open_append = 6

-- fs_node_t, as far as these functions read it; `fs` names the file system.
pub record Node : Type 0 where
  pub flags : ℕ
  pub fs : Ptr
  pub size : ℕ
  pub accessed_timestamp : ℕ
  pub modified_timestamp : ℕ

abbrev pub is_file : Node → Bool
is_file n = n.flags % 16 == 0

abbrev pub is_directory : Node → Bool
is_directory n = n.flags % 16 == 1

abbrev pub is_memory : Node → Bool
is_memory n = n.flags % 16 == 3

abbrev pub is_pipe : Node → Bool
is_pipe n = n.flags % 16 == 4

-- file_description_t; the fields of the file systems are in their own state.
pub record File : Type 0 where
  pub node : Ptr
  pub mode : ℕ
  pub position : ℕ

-- A description, the nodes, and the state of the file systems and of the buffers.
pub record Files (W : Type 0) : Type 0 where
  pub file : File
  pub nodes : Ptr → Node
  pub world : W

-- The operations of fs_t that these functions call; `none` is a missing one.
pub record Fs (W : Type 0) : Type 0 where
  pub node_reset : Option (Files W → Ptr → FsErr × Files W)
  pub file_seek_absolute : Option (Files W → ℤ → FsErr × Files W)
  pub file_read : Option (Files W → ℕ → FsErr × ℕ × Files W)
  pub file_write : Option (Files W → ℕ → FsErr × ℕ × Files W)
  pub file_open : Option (Files W → Ptr → ℕ → Files W)

-- whence_t
pub data Whence : Type 0 where
  seek_absolute seek_relative seek_bottom : Whence

abbrev pub ok : FsErr → Bool
ok success = true
ok e = false

-- `err == ERR_FS_SUCCESS || err == ERR_FS_EOF`
abbrev pub ok_or_eof : FsErr → Bool
ok_or_eof success = true
ok_or_eof eof = true
ok_or_eof e = false

abbrev pub with_node : {W : Type 0} → Files W → Ptr → (Node → Node) → Files W
with_node s p f = record s { nodes = λ a. if a == p then f (s.nodes a) else s.nodes a }

abbrev pub with_position : {W : Type 0} → Files W → ℕ → Files W
with_position s p = record s { file = record s.file { position = p } }

abbrev clamp : ℤ → ℤ
clamp (pos n) = pos n
clamp (negsuc n) = pos 0

unfoldable pub seek_target : {W : Type 0} → Files W → ℤ → Whence → ℤ
seek_target s offset seek_absolute = offset
seek_target s offset seek_relative = clamp (pos s.file.position +ℤ offset)
seek_target s offset seek_bottom = pos (s.nodes s.file.node).size

-- The size to read, cut down to what is left of the file.
unfoldable pub read_size : {W : Type 0} → Files W → ℕ → ℕ
read_size s size =
    let n = s.nodes s.file.node in
    if ltb n.size (s.file.position + size)
    then (n.size + u32 - s.file.position % u32) % u32
    else size

-- What a successful write of `written` bytes does to the description and its node.
unfoldable pub advance : {W : Type 0} → Files W → ℕ → Files W
advance s written =
    let p = s.file.node in
    let size = add32 (s.nodes p).size written in
    let position = s.file.position + written in
    if has_flag s.file.mode open_append
    then with_position (with_node s p (λ n. record n { size = size })) size
    else if ltb (s.nodes p).size position
    then with_position (with_node s p (λ n. record n { size = position % u32 })) position
    else with_position s position

module _ {W : Type 0} (systems : Ptr → Fs W) where
  -- The file system of the node that the description leads to.
  abbrev pub system_of : Files W → Fs W
  system_of s = systems (s.nodes s.file.node).fs

  -- The error, the final position where there is none, and the state.
  unfoldable pub file_seek : Files W → ℤ → Whence → FsErr × Option ℕ × Files W
  file_seek s offset whence =
      if has_flag s.file.mode open_append
      then (failed, none, s)
      else elim (system_of s).file_seek_absolute [
        | none ↦ (not_supported, none, s)
        | some seek ↦
            let r = seek s (seek_target s offset whence) in
            if ok r.0 then (r.0, some r.1.file.position, r.1) else (r.0, none, r.1)
      ]

  -- The error, the number of bytes read and the state.
  unfoldable pub file_read : Files W → ℕ → FsErr × ℕ × Files W
  file_read s size =
      let n = s.nodes s.file.node in
      if not (has_flag s.file.mode open_read)
      then (failed, 0, s)
      else if is_pipe n
      then elim (system_of s).file_read [ none ↦ (not_supported, 0, s) | some read ↦ read s size ]
      else if s.file.position == n.size
      then (eof, 0, s)
      else elim (system_of s).file_read [
        | none ↦ (not_supported, 0, s)
        | some read ↦
            let r = read s (read_size s size) in
            if ok_or_eof r.0 then (r.0, r.1, with_position r.2 (r.2.file.position + r.1)) else r
      ]

  unfoldable pub file_write : ℕ → Files W → ℕ → FsErr × ℕ × Files W
  file_write now s size =
      let n = s.nodes s.file.node in
      let stamp : Files W → Files W =
        λ t. with_node t t.file.node (λ x. record x { modified_timestamp = now }) in
      if not (has_flag s.file.mode open_write)
      then (failed, 0, s)
      else if not (is_file n || is_pipe n || is_memory n)
      then (not_file, 0, s)
      else elim (system_of s).file_write [
        | none ↦ (not_supported, 0, s)
        | some write ↦
            let r = write s size in
            if not (ok r.0)
            then r
            else if is_pipe (r.2.nodes r.2.file.node)
            then (success, r.1, stamp r.2)
            else (success, r.1, stamp (advance r.2 r.1))
      ]

  -- node_reset, which reads through the address of the node.
  unfoldable pub reset : Files W → Ptr → Option (Files W)
  reset s p =
      if p == null
      then none
      else elim (systems (s.nodes p).fs).node_reset [ none ↦ some s | some f ↦ some (f s p).1 ]

  -- `none` is an access through NULL.
  unfoldable pub file_open : ℕ → Files W → Ptr → ℕ → Option (FsErr × Files W)
  file_open now s node mode =
      if has_flag mode open_onlydir && not (is_directory (s.nodes node))
      then some (not_dir, s)
      else do
        s₁ ←
            if has_flag mode open_write && has_flag mode open_truncate
            then reset s s.file.node
            else some s
        let s₂ = record s₁ { file = record { node = node; mode = mode; position = 0 } }
        elim (systems (s₂.nodes node).fs).file_open [
          | none ↦ some (not_supported, s₂)
          | some f ↦ some (
            success,
            with_node (f s₂ node mode) node (λ n. record n { accessed_timestamp = now }),
          )
        ]
