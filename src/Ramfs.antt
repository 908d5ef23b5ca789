-- ===== src/Ramfs.antt =====
-- kernel/src/filesystem/ramfs.c: the chains of data nodes that hold files. `next` and `block` are the
-- fields of the data nodes by address, a block being its RAMFS_DATANODE_SIZE bytes; `world` is the heap
-- they are taken from. The buffer of a caller lies apart from the data nodes: bytes that are read come as a
-- list in the order in which they are put into it, and bytes to write are given as a list.
pub mod Content
pub mod Read
pub mod Write
pub mod Splice
pub mod Update
pub mod RoundTrip
pub mod Cut
pub mod Pipe
pub mod Seek
use kerosene.Base.{
  ℕ, zero, suc, ◌+◌, ◌-◌, ◌*◌, ◌/◌, ◌%◌, Bool, true, false, not, ◌&&◌, ◌||◌, Option, none, some,
  List, [], ◌∷◌, ◌++◌, length, take, drop, replicate, ◌==◌, ltb, leb, if◌then◌else◌, ◌>>=◌,
}
use kerosene.Process.{Ptr, null}
use kerosene.Files.{FsErr}

abbrev pub datanode_size : ℕ
datanode_size = 512

-- rmalloc and rfree of a data node; the address 0 is for no memory.
pub record Storage (W : Type 0) : Type 0 where
  pub rmalloc : W → Ptr × W
  pub rfree : W → Ptr → W

pub record Nodes (W : Type 0) : Type 0 where
  pub next : Ptr → Ptr
  pub block : Ptr → List ℕ
  pub world : W

abbrev pub set_next : {W : Type 0} → Nodes W → Ptr → Ptr → Nodes W
set_next s p n = record s { next = λ a. if a == p then n else s.next a }

-- memcpy of `bytes` into the block of `p` from `offset` on.
abbrev pub splice : ℕ → List ℕ → List ℕ → List ℕ
splice offset bytes b = take offset b ++ (bytes ++ drop (offset + length bytes) b)

abbrev pub write_block : {W : Type 0} → Nodes W → Ptr → ℕ → List ℕ → Nodes W
write_block s p offset bytes = record s {
  block = λ a. if a == p then splice offset bytes (s.block a) else s.block a;
}

-- Where `while(data_offset >= RAMFS_DATANODE_SIZE)` of read_file ends: at the end of the chain, or at a
-- node with the offset left.
pub data Skipped : Type 0 where
  past_end : Ptr → Skipped
  at : Ptr → ℕ → Skipped

unfoldable pub skip : ℕ → (Ptr → Ptr) → Ptr → ℕ → Option Skipped
skip zero next p data_offset = none
skip (suc fuel) next p data_offset =
    let rest = skip fuel next (next p) (data_offset - datanode_size) in
    if ltb data_offset datanode_size
    then some (at p data_offset)
    else if next p == null
    then some (past_end p)
    else rest

-- The error, the bytes read, and the node in *start_datanode.
unfoldable pub read_loop : {W : Type 0} → ℕ → Nodes W → Ptr → ℕ → Option (FsErr × List ℕ × Ptr)
read_loop zero s p size = none
read_loop (suc fuel) s p size =
    let read_size = if ltb size datanode_size then size else datanode_size in
    let piece = take read_size (s.block p) in
    let rest = read_loop fuel s (s.next p) (size - read_size) in
    if size - read_size == 0
    then some (FsErr.success, piece, p)
    else if s.next p == null
    then some (FsErr.eof, piece, p)
    else do (e, more, q) ← rest; some (e, piece ++ more, q)

unfoldable pub read_at : {W : Type 0} → ℕ → Nodes W → Ptr → ℕ → ℕ → Option (FsErr × List ℕ × Ptr)
read_at fuel s p size data_offset =
    let read_size = datanode_size - data_offset in
    if data_offset == 0
    then read_loop fuel s p size
    else if leb size read_size
    then some (FsErr.success, take size (drop data_offset (s.block p)), p)
    else if s.next p == null
    then some (FsErr.eof, take read_size (drop data_offset (s.block p)), p)
    else do
      (e, more, q) ← read_loop fuel s (s.next p) (size - read_size)
      some (e, take read_size (drop data_offset (s.block p)) ++ more, q)

unfoldable pub read_file : {W : Type 0} → ℕ → Nodes W → Ptr → ℕ → ℕ → Option (FsErr × List ℕ × Ptr)
read_file fuel s p size data_offset = do
  skipped ← skip fuel s.next p data_offset
  elim skipped [ past_end q ↦ some (FsErr.eof, [], q) | at q offset ↦ read_at fuel s q size offset ]

unfoldable pub get_last_datanode_of_chain : ℕ → (Ptr → Ptr) → Ptr → Option Ptr
get_last_datanode_of_chain zero next p = none
get_last_datanode_of_chain (suc fuel) next p =
    let rest = get_last_datanode_of_chain fuel next (next p) in
    if p == null then some null else if next p == null then some p else rest

module _ {W : Type 0} (storage : Storage W) where
  unfoldable pub remove_datanode_chain : ℕ → Nodes W → Ptr → Option (Nodes W)
  remove_datanode_chain zero s p = none
  remove_datanode_chain (suc fuel) s p =
      let freed = record s { world = storage.rfree s.world p } in
      let rest = remove_datanode_chain fuel freed (s.next p) in if p == null then some s else rest

  -- memset of the block.
  abbrev pub clear_block : Nodes W → Ptr → Nodes W
  clear_block s p = record s {
    block = λ a. if a == p then replicate datanode_size 0 else s.block a;
  }

  -- `while(count)`: whether there was memory.
  unfoldable pub allocate_loop : Nodes W → Ptr → ℕ → Bool → Bool × Nodes W
  allocate_loop s current zero clear = (true, s)
  allocate_loop s current (suc count) clear =
      let got = storage.rmalloc s.world in
      let linked = set_next (record s { world = got.1 }) current got.0 in
      let cleared = if clear then clear_block linked current else linked in
      let rest = allocate_loop (set_next cleared got.0 null) got.0 count clear in
      if got.0 == null then (false, linked) else rest

  -- The first node of the new chain, 0 for no memory.
  unfoldable pub allocate_datanodes : Nodes W → ℕ → Bool → Option (Ptr × Nodes W)
  allocate_datanodes s zero clear = some (null, s)
  allocate_datanodes s (suc count) clear =
      let got = storage.rmalloc s.world in
      let taken = record s { world = got.1 } in
      let start = if clear then clear_block taken got.0 else taken in
      let grown = allocate_loop start got.0 count clear in
      if got.0 == null
      then some (null, taken)
      else if count == 0
      then some (got.0, set_next start got.0 null)
      else if grown.0
      then some (got.0, grown.1)
      else do s₁ ← remove_datanode_chain (count + 1) grown.1 got.0; some (null, s₁)

  -- The last loop of write_file: the error, the number of bytes written, *start_datanode, and the nodes.
  unfoldable pub write_loop : ℕ → Nodes W → Ptr → List ℕ → Option (FsErr × ℕ × Ptr × Nodes W)
  write_loop zero s p buffer = none
  write_loop (suc fuel) s p buffer =
      let size = length buffer in
      let write_size = if ltb size datanode_size then size else datanode_size in
      let s₁ = write_block s p 0 (take write_size buffer) in
      let rest = write_loop fuel s₁ (s₁.next p) (drop write_size buffer) in
      if size - write_size == 0
      then some (FsErr.success, write_size, p, s₁)
      else if s₁.next p == null
      then some (FsErr.eof, write_size, p, s₁)
      else do (e, more, q, s₂) ← rest; some (e, write_size + more, q, s₂)

  -- `if(!(*start_datanode)->next) { ... } *start_datanode = (*start_datanode)->next;`: the next node, 0
  -- for no memory.
  unfoldable pub next_datanode : Nodes W → Ptr → ℕ → Option (Ptr × Nodes W)
  next_datanode s p count =
      if not (s.next p == null)
      then some (s.next p, s)
      else do (n, s₁) ← allocate_datanodes s count false; some (n, set_next s₁ p n)

  -- From the estimate of the number of data nodes on; `written` bytes are written before.
  unfoldable pub write_rest : ℕ → Nodes W → Ptr → ℕ → List ℕ → Option (FsErr × ℕ × Ptr × Nodes W)
  write_rest fuel s p written buffer = do
    let estimated = length buffer / datanode_size
    (n, s₁) ←
        if ltb 0 estimated
        then (allocate_datanodes s estimated false
            >>= (λ (got : Ptr × Nodes W). some (got.0, set_next got.1 p got.0)))
        else some (p, s)
    (e, more, q, s₂) ←
        if n == null then some (FsErr.not_enough_space, 0, p, s₁) else write_loop fuel s₁ p buffer
    some (e, written + more, q, s₂)

  -- From the test `data_offset > 0` on.
  unfoldable pub write_at : ℕ → Nodes W → Ptr → List ℕ → ℕ → Option (FsErr × ℕ × Ptr × Nodes W)
  write_at fuel s p buffer data_offset =
      let size = length buffer in
      let full = datanode_size - data_offset in
      let write_size = if leb size full then size else full in
      let s₁ = write_block s p data_offset (take write_size buffer) in
      if data_offset == 0
      then write_rest fuel s p 0 buffer
      else if size - write_size == 0
      then some (FsErr.success, write_size, p, s₁)
      else do
        (n, s₂) ← next_datanode s₁ p 1
        if n == null
            then some (FsErr.not_enough_space, write_size, p, s₂)
            else write_rest fuel s₂ n write_size (drop write_size buffer)

  -- The first loop leaves an offset below RAMFS_DATANODE_SIZE, so it runs at most once.
  unfoldable pub write_file : ℕ → Nodes W → Ptr → List ℕ → ℕ → Option (FsErr × ℕ × Ptr × Nodes W)
  write_file fuel s p buffer data_offset =
      if ltb data_offset datanode_size then write_at fuel s p buffer data_offset else do
        (n, s₁) ← next_datanode s p (data_offset / datanode_size)
        if n == null
            then some (FsErr.not_enough_space, 0, p, s₁)
            else write_at fuel s₁ n buffer (data_offset % datanode_size)
