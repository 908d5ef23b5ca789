-- ===== src/Fat/File/Position.antt =====
-- fat32_file_open, fat32_file_seek_absolute, fat32_file_read and fat32_file_write of
-- kernel/src/filesystem/fat32.c: the position of a description, and the clusters kept with it. Positions
-- are below 2^31; the size of a cluster is a power of two, so that aligning down takes the remainder off.
use kerosene.Base.{
  ℕ, zero, suc, ◌+◌, ◌-◌, ◌%◌, ◌<◌, ◌≡◌, refl, inl, inr, Bool-cases, ◌&&◌, ◌||◌, Option, none, some,
  List, [], ◌∷◌, ◌++◌, length, ◌==◌, ltb, leb, if◌then◌else◌, ◌>>=◌,
}
use kerosene.Base.Int.{ℤ, pos, negsuc}
use kerosene.Files.{FsErr, has_flag, open_read, open_write, open_append}
use kerosene.Fat.{fat_eoc, fat_bad_cluster, Volume, Disk, Fs}
use kerosene.Fat.Entries.{fat, IsVolume}
use kerosene.Fat.Chains.{fat32_get_last_cluster_of_chain}
use kerosene.Fat.Chains.Link.{Chain, get_last_cluster_lem}
use kerosene.Fat.File.{cluster_size, next_cluster, read_file}
use kerosene.Fat.File.Write.{write_file}

-- What a description keeps: position, fat32.current_cluster and fat32.last_cluster.
pub record Cursor : Type 0 where
  pub position : ℕ
  pub current_cluster : ℕ
  pub last_cluster : ℕ

-- `while(true)`: the cluster and current_size, or a bad cluster.
unfoldable pub seek_loop : ℕ → Volume → Disk → ℕ → ℕ → ℕ → Option (Option (ℕ × ℕ))
seek_loop zero v d current current_size seek_position = none
seek_loop (suc fuel) v d current current_size seek_position =
    let grown = current_size + cluster_size v in
    let fat_val = next_cluster v d current in
    let rest = seek_loop fuel v d fat_val grown seek_position in
    if leb seek_position grown
    then some (some (current, current_size))
    else if fat_val == fat_bad_cluster
    then some none
    else if leb fat_eoc fat_val
    then some (some (current, grown))
    else rest

-- A negative position is taken for 0.
abbrev clamped : ℤ → ℕ
clamped (pos n) = n
clamped (negsuc n) = 0

abbrev moved : Volume → ℕ → ℕ → Cursor → Option (ℕ × ℕ) → FsErr × Cursor
moved v size seek_position file none = (FsErr.bad_cluster, file)
moved v size seek_position file (some (current, current_size)) = (
  FsErr.success,
  record file {
    position = if ltb (current_size + cluster_size v) seek_position then size else seek_position;
    current_cluster = current;
  },
)

unfoldable pub fat32_file_seek_absolute :
    ℕ → Volume → Disk → ℕ → ℕ → Cursor → ℤ → Option (FsErr × Cursor)
fat32_file_seek_absolute fuel v d start_cluster size file offset =
    let seek_position = clamped offset in
    let forward = leb file.position seek_position in
    if file.position == seek_position then some (FsErr.success, file) else do
      stop ←
          seek_loop fuel v d (if forward then file.current_cluster else start_cluster)
            (if forward then file.position - file.position % cluster_size v else 0) seek_position
      some (moved v size seek_position file stop)

-- The offset in a cluster: a whole cluster for a position at the start of one, except for 0.
abbrev pub offset_of : Volume → ℕ → ℕ
offset_of v position =
    let offset = position % cluster_size v in
    if (offset == 0) && ltb 0 position then cluster_size v else offset

-- The error, the bytes and the new fat32.current_cluster.
unfoldable pub fat32_file_read : ℕ → Volume → Disk → Cursor → ℕ → Option (FsErr × List ℕ × ℕ)
fat32_file_read fuel v d file size =
    read_file fuel v d file.current_cluster size (offset_of v file.position)

-- The error, the number of bytes, the cluster that is passed on to the description, and the volume.
unfoldable pub fat32_file_write :
    ℕ → Volume → Fs → Cursor → ℕ → ℕ → List ℕ → Option (FsErr × ℕ × ℕ × Fs)
fat32_file_write fuel v fs file mode node_size buffer =
    let append = has_flag mode open_append in
    let position = if append then node_size else file.position in
    write_file fuel v fs (if append then file.last_cluster else file.current_cluster) buffer
      (offset_of v position) node_size (position + length buffer)

unfoldable pub fat32_file_open : ℕ → Volume → Disk → ℕ → ℕ → Cursor → Option Cursor
fat32_file_open fuel v d start_cluster mode file =
    let begun =
      if has_flag mode open_write || has_flag mode open_read
      then record file { current_cluster = start_cluster }
      else file in
    let appended = (do
      last ← fat32_get_last_cluster_of_chain fuel v d start_cluster
      some (record begun { last_cluster = last })) in
    if has_flag mode open_append then appended else some begun

-- A file that is opened for appending begins with the last cluster of its chain, and one opened for
-- reading or writing with the first. A round of fuel for each cluster is enough.
pub fat32_file_open_lem :
    (v : Volume) (ok : IsVolume v) (fuel : ℕ) (d : Disk) (x : ℕ) (xs : List ℕ) (y mode : ℕ)
    (file : Cursor)
    → Chain (fat v d) x (xs ++ y ∷ [])
    → length xs < fuel
    → (c : Cursor) × (fat32_file_open fuel v d x mode file ≡ some c)
      × (c.last_cluster ≡ (if has_flag mode open_append then y else file.last_cluster))
      × (c.current_cluster ≡ (
          if has_flag mode open_write || has_flag mode open_read then x else file.current_cluster))
      × (c.position ≡ file.position)
unfolding fat32_file_open
fat32_file_open_lem v ok fuel d x xs y mode file chain enough =
    let found = get_last_cluster_lem v ok fuel d x xs y chain enough in
    (
      record {
        position = file.position;
        current_cluster =
            if has_flag mode open_write || has_flag mode open_read then x else file.current_cluster;
        last_cluster = if has_flag mode open_append then y else file.last_cluster;
      },
      elim (Bool-cases (has_flag mode open_append)) [
        | inl append ↦ elim (Bool-cases (has_flag mode open_write || has_flag mode open_read)) [
          | inl fresh ↦ rw (append, fresh, found) refl
          | inr old ↦ rw (append, old, found) refl
        ]
        | inr plain ↦ elim (Bool-cases (has_flag mode open_write || has_flag mode open_read)) [
          | inl fresh ↦ rw (plain, fresh) refl
          | inr old ↦ rw (plain, old) refl
        ]
      ],
      refl,
      refl,
      refl,
    )
