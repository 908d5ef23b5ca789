-- ===== src/Tests/Descriptors.antt =====
-- A file of 10 bytes, open for reading and writing at position 7, on a file system that moves all it
-- is asked for.
use kerosene.Base.{ℕ, ◌<◌, ◌≡◌, ◌⊎◌, refl, true, false, some, none, arith}
use kerosene.Process.{Ptr, null}
use kerosene.Files.{
  FsErr, success, failed, eof, has_flag, open_read, Files, Fs, file_read, file_write, reset,
  file_open,
}
use kerosene.Files.Inside.{Asked, Moved, file_read-Asked}
use kerosene.Files.Growth.{Grown, file_write-Grown}

abbrev move_all : Files ℕ → ℕ → FsErr × ℕ × Files ℕ
move_all s k = (success, k, s)

abbrev system : Fs ℕ
system = record {
  node_reset = none;
  file_seek_absolute = none;
  file_read = some move_all;
  file_write = some move_all;
  file_open = none;
}

abbrev systems : Ptr → Fs ℕ
systems p = system

abbrev files : Files ℕ
files = record {
  file = record { node = 500; mode = 3; position = 7 };
  nodes = λ a. record {
    flags = 0;
    fs = 900;
    size = 10;
    accessed_timestamp = 0;
    modified_timestamp = 0;
  };
  world = 0;
}

file_read-Asked_example :
    ((has_flag 3 open_read ≡ false) × (file_read systems files 8 ≡ (failed, 0, files)))
    ⊎ ((has_flag 3 open_read ≡ true)
        × (◌≡◌ {A = ℕ} 7 10)
        × (file_read systems files 8 ≡ (eof, 0, files)))
    ⊎ ((has_flag 3 open_read ≡ true)
        × (7 < 10)
        × ((k : ℕ) × Asked files 8 k × Moved (move_all files k) (file_read systems files 8)))
file_read-Asked_example =
    file_read-Asked systems files 8 move_all refl refl (omega arith) (omega arith)

file_write-Grown_example : Grown (file_write systems 60 files 8) files 60 8
file_write-Grown_example =
    file_write-Grown systems 60 8 8 files files move_all refl refl refl refl refl (omega arith)
      (omega arith)

-- Opening to truncate over a description that leads to no node reads through NULL.
truncate_unused :
    file_open systems 60
      (record files { file = record { node = null; mode = 0; position = 0 } })
      500
      6
    ≡ none
unfolding file_open reset
truncate_unused = refl
