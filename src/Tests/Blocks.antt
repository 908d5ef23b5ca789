-- ===== src/Tests/Blocks.antt =====
-- A file of two data nodes, at 1000 and 2000, each full of the byte 7.
use kerosene.Base.{
  ℕ, ◌+◌, ◌≡◌, refl, some, List, [], ◌∷◌, length, take, drop, replicate, length-replicate, arith,
  ◌==◌, if◌then◌else◌,
}
use kerosene.Process.{Ptr}
use kerosene.Files.{FsErr}
use kerosene.Ramfs.{Storage, Nodes, splice, read_file, write_file}
use kerosene.Ramfs.Content.{Chain, Full, content}
use kerosene.Ramfs.Read.{Gives}
use kerosene.Ramfs.Write.{Written}
use kerosene.Ramfs.Update.{write_file-Written}
use kerosene.Ramfs.RoundTrip.{read_file-write_file}
use kerosene.Base.Int.{pos}
use kerosene.Ramfs.Cut.{CutOff, write_file-CutOff}
use kerosene.Ramfs.Pipe.{pipe_read_loop, Oldest, pipe_read_loop-Oldest}
use kerosene.Ramfs.Seek.{Cursor, ramfs_file_seek_absolute, ramfs_file_read}
use kerosene.Ramfs.Seek.Reading.{ramfs_file_read-seek, ramfs_file_read-behind}

abbrev storage : Storage ℕ
storage = record { rmalloc = λ w. (w, w + 1000); rfree = λ w p. w }

full_block : List ℕ
full_block = replicate 512 7

length-full_block : length full_block ≡ 512
unfolding full_block
length-full_block = length-replicate {A = ℕ} 512 7

abbrev nodes : Nodes ℕ
nodes = record { next = λ a. if a == 1000 then 2000 else 0; block = λ a. full_block; world = 3000 }

nodes-Chain : Chain nodes.next 1000 (1000 ∷ 2000 ∷ [])
nodes-Chain = (refl, omega arith, (refl, omega arith, refl))

nodes-Full : Full nodes.block (1000 ∷ 2000 ∷ [])
nodes-Full = (length-full_block, (length-full_block, tt))

write_file-Written_example :
    Written
      (write_file storage 2 nodes 1000 (1 ∷ 2 ∷ []) 511)
      nodes
      (1000 ∷ 2000 ∷ [])
      (1 ∷ 2 ∷ [])
      (splice 511 (1 ∷ 2 ∷ []) (content nodes.block (1000 ∷ 2000 ∷ [])))
write_file-Written_example =
    write_file-Written storage 1 nodes 1000 (2000 ∷ []) (1 ∷ 2 ∷ []) 511 nodes-Chain nodes-Full
      (refl, (refl, tt)) (omega arith) (omega arith) (omega arith)

read_file-write_file_example :
    (q : Ptr) × (s' : Nodes ℕ) × (write_file storage 3 nodes 1000 (1 ∷ 2 ∷ []) 511
      ≡ some (FsErr.success, 2, q, s'))
    × Gives (read_file 2 s' 1000 2 511) FsErr.success (1 ∷ 2 ∷ [])
read_file-write_file_example =
    read_file-write_file storage 2 nodes 1000 (2000 ∷ []) (1 ∷ 2 ∷ []) 511 nodes-Chain nodes-Full
      (refl, (refl, tt)) (omega arith) (omega arith) (omega arith) (omega arith)

-- 600 bytes put over the file.
long : List ℕ
long = replicate 600 1

length-long : length long ≡ 600
unfolding long
length-long = length-replicate {A = ℕ} 600 1

write_file-CutOff_example :
    CutOff (write_file storage 2 nodes 1000 long 0) nodes 1000 3000 (2000 ∷ []) long
write_file-CutOff_example =
    write_file-CutOff storage 0 nodes 1000 2000 [] long nodes-Chain (omega (arith, length-long))
      (omega (arith, length-long)) (omega arith) refl (refl, (refl, tt))

pipe_read_loop-Oldest_example :
    Oldest (pipe_read_loop storage 3 nodes 1000 500 100) nodes 1000 (2000 ∷ []) 500 100
pipe_read_loop-Oldest_example =
    pipe_read_loop-Oldest storage 3 nodes 1000 (2000 ∷ []) 500 100 nodes-Chain nodes-Full
      (omega arith) (omega arith) (omega arith)

abbrev at_end : Cursor
at_end = record { position = 1024; current_datanode = 2000 }

ramfs_file_read-seek_example :
    (c : Cursor) × (ramfs_file_seek_absolute 2 nodes.next 1000 1024 at_end (pos 512) ≡ some c)
    × (c.position ≡ 512)
    × Gives
        (ramfs_file_read 2 nodes c 600)
        FsErr.eof
        (take 600 (drop 512 (content nodes.block (1000 ∷ 2000 ∷ []))))
ramfs_file_read-seek_example =
    ramfs_file_read-seek nodes 2 1000 (2000 ∷ []) 1024 512 600 at_end nodes-Chain nodes-Full
      (omega arith) (omega arith) (omega arith)

-- The first node has been read to its end, and the position 600 is asked for.
ramfs_file_read-behind_example :
    (c : Cursor) × (ramfs_file_seek_absolute 2 nodes.next 1000 1024
        (record { position = 512; current_datanode = 1000 })
        (pos 600)
      ≡ some c)
    × (c.position ≡ 600)
    × Gives
        (ramfs_file_read 2 nodes c 10)
        FsErr.success
        (take 10 (drop 88 (content nodes.block (1000 ∷ 2000 ∷ []))))
ramfs_file_read-behind_example =
    ramfs_file_read-behind nodes 2 1000 1024 600 10 [] (2000 ∷ []) 1000 nodes-Chain nodes-Full
      (omega arith) (omega arith) (omega arith)
