-- ===== src/Tests/Tables.antt =====
-- A directory in frame 1, whose first entry leads to the table in frame 2, and there page 5 to frame 3.
use kerosene.Base.{ℕ, refl, ◌&&◌, none, arith, ◌==◌, ltb, if◌then◌else◌}
use kerosene.Process.{null}
use kerosene.Frames.{Frames}
use kerosene.Paging.{Entry, Tables, Paging, zero_entry, unmap}
use kerosene.Paging.Walk.{IsDirectory}
use kerosene.Paging.Unmap.{Unmapped, unmap-Unmapped}

abbrev frames : Frames
frames = record { bitmap = λ i j. (i == 0) && ltb j 4; used_block = 4; total_block = 40 }

abbrev leads_to : ℕ → Entry
leads_to f = record { frame = f; attrib = λ i. ltb i 2 }

abbrev tables : Tables
tables f j =
    if (f == 1) && (j == 0)
    then leads_to 2
    else if (f == 1) && (j == 1023)
    then leads_to 1
    else if (f == 2) && (j == 5)
    then leads_to 3
    else zero_entry

abbrev paging : Paging
paging = record {
  tables = tables;
  frames = frames;
  current = 1;
  kernel = 1;
  temp_pd = none;
  temp_table = none;
}

tables-IsDirectory : IsDirectory tables frames 1
tables-IsDirectory = record {
  taken = refl;
  tables_taken = λ i lt p. ground (arith, p, lt);
  tables_apart = λ i lt p. ground (arith, p, lt);
  distinct = λ i j li lj pi pj e. ground (arith, pi, pj, li, lj);
}

unmap-Unmapped_example : Unmapped (unmap paging null 20480) paging 1 20480
unmap-Unmapped_example = unmap-Unmapped paging null 20480 tables-IsDirectory (ground arith)
