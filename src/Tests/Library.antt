-- ===== src/Tests/Library.antt =====
-- The C library on a small memory: the string "abc" at 10, "abd" at 20 and "" at 40.
use kerosene.Base.{ℕ, List, [], ◌∷◌, arith, ◌==◌, if◌then◌else◌}
use kerosene.Libc.Memory.{Mem}
use kerosene.Libc.Strings.Compare.{IsString}

abbrev mem : Mem
mem a =
    if a == 10
    then b'a'
    else if a == 11
    then b'b'
    else if a == 12
    then b'c'
    else if a == 20
    then b'a'
    else if a == 21
    then b'b'
    else if a == 22
    then b'd'
    else 0

abbrev abc : List ℕ
abc = b'a' ∷ b'b' ∷ b'c' ∷ []

abbrev abd : List ℕ
abd = b'a' ∷ b'b' ∷ b'd' ∷ []

abc-IsString : IsString mem 10 abc
abc-IsString = ground arith

abd-IsString : IsString mem 20 abd
abd-IsString = ground arith
