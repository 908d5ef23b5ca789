-- ===== src/Tests/Text.antt =====
-- Names, numbers and tokens: the file README.TXT, the number -42 and the string "ab,c".
use kerosene.Base.{
  ℕ, ◌+◌, ◌%◌, ◌≡◌, ◌↔◌, refl, true, false, some, List, [], ◌∷◌, ◌++◌, arith, ◌==◌, if◌then◌else◌,
}
use kerosene.Libc.Memory.{Mem}
use kerosene.Libc.Time.RoundTrip.{Broken, gmtime-Broken}
use kerosene.Libc.Time.{Tm, gmtime, year_loop, month_loop, is_leap_year, days_in_month, days_before}
use kerosene.Libc.Numbers.{atoi, itoa}
use kerosene.Libc.Numbers.RoundTrip.{atoi-itoa}
use kerosene.Libc.Strings.Compare.{IsString}
use kerosene.Libc.Tokens.{strtok_r}
use kerosene.Libc.Tokens.Split.{
  behind_leading, before_delimiter, behind_delimiter, Splits, strtok_r-Splits,
}
use kerosene.Fat.Dates.{parse_datetime, parse_timestamp, parse_datetime-parse_timestamp}
use kerosene.Fat.Names.{is_valid_sfn, short_name, process_sfn_entry, gen_checksum, checksum_loop}
use kerosene.Fat.Names.Valid.{Plain, IsShort, is_valid_sfn-IsShort}
use kerosene.Fat.Names.RoundTrip.{process_sfn_entry-short_name_dotted}

abbrev readme : List ℕ
readme = b'R' ∷ b'E' ∷ b'A' ∷ b'D' ∷ b'M' ∷ b'E' ∷ []

abbrev txt : List ℕ
txt = b'T' ∷ b'X' ∷ b'T' ∷ []

is_valid_sfn-IsShort_example :
    (is_valid_sfn (readme ++ b'.' ∷ txt) ≡ true) ↔ IsShort (readme ++ b'.' ∷ txt)
is_valid_sfn-IsShort_example = is_valid_sfn-IsShort (readme ++ b'.' ∷ txt)

readme-Plain : Plain readme × Plain txt
readme-Plain = (
  (refl, refl, (refl, refl, (refl, refl, (refl, refl, (refl, refl, (refl, refl, tt)))))),
  (refl, refl, (refl, refl, (refl, refl, tt))),
)

process_sfn_entry-short_name_dotted_example :
    process_sfn_entry (short_name false (readme ++ b'.' ∷ txt)) ≡ readme ++ b'.' ∷ txt
process_sfn_entry-short_name_dotted_example =
    process_sfn_entry-short_name_dotted readme txt readme-Plain.0 readme-Plain.1 (omega arith)
      (omega arith) (omega arith) (omega arith)

checksum : gen_checksum (readme ++ b' ' ∷ b' ' ∷ txt) ≡ 115
unfolding gen_checksum checksum_loop
checksum = refl

-- 1 January 1980.
abbrev first_day : Tm
first_day = record {
  sec = 0;
  min = 0;
  hour = 0;
  mday = 1;
  mon = 1;
  year = 1980;
  wday = 2;
  yday = 0;
}

gmtime-Broken_example : Broken (gmtime 951782400) 951782400
gmtime-Broken_example = gmtime-Broken 951782400

broken_down : gmtime 315532800 ≡ some first_day
unfolding gmtime year_loop month_loop is_leap_year days_in_month days_before
broken_down = refl

parse_datetime-parse_timestamp_example :
    parse_datetime (parse_timestamp first_day).0 (parse_timestamp first_day).1 + first_day.sec % 2
    ≡ 315532800
parse_datetime-parse_timestamp_example =
    parse_datetime-parse_timestamp 315532800 first_day broken_down (omega arith) (omega arith)

abbrev blank : Mem
blank = λ a. 0

atoi-itoa_example :
    (m' : Mem) × (itoa 12 blank 4294967254 100 10 ≡ some m') × (atoi 12 m' 100 ≡ some 4294967254)
atoi-itoa_example = atoi-itoa 12 blank 4294967254 100 (omega arith) (omega arith)

-- "ab,c" at 100 and "," at 200.
abbrev text : Mem
text a =
    if a == 100
    then b'a'
    else if a == 101
    then b'b'
    else if a == 102
    then b','
    else if a == 103
    then b'c'
    else if a == 200
    then b','
    else 0

text-IsString : IsString text 100 (b'a' ∷ b'b' ∷ b',' ∷ b'c' ∷ []) × IsString text 200 (b',' ∷ [])
text-IsString = (
  (refl, omega arith, (refl, omega arith, (refl, omega arith, (refl, omega arith, refl)))),
  (refl, omega arith, refl),
)

strtok_r-Splits_example :
    let left = behind_leading (b',' ∷ []) (b'a' ∷ b'b' ∷ b',' ∷ b'c' ∷ []) in
    Splits
      (strtok_r 5 text 100 200 0)
      (before_delimiter (b',' ∷ []) left)
      (behind_delimiter (b',' ∷ []) left)
strtok_r-Splits_example =
    strtok_r-Splits 5 text 100 200 0 (b'a' ∷ b'b' ∷ b',' ∷ b'c' ∷ []) (b',' ∷ []) text-IsString.0
      text-IsString.1 (omega arith) (omega arith) (omega arith)

first_token : before_delimiter (b',' ∷ []) (b'a' ∷ b'b' ∷ b',' ∷ b'c' ∷ []) ≡ b'a' ∷ b'b' ∷ []
unfolding before_delimiter
first_token = refl
