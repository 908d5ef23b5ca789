-- ===== src/Libc/Environment.antt =====
-- getenv of libc/src/stdlib. The environment is the pointer `environment_pointer` and the pointers behind
-- it by their index; the loop over them runs on fuel (`none`: out of fuel).
use kerosene.Base.{
  ℕ, zero, suc, ◌+◌, ◌<◌, ◌≡◌, ◌≢◌, refl, sym, Bool, true, false, ◌&&◌, ◌||◌, Option, none, some,
  List, [], ◌∷◌, length, arith, ◌==◌, if◌then◌else◌, ◌>>=◌, Bool-cases, Option-cases, inl, inr,
}
use mathlib.Core.Path.{subst}
use kerosene.Base.Int.{ℤ, pos, negsuc, sub_ℕ}
use kerosene.Process.{null}
use kerosene.Libc.Memory.{Mem}
use kerosene.Libc.Strings.{strlen, strncmp}
use kerosene.Libc.Strings.Compare.{IsString, strlen-length}

abbrev pub no_difference : ℤ → Bool
no_difference (pos n) = n == 0
no_difference (negsuc n) = false

unfoldable pub getenv_loop : ℕ → Mem → (ℕ → ℕ) → ℕ → ℕ → ℕ → Option ℕ
getenv_loop zero m pointers name name_len i = none
getenv_loop (suc fuel) m pointers name name_len i =
    let rest = getenv_loop fuel m pointers name name_len (i + 1) in
    if pointers i == null
    then some null
    else if no_difference (strncmp m (pointers i) name name_len)
        && (m (pointers i + name_len) == b'=')
    then some (pointers i + name_len + 1)
    else rest

unfoldable pub getenv : ℕ → Mem → ℕ → (ℕ → ℕ) → ℕ → Option ℕ
getenv fuel m environment_pointer pointers name =
    let found = (do name_len ← strlen fuel m name; getenv_loop fuel m pointers name name_len 0) in
    if (environment_pointer == null) || (name == null) then some null else found

-- What stands behind the name and `=` in an entry.
unfoldable pub value_of : List ℕ → List ℕ → Option (List ℕ)
value_of [] [] = none
value_of [] (c ∷ cs) = if c == b'=' then some cs else none
value_of (n ∷ ns) [] = none
value_of (n ∷ ns) (x ∷ xs) = let rest = value_of ns xs in if x == n then rest else none

abbrev pub or_else : Option (List ℕ) → Option (List ℕ) → Option (List ℕ)
or_else none b = b
or_else (some v) b = some v

-- The value in the first entry that has one for the name.
unfoldable pub find_value : List ℕ → List (List ℕ) → Option (List ℕ)
find_value ns [] = none
find_value ns (xs ∷ entries) = or_else (value_of ns xs) (find_value ns entries)

find_value_miss :
    (ns xs : List ℕ) (entries : List (List ℕ))
    → value_of ns xs ≡ none
    → find_value ns (xs ∷ entries) ≡ find_value ns entries
unfolding find_value
find_value_miss ns xs entries e = rw e refl

find_value_hit :
    (ns xs : List ℕ) (entries : List (List ℕ)) (v : List ℕ)
    → value_of ns xs ≡ some v
    → find_value ns (xs ∷ entries) ≡ some v
unfolding find_value
find_value_hit ns xs entries v e = rw e refl

-- From index `i` on the pointers lead to the strings `entries` and end with NULL.
abbrev pub Environment : Mem → (ℕ → ℕ) → ℕ → List (List ℕ) → Type 0
Environment m pointers i [] = pointers i ≡ null
Environment m pointers i (xs ∷ entries) =
    (pointers i ≢ null) × IsString m (pointers i) xs × Environment m pointers (i + 1) entries

-- A test and a place that agree with a value.
abbrev Hit : Mem → Bool → ℕ → Option (List ℕ) → Type 0
Hit m test q none = test ≡ false
Hit m test q (some v) = (test ≡ true) × IsString m q v

matches :
    (m : Mem) (p name : ℕ) (ns xs : List ℕ)
    → IsString m name ns
    → IsString m p xs
    → Hit m
        (no_difference (strncmp m p name (length ns)) && (m (p + length ns) == b'='))
        (p + length ns + 1)
        (value_of ns xs)
unfolding strncmp value_of
matches m p name [] [] s t = let e : p + 0 ≡ p = omega arith in rw (e, t) refl
matches m p name [] (c ∷ cs) s (here, ne, t) =
    let e : p + 0 ≡ p = omega arith in
    elim (Bool-cases (c == b'=')) [
      | inl equals ↦ rw (e, here, equals) (refl, t)
      | inr other ↦ rw (e, here, other) refl
    ]
matches m p name (n ∷ ns) [] (here, ne, s) t =
    let differ : (0 == n) ≡ false = ground (arith, ne) in
    let lower : no_difference (sub_ℕ 0 n) ≡ false = ground (arith, ne) in
    rw (here, t, differ, lower) refl
matches m p name (n ∷ ns) (x ∷ xs) (here, ne, s) (here', ne', t) =
    let e : p + suc (length ns) ≡ p + 1 + length ns = omega arith in
    let live : (x == 0) ≡ false = ground (arith, ne') in
    elim (Bool-cases (x == n)) [
      | inl same ↦ rw (here, here', same, live, e) (matches m (p + 1) (name + 1) ns xs s t)
      | inr differ ↦
          let apart : no_difference (sub_ℕ x n) ≡ false = ground (arith, differ) in
          rw (here, here', differ, apart) refl
    ]

-- NULL, or a place where the value stands.
abbrev pub Points : Mem → ℕ → Option (List ℕ) → Type 0
Points m r none = r ≡ null
Points m r (some v) = (r ≢ null) × IsString m r v

getenv_loop-Points :
    (fuel : ℕ) (m : Mem) (pointers : ℕ → ℕ) (name i : ℕ) (ns : List ℕ) (entries : List (List ℕ))
    → IsString m name ns
    → Environment m pointers i entries
    → length entries < fuel
    → (r : ℕ) × (getenv_loop fuel m pointers name (length ns) i ≡ some r)
      × Points m r (find_value ns entries)
unfolding getenv_loop
getenv_loop-Points zero m pointers name i ns entries s env enough = absurd (omega (arith, enough))
getenv_loop-Points (suc fuel) m pointers name i ns [] s env enough =
    (null, rw env refl, unfold find_value in refl)
getenv_loop-Points (suc fuel) m pointers name i ns (xs ∷ entries) s (real, t, env) enough =
    let there : (pointers i == null) ≡ false = ground (arith, real) in
    let hit = matches m (pointers i) name ns xs s t in
    elim (Option-cases (value_of ns xs)) [
      | inl nothing ↦
          let miss = rw nothing at hit in
          let (r, runs, points) =
            getenv_loop-Points fuel m pointers name (i + 1) ns entries s env
              (omega (arith, enough)) in
          (
            r,
            rw (there, miss) runs,
            subst (Points m r) (sym (find_value_miss ns xs entries nothing)) points,
          )
      | inr (v, found) ↦
          let (yes_here, value) = rw found at hit in
          (
            pointers i + length ns + 1,
            rw (there, yes_here) refl,
            subst (Points m (pointers i + length ns + 1))
                (sym (find_value_hit ns xs entries v found)) (omega arith, value),
          )
    ]

-- Where there is an environment and a name, getenv gives the value of the first entry that begins with the
-- name and `=`, or NULL if there is none. A round of fuel for each entry and for each character of the name,
-- and one more, is enough.
pub getenv-Points :
    (fuel : ℕ) (m : Mem) (environment_pointer name : ℕ) (pointers : ℕ → ℕ) (ns : List ℕ)
    (entries : List (List ℕ))
    → environment_pointer ≢ null
    → name ≢ null
    → IsString m name ns
    → Environment m pointers 0 entries
    → length ns < fuel
    → length entries < fuel
    → (r : ℕ) × (getenv fuel m environment_pointer pointers name ≡ some r)
      × Points m r (find_value ns entries)
unfolding getenv
getenv-Points fuel m environment_pointer name pointers ns entries real real' s env enough enough' =
    let there : (environment_pointer == null) ≡ false = ground (arith, real) in
    let named : (name == null) ≡ false = ground (arith, real') in
    let len = strlen-length fuel m name ns s enough in
    let (r, runs, points) = getenv_loop-Points fuel m pointers name 0 ns entries s env enough' in
    (r, rw (there, named, len) runs, points)
