-- ===== src/Keyboard/Bounds.antt =====
-- The tables of scan codes: what a read finds, and where it is out of range.
use kerosene.Base.{
  ℕ, zero, suc, ◌<◌, ◌≤◌, ◌≡◌, refl, ◌⊎◌, inl, inr, Bool, true, false, ◌&&◌, none, some, List, [],
  ◌∷◌, length, get_elem?, arith, ltb, if◌then◌else◌,
}
use kerosene.Keyboard.Codes.{keycode, keycode_extended_byte, decode}

abbrev all_below : ℕ → List ℕ → Bool
all_below b [] = true
all_below b (x ∷ xs) = ltb x b && all_below b xs

-- A read of a list whose elements are below `b`.
abbrev Read : List ℕ → ℕ → ℕ → Type 0
Read xs b i =
    ((get_elem? xs i ≡ none) × (length xs ≤ i))
    ⊎ ((k : ℕ) × (get_elem? xs i ≡ some k) × (i < length xs) × (k < b))

get_elem?-Read : (xs : List ℕ) (b i : ℕ) → all_below b xs ≡ true → Read xs b i
get_elem?-Read [] b i h = inl (refl, omega arith)
get_elem?-Read (x ∷ xs) b zero h = inr (x, refl, omega arith, ground arith)
get_elem?-Read (x ∷ xs) b (suc i) h = elim (get_elem?-Read xs b i (ground arith)) [
  | inl (e, le) ↦ inl (e, omega arith)
  | inr (k, e, lt, kb) ↦ inr (k, e, omega arith, kb)
]

-- The number of entries of a table.
abbrev pub entries : Bool → ℕ
entries extended_byte = if extended_byte then 112 else 89

-- A scan code is looked up exactly when it is below 89, or below 112 behind the prefix 0xe0, and the key
-- code found is an index of the arrays of 175 entries that it is used with; the read of any other scan
-- code is behind the end of the table.
pub decode-bounds :
    (extended_byte : Bool) (scancode : ℕ)
    → ((decode extended_byte scancode ≡ none) × (entries extended_byte ≤ scancode))
      ⊎ ((k : ℕ) × (decode extended_byte scancode ≡ some k)
          × (scancode < entries extended_byte)
          × (k < 175))
unfolding decode keycode keycode_extended_byte
decode-bounds true scancode = get_elem?-Read keycode_extended_byte 175 scancode refl
decode-bounds false scancode = get_elem?-Read keycode 175 scancode refl
