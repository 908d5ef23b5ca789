-- ===== src/Keyboard/Typing.antt =====
-- Which character a key gives.
use kerosene.Base.{
  ℕ, zero, suc, ◌-◌, ◌<◌, ◌≡◌, refl, inl, inr, Bool, Bool-cases, true, not, ◌&&◌, ◌||◌, arith, ◌==◌,
  leb, if◌then◌else◌,
}
use kerosene.Base.Int.{ℤ}
use kerosene.Keyboard.{map_stroke}
use kerosene.Keyboard.Layout.{
  Locale, initial_locale, us_keymap, us_keymap_shift, assign, set_keyboard_layout_us,
  locale_set_keyboard_layout,
}

abbrev pub is_letter : ℕ → Bool
is_letter c = leb 97 c && leb c 122

-- A letter is a capital when exactly one of shift and capitals lock is on; the lock does nothing to the
-- other keys, which give their second character with shift.
abbrev pub typed : Locale → Bool → Bool → ℕ → ℕ
typed locale shift capslock_on code =
    let c = locale.keymap code in
    if is_letter c
    then if (shift && not capslock_on) || (capslock_on && not shift) then c - 32 else c
    else if shift
    then locale.keymap_shift code
    else c

-- Of the first `n` keys, those with a letter have its capital with shift.
unfoldable capitals : Locale → ℕ → Bool
capitals locale zero = true
capitals locale (suc n) =
    (not (is_letter (locale.keymap n)) || (locale.keymap_shift n == locale.keymap n - 32))
    && capitals locale n

capital_of :
    (locale : Locale) (n code : ℕ)
    → capitals locale n ≡ true
    → code < n
    → is_letter (locale.keymap code) ≡ true
    → locale.keymap_shift code ≡ locale.keymap code - 32
unfolding capitals
capital_of locale zero code all lt letter = elim lt [ ]
capital_of locale (suc n) code all lt letter = elim (Bool-cases (code == n)) [
  | inl e ↦
      let at : code ≡ n = ground (arith, e) in
      let l : is_letter (locale.keymap n) ≡ true = rw at at letter in rw at (ground (arith, all, l))
  | inr ne ↦ capital_of locale n code (ground (arith, all)) (ground (arith, ne, lt)) letter
]

us-capitals : (layout : ℤ) → capitals (locale_set_keyboard_layout initial_locale layout) 175 ≡ true
unfolding capitals locale_set_keyboard_layout set_keyboard_layout_us assign us_keymap
    us_keymap_shift
us-capitals layout = refl

-- With the layout set, the character that the handler computes for a key is the one of this rule.
pub map_stroke-typed :
    (layout : ℤ) (shift capslock_on : Bool) (code : ℕ)
    → code < 175
    → map_stroke (locale_set_keyboard_layout initial_locale layout) shift capslock_on code
      ≡ typed (locale_set_keyboard_layout initial_locale layout) shift capslock_on code
unfolding map_stroke
map_stroke-typed layout shift capslock_on code lt =
    let us = locale_set_keyboard_layout initial_locale layout in
    elim (Bool-cases (is_letter (us.keymap code))) [
      | inl letter ↦
          let capital = capital_of us 175 code (us-capitals layout) lt letter in
          ground (arith, letter, capital)
      | inr other ↦ ground (arith, other)
    ]
