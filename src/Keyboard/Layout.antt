-- ===== src/Keyboard/Layout.antt =====
-- kernel/src/locale.c: the characters of the keys. The arrays `keymap` and `keymap_shift` start as zeros;
-- their indices are key codes, all below 175.
use kerosene.Base.{ℕ, Bool, List, [], ◌∷◌, ◌==◌, if◌then◌else◌}
use kerosene.Base.Int.{ℤ, pos, negsuc}

pub record Locale : Type 0 where
  pub kbd_layout : ℤ
  pub timezone : ℤ
  pub keymap : ℕ → ℕ
  pub keymap_shift : ℕ → ℕ

abbrev pub initial_locale : Locale
initial_locale = record {
  kbd_layout = negsuc 0;
  timezone = pos 0;
  keymap = λ i. 0;
  keymap_shift = λ i. 0;
}

-- The assignments of set_keyboard_layout_US to each array: an index and a character.
unfoldable pub us_keymap : List (ℕ × ℕ)
us_keymap =
    (16, 96)
    ∷ (17, 49)
    ∷ (18, 50)
    ∷ (19, 51)
    ∷ (20, 52)
    ∷ (21, 53)
    ∷ (22, 54)
    ∷ (23, 55)
    ∷ (24, 56)
    ∷ (25, 57)
    ∷ (26, 48)
    ∷ (27, 45)
    ∷ (28, 61)
    ∷ (29, 8)
    ∷ (32, 9)
    ∷ (33, 113)
    ∷ (34, 119)
    ∷ (35, 101)
    ∷ (36, 114)
    ∷ (37, 116)
    ∷ (38, 121)
    ∷ (39, 117)
    ∷ (40, 105)
    ∷ (41, 111)
    ∷ (42, 112)
    ∷ (43, 91)
    ∷ (44, 93)
    ∷ (45, 92)
    ∷ (49, 97)
    ∷ (50, 115)
    ∷ (51, 100)
    ∷ (52, 102)
    ∷ (53, 103)
    ∷ (54, 104)
    ∷ (55, 106)
    ∷ (56, 107)
    ∷ (57, 108)
    ∷ (58, 59)
    ∷ (59, 39)
    ∷ (60, 10)
    ∷ (65, 122)
    ∷ (66, 120)
    ∷ (67, 99)
    ∷ (68, 118)
    ∷ (69, 98)
    ∷ (70, 110)
    ∷ (71, 109)
    ∷ (72, 44)
    ∷ (73, 46)
    ∷ (74, 47)
    ∷ (83, 32)
    ∷ []

unfoldable pub us_keymap_shift : List (ℕ × ℕ)
us_keymap_shift =
    (16, 126)
    ∷ (17, 33)
    ∷ (18, 64)
    ∷ (19, 35)
    ∷ (20, 36)
    ∷ (21, 37)
    ∷ (22, 94)
    ∷ (23, 38)
    ∷ (24, 42)
    ∷ (25, 40)
    ∷ (26, 41)
    ∷ (27, 95)
    ∷ (28, 43)
    ∷ (33, 81)
    ∷ (34, 87)
    ∷ (35, 69)
    ∷ (36, 82)
    ∷ (37, 84)
    ∷ (38, 89)
    ∷ (39, 85)
    ∷ (40, 73)
    ∷ (41, 79)
    ∷ (42, 80)
    ∷ (43, 123)
    ∷ (44, 125)
    ∷ (45, 124)
    ∷ (49, 65)
    ∷ (50, 83)
    ∷ (51, 68)
    ∷ (52, 70)
    ∷ (53, 71)
    ∷ (54, 72)
    ∷ (55, 74)
    ∷ (56, 75)
    ∷ (57, 76)
    ∷ (58, 58)
    ∷ (59, 34)
    ∷ (65, 90)
    ∷ (66, 88)
    ∷ (67, 67)
    ∷ (68, 86)
    ∷ (69, 66)
    ∷ (70, 78)
    ∷ (71, 77)
    ∷ (72, 60)
    ∷ (73, 62)
    ∷ (74, 63)
    ∷ []

unfoldable pub assign : (ℕ → ℕ) → List (ℕ × ℕ) → ℕ → ℕ
assign t [] i = t i
assign t ((j, c) ∷ rest) i = assign (λ a. if a == j then c else t a) rest i

unfoldable pub set_keyboard_layout_us : Locale → Locale
set_keyboard_layout_us l = record l {
  keymap = assign l.keymap us_keymap;
  keymap_shift = assign l.keymap_shift us_keymap_shift;
}

-- Every layout is the US layout so far.
unfoldable pub locale_set_keyboard_layout : Locale → ℤ → Locale
locale_set_keyboard_layout l layout = set_keyboard_layout_us (record l { kbd_layout = layout })

abbrev pub locale_set_timezone : Locale → ℤ → Locale
locale_set_timezone l zone = record l { timezone = zone }

abbrev pub locale_map_key : Locale → ℕ → Bool → ℕ
locale_map_key l code shift = if shift then l.keymap_shift code else l.keymap code
