-- ===== src/Keyboard/Stroke.antt =====
-- A key that is pressed and released: the bytes it sends, and what the keyboard then knows.
use kerosene.Base.{
  ℕ, ◌+◌, ◌-◌, ◌<◌, ◌≡◌, ◌≢◌, refl, ◌∙◌, sym, ap, inl, inr, Bool, true, false, not, ◌&&◌, ◌||◌,
  Option, none, some, List, [], ◌∷◌, arith, ◌==◌, leb, if◌then◌else◌, ◌>>=◌,
}
use kerosene.Base.Int.{ℤ}
use kerosene.Keyboard.{
  Ps2, Key, Keyboard, kbd, press, keycode_capslock, keycode_scrolllock, keycode_pause,
  keycode_lshift, keycode_rshift, map_stroke, stroke, kbd_handler,
}
use kerosene.Keyboard.Codes.{keycode, keycode_extended_byte, decode}
use kerosene.Keyboard.Bounds.{decode-bounds}
use kerosene.Keyboard.Layout.{initial_locale, locale_set_keyboard_layout}
use kerosene.Keyboard.Typing.{typed, map_stroke-typed}
use kerosene.Keyboard.Run.{interrupts, Delivers}
use kerosene.Keyboard.Discard.{interrupt-kbd}

-- The bytes of a stroke: behind the prefix 0xe0 for some keys.
abbrev pub bytes : Bool → ℕ → List ℕ
bytes extended scancode = if extended then 0xe0 ∷ scancode ∷ [] else scancode ∷ []

abbrev pub byte_count : Bool → ℕ
byte_count extended = if extended then 2 else 1

-- A key that is no lock and not the pause key, whose code is not 0.
abbrev pub IsPlain : ℕ → Type 0
IsPlain code =
    (code ≢ 0) × (code ≢ keycode_capslock) × (code ≢ keycode_scrolllock) × (code ≢ keycode_pause)

abbrev code_or_zero : Option ℕ → ℕ
code_or_zero none = 0
code_or_zero (some k) = k

ne_special :
    (extended : Bool) (m scancode code : ℕ)
    → code_or_zero (decode extended m) ≡ 0
    → decode extended scancode ≡ some code
    → code ≢ 0
    → scancode ≢ m
ne_special extended m scancode code unmapped found ne same =
    let here : decode extended m ≡ some code = rw same at found in
    ne (sym (ap code_or_zero here) ∙ unmapped)

-- The scan codes with another meaning have the code 0 in the tables, or none.
no_prefix :
    (extended : Bool) (scancode code : ℕ)
    → decode extended scancode ≡ some code
    → code ≢ 0
    → (scancode < 128)
      × (scancode ≢ 96)
      × (scancode ≢ 97)
      × ((extended && ((scancode == 42) || (scancode == 55))) ≡ false)
unfolding decode keycode keycode_extended_byte
no_prefix true scancode code e ne =
    let n₁ = ne_special true 42 scancode code refl e ne in
    let n₂ = ne_special true 55 scancode code refl e ne in
    (
      elim (decode-bounds true scancode) [
        | inl (missing, le) ↦ absurd (ground (arith, sym e ∙ missing))
        | inr (k, found, lt, small) ↦ omega (arith, lt)
      ],
      ne_special true 96 scancode code refl e ne,
      ne_special true 97 scancode code refl e ne,
      ground (arith, n₁, n₂),
    )
no_prefix false scancode code e ne = (
  elim (decode-bounds false scancode) [
    | inl (missing, le) ↦ absurd (ground (arith, sym e ∙ missing))
    | inr (k, found, lt, small) ↦ omega (arith, lt)
  ],
  ne_special false 96 scancode code refl e ne,
  ne_special false 97 scancode code refl e ne,
  refl,
)

decode-small :
    (extended : Bool) (scancode code : ℕ) → decode extended scancode ≡ some code → code < 175
decode-small extended scancode code e = elim (decode-bounds extended scancode) [
  | inl (missing, le) ↦ absurd (ground (arith, sym e ∙ missing))
  | inr (k, found, lt, small) ↦ ground (arith, sym e ∙ found, small)
]

-- The byte for pressing or releasing.
abbrev pub edge : Bool → ℕ → ℕ
edge released scancode = if released then scancode + 128 else scancode

-- The state after a stroke of a plain key.
abbrev pub after : {W : Type 0} → Keyboard W → ℕ → Bool → Keyboard W
after kb code released =
    let pressed = press kb.key_pressed code (not released) in
    let shift = pressed keycode_lshift || pressed keycode_rshift in
    record kb {
      key_pressed = pressed;
      current_key = record {
        keycode = code;
        mapped = map_stroke kb.locale shift kb.capslock_on code;
        released = released;
      };
      latest_key_handled = false;
      extended_byte = false;
    }

-- A key held and let go: `o` is the state after the bytes of pressing it, `o'` after those of releasing it.
pub record Typed {W : Type 0} (o o' : Option (Keyboard W)) (kb : Keyboard W) (code : ℕ)
    : Type 0 where
  pub mid : Keyboard W
  pub end : Keyboard W
  pub goes_down : o ≡ some mid
  pub goes_up : o' ≡ some end
  pub held : (mid.key_pressed code ≡ true) × (end.key_pressed code ≡ false)
  pub others :
      (i : ℕ)
      → i ≢ code
      → (mid.key_pressed i ≡ kb.key_pressed i) × (end.key_pressed i ≡ kb.key_pressed i)
  pub latest : mid.current_key ≡ record {
    keycode = code;
    mapped =
        typed kb.locale
          (mid.key_pressed keycode_lshift || mid.key_pressed keycode_rshift)
          kb.capslock_on
          code;
    released = false;
  }
  pub latest_up : (end.current_key.keycode ≡ code) × (end.current_key.released ≡ true)
  pub is_new : (mid.latest_key_handled ≡ false) × (end.latest_key_handled ≡ false)
  pub locks : (end.capslock_on ≡ kb.capslock_on) × (end.scrolllock_on ≡ kb.scrolllock_on)
  pub ready : (end.handler ≡ kbd) × (end.extended_byte ≡ false)

module _ {W : Type 0} (ps2 : Ps2 W) where
  stroke-after :
      (fuel : ℕ) (kb : Keyboard W) (scancode code : ℕ) (released : Bool)
      → decode kb.extended_byte scancode ≡ some code
      → scancode < 128
      → IsPlain code
      → stroke ps2 fuel kb (edge released scancode) ≡ some (after kb code released)
  unfolding stroke
  stroke-after fuel kb scancode code true found lt (n₁, n₂, n₃, n₄) =
      let up : leb 128 (scancode + 128) ≡ true = ground arith in
      let back : scancode + 128 - 128 ≡ scancode = omega arith in
      rw (up, back, found) (ground (arith, n₂, n₃, n₄))
  stroke-after fuel kb scancode code false found lt (n₁, n₂, n₃, n₄) =
      let down : leb 128 scancode ≡ false = ground (arith, lt) in
      rw (down, found) (ground (arith, n₂, n₃, n₄))

  -- The byte that ends a stroke, once the prefix has been read.
  pub last_byte :
      (fuel : ℕ) (kb : Keyboard W) (scancode code : ℕ) (released : Bool)
      → (ps2.read_data kb.world).0 ≡ edge released scancode
      → decode kb.extended_byte scancode ≡ some code
      → IsPlain code
      → kbd_handler ps2 fuel kb
        ≡ some (after (record kb { world = (ps2.read_data kb.world).1 }) code released)
  unfolding kbd_handler
  last_byte fuel kb scancode code released reads found plain =
      let (lt, n₁, n₂, n₃) = no_prefix kb.extended_byte scancode code found plain.0 in
      let no_e0 : (edge released scancode == 0xe0) ≡ false = ground (arith, lt, n₁) in
      let no_e1 : (edge released scancode == 0xe1) ≡ false = ground (arith, lt, n₂) in
      let no_shot : (kb.extended_byte
            && ((edge released scancode == 0x2a) || (edge released scancode == 0xb7)))
          ≡ false =
        ground (arith, lt, n₃) in
      rw (reads, no_e0, no_e1, no_shot)
        (stroke-after fuel (record kb { world = (ps2.read_data kb.world).1 }) scancode code released
          found lt plain)

  pub bytes-after :
      (fuel : ℕ) (extended : Bool) (kb : Keyboard W) (scancode code : ℕ) (released : Bool) (w : W)
      → kb.handler ≡ kbd
      → kb.extended_byte ≡ false
      → Delivers ps2 kb.world (bytes extended (edge released scancode)) w
      → decode extended scancode ≡ some code
      → IsPlain code
      → interrupts ps2 fuel (byte_count extended) kb
        ≡ some (after (record kb { world = w }) code released)
  unfolding interrupts
  bytes-after fuel false kb scancode code released w k none_yet (reads, ends) found plain =
      let step = last_byte fuel kb scancode code released reads (rw none_yet found) plain in
      rw (interrupt-kbd ps2 fuel kb k, step, sym ends) refl
  bytes-after fuel true kb scancode code released w k none_yet (prefix, (reads, ends)) found plain =
      let kb₁ : Keyboard W = record kb {
        world = (ps2.read_data kb.world).1;
        extended_byte = true;
      } in
      let first : kbd_handler ps2 fuel kb ≡ some kb₁ =
        unfold kbd_handler in ground (arith, prefix) in
      let step = last_byte fuel kb₁ scancode code released reads found plain in
      rw (interrupt-kbd ps2 fuel kb k, first, interrupt-kbd ps2 fuel kb₁ k, step, sym ends) refl

  -- Pressing and releasing a key, while kbd_handler is installed, no prefix is pending and the layout
  -- is as locale_set_keyboard_layout sets it at first: a key whose code is not 0 and which is neither a lock nor the pause key. After the bytes of the press the key is
  -- held, and it is the latest key, with the character that the shift keys and the capitals lock give
  -- it: a letter is a capital when exactly one of the two is on, and another key gives its second
  -- character with shift. After the bytes of the release it is not held, and is the latest key as
  -- released. The other keys and the locks stay, and the next byte is read by kbd_handler with no prefix
  -- pending.
  pub interrupts-Typed :
      (fuel : ℕ) (extended : Bool) (kb : Keyboard W) (scancode code : ℕ) (w w' : W) (layout : ℤ)
      → kb.locale ≡ locale_set_keyboard_layout initial_locale layout
      → kb.handler ≡ kbd
      → kb.extended_byte ≡ false
      → Delivers ps2 kb.world (bytes extended scancode) w
      → Delivers ps2 w (bytes extended (scancode + 128)) w'
      → decode extended scancode ≡ some code
      → IsPlain code
      → Typed
          (interrupts ps2 fuel (byte_count extended) kb)
          (interrupts ps2 fuel (byte_count extended) kb
            >>= (λ (k : Keyboard W). interrupts ps2 fuel (byte_count extended) k))
          kb
          code
  interrupts-Typed fuel extended kb scancode code w w' layout us k none_yet down up found plain =
      let mid = after (record kb { world = w }) code false in
      let shift = mid.key_pressed keycode_lshift || mid.key_pressed keycode_rshift in
      let small : code < 175 = decode-small extended scancode code found in
      let character : map_stroke kb.locale shift kb.capslock_on code
          ≡ typed kb.locale shift kb.capslock_on code =
        rw us (map_stroke-typed layout shift kb.capslock_on code small) in
      let named : ℕ → Key = λ c. record { keycode = code; mapped = c; released = false } in
      let first = bytes-after fuel extended kb scancode code false w k none_yet down found plain in
      let second = bytes-after fuel extended mid scancode code true w' k refl up found plain in
      record {
        mid = mid;
        end = after (record mid { world = w' }) code true;
        goes_down = first;
        goes_up = rw first second;
        held = (ground arith, ground arith);
        others = λ i ne. (ground (arith, ne), ground (arith, ne));
        latest = ap named character;
        latest_up = (refl, refl);
        is_new = (refl, refl);
        locks = (refl, refl);
        ready = (k, refl);
      }
