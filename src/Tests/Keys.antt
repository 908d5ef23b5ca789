-- ===== src/Tests/Keys.antt =====
-- A controller whose world is the bytes to read, and a keyboard with the US layout.
use kerosene.Base.{
  ℕ, ◌<◌, ◌≤◌, ◌≡◌, ◌⊎◌, refl, true, false, none, some, List, [], ◌∷◌, arith, ◌>>=◌,
}
use kerosene.Base.Int.{pos}
use kerosene.Keyboard.{Ps2, Keyboard, kbd, trash}
use kerosene.Keyboard.Codes.{keycode, decode}
use kerosene.Keyboard.Layout.{Locale, initial_locale, locale_set_keyboard_layout}
use kerosene.Keyboard.Bounds.{entries, decode-bounds}
use kerosene.Keyboard.Run.{interrupts}
use kerosene.Keyboard.Discard.{IsSteady, interrupts-resume}
use kerosene.Keyboard.Stroke.{Typed, interrupts-Typed}

abbrev next_byte : List ℕ → ℕ × List ℕ
next_byte [] = (0, [])
next_byte (b ∷ bs) = (b, bs)

abbrev ps2 : Ps2 (List ℕ)
ps2 = record { read_data = next_byte; write_data = λ w b. w }

abbrev us : Locale
us = locale_set_keyboard_layout initial_locale (pos 0)

abbrev at_start : List ℕ → Keyboard (List ℕ)
at_start bytes = record {
  key_pressed = λ i. false;
  capslock_on = false;
  scrolllock_on = false;
  numlock_on = false;
  current_key = record { keycode = 0; mapped = 0; released = false };
  interrupt_progress_cnt = 0;
  interrupt_loop_cnt = 0;
  latest_key_handled = true;
  extended_byte = false;
  handler = kbd;
  locale = us;
  world = bytes;
}

start-IsSteady : (bytes : List ℕ) → IsSteady (at_start bytes)
start-IsSteady bytes = record {
  idle = λ k. refl;
  busy = λ t. ground (arith, t);
  bounded = omega arith;
}

-- The key Q, and the arrow up.
interrupts-Typed_example :
    Typed
      (interrupts ps2 1 1 (at_start (16 ∷ 144 ∷ [])))
      (interrupts ps2 1 1 (at_start (16 ∷ 144 ∷ []))
        >>= (λ (k : Keyboard (List ℕ)). interrupts ps2 1 1 k))
      (at_start (16 ∷ 144 ∷ []))
      33
unfolding decode keycode
interrupts-Typed_example =
    interrupts-Typed ps2 1 false (at_start (16 ∷ 144 ∷ [])) 16 33 (144 ∷ []) [] (pos 0) refl refl
      refl (refl, refl) (refl, refl) refl (omega arith, omega arith, omega arith, omega arith)

decode-bounds_example :
    ((decode false 122 ≡ none) × (entries false ≤ 122))
    ⊎ ((k : ℕ) × (decode false 122 ≡ some k) × (122 < entries false) × (k < 175))
decode-bounds_example = decode-bounds false 122

abbrev discarding : Keyboard (List ℕ)
discarding = record (at_start (69 ∷ 225 ∷ 157 ∷ 197 ∷ [])) {
  interrupt_progress_cnt = 1;
  interrupt_loop_cnt = 5;
  handler = trash;
}

interrupts-resume_example :
    (n : ℕ) × (w : List ℕ) × (n ≤ 5)
    × (interrupts ps2 1 n discarding
        ≡ some (record discarding { interrupt_progress_cnt = 0; handler = kbd; world = w }))
interrupts-resume_example =
    interrupts-resume ps2 1 discarding
      (record { idle = λ k. ground (arith, k); busy = λ t. omega arith; bounded = omega arith })
      refl
