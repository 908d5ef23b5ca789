-- ===== src/Keyboard/Wait.antt =====
-- kbd_wait_key of kernel/src/driver/kbd.c.
use kerosene.Base.{ℕ, suc, ◌+◌, ◌≡◌, refl, sym, Bool, true, false, some, arith}
use kerosene.Keyboard.{Ps2, Keyboard, kbd, kbd_handler, wait_loop, kbd_wait_key}
use kerosene.Keyboard.Codes.{decode}
use kerosene.Keyboard.Run.{interrupts, Delivers}
use kerosene.Keyboard.Discard.{interrupt-kbd}
use kerosene.Keyboard.Stroke.{bytes, byte_count, IsPlain, edge, after, last_byte, bytes-after}

module _ {W : Type 0} (ps2 : Ps2 W) where
  wait-stroke :
      (fuel rounds : ℕ) (extended : Bool) (kb : Keyboard W) (scancode code : ℕ) (released : Bool)
      (w : W)
      → kb.handler ≡ kbd
      → kb.extended_byte ≡ false
      → Delivers ps2 kb.world (bytes extended (edge released scancode)) w
      → decode extended scancode ≡ some code
      → IsPlain code
      → wait_loop ps2 fuel
          (byte_count extended + suc rounds)
          (record kb { latest_key_handled = true })
        ≡ some (after (record kb { world = w }) code released)
  unfolding wait_loop
  wait-stroke fuel rounds false kb scancode code released w k none_yet (reads, ends) found plain =
      let kb₀ : Keyboard W = record kb { latest_key_handled = true } in
      let step = last_byte ps2 fuel kb₀ scancode code released reads (rw none_yet found) plain in
      let count : 1 + suc rounds ≡ suc (suc rounds) = omega arith in
      rw (count, interrupt-kbd ps2 fuel kb₀ k, step, sym ends) refl
  wait-stroke fuel rounds true kb scancode code released w k none_yet (prefix, (reads, ends)) found
        plain =
      let kb₀ : Keyboard W = record kb { latest_key_handled = true } in
      let kb₁ : Keyboard W = record kb₀ {
        world = (ps2.read_data kb.world).1;
        extended_byte = true;
      } in
      let first : kbd_handler ps2 fuel kb₀ ≡ some kb₁ =
        unfold kbd_handler in ground (arith, prefix) in
      let step = last_byte ps2 fuel kb₁ scancode code released reads found plain in
      let count : 2 + suc rounds ≡ suc (suc (suc rounds)) = omega arith in
      rw (count, interrupt-kbd ps2 fuel kb₀ k, first, interrupt-kbd ps2 fuel kb₁ k, step, sym ends)
        refl

  -- While kbd_handler is installed and no prefix is pending, kbd_wait_key returns the next stroke,
  -- pressed or released, of a key whose code is not 0 and which is neither a lock nor the pause key,
  -- and marks it as handled; it ends when the bytes of the stroke have come.
  pub kbd_wait_key-stroke :
      (fuel rounds : ℕ) (extended : Bool) (kb : Keyboard W) (scancode code : ℕ) (released : Bool)
      (w : W)
      → kb.handler ≡ kbd
      → kb.extended_byte ≡ false
      → Delivers ps2 kb.world (bytes extended (edge released scancode)) w
      → decode extended scancode ≡ some code
      → IsPlain code
      → (k : Keyboard W) × (interrupts ps2 fuel (byte_count extended) kb ≡ some k)
        × (k.current_key.keycode ≡ code)
        × (k.current_key.released ≡ released)
        × (kbd_wait_key ps2 fuel (byte_count extended + suc rounds) kb
            ≡ some (k.current_key, record k { latest_key_handled = true }))
  unfolding kbd_wait_key
  kbd_wait_key-stroke fuel rounds extended kb scancode code released w k none_yet reads found
        plain =
      let runs =
        bytes-after ps2 fuel extended kb scancode code released w k none_yet reads found plain in
      let waits =
        wait-stroke fuel rounds extended kb scancode code released w k none_yet reads found plain in
      (after (record kb { world = w }) code released, runs, refl, refl, rw waits refl)
