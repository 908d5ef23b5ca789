-- ===== src/Keyboard.antt =====
-- kernel/src/driver/kbd.c: the keyboard. The controller is the record `Ps2` of what kernel/src/driver/ps2.c
-- reads from and writes to the data port; the waits for its status are left out, so nothing is said of
-- their end. An interrupt reads one byte, a scan code below 256.
pub mod Codes
pub mod Layout
pub mod Bounds
pub mod Typing
pub mod Run
pub mod Discard
pub mod Stroke
pub mod Wait
use kerosene.Base.{
  ℕ, zero, suc, ◌+◌, ◌-◌, ◌*◌, ◌%◌, Bool, true, false, not, ◌&&◌, ◌||◌, Option, none, some,
  get_elem?, ◌==◌, ltb, leb, if◌then◌else◌, ◌>>=◌,
}
use kerosene.Keyboard.Codes.{keycode_extended_byte, decode}
use kerosene.Keyboard.Layout.{Locale, locale_map_key}

-- ps2_read_data and ps2_write_data
pub record Ps2 (W : Type 0) : Type 0 where
  pub read_data : W → ℕ × W
  pub write_data : W → ℕ → W

abbrev pub kbd_led : ℕ
kbd_led = 0xed

abbrev pub kbd_scancode_set : ℕ
kbd_scancode_set = 0xf0

abbrev pub kbd_ack : ℕ
kbd_ack = 0xfa

abbrev pub kbd_resend : ℕ
kbd_resend = 0xfe

abbrev pub keycode_capslock : ℕ
keycode_capslock = 48

abbrev pub keycode_lshift : ℕ
keycode_lshift = 64

abbrev pub keycode_rshift : ℕ
keycode_rshift = 75

abbrev pub keycode_scrolllock : ℕ
keycode_scrolllock = 97

abbrev pub keycode_pause : ℕ
keycode_pause = 98

-- key_t
pub record Key : Type 0 where
  pub keycode : ℕ
  pub mapped : ℕ
  pub released : Bool

-- The handler that is installed for interrupt request 1: kbd_handler or kbd_trash_int_handler.
pub data Handler : Type 0 where
  kbd trash : Handler

-- The static variables, and the controller.
pub record Keyboard (W : Type 0) : Type 0 where
  pub key_pressed : ℕ → Bool
  pub capslock_on : Bool
  pub scrolllock_on : Bool
  pub numlock_on : Bool
  pub current_key : Key
  pub interrupt_progress_cnt : ℕ
  pub interrupt_loop_cnt : ℕ
  pub latest_key_handled : Bool
  pub extended_byte : Bool
  pub handler : Handler
  pub locale : Locale
  pub world : W

abbrev pub press : (ℕ → Bool) → ℕ → Bool → ℕ → Bool
press pressed code v i = if i == code then v else pressed i

-- The character of a key, with the two shift keys and the capitals lock.
unfoldable pub map_stroke : Locale → Bool → Bool → ℕ → ℕ
map_stroke locale shift capslock_on code =
    let plain = locale_map_key locale code false in
    let shifted = locale_map_key locale code true in
    let mapped =
      if shift
      then if ltb plain 97 || ltb 122 plain
        then shifted
        else if not capslock_on
        then shifted
        else plain
      else plain in
    if capslock_on && (leb 97 mapped && (leb mapped 122 && not shift)) then mapped - 32 else mapped

-- After KBD_PAUSE_SCANCODE_1ST five more bytes are thrown away.
unfoldable pub pause : {W : Type 0} → Keyboard W → Option (Keyboard W)
pause kb = do
  code ← get_elem? keycode_extended_byte 0x6f
  some (record kb {
    interrupt_loop_cnt = 5;
    handler = trash;
    current_key = record { keycode = code; mapped = 0; released = false };
    extended_byte = false;
  })

unfoldable pub printscreen : {W : Type 0} → Keyboard W → ℕ → Option (Keyboard W)
printscreen kb scancode = do
  code ← get_elem? keycode_extended_byte 0x6e
  some (record kb {
    key_pressed = press kb.key_pressed 0x6e (scancode == 0x2a);
    interrupt_loop_cnt = 2;
    handler = trash;
    current_key = record { keycode = code; mapped = 0; released = scancode == 0xb7 };
    extended_byte = false;
  })

module _ {W : Type 0} (ps2 : Ps2 W) where
  -- Reads until the keyboard answers KBD_ACK or KBD_RESEND; `none` where it does not within the fuel.
  unfoldable pub await_respond : ℕ → W → Option (ℕ × W)
  await_respond zero w = none
  await_respond (suc fuel) w =
      let got = ps2.read_data w in
      let rest = await_respond fuel got.1 in
      if (got.0 == kbd_ack) || (got.0 == kbd_resend) then some got else rest

  -- Sends a command and its operand, at most `tries` times while the keyboard answers KBD_RESEND.
  unfoldable pub send : ℕ → ℕ → W → ℕ → ℕ → Option W
  send fuel zero w command operand = some w
  send fuel (suc tries) w command operand = do
    (respond, after) ← await_respond fuel (ps2.write_data (ps2.write_data w command) operand)
    let again = send fuel tries after command operand
    if respond == kbd_resend then again else some after

  unfoldable pub set_scancode_set : ℕ → W → Option W
  set_scancode_set fuel w = send fuel 3 w kbd_scancode_set 2

  unfoldable pub kbd_set_led : ℕ → W → Bool → Bool → Bool → Option W
  kbd_set_led fuel w scroll num caps =
      let bits = (if scroll then 1 else 0) + (if num then 2 else 0) + (if caps then 4 else 0) in
      send fuel 3 w kbd_led bits

  -- What kbd_handler does with a scan code that is no prefix and no part of the print screen key.
  unfoldable pub stroke : ℕ → Keyboard W → ℕ → Option (Keyboard W)
  stroke fuel kb scancode = do
    let released = leb 128 scancode
    kcode ← decode kb.extended_byte (if released then scancode - 128 else scancode)
    let pressed =
        if kcode == keycode_pause then kb.key_pressed else press kb.key_pressed kcode (not released)
    let caps = (kcode == keycode_capslock) && not released
    let scroll = (kcode == keycode_scrolllock) && not released
    let capslock = if caps then not kb.capslock_on else kb.capslock_on
    let scrolllock = if scroll then not kb.scrolllock_on else kb.scrolllock_on
    w ←
        if caps || scroll
        then kbd_set_led fuel kb.world scrolllock kb.numlock_on capslock
        else some kb.world
    let shift = pressed keycode_lshift || pressed keycode_rshift
    some (record kb {
      key_pressed = pressed;
      capslock_on = capslock;
      scrolllock_on = scrolllock;
      current_key = record {
        keycode = kcode;
        mapped = map_stroke kb.locale shift capslock kcode;
        released = released;
      };
      latest_key_handled = false;
      extended_byte = false;
      world = w;
    })

  unfoldable pub kbd_handler : ℕ → Keyboard W → Option (Keyboard W)
  kbd_handler fuel kb =
      let got = ps2.read_data kb.world in
      let scancode = got.0 in
      let k = record kb { world = got.1 } in
      if scancode == 0xe0
      then some (record k { extended_byte = true })
      else if scancode == 0xe1
      then pause k
      else if kb.extended_byte && ((scancode == 0x2a) || (scancode == 0xb7))
      then printscreen k scancode
      else stroke fuel k scancode

  unfoldable pub kbd_trash_int_handler : Keyboard W → Keyboard W
  kbd_trash_int_handler kb =
      let progress = (kb.interrupt_progress_cnt + 1) % 256 in
      let finished = progress == kb.interrupt_loop_cnt in
      record kb {
        interrupt_progress_cnt = if finished then 0 else progress;
        handler = if finished then kbd else kb.handler;
        world = (ps2.read_data kb.world).1;
      }

  -- One interrupt of the keyboard.
  unfoldable pub interrupt : ℕ → Keyboard W → Option (Keyboard W)
  interrupt fuel kb = elim kb.handler [
    | kbd ↦ kbd_handler fuel kb
    | trash ↦ some (kbd_trash_int_handler kb)
  ]

  -- `while(latest_key_handled) asm volatile("sti; hlt;")`: each halt ends with an interrupt.
  unfoldable pub wait_loop : ℕ → ℕ → Keyboard W → Option (Keyboard W)
  wait_loop fuel zero kb = none
  wait_loop fuel (suc rounds) kb =
      let rest = (do next ← interrupt fuel kb; wait_loop fuel rounds next) in
      if kb.latest_key_handled then rest else some kb

  -- The key, and the state after the call.
  unfoldable pub kbd_wait_key : ℕ → ℕ → Keyboard W → Option (Key × Keyboard W)
  kbd_wait_key fuel rounds kb = do
    k ← wait_loop fuel rounds (record kb { latest_key_handled = true })
    some (k.current_key, record k { latest_key_handled = true })

  unfoldable pub kbd_init : ℕ → Keyboard W → Option (Keyboard W)
  kbd_init fuel kb = do
    w ← set_scancode_set fuel (ps2.read_data kb.world).1
    v ← kbd_set_led fuel w false false false
    some (record kb { handler = kbd; world = v })

abbrev pub kbd_is_key_pressed : {W : Type 0} → Keyboard W → ℕ → Bool
kbd_is_key_pressed kb code = kb.key_pressed code

abbrev pub kbd_is_capslock_on : {W : Type 0} → Keyboard W → Bool
kbd_is_capslock_on kb = kb.capslock_on

abbrev pub kbd_is_scrolllock_on : {W : Type 0} → Keyboard W → Bool
kbd_is_scrolllock_on kb = kb.scrolllock_on

abbrev pub kbd_is_numlock_on : {W : Type 0} → Keyboard W → Bool
kbd_is_numlock_on kb = kb.numlock_on
