-- ===== src/Keyboard/Discard.antt =====
-- The two handlers of the keyboard as a state machine: the bytes that are thrown away after the first
-- byte of the pause key and after the print screen key.
use kerosene.Base.{
  ℕ, zero, suc, ◌+◌, ◌-◌, ◌<◌, ◌≤◌, ◌≡◌, refl, ◌∙◌, sym, ◌⊎◌, inl, inr, Bool-cases, false, ◌&&◌,
  ◌||◌, some, get_elem?, arith, ◌==◌,
}
use kerosene.Keyboard.{
  Ps2, Keyboard, Handler, kbd, trash, stroke, pause, printscreen, kbd_handler,
  kbd_trash_int_handler, interrupt,
}
use kerosene.Keyboard.Codes.{keycode_extended_byte}
use kerosene.Keyboard.Run.{interrupts}

-- The counters: nothing is counted while kbd_handler is installed, and fewer bytes than are to be thrown
-- away while the other handler is, at most five.
pub record IsSteady {W : Type 0} (kb : Keyboard W) : Type 0 where
  pub idle : kb.handler ≡ kbd → kb.interrupt_progress_cnt ≡ 0
  pub busy : kb.handler ≡ trash → kb.interrupt_progress_cnt < kb.interrupt_loop_cnt
  pub bounded : kb.interrupt_loop_cnt ≤ 5

pub Handler-cases : (h : Handler) → (h ≡ kbd) ⊎ (h ≡ trash)
Handler-cases kbd = inl refl
Handler-cases trash = inr refl

pub pause_code : get_elem? keycode_extended_byte 0x6f ≡ some 98
unfolding keycode_extended_byte
pause_code = refl

pub printscreen_code : get_elem? keycode_extended_byte 0x6e ≡ some 96
unfolding keycode_extended_byte
printscreen_code = refl

module _ {W : Type 0} (ps2 : Ps2 W) where
  stroke-counters :
      (fuel : ℕ) (kb next : Keyboard W) (scancode : ℕ)
      → stroke ps2 fuel kb scancode ≡ some next
      → (next.handler ≡ kb.handler)
        × (next.interrupt_progress_cnt ≡ kb.interrupt_progress_cnt)
        × (next.interrupt_loop_cnt ≡ kb.interrupt_loop_cnt)
  unfolding stroke
  stroke-counters fuel kb next scancode e =
      (ground (arith, e), ground (arith, e), ground (arith, e))

  stroke-IsSteady :
      (fuel : ℕ) (kb next : Keyboard W) (scancode : ℕ)
      → IsSteady kb
      → stroke ps2 fuel kb scancode ≡ some next
      → IsSteady next
  stroke-IsSteady fuel kb next scancode s e =
      let (h, p, l) = stroke-counters fuel kb next scancode e in
      record {
        idle = λ k. p ∙ s.idle (sym h ∙ k);
        busy = λ t. omega (arith, s.busy (sym h ∙ t), p, l);
        bounded = omega (arith, s.bounded, l);
      }

  kbd_handler-IsSteady :
      (fuel : ℕ) (kb next : Keyboard W)
      → IsSteady kb
      → kb.handler ≡ kbd
      → kbd_handler ps2 fuel kb ≡ some next
      → IsSteady next
  unfolding kbd_handler pause printscreen
  kbd_handler-IsSteady fuel kb next s k e =
      let got = ps2.read_data kb.world in
      let k' : Keyboard W = record kb { world = got.1 } in
      let s' : IsSteady k' = record { idle = s.idle; busy = s.busy; bounded = s.bounded } in
      let zero_progress = s.idle k in
      elim (Bool-cases (got.0 == 0xe0)) [
        | inl prefix ↦ ground (arith, e, prefix, s')
        | inr p₀ ↦ elim (Bool-cases (got.0 == 0xe1)) [
          | inl first ↦ record {
            idle = ground (arith, e, p₀, first, pause_code);
            busy = ground (arith, e, p₀, first, pause_code, zero_progress);
            bounded = ground (arith, e, p₀, first, pause_code);
          }
          | inr p₁ ↦
              let shot = kb.extended_byte && ((got.0 == 0x2a) || (got.0 == 0xb7)) in
              elim (Bool-cases shot) [
                | inl both ↦ record {
                  idle = ground (arith, e, p₀, p₁, both, printscreen_code);
                  busy = ground (arith, e, p₀, p₁, both, printscreen_code, zero_progress);
                  bounded = ground (arith, e, p₀, p₁, both, printscreen_code);
                }
                | inr p₂ ↦ stroke-IsSteady fuel k' next got.0 s' (rw (p₀, p₁, p₂) at e)
              ]
        ]
      ]

  trash-IsSteady :
      (kb : Keyboard W) → IsSteady kb → kb.handler ≡ trash → IsSteady (kbd_trash_int_handler ps2 kb)
  unfolding kbd_trash_int_handler
  trash-IsSteady kb s t =
      let busy = s.busy t in
      record {
        idle = λ k. ground (arith, k, t, busy);
        busy = λ k. ground (arith, k, busy, s.bounded);
        bounded = s.bounded;
      }

  pub interrupt-kbd :
      (fuel : ℕ) (kb : Keyboard W)
      → kb.handler ≡ kbd
      → interrupt ps2 fuel kb ≡ kbd_handler ps2 fuel kb
  unfolding interrupt
  interrupt-kbd fuel kb k = rw k refl

  pub interrupt-trash :
      (fuel : ℕ) (kb : Keyboard W)
      → kb.handler ≡ trash
      → interrupt ps2 fuel kb ≡ some (kbd_trash_int_handler ps2 kb)
  unfolding interrupt
  interrupt-trash fuel kb t = rw t refl

  -- Every interrupt keeps the counters right.
  pub interrupt-IsSteady :
      (fuel : ℕ) (kb next : Keyboard W)
      → IsSteady kb
      → interrupt ps2 fuel kb ≡ some next
      → IsSteady next
  interrupt-IsSteady fuel kb next s e = elim (Handler-cases kb.handler) [
    | inl k ↦ kbd_handler-IsSteady fuel kb next s k (sym (interrupt-kbd fuel kb k) ∙ e)
    | inr t ↦
        let same : kbd_trash_int_handler ps2 kb ≡ next =
          ground (arith, interrupt-trash fuel kb t, e) in
        rw same at (trash-IsSteady kb s t)
  ]

  -- One byte fewer to throw away, where it is not the last.
  trash-counts :
      (kb : Keyboard W)
      → kb.interrupt_progress_cnt + 1 < kb.interrupt_loop_cnt
      → kb.interrupt_loop_cnt ≤ 5
      → kbd_trash_int_handler ps2 kb ≡ record kb {
        interrupt_progress_cnt = kb.interrupt_progress_cnt + 1;
        world = (ps2.read_data kb.world).1;
      }
  unfolding kbd_trash_int_handler
  trash-counts kb lt le = ground (arith, lt, le)

  -- Calls of the handler that throws bytes away, as many as are missing, install kbd_handler again; they
  -- change nothing else but the bytes left.
  trash-resumes :
      (fuel missing : ℕ) (kb : Keyboard W)
      → IsSteady kb
      → kb.handler ≡ trash
      → kb.interrupt_progress_cnt + missing ≡ kb.interrupt_loop_cnt
      → (w : W) × (interrupts ps2 fuel missing kb
          ≡ some (record kb { interrupt_progress_cnt = 0; handler = kbd; world = w }))
  unfolding interrupts
  trash-resumes fuel zero kb s t e = absurd (ground (arith, e, s.busy t))
  trash-resumes fuel (suc zero) kb s t e =
      let w = (ps2.read_data kb.world).1 in
      let last : kbd_trash_int_handler ps2 kb
          ≡ record kb { interrupt_progress_cnt = 0; handler = kbd; world = w } =
        unfold kbd_trash_int_handler in ground (arith, e, s.bounded) in
      (w, rw (interrupt-trash fuel kb t, last) refl)
  trash-resumes fuel (suc (suc n)) kb s t e =
      let more = trash-counts kb (omega (arith, e)) s.bounded in
      let kb₁ : Keyboard W = record kb {
        interrupt_progress_cnt = kb.interrupt_progress_cnt + 1;
        world = (ps2.read_data kb.world).1;
      } in
      let s₁ : IsSteady kb₁ = record {
        idle = λ k. ground (arith, k, t);
        busy = λ x. omega (arith, e);
        bounded = s.bounded;
      } in
      let (w, ih) = trash-resumes fuel (suc n) kb₁ s₁ t (omega (arith, e)) in
      (w, rw (interrupt-trash fuel kb t, more) ih)

  -- While bytes are thrown away, fewer being counted than are to go and those at most five, some number
  -- of interrupts, at most five, installs kbd_handler again, whatever the bytes are; the counter is
  -- then 0, and the keys, the locks and the latest key are what they were.
  pub interrupts-resume :
      (fuel : ℕ) (kb : Keyboard W)
      → IsSteady kb
      → kb.handler ≡ trash
      → (n : ℕ) × (w : W) × (n ≤ 5)
        × (interrupts ps2 fuel n kb
            ≡ some (record kb { interrupt_progress_cnt = 0; handler = kbd; world = w }))
  interrupts-resume fuel kb s t =
      let n = kb.interrupt_loop_cnt - kb.interrupt_progress_cnt in
      let (w, runs) = trash-resumes fuel n kb s t (omega (arith, s.busy t)) in
      (n, w, omega (arith, s.bounded), runs)

  -- The six bytes of the pause key, of which only the first is looked at, end with kbd_handler installed,
  -- the pause key as the latest key, no prefix 0xe0 pending and five as the number of bytes to throw
  -- away. Nothing else but the bytes left changes, so a key that was handled is not marked as new.
  pub interrupts-pause :
      (fuel : ℕ) (kb : Keyboard W)
      → IsSteady kb
      → kb.handler ≡ kbd
      → (ps2.read_data kb.world).0 ≡ 0xe1
      → (w : W) × (interrupts ps2 fuel 6 kb
          ≡ some (record kb {
            interrupt_loop_cnt = 5;
            current_key = record { keycode = 98; mapped = 0; released = false };
            extended_byte = false;
            world = w;
          }))
  unfolding interrupts
  interrupts-pause fuel kb s k first =
      let kb₁ : Keyboard W = record kb {
        interrupt_loop_cnt = 5;
        handler = trash;
        current_key = record { keycode = 98; mapped = 0; released = false };
        extended_byte = false;
        world = (ps2.read_data kb.world).1;
      } in
      let starts : kbd_handler ps2 fuel kb ≡ some kb₁ =
        unfold kbd_handler pause in ground (arith, first, pause_code) in
      let s₁ : IsSteady kb₁ = record {
        idle = λ x. ground (arith, x);
        busy = λ x. omega (arith, s.idle k);
        bounded = omega arith;
      } in
      let (w, runs) = trash-resumes fuel 5 kb₁ s₁ refl (omega (arith, s.idle k)) in
      (w, rw (interrupt-kbd fuel kb k, starts) (runs ∙ ground (arith, s.idle k, k)))
