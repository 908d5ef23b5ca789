-- ===== src/Keyboard/Run.antt =====
-- Interrupts of the keyboard one after the other.
use kerosene.Base.{ℕ, zero, suc, ◌≡◌, Option, some, List, [], ◌∷◌, ◌>>=◌}
use kerosene.Keyboard.{Ps2, Keyboard, interrupt}

module _ {W : Type 0} (ps2 : Ps2 W) where
  unfoldable pub interrupts : ℕ → ℕ → Keyboard W → Option (Keyboard W)
  interrupts fuel zero kb = some kb
  interrupts fuel (suc n) kb = do next ← interrupt ps2 fuel kb; interrupts fuel n next

  -- Reads at `w` give these bytes, and leave the controller at `end`.
  abbrev pub Delivers : W → List ℕ → W → Type 0
  Delivers w [] end = w ≡ end
  Delivers w (b ∷ bs) end = ((ps2.read_data w).0 ≡ b) × Delivers (ps2.read_data w).1 bs end
