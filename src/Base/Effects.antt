-- ===== src/Base/Effects.antt =====
-- Functions that change the state `W` of the world outside.
abbrev pub State : Type 0 → Type 0 → Type 0
State W A = W → A × W

infixl 5 ◌>>=◌ ◌>>◌
abbrev pub ◌>>=◌ : {W A B : Type 0} → State W A → (A → State W B) → State W B
◌>>=◌ m f w = let (a, w') = m w in f a w'

abbrev pub ◌>>◌ : {W B : Type 0} → State W (Unit {0}) → State W B → State W B
m >> k = m >>= λ _. k

abbrev pub pure : {W A : Type 0} → A → State W A
pure a w = (a, w)

-- A call that only changes the world.
abbrev pub effect : {W : Type 0} → (W → W) → State W (Unit {0})
effect f w = (tt, f w)
