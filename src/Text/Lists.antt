-- ===== src/Text/Lists.antt =====
-- The constructors of lists by names that strings do not have.
use podbay_camera_firmware.Prelude.{ℕ, List, [], ◌∷◌}

abbrev pub nil : List ℕ
nil = []

abbrev pub cons : ℕ → List ℕ → List ℕ
cons c cs = c ∷ cs
