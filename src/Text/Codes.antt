-- ===== src/Text/Codes.antt =====
-- A native string as its codes.
use Prim.Native.Char.{code}
use Prim.Native.String.{String, [], ◌∷◌}
use podbay_camera_firmware.Prelude.{ℕ, List}
use podbay_camera_firmware.Text.Lists.{nil, cons}

-- The characters of a string.
abbrev pub codes : String → List ℕ
codes [] = nil
codes (ch ∷ rest) = cons (code ch) (codes rest)
