-- ===== src/Device.antt =====
-- Fallible code over the state of a device that the program does not implement, and the I2C bus that
-- the sensor and the lens actuator hang on.
pub mod Runs
use podbay_camera_firmware.Prelude.{ℕ, List, Result, ok, err}

-- A call returns a result and leaves the device in a state, also when it fails.
abbrev pub M : Type 0 → Type 0 → Type 0
M S A = S → Result A × S

-- What follows a call.
abbrev pub continue : {S A B : Type 0} → (A → M S B) → Result A × S → Result B × S
continue f (ok a, s) = f a s
continue f (err e, s) = (err e, s)

infixl 5 ◌>>=◌ ◌>>◌
abbrev pub ◌>>=◌ : {S A B : Type 0} → M S A → (A → M S B) → M S B
◌>>=◌ m f s = continue f (m s)

abbrev pub ◌>>◌ : {S B : Type 0} → M S (Unit {0}) → M S B → M S B
◌>>◌ m k s = continue (λ _. k) (m s)

abbrev pub pure : {S A : Type 0} → A → M S A
pure a s = (ok a, s)

abbrev pub lift : {S A : Type 0} → Result A → M S A
lift r s = (r, s)

-- An open file on the bus, bound to one address: `write_all`, and `read_exact` of one byte.
pub record I2c : Type 1 where
  pub State : Type 0
  pub send : List ℕ → M State (Unit {0})
  pub receive : M State ℕ
