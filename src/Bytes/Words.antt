-- ===== src/Bytes/Words.antt =====
-- Little-endian words read back.
use podbay_camera_firmware.Prelude.{ℕ, zero, suc, ◌/◌, ◌^◌, ◌<◌, ◌≡◌, refl, ap, length, arith}
use native.Mathlib.Nat.{pow-suc}
use podbay_camera_firmware.Bytes.{le_bytes, from_le_bytes}

pub length-le_bytes : (n value : ℕ) → length (le_bytes n value) ≡ n
length-le_bytes zero value = refl
length-le_bytes (suc n) value = ap suc (length-le_bytes n (value / 256))

-- A word of n bytes is read back, if it fits.
pub from_le_bytes-le_bytes :
    (n value : ℕ) → value < 256 ^ n → from_le_bytes (le_bytes n value) ≡ value
from_le_bytes-le_bytes zero value h = omega arith
from_le_bytes-le_bytes (suc n) value h =
    let small : value / 256 < 256 ^ n = omega (arith, pow-suc 256 n) in
    omega (arith, from_le_bytes-le_bytes n (value / 256) small)

-- The words of the source.
pub u32_back : (value : ℕ) → value < 2 ^ 32 → from_le_bytes (le_bytes 4 value) ≡ value
u32_back value h = from_le_bytes-le_bytes 4 value h

pub u64_back : (value : ℕ) → value < 2 ^ 64 → from_le_bytes (le_bytes 8 value) ≡ value
u64_back value h = from_le_bytes-le_bytes 8 value h
