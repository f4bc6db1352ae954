-- ===== src/Bytes.antt =====
-- Byte strings of camera-service/src/main.rs: little-endian words, and the helpers that read and
-- write them at an offset.
pub mod Words
use podbay_camera_firmware.Prelude.{ℕ, zero, suc, ◌+◌, ◌*◌, ◌/◌, ◌%◌, List, [], ◌∷◌, set, get_or}

-- `value.to_le_bytes()` of a word of n bytes, for a value that fits it.
abbrev pub le_bytes : ℕ → ℕ → List ℕ
le_bytes zero value = []
le_bytes (suc n) value = value % 256 ∷ le_bytes n (value / 256)

-- `from_le_bytes`
abbrev pub from_le_bytes : List ℕ → ℕ
from_le_bytes [] = 0
from_le_bytes (b ∷ bs) = b + 256 * from_le_bytes bs

-- `bytes[offset..].copy_from_slice(source)`. The callers stay inside a packet of fixed size; the
-- source panics on a range that does not fit.
abbrev pub copy_at : List ℕ → ℕ → List ℕ → List ℕ
copy_at bytes offset [] = bytes
copy_at bytes offset (b ∷ bs) = copy_at (set bytes offset b) (suc offset) bs

unfoldable pub put_u16 : List ℕ → ℕ → ℕ → List ℕ
put_u16 bytes offset value = copy_at bytes offset (le_bytes 2 value)

unfoldable pub put_u32 : List ℕ → ℕ → ℕ → List ℕ
put_u32 bytes offset value = copy_at bytes offset (le_bytes 4 value)

unfoldable pub put_u64 : List ℕ → ℕ → ℕ → List ℕ
put_u64 bytes offset value = copy_at bytes offset (le_bytes 8 value)

-- A read out of range panics in the source.
unfoldable pub read_u16 : List ℕ → ℕ → ℕ
read_u16 bytes offset = from_le_bytes (get_or bytes offset 0 ∷ get_or bytes (offset + 1) 0 ∷ [])

unfoldable pub read_u32 : List ℕ → ℕ → ℕ
read_u32 bytes offset = from_le_bytes (
    get_or bytes offset 0
    ∷ get_or bytes (offset + 1) 0
    ∷ get_or bytes (offset + 2) 0
    ∷ get_or bytes (offset + 3) 0
    ∷ [])
