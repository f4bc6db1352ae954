-- ===== src/Text.antt =====
-- Texts as camera-service/src/main.rs reads them: a `str` is the list of its characters' codes.
mod Lists
mod Codes
pub use Codes.{codes}
use podbay_camera_firmware.Prelude.{
  ℕ, ◌+◌, ◌-◌, ◌*◌, ◌==◌, Bool, true, false, ◌&&◌, ◌||◌, Option, none, some, List, [], ◌∷◌, ◌++◌,
  ltb, leb, if◌then◌else◌, Result, ok, err, ◌>>=◌, fail_if, ◌>>◌, invalid_number,
}

abbrev pub Text : Type 0
Text = List ℕ

-- `to_ascii_lowercase`
abbrev pub lower : ℕ → ℕ
lower c = if leb 65 c && leb c 90 then c + 32 else c

unfoldable pub eq_ignore_ascii_case : Text → Text → Bool
eq_ignore_ascii_case [] [] = true
eq_ignore_ascii_case [] (b ∷ bs) = false
eq_ignore_ascii_case (a ∷ as_) [] = false
eq_ignore_ascii_case (a ∷ as_) (b ∷ bs) = lower a == lower b && eq_ignore_ascii_case as_ bs

-- `char::is_whitespace`, the White_Space property of Unicode.
unfoldable pub is_whitespace : ℕ → Bool
is_whitespace c =
    (leb 9 c && leb c 13)
    || c == 32
    || c == 0x85
    || c == 0xa0
    || c == 0x1680
    || (leb 0x2000 c && leb c 0x200a)
    || c == 0x2028
    || c == 0x2029
    || c == 0x202f
    || c == 0x205f
    || c == 0x3000

-- The word that has been read so far is kept back to front.
abbrev backwards : Text → Text → Text
backwards [] rest = rest
backwards (c ∷ cs) rest = backwards cs (c ∷ rest)

abbrev with_word : Text → List Text → List Text
with_word [] words = words
with_word (c ∷ cs) words = backwards (c ∷ cs) [] ∷ words

unfoldable pub words_from : Text → Text → List Text
words_from word [] = with_word word []
words_from word (c ∷ cs) =
    let next = words_from [] cs in
    let more = words_from (c ∷ word) cs in if is_whitespace c then with_word word next else more

unfoldable pub split_whitespace : Text → List Text
split_whitespace text = words_from [] text

-- The decimal digits of a number after those read.
unfoldable pub digits : ℕ → Text → Result ℕ
digits n [] = ok n
digits n (c ∷ cs) =
    let rest = digits (n * 10 + (c - 48)) cs in
    if leb 48 c && leb c 57 then rest else err invalid_number

-- At least one digit, and a number that the type holds.
unfoldable pub magnitude : ℕ → Text → Result ℕ
magnitude maximum [] = err invalid_number
magnitude maximum (c ∷ cs) = do n ← digits 0 (c ∷ cs); fail_if (ltb maximum n) invalid_number; ok n

-- `parse::<uN>`, which takes a plus sign.
unfoldable pub parse_unsigned : ℕ → Text → Result ℕ
parse_unsigned maximum [] = err invalid_number
parse_unsigned maximum (c ∷ cs) =
    if c == 43 then magnitude maximum cs else magnitude maximum (c ∷ cs)

-- A signed number: whether it has a minus sign, and its absolute value.
abbrev pub Signed : Type 0
Signed = Bool × ℕ

abbrev signed : Bool → Result ℕ → Result Signed
signed minus (ok n) = ok (minus, n)
signed minus (err e) = err e

-- `parse::<iN>` of a type from `- minimum` to `maximum`.
unfoldable pub parse_signed : ℕ → ℕ → Text → Result Signed
parse_signed minimum maximum [] = err invalid_number
parse_signed minimum maximum (c ∷ cs) =
    if c == 45
    then signed true (magnitude minimum cs)
    else signed false (parse_unsigned maximum (c ∷ cs))
