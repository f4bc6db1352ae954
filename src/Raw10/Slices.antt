-- ===== src/Raw10/Slices.antt =====
-- Slices of byte strings: of parts, and of strings put together.
use podbay_camera_firmware.Prelude.{
  ℕ, zero, suc, ◌+◌, ◌≤◌, ◌≡◌, refl, ap, sym, ◌∙◌, List, [], ◌∷◌, ◌++◌, length, take, drop,
  length-append, length-take, length-drop, arith, ok,
}
use podbay_camera_firmware.Raw10.{slice}

pub drop-drop : (m n : ℕ) (xs : List ℕ) → drop n (drop m xs) ≡ drop (m + n) xs
drop-drop zero n xs = let e : 0 + n ≡ n = omega arith in rw e
drop-drop (suc m) zero [] = let e : suc m + 0 ≡ suc m = omega arith in rw e
drop-drop (suc m) (suc n) [] = let e : suc m + suc n ≡ suc (m + suc n) = omega arith in rw e
drop-drop (suc m) n (x ∷ xs) =
    let e : suc m + n ≡ suc (m + n) = omega arith in rw e (drop-drop m n xs)

take-take : (m n : ℕ) (xs : List ℕ) → n ≤ m → take n (take m xs) ≡ take n xs
take-take m zero xs h = refl
take-take zero (suc n) xs h = absurd (omega arith)
take-take (suc m) (suc n) [] h = refl
take-take (suc m) (suc n) (x ∷ xs) h = ap (λ r. x ∷ r) (take-take m n xs (omega arith))

take-drop-take :
    (a n m : ℕ) (xs : List ℕ) → a + n ≤ m → take n (drop a (take m xs)) ≡ take n (drop a xs)
take-drop-take zero n m xs h = take-take m n xs (omega arith)
take-drop-take (suc a) n zero xs h = absurd (omega arith)
take-drop-take (suc a) n (suc m) [] h = refl
take-drop-take (suc a) n (suc m) (x ∷ xs) h = take-drop-take a n m xs (omega arith)

-- A slice inside the bounds.
pub slice_ok :
    (bytes : List ℕ) (start count : ℕ)
    → start + count ≤ length bytes
    → slice bytes start count ≡ ok (take count (drop start bytes))
unfolding slice
slice_ok bytes start count h = ground arith

-- A slice of a part that lies inside is a slice of the whole.
pub slice-take-drop :
    (bytes : List ℕ) (s m a n : ℕ)
    → s + m ≤ length bytes
    → a + n ≤ m
    → slice (take m (drop s bytes)) a n ≡ slice bytes (s + a) n
slice-take-drop bytes s m a n h k =
    let fits : a + n ≤ length (take m (drop s bytes)) =
      omega (arith, length-take m (drop s bytes), length-drop s bytes) in
    slice_ok _ a n fits
    ∙ (ap ok (take-drop-take a n m (drop s bytes) k ∙ ap (take n) (drop-drop s a bytes))
        ∙ sym (slice_ok bytes (s + a) n (omega arith)))

take-append : (n : ℕ) (xs ys : List ℕ) → n ≤ length xs → take n (xs ++ ys) ≡ take n xs
take-append zero xs ys h = refl
take-append (suc n) [] ys h = absurd (omega arith)
take-append (suc n) (x ∷ xs) ys h = ap (λ r. x ∷ r) (take-append n xs ys (omega arith))

take-drop-append :
    (s n : ℕ) (xs ys : List ℕ) → s + n ≤ length xs → take n (drop s (xs ++ ys)) ≡ take n (drop s xs)
take-drop-append zero n xs ys h = take-append n xs ys (omega arith)
take-drop-append (suc s) n [] ys h = absurd (omega arith)
take-drop-append (suc s) n (x ∷ xs) ys h = take-drop-append s n xs ys (omega arith)

drop-append : (s : ℕ) (xs ys : List ℕ) → drop (length xs + s) (xs ++ ys) ≡ drop s ys
drop-append s [] ys = let e : 0 + s ≡ s = omega arith in rw e
drop-append s (x ∷ xs) ys =
    let e : suc (length xs) + s ≡ suc (length xs + s) = omega arith in rw e (drop-append s xs ys)

-- Slices of the front and of the back of two strings in a row.
pub slice-append_left :
    (xs ys : List ℕ) (s n : ℕ) → s + n ≤ length xs → slice (xs ++ ys) s n ≡ slice xs s n
slice-append_left xs ys s n h =
    slice_ok (xs ++ ys) s n (omega (arith, length-append xs ys))
    ∙ (ap ok (take-drop-append s n xs ys h) ∙ sym (slice_ok xs s n h))

pub slice-append_right :
    (xs ys : List ℕ) (s n : ℕ) → slice (xs ++ ys) (length xs + s) n ≡ slice ys s n
unfolding slice
slice-append_right xs ys s n = ground (arith, length-append xs ys, drop-append s xs ys)
