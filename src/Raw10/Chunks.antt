-- ===== src/Raw10/Chunks.antt =====
-- What a loop collects: chunks of one length, found again at their places.
use podbay_camera_firmware.Prelude.{
  ℕ, zero, suc, ◌+◌, ◌*◌, ◌≤◌, ◌<◌, ◌≡◌, refl, ◌∙◌, List, [], ◌++◌, length, length-append, arith,
  Result, ok,
}
use podbay_camera_firmware.Raw10.{slice, collect}
use podbay_camera_firmware.Raw10.Slices.{slice-append_left, slice-append_right}

-- The chunks `start..start + n`, put together.
unfoldable pub chunks : ℕ → ℕ → (ℕ → List ℕ) → List ℕ
chunks zero start chunk = []
chunks (suc n) start chunk = chunk start ++ chunks n (suc start) chunk

-- A loop none of whose rounds fails.
pub collect-chunks :
    (n start : ℕ) (round : ℕ → Result (List ℕ)) (chunk : ℕ → List ℕ)
    → ((k : ℕ) → start ≤ k → k < start + n → round k ≡ ok (chunk k))
    → collect n start round ≡ ok (chunks n start chunk)
unfolding collect chunks
collect-chunks zero start round chunk h = refl
collect-chunks (suc n) start round chunk h =
    let first = h start (omega arith) (omega arith) in
    let rest =
      collect-chunks n (suc start) round chunk (λ k p q. h k (omega arith) (omega arith)) in
    rw (first, rest)

module _ (size : ℕ) (chunk : ℕ → List ℕ) where
  pub length-chunks :
      (n start : ℕ)
      → ((k : ℕ) → start ≤ k → k < start + n → length (chunk k) ≡ size)
      → length (chunks n start chunk) ≡ n * size
  unfolding chunks
  length-chunks zero start h = omega arith
  length-chunks (suc n) start h = omega (
    arith,
    length-append (chunk start) (chunks n (suc start) chunk),
    h start (omega arith) (omega arith),
    length-chunks n (suc start) (λ k p q. h k (omega arith) (omega arith)),
  )

  -- A slice that lies inside the k-th chunk is a slice of that chunk.
  pub slice-chunks :
      (n start k a c : ℕ)
      → ((k : ℕ) → start ≤ k → k < start + n → length (chunk k) ≡ size)
      → k < n
      → a + c ≤ size
      → slice (chunks n start chunk) (k * size + a) c ≡ slice (chunk (start + k)) a c
  unfolding chunks
  slice-chunks zero start k a c h p q = absurd (omega arith)
  slice-chunks (suc n) start zero a c h p q =
      let e : 0 * size + a ≡ a = omega arith in
      let here : start + 0 ≡ start = omega arith in
      let whole = h start (omega arith) (omega arith) in
      rw (e, here) (slice-append_left (chunk start) (chunks n (suc start) chunk) a c (omega arith))
  slice-chunks (suc n) start (suc k) a c h p q =
      let whole = h start (omega arith) (omega arith) in
      let e : suc k * size + a ≡ length (chunk start) + (k * size + a) = omega arith in
      let there : start + suc k ≡ suc start + k = omega arith in
      rw (e, there)
        (slice-append_right (chunk start) (chunks n (suc start) chunk) (k * size + a) c
          ∙ slice-chunks n (suc start) k a c (λ j r s. h j (omega arith) (omega arith))
              (omega arith) q)
