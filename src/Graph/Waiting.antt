-- ===== src/Graph/Waiting.antt =====
-- The loop that waits for a buffer: it ends, by the clock, and it takes the first buffer that is offered.
use podbay_camera_firmware.Prelude.{
  ℕ, zero, suc, ◌+◌, ◌-◌, ◌*◌, ◌/◌, ◌≤◌, ◌<◌, ◌≡◌, ap, ◌≢◌, inl, inr, refl, Bool-cases, ==_iff,
  ◌==◌, leb, arith, Result, ok, err, frame_timeout, false,
}
use podbay_camera_firmware.Graph.{Mi, Buffer}
use podbay_camera_firmware.Graph.Frames.{poll, poll_pause, wait_buffer, nanoseconds}

add_two : (n : ℕ) → n + 2 ≡ suc (n + 1)
add_two n = omega arith

-- The documented behaviour of the clock: it does not run backwards across a call for a buffer, and a
-- pause takes at least its time.
pub record Clock (sdk : Mi) : Type 0 where
  pub call_takes : (s : sdk.State) → sdk.now s ≤ sdk.now (sdk.get_buf s).1
  pub pause_takes : (d : ℕ) (s : sdk.State) → sdk.now s + d ≤ sdk.now (sdk.pause d s)

module _ (sdk : Mi) where
  -- A wait ends with a buffer that the SDK has handed out, or with an error of the SDK once the timeout
  -- is over.
  pub data Waited (start timeout : ℕ) (p : Result Buffer × sdk.State) : Type 0 where
    taken :
        (buffer : Buffer) (t : sdk.State)
        → (sdk.get_buf t).0 ≡ (0, buffer)
        → p ≡ (ok buffer, (sdk.get_buf t).1)
        → Waited start timeout p
    late :
        (result : ℕ) (t : sdk.State)
        → result ≢ 0
        → start + timeout ≤ sdk.now t
        → p ≡ (err (frame_timeout result), t)
        → Waited start timeout p

  -- The first round, with what the rounds after it are known to do.
  round :
      (fuel start timeout : ℕ) (s : sdk.State)
      → start ≤ sdk.now (sdk.get_buf s).1
      → (leb timeout (sdk.now (sdk.get_buf s).1 - start) ≡ false
          → Waited start timeout
              (poll sdk fuel start timeout (sdk.pause poll_pause (sdk.get_buf s).1)))
      → Waited start timeout (poll sdk (suc fuel) start timeout s)
  unfolding poll
  round fuel start timeout s begun rest =
      let ((result, buffer), t) = sdk.get_buf s in
      elim (Bool-cases (result == 0)) [
        | inl got ↦ rw got (taken buffer s (ap (λ r. (r, buffer)) ((==_iff _ _).0 got)) refl)
        | inr missed ↦ elim (Bool-cases (leb timeout (sdk.now t - start))) [
          | inl over ↦ rw (missed, over) (late result t (ground arith) (ground arith) refl)
          | inr early ↦ rw (missed, early) (rest early)
        ]
      ]

  module _ (clock : Clock sdk) where
    poll-Waited :
        (fuel start timeout : ℕ) (s : sdk.State)
        → start ≤ sdk.now s
        → start + timeout ≤ sdk.now s + fuel * poll_pause
        → Waited start timeout (poll sdk (suc fuel) start timeout s)
    poll-Waited zero start timeout s begun enough =
        let later = clock.call_takes s in
        round zero start timeout s (omega arith) (λ early. absurd (ground arith))
    poll-Waited (suc fuel) start timeout s begun enough =
        let t = (sdk.get_buf s).1 in
        let later = clock.call_takes s in
        let paused = clock.pause_takes poll_pause t in
        round (suc fuel) start timeout s (omega arith) (λ early.
          poll-Waited fuel start timeout (sdk.pause poll_pause t) (omega arith) (omega arith))

    -- By a clock that does not run backwards and on which a pause takes its time, every wait for a
    -- buffer ends within its fuel: it returns a buffer that the SDK handed out, or the SDK's error once
    -- the timeout has passed, never earlier.
    pub wait_buffer-Waited :
        (milliseconds : ℕ) (s : sdk.State)
        → Waited (sdk.now s) (nanoseconds milliseconds) (wait_buffer sdk milliseconds s)
    unfolding wait_buffer
    wait_buffer-Waited milliseconds s = rw (add_two (milliseconds / 2)) (
        poll-Waited (milliseconds / 2 + 1) (sdk.now s) (nanoseconds milliseconds) s (omega arith)
          (omega arith))

  -- The state after a number of rounds that got no buffer.
  abbrev pub polled : ℕ → sdk.State → sdk.State
  polled zero s = s
  polled (suc n) s = polled n (sdk.pause poll_pause (sdk.get_buf s).1)

  poll_delivers :
      (k fuel start timeout : ℕ) (s : sdk.State) (buffer : Buffer)
      → k < fuel
      → ((i : ℕ)
          → i < k
          → ((sdk.get_buf (polled i s)).0.0 ≢ 0)
            × (sdk.now (sdk.get_buf (polled i s)).1 - start < timeout))
      → (sdk.get_buf (polled k s)).0 ≡ (0, buffer)
      → poll sdk fuel start timeout s ≡ (ok buffer, (sdk.get_buf (polled k s)).1)
  unfolding poll
  poll_delivers k zero start timeout s buffer enough misses got = absurd (omega arith)
  poll_delivers zero (suc fuel) start timeout s buffer enough misses got = rw got refl
  poll_delivers (suc k) (suc fuel) start timeout s buffer enough misses got =
      let (refused, early) = misses 0 (omega arith) in
      let missed : ((sdk.get_buf s).0.0 == 0) ≡ false = ground arith in
      let waits : leb timeout (sdk.now (sdk.get_buf s).1 - start) ≡ false = ground arith in
      rw (missed, waits)
        (poll_delivers k fuel start timeout (sdk.pause poll_pause (sdk.get_buf s).1) buffer
          (omega arith) (λ i h. misses (suc i) (omega arith)) got)

  module _ (clock : Clock sdk) where
    polled_takes : (k : ℕ) (s : sdk.State) → sdk.now s + k * poll_pause ≤ sdk.now (polled k s)
    polled_takes zero s = omega arith
    polled_takes (suc k) s =
        let t = (sdk.get_buf s).1 in
        omega (
          arith,
          clock.call_takes s,
          clock.pause_takes poll_pause t,
          polled_takes k (sdk.pause poll_pause t),
        )

    fuel_suffices :
        (k milliseconds : ℕ) (s : sdk.State)
        → ((i : ℕ)
            → i < k
            → sdk.now (sdk.get_buf (polled i s)).1 - sdk.now s < nanoseconds milliseconds)
        → k < milliseconds / 2 + 2
    fuel_suffices zero milliseconds s early = omega arith
    fuel_suffices (suc k) milliseconds s early =
        omega (arith, early k (omega arith), polled_takes k s, clock.call_takes (polled k s))

    -- By a clock that does not run backwards and on which a pause takes its time: where the SDK refuses
    -- any number of calls for a buffer, each before the timeout has passed, and then hands one out, that
    -- buffer is returned, after no call but those.
    pub wait_buffer_delivers :
        (k milliseconds : ℕ) (s : sdk.State) (buffer : Buffer)
        → ((i : ℕ) → i < k → (sdk.get_buf (polled i s)).0.0 ≢ 0)
        → ((i : ℕ)
            → i < k
            → sdk.now (sdk.get_buf (polled i s)).1 - sdk.now s < nanoseconds milliseconds)
        → (sdk.get_buf (polled k s)).0 ≡ (0, buffer)
        → wait_buffer sdk milliseconds s ≡ (ok buffer, (sdk.get_buf (polled k s)).1)
    unfolding wait_buffer
    wait_buffer_delivers k milliseconds s buffer refused early got =
        poll_delivers k (milliseconds / 2 + 2) (sdk.now s) (nanoseconds milliseconds) s buffer
          (fuel_suffices k milliseconds s early) (λ i h. (refused i h, early i h)) got
