-- ===== src/Vcm/Focus.antt =====
-- What a move of the lens leaves behind, and what the status says of it afterwards.
use podbay_camera_firmware.Prelude.{
  ℕ, ◌+◌, ◌*◌, ◌/◌, ◌≤◌, ◌≡◌, ◌↔◌, ◌⊎◌, inl, inr, refl, true, false, Bool-cases, ltb, Option, none,
  some, arith, ◌-◌, ◌==◌, ◌&&◌, abs_diff, Result, ok, err, Error,
}
use podbay_camera_firmware.Vcm.{
  Vcm, FocusStatus, I2cRdwr, moved, remaining, status_of, vcm_settle_duration, attempted, or_last,
  first_of, on_bus, try, update_vcm, last_or, read_position, write_position, set_position, report,
  focus_status,
}
use podbay_camera_firmware.Vcm.Registers.{
  PositionFile, position_of, read_position_lem, write_position_lem,
}

-- The two ways that a call ends.
outcome :
    {S A : Type 0} (p : Result A × S)
    → ((a : A) × (s : S) × (p ≡ (ok a, s))) ⊎ ((e : Error) × (s : S) × (p ≡ (err e, s)))
outcome (ok a, s) = inl (a, s, refl)
outcome (err e, s) = inr (e, s, refl)

within : {position : ℕ} → ltb 1023 position ≡ false → position ≤ 1023
within small = ground arith

settled_iff :
    (due later position : ℕ)
    → (((due - later == 0) && (position == position)) ≡ true) ↔ (due ≤ later)
settled_iff due later position = ground arith

-- A move that is reported failed has changed no field, one that is reported done has.
abbrev pub Commits : {S : Type 0} → Vcm → ℕ → ℕ → Result ℕ × (Vcm × S) → Type 0
Commits vcm position now p =
    ((e : Error) → p.0 ≡ err e → p.1.0 ≡ vcm)
    × ((readback : ℕ)
        → p.0 ≡ ok readback
        → (position ≤ 1023) × (from : ℕ) × (p.1.0 ≡ moved from position now vcm))

module _ (bus : I2cRdwr) where
  open bus use {State}

  -- Asking for the position touches no field, and never fails.
  reading :
      (vcm : Vcm) (s : State)
      → (r : Option ℕ) × (s' : State) × (try bus (on_bus bus (read_position bus)) (vcm, s)
          ≡ (ok r, (vcm, s')))
  unfolding try on_bus attempted
  reading vcm s = elim (outcome (read_position bus s)) [
    | inl (p, s', e) ↦ (some p, s', rw e refl)
    | inr (f, s', e) ↦ (none, s', rw e refl)
  ]

  -- On any bus, a move that fails leaves the fields of the actuator as they were; a move that succeeds
  -- has a target of at most 1023, and makes the fields those of a move to it.
  pub set_position-Commits :
      (vcm : Vcm) (position now : ℕ) (s : State)
      → Commits vcm position now (set_position bus position now (vcm, s))
  unfolding set_position try on_bus attempted last_or update_vcm
  set_position-Commits vcm position now s = elim (Bool-cases (ltb 1023 position)) [
    | inl big ↦ rw big ((λ e h. refl), (λ p h. cc))
    | inr small ↦
        let (r, s₁, read) = reading vcm s in
        let from = first_of r vcm.last_position position in
        elim (outcome (write_position bus position s₁)) [
          | inl (_, s₂, done) ↦
              let (after, s₃, again) = reading (moved from position now vcm) s₂ in
              rw (small, read, done, again) ((λ e h. cc), (λ p h. (within small, from, refl)))
          | inr (f, s₂, failed) ↦ rw (small, read, failed) ((λ e h. refl), (λ p h. cc))
        ]
  ]

module _ (bus : I2cRdwr) (file : PositionFile bus) where
  open bus use {State}
  open file use {content}

  -- On an actuator that keeps its registers, a move to at most 1023 succeeds, reads the target back and
  -- leaves the registers at it; the fields are those of a move from where the lens was read before.
  pub set_position-reads_back :
      (vcm : Vcm) (position now : ℕ) (s : State)
      → position ≤ 1023
      → (s' : State) × (set_position bus position now (vcm, s)
          ≡ (ok position, (moved (position_of (content s)) position now vcm, s')))
        × (position_of (content s') ≡ position)
  unfolding set_position try on_bus attempted last_or update_vcm first_of
  set_position-reads_back vcm position now s h =
      let small : ltb 1023 position ≡ false = ground arith in
      let (s₁, read, same) = read_position_lem bus file s in
      let (s₂, done, there) = write_position_lem bus file position s₁ h in
      let (s₃, again, still) = read_position_lem bus file s₂ in
      (s₃, rw (small, read, done, again, there) refl, rw still there)

  -- On an actuator that keeps its registers, the status after a move to at most 1023 succeeds with
  -- that target as the position read back, and calls the lens settled exactly from 250 ms, and one
  -- more for each four steps from the position read before, after the move.
  pub focus_status_after_move :
      (vcm : Vcm) (position now later : ℕ) (s : State)
      → position ≤ 1023
      → (status : FocusStatus) × (s' : State) × ((focus_status bus later
            (set_position bus position now (vcm, s)).1).0
          ≡ ok status)
        × (status.target ≡ position)
        × (status.readback ≡ position)
        × ((status.settled ≡ true)
            ↔ (now + (250 + abs_diff (position_of (content s)) position / 4) * 1_000_000 ≤ later))
  unfolding focus_status report or_last status_of remaining moved vcm_settle_duration
  focus_status_after_move vcm position now later s h =
      let (s₁, moves, there) = set_position-reads_back vcm position now s h in
      let (s₂, read, same) = read_position_lem bus file s₁ in
      let due = now + (250 + abs_diff (position_of (content s)) position / 4) * 1_000_000 in
      rw (moves, read, there)
        (
          status_of (moved (position_of (content s)) position now vcm) position later,
          s₂,
          refl,
          refl,
          refl,
          settled_iff due later position,
        )
