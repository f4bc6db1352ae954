-- ===== src/Sensor/Registers.antt =====
-- The IMX582 as a file of registers: what a table of writes leaves in them, and what an attestation
-- finds.
use podbay_camera_firmware.Prelude.{
  ℕ, ◌+◌, ◌*◌, ◌<◌, ◌≡◌, refl, ap, ◌∙◌, false, not, List, [], ◌∷◌, ◌==◌, if◌then◌else◌, arith, ok,
  Bool-cases, inl, inr, ==_iff,
}
use mathlib.Core.Path.{fun_ext}
use podbay_camera_firmware.Device.{continue, I2c}
use podbay_camera_firmware.Sensor.{high, low}
use podbay_camera_firmware.Sensor.Driver.{write_register, read_register, write_all, attest}

abbrev pub update : (ℕ → ℕ) → ℕ → ℕ → ℕ → ℕ
update registers register value r = if r == register then value else registers r

-- The documented behaviour of the sensor on the bus, while no transfer fails: a message of three bytes
-- sets the register that the first two name, one of two bytes selects a register for the next read,
-- and a read changes none.
pub record RegisterFile (bus : I2c) : Type 0 where
  pub content : bus.State → ℕ → ℕ
  pub after_write : ℕ → ℕ → ℕ → bus.State → bus.State
  pub after_read : ℕ → ℕ → bus.State → bus.State
  pub write_ok :
      (h l v : ℕ) (s : bus.State) → bus.send (h ∷ l ∷ v ∷ []) s ≡ (ok tt, after_write h l v s)
  pub write_sets :
      (h l v : ℕ) (s : bus.State) (r : ℕ)
      → content (after_write h l v s) r ≡ update (content s) (h * 256 + l) v r
  pub read_ok :
      (h l : ℕ) (s : bus.State)
      → continue (λ _. bus.receive) (bus.send (h ∷ l ∷ []) s)
        ≡ (ok (content s (h * 256 + l)), after_read h l s)
  pub read_keeps : (h l : ℕ) (s : bus.State) (r : ℕ) → content (after_read h l s) r ≡ content s r

-- What a table leaves in the registers.
abbrev pub assign : List (ℕ × ℕ) → (ℕ → ℕ) → ℕ → ℕ
assign [] registers = registers
assign ((register, value) ∷ rest) registers = assign rest (update registers register value)

-- Every register of a table has an address of sixteen bits.
abbrev pub AllWords : List (ℕ × ℕ) → Type 0
AllWords [] = Unit {0}
AllWords ((register, value) ∷ rest) = (register < 65536) × AllWords rest

-- The registers hold the values of a table.
abbrev pub Holds : List (ℕ × ℕ) → (ℕ → ℕ) → Type 0
Holds [] registers = Unit {0}
Holds ((register, value) ∷ rest) registers = (registers register ≡ value) × Holds rest registers

address : (r : ℕ) → r < 65536 → high r * 256 + low r ≡ r
address r h = omega arith

module _ (bus : I2c) (file : RegisterFile bus) where
  open bus use {State}
  open file use {content, after_write, after_read, write_ok, write_sets, read_ok, read_keeps}

  pub write_register_lem :
      (r v : ℕ) (s : State)
      → r < 65536
      → (s' : State) × (write_register bus r v s ≡ (ok tt, s'))
        × (content s' ≡ update (content s) r v)
  unfolding write_register
  write_register_lem r v s h = (
    after_write (high r) (low r) v s,
    write_ok (high r) (low r) v s,
    rw (address r h) at (fun_ext (write_sets (high r) (low r) v s)),
  )

  pub write_all_lem :
      (table : List (ℕ × ℕ)) (s : State)
      → AllWords table
      → (s' : State) × (write_all bus table s ≡ (ok tt, s'))
        × (content s' ≡ assign table (content s))
  unfolding write_all
  write_all_lem [] s h = (s, refl, refl)
  write_all_lem ((r, v) ∷ rest) s h =
      let (t, done, set) = write_register_lem r v s h.0 in
      let (u, finished, result) = write_all_lem rest t h.1 in
      (u, rw (done, finished), result ∙ ap (assign rest) set)

  read_register_lem :
      (r : ℕ) (s : State)
      → r < 65536
      → (s' : State) × (read_register bus r s ≡ (ok (content s r), s')) × (content s' ≡ content s)
  unfolding read_register
  read_register_lem r s h = (
    after_read (high r) (low r) s,
    rw (address r h) at (read_ok (high r) (low r) s),
    fun_ext (read_keeps (high r) (low r) s),
  )

  pub attest_lem :
      (table : List (ℕ × ℕ)) (s : State)
      → AllWords table
      → Holds table (content s)
      → (s' : State) × (attest bus table s ≡ (ok tt, s')) × (content s' ≡ content s)
  unfolding attest
  attest_lem [] s h k = (s, refl, refl)
  attest_lem ((r, v) ∷ rest) s h k =
      let (t, read, same) = read_register_lem r s h.0 in
      let found = rw (← same) at k.1 in
      let (u, finished, result) = attest_lem rest t h.1 found in
      let equal : not (content s r == v) ≡ false = let e = k.0 in ground arith in
      (u, rw (read, equal) finished, result ∙ same)

  -- An attestation succeeds only on registers that hold the table.
  pub attest-Holds :
      (table : List (ℕ × ℕ)) (s : State)
      → AllWords table
      → (attest bus table s).0 ≡ ok tt
      → Holds table (content s)
  unfolding attest
  attest-Holds [] s h e = tt
  attest-Holds ((r, v) ∷ rest) s h e =
      let (t, read, same) = read_register_lem r s h.0 in
      let found = rw read at e in
      elim (Bool-cases (content s r == v)) [
        | inl p ↦
            let rest_ok = rw p at found in
            ((==_iff _ _).0 p, rw same at (attest-Holds rest t h.1 rest_ok))
        | inr p ↦ let failed = rw p at found in cc
      ]
