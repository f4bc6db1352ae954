-- ===== src/Control/Steps.antt =====
-- What the steps of a command keep, whatever the property.
use podbay_camera_firmware.Prelude.{refl, inl, inr, Result, ok, err}
use podbay_camera_firmware.Device.{M, I2c}
use podbay_camera_firmware.Device.Runs.{ends, Runs, Keeps, Runs-pure}
use podbay_camera_firmware.Vcm.{I2cRdwr}
use podbay_camera_firmware.Control.{Control, Response, refused}
use podbay_camera_firmware.Control.Handlers.{Shared, on_sensor, update, answer, parsed}

module _ (lens : I2cRdwr) (bus : I2c) where
  pub answer-Keeps :
      {A : Type 0} {P : Shared lens bus → Type 0} (f : A → Response) {m : M (Shared lens bus) A}
      → Keeps P m
      → Keeps P (answer lens bus f m)
  unfolding answer
  answer-Keeps f {m} inner = record {
    done = λ w a p r. elim (ends (m w)) [
      | inl (b, s, e) ↦ rw e (rw e at (inner.done w b p (rw e refl)))
      | inr (x, s, e) ↦ rw e (rw e at (inner.failed w x p (rw e refl)))
    ];
    failed = λ w x p r. elim (ends (m w)) [
      | inl (b, s, e) ↦ rw e (rw e at (inner.done w b p (rw e refl)))
      | inr (y, s, e) ↦ rw e (rw e at (inner.failed w y p (rw e refl)))
    ];
  }

  pub on_sensor-Keeps :
      {A : Type 0} (P : Control → Type 0) (m : M bus.State A)
      → Keeps (λ (w : Shared lens bus). P w.0) (on_sensor lens bus m)
  unfolding on_sensor
  on_sensor-Keeps P m = record { done = λ w a p r. p; failed = λ w e p r. p }

  pub update-Runs :
      (P Q : Control → Type 0) (f : Control → Control)
      → ((k : Control) → P k → Q (f k))
      → Runs (λ (w : Shared lens bus). P w.0) (λ w. Q w.0) (λ w. P w.0) (update lens bus f)
  unfolding update
  update-Runs P Q f step = record { done = λ w a p r. step w.0 p; failed = λ w e p r. cc }

  pub parsed-Keeps :
      {A : Type 0} {P : Shared lens bus → Type 0} (r : Result A)
      {f : A → M (Shared lens bus) Response}
      → ((a : A) → Keeps P (f a))
      → Keeps P (parsed lens bus r f)
  unfolding parsed
  parsed-Keeps (ok a) each = each a
  parsed-Keeps (err e) each = Runs-pure (refused e)
