-- ===== src/Graph/Effects.antt =====
-- What the steps of the pipeline do to the fields of the graph when they succeed.
use podbay_camera_firmware.Prelude.{
  ℕ, ◌≡◌, refl, ap, ◌∙◌, Bool, false, Bool-cases, inl, inr, Option, none, some, Result, ok, err,
  and_result,
}
use podbay_camera_firmware.Device.{M, ◌>>=◌, ◌>>◌, I2c}
use podbay_camera_firmware.Device.Runs.{ends}
use podbay_camera_firmware.Graph.Frames.{after_put}
use podbay_camera_firmware.Config.{Config, geometry_of}
use podbay_camera_firmware.Sensor.Driver.{prepare_geometry_live}
use podbay_camera_firmware.Graph.{MiCall, Mi, Graph, close_fd, mi}
use podbay_camera_firmware.Graph.Pipeline.{
  World, mi_call, ignored, assign, when, close_output, close_descriptor, take_descriptor,
  valid_descriptor, retarget, on_bus, open_sensor_only,
}

pub after_put_ok :
    {A : Type 0} (put : Result (Unit {0})) (r : Result A) (a : A)
    → after_put put r ≡ ok a
    → r ≡ ok a
after_put_ok (ok _) r a h = h
after_put_ok (err e) r a h = cc

-- A step that, when it succeeds, changes the graph by a function.
pub record Takes {W A : Type 0} (m : M (Graph × W) A) (f : Graph → Graph) : Type 0 where
  pub takes : (w : Graph × W) (a : A) → (m w).0 ≡ ok a → (m w).1.0 ≡ f w.0

-- One that also stores a descriptor.
pub record Stores {W : Type 0} (m : M (Graph × W) (Unit {0})) (f : ℕ → Graph → Graph) : Type 0 where
  pub stores : (w : Graph × W) → (m w).0 ≡ ok tt → (fd : ℕ) × ((m w).1.0 ≡ f fd w.0)

pub Takes->>= :
    {W A B : Type 0} {m : M (Graph × W) A} {k : A → M (Graph × W) B} {f h : Graph → Graph}
    → Takes m f
    → ((a : A) → Takes (k a) h)
    → Takes (m >>= k) (λ g. h (f g))
Takes->>= {m = m} {k} {f} {h} first second = record {
  takes = λ w b done. elim (ends (m w)) [
    | inl (a, w', e) ↦
        let changed = first.takes w a (rw e refl) in
        let last = (second a).takes w' b (rw e at done) in rw e (last ∙ ap h (rw e at changed))
    | inr (x, w', e) ↦ let failed = rw e at done in cc
  ];
}

pub Stores->>= :
    {W A : Type 0} {m : M (Graph × W) A} {k : A → M (Graph × W) (Unit {0})} {f : Graph → Graph}
    {h : ℕ → Graph → Graph}
    → Takes m f
    → ((a : A) → Stores (k a) h)
    → Stores (m >>= k) (λ fd g. h fd (f g))
Stores->>= {m = m} {k} {f} {h} first second = record {
  stores = λ w done. elim (ends (m w)) [
    | inl (a, w', e) ↦
        let changed = first.takes w a (rw e refl) in
        let (fd, last) = (second a).stores w' (rw e at done) in
        (fd, rw e (last ∙ ap (h fd) (rw e at changed)))
    | inr (x, w', e) ↦ let failed = rw e at done in cc
  ];
}

-- A descriptor is stored, and the graph is left alone from there on.
pub Stores->> :
    {W : Type 0} {m : M (Graph × W) (Unit {0})} {k : M (Graph × W) (Unit {0})}
    {f : ℕ → Graph → Graph}
    → Stores m f
    → Takes k (λ g. g)
    → Stores (m >> k) f
Stores->> {m = m} {k} {f} first second = record {
  stores = λ w done. elim (ends (m w)) [
    | inl (a, w', e) ↦
        let (fd, changed) = first.stores w (rw e refl) in
        let last = second.takes w' tt (rw e at done) in (fd, rw e (last ∙ rw e at changed))
    | inr (x, w', e) ↦ let failed = rw e at done in cc
  ];
}

stored_some :
    (r : Result (Unit {0})) (fd : Option ℕ)
    → and_result r (valid_descriptor fd) ≡ ok tt
    → (n : ℕ) × (fd ≡ some n)
stored_some r (some n) done = (n, refl)
stored_some (ok _) none done = cc
stored_some (err e) none done = cc

module _ (sdk : Mi) (bus : I2c) where
  pub mi_call-Takes : (c : MiCall) → Takes (mi_call sdk bus c) (λ g. g)
  unfolding mi_call
  mi_call-Takes c = record { takes = λ w a done. refl }

  pub ignored-Takes : (c : MiCall) → Takes (ignored sdk bus c) (λ g. g)
  unfolding ignored
  ignored-Takes c = record { takes = λ w a done. refl }

  pub assign-Takes : (f : Graph → Graph) → Takes (assign sdk bus f) f
  unfolding assign
  assign-Takes f = record { takes = λ w a done. refl }

  pub on_bus-Takes : {A : Type 0} (m : M bus.State A) → Takes (on_bus sdk bus m) (λ g. g)
  unfolding on_bus
  on_bus-Takes m = record { takes = λ w a done. refl }

  pub open_sensor_only-Takes : Takes (open_sensor_only sdk bus) (λ g. g)
  unfolding open_sensor_only
  open_sensor_only-Takes = record { takes = λ w a done. refl }

  -- A guarded step, whose effect changes nothing where the guard is off.
  pub when-Takes :
      (test : Graph → Bool) {body : M (World sdk bus) (Unit {0})} {f : Graph → Graph}
      → Takes body f
      → ((g : Graph) → test g ≡ false → g ≡ f g)
      → Takes (when sdk bus test body) f
  unfolding when
  when-Takes test {body} {f} inner same = record {
    takes = λ w a done. elim (Bool-cases (test w.0)) [
      | inl on ↦ let ran = rw on at done in rw on (inner.takes w a ran)
      | inr off ↦ rw off (same w.0 off)
    ];
  }

  pub retarget-Takes :
      (c : Config) → Takes (retarget sdk bus c) (λ g. record g { sensor = some (geometry_of c) })
  unfolding retarget
  retarget-Takes c = Takes->>= (on_bus-Takes (prepare_geometry_live bus c)) (λ _. assign-Takes _)

  closes :
      {run : MiCall → M (World sdk bus) (Unit {0})}
      → ((c : MiCall) → Takes (run c) (λ g. g))
      → (fd : Option ℕ) (w : World sdk bus) (a : Unit {0}) → w.0.output_fd ≡ fd
      → (close_output sdk bus run fd w).0 ≡ ok a
      → (close_output sdk bus run fd w).1.0 ≡ record w.0 { output_fd = none }
  unfolding close_output
  closes runs none w a is_fd done = ap (λ d. record w.0 { output_fd = d }) is_fd
  closes runs (some fd) w a is_fd done =
      (Takes->>= (runs (close_fd fd)) (λ _. assign-Takes _)).takes w a done

  pub close_descriptor-Takes :
      {run : MiCall → M (World sdk bus) (Unit {0})}
      → ((c : MiCall) → Takes (run c) (λ g. g))
      → Takes (close_descriptor sdk bus run) (λ g. record g { output_fd = none })
  unfolding close_descriptor
  close_descriptor-Takes runs = record {
    takes = λ w a done. closes runs w.0.output_fd w a refl done;
  }

  pub take_descriptor-Stores :
      Stores (take_descriptor sdk bus) (λ fd g. record g { output_fd = some fd })
  unfolding take_descriptor mi
  take_descriptor-Stores = record {
    stores = λ w done.
        let (result, s') = sdk.get_fd w.0.output_fd w.1.0 in
        let (fd, is_fd) = stored_some (mi result.0) result.1 done in
        (fd, ap (λ d. record w.0 { output_fd = d }) is_fd);
  }
