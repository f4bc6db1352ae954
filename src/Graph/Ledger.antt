-- ===== src/Graph/Ledger.antt =====
-- The count of the buffers that are out, and what the steps of an acquisition do to it.
use podbay_camera_firmware.Prelude.{
  ℕ, zero, suc, ◌≡◌, ◌≢◌, refl, ◌∙◌, Bool-cases, ==_iff, ◌==◌, inl, inr, leb, ◌-◌, arith, Result,
  ok, err, Error,
}
use podbay_camera_firmware.Device.{M, I2c}
use podbay_camera_firmware.Device.Runs.{Runs, Keeps, Runs->>=, Keeps-lift, ends}
use podbay_camera_firmware.Graph.{Mi, Graph, Buffer}
use podbay_camera_firmware.Graph.Pipeline.{World, assign}
use podbay_camera_firmware.Graph.Frames.{
  poll, poll_pause, wait_buffer, flush, copy_frame, on_sdk, with_graph, put_back, give_back,
  returning, stamped,
}

-- The documented behaviour of the SDK's buffers: it counts those that are out. A call for a buffer that
-- returns 0 hands one out, giving one back succeeds, and nothing else changes the count.
pub record Ledger (sdk : Mi) : Type 0 where
  pub out : sdk.State → ℕ
  pub taken : (s : sdk.State) → (sdk.get_buf s).0.0 ≡ 0 → out (sdk.get_buf s).1 ≡ suc (out s)
  pub missed : (s : sdk.State) → (sdk.get_buf s).0.0 ≢ 0 → out (sdk.get_buf s).1 ≡ out s
  pub put_succeeds : (handle : ℕ) (s : sdk.State) → (sdk.put_buf handle s).0 ≡ 0
  pub put_frees : (handle n : ℕ) (s : sdk.State) → out s ≡ suc n → out (sdk.put_buf handle s).1 ≡ n
  pub flush_keeps :
      (address size : ℕ) (s : sdk.State) → out (sdk.flush_cache address size s).1 ≡ out s
  pub pause_keeps : (d : ℕ) (s : sdk.State) → out (sdk.pause d s) ≡ out s

module _ (sdk : Mi) (ledger : Ledger sdk) where
  open ledger use {out, taken, missed, put_frees, flush_keeps, pause_keeps}

  -- So many buffers are out.
  abbrev pub IsOut : ℕ → sdk.State → Type 0
  IsOut n s = out s ≡ n

  poll_ends :
      (n fuel start timeout : ℕ) (s : sdk.State)
      → IsOut n s
      → ((a : Buffer)
          → (poll sdk fuel start timeout s).0 ≡ ok a
          → IsOut (suc n) (poll sdk fuel start timeout s).1)
        × ((e : Error)
            → (poll sdk fuel start timeout s).0 ≡ err e
            → IsOut n (poll sdk fuel start timeout s).1)
  unfolding poll
  poll_ends n zero start timeout s h = ((λ a e. cc), (λ e r. h))
  poll_ends n (suc fuel) start timeout s h =
      let ((result, buffer), t) = sdk.get_buf s in
      elim (Bool-cases (result == 0)) [
        | inl got ↦
            let one = taken s ((==_iff _ _).0 got) in rw got ((λ a e. rw (one, h)), (λ e r. cc))
        | inr none ↦
            let same = missed s (ground arith) in
            elim (Bool-cases (leb timeout (sdk.now t - start))) [
              | inl over ↦ rw (none, over) ((λ a e. cc), (λ e r. same ∙ h))
              | inr early ↦
                  rw (none, early)
                    (poll_ends n fuel start timeout (sdk.pause poll_pause t)
                      (pause_keeps poll_pause t ∙ same ∙ h))
            ]
      ]

  pub wait_Runs :
      (n milliseconds : ℕ) → Runs (IsOut n) (IsOut (suc n)) (IsOut n) (wait_buffer sdk milliseconds)
  unfolding wait_buffer
  wait_Runs n milliseconds = record {
    done = λ s a p r. (poll_ends n _ _ _ s p).0 a r;
    failed = λ s e p r. (poll_ends n _ _ _ s p).1 e r;
  }

  pub flush-Keeps : (n address size : ℕ) → Keeps (IsOut n) (flush sdk address size)
  unfolding flush
  flush-Keeps n address size = record {
    done = λ s a p r. flush_keeps address size s ∙ p;
    failed = λ s e p r. flush_keeps address size s ∙ p;
  }

  pub copy_frame-Keeps : (n : ℕ) (g : Graph) (m : _) → Keeps (IsOut n) (copy_frame sdk g m)
  unfolding copy_frame
  copy_frame-Keeps n g m = Runs->>= (Keeps-lift _) (λ _.
      Runs->>= (flush-Keeps n _ _) (λ _. record { done = λ s a p r. p; failed = λ s e p r. p }))

module _ (sdk : Mi) (bus : I2c) where
  pub on_sdk-Runs :
      {A : Type 0} {P Q E : sdk.State → Type 0} {m : M sdk.State A}
      → Runs P Q E m
      → Runs (λ w. P w.1.0) (λ w. Q w.1.0) (λ w. E w.1.0) (on_sdk sdk bus m)
  unfolding on_sdk
  on_sdk-Runs inner = record {
    done = λ w a p r. inner.done w.1.0 a p r;
    failed = λ w e p r. inner.failed w.1.0 e p r;
  }

  pub with_graph-Runs :
      {A : Type 0} {P Q E : World sdk bus → Type 0} {f : Graph → M (World sdk bus) A}
      → ((g : Graph) → Runs P Q E (f g))
      → Runs P Q E (with_graph sdk bus f)
  unfolding with_graph
  with_graph-Runs inner = record {
    done = λ w a p r. (inner w.0).done w a p r;
    failed = λ w e p r. (inner w.0).failed w e p r;
  }

module _ (sdk : Mi) (bus : I2c) (ledger : Ledger sdk) where
  open ledger use {out, taken, missed, put_succeeds, put_frees}

  -- So many buffers are out, seen from the whole.
  abbrev pub HasOut : ℕ → World sdk bus → Type 0
  HasOut n w = out w.1.0 ≡ n

  pub assign-HasOut :
      {E : World sdk bus → Type 0} (n : ℕ) (f : Graph → Graph)
      → Runs (HasOut n) (HasOut n) E (assign sdk bus f)
  unfolding assign
  assign-HasOut n f = record { done = λ w a p r. p; failed = λ w e p r. cc }

  -- Whatever is done with a buffer that is out, it is back afterwards.
  pub give_back-HasOut :
      {A : Type 0} (n handle : ℕ) (p : Result A × World sdk bus)
      → HasOut (suc n) p.1
      → HasOut n (give_back sdk bus handle p).1
  unfolding give_back put_back
  give_back-HasOut n handle p h = put_frees handle n p.1.1.0 h

  pub returning-Runs :
      {A : Type 0} (n handle : ℕ) {m : M (World sdk bus) A}
      → Keeps (HasOut (suc n)) m
      → Runs (HasOut (suc n)) (HasOut n) (HasOut n) (returning sdk bus handle m)
  unfolding returning
  returning-Runs n handle {m} inner = record {
    done = λ w a p r. give_back-HasOut n handle (m w) (still w p);
    failed = λ w e p r. give_back-HasOut n handle (m w) (still w p);
  }
    where
      still : (w : World sdk bus) → HasOut (suc n) w → HasOut (suc n) (m w).1
      still w p = elim (ends (m w)) [
        | inl (a, w', e) ↦ inner.done w a p (rw e refl)
        | inr (x, w', e) ↦ inner.failed w x p (rw e refl)
      ]

  pub put_back-Runs :
      (n handle : ℕ) → Runs (HasOut (suc n)) (HasOut n) (HasOut n) (put_back sdk bus handle)
  unfolding put_back
  put_back-Runs n handle = record {
    done = λ w a p r. put_frees handle n w.1.0 p;
    failed = λ w e p r. put_frees handle n w.1.0 p;
  }

  pub stamped-HasOut : (n : ℕ) (g : Graph) (bytes : _) → Keeps (HasOut n) (stamped sdk bus g bytes)
  unfolding stamped
  stamped-HasOut n g bytes = record { done = λ w a p r. p; failed = λ w e p r. p }
