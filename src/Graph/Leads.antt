-- ===== src/Graph/Leads.antt =====
-- What the steps of the pipeline lead to when they succeed.
use podbay_camera_firmware.Prelude.{◌≡◌, refl, inl, inr, ok}
use podbay_camera_firmware.Device.{M, ◌>>=◌, pure}
use podbay_camera_firmware.Device.Runs.{ends}
use podbay_camera_firmware.Graph.{Graph}
use podbay_camera_firmware.Graph.Effects.{Takes}
use podbay_camera_firmware.Graph.Apply.{or_else}

-- What holds of the graph after a success, whatever a failure leaves.
pub record Leads {W A : Type 0} (P Q : Graph → Type 0) (m : M (Graph × W) A) : Type 0 where
  pub leads : (w : Graph × W) (a : A) → P w.0 → (m w).0 ≡ ok a → Q (m w).1.0

abbrev pub Any : Graph → Type 0
Any g = Unit {0}

pub Leads->>= :
    {W A B : Type 0} {P Q R : Graph → Type 0} {m : M (Graph × W) A} {k : A → M (Graph × W) B}
    → Leads P Q m
    → ((a : A) → Leads Q R (k a))
    → Leads P R (m >>= k)
Leads->>= {m = m} {k} first second = record {
  leads = λ w b p r. elim (ends (m w)) [
    | inl (a, w', e) ↦
        rw e ((second a).leads w' b (rw e at (first.leads w a p (rw e refl))) (rw e at r))
    | inr (x, w', e) ↦ let never = rw e at r in cc
  ];
}

pub Leads-pure : {W A : Type 0} {P : Graph → Type 0} (a : A) → Leads {W = W} P P (pure a)
Leads-pure a = record { leads = λ w b p r. p }

pub Leads-Takes :
    {W A : Type 0} {P Q : Graph → Type 0} {m : M (Graph × W) A} {f : Graph → Graph}
    → Takes m f
    → ((g : Graph) → P g → Q (f g))
    → Leads P Q m
Leads-Takes takes after = record { leads = λ w a p r. rw (takes.takes w a r) (after w.0 p) }

pub Leads-Any : {W A : Type 0} {P : Graph → Type 0} (m : M (Graph × W) A) → Leads P Any m
Leads-Any m = record { leads = λ w a p r. tt }

-- A step that is repeated, or replaced, where it fails.
pub Leads-or_else :
    {W A : Type 0} {P Q : Graph → Type 0} {m k : M (Graph × W) A}
    → Leads P Q m
    → Leads Any Q k
    → Leads P Q (λ w. or_else k (m w))
Leads-or_else {m = m} {k} first second = record {
  leads = λ w a p r. elim (ends (m w)) [
    | inl (b, w', e) ↦ rw e (rw e at (first.leads w b p (rw e refl)))
    | inr (x, w', e) ↦ rw e (second.leads w' a tt (rw e at r))
  ];
}
