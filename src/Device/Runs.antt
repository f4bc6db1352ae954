-- ===== src/Device/Runs.antt =====
-- What holds after a call that succeeds, and after one that fails.
use podbay_camera_firmware.Prelude.{
  ◌≡◌, refl, ◌⊎◌, inl, inr, Bool, true, false, Result, ok, err, Error, if◌then◌else◌,
}
use podbay_camera_firmware.Device.{M, continue, ◌>>=◌, pure, lift}

pub ends :
    {S A : Type 0} (p : Result A × S)
    → ((a : A) × (s : S) × (p ≡ (ok a, s))) ⊎ ((e : Error) × (s : S) × (p ≡ (err e, s)))
ends (ok a, s) = inl (a, s, refl)
ends (err e, s) = inr (e, s, refl)

-- From a state with P, a success leads to one with Q and a failure to one with E.
pub record Runs {S A : Type 0} (P Q E : S → Type 0) (m : M S A) : Type 0 where
  pub done : (s : S) (a : A) → P s → (m s).0 ≡ ok a → Q (m s).1
  pub failed : (s : S) (e : Error) → P s → (m s).0 ≡ err e → E (m s).1

-- What holds before and after, however the call ends.
abbrev pub Keeps : {S A : Type 0} → (S → Type 0) → M S A → Type 0
Keeps P m = Runs P P P m

pub Runs->>= :
    {S A B : Type 0} {P Q R E : S → Type 0} {m : M S A} {k : A → M S B}
    → Runs P Q E m
    → ((a : A) → Runs Q R E (k a))
    → Runs P R E (m >>= k)
Runs->>= {m = m} {k} first second = record {
  done = λ s b p r. elim (ends (m s)) [
    | inl (a, s', e) ↦
        rw e ((second a).done s' b (rw e at (first.done s a p (rw e refl))) (rw e at r))
    | inr (x, s', e) ↦ let never = rw e at r in cc
  ];
  failed = λ s x p r. elim (ends (m s)) [
    | inl (a, s', e) ↦
        rw e ((second a).failed s' x (rw e at (first.done s a p (rw e refl))) (rw e at r))
    | inr (y, s', e) ↦ rw e (rw e at (first.failed s y p (rw e refl)))
  ];
}

pub Runs-pure : {S A : Type 0} {P E : S → Type 0} (a : A) → Runs P P E (pure a)
Runs-pure a = record { done = λ s b p r. p; failed = λ s x p r. cc }

pub Keeps-lift : {S A : Type 0} {P : S → Type 0} (r : Result A) → Keeps P (lift r)
Keeps-lift r = record { done = λ s b p e. p; failed = λ s x p e. p }

pub Keeps-if :
    {S A : Type 0} {P : S → Type 0} (test : Bool) {m k : M S A}
    → Keeps P m
    → Keeps P k
    → Keeps P (if test then m else k)
Keeps-if true yes_ no_ = yes_
Keeps-if false yes_ no_ = no_

-- What a call keeps holds after it.
pub Keeps-after :
    {S A : Type 0} {P : S → Type 0} {m : M S A} → Keeps P m → (s : S) → P s → P (m s).1
Keeps-after {m = m} keeps s p = elim (ends (m s)) [
  | inl (a, t, e) ↦ keeps.done s a p (rw e refl)
  | inr (x, t, e) ↦ keeps.failed s x p (rw e refl)
]

-- What a chain that succeeds has been through.
pub continue_ok :
    {S A B : Type 0} (p : Result A × S) (k : A → M S B) (b : B)
    → (continue k p).0 ≡ ok b
    → (a : A) × (s : S) × (p ≡ (ok a, s)) × ((k a s).0 ≡ ok b)
continue_ok (ok a, s) k b h = (a, s, refl, h)
continue_ok (err e, s) k b h = cc
