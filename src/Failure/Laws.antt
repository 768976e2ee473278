-- ===== src/Failure/Laws.antt =====
-- How a sequence of actions runs, by the result of the first.
use lender.Common.{◌≡◌, refl, ap, sym, ◌∙◌, ◌⊎◌, inl, inr}
use lender.Failure.{Failure, Result, ok, err, Action, ◌>>=◌, atomic}

pub Result-cases {ℓ} :
    {A : Type ℓ} (r : Result A) → ((a : A) × (r ≡ ok a)) ⊎ ((e : Failure) × (r ≡ err e))
Result-cases (ok a) = inl (a, refl)
Result-cases (err e) = inr (e, refl)

pub err≢ok {ℓ} : {A : Type ℓ} {e : Failure} {a : A} → err e ≡ ok a → ⊥
err≢ok h = cc

module _ {ℓ κ λ₁} {S : Type ℓ} {A : Type κ} {B : Type λ₁} where
  pub bind-ok :
      (m : Action S A) (f : A → Action S B) {s s' : S} {a : A}
      → m s ≡ (ok a, s')
      → (m >>= f) s ≡ f a s'
  bind-ok m f h = ap (λ r. elim (r.0) [ ok a ↦ f a (r.1) | err e ↦ (err e, r.1) ]) h

  pub bind-err :
      (m : Action S A) (f : A → Action S B) {s s' : S} {e : Failure}
      → m s ≡ (err e, s')
      → (m >>= f) s ≡ (err e, s')
  bind-err m f h = ap (λ r. elim (r.0) [ ok a ↦ f a (r.1) | err e ↦ (err e, r.1) ]) h

  -- A sequence that succeeds has a first action that succeeds, and goes on from its state.
  pub bind-passed :
      (m : Action S A) (f : A → Action S B) (s : S) {b : B}
      → ((m >>= f) s).0 ≡ ok b
      → (a : A) × (m s ≡ (ok a, (m s).1)) × ((f a (m s).1).0 ≡ ok b)
  bind-passed m f s h = elim (Result-cases ((m s).0)) [
    | inl (a, e) ↦ (a, ap (λ r. (r, (m s).1)) e, rw (e, ◌>>=◌) at h)
    | inr (e, eq) ↦ absurd (err≢ok (rw (eq, ◌>>=◌) at h))
  ]

module _ {ℓ κ} {S : Type ℓ} {A : Type κ} where
  pub atomic-ok : (m : Action S A) {s s' : S} {a : A} → m s ≡ (ok a, s') → atomic m s ≡ (ok a, s')
  unfolding atomic
  atomic-ok m {a = a} h = rw (h, atomic) (ap (λ r. (ok a, r.1)) h)

  pub atomic-err :
      (m : Action S A) {s s' : S} {e : Failure} → m s ≡ (err e, s') → atomic m s ≡ (err e, s)
  unfolding atomic
  atomic-err m h = rw (h, atomic) refl

  pub atomic-passed : (m : Action S A) (s : S) {a : A} → (atomic m s).0 ≡ ok a → (m s).0 ≡ ok a
  unfolding atomic
  atomic-passed m s h = elim (Result-cases ((m s).0)) [
    | inl (b, e) ↦ e ∙ rw (e, atomic) at h
    | inr (e, eq) ↦ absurd (err≢ok (rw (eq, atomic) at h))
  ]

  -- A transaction that fails leaves its state.
  pub atomic-refused :
      (m : Action S A) (s : S) {e : Failure} → (atomic m s).0 ≡ err e → atomic m s ≡ (err e, s)
  unfolding atomic
  atomic-refused m s h = elim (Result-cases ((m s).0)) [
    | inl (b, e) ↦ absurd (err≢ok (sym (rw (e, atomic) at h)))
    | inr (e, eq) ↦ rw (eq, atomic) (ap (λ f. (f, s)) (rw (eq, atomic) at h))
  ]
