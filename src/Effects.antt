-- ===== src/Effects.antt =====
-- Methods that change an object and may raise: the state comes back beside the result, since what
-- was written before an exception stays written until a rollback.
use deep_orc.Prelude.{
  if◌then◌else◌, nat_eq, text_eq, ◌≡◌, refl, ap, ◌⊎◌, inl, inr, Bool, Option, none, some,
}
use deep_orc.Models.{Reason, Failure, value_error}

pub data Result {ℓ} (A : Type ℓ) : Type ℓ where
  ok : A → Result A
  err : Failure → Result A

abbrev pub Exec : Type 0 → Type 0 → Type 0
Exec S A = S → Result A × S

module _ {S A : Type 0} where
  unfoldable pub pure : A → Exec S A
  pure a s = (ok a, s)

  unfoldable pub raise : Failure → Exec S A
  raise e s = (err e, s)

  unfoldable pub gets : (S → A) → Exec S A
  gets f s = (ok (f s), s)

  unfoldable pub lift_result : Result A → Exec S A
  lift_result r s = (r, s)

abbrev pub required : {A : Type 0} → Reason → Option A → Result A
required why none = err (value_error why)
required why (some a) = ok a

module _ {S A : Type 0} where
  -- `raise ValueError` if there is no such object
  unfoldable pub require : Reason → Option A → Exec S A
  require why o s = (required why o, s)

module _ {S : Type 0} where
  unfoldable pub modify : (S → S) → Exec S (Unit {0})
  modify f s = (ok tt, f s)

  unfoldable pub raise_if : Bool → Reason → Exec S (Unit {0})
  raise_if b why s = (if b then err (value_error why) else ok tt, s)

module _ {S A B : Type 0} where
  abbrev pub after : Result A → (A → Exec S B) → Exec S B
  after (ok a) f s = f a s
  after (err e) f s = (err e, s)

  infixl 5 ◌>>=◌
  -- opening this opens the actions above too
  unfoldable pub ◌>>=◌ : Exec S A → (A → Exec S B) → Exec S B
  unfolding pure raise gets lift_result require modify raise_if
  ◌>>=◌ m f s = let r = m s in after r.0 f r.1

  infixl 5 ◌>>◌
  abbrev pub ◌>>◌ : Exec S A → Exec S B → Exec S B
  m >> k = m >>= λ _. k

  -- `try: … except Exception as exc: …`
  abbrev pub handle : Result A → (A → Exec S B) → (Failure → Exec S B) → Exec S B
  handle (ok a) f h s = f a s
  handle (err e) f h s = h e s

  unfoldable pub try_except : Exec S A → (A → Exec S B) → (Failure → Exec S B) → Exec S B
  try_except m f h s = let r = m s in handle r.0 f h r.1

-- The call's answer determines its effect.
pub ok_parts :
    {A S : Type 0} {a b : A} {s t : S}
    → ◌≡◌ {A = Result A × S} (ok a, s) (ok b, t)
    → (a ≡ b) × (s ≡ t)
ok_parts h = (cc, ap (λ r. r.1) h)

pub ok_ne_err :
    {A S : Type 0} {a : A} {e : Failure} {s t : S} → ◌≡◌ {A = Result A × S} (ok a, s) (err e, t) → ⊥
ok_ne_err {A = A} {S = S} h = cc (ap (λ (r : Result A × S). r.0) h)

pub err_ne_ok : {A : Type 0} {a : A} {e : Failure} → err e ≡ ok a → ⊥
err_ne_ok h = cc

pub ok_value : {A : Type 0} {a b : A} → ok a ≡ ok b → a ≡ b
ok_value h = cc

pub Result-cases :
    {A : Type 0} (r : Result A) → ((a : A) × (r ≡ ok a)) ⊎ ((e : Failure) × (r ≡ err e))
Result-cases (ok a) = inl (a, refl)
Result-cases (err e) = inr (e, refl)

-- How two actions in a row have returned.
pub record IsBound {S A B : Type 0} (m : Exec S A) (f : A → Exec S B) (s : S) (b : B) : Type 0 where
  pub value : A
  pub first : (m s).0 ≡ ok value
  pub second : (f value (m s).1).0 ≡ ok b
  pub whole_step : (m >>= f) s ≡ f value (m s).1

pub bind-IsBound :
    {S A B : Type 0} (m : Exec S A) (f : A → Exec S B) (s : S) (b : B)
    → ((m >>= f) s).0 ≡ ok b
    → IsBound m f s b
unfolding ◌>>=◌
bind-IsBound m f s b h = elim (Result-cases (m s).0) [
  | inr (e, failed) ↦ absurd (err_ne_ok (rw failed at h))
  | inl (a, returned) ↦ record {
    value = a;
    first = returned;
    second = rw returned at h;
    whole_step = rw returned refl;
  }
]
