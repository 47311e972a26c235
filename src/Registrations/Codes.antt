-- ===== src/Registrations/Codes.antt =====
-- The codes of pending requests.
use deep_orc.Prelude.{
  Bool-cases, ◌==◌, nat_eq, any, text_beq_iff, text_eq, ℕ, ◌≡◌, refl, ◌∙◌, inl, inr, Bool, false,
  ◌&&◌, List, [], ◌∷◌, ◌++◌, arith,
}
use deep_orc.Models.{RegistrationRequest}
use deep_orc.Tables.{update}
use deep_orc.Database.{
  Database, gateway_keyed, job_keyed, peer_keyed, group_keyed, worker_keyed, enrollment_keyed,
  registration_keyed,
}
use deep_orc.Pools.Constraints.{IsUnique, IsUnique-snoc}
use deep_orc.Database.Registrations.{is_waiting, is_pending_code}

-- Two pending requests with one code.
abbrev pub clash_codes : RegistrationRequest → RegistrationRequest → Bool
clash_codes r q = is_waiting r.status && is_waiting q.status && r.display_code == q.display_code

clash_codes_comm : (r q : RegistrationRequest) → clash_codes r q ≡ clash_codes q r
clash_codes_comm r q =
    ground (
      arith,
      text_beq_iff r.display_code q.display_code,
      text_beq_iff q.display_code r.display_code,
    )

-- No two pending requests have one code.
abbrev pub CodesApart : Database → Type 0
CodesApart db = IsUnique clash_codes db.registrations

-- A change that leaves the code alone and opens no request.
pub record IsClosing (f : RegistrationRequest → RegistrationRequest) : Type 0 where
  pub same_code : (r : RegistrationRequest) → (f r).display_code ≡ r.display_code
  pub not_opened :
      (r : RegistrationRequest) → is_waiting r.status ≡ false → is_waiting (f r).status ≡ false

module _ (f : RegistrationRequest → RegistrationRequest) (closing : IsClosing f) (k : ℕ) where
  closed_apart : (r q : RegistrationRequest) → clash_codes r q ≡ false → clash_codes (f r) q ≡ false
  closed_apart r q h = rw (closing.same_code r) (ground (arith, closing.not_opened r))

  changed_apart :
      (r q : RegistrationRequest) → clash_codes r q ≡ false → clash_codes r (f q) ≡ false
  changed_apart r q h = clash_codes_comm r (f q) ∙ closed_apart q r (clash_codes_comm q r ∙ h)

  any-changed :
      (r : RegistrationRequest) (rows : List RegistrationRequest)
      → any (clash_codes r) rows ≡ false
      → any (clash_codes r) (update k f rows) ≡ false
  any-changed r [] h = refl
  any-changed r (q ∷ rows) h = elim (Bool-cases (q.id == k)) [
    | inl hit ↦ rw (hit, changed_apart r q (ground arith)) (any-changed r rows (ground arith))
    | inr miss ↦ rw (miss) (ground (arith, any-changed r rows))
  ]

  any-closed :
      (r : RegistrationRequest) (rows : List RegistrationRequest)
      → any (clash_codes r) rows ≡ false
      → any (clash_codes (f r)) rows ≡ false
  any-closed r [] h = refl
  any-closed r (q ∷ rows) h =
      rw (closed_apart r q (ground arith)) (any-closed r rows (ground arith))

  pub update-Apart :
      (rows : List RegistrationRequest)
      → IsUnique clash_codes rows
      → IsUnique clash_codes (update k f rows)
  update-Apart [] h = tt
  update-Apart (r ∷ rows) h = elim (Bool-cases (r.id == k)) [
    | inl hit ↦
        rw hit (any-closed r (update k f rows) (any-changed r rows h.0), update-Apart rows h.1)
    | inr miss ↦ rw miss (any-changed r rows h.0, update-Apart rows h.1)
  ]

-- A code that no pending request has.
fresh_clash :
    (r : RegistrationRequest) (rows : List RegistrationRequest)
    → any (is_pending_code r.display_code) rows ≡ false
    → any (clash_codes r) rows ≡ false
fresh_clash r [] h = refl
fresh_clash r (q ∷ rows) h = ground (
  arith,
  fresh_clash r rows,
  text_beq_iff r.display_code q.display_code,
  text_beq_iff q.display_code r.display_code,
)

pub added-Apart :
    (rows : List RegistrationRequest) (r : RegistrationRequest)
    → IsUnique clash_codes rows
    → any (is_pending_code r.display_code) rows ≡ false
    → IsUnique clash_codes (rows ++ r ∷ [])
added-Apart rows r h fresh =
    IsUnique-snoc clash_codes clash_codes_comm rows r h (fresh_clash r rows fresh)
