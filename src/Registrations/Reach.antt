-- ===== src/Registrations/Reach.antt =====
-- What the handlers of registrations can lead to.
use deep_orc.Prelude.{
  Bool-cases, nat_eq, any, first, Text, text_beq_iff, text_eq, ◌≡◌, refl, sym, subst, inl, inr,
  Bool, true, false, some, List, [], ◌∷◌, ◌++◌, arith,
}
use deep_orc.Models.{RegistrationRequest}
use deep_orc.Database.{
  gateway_keyed, job_keyed, peer_keyed, group_keyed, worker_keyed, enrollment_keyed,
  registration_keyed,
}
use deep_orc.Pools.Constraints.{IsUnique}
use deep_orc.Database.Registrations.{is_waiting, is_pending_code, get_by_display_code}
use deep_orc.Platform.{Platform}
use deep_orc.Session.{State, Action, rollback}
use deep_orc.Session.Invariants.{Stays, Stays-rollback}
use deep_orc.Registrations.{
  RegistrationHost, register_page, approve_registration_ui, reject_registration_ui,
}
use deep_orc.Registrations.Codes.{clash_codes, CodesApart}
use deep_orc.Registrations.Laws.{register_page-Apart, approve-Apart, reject-Apart}

module _ {W : Type 0} (p : Platform W) (host : RegistrationHost W) where
  -- A phone visits the page of its key, an administrator approves or rejects a key, or a session is
  -- given up; a handler may return or raise.
  pub data Step : State W → State W → Type 0 where
    visit : (key : Text) (s t : State W) → t ≡ (register_page p host key s).1 → Step s t
    approve : (key : Text) (s t : State W) → t ≡ (approve_registration_ui p host key s).1 → Step s t
    reject : (key : Text) (s t : State W) → t ≡ (reject_registration_ui p host key s).1 → Step s t
    abandon : (s t : State W) → t ≡ (rollback s).1 → Step s t

  pub data Reaches : State W → State W → Type 0 where
    stay : (s : State W) → Reaches s s
    step : (s t u : State W) → Reaches s t → Step t u → Reaches s u

  abbrev pub BothApart : State W → Type 0
  BothApart s = CodesApart s.db × CodesApart s.saved

  ends :
      {A : Type 0} {m : Action W A}
      → Stays CodesApart m
      → (s t : State W) → t ≡ (m s).1
      → BothApart s
      → BothApart t
  ends kept s t e h = subst BothApart (sym e) (kept.at s h.0 h.1)

  step-Apart : (s t : State W) → Step s t → BothApart s → BothApart t
  step-Apart s t (visit key _ _ e) h = ends (register_page-Apart p host key) s t e h
  step-Apart s t (approve key _ _ e) h = ends (approve-Apart p host key) s t e h
  step-Apart s t (reject key _ _ e) h = ends (reject-Apart p host key) s t e h
  step-Apart s t (abandon _ _ e) h = ends Stays-rollback s t e h

  reach-Apart : (s t : State W) → Reaches s t → BothApart s → BothApart t
  reach-Apart s t (stay _) h = h
  reach-Apart s t (step _ u _ r m) h = step-Apart u t m (reach-Apart s u r h)

  any-first :
      (q : RegistrationRequest → Bool) (before rest : List RegistrationRequest)
      (r : RegistrationRequest)
      → q r ≡ true
      → any q (before ++ r ∷ rest) ≡ true
  any-first q [] rest r h = ground arith
  any-first q (a ∷ before) rest r h = ground (arith, any-first q before rest r)

  clash_here :
      (a r : RegistrationRequest)
      → clash_codes a r ≡ false
      → is_waiting r.status ≡ true
      → is_pending_code r.display_code a ≡ false
  clash_here a r h w = ground (arith, text_beq_iff a.display_code r.display_code)

  only_pending :
      (before rest : List RegistrationRequest) (r : RegistrationRequest)
      → IsUnique clash_codes (before ++ r ∷ rest)
      → is_waiting r.status ≡ true
      → first (is_pending_code r.display_code) (before ++ r ∷ rest) ≡ some r
  only_pending [] rest r u w = rw (w, (text_beq_iff r.display_code r.display_code).1 refl) refl
  only_pending (a ∷ before) rest r u w = elim (Bool-cases (clash_codes a r)) [
    | inl clash ↦ absurd (cc (any-first (clash_codes a) before rest r clash, u.0))
    | inr apart ↦ rw (clash_here a r apart w) (only_pending before rest r u.1 w)
  ]

  -- Whatever phones and administrators do, with handlers that return and that raise: no two pending
  -- requests have one code, in the session and as committed, if that was so at the start. So the
  -- code that a phone shows leads to that phone's request.
  pub codes-Apart :
      (s t : State W)
      → Reaches s t
      → BothApart s
      → BothApart t
        × ((before rest : List RegistrationRequest) (r : RegistrationRequest)
            → t.db.registrations ≡ before ++ r ∷ rest
            → is_waiting r.status ≡ true
            → get_by_display_code r.display_code t.db ≡ some r)
  unfolding get_by_display_code
  codes-Apart s t steps h =
      let apart = reach-Apart s t steps h in
      (
        apart,
        λ before rest r e w.
            rw e (only_pending before rest r (subst (IsUnique clash_codes) e apart.0) w),
      )
