-- ===== src/Registrations/Laws.antt =====
-- Whatever phones and administrators do, codes of pending requests stay apart.
use deep_orc.Prelude.{
  Bool-cases, Option-cases, ◌==◌, nat_eq, any, Text, text_eq, zero_pad, ℕ, zero, suc, ◌≡◌, refl,
  sym, ap, subst, inl, inr, false, Option, none, some,
}
use deep_orc.Models.{
  Failure, value_error, headscale_error, agent_error, incus_error, integrity_error,
  RegistrationRequest,
}
use deep_orc.Tables.{keys}
use deep_orc.Effects.{ok, pure, raise, ◌>>=◌, err_ne_ok, ok_value, Result-cases}
use deep_orc.Database.{
  Database, gateway_keyed, job_keyed, peer_keyed, group_keyed, worker_keyed, enrollment_keyed,
  registration_keyed,
}
use deep_orc.Database.Registrations.{
  display_code_length, is_waiting, is_pending_code, create_request_row, update_request, touched,
  approved_as, rejected_at,
}
use deep_orc.Platform.{Platform}
use deep_orc.Session.{State, query, outside, ask, read_world, write}
use deep_orc.Session.Rules.{
  Keeps, Keeps-pure, Keeps-raise, Keeps-outside, Keeps-read_world, Keeps-ask, Keeps-bind, whole,
}
use deep_orc.Session.Invariants.{
  Stays, Stays-of_Keeps, Stays-pure, Stays-raise, Stays-outside, Stays-ask, Stays-write,
  Stays-commit, Stays-rollback, Stays-bind, Stays-try_except,
}
use deep_orc.Headscale.Joining.{normalize_registration_key, is_valid_registration_key}
use deep_orc.Registrations.{
  RegistrationHost, code_tries, is_taken, draw_code, allocate_display_code, new_request,
  store_request, touch_found, touch_pending, mark, mark_approved, mark_rejected, register_page,
  undo_headscale, approve_registration_ui, reject_registration_ui,
}
use deep_orc.Registrations.Codes.{CodesApart, IsClosing, update-Apart, added-Apart}

rejected-IsClosing : (now : ℕ) → IsClosing (rejected_at now)
rejected-IsClosing now = record { same_code = λ r. refl; not_opened = λ r h. refl }

approved-IsClosing : (node_id : ℕ) (ip : Text) (now : ℕ) → IsClosing (approved_as node_id ip now)
approved-IsClosing node_id ip now = record { same_code = λ r. refl; not_opened = λ r h. refl }

touched-IsClosing : (now : ℕ) → IsClosing (touched now)
touched-IsClosing now = record { same_code = λ r. refl; not_opened = λ r h. h }

write-Apart :
    {W : Type 0} (k : ℕ) (f : RegistrationRequest → RegistrationRequest)
    → IsClosing f
    → Stays {W = W} CodesApart (write (update_request k f))
unfolding update_request
write-Apart k f closing = Stays-write _ (λ db h. update-Apart f closing k db.registrations h)

module _ {W : Type 0} (p : Platform W) (host : RegistrationHost W) where
  draw_code-whole : (tries : ℕ) → Keeps whole (draw_code p host tries)
  unfolding draw_code
  draw_code-whole zero = Keeps-raise _
  draw_code-whole (suc tries) = Keeps-bind _ _ (Keeps-outside _) (λ drawn.
      Keeps-bind _ _ (Keeps-ask _) (λ taken. elim (Bool-cases taken) [
        | inl again ↦ rw again (draw_code-whole tries)
        | inr fresh ↦ rw fresh (Keeps-pure _)
      ]))

  -- A code that was drawn is one that no pending request has.
  draw_code-free :
      (tries : ℕ) (s : State W) (code : Text)
      → (draw_code p host tries s).0 ≡ ok code
      → is_taken p host code s.db ≡ false
  unfolding draw_code ◌>>=◌ outside ask pure raise
  draw_code-free zero s code h = absurd (err_ne_ok h)
  draw_code-free (suc tries) s code h = elim (Result-cases (host.random_code s.world).0) [
    | inr (e, failed) ↦ absurd (err_ne_ok (rw failed at h))
    | inl (drawn, e) ↦
        let made : Text = zero_pad display_code_length drawn in
        elim (Bool-cases (is_taken p host made s.db)) [
          | inr fresh ↦ let same : made ≡ code = ok_value (rw (e, fresh) at h) in rw (← same) fresh
          | inl taken ↦
              draw_code-free tries (record s { world = (host.random_code s.world).1 }) code
                (rw (e, taken) at h)
        ]
  ]

  store_request-Apart :
      (row : ℕ → RegistrationRequest) (db : Database)
      → ((k : ℕ) → any (is_pending_code (row k).display_code) db.registrations ≡ false)
      → CodesApart db
      → CodesApart (store_request p host row db).1
  unfolding store_request create_request_row ◌>>=◌
  store_request-Apart row db fresh h =
      let k : ℕ = p.new_key (keys db.registrations) in
      elim (Bool-cases
        (any (λ r. r.registration_key == (row k).registration_key) db.registrations)) [
          | inl taken ↦ rw taken h
          | inr new ↦ rw new (added-Apart db.registrations (row k) h (fresh k))
        ]

  touch_new-Apart : (key : Text) → Stays CodesApart (touch_found p host key none)
  unfolding allocate_display_code ◌>>=◌ read_world query
  touch_new-Apart key = record {
    at = λ s h k.
        let after_draw : State W = (draw_code p host code_tries s).1 in
        let kept = (draw_code-whole code_tries).at s in
        elim (Result-cases (draw_code p host code_tries s).0) [
          | inr (e, failed) ↦ rw failed (
            subst CodesApart (sym (ap (λ v. v.0) kept)) h,
            subst CodesApart (sym (ap (λ v. v.1) kept)) k,
          )
          | inl (code, drawn) ↦ rw drawn (
            store_request-Apart (new_request p host key code (p.now after_draw.world)) after_draw.db
                (λ j.
                  subst (λ (db : Database). any (is_pending_code code) db.registrations ≡ false)
                    (sym (ap (λ v. v.0) kept)) (draw_code-free code_tries s code drawn))
                (subst CodesApart (sym (ap (λ v. v.0) kept)) h),
            subst CodesApart (sym (ap (λ v. v.1) kept)) k,
          )
        ];
  }

  touch_pending-Apart : (key : Text) → Stays CodesApart (touch_pending p host key)
  unfolding touch_pending
  touch_pending-Apart key = Stays-bind _ _ (Stays-ask _) (λ existing. elim (Option-cases existing) [
    | inl new ↦ rw new (touch_new-Apart key)
    | inr (r, found) ↦ elim (Bool-cases (is_waiting r.status)) [
      | inr resolved ↦ rw (found, resolved) (Stays-pure r)
      | inl waits ↦
          rw (found, waits)
            (Stays-bind _ _ (Stays-of_Keeps _ (Keeps-read_world _)) (λ now.
              Stays-bind _ _ (write-Apart r.id (touched now) (touched-IsClosing now))
                (λ _. Stays-pure _)))
    ]
  ])

  mark-Apart :
      (row : Option RegistrationRequest) (f : ℕ → RegistrationRequest → RegistrationRequest)
      → ((now : ℕ) → IsClosing (f now))
      → Stays CodesApart (mark p host row f)
  mark-Apart none f closing = Stays-pure tt
  mark-Apart (some r) f closing =
      Stays-bind _ _ (Stays-of_Keeps _ (Keeps-read_world _))
        (λ now. write-Apart r.id (f now) (closing now))

  undo-Apart : (e : Failure) → Stays CodesApart (undo_headscale p host e)
  undo-Apart headscale_error = Stays-rollback
  undo-Apart (value_error why) = Stays-raise (value_error why)
  undo-Apart agent_error = Stays-raise agent_error
  undo-Apart incus_error = Stays-raise incus_error
  undo-Apart integrity_error = Stays-raise integrity_error

  pub register_page-Apart : (key : Text) → Stays CodesApart (register_page p host key)
  unfolding register_page
  register_page-Apart key =
      elim (Bool-cases (is_valid_registration_key (normalize_registration_key key))) [
        | inr bad ↦ rw bad (Stays-pure none)
        | inl good ↦ rw good (
            Stays-bind _ _ (touch_pending-Apart _)
              (λ row. Stays-bind _ _ Stays-commit (λ _. Stays-pure _)))
      ]

  pub approve-Apart : (key : Text) → Stays CodesApart (approve_registration_ui p host key)
  unfolding approve_registration_ui mark_approved
  approve-Apart key =
      Stays-try_except _ _ _
        (Stays-bind _ _ (Stays-outside _) (λ node.
          Stays-bind _ _
            (Stays-bind _ _ (Stays-ask _) (λ row.
              mark-Apart row (approved_as node.node_id node.tailscale_ip)
                (approved-IsClosing node.node_id node.tailscale_ip)))
            (λ _. Stays-commit)))
        (λ _. Stays-pure tt) undo-Apart

  pub reject-Apart : (key : Text) → Stays CodesApart (reject_registration_ui p host key)
  unfolding reject_registration_ui mark_rejected
  reject-Apart key =
      Stays-bind _ _
        (Stays-bind _ _ (Stays-ask _) (λ row. mark-Apart row rejected_at rejected-IsClosing))
        (λ _. Stays-commit)
