-- ===== src/Registrations.antt =====
-- Phones that ask to join: orchestrator/web/register_routes.py, the handlers of
-- orchestrator/web/routes.py that approve and reject, and the methods of
-- orchestrator/repositories/registration_request_repo.py that draw a code.
pub mod Codes
pub mod Laws
pub mod Reach
use deep_orc.Prelude.{
  if◌then◌else◌, nat_eq, any, Text, text_eq, strip, zero_pad, ℕ, zero, suc, Bool, Option, none,
  some,
}
use deep_orc.Models.{
  RegistrationRequestStatus, no_display_code, Failure, value_error, headscale_error,
  RegistrationRequest,
}
use deep_orc.Tables.{keys}
use deep_orc.Effects.{Exec, pure, raise, gets, ◌>>=◌, ◌>>◌, try_except}
use deep_orc.Database.{
  Database, gateway_keyed, job_keyed, peer_keyed, group_keyed, worker_keyed, enrollment_keyed,
  registration_keyed, Query,
}
use deep_orc.Database.Registrations.{
  display_code_length, is_waiting, get_by_key, is_pending_code, create_request_row, update_request,
  touched, approved_as, rejected_at,
}
use deep_orc.Platform.{Platform}
use deep_orc.Session.{Action, query, outside, ask, read_world, commit, rollback, write}
use deep_orc.Headscale.{Host, HeadscaleSettings}
use deep_orc.Headscale.Joining.{
  normalize_registration_key, is_valid_registration_key, approve_registration_request,
}

-- What this part calls: `secrets.randbelow(1_000_000)`, and Headscale's approval of a key.
pub record RegistrationHost (W : Type 0) : Type 0 where
  pub random_code : Exec W ℕ
  pub headscale : Host W
  pub config : HeadscaleSettings

abbrev pub code_tries : ℕ
code_tries = 50

module _ {W : Type 0} (p : Platform W) (host : RegistrationHost W) where
  abbrev pub is_taken : Text → Database → Bool
  is_taken code db = any (is_pending_code code) db.registrations

  -- The `RuntimeError` of a draw without success is a reason here; no caller catches it.
  unfoldable pub draw_code : ℕ → Action W Text
  unfolding ◌>>=◌
  draw_code zero = raise (value_error no_display_code)
  draw_code (suc tries) =
      let again = draw_code tries in
      (do
        drawn ← outside host.random_code
        let code = zero_pad display_code_length drawn
        taken ← ask (is_taken code)
        if taken then again else pure code)

  unfoldable pub allocate_display_code : Action W Text
  allocate_display_code = draw_code code_tries

  abbrev pub new_request : Text → Text → ℕ → ℕ → RegistrationRequest
  new_request key code now id = record {
    id = id;
    registration_key = key;
    display_code = code;
    status = RegistrationRequestStatus.pending;
    headscale_node_id = none;
    tailscale_ip = none;
    created_at = now;
    resolved_at = none;
  }

  unfoldable pub store_request : (ℕ → RegistrationRequest) → Query RegistrationRequest
  unfolding create_request_row
  store_request row = do
    id ← gets (λ db. p.new_key (keys db.registrations))
    create_request_row (row id)
    pure (row id)

  abbrev pub touch_found : Text → Option RegistrationRequest → Action W RegistrationRequest
  touch_found key none = do
    code ← allocate_display_code
    now ← read_world p.now
    query (store_request (new_request key code now))
  touch_found key (some r) =
      if is_waiting r.status
      then (do
        now ← read_world p.now
        write (update_request r.id (touched now))
        pure (touched now r))
      else pure r

  unfoldable pub touch_pending : Text → Action W RegistrationRequest
  unfolding store_request
  touch_pending key = do existing ← ask (get_by_key key); touch_found key existing

  abbrev pub mark :
      Option RegistrationRequest
      → (ℕ → RegistrationRequest → RegistrationRequest)
      → Action W (Unit {0})
  mark none f = pure tt
  mark (some r) f = do now ← read_world p.now; write (update_request r.id (f now))

  unfoldable pub mark_approved : Text → ℕ → Text → Action W (Unit {0})
  mark_approved key node_id tailscale_ip = do
    row ← ask (get_by_key key)
    mark row (approved_as node_id tailscale_ip)

  unfoldable pub mark_rejected : Text → Action W (Unit {0})
  mark_rejected key = do row ← ask (get_by_key key); mark row rejected_at

  -- The answer of status 400 is `none`.
  unfoldable pub register_page : Text → Action W (Option RegistrationRequest)
  unfolding touch_pending
  register_page registration_key =
      let key = normalize_registration_key registration_key in
      if is_valid_registration_key key
      then (do row ← touch_pending key; commit; pure (some row))
      else pure none

  unfoldable pub register_status : Text → Action W (Option RegistrationRequest)
  register_status registration_key = ask (get_by_key (strip registration_key))

  abbrev pub undo_headscale : Failure → Action W (Unit {0})
  undo_headscale headscale_error = rollback
  undo_headscale e = raise e

  unfoldable pub approve_registration_ui : Text → Action W (Unit {0})
  unfolding mark_approved try_except
  approve_registration_ui registration_key =
      let key = strip registration_key in
      try_except
        (do
          node ← outside (approve_registration_request host.headscale host.config key)
          mark_approved key node.node_id node.tailscale_ip
          commit)
        (λ done. pure tt) undo_headscale

  unfoldable pub reject_registration_ui : Text → Action W (Unit {0})
  unfolding mark_rejected
  reject_registration_ui registration_key = do mark_rejected (strip registration_key); commit
