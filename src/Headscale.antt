-- ===== src/Headscale.antt =====
-- orchestrator/headscale/client.py: what the orchestrator asks of Headscale's command line. The
-- process it runs, `json.loads`, and `str` and `int` of what that returns are outside.
pub mod Values
pub mod Nodes
pub mod Client
pub mod Listing
pub mod Needs
pub mod Approvals
pub mod Sync
pub mod Renames
pub mod Keys
pub mod Joining
use deep_orc.Prelude.{
  if◌then◌else◌, ◌==◌, nat_eq, Text, codes, text_eq, is_empty, strip, ℕ, ◌≡◌, Option, some, List,
  [], ◌∷◌, ◌++◌,
}
use deep_orc.Naming.{Unicode}
use deep_orc.Models.{bad_json, headscale_error}
use deep_orc.Effects.{Result, ok, err, Exec, lift_result, required, ◌>>=◌, ◌>>◌}
use deep_orc.Database.{
  gateway_keyed, job_keyed, peer_keyed, group_keyed, worker_keyed, enrollment_keyed,
  registration_keyed,
}
use deep_orc.Headscale.Values.{Json, number, text}

pub record Answer : Type 0 where
  pub returncode : ℕ
  pub stdout : Text

-- A value with no natural number for `int`, or a text that is no JSON, raises.
pub record Host (W : Type 0) : Type 0 where
  pub run_process : List Text → Exec W Answer
  pub loads : Text → Option Json
  pub str_of : Json → Text
  pub int_of : Json → Option ℕ
  pub str_of-text : (t : Text) → str_of (Json.text t) ≡ t
  pub int_of-number : (n : ℕ) → int_of (Json.number n) ≡ some n
  pub unicode : Unicode

pub record HeadscaleSettings : Type 0 where
  pub headscale_cli : Text
  pub headscale_config : Text
  pub headscale_user : Text
  pub headscale_mobile_user : Text
  pub headscale_worker_user : Text
  pub headscale_exit_node_tag : Text
  pub headscale_worker_tag : Text
  pub headscale_preauth_expiration : Text
  pub headscale_url : Text

module _ {W : Type 0} (host : Host W) (config : HeadscaleSettings) where
  abbrev pub command_line : List Text → List Text
  command_line args =
      let options =
        if is_empty config.headscale_config
        then []
        else codes "-c" ∷ config.headscale_config ∷ [] in
      config.headscale_cli ∷ (options ++ args)

  -- The text of the error is left out.
  abbrev pub checked : Answer → Result Text
  checked answer = if answer.returncode == 0 then ok (strip answer.stdout) else err headscale_error

  unfoldable pub run_headscale : List Text → Exec W Text
  unfolding ◌>>=◌
  run_headscale args = do
    answer ← host.run_process (command_line args)
    lift_result (checked answer)

  abbrev pub loads_json : Text → Result Json
  loads_json s = required bad_json (host.loads s)
