-- ===== src/Stages.antt =====
-- orchestrator/workers/provisioning_stages.py: the stages of a provisioning job, and how long ago
-- one was entered.
use deep_orc.Prelude.{
  ltb, if◌then◌else◌, ◌==◌, nat_eq, Text, codes, text_eq, is_empty, decimal, ℕ, ◌-◌, ◌/◌, true,
  Option, none, some, List, [], ◌∷◌, ◌++◌,
}
use deep_orc.Models.{Job}
use deep_orc.Effects.{ok, pure}
use deep_orc.Database.{
  gateway_keyed, job_keyed, peer_keyed, group_keyed, worker_keyed, enrollment_keyed,
  registration_keyed,
}
use deep_orc.Database.Jobs.{update_stage}
use deep_orc.Platform.{Platform}
use deep_orc.Session.{Action}

abbrev pub stage_queued : Text
stage_queued = codes "queued"

abbrev pub stage_preparing : Text
stage_preparing = codes "preparing"

abbrev pub stage_vm_launch : Text
stage_vm_launch = codes "vm_launch"

abbrev pub stage_cloud_init : Text
stage_cloud_init = codes "cloud_init"

abbrev pub stage_agent_wait : Text
stage_agent_wait = codes "agent_wait"

abbrev pub stage_register : Text
stage_register = codes "register"

abbrev pub stage_peer_setup : Text
stage_peer_setup = codes "peer_setup"

abbrev pub stage_done : Text
stage_done = codes "done"

-- `set_provision_stage`: the stage is written and committed.
module _ {W : Type 0} (p : Platform W) where
  unfoldable pub set_provision_stage : ℕ → Text → Action W (Unit {0})
  unfolding update_stage
  set_provision_stage job_id stage s =
      let db = update_stage (p.now s.world) job_id stage true s.db in
      (ok tt, record s { db = db; saved = db })

  -- `stage(name)` inside provisioning, which may run without a job
  abbrev pub mark_stage : Option ℕ → Text → Action W (Unit {0})
  mark_stage none stage = pure tt
  mark_stage (some job_id) stage = set_provision_stage job_id stage

-- `format_time_ago`; a time in the future counts as now.
unfoldable pub format_time_ago : ℕ → Option ℕ → Option Text
format_time_ago now none = none
format_time_ago now (some then_at) =
    let seconds = now - then_at in
    let minutes = seconds / 60 in
    let hours = minutes / 60 in
    some (
      if ltb seconds 10
      then codes "just now"
      else if ltb seconds 60
      then decimal seconds ++ codes "s ago"
      else if ltb minutes 60
      then decimal minutes ++ codes "m ago"
      else if ltb hours 24
      then decimal hours ++ codes "h ago"
      else decimal (hours / 24) ++ codes "d ago")

abbrev pub stage_labels : List (Text × Text)
stage_labels =
    (stage_queued, codes "Queued")
    ∷ (stage_preparing, codes "Preparing")
    ∷ (stage_vm_launch, codes "Launching VM")
    ∷ (stage_cloud_init, codes "Configuring VM")
    ∷ (stage_agent_wait, codes "Waiting for WireGuard and Tailscale")
    ∷ (stage_register, codes "Registering agent")
    ∷ (stage_peer_setup, codes "Creating backhaul peer")
    ∷ (stage_done, codes "Complete")
    ∷ []

-- `STAGE_LABELS.get(stage, stage)`
abbrev pub label_of : Text → List (Text × Text) → Text
label_of stage [] = stage
label_of stage ((key, label) ∷ labels) = if key == stage then label else label_of stage labels

abbrev pub or_empty : Option Text → Text
or_empty none = []
or_empty (some text) = text

abbrev pub stage_progress : ℕ → Job → Option Text → Option (Text × Text)
stage_progress now j none = none
stage_progress now j (some stage) =
    if is_empty stage
    then none
    else some (label_of stage stage_labels, or_empty (format_time_ago now j.stage_updated_at))

-- `format_provision_progress`
unfoldable pub format_provision_progress : ℕ → Option Job → Option (Text × Text)
format_provision_progress now none = none
format_provision_progress now (some j) = stage_progress now j j.stage
