-- ===== src/Jobs/Resume.antt =====
-- The recovery of both workers after a restart: `resume_incomplete_provisioning` and
-- `resume_incomplete_deletions`. A gateway for which a thread is running is passed over; the answer
-- is the gateways, with their jobs, for which a thread is started.
pub mod Laws
use deep_orc.Prelude.{
  if◌then◌else◌, nat_eq, contains, text_eq, ℕ, not, ◌||◌, Option, none, some, List, [], ◌∷◌, ◌++◌,
}
use deep_orc.Models.{JobStatus, Gateway, Job}
use deep_orc.Effects.{pure, ◌>>=◌, ◌>>◌}
use deep_orc.Database.{
  gateway_keyed, job_keyed, peer_keyed, group_keyed, worker_keyed, enrollment_keyed,
  registration_keyed,
}
use deep_orc.Database.Gateways.{is_deleting}
use deep_orc.Database.Jobs.{
  is_pending, is_running, update_job_status, get_pending_for_gateway, get_latest_create_job,
  get_latest_delete_job,
}
use deep_orc.Platform.{Platform, Settings}
use deep_orc.Session.{Action, query, ask, read_world, commit, write_at}
use deep_orc.Gateways.{needs_provisioning}
use deep_orc.Gateways.Lifecycle.{prepare_provisioning, new_delete_job}
use deep_orc.Peers.Uplink.{others}
use deep_orc.Jobs.{is_stale_running_job}

abbrev pub Started : Type 0
Started = List (ℕ × ℕ)

-- `start_provisioning` and `start_deletion` for one gateway
abbrev pub start : ℕ → Option Job → Started
start gateway_id none = []
start gateway_id (some j) = (gateway_id, j.id) ∷ []

module _ {W : Type 0} (p : Platform W) (config : Settings) where
  abbrev pub prepare_and_start : ℕ → Action W Started
  prepare_and_start gateway_id = do
    prepare_provisioning p config gateway_id
    j ← ask (get_pending_for_gateway gateway_id)
    pure (start gateway_id j)

  -- What a running job without a thread leaves to start: its successor, if it is PENDING, and if
  -- there is none the preparation is made again.
  abbrev pub start_renewed : ℕ → Option Job → Action W Started
  start_renewed gateway_id none = prepare_and_start gateway_id
  start_renewed gateway_id (some j) =
      pure (if is_pending j.status then start gateway_id (some j) else [])

  abbrev pub resume_latest : ℕ → Option Job → Action W Started
  resume_latest gateway_id none = prepare_and_start gateway_id
  resume_latest gateway_id (some j) =
      if is_running j.status
      then (do
        prepare_provisioning p config gateway_id
        renewed ← ask (get_pending_for_gateway gateway_id)
        start_renewed gateway_id renewed)
      else pure (if is_pending j.status then start gateway_id (some j) else [])

  abbrev pub resume_gateway : List ℕ → Gateway → Action W Started
  resume_gateway active g =
      if not (needs_provisioning g.status) || contains active g.id
      then pure []
      else (do j ← ask (get_latest_create_job g.id); resume_latest g.id j)

  abbrev pub resume_gateways : List ℕ → List Gateway → Action W Started
  resume_gateways active [] = pure []
  resume_gateways active (g ∷ gateways) = do
    first_ones ← resume_gateway active g
    others ← resume_gateways active gateways
    pure (first_ones ++ others)

  unfoldable pub resume_incomplete_provisioning : List ℕ → Action W Started
  resume_incomplete_provisioning active = do
    gateways ← ask (λ db. db.gateways)
    started ← resume_gateways active gateways
    commit
    pure started

  abbrev pub new_deletion : ℕ → Action W Started
  new_deletion gateway_id = do
    now ← read_world p.now
    job_id ← query (new_delete_job p config gateway_id now)
    commit
    pure ((gateway_id, job_id) ∷ [])

  abbrev pub resume_delete_job : ℕ → ℕ → Option Job → Action W Started
  resume_delete_job gateway_id now none = new_deletion gateway_id
  resume_delete_job gateway_id now (some j) =
      if is_stale_running_job now j
      then (do
        write_at p.now (λ t. update_job_status t j.id JobStatus.pending none)
        commit
        pure (start gateway_id (some j)))
      else pure (if is_pending j.status then start gateway_id (some j) else [])

  abbrev pub resume_deletion : List ℕ → Gateway → Action W Started
  resume_deletion active g =
      if not (is_deleting g.status) || contains active g.id then pure [] else (do
        j ← ask (get_latest_delete_job g.id)
        now ← read_world p.now
        resume_delete_job g.id now j)

  abbrev pub resume_deletions : List ℕ → List Gateway → Action W Started
  resume_deletions active [] = pure []
  resume_deletions active (g ∷ gateways) = do
    first_ones ← resume_deletion active g
    others ← resume_deletions active gateways
    pure (first_ones ++ others)

  unfoldable pub resume_incomplete_deletions : List ℕ → Action W Started
  resume_incomplete_deletions active = do
    gateways ← ask (λ db. db.gateways)
    resume_deletions active gateways
