-- ===== src/Workers.antt =====
-- orchestrator/services/worker_service.py: which worker a gateway is placed on.
pub mod Placement
pub mod Registration
pub mod Enrollment
use deep_orc.Prelude.{
  ltb, if◌then◌else◌, ◌==◌, nat_eq, length, select, text_eq, ℕ, ◌-◌, Bool, true, false, not, ◌&&◌,
  ◌||◌, Option, none, some, List, [], ◌∷◌, map,
}
use deep_orc.Models.{
  WorkerStatus, worker_not_found, worker_is_local, worker_disabled, worker_offline, no_worker,
  ambiguous_worker, value_error, Worker, is_local,
}
use deep_orc.Tables.{get}
use deep_orc.Effects.{Result, ok, err}
use deep_orc.Database.{
  Database, gateway_keyed, job_keyed, peer_keyed, group_keyed, worker_keyed, enrollment_keyed,
  registration_keyed,
}

unfoldable pub heartbeat_stale_seconds : ℕ
heartbeat_stale_seconds = 120

abbrev pub is_online : WorkerStatus → Bool
is_online WorkerStatus.online = true
is_online _ = false

-- A last contact in the future has a negative age, which is not stale: so has 0.
unfoldable pub effective_status : ℕ → Worker → WorkerStatus
unfolding heartbeat_stale_seconds
effective_status now worker =
    if not worker.enabled then WorkerStatus.disabled else elim worker.last_seen_at [
      | none ↦ WorkerStatus.offline
      | some seen ↦
          if ltb heartbeat_stale_seconds (now - seen)
          then WorkerStatus.offline
          else WorkerStatus.online
    ]

pub record DashboardRow : Type 0 where
  pub worker : Worker
  pub status : WorkerStatus
  pub gateway_count : ℕ

-- `gateway_counts().get(worker.id, 0)`
unfoldable pub gateway_count_of : Database → ℕ → ℕ
gateway_count_of db worker_id = length (select (λ g. g.worker_id == worker_id) db.gateways)

abbrev pub dashboard_row : ℕ → Database → Worker → DashboardRow
dashboard_row now db w = record {
  worker = w;
  status = effective_status now w;
  gateway_count = gateway_count_of db w.id;
}

unfoldable pub dashboard_workers : ℕ → Database → List DashboardRow
dashboard_workers now db = map (dashboard_row now db) (select (λ w. not (is_local w)) db.workers)

abbrev pub online_rows : List DashboardRow → List Worker
online_rows rows = map (λ r. r.worker) (select (λ r. is_online r.status) rows)

unfoldable pub list_online_workers : ℕ → Database → List Worker
list_online_workers now db = online_rows (dashboard_workers now db)

unfoldable pub get_worker : ℕ → Database → Result Worker
get_worker worker_id db = elim (get worker_id db.workers) [
  | none ↦ err (value_error worker_not_found)
  | some w ↦ ok w
]

-- `min` by (gateway count, id): a later worker wins only if it is strictly less.
abbrev pub less_loaded : Database → Worker → Worker → Bool
less_loaded db a b =
    ltb (gateway_count_of db a.id) (gateway_count_of db b.id)
    || (gateway_count_of db a.id == gateway_count_of db b.id && ltb a.id b.id)

unfoldable pub least_loaded : Database → Worker → List Worker → Worker
least_loaded db best [] = best
least_loaded db best (w ∷ ws) = least_loaded db (if less_loaded db w best then w else best) ws

abbrev pub pick_from : Database → List Worker → Result Worker
pick_from db [] = err (value_error no_worker)
pick_from db (w ∷ ws) = ok (least_loaded db w ws)

unfoldable pub pick_worker : ℕ → Database → Result Worker
pick_worker now db = pick_from db (list_online_workers now db)

abbrev pub check_named : ℕ → Result Worker → Result Worker
check_named now (err e) = err e
check_named now (ok w) =
    if is_local w
    then err (value_error worker_is_local)
    else if not w.enabled
    then err (value_error worker_disabled)
    else if not (is_online (effective_status now w))
    then err (value_error worker_offline)
    else ok w

abbrev pub only_one : List Worker → Result Worker
only_one [] = err (value_error no_worker)
only_one (w ∷ []) = ok w
only_one (w ∷ v ∷ ws) = err (value_error ambiguous_worker)

unfoldable pub resolve_worker_for_gateway : ℕ → Option ℕ → Database → Result Worker
resolve_worker_for_gateway now (some worker_id) db = check_named now (get_worker worker_id db)
resolve_worker_for_gateway now none db = only_one (list_online_workers now db)
