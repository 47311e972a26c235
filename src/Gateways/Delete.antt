-- ===== src/Gateways/Delete.antt =====
-- `GatewayService.execute_delete_gateway` and `delete_gateway`.
pub mod Laws
pub mod Total
use deep_orc.Prelude.{if◌then◌else◌, nat_eq, text_eq, ℕ, Bool, false, not, Option, none, some}
use deep_orc.Models.{JobStatus, Gateway, Job}
use deep_orc.Effects.{pure, ◌>>=◌, ◌>>◌, try_except}
use deep_orc.Database.{
  Database, gateway_keyed, job_keyed, peer_keyed, group_keyed, worker_keyed, enrollment_keyed,
  registration_keyed,
}
use deep_orc.Pools.{release_vm_ip, release_udp_port}
use deep_orc.Database.Gateways.{get_gateway, delete_gateway_row}
use deep_orc.Database.Jobs.{is_completed, get_job, update_job_status}
use deep_orc.Platform.{VmCall, Platform, Settings}
use deep_orc.Session.{Action, query, outside, ask, commit, write, write_at, pass_headscale}
use deep_orc.Gateways.{gateway_headscale_hostnames, known_exit_ip}
use deep_orc.Gateways.Lifecycle.{worker_of, request_delete_gateway}

-- `delete_gateway_headscale_node`, whose `HeadscaleError` is logged and ignored.
module _ {W : Type 0} (p : Platform W) where
  unfoldable pub forget_node : Gateway → Action W (Unit {0})
  unfolding outside pure
  forget_node g =
      try_except
        (outside
          (p.delete_gateway_headscale_node (known_exit_ip g) (gateway_headscale_hostnames g)))
        (λ removed. pure tt) pass_headscale

  -- `delete_gateway_vm`, whatever it raises
  unfoldable pub forget_vm : Gateway → Action W (Unit {0})
  unfolding outside pure
  forget_vm g = try_except (outside (p.vm g VmCall.delete_gateway_vm)) pure (λ e. pure tt)

  -- The gateway's addresses, its row and what hangs on it, then its job if it is still there.
  unfoldable pub delete_rows : ℕ → Gateway → Database → Database
  unfolding delete_gateway_row
  delete_rows gateway_id g db =
      delete_gateway_row gateway_id
        (release_udp_port g.worker_id g.udp_port (release_vm_ip g.worker_id g.vm_ip db))

  abbrev pub complete_job : Option ℕ → ℕ → Database → Database
  complete_job none now db = db
  complete_job (some job_id) now db = update_job_status now job_id JobStatus.completed none db

  abbrev pub is_unfinished : Option Job → Bool
  is_unfinished none = false
  is_unfinished (some j) = not (is_completed j.status)

  -- `if job and job.status != JobStatus.COMPLETED: …`
  unfoldable pub finish_job : Option ℕ → Action W (Unit {0})
  finish_job none = pure tt
  finish_job (some job_id) = do
    job ← ask (get_job job_id)
    if is_unfinished job then (write_at p.now (complete_job (some job_id)) >> commit) else pure tt

  abbrev pub delete_found : ℕ → Option ℕ → Option Gateway → Action W (Unit {0})
  delete_found gateway_id job_id none = finish_job job_id
  delete_found gateway_id job_id (some g) = do
    forget_node g
    query (worker_of g)
    forget_vm g
    write (delete_rows gateway_id g)
    write_at p.now (complete_job job_id)
    commit

  unfoldable pub execute_delete_gateway : ℕ → Option ℕ → Action W (Unit {0})
  execute_delete_gateway gateway_id job_id = do
    found ← ask (get_gateway gateway_id)
    delete_found gateway_id job_id found

  -- Deletion at once.
  unfoldable pub delete_gateway : Settings → ℕ → Action W (Unit {0})
  delete_gateway config gateway_id = do
    job_id ← request_delete_gateway p config gateway_id
    execute_delete_gateway gateway_id (some job_id)
