-- ===== src/Gateways/Delete/Total.antt =====
-- A deletion of a gateway that exists returns.
use deep_orc.Prelude.{nat_eq, text_eq, ℕ, ◌≡◌, refl, ap, ◌∙◌, Bool, Option, some, arith}
use deep_orc.Models.{Failure, headscale_error, Gateway, Worker}
use deep_orc.Effects.{Result, ok, err, pure, ◌>>=◌, ◌>>◌, handle, try_except}
use deep_orc.Database.{
  gateway_keyed, job_keyed, peer_keyed, group_keyed, worker_keyed, enrollment_keyed,
  registration_keyed,
}
use deep_orc.Database.Gateways.{get_gateway}
use deep_orc.Platform.{Platform}
use deep_orc.Session.{State, query, outside, commit, write, write_at, pass_headscale}
use deep_orc.Session.Rules.{bind_ok}
use deep_orc.Agent.RuleLog.{words_eq}
use deep_orc.Workers.{get_worker}
use deep_orc.Gateways.{gateway_headscale_hostnames, known_exit_ip}
use deep_orc.Gateways.Lifecycle.{worker_of}
use deep_orc.Gateways.Delete.{
  forget_node, forget_vm, delete_rows, complete_job, delete_found, execute_delete_gateway,
}
use deep_orc.Gateways.Delete.Laws.{forget_node-Keeps, execute-found}

module _ {W : Type 0} (p : Platform W) (gateway_id : ℕ) where
  ignored :
      (r : Result Bool) (s : State W)
      → ((e : Failure) → r ≡ err e → e ≡ headscale_error)
      → (handle r (λ _. pure tt) pass_headscale s).0 ≡ ok tt
  unfolding pure
  ignored (ok b) s own = refl
  ignored (err e) s own = rw (own e refl) refl

  forget_node-ok :
      (g : Gateway) (s : State W)
      → ((e : Failure)
          → (p.delete_gateway_headscale_node
              (known_exit_ip g)
              (gateway_headscale_hostnames g)
              s.world).0
            ≡ err e
          → e ≡ headscale_error)
      → (forget_node p g s).0 ≡ ok tt
  unfolding forget_node try_except
  forget_node-ok g s own =
      let q : Result Bool × W =
        p.delete_gateway_headscale_node (known_exit_ip g) (gateway_headscale_hostnames g) s.world in
      ignored q.0 (record s { world = q.1 }) own

  forget_vm-ok : (g : Gateway) (s : State W) → (forget_vm p g s).0 ≡ ok tt
  unfolding forget_vm try_except outside pure
  forget_vm-ok g s = ground arith

  remove-ok :
      (job_id : Option ℕ) (g : Gateway) (s : State W)
      → ((write (delete_rows p gateway_id g) >> (write_at p.now (complete_job p job_id) >> commit))
          s).0
        ≡ ok tt
  unfolding ◌>>=◌ write write_at commit
  remove-ok job_id g s = refl

  delete_found-ok :
      (job_id : Option ℕ) (g : Gateway) (w : Worker) (s : State W)
      → get_worker g.worker_id s.db ≡ ok w
      → (forget_node p g s).0 ≡ ok tt
      → (delete_found p gateway_id job_id (some g) s).0 ≡ ok tt
  unfolding query ◌>>=◌ forget_vm try_except
  delete_found-ok job_id g w s known node =
      let t : State W = (forget_node p g s).1 in
      let same : t.db ≡ s.db = ap (λ v. v.0) ((forget_node-Keeps p gateway_id g).at s) in
      rw
        (
          bind_ok (forget_node p g) _ s tt node,
          bind_ok (query (worker_of g)) _ t w (ap (get_worker g.worker_id) same ∙ known),
          bind_ok (forget_vm p g) _ t tt (forget_vm-ok g t),
        )
        (remove-ok job_id g (forget_vm p g t).1)

  -- A deletion returns whenever the gateway's worker is known, whatever the VM does and if Headscale
  -- raises nothing but its own error.
  pub execute_delete_gateway_total :
      (job_id : Option ℕ) (s : State W) (g : Gateway) (w : Worker)
      → get_gateway gateway_id s.db ≡ some g
      → get_worker g.worker_id s.db ≡ ok w
      → ((x : W) (e : Failure)
          → (p.delete_gateway_headscale_node (known_exit_ip g) (gateway_headscale_hostnames g) x).0
            ≡ err e
          → e ≡ headscale_error)
      → (execute_delete_gateway p gateway_id job_id s).0 ≡ ok tt
  execute_delete_gateway_total job_id s g w found known own =
      rw (execute-found p gateway_id job_id s g found)
        (delete_found-ok job_id g w s known (forget_node-ok g s (own s.world)))
