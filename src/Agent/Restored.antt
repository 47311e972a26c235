-- ===== src/Agent/Restored.antt =====
-- What a restart of the agent survives.
use deep_orc.Prelude.{nat_eq, text_eq, List, ◌≡◌, ◌≢◌, ◌∙◌, inl, inr, Text}
use deep_orc.Models.{
  Failure, value_error, headscale_error, agent_error, incus_error, integrity_error,
}
use deep_orc.Effects.{Result, ok, err, Exec, pure, raise, ◌>>=◌, try_except, handle, Result-cases}
use deep_orc.Agent.{pass_runtime}
use deep_orc.Database.{
  gateway_keyed, job_keyed, peer_keyed, group_keyed, worker_keyed, enrollment_keyed,
  registration_keyed,
}
use deep_orc.Agent.Reading.{words}
use deep_orc.Agent.Routing.{Machine, run_optional, cleanup_stale_exit_hacks}
use deep_orc.Agent.Exit.{restore_listed, restore_exit_node_routing}
use deep_orc.Agent.RuleLog.{words_eq}

-- No RuntimeError leaves the action.
abbrev NeverRuntime : {W A : Type 0} → Exec W A → Type 0
NeverRuntime {W} act = (w : W) → (act w).0 ≢ err agent_error

module _ {W : Type 0} where
  bind-NeverRuntime :
      {A B : Type 0} (act : Exec W A) (f : A → Exec W B)
      → NeverRuntime act
      → ((a : A) → NeverRuntime (f a))
      → NeverRuntime (act >>= f)
  unfolding ◌>>=◌
  bind-NeverRuntime act f k l w h = elim (Result-cases (act w).0) [
    | inl (a, e) ↦ l a (act w).1 (rw e at h)
    | inr (x, e) ↦ let failed : err x ≡ err agent_error = rw e at h in k w (e ∙ cc)
  ]

  passed : (e : Failure) → NeverRuntime {W = W} (pass_runtime e)
  unfolding pure raise
  passed agent_error w h = cc
  passed (value_error why) w h = cc
  passed headscale_error w h = cc
  passed incus_error w h = cc
  passed integrity_error w h = cc

  handled : (r : Result (Unit {0})) (w : W) → (handle r pure pass_runtime w).0 ≢ err agent_error
  unfolding pure
  handled (ok a) w h = cc
  handled (err e) w h = passed e w h

module _ {W : Type 0} (m : Machine W) where
  optional-NeverRuntime :
      ((command : List Text) → NeverRuntime (m.processes.run command))
      → (command : List Text) → NeverRuntime (run_optional m command)
  unfolding run_optional pure
  optional-NeverRuntime quiet command =
      bind-NeverRuntime (m.processes.run command) (λ _. pure tt) (quiet command) (λ a w h. cc)

  -- If running a process itself raises no RuntimeError, whatever exit codes the processes have and
  -- whatever they print, then no RuntimeError leaves the restoration of the routing: of those that
  -- its own steps raise for a failed command or a missing address, all are caught.
  pub restore_exit_node_routing-survives :
      ((command : List Text) (w : W) → (m.processes.run command w).0 ≢ err agent_error)
      → (w : W) → (restore_exit_node_routing m w).0 ≢ err agent_error
  unfolding restore_exit_node_routing cleanup_stale_exit_hacks try_except
  restore_exit_node_routing-survives quiet =
      bind-NeverRuntime (cleanup_stale_exit_hacks m) _
        (bind-NeverRuntime (run_optional m (words "ip rule del pref 60")) _
          (optional-NeverRuntime quiet (words "ip rule del pref 60"))
          (λ _.
            bind-NeverRuntime (run_optional m (words "nft delete table ip gw_mangle")) _
              (optional-NeverRuntime quiet (words "nft delete table ip gw_mangle"))
              (λ _. optional-NeverRuntime quiet (words "nft delete table ip gw_preroute"))))
        (λ _ w.
          let attempt : Exec W (Unit {0}) = (do
            result ← m.processes.run (words "tailscale debug prefs")
            restore_listed m result) in
          handled (attempt w).0 (attempt w).1)
