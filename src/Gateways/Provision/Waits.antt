-- ===== src/Gateways/Provision/Waits.antt =====
-- The wait for a gateway's agent.
use deep_orc.Prelude.{
  if◌then◌else◌, nat_eq, text_eq, ℕ, zero, suc, ◌<◌, ◌≡◌, refl, ◌∙◌, Bool, true, false, Option,
  arith,
}
use deep_orc.Models.{Gateway}
use deep_orc.Effects.{ok, pure, ◌>>=◌, ◌>>◌, try_except, bind-IsBound}
use deep_orc.Database.{
  gateway_keyed, job_keyed, peer_keyed, group_keyed, worker_keyed, enrollment_keyed,
  registration_keyed,
}
use deep_orc.Platform.{Platform}
use deep_orc.Session.{State, Action, outside}
use deep_orc.Stages.{stage_agent_wait, mark_stage}
use deep_orc.Agent.RuleLog.{words_eq}
use deep_orc.Gateways.Provision.{wait_until_healthy}

module _ {W : Type 0} (p : Platform W) (g : Gateway) (job_id : Option ℕ) where
  -- One poll: the heartbeat, and whether the agent says that it is online.
  unfoldable pub polled : Action W Bool
  unfolding ◌>>=◌ try_except
  polled = do
    mark_stage p job_id stage_agent_wait
    try_except (outside (p.agent_online g)) pure (λ _. pure false)

  -- The poll of this number is the first that finds the agent online.
  abbrev pub IsOnlineAt : ℕ → State W → Type 0
  IsOnlineAt zero s = (polled s).0 ≡ ok true
  IsOnlineAt (suc n) s = ((polled s).0 ≡ ok false) × IsOnlineAt n (polled s).1

  wait_step :
      (polls : ℕ) (s : State W) (b : Bool)
      → (polled s).0 ≡ ok b
      → wait_until_healthy p (suc polls) g job_id s
        ≡ (if b then pure true else wait_until_healthy p polls g job_id) (polled s).1
  unfolding polled ◌>>=◌
  wait_step polls s b h =
      let bound =
        bind-IsBound (mark_stage p job_id stage_agent_wait)
          (λ _. try_except (outside (p.agent_online g)) pure (λ _. pure false)) s b h in
      rw (bound.first, bound.second) refl

  -- The state that the poll of this number leaves.
  abbrev pub state_at : ℕ → State W → State W
  state_at zero s = (polled s).1
  state_at (suc n) s = state_at n (polled s).1

  -- If the poll of some number is the first that finds the agent online, and there is time for more
  -- polls than that number, then the wait returns `true` in the state that this poll left.
  pub wait_until_healthy-online :
      (n polls : ℕ) (s : State W)
      → n < polls
      → IsOnlineAt n s
      → wait_until_healthy p polls g job_id s ≡ (ok true, state_at n s)
  unfolding pure
  wait_until_healthy-online n zero s lt h = elim lt [ ]
  wait_until_healthy-online zero (suc polls) s lt h = wait_step polls s true h
  wait_until_healthy-online (suc n) (suc polls) s lt (offline, later) =
      wait_step polls s false offline
      ∙ wait_until_healthy-online n polls (polled s).1 (omega arith) later
