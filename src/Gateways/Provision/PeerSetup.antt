-- ===== src/Gateways/Provision/PeerSetup.antt =====
-- The steps of a provisioning that leave the gateways' rows as they are.
use deep_orc.Prelude.{
  Bool-cases, nat_eq, Text, text_eq, ℕ, ◌≡◌, inl, inr, Bool, true, Option, none, some, List, [],
  ◌∷◌,
}
use deep_orc.Models.{
  Reason, peer_limit, peer_exists, Failure, value_error, headscale_error, agent_error, incus_error,
  integrity_error, Gateway, Peer,
}
use deep_orc.Effects.{raise_if}
use deep_orc.Database.{
  Database, gateway_keyed, job_keyed, peer_keyed, group_keyed, worker_keyed, enrollment_keyed,
  registration_keyed,
}
use deep_orc.Database.Gateways.{is_ready}
use deep_orc.Database.Jobs.{update_stage}
use deep_orc.Platform.{Platform}
use deep_orc.Session.{Action, query}
use deep_orc.Session.Rules.{gateway_rows}
use deep_orc.Session.Invariants.{
  Stays, Stays-of_Keeps, Stays-pure, Stays-outside, Stays-ask, Stays-query, Stays-commit,
  Stays-rollback, Stays-bind, Stays-try_except,
}
use deep_orc.Stages.{set_provision_stage, mark_stage}
use deep_orc.Peers.{default_backhaul_peer_name, create_peer, ensure_for, ensure_backhaul_peer}
use deep_orc.Peers.Steps.{allocate_peer_ip-rows, get_agent-Keeps, set_gateway_uplink_peer-Keeps}
use deep_orc.Peers.Laws.{store_peer-rows}
use deep_orc.Gateways.Provision.{swallow, skip_or_rollback, set_up_peer}

-- What is kept by a write to other tables than those of gateways and jobs, and by a heartbeat.
pub record IsKept (P : Database → Type 0) : Type 0 where
  pub rows : (db after : Database) → gateway_rows after after ≡ gateway_rows db db → P db → P after
  pub stage :
      (now k : ℕ) (stage : Text) (db : Database) → P db → P (update_stage now k stage true db)

module _ {P : Database → Type 0} (kept : IsKept P) {W : Type 0} (p : Platform W) where
  pub set_provision_stage-Stays : (k : ℕ) (stage : Text) → Stays P (set_provision_stage p k stage)
  unfolding set_provision_stage
  set_provision_stage-Stays k stage = record {
    at = λ s h _.
        (kept.stage (p.now s.world) k stage s.db h, kept.stage (p.now s.world) k stage s.db h);
  }

  pub mark_stage-Stays : (k : Option ℕ) (stage : Text) → Stays P (mark_stage p k stage)
  mark_stage-Stays none stage = Stays-pure tt
  mark_stage-Stays (some k) stage = set_provision_stage-Stays k stage

  pub swallow-Stays : {A : Type 0} (m : Action W A) → Stays P m → Stays P (swallow p m)
  unfolding swallow
  swallow-Stays m k = Stays-try_except _ _ _ k (λ _. Stays-pure tt) (λ _. Stays-pure tt)

  raise_if-Stays :
      (b : Database → Bool) (why : Reason) → Stays {W = W} P (query (λ db. raise_if (b db) why db))
  unfolding raise_if
  raise_if-Stays b why = Stays-query _ (λ db h. h)

  create_peer-Stays : (k : ℕ) (name : Text) → Stays P (create_peer p k name)
  unfolding create_peer
  create_peer-Stays k name = Stays-bind _ _ (Stays-of_Keeps _ (get_agent-Keeps p k)) (λ g.
      Stays-bind _ _ (raise_if-Stays _ peer_limit) (λ _.
        Stays-bind _ _ (raise_if-Stays _ peer_exists) (λ _.
          Stays-bind _ _ (Stays-outside _) (λ pair.
            Stays-bind _ _
              (Stays-query _ (λ db h. kept.rows db _ (allocate_peer_ip-rows g db db) h))
              (λ ip. Stays-bind _ _ (Stays-outside _) (λ privkey_enc.
                Stays-bind _ _
                  (Stays-query _ (λ db h. kept.rows db _ (store_peer-rows p _ db db) h))
                  (λ q. Stays-bind _ _ (Stays-outside _) (λ _.
                    Stays-bind _ _
                      (Stays-of_Keeps _ (set_gateway_uplink_peer-Keeps p g pair.public_key))
                      (λ _.
                        Stays-bind _ _ (Stays-query _ (λ db h. h))
                          (λ _. Stays-bind _ _ Stays-commit (λ _. Stays-pure _)))))))))))

  ensure_for-Stays :
      (k : ℕ) (peers : List Peer) (found : Option Gateway) → Stays P (ensure_for p k peers found)
  ensure_for-Stays k peers none = Stays-pure tt
  ensure_for-Stays k (q ∷ peers) (some g) = Stays-pure tt
  ensure_for-Stays k [] (some g) = elim (Bool-cases (is_ready g.status)) [
    | inl up ↦ rw up (
        Stays-bind _ _ (create_peer-Stays k (default_backhaul_peer_name g.name))
          (λ _. Stays-pure tt))
    | inr down ↦ rw down (Stays-pure tt)
  ]

  ensure_backhaul_peer-Stays : (k : ℕ) → Stays P (ensure_backhaul_peer p k)
  unfolding ensure_backhaul_peer
  ensure_backhaul_peer-Stays k =
      Stays-bind _ _ (Stays-ask _)
        (λ found. Stays-bind _ _ (Stays-ask _) (λ peers. ensure_for-Stays k peers found))

  skip_or_rollback-Stays : (e : Failure) → Stays P (skip_or_rollback p e)
  skip_or_rollback-Stays (value_error why) = Stays-pure tt
  skip_or_rollback-Stays headscale_error = Stays-rollback
  skip_or_rollback-Stays agent_error = Stays-rollback
  skip_or_rollback-Stays incus_error = Stays-rollback
  skip_or_rollback-Stays integrity_error = Stays-rollback

  pub set_up_peer-Stays : (k : ℕ) (g : Gateway) → Stays P (set_up_peer p k g)
  unfolding set_up_peer
  set_up_peer-Stays k g =
      Stays-try_except _ _ _
        (Stays-bind _ _ (ensure_backhaul_peer-Stays k)
          (λ _. swallow-Stays _ (Stays-bind _ _ (Stays-outside _) (λ _. Stays-outside _))))
        (λ _. Stays-pure tt) skip_or_rollback-Stays
