-- ===== src/Gateways/Provision/Rows.antt =====
-- Provisioning deletes no gateway and no job.
use deep_orc.Prelude.{
  Bool-cases, nat_eq, contains, Text, text_eq, ℕ, zero, suc, ◌≡◌, refl, ap, ◌∙◌, inl, inr, Bool,
  true, false, Option, none, some,
}
use deep_orc.Models.{
  GatewayStatus, JobStatus, Reason, gateway_not_found, Message, health_timeout, advertise_failed,
  Gateway, Job,
}
use deep_orc.Tables.{keys, keys-update}
use deep_orc.Effects.{Exec, require, after}
use deep_orc.Database.{
  Database, gateway_keyed, job_keyed, peer_keyed, group_keyed, worker_keyed, enrollment_keyed,
  registration_keyed,
}
use deep_orc.Database.Gateways.{get_gateway, set_status, update_gateway, update_gateway_status}
use deep_orc.Database.Jobs.{
  stamp, update_job, set_job_status, update_job_status, set_stage, update_stage,
}
use deep_orc.Database.Jobs.Laws.{stamp-id}
use deep_orc.Platform.{Node, Platform}
use deep_orc.Session.{query}
use deep_orc.Session.Rules.{gateway_rows}
use deep_orc.Session.Invariants.{
  Stays, Stays-pure, Stays-outside, Stays-query, Stays-write, Stays-commit, Stays-pass_headscale,
  Stays-bind, Stays-try_except, stays_rules,
}
use deep_orc.Stages.{
  stage_vm_launch, stage_cloud_init, stage_agent_wait, stage_register, stage_peer_setup,
}
use deep_orc.Jobs.Settled.{set_stage-id}
use deep_orc.Gateways.Provision.{
  Polls, approve_id, approve_route, or_ask, store_exit, finalize_exit_node, set_gateway_status,
  finish_provisioning, give_up, poll_cloud_init, wait_until_healthy, provision_gateway,
}
use deep_orc.Gateways.Provision.PeerSetup.{
  IsKept, mark_stage-Stays, swallow-Stays, set_up_peer-Stays,
}

-- The gateway and the job have their rows.
pub record HasRows (gateway_id job_id : ℕ) (db : Database) : Type 0 where
  pub has_gateway : contains (keys db.gateways) gateway_id ≡ true
  pub has_job : contains (keys db.jobs) job_id ≡ true

module _ {gateway_id job_id : ℕ} where
  same_keys :
      (db after : Database)
      → keys after.gateways ≡ keys db.gateways
      → keys after.jobs ≡ keys db.jobs
      → HasRows gateway_id job_id db
      → HasRows gateway_id job_id after
  same_keys db after e f h = record { has_gateway = rw e h.has_gateway; has_job = rw f h.has_job }

  same_rows :
      (db after : Database)
      → gateway_rows after after ≡ gateway_rows db db
      → HasRows gateway_id job_id db
      → HasRows gateway_id job_id after
  same_rows db after e h = same_keys db after (ap (λ v. keys v.0) e) (ap (λ v. keys v.1) e) h

  pub update_gateway-HasRows :
      (k : ℕ) (f : Gateway → Gateway)
      → ((g : Gateway) → (f g).id ≡ g.id)
      → (db : Database) → HasRows gateway_id job_id db
      → HasRows gateway_id job_id (update_gateway k f db)
  unfolding update_gateway
  update_gateway-HasRows k f same db h =
      same_keys db (update_gateway k f db) (keys-update k f db.gateways same) refl h

  pub update_gateway_status-HasRows :
      (k : ℕ) (status : GatewayStatus) (message : Option Message) (db : Database)
      → HasRows gateway_id job_id db
      → HasRows gateway_id job_id (update_gateway_status k status message db)
  unfolding update_gateway_status
  update_gateway_status-HasRows k status message db h =
      update_gateway-HasRows k (set_status status message) (λ g. refl) db h

  pub update_job-HasRows :
      (now k : ℕ) (f : Job → Job)
      → ((j : Job) → (f j).id ≡ j.id)
      → (db : Database) → HasRows gateway_id job_id db
      → HasRows gateway_id job_id (update_job now k f db)
  unfolding update_job
  update_job-HasRows now k f same db h =
      same_keys db (update_job now k f db) refl
        (keys-update k (stamp now f) db.jobs (λ j. stamp-id now f j ∙ same j)) h

  pub update_job_status-HasRows :
      (now k : ℕ) (status : JobStatus) (error : Option Message) (db : Database)
      → HasRows gateway_id job_id db
      → HasRows gateway_id job_id (update_job_status now k status error db)
  unfolding update_job_status
  update_job_status-HasRows now k status error db h =
      update_job-HasRows now k (set_job_status status error) (λ j. refl) db h

  pub update_stage-HasRows :
      (now k : ℕ) (stage : Text) (touch : Bool) (db : Database)
      → HasRows gateway_id job_id db
      → HasRows gateway_id job_id (update_stage now k stage touch db)
  unfolding update_stage
  update_stage-HasRows now k stage touch db h =
      update_job-HasRows now k (set_stage now stage touch) (λ j. set_stage-id now stage touch j) db
        h

  pub HasRows-IsKept : IsKept (HasRows gateway_id job_id)
  HasRows-IsKept = record {
    rows = same_rows;
    stage = λ now k stage db h. update_stage-HasRows now k stage true db h;
  }

  module _ {W : Type 0} (p : Platform W) where
    pub set_gateway_status-Stays :
        (k : ℕ) (status : GatewayStatus) (message : Option Message)
        → Stays (HasRows gateway_id job_id) (set_gateway_status p k status message)
    set_gateway_status-Stays k status message =
        Stays-bind _ _ (Stays-write _ (update_gateway_status-HasRows k status message))
          (λ _. Stays-commit)

    store_exit-HasRows :
        (k : ℕ) (ip : Option Text) (db : Database)
        → HasRows gateway_id job_id db
        → HasRows gateway_id job_id (store_exit p k ip db)
    store_exit-HasRows k none db h = h
    store_exit-HasRows k (some ip) db h =
        update_gateway-HasRows k (λ g. record g { exit_node_id = ip }) (λ g. refl) db h

    approve_id-Stays : (id : Option ℕ) → Stays (HasRows gateway_id job_id) (approve_id p id)
    approve_id-Stays none = Stays-pure tt
    approve_id-Stays (some id) =
        Stays-try_except _ _ _ (Stays-outside _) (λ _. Stays-pure tt) (λ e. Stays-pass_headscale e)

    approve_route-Stays : (n : Option Node) → Stays (HasRows gateway_id job_id) (approve_route p n)
    approve_route-Stays none = Stays-pure tt
    approve_route-Stays (some node) = approve_id-Stays node.node_id

    or_ask-Stays :
        (o : Option Text) (m : Exec W (Option Text))
        → Stays (HasRows gateway_id job_id) (or_ask p o m)
    or_ask-Stays none m = Stays-outside m
    or_ask-Stays (some ip) m = Stays-pure (some ip)

    finalize_exit_node-Stays :
        (g : Gateway) → Stays (HasRows gateway_id job_id) (finalize_exit_node p g)
    unfolding finalize_exit_node
    finalize_exit_node-Stays g =
        search (stays_rules, approve_route-Stays, or_ask-Stays, Stays-write, store_exit-HasRows)
          depth 30

    finish_provisioning-Stays :
        (k : ℕ) (g : Gateway) (j : Option ℕ)
        → Stays (HasRows gateway_id job_id) (finish_provisioning p k g j)
    unfolding finish_provisioning
    finish_provisioning-Stays k g j =
        Stays-bind _ _ (mark_stage-Stays HasRows-IsKept p j stage_register) (λ _.
          Stays-bind _ _ (Stays-outside _) (λ _.
            Stays-try_except _ _ _ (finalize_exit_node-Stays g)
              (λ _. Stays-bind _ _ (set_gateway_status-Stays k GatewayStatus.ready none) (λ _.
                Stays-bind _ _ (mark_stage-Stays HasRows-IsKept p j stage_peer_setup)
                  (λ _. set_up_peer-Stays HasRows-IsKept p k g)))
              (λ e. set_gateway_status-Stays k GatewayStatus.error (some (advertise_failed e)))))

    give_up-Stays : (k : ℕ) (g : Gateway) → Stays (HasRows gateway_id job_id) (give_up p k g)
    unfolding give_up
    give_up-Stays k g =
        Stays-bind _ _ (swallow-Stays HasRows-IsKept p _ (Stays-outside _))
          (λ _. set_gateway_status-Stays k GatewayStatus.error (some health_timeout))

    poll_cloud_init-Stays :
        (polls : ℕ) (g : Gateway) (j : Option ℕ)
        → Stays (HasRows gateway_id job_id) (poll_cloud_init p polls g j)
    poll_cloud_init-Stays zero g j = Stays-pure tt
    poll_cloud_init-Stays (suc polls) g j =
        Stays-bind _ _ (mark_stage-Stays HasRows-IsKept p j stage_cloud_init) (λ _.
          Stays-try_except _ _ _ (Stays-outside _) (λ _. Stays-pure tt)
            (λ _. poll_cloud_init-Stays polls g j))

    wait_until_healthy-Stays :
        (polls : ℕ) (g : Gateway) (j : Option ℕ)
        → Stays (HasRows gateway_id job_id) (wait_until_healthy p polls g j)
    wait_until_healthy-Stays zero g j = Stays-pure false
    wait_until_healthy-Stays (suc polls) g j =
        Stays-bind _ _ (mark_stage-Stays HasRows-IsKept p j stage_agent_wait) (λ _.
          Stays-bind _ _
            (Stays-try_except _ _ _ (Stays-outside _) (λ b. Stays-pure b) (λ _. Stays-pure false))
            (λ online. elim (Bool-cases online) [
              | inl up ↦ rw up (Stays-pure true)
              | inr down ↦ rw down (wait_until_healthy-Stays polls g j)
            ]))

    require-Stays :
        {A : Type 0} (o : Database → Option A) (why : Reason)
        → Stays {W = W} (HasRows gateway_id job_id) (query (λ db. require why (o db) db))
    unfolding require
    require-Stays o why = Stays-query _ (λ db h. h)

    pub provision_gateway-Stays :
        (polls : Polls) (k : ℕ) (j : Option ℕ)
        → Stays (HasRows gateway_id job_id) (provision_gateway p polls k j)
    unfolding provision_gateway
    provision_gateway-Stays polls k j =
        Stays-bind _ _ (require-Stays (get_gateway k) gateway_not_found) (λ g.
          Stays-bind _ _ (Stays-outside _) (λ _. Stays-bind _ _ (Stays-outside _) (λ _.
            Stays-bind _ _ (Stays-outside _) (λ _. Stays-bind _ _ (Stays-query _ (λ db h. h)) (λ _.
              Stays-bind _ _
                (Stays-write _ (update_gateway_status-HasRows k GatewayStatus.provisioning none))
                (λ _. Stays-bind _ _ (mark_stage-Stays HasRows-IsKept p j stage_vm_launch) (λ _.
                  Stays-bind _ _ Stays-commit (λ _. Stays-bind _ _ (Stays-outside _) (λ _.
                    Stays-bind _ _ (mark_stage-Stays HasRows-IsKept p j stage_cloud_init) (λ _.
                      Stays-bind _ _ (poll_cloud_init-Stays polls.cloud_init g j) (λ _.
                        Stays-bind _ _ (mark_stage-Stays HasRows-IsKept p j stage_agent_wait) (λ _.
                          Stays-bind _ _ (wait_until_healthy-Stays polls.agent g j) (λ healthy.
                            elim (Bool-cases healthy) [
                              | inl up ↦ rw up (finish_provisioning-Stays k g j)
                              | inr down ↦ rw down (give_up-Stays k g)
                            ])))))))))))))
