-- ===== src/Jobs/Resume/Laws.antt =====
-- For which gateways the recovery starts a thread.
use deep_orc.Prelude.{
  if◌then◌else◌, Bool-cases, nat_eq, all, all-append, contains, text_eq, ℕ, ◌≡◌, refl, ◌∙◌, subst,
  inl, inr, Bool, true, false, not, ◌||◌, Option, none, some, List, [], ◌∷◌, ◌++◌, arith,
}
use deep_orc.Models.{Gateway, Job}
use deep_orc.Effects.{ok, pure, ◌>>=◌, ◌>>◌, ok_value}
use deep_orc.Database.{
  Database, gateway_keyed, job_keyed, peer_keyed, group_keyed, worker_keyed, enrollment_keyed,
  registration_keyed,
}
use deep_orc.Database.Gateways.{is_deleting}
use deep_orc.Database.Jobs.{is_pending, is_running}
use deep_orc.Platform.{Platform, Settings}
use deep_orc.Session.{State, Action, commit}
use deep_orc.Session.Rules.{Returns, Returns-bind, Returns-seq}
use deep_orc.Gateways.{needs_provisioning}
use deep_orc.Jobs.{is_stale_running_job}
use deep_orc.Jobs.Resume.{
  Started, start, prepare_and_start, start_renewed, resume_latest, resume_gateway, resume_gateways,
  resume_incomplete_provisioning, resume_delete_job, resume_deletion, resume_deletions,
  resume_incomplete_deletions,
}

-- No thread is running for any of these gateways.
abbrev pub all_idle : List ℕ → Started → Bool
all_idle active started = all (λ item. not (contains active item.0)) started

abbrev nothing : Database → Database → Unit {0}
nothing db saved = tt

-- An action whose answer starts threads for idle gateways only.
abbrev StartsIdle : {W : Type 0} → List ℕ → Action W Started → Type 0
StartsIdle active m = Returns nothing tt m (λ started db saved. all_idle active started ≡ true)

start-idle :
    (active : List ℕ) (gateway_id : ℕ) (j : Option Job)
    → contains active gateway_id ≡ false
    → all_idle active (start gateway_id j) ≡ true
start-idle active gateway_id none idle = refl
start-idle active gateway_id (some j) idle = ground arith

start_pending-idle :
    (active : List ℕ) (gateway_id : ℕ) (j : Job)
    → contains active gateway_id ≡ false
    → all_idle active (if is_pending j.status then start gateway_id (some j) else []) ≡ true
start_pending-idle active gateway_id j idle = ground arith

pure-StartsIdle :
    {W : Type 0} (active : List ℕ) (started : Started)
    → all_idle active started ≡ true
    → StartsIdle {W = W} active (pure started)
unfolding pure
pure-StartsIdle active started h = record {
  at = λ s e a r. subst (λ x. all_idle active x ≡ true) (ok_value r) h;
}

bind-StartsIdle :
    {W A : Type 0} (active : List ℕ) (m : Action W A) (f : A → Action W Started)
    → ((a : A) → StartsIdle active (f a))
    → StartsIdle active (m >>= f)
bind-StartsIdle active m f k = Returns-bind m f (record { at = λ s. refl }) k

module _ {W : Type 0} (p : Platform W) (config : Settings) (active : List ℕ) where
  prepare_and_start-StartsIdle :
      (gateway_id : ℕ)
      → contains active gateway_id ≡ false
      → StartsIdle active (prepare_and_start p config gateway_id)
  prepare_and_start-StartsIdle gateway_id idle = bind-StartsIdle active _ _ (λ _.
      bind-StartsIdle active _ _
        (λ j. pure-StartsIdle active _ (start-idle active gateway_id j idle)))

  start_renewed-StartsIdle :
      (gateway_id : ℕ) (j : Option Job)
      → contains active gateway_id ≡ false
      → StartsIdle active (start_renewed p config gateway_id j)
  start_renewed-StartsIdle gateway_id none idle = prepare_and_start-StartsIdle gateway_id idle
  start_renewed-StartsIdle gateway_id (some j) idle =
      pure-StartsIdle active _ (start_pending-idle active gateway_id j idle)

  resume_latest-StartsIdle :
      (gateway_id : ℕ) (j : Option Job)
      → contains active gateway_id ≡ false
      → StartsIdle active (resume_latest p config gateway_id j)
  resume_latest-StartsIdle gateway_id none idle = prepare_and_start-StartsIdle gateway_id idle
  resume_latest-StartsIdle gateway_id (some j) idle = elim (Bool-cases (is_running j.status)) [
    | inl runs ↦ rw runs (
        bind-StartsIdle active _ _ (λ _.
          bind-StartsIdle active _ _ (λ renewed. start_renewed-StartsIdle gateway_id renewed idle)))
    | inr rests ↦ rw rests (pure-StartsIdle active _ (start_pending-idle active gateway_id j idle))
  ]

  resume_gateway-StartsIdle : (g : Gateway) → StartsIdle active (resume_gateway p config active g)
  resume_gateway-StartsIdle g =
      elim (Bool-cases (not (needs_provisioning g.status) || contains active g.id)) [
        | inl passed ↦ rw passed (pure-StartsIdle active [] refl)
        | inr taken ↦
            rw taken
              (bind-StartsIdle active _ _ (λ j. resume_latest-StartsIdle g.id j (ground arith)))
      ]

  resume_delete_job-StartsIdle :
      (gateway_id now : ℕ) (j : Option Job)
      → contains active gateway_id ≡ false
      → StartsIdle active (resume_delete_job p config gateway_id now j)
  resume_delete_job-StartsIdle gateway_id now none idle = bind-StartsIdle active _ _ (λ t.
      bind-StartsIdle active _ _
        (λ job_id. bind-StartsIdle active _ _ (λ _. pure-StartsIdle active _ (ground arith))))
  resume_delete_job-StartsIdle gateway_id now (some j) idle =
      elim (Bool-cases (is_stale_running_job now j)) [
        | inl stale ↦ rw stale (
            bind-StartsIdle active _ _ (λ _.
              bind-StartsIdle active _ _
                (λ _. pure-StartsIdle active _ (start-idle active gateway_id (some j) idle))))
        | inr fresh ↦
            rw fresh (pure-StartsIdle active _ (start_pending-idle active gateway_id j idle))
      ]

  resume_deletion-StartsIdle : (g : Gateway) → StartsIdle active (resume_deletion p config active g)
  resume_deletion-StartsIdle g =
      elim (Bool-cases (not (is_deleting g.status) || contains active g.id)) [
        | inl passed ↦ rw passed (pure-StartsIdle active [] refl)
        | inr taken ↦ rw taken (
            bind-StartsIdle active _ _ (λ j.
              bind-StartsIdle active _ _
                (λ now. resume_delete_job-StartsIdle g.id now j (ground arith))))
      ]

  -- One gateway after the other.
  then-StartsIdle :
      (m rest : Action W Started)
      → StartsIdle active m
      → StartsIdle active rest
      → StartsIdle active (m >>= λ first_ones. rest >>= λ others. pure (first_ones ++ others))
  then-StartsIdle m rest h k =
      Returns-seq m _ {w = λ _. tt} {Fact = λ started. all_idle active started ≡ true}
        (record { at = λ s e a r. (refl, h.at s e a r) })
        (λ first_ones idle.
          Returns-seq rest _ {w = λ _. tt} {Fact = λ started. all_idle active started ≡ true}
            (record { at = λ s e a r. (refl, k.at s e a r) })
            (λ others also. pure-StartsIdle active (first_ones ++ others) (
              all-append (λ item. not (contains active item.0)) first_ones others
              ∙ rw (idle, also) refl)))

  resume_gateways-StartsIdle :
      (gateways : List Gateway) → StartsIdle active (resume_gateways p config active gateways)
  resume_gateways-StartsIdle [] = pure-StartsIdle active [] refl
  resume_gateways-StartsIdle (g ∷ gateways) =
      then-StartsIdle _ _ (resume_gateway-StartsIdle g) (resume_gateways-StartsIdle gateways)

  resume_deletions-StartsIdle :
      (gateways : List Gateway) → StartsIdle active (resume_deletions p config active gateways)
  resume_deletions-StartsIdle [] = pure-StartsIdle active [] refl
  resume_deletions-StartsIdle (g ∷ gateways) =
      then-StartsIdle _ _ (resume_deletion-StartsIdle g) (resume_deletions-StartsIdle gateways)

  -- A recovery of deletions that returns starts threads only for gateways for which none is running.
  pub resume_incomplete_deletions-idle :
      (s : State W) (started : Started)
      → (resume_incomplete_deletions p config active s).0 ≡ ok started
      → all_idle active started ≡ true
  unfolding resume_incomplete_deletions
  resume_incomplete_deletions-idle s started h =
      (bind-StartsIdle active _ _ resume_deletions-StartsIdle).at s refl started h

  finish-StartsIdle :
      (gateways : List Gateway)
      → StartsIdle active
          (resume_gateways p config active gateways >>= λ started. commit >> pure started)
  finish-StartsIdle gateways =
      Returns-seq _ _ {w = λ _. tt} {Fact = λ started. all_idle active started ≡ true}
        (record { at = λ s e a r. (refl, (resume_gateways-StartsIdle gateways).at s e a r) })
        (λ started idle. bind-StartsIdle active _ _ (λ _. pure-StartsIdle active started idle))

  -- A recovery of provisioning that returns starts threads only for gateways for which none is
  -- running.
  pub resume_incomplete_provisioning-idle :
      (s : State W) (started : Started)
      → (resume_incomplete_provisioning p config active s).0 ≡ ok started
      → all_idle active started ≡ true
  unfolding resume_incomplete_provisioning
  resume_incomplete_provisioning-idle s started h =
      (bind-StartsIdle active _ _ finish-StartsIdle).at s refl started h
