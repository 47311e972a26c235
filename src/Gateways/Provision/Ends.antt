-- ===== src/Gateways/Provision/Ends.antt =====
-- How a provisioning that returns leaves its gateway.
use deep_orc.Prelude.{
  Bool-cases, ◌==◌, nat_eq, all, text_eq, ℕ, ◌≡◌, refl, ap, inl, inr, Bool, true, not, ◌||◌, Option,
  none, some, List, [], ◌∷◌, arith,
}
use deep_orc.Models.{GatewayStatus, Failure, Message, health_timeout, advertise_failed, Gateway}
use deep_orc.Tables.{update}
use deep_orc.Effects.{Result, ok, err, after, ◌>>=◌, handle, try_except, err_ne_ok}
use deep_orc.Database.{
  Database, gateway_keyed, job_keyed, peer_keyed, group_keyed, worker_keyed, enrollment_keyed,
  registration_keyed,
}
use deep_orc.Database.Gateways.{
  is_ready, is_error, set_status, update_gateway, update_gateway_status,
}
use deep_orc.Database.Jobs.{update_job, update_stage}
use deep_orc.Platform.{Platform}
use deep_orc.Session.{State, Action, commit, write}
use deep_orc.Session.Invariants.{Stays, Stays-bind}
use deep_orc.Stages.{stage_peer_setup}
use deep_orc.Gateways.Provision.{
  Polls, set_gateway_status, finish_provisioning, give_up, provision_gateway,
}
use deep_orc.Gateways.Provision.PeerSetup.{IsKept, mark_stage-Stays, set_up_peer-Stays}

-- An action that returns ends with `Q`, in the session and as committed.
pub record Ends {W A : Type 0} (Q : Database → Type 0) (m : Action W A) : Type 0 where
  pub at : (s : State W) (a : A) → (m s).0 ≡ ok a → Q (m s).1.db × Q (m s).1.saved

module _ {W A B : Type 0} {Q : Database → Type 0} (m : Action W A) (f : A → Action W B) where
  after-Ends :
      ((a : A) → Ends Q (f a))
      → (r : Result A) (s : State W) (b : B) → (after r f s).0 ≡ ok b
      → Q (after r f s).1.db × Q (after r f s).1.saved
  after-Ends k (ok a) s b h = (k a).at s b h
  after-Ends k (err e) s b h = absurd (err_ne_ok h)

  -- What the last step ends with.
  pub Ends-bind : ((a : A) → Ends Q (f a)) → Ends Q (m >>= f)
  unfolding ◌>>=◌
  Ends-bind k = record { at = λ s b h. after-Ends k (m s).0 (m s).1 b h }

  after-then :
      ((a : A) → Stays Q (f a))
      → (r : Result A) (s : State W) → ((a : A) → r ≡ ok a → Q s.db × Q s.saved)
      → (b : B) → (after r f s).0 ≡ ok b
      → Q (after r f s).1.db × Q (after r f s).1.saved
  after-then k (ok a) s q b h = (k a).at s (q a refl).0 (q a refl).1
  after-then k (err e) s q b h = absurd (err_ne_ok h)

  -- What an earlier step ends with, and the later ones keep.
  pub Ends-then : Ends Q m → ((a : A) → Stays Q (f a)) → Ends Q (m >>= f)
  unfolding ◌>>=◌
  Ends-then e k = record { at = λ s b h. after-then k (m s).0 (m s).1 (λ a r. e.at s a r) b h }

module _ {W A B : Type 0} {Q : Database → Type 0} (m : Action W A) (f : A → Action W B)
    (g : Failure → Action W B) where
  handle-Ends :
      ((a : A) → Ends Q (f a))
      → ((e : Failure) → Ends Q (g e))
      → (r : Result A) (s : State W) (b : B) → (handle r f g s).0 ≡ ok b
      → Q (handle r f g s).1.db × Q (handle r f g s).1.saved
  handle-Ends kf kg (ok a) s b h = (kf a).at s b h
  handle-Ends kf kg (err e) s b h = (kg e).at s b h

  pub Ends-try_except :
      ((a : A) → Ends Q (f a)) → ((e : Failure) → Ends Q (g e)) → Ends Q (try_except m f g)
  unfolding try_except
  Ends-try_except kf kg = record { at = λ s b h. handle-Ends kf kg (m s).0 (m s).1 b h }

-- READY or ERROR, if it is the gateway.
abbrev pub has_settled : ℕ → Gateway → Bool
has_settled k g = not (g.id == k) || is_ready g.status || is_error g.status

abbrev pub HasSettled : ℕ → Database → Type 0
HasSettled k db = all (has_settled k) db.gateways ≡ true

status_settled :
    (k : ℕ) (status : GatewayStatus) (message : Option Message) (gateways : List Gateway)
    → (is_ready status || is_error status) ≡ true
    → all (has_settled k) (update k (set_status status message) gateways) ≡ true
status_settled k status message [] h = refl
status_settled k status message (g ∷ gateways) h = elim (Bool-cases (g.id == k)) [
  | inl hit ↦ rw hit (ground (arith, status_settled k status message gateways h, hit))
  | inr miss ↦ rw miss (ground (arith, status_settled k status message gateways h, miss))
]

module _ {W : Type 0} (p : Platform W) (k : ℕ) where
  HasSettled-IsKept : IsKept (HasSettled k)
  unfolding update_stage update_job
  HasSettled-IsKept = record {
    rows = λ db after e h. rw (ap (λ v. v.0) e) h;
    stage = λ now j stage db h. h;
  }

  set_gateway_status-Ends :
      (status : GatewayStatus) (message : Option Message)
      → (is_ready status || is_error status) ≡ true
      → Ends (HasSettled k) (set_gateway_status p k status message)
  unfolding write commit ◌>>=◌ update_gateway_status update_gateway
  set_gateway_status-Ends status message h = record {
    at = λ s a _. (
      status_settled k status message s.db.gateways h,
      status_settled k status message s.db.gateways h,
    );
  }

  finish_provisioning-Ends :
      (g : Gateway) (j : Option ℕ) → Ends (HasSettled k) (finish_provisioning p k g j)
  unfolding finish_provisioning
  finish_provisioning-Ends g j = Ends-bind _ _ (λ _. Ends-bind _ _ (λ _.
      Ends-try_except _ _ _
        (λ _. Ends-then _ _ (set_gateway_status-Ends GatewayStatus.ready none refl) (λ _.
          Stays-bind _ _ (mark_stage-Stays HasSettled-IsKept p j stage_peer_setup)
            (λ _. set_up_peer-Stays HasSettled-IsKept p k g)))
        (λ e. set_gateway_status-Ends GatewayStatus.error (some (advertise_failed e)) refl)))

  give_up-Ends : (g : Gateway) → Ends (HasSettled k) (give_up p k g)
  unfolding give_up
  give_up-Ends g =
      Ends-bind _ _ (λ _. set_gateway_status-Ends GatewayStatus.error (some health_timeout) refl)

  provision_gateway-Ends :
      (polls : Polls) (j : Option ℕ) → Ends (HasSettled k) (provision_gateway p polls k j)
  unfolding provision_gateway
  provision_gateway-Ends polls j = Ends-bind _ _ (λ g. Ends-bind _ _ (λ _. Ends-bind _ _ (λ _.
      Ends-bind _ _ (λ _. Ends-bind _ _ (λ _. Ends-bind _ _ (λ _. Ends-bind _ _ (λ _.
        Ends-bind _ _ (λ _. Ends-bind _ _ (λ _. Ends-bind _ _ (λ _. Ends-bind _ _ (λ _.
          Ends-bind _ _ (λ _. Ends-bind _ _ (λ healthy. elim (Bool-cases healthy) [
            | inl up ↦ rw up (finish_provisioning-Ends g j)
            | inr down ↦ rw down (give_up-Ends g)
          ])))))))))))))

  -- A provisioning that returns leaves the gateway READY or in ERROR, in the session and as
  -- committed, whatever Headscale, the VM and the agent do, and however setting up the peer goes.
  pub provision_gateway-HasSettled :
      (polls : Polls) (j : Option ℕ) (s : State W)
      → (provision_gateway p polls k j s).0 ≡ ok tt
      → HasSettled k (provision_gateway p polls k j s).1.db
        × HasSettled k (provision_gateway p polls k j s).1.saved
  provision_gateway-HasSettled polls j s h = (provision_gateway-Ends polls j).at s tt h
