-- ===== src/Database/Jobs/Laws.antt =====
-- What a flushed change leaves of a job.
use mathlib.Core.Logic.{if_pos, if_neg}
use deep_orc.Prelude.{nat_eq, text_eq, ℕ, ◌≡◌, refl, ap}
use deep_orc.Models.{Job}
use deep_orc.Database.{
  gateway_keyed, job_keyed, peer_keyed, group_keyed, worker_keyed, enrollment_keyed,
  registration_keyed,
}
use deep_orc.Database.Jobs.{Job-discrete, stamp}

module _ (now : ℕ) (f : Job → Job) (j : Job) where
  -- The stamp changes no column but `updated_at`.
  stamp-as :
      {A : Type 0} (column : Job → A)
      → ((r : Job) (t : ℕ) → column (record r { updated_at = t }) ≡ column r)
      → column (stamp now f j) ≡ column (f j)
  unfolding stamp
  stamp-as column free = elim (Job-discrete j (f j)) [
    | yes same ↦ rw (if_pos _ same) (ap column same)
    | no other ↦ rw (if_neg _ other) (free (f j) now)
  ]

  pub stamp-id : (stamp now f j).id ≡ (f j).id
  stamp-id = stamp-as (λ r. r.id) (λ r t. refl)

  pub stamp-type : (stamp now f j).type ≡ (f j).type
  stamp-type = stamp-as (λ r. r.type) (λ r t. refl)

  pub stamp-gateway_id : (stamp now f j).gateway_id ≡ (f j).gateway_id
  stamp-gateway_id = stamp-as (λ r. r.gateway_id) (λ r t. refl)

  pub stamp-status : (stamp now f j).status ≡ (f j).status
  stamp-status = stamp-as (λ r. r.status) (λ r t. refl)

  pub stamp-error : (stamp now f j).error ≡ (f j).error
  stamp-error = stamp-as (λ r. r.error) (λ r t. refl)
