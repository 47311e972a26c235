-- ===== src/Gateways/Lifecycle/Laws.antt =====
-- What the requests leave behind.
use deep_orc.Prelude.{
  Bool-cases, Option-cases, nat_eq, text_eq, ℕ, ◌≡◌, refl, sym, ◌∙◌, subst, inl, inr, Bool, true,
  ◌&&◌, Option, none, some, List, [], ◌∷◌, ◌++◌, arith,
}
use deep_orc.Models.{GatewayStatus, JobType, gateway_not_found, value_error, Message, Gateway, Job}
use deep_orc.Tables.{get, update, get-update_self}
use deep_orc.Effects.{Result, ok, err, ◌>>=◌, err_ne_ok, ok_value}
use deep_orc.Database.{
  Database, gateway_keyed, job_keyed, peer_keyed, group_keyed, worker_keyed, enrollment_keyed,
  registration_keyed,
}
use deep_orc.Database.Gateways.{is_deleting, get_gateway, set_status, update_gateway_status}
use deep_orc.Database.Jobs.{is_pending, create_job_row, latest, is_delete_of, get_latest_delete_job}
use deep_orc.Platform.{Platform, Settings}
use deep_orc.Session.{State, query, ask, read_world, commit, write}
use deep_orc.Gateways.Create.{new_job, fresh_job_id}
use deep_orc.Gateways.Lifecycle.{
  is_open, deletion_under_way, start_delete, kept_or_start, request_delete_gateway,
}

latest-snoc :
    (p : Job → Bool) (js : List Job) (j : Job) → p j ≡ true → latest p (js ++ j ∷ []) ≡ some j
latest-snoc p [] j h = ground arith
latest-snoc p (i ∷ js) j h = ground (arith, latest-snoc p js j h)

latest-holds : (p : Job → Bool) (js : List Job) (j : Job) → latest p js ≡ some j → p j ≡ true
latest-holds p [] j h = cc
latest-holds p (i ∷ js) j h = ground (arith, latest-holds p js j)

get-status :
    (k : ℕ) (status : GatewayStatus) (message : Option Message) (rows : List Gateway) (g : Gateway)
    → get k rows ≡ some g
    → get k (update k (set_status status message) rows) ≡ some (set_status status message g)
get-status k status message rows g h =
    get-update_self k (set_status status message) rows g (λ r. refl) h

module _ {W : Type 0} (p : Platform W) (config : Settings) (gateway_id : ℕ) where
  -- The deletion of the gateway is under way, with the job `k`.
  pub record IsDeleting (k : ℕ) (db : Database) : Type 0 where
    pub gateway : Gateway
    pub job : Job
    pub found : get_gateway gateway_id db ≡ some gateway
    pub deleting : is_deleting gateway.status ≡ true
    pub latest_job : get_latest_delete_job gateway_id db ≡ some job
    pub open_job : is_open job.status ≡ true
    pub same_job : job.id ≡ k

  IsDeleting-under_way :
      (k : ℕ) (db : Database) (d : IsDeleting k db)
      → deletion_under_way d.gateway (some d.job) ≡ some k
  IsDeleting-under_way k db d = rw (d.deleting, d.open_job, d.same_job)

  -- What the request sees first: whether there is such a gateway, and its last delete job.
  request-found :
      (s : State W) (g : Gateway) (existing : Option Job)
      → get_gateway gateway_id s.db ≡ some g
      → get_latest_delete_job gateway_id s.db ≡ existing
      → request_delete_gateway p config gateway_id s
        ≡ kept_or_start p config gateway_id
            (p.now s.world)
            existing
            (deletion_under_way g existing)
            s
  unfolding request_delete_gateway query ask read_world ◌>>=◌
  request-found s g existing found latest = rw (found, latest)

  request-missing :
      (s : State W)
      → get_gateway gateway_id s.db ≡ none
      → (request_delete_gateway p config gateway_id s).0 ≡ err (value_error gateway_not_found)
  unfolding request_delete_gateway query ask read_world ◌>>=◌
  request-missing s missing = rw missing

  -- Asking again for what is under way changes nothing.
  request-again :
      (s : State W) (k : ℕ)
      → IsDeleting k s.db
      → request_delete_gateway p config gateway_id s ≡ (ok k, s)
  unfolding ◌>>=◌
  request-again s k d =
      rw
        (request-found s d.gateway (some d.job) d.found d.latest_job, IsDeleting-under_way k s.db d)

  abbrev marked : Database → Database
  marked db = update_gateway_status gateway_id GatewayStatus.deleting none db

  abbrev delete_job : ℕ → Database → Job
  delete_job now db =
      new_job p config JobType.delete_gateway gateway_id now (fresh_job_id p config db)

  marked-IsDeleting :
      (g : Gateway) (job : Job) (db : Database)
      → get_gateway gateway_id db ≡ some g
      → get_latest_delete_job gateway_id db ≡ some job
      → is_open job.status ≡ true
      → IsDeleting job.id (marked db)
  unfolding update_gateway_status get_latest_delete_job
  marked-IsDeleting g job db found latest live = record {
    gateway = set_status GatewayStatus.deleting none g;
    job = job;
    found = get-status gateway_id GatewayStatus.deleting none db.gateways g found;
    deleting = refl;
    latest_job = latest;
    open_job = live;
    same_job = refl;
  }

  with_delete_job-IsDeleting :
      (g : Gateway) (now : ℕ) (db : Database)
      → get_gateway gateway_id db ≡ some g
      → IsDeleting (delete_job now db).id (create_job_row (delete_job now db) (marked db))
  unfolding update_gateway_status get_latest_delete_job create_job_row
  with_delete_job-IsDeleting g now db found = record {
    gateway = set_status GatewayStatus.deleting none g;
    job = delete_job now db;
    found = get-status gateway_id GatewayStatus.deleting none db.gateways g found;
    deleting = refl;
    latest_job = latest-snoc (is_delete_of gateway_id) db.jobs (delete_job now db) (ground arith);
    open_job = refl;
    same_job = refl;
  }

  -- What `start_delete` ends with.
  record Starts (s : State W) (r : Result ℕ × State W) : Type 0 where
    id : ℕ
    returns : r.0 ≡ ok id
    under_way : IsDeleting id r.1.db
    saved : r.1.saved ≡ r.1.db

  start_delete-new :
      (s : State W) (g : Gateway) (now : ℕ)
      → get_gateway gateway_id s.db ≡ some g
      → Starts s (start_delete p config gateway_id now none s)
  unfolding write query commit update_gateway_status create_job_row ◌>>=◌
  start_delete-new s g now found = record {
    id = (delete_job now s.db).id;
    returns = refl;
    under_way = with_delete_job-IsDeleting g now s.db found;
    saved = refl;
  }

  start_delete-old :
      (s : State W) (g : Gateway) (j : Job) (now : ℕ)
      → get_gateway gateway_id s.db ≡ some g
      → get_latest_delete_job gateway_id s.db ≡ some j
      → Starts s (start_delete p config gateway_id now (some j) s)
  unfolding write query commit update_gateway_status create_job_row ◌>>=◌
  start_delete-old s g j now found latest = elim (Bool-cases (is_pending j.status)) [
    | inl waits ↦ rw waits (record {
      id = j.id;
      returns = refl;
      under_way = marked-IsDeleting g j s.db found latest (ground arith);
      saved = refl;
    })
    | inr done ↦ rw done (start_delete-new s g now found)
  ]

  Starts-IsDeleting :
      (s : State W) (r : Result ℕ × State W) (k : ℕ) → Starts s r → r.0 ≡ ok k → IsDeleting k r.1.db
  Starts-IsDeleting s r k h e =
      subst (λ i. IsDeleting i r.1.db) (ok_value (sym h.returns ∙ e)) h.under_way

  kept_or_start-IsDeleting :
      (s : State W) (g : Gateway) (now k : ℕ) (existing : Option Job)
      → get_gateway gateway_id s.db ≡ some g
      → get_latest_delete_job gateway_id s.db ≡ existing
      → (kept_or_start p config gateway_id now existing (deletion_under_way g existing) s).0 ≡ ok k
      → IsDeleting k
          (kept_or_start p config gateway_id now existing (deletion_under_way g existing) s).1.db
  unfolding ◌>>=◌
  kept_or_start-IsDeleting s g now k none found latest h =
      Starts-IsDeleting s (start_delete p config gateway_id now none s) k
        (start_delete-new s g now found) h
  kept_or_start-IsDeleting s g now k (some j) found latest h =
      elim (Bool-cases (is_deleting g.status && is_open j.status)) [
        | inr starts ↦ rw starts (
            Starts-IsDeleting s (start_delete p config gateway_id now (some j) s) k
              (start_delete-old s g j now found latest) (rw starts at h))
        | inl under_way ↦ rw under_way (record {
          gateway = g;
          job = j;
          found = found;
          deleting = ground arith;
          latest_job = latest;
          open_job = ground arith;
          same_job = ok_value (rw under_way at h);
        })
      ]

  -- A request to delete a gateway that returns leaves the gateway DELETING, and the job that it
  -- returns is the gateway's last delete job and is pending or running.
  pub request_delete_gateway-IsDeleting :
      (s : State W) (k : ℕ)
      → (request_delete_gateway p config gateway_id s).0 ≡ ok k
      → IsDeleting k (request_delete_gateway p config gateway_id s).1.db
  request_delete_gateway-IsDeleting s k h = elim (Option-cases (get_gateway gateway_id s.db)) [
    | inl missing ↦ absurd (err_ne_ok (sym (request-missing s missing) ∙ h))
    | inr (g, found) ↦
        let step = request-found s g (get_latest_delete_job gateway_id s.db) found refl in
        rw step (
          kept_or_start-IsDeleting s g (p.now s.world) k (get_latest_delete_job gateway_id s.db)
            found refl (rw step at h))
  ]

  -- Asking again at once returns the same job and changes nothing.
  pub request_delete_gateway_idem :
      (s : State W) (k : ℕ)
      → (request_delete_gateway p config gateway_id s).0 ≡ ok k
      → request_delete_gateway p config gateway_id (request_delete_gateway p config gateway_id s).1
        ≡ (ok k, (request_delete_gateway p config gateway_id s).1)
  request_delete_gateway_idem s k h =
      request-again (request_delete_gateway p config gateway_id s).1 k
        (request_delete_gateway-IsDeleting s k h)
