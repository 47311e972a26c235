-- ===== src/Gateways/Create/Laws.antt =====
-- What `create_gateway` does as a whole.
use deep_orc.Prelude.{
  Bool-cases, ◌==◌, nat_eq, any, Text, text_eq, ℕ, ◌≡◌, refl, ap, inl, inr, false, ◌&&◌, Option,
  none, some, List, [], ◌∷◌, ◌++◌,
}
use deep_orc.Models.{
  GatewayStatus, JobType, JobStatus, gateway_exists, no_name, Failure, Gateway, Job, Worker,
}
use deep_orc.Effects.{Result, ok, err, pure, after, ◌>>=◌, ◌>>◌, err_ne_ok, ok_value}
use deep_orc.Database.{
  Database, gateway_keyed, job_keyed, peer_keyed, group_keyed, worker_keyed, enrollment_keyed,
  registration_keyed,
}
use deep_orc.Pools.{allocate_vm_ip, allocate_udp_port}
use deep_orc.Pools.VmIp.{allocate_vm_ip-cases}
use deep_orc.Pools.UdpPort.{allocate_udp_port-cases}
use deep_orc.Wg.{allocate_wg_subnet}
use deep_orc.Platform.{KeyPair, Platform, Settings}
use deep_orc.Session.{State, Action, query, commit}
use deep_orc.Session.Rules.{
  Atomic, Returns, Keeps-outside, Keeps-from_headscale, Keeps-read_world, Keeps-query,
  Atomic-commit, Atomic-bind, Returns-bind, keeps_rules, committed, gateway_rows,
  Keeps-committed-query,
}
use deep_orc.Session.Checks.{raise_if-Keeps, require-Keeps}
use deep_orc.Gateways.{CreateGatewayRequest, CreateGatewayResult, chosen_port}
use deep_orc.Gateways.Create.{new_gateway, store_gateway, create_gateway}
use deep_orc.Gateways.Create.Rows.{IsStored, store_gateway-IsStored}

allocate_vm_ip-rows :
    (worker : Worker) (db saved : Database)
    → gateway_rows (allocate_vm_ip worker db).1 saved ≡ gateway_rows db saved
allocate_vm_ip-rows worker db saved = elim (allocate_vm_ip-cases worker db) [
  | inl (ip, f, e) ↦ rw e
  | inr (e, _) ↦ rw e
]

allocate_udp_port-rows :
    (worker : Worker) (db saved : Database)
    → gateway_rows (allocate_udp_port worker none db).1 saved ≡ gateway_rows db saved
allocate_udp_port-rows worker db saved = elim (allocate_udp_port-cases worker none db) [
  | inl (n, f, e) ↦ rw e
  | inr (e, _) ↦ rw e
]

chosen_port-rows :
    (port : Option ℕ) (worker : Worker) (db saved : Database)
    → gateway_rows (chosen_port port worker db).1 saved ≡ gateway_rows db saved
unfolding pure
chosen_port-rows none worker db saved = allocate_udp_port-rows worker db saved
chosen_port-rows (some port) worker db saved = elim (Bool-cases (port == 0)) [
  | inr given ↦ rw given
  | inl zero_port ↦ rw zero_port (allocate_udp_port-rows worker db saved)
]

module _ {W : Type 0} (p : Platform W) (config : Settings) (request : CreateGatewayRequest) where
  create_gateway-Atomic : Atomic committed (create_gateway p config request)
  unfolding create_gateway
  create_gateway-Atomic =
      search (keeps_rules, Keeps-committed-query, Atomic-bind, Atomic-commit) depth 40

  -- A call that raises, wherever it does, has committed nothing.
  pub create_gateway_atomic :
      (s : State W) (e : Failure)
      → (create_gateway p config request s).0 ≡ err e
      → (create_gateway p config request s).1.saved ≡ s.saved
  create_gateway_atomic s e h = create_gateway-Atomic.at s e h

-- What `create_gateway` leaves of the tables of gateways and jobs.
pub record IsCreated {W : Type 0} (p : Platform W) (config : Settings)
    (request : CreateGatewayRequest) (gateways : List Gateway) (jobs : List Job)
    (gateway_id job_id : ℕ) (db saved : Database) : Type 0 where
  pub gateway : Gateway
  pub job : Job
  pub gateway_added : db.gateways ≡ gateways ++ gateway ∷ []
  pub job_added : db.jobs ≡ jobs ++ job ∷ []
  pub gateway_key : gateway.id ≡ gateway_id
  pub job_key : job.id ≡ job_id
  pub job_owner : job.gateway_id ≡ some gateway_id
  pub gateway_pending : gateway.status ≡ GatewayStatus.pending
  pub job_pending : job.status ≡ JobStatus.pending
  pub job_kind : job.type ≡ JobType.create_gateway
  pub subnet : gateway.wg_subnet ≡ some (allocate_wg_subnet config.wg_subnet_base gateway_id).subnet
  pub group : gateway.peer_group_id ≡ request.peer_group_id
  pub address : gateway.lan_ip ≡ request.lan_ip
  pub new_name : any (λ g. g.name == gateway.name) gateways ≡ false
  pub new_port :
      any (λ g. g.worker_id == gateway.worker_id && g.udp_port == gateway.udp_port) gateways ≡ false
  pub all_saved : saved ≡ db

module _ {W : Type 0} (p : Platform W) (config : Settings) (request : CreateGatewayRequest)
    (name : Text) (worker : Worker) (vm_ip udp_port : ℕ) (pair : KeyPair)
    (privkey_enc key_enc token token_enc : Text) (now : ℕ) (gateways : List Gateway)
    (jobs : List Job) where
  abbrev row : ℕ → Gateway
  row =
      new_gateway p config request name worker vm_ip udp_port pair privkey_enc key_enc token
        token_enc

  abbrev ids_answer : ℕ × ℕ → CreateGatewayResult
  ids_answer ids = record { gateway_id = ids.0; job_id = ids.1; agent_token = token }

  abbrev finish : ℕ × ℕ → Action W CreateGatewayResult
  finish ids = commit >> pure (ids_answer ids)

  created :
      (before db : Database) (ids : ℕ × ℕ)
      → gateway_rows before before ≡ (gateways, jobs)
      → IsStored p config row before db ids.0 ids.1
      → IsCreated p config request gateways jobs ids.0 ids.1 db db
  created before db ids e stored =
      let (j, added, key, owner, waits, kind) = stored.job in
      record {
        gateway = record (row ids.0) {
          wg_subnet = some (allocate_wg_subnet config.wg_subnet_base ids.0).subnet;
        };
        job = j;
        gateway_added = rw (← ap (λ v. v.0) e) stored.gateways;
        job_added = rw (← ap (λ v. v.1) e) added;
        gateway_key = refl;
        job_key = key;
        job_owner = owner;
        gateway_pending = refl;
        job_pending = waits;
        job_kind = kind;
        subnet = refl;
        group = refl;
        address = refl;
        new_name = rw (← ap (λ v. v.0) e) stored.new_name;
        new_port = rw (← ap (λ v. v.0) e) stored.new_port;
        all_saved = refl;
      }

  after_store :
      (before : Database) (r : Result (ℕ × ℕ)) (t : State W)
      → gateway_rows before before ≡ (gateways, jobs)
      → ((ids : ℕ × ℕ) → r ≡ ok ids → IsStored p config row before t.db ids.0 ids.1)
      → (answer : CreateGatewayResult) → (after r finish t).0 ≡ ok answer
      → IsCreated p config request gateways jobs answer.gateway_id answer.job_id
          (after r finish t).1.db
          (after r finish t).1.saved
  unfolding commit ◌>>=◌
  after_store before (ok ids) t e stored answer h =
      let same : ids_answer ids ≡ answer = ok_value h in
      rw (← same) (created before t.db ids e (stored ids refl))
  after_store before (err x) t e stored answer h = absurd (err_ne_ok h)

  store-Returns :
      Returns gateway_rows
        (gateways, jobs)
        (query (store_gateway p config row now) >>= finish)
        (λ r db saved. IsCreated p config request gateways jobs r.gateway_id r.job_id db saved)
  unfolding query ◌>>=◌
  store-Returns = record {
    at = λ s e answer h.
        let m : Result (ℕ × ℕ) × Database = store_gateway p config row now s.db in
        after_store s.db m.0 (record s { db = m.1 }) e
          (λ ids r. store_gateway-IsStored p config row now s.db (λ k. refl) ids r) answer h;
  }

module _ {W : Type 0} (p : Platform W) (config : Settings) (request : CreateGatewayRequest) where
  create_gateway-Returns :
      (gateways : List Gateway) (jobs : List Job)
      → Returns gateway_rows
          (gateways, jobs)
          (create_gateway p config request)
          (λ r db saved. IsCreated p config request gateways jobs r.gateway_id r.job_id db saved)
  unfolding create_gateway
  create_gateway-Returns gateways jobs = Returns-bind _ _ (require-Keeps _ no_name) (λ name.
      Returns-bind _ _ (raise_if-Keeps _ gateway_exists) (λ _.
        Returns-bind _ _ (Keeps-from_headscale _ _) (λ key.
          Returns-bind _ _ (Keeps-outside _) (λ token. Returns-bind _ _ (Keeps-outside _) (λ pair.
            Returns-bind _ _ (Keeps-read_world _) (λ now.
              Returns-bind _ _ (Keeps-query _ (λ db saved. refl)) (λ worker.
                Returns-bind _ _ (Keeps-query _ (allocate_vm_ip-rows worker)) (λ vm_ip.
                  Returns-bind _ _ (Keeps-query _ (chosen_port-rows request.udp_port worker))
                    (λ udp_port. Returns-bind _ _ (Keeps-outside _) (λ privkey_enc.
                      Returns-bind _ _ (Keeps-outside _) (λ key_enc.
                        Returns-bind _ _ (Keeps-outside _) (λ token_enc.
                          store-Returns p config request name worker vm_ip udp_port pair privkey_enc
                            key_enc token token_enc now gateways jobs))))))))))))

  -- A call that returns has added one gateway and one job, both PENDING, behind the rows there
  -- were, under the keys it returns: no gateway had the name, none of the same worker the port, the
  -- subnet is that of the key, and all of it is committed.
  pub create_gateway-IsCreated :
      (s : State W) (r : CreateGatewayResult)
      → (create_gateway p config request s).0 ≡ ok r
      → IsCreated p config request s.db.gateways s.db.jobs r.gateway_id r.job_id
          (create_gateway p config request s).1.db
          (create_gateway p config request s).1.saved
  create_gateway-IsCreated s r h = (create_gateway-Returns s.db.gateways s.db.jobs).at s refl r h
