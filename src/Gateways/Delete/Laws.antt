-- ===== src/Gateways/Delete/Laws.antt =====
-- What a deletion leaves of a gateway.
use deep_orc.Prelude.{
  ◌==◌, nat_eq, any, select, text_eq, ℕ, ◌≡◌, refl, ap, ◌∙◌, Bool, false, not, Option, none, some,
  List, [], ◌∷◌, arith,
}
use deep_orc.Models.{JobStatus, Gateway, Job}
use deep_orc.Tables.{update, get-delete_self}
use deep_orc.Effects.{ok, ◌>>=◌, ◌>>◌}
use deep_orc.Database.{
  Database, gateway_keyed, job_keyed, peer_keyed, group_keyed, worker_keyed, enrollment_keyed,
  registration_keyed, is_just,
}
use deep_orc.Pools.{release_vm_ip, release_udp_port}
use deep_orc.Database.Gateways.{get_gateway}
use deep_orc.Database.Jobs.{stamp, set_job_status, update_job_status}
use deep_orc.Database.Jobs.Laws.{stamp-gateway_id}
use deep_orc.Platform.{Platform}
use deep_orc.Session.{State, query, ask, commit, write, write_at}
use deep_orc.Session.Rules.{
  Keeps, Returns, Keeps-pure, Keeps-outside, Returns-bind, Keeps-try_except, Keeps-pass_headscale,
  whole,
}
use deep_orc.Agent.RuleLog.{words_eq}
use deep_orc.Gateways.Lifecycle.{worker_of}
use deep_orc.Gateways.Delete.{
  forget_node, forget_vm, delete_rows, complete_job, delete_found, execute_delete_gateway,
}

module _ {W : Type 0} (p : Platform W) (gateway_id : ℕ) where
  -- No row of the gateway, of its peers or of its jobs is left, and all of it is committed.
  pub record IsDeleted (db saved : Database) : Type 0 where
    pub gateway : get_gateway gateway_id db ≡ none
    pub peers : any (λ q. q.gateway_id == gateway_id) db.peers ≡ false
    pub jobs : any (λ j. is_just j.gateway_id gateway_id) db.jobs ≡ false
    pub committed : saved ≡ db

select-any : {A : Type 0} (q : A → Bool) (xs : List A) → any q (select (λ x. not (q x)) xs) ≡ false
select-any q [] = refl
select-any q (x ∷ xs) = ground (arith, select-any q xs)

update-any :
    (gateway_id k : ℕ) (f : Job → Job) (js : List Job)
    → ((j : Job) → (f j).gateway_id ≡ j.gateway_id)
    → any (λ j. is_just j.gateway_id gateway_id) (update k f js)
      ≡ any (λ j. is_just j.gateway_id gateway_id) js
update-any gateway_id k f [] keeps = refl
update-any gateway_id k f (j ∷ js) keeps =
    ground (arith, keeps j, update-any gateway_id k f js keeps)

module _ {W : Type 0} (p : Platform W) (gateway_id : ℕ) where
  completed-jobs :
      (job_id : Option ℕ) (now : ℕ) (db : Database)
      → any (λ j. is_just j.gateway_id gateway_id) (complete_job p job_id now db).jobs
        ≡ any (λ j. is_just j.gateway_id gateway_id) db.jobs
  unfolding update_job_status
  completed-jobs none now db = refl
  completed-jobs (some k) now db =
      update-any gateway_id k (stamp now (set_job_status JobStatus.completed none)) db.jobs
        (λ j. stamp-gateway_id now (set_job_status JobStatus.completed none) j)

  completed-rows :
      (job_id : Option ℕ) (now : ℕ) (db : Database)
      → complete_job p job_id now db ≡ record db { jobs = (complete_job p job_id now db).jobs }
  unfolding update_job_status
  completed-rows none now db = refl
  completed-rows (some k) now db = refl

  -- The tables at the end of a deletion of the gateway `g`.
  abbrev pub end_db : Option ℕ → ℕ → Gateway → Database → Database
  end_db job_id now g db = complete_job p job_id now (delete_rows p gateway_id g db)

  abbrev pub released : Gateway → Database → Database
  released g db = release_udp_port g.worker_id g.udp_port (release_vm_ip g.worker_id g.vm_ip db)

  end_db-IsDeleted :
      (job_id : Option ℕ) (now : ℕ) (g : Gateway) (db : Database)
      → IsDeleted p gateway_id (end_db job_id now g db) (end_db job_id now g db)
  unfolding delete_rows
  end_db-IsDeleted job_id now g db = record {
    gateway =
        rw (completed-rows job_id now (delete_rows p gateway_id g db))
          (get-delete_self gateway_id (released g db).gateways);
    peers =
        rw (completed-rows job_id now (delete_rows p gateway_id g db))
          (select-any (λ q. q.gateway_id == gateway_id) (released g db).peers);
    jobs =
        completed-jobs job_id now (delete_rows p gateway_id g db)
        ∙ select-any (λ j. is_just j.gateway_id gateway_id) (released g db).jobs;
    committed = refl;
  }

  pub forget_node-Keeps : (g : Gateway) → Keeps whole (forget_node p g)
  unfolding forget_node
  forget_node-Keeps g =
      Keeps-try_except _ _ _ (Keeps-outside _) (λ _. Keeps-pure tt) (λ e. Keeps-pass_headscale e)

  forget_vm-Keeps : (g : Gateway) → Keeps whole (forget_vm p g)
  unfolding forget_vm
  forget_vm-Keeps g =
      Keeps-try_except _ _ _ (Keeps-outside _) (λ _. Keeps-pure tt) (λ e. Keeps-pure tt)

  worker_of-Keeps : (g : Gateway) → Keeps {W = W} whole (query (worker_of g))
  unfolding query
  worker_of-Keeps g = record { at = λ s. refl }

  -- The tables after a deletion, at some time.
  abbrev pub Ends : Option ℕ → Gateway → Database → Unit {0} → Database → Database → Type 0
  Ends job_id g before _ db saved =
      (now : ℕ) × (db ≡ end_db job_id now g before) × (saved ≡ end_db job_id now g before)

  remove-Returns :
      (job_id : Option ℕ) (g : Gateway) (db saved : Database)
      → Returns whole
          (db, saved)
          (write (delete_rows p gateway_id g) >> (write_at p.now (complete_job p job_id) >> commit))
          (Ends job_id g db)
  unfolding ◌>>=◌ write write_at commit
  remove-Returns job_id g db saved = record {
    at = λ s e a h.
        let same : s.db ≡ db = ap (λ v. v.0) e in (p.now s.world, rw same refl, rw same refl);
  }

  delete_found-Returns :
      (job_id : Option ℕ) (g : Gateway) (db saved : Database)
      → Returns whole (db, saved) (delete_found p gateway_id job_id (some g)) (Ends job_id g db)
  delete_found-Returns job_id g db saved =
      Returns-bind (forget_node p g) _ (forget_node-Keeps g) (λ _.
        Returns-bind (query (worker_of g)) _ (worker_of-Keeps g) (λ _.
          Returns-bind (forget_vm p g) _ (forget_vm-Keeps g)
            (λ _. remove-Returns job_id g db saved)))

  pub execute-found :
      (job_id : Option ℕ) (s : State W) (g : Gateway)
      → get_gateway gateway_id s.db ≡ some g
      → execute_delete_gateway p gateway_id job_id s ≡ delete_found p gateway_id job_id (some g) s
  unfolding execute_delete_gateway ask ◌>>=◌
  execute-found job_id s g found = rw found

  ended :
      (job_id : Option ℕ) (g : Gateway) (before db saved : Database)
      → Ends job_id g before tt db saved
      → IsDeleted p gateway_id db saved
  ended job_id g before db saved (now, e, f) = rw (e, f) (end_db-IsDeleted job_id now g before)

  pub execute_delete_gateway-Ends :
      (job_id : Option ℕ) (s : State W) (g : Gateway)
      → get_gateway gateway_id s.db ≡ some g
      → (execute_delete_gateway p gateway_id job_id s).0 ≡ ok tt
      → Ends job_id g s.db tt
          (execute_delete_gateway p gateway_id job_id s).1.db
          (execute_delete_gateway p gateway_id job_id s).1.saved
  execute_delete_gateway-Ends job_id s g found h = rw (execute-found job_id s g found) (
      (delete_found-Returns job_id g s.db s.saved).at s refl tt
        (rw (execute-found job_id s g found) at h))

  -- A deletion of a gateway that returns has removed the gateway's row, its peers and its jobs, its
  -- own job too, and has committed that.
  pub execute_delete_gateway-IsDeleted :
      (job_id : Option ℕ) (s : State W) (g : Gateway)
      → get_gateway gateway_id s.db ≡ some g
      → (execute_delete_gateway p gateway_id job_id s).0 ≡ ok tt
      → IsDeleted p gateway_id
          (execute_delete_gateway p gateway_id job_id s).1.db
          (execute_delete_gateway p gateway_id job_id s).1.saved
  execute_delete_gateway-IsDeleted job_id s g found h =
      ended job_id g s.db (execute_delete_gateway p gateway_id job_id s).1.db
        (execute_delete_gateway p gateway_id job_id s).1.saved
        (execute_delete_gateway-Ends job_id s g found h)

  -- The address and the port that a deletion gives back are those of the gateway.
  pub execute_delete_gateway-released :
      (job_id : Option ℕ) (s : State W) (g : Gateway)
      → get_gateway gateway_id s.db ≡ some g
      → (execute_delete_gateway p gateway_id job_id s).0 ≡ ok tt
      → ((execute_delete_gateway p gateway_id job_id s).1.db.ip_allocations
          ≡ (release_vm_ip g.worker_id g.vm_ip s.db).ip_allocations)
        × ((execute_delete_gateway p gateway_id job_id s).1.db.port_allocations
            ≡ (release_udp_port g.worker_id g.udp_port s.db).port_allocations)
  unfolding delete_rows release_vm_ip release_udp_port
  execute_delete_gateway-released job_id s g found h =
      let (now, e, _) = execute_delete_gateway-Ends job_id s g found h in
      rw (e, completed-rows job_id now (delete_rows p gateway_id g s.db)) (refl, refl)
