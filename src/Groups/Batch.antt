-- ===== src/Groups/Batch.antt =====
-- What a batch of gateways is: `create_gateways` of a group.
use deep_orc.Prelude.{
  ltb, Bool-cases, nat_eq, length, text_eq, ℕ, zero, suc, ◌≤◌, ◌≡◌, refl, sym, ap, ◌∙◌, subst, inl,
  inr, some, List, [], ◌∷◌, ◌++◌, append-nil, append_assoc, arith,
}
use deep_orc.Models.{Gateway, Job, PeerGroup}
use deep_orc.Effects.{ok, pure, ◌>>=◌, ◌>>◌, err_ne_ok, ok_value, Result-cases, bind-IsBound}
use deep_orc.Database.{
  Database, gateway_keyed, job_keyed, peer_keyed, group_keyed, worker_keyed, enrollment_keyed,
  registration_keyed,
}
use deep_orc.Lan.{allocate_lan_ip, remaining_lan_capacity}
use deep_orc.Lan.Laws.{
  allocate_lan_ip-first_free, allocate_lan_ip-same, remaining_lan_capacity-same,
}
use deep_orc.Database.Groups.{get_group}
use deep_orc.Platform.{Platform, Settings}
use deep_orc.Session.{State, Action, query, commit}
use deep_orc.Gateways.{CreateGatewayResult}
use deep_orc.Gateways.Create.{create_gateway}
use deep_orc.Gateways.Create.Laws.{create_gateway-IsCreated}
use deep_orc.Groups.{
  CreateGatewaysInGroupResult, max_batch, in_group_request, create_next, create_all,
  create_gateways,
}
use deep_orc.Groups.Members.{LanApart, IsBatch, LanApart-snoc, IsGrown}

module _ {W : Type 0} (p : Platform W) (config : Settings) (group : PeerGroup) where
  grown :
      (s t : State W) (lan_ip : ℕ) (r : CreateGatewayResult)
      → (allocate_lan_ip group s.db).0 ≡ ok lan_ip
      → t.db ≡ s.db
      → (create_gateway p config (in_group_request group lan_ip) t).0 ≡ ok r
      → IsGrown group s.db.gateways s.db.jobs
          (create_gateway p config (in_group_request group lan_ip) t).1.db
  grown s t lan_ip r found same h =
      let (inside, from, free, _, _) =
        allocate_lan_ip-first_free group s.db lan_ip (allocate_lan_ip group s.db).1
          (λ i. (found i, (allocate_lan_ip group s.db).1)) in
      let c = create_gateway-IsCreated p config (in_group_request group lan_ip) t r h in
      record {
        gateway = c.gateway;
        job = c.job;
        gateway_added =
            c.gateway_added ∙ ap (λ (db : Database). db.gateways ++ c.gateway ∷ []) same;
        job_added = c.job_added ∙ ap (λ (db : Database). db.jobs ++ c.job ∷ []) same;
        member = record {
          lan_ip = lan_ip;
          in_it = c.group;
          at = c.address;
          inside = inside;
          from_start = from;
          waits = c.gateway_pending;
        };
        own_job = record {
          owner = c.job_owner ∙ ap some (sym c.gateway_key);
          kind = c.job_kind;
          waits = c.job_pending;
        };
        free = free;
      }

  create_next-IsGrown :
      (s : State W) (r : CreateGatewayResult)
      → (create_next p config group s).0 ≡ ok r
      → IsGrown group s.db.gateways s.db.jobs (create_next p config group s).1.db
  unfolding create_next query
  create_next-IsGrown s r h =
      let b =
        bind-IsBound (query (allocate_lan_ip group))
          (λ lan_ip. create_gateway p config (in_group_request group lan_ip)) s r h in
      subst (λ t. IsGrown group s.db.gateways s.db.jobs t.1.db) (sym b.whole_step)
        (grown s (query (allocate_lan_ip group) s).1 b.value r b.first
          (allocate_lan_ip-same group s.db) b.second)

  grow-IsBatch :
      (n : ℕ) (gateways : List Gateway) (jobs : List Job) (one all_of : Database)
      → (g : IsGrown group gateways jobs one) → IsBatch group n one.gateways one.jobs all_of
      → IsBatch group (suc n) gateways jobs all_of
  grow-IsBatch n gateways jobs one all_of g b = record {
    added = g.gateway ∷ b.added;
    tasks = g.job ∷ b.tasks;
    gateways_added =
        b.gateways_added
        ∙ ap (λ l. l ++ b.added) g.gateway_added
        ∙ append_assoc gateways (g.gateway ∷ []) b.added;
    jobs_added =
        b.jobs_added ∙ ap (λ l. l ++ b.tasks) g.job_added ∙ append_assoc jobs (g.job ∷ []) b.tasks;
    count = omega (arith, b.count);
    members = (g.member, b.members);
    own_jobs = (g.own_job, b.own_jobs);
    apart = b.apart;
  }

  create_all-IsBatch :
      (n : ℕ) (s : State W) (rs : List CreateGatewayResult)
      → (create_all p config group n s).0 ≡ ok rs
      → LanApart group s.db.gateways
      → IsBatch group n s.db.gateways s.db.jobs (create_all p config group n s).1.db
        × (length rs ≡ n)
  unfolding create_all pure
  create_all-IsBatch zero s rs h apart = (
    record {
      added = [];
      tasks = [];
      gateways_added = sym (append-nil s.db.gateways);
      jobs_added = sym (append-nil s.db.jobs);
      count = refl;
      members = tt;
      own_jobs = tt;
      apart = apart;
    },
    ap length (sym (ok_value h)),
  )
  create_all-IsBatch (suc n) s rs h apart =
      let b =
        bind-IsBound (create_next p config group)
          (λ result. create_all p config group n >>= (λ results. pure (result ∷ results))) s rs h in
      let t = (create_next p config group s).1 in
      let g = create_next-IsGrown s b.value b.first in
      let c =
        bind-IsBound (create_all p config group n) (λ results. pure (b.value ∷ results)) t rs
          b.second in
      let still : LanApart group t.db.gateways = rw g.gateway_added (
        LanApart-snoc group s.db.gateways g.gateway g.member.lan_ip g.member.in_it g.member.at
          g.free apart) in
      let (rest, len) = create_all-IsBatch n t c.value c.first still in
      let batch =
        grow-IsBatch n s.db.gateways s.db.jobs t.db (create_all p config group n t).1.db g rest in
      (
        subst (λ x. IsBatch group (suc n) s.db.gateways s.db.jobs x.1.db)
            (sym (b.whole_step ∙ c.whole_step)) batch,
        ap length (sym (ok_value c.second)) ∙ ap suc len,
      )

module _ {W : Type 0} (p : Platform W) (config : Settings) (k n : ℕ) where
  abbrev batch_end : PeerGroup → Action W CreateGatewaysInGroupResult
  batch_end group =
      create_all p config group n
      >>= (λ results. commit >> pure (record { group = group; gateways = results }))

  batch_steps :
      (group : PeerGroup) (s : State W) (r : CreateGatewaysInGroupResult)
      → get_group k s.db ≡ some group
      → (create_gateways p config k n s).0 ≡ ok r
      → (1 ≤ n) × (n ≤ 64) × (create_gateways p config k n s ≡ batch_end group s)
  unfolding create_gateways query ◌>>=◌
  batch_steps group s r found h = elim (Bool-cases (ltb n 1)) [
    | inl few ↦ absurd (err_ne_ok (rw few at h))
    | inr some_of ↦ elim (Bool-cases (ltb max_batch n)) [
      | inl many ↦ absurd (err_ne_ok (rw (some_of, many) at h))
      | inr fits ↦ elim (Result-cases (remaining_lan_capacity group s.db).0) [
        | inr (e, broken) ↦ absurd (err_ne_ok (rw (some_of, fits, found, broken) at h))
        | inl (available, e) ↦ elim (Bool-cases (ltb available n)) [
          | inl full ↦ absurd (err_ne_ok (rw (some_of, fits, found, e, full) at h))
          | inr room ↦ (
            ground arith,
            ground arith,
            rw (some_of, fits, found, e, room, remaining_lan_capacity-same group s.db) refl,
          )
        ]
      ]
    ]
  ]

  -- A batch that returns had between 1 and 64 gateways to create, and has added just that many
  -- behind those there were: all PENDING and in the group, at addresses of its subnet from its start
  -- address on. The jobs that are added behind those there were are, in the gateways' order, one
  -- PENDING job for each of them that creates it. No two gateways of the group have one address, if
  -- that was so before, and all of it is committed.
  pub create_gateways-IsBatch :
      (group : PeerGroup) (s : State W) (r : CreateGatewaysInGroupResult)
      → get_group k s.db ≡ some group
      → LanApart group s.db.gateways
      → (create_gateways p config k n s).0 ≡ ok r
      → (1 ≤ n)
        × (n ≤ 64)
        × (length r.gateways ≡ n)
        × IsBatch group n s.db.gateways s.db.jobs (create_gateways p config k n s).1.db
        × ((create_gateways p config k n s).1.saved ≡ (create_gateways p config k n s).1.db)
  unfolding commit ◌>>=◌
  create_gateways-IsBatch group s r found apart h =
      let (low, high, runs) = batch_steps group s r found h in
      let b =
        bind-IsBound (create_all p config group n)
          (λ results. commit >> pure (record { group = group; gateways = results })) s r
          (rw runs at h) in
      let (batch, len) = create_all-IsBatch p config group n s b.value b.first apart in
      (
        low,
        high,
        ap (λ x. length x.gateways) (sym (ok_value b.second)) ∙ len,
        subst (λ x. IsBatch group n s.db.gateways s.db.jobs x.1.db) (sym (runs ∙ b.whole_step))
            batch,
        rw (runs, b.whole_step) refl,
      )
