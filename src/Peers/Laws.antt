-- ===== src/Peers/Laws.antt =====
-- What creating a peer does to the tables.
use deep_orc.Prelude.{
  leb, Bool-cases, ◌==◌, nat_eq, length, any, select, Text, text_eq, ℕ, ◌≡◌, refl, ap, subst, inl,
  inr, false, List, [], ◌∷◌, ◌++◌,
}
use deep_orc.Models.{peer_limit, peer_exists, Failure, Gateway, Peer}
use deep_orc.Tables.{keys}
use deep_orc.Effects.{ok, err, pure, ◌>>=◌, ◌>>◌, err_ne_ok, ok_value}
use deep_orc.Database.{
  Database, gateway_keyed, job_keyed, peer_keyed, group_keyed, worker_keyed, enrollment_keyed,
  registration_keyed,
}
use deep_orc.Platform.{KeyPair, AgentCall, Platform}
use deep_orc.Session.{State, query, outside, commit}
use deep_orc.Session.Rules.{
  Atomic, Returns, Keeps-outside, Keeps-query, Atomic-commit, Atomic-bind, Returns-bind,
  Returns-bind_fact, Returns-seq, keeps_rules, committed, gateway_rows, Keeps-committed-query,
}
use deep_orc.Session.Checks.{raise_if-false, raise_if-Keeps}
use deep_orc.Gateways.Lifecycle.{worker_of}
use deep_orc.Peers.{
  CreatePeerResult, max_peers_per_gateway, backhaul_allowed_ips, list_by_gateway, create_peer_row,
  set_gateway_uplink_peer, new_peer, store_peer, create_peer,
}
use deep_orc.Peers.Steps.{
  peer_rows, allocate_peer_ip-peers, no_peers, get_agent-Keeps, set_gateway_uplink_peer-Keeps,
  worker_of-Keeps, get_agent-id,
}

module _ {W : Type 0} (p : Platform W) where
  -- One peer more, of a gateway that had none, and all of it committed.
  pub record IsLinked (gateway_id : ℕ) (before : List Peer) (q : Peer) (db saved : Database)
      : Type 0 where
    pub first_one : any (λ q. q.gateway_id == gateway_id) before ≡ false
    pub added : db.peers ≡ before ++ q ∷ []
    pub owner : q.gateway_id ≡ gateway_id
    pub unsuspended : q.suspended ≡ false
    pub all_saved : saved ≡ db

  abbrev peer_result : Peer → KeyPair → CreatePeerResult
  peer_result q pair = record { peer = q; client_key = pair.private_key }

  -- The end of the call, once the row is stored.
  finish-Returns :
      (gateway_id : ℕ) (g : Gateway) (q : Peer) (pair : KeyPair) (before : List Peer)
      → any (λ r. r.gateway_id == gateway_id) before ≡ false
      → q.gateway_id ≡ gateway_id
      → q.suspended ≡ false
      → Returns {W = W} {A = CreatePeerResult} peer_rows
          (before ++ q ∷ [])
          (commit >> pure (peer_result q pair))
          (λ r db saved. IsLinked gateway_id before r.peer db saved)
  unfolding commit ◌>>=◌
  finish-Returns gateway_id g q pair before alone owner active = record {
    at = λ s e r h.
        let same : ◌≡◌ {A = CreatePeerResult} (peer_result q pair) r = ok_value h in
        let peer : q ≡ r.peer = ap (λ x. x.peer) same in
        rw (← peer) (record {
          first_one = alone;
          added = e;
          owner = owner;
          unsuspended = active;
          all_saved = refl;
        });
  }

  pub store_peer-rows :
      (row : ℕ → Peer) (db saved : Database)
      → gateway_rows (store_peer p row db).1 saved ≡ gateway_rows db saved
  unfolding store_peer create_peer_row ◌>>=◌
  store_peer-rows row db saved =
      elim (Bool-cases
        (any (λ q. q.public_key == (row (p.new_key (keys db.peers))).public_key) db.peers)) [
          | inl used ↦ rw used
          | inr fresh ↦ rw fresh
        ]

  store_peer-Returns :
      (row : ℕ → Peer) (gateway_id : ℕ) (before : List Peer)
      → ((k : ℕ) → (row k).gateway_id ≡ gateway_id)
      → ((k : ℕ) → (row k).suspended ≡ false)
      → Returns {W = W} peer_rows before (query (store_peer p row)) (λ q db saved.
        (db.peers ≡ before ++ q ∷ []) × ((q.gateway_id ≡ gateway_id) × (q.suspended ≡ false)))
  unfolding query store_peer create_peer_row ◌>>=◌
  store_peer-Returns row gateway_id before owner active = record {
    at = λ s e q h.
        let k : ℕ = p.new_key (keys s.db.peers) in
        elim (Bool-cases (any (λ r. r.public_key == (row k).public_key) s.db.peers)) [
          | inl used ↦ absurd (err_ne_ok (rw used at h))
          | inr fresh ↦
              let same : row k ≡ q = ok_value (rw fresh at h) in
              rw (← same, fresh, e) (refl, (owner _, active _))
        ];
  }

  link-Returns :
      (gateway_id : ℕ) (g : Gateway) (name : Text) (before : List Peer)
      → g.id ≡ gateway_id
      → any (λ r. r.gateway_id == gateway_id) before ≡ false
      → (pair : KeyPair) (ip : ℕ) (privkey_enc : Text)
      → Returns peer_rows before
          (query (store_peer p (new_peer p g name pair ip privkey_enc)) >>= λ q.
            outside (p.agent g (AgentCall.add_peer pair.public_key backhaul_allowed_ips))
            >> (set_gateway_uplink_peer p g pair.public_key
                >> (query (worker_of g) >> (commit >> pure (peer_result q pair)))))
          (λ r db saved. IsLinked gateway_id before r.peer db saved)
  link-Returns gateway_id g name before owner alone pair ip privkey_enc =
      Returns-seq _ _
        (store_peer-Returns (new_peer p g name pair ip privkey_enc) gateway_id before (λ k. owner)
          (λ k. refl))
        (λ q facts. Returns-bind _ _ (Keeps-outside _) (λ _.
          Returns-bind _ _ (set_gateway_uplink_peer-Keeps p g pair.public_key) (λ _.
            Returns-bind _ _ (worker_of-Keeps p g)
              (λ _. finish-Returns gateway_id g q pair before alone facts.0 facts.1))))

  create_peer-Returns :
      (gateway_id : ℕ) (name : Text) (before : List Peer)
      → Returns peer_rows before
          (create_peer p gateway_id name)
          (λ r db saved. IsLinked gateway_id before r.peer db saved)
  unfolding create_peer list_by_gateway
  create_peer-Returns gateway_id name before =
      Returns-bind_fact _ _ {Fact = λ g. g.id ≡ gateway_id} (get_agent-Keeps p gateway_id)
        (λ s e g h. get_agent-id p gateway_id s g h)
        (λ g owner.
          Returns-bind_fact _ _ {Fact = λ _. any (λ r. r.gateway_id == gateway_id) before ≡ false}
            (raise_if-Keeps _ peer_limit)
            (λ s e _ h. no_peers gateway_id before (
              subst
                (λ (ps : List Peer).
                  leb 1 (length (select (λ q. q.gateway_id == gateway_id) ps)) ≡ false)
                e
                (raise_if-false {W = W}
                  (λ db. leb max_peers_per_gateway (length (list_by_gateway gateway_id db)))
                  peer_limit s h)))
            (λ _ alone. Returns-bind _ _ (raise_if-Keeps _ peer_exists) (λ _.
              Returns-bind _ _ (Keeps-outside _) (λ pair.
                Returns-bind _ _ (Keeps-query _ (allocate_peer_ip-peers g)) (λ ip.
                  Returns-bind _ _ (Keeps-outside _) (λ privkey_enc.
                    link-Returns gateway_id g name before owner alone pair ip privkey_enc))))))

  -- A peer that is created is the first one of its gateway: the peers are those there were and it,
  -- it is not suspended, and all of it is committed.
  pub create_peer-IsLinked :
      (gateway_id : ℕ) (name : Text) (s : State W) (r : CreatePeerResult)
      → (create_peer p gateway_id name s).0 ≡ ok r
      → IsLinked gateway_id s.db.peers r.peer
          (create_peer p gateway_id name s).1.db
          (create_peer p gateway_id name s).1.saved
  create_peer-IsLinked gateway_id name s r h =
      (create_peer-Returns gateway_id name s.db.peers).at s refl r h

  create_peer-Atomic :
      (gateway_id : ℕ) (name : Text) → Atomic committed (create_peer p gateway_id name)
  unfolding create_peer
  create_peer-Atomic gateway_id name =
      search
        (
          keeps_rules, Keeps-committed-query, get_agent-Keeps, set_gateway_uplink_peer-Keeps,
          Atomic-bind, Atomic-commit,
        )
        depth 40

  -- A call that raises has committed nothing.
  pub create_peer_atomic :
      (gateway_id : ℕ) (name : Text) (s : State W) (e : Failure)
      → (create_peer p gateway_id name s).0 ≡ err e
      → (create_peer p gateway_id name s).1.saved ≡ s.saved
  create_peer_atomic gateway_id name s e h = (create_peer-Atomic gateway_id name).at s e h
