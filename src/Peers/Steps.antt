-- ===== src/Peers/Steps.antt =====
-- What the steps of the service leave alone.
use deep_orc.Prelude.{
  leb, Option-cases, ◌==◌, nat_eq, length, any, select, Text, text_eq, ℕ, ◌≡◌, refl, ap, inl, inr,
  false, not, Option, none, some, List, [], ◌∷◌, arith,
}
use deep_orc.Models.{gateway_not_found, gateway_not_ready, Gateway, Peer, Worker}
use deep_orc.Tables.{get-key}
use deep_orc.Effects.{ok, after, ◌>>=◌, err_ne_ok}
use deep_orc.Database.{
  Database, gateway_keyed, job_keyed, peer_keyed, group_keyed, worker_keyed, enrollment_keyed,
  registration_keyed,
}
use deep_orc.Wg.{allocate_peer_ip}
use deep_orc.Wg.PeerIp.{allocate_peer_ip_lem}
use deep_orc.Database.Gateways.{is_ready, get_gateway}
use deep_orc.Platform.{Platform}
use deep_orc.Session.{State, query, outside}
use deep_orc.Session.Rules.{Keeps, Keeps-pure, Keeps-outside, Keeps-ask, Keeps-bind, gateway_rows}
use deep_orc.Session.Checks.{raise_if-Keeps, require-Keeps}
use deep_orc.Gateways.Lifecycle.{worker_of}
use deep_orc.Peers.{get_agent, write_uplink, push_uplink, set_gateway_uplink_peer}

-- The peers.
abbrev pub peer_rows : Database → Database → List Peer
peer_rows db saved = db.peers

pub allocate_peer_ip-peers :
    (g : Gateway) (db saved : Database)
    → peer_rows (allocate_peer_ip g db).1 saved ≡ peer_rows db saved
unfolding allocate_peer_ip
allocate_peer_ip-peers g db saved = elim (Option-cases g.wg_subnet) [
  | inl missing ↦ rw missing
  | inr (subnet, known) ↦ elim (allocate_peer_ip_lem g subnet db known) [
    | inl (ip, after, e, r) ↦ rw e (elim r.spare_or_host [
      | inl same ↦ ap (λ x. x.peers) same
      | inr (_, _, _, _, grown) ↦ ap (λ x. x.peers) grown
    ])
    | inr (e, _, _) ↦ rw e
  ]
]

pub allocate_peer_ip-rows :
    (g : Gateway) (db saved : Database)
    → gateway_rows (allocate_peer_ip g db).1 saved ≡ gateway_rows db saved
unfolding allocate_peer_ip
allocate_peer_ip-rows g db saved = elim (Option-cases g.wg_subnet) [
  | inl missing ↦ rw missing
  | inr (subnet, known) ↦ elim (allocate_peer_ip_lem g subnet db known) [
    | inl (ip, after, e, r) ↦ rw e (elim r.spare_or_host [
      | inl same ↦ ap (λ x. (x.gateways, x.jobs)) same
      | inr (_, _, _, _, grown) ↦ ap (λ x. (x.gateways, x.jobs)) grown
    ])
    | inr (e, _, _) ↦ rw e
  ]
]

pub no_peers :
    (gateway_id : ℕ) (rows : List Peer)
    → leb 1 (length (select (λ q. q.gateway_id == gateway_id) rows)) ≡ false
    → any (λ q. q.gateway_id == gateway_id) rows ≡ false
no_peers gateway_id [] h = refl
no_peers gateway_id (q ∷ rows) h = ground (arith, no_peers gateway_id rows)

module _ {W : Type 0} (p : Platform W) where
  pub get_agent-Keeps :
      {X : Type 0} {view : Database → Database → X} (gateway_id : ℕ)
      → Keeps view (get_agent p gateway_id)
  unfolding get_agent
  get_agent-Keeps gateway_id =
      Keeps-bind _ _ (require-Keeps (get_gateway gateway_id) gateway_not_found) (λ g.
        Keeps-bind _ _ (raise_if-Keeps (λ _. not (is_ready g.status)) gateway_not_ready)
          (λ _. Keeps-bind _ _ (Keeps-outside _) (λ _. Keeps-pure g)))

  write_uplink-Keeps :
      {X : Type 0} {view : Database → Database → X} (g : Gateway) (key : Text)
      (lines : Option (List Text))
      → Keeps view (write_uplink p g key lines)
  write_uplink-Keeps g key none = Keeps-pure tt
  write_uplink-Keeps g key (some lines) = Keeps-outside _

  push_uplink-Keeps :
      {X : Type 0} {view : Database → Database → X} (g : Gateway) (key : Text)
      (worker : Option Worker)
      → Keeps view (push_uplink p g key worker)
  push_uplink-Keeps g key none = Keeps-pure tt
  push_uplink-Keeps g key (some worker) =
      Keeps-bind _ _ (Keeps-outside _) (λ lines. write_uplink-Keeps g key lines)

  pub set_gateway_uplink_peer-Keeps :
      {X : Type 0} {view : Database → Database → X} (g : Gateway) (key : Text)
      → Keeps view (set_gateway_uplink_peer p g key)
  unfolding set_gateway_uplink_peer
  set_gateway_uplink_peer-Keeps g key =
      Keeps-bind _ _ (Keeps-ask _) (λ worker. push_uplink-Keeps g key worker)

  pub worker_of-Keeps :
      {X : Type 0} {view : Database → Database → X} (g : Gateway)
      → Keeps {W = W} view (query (worker_of g))
  unfolding query
  worker_of-Keeps g = record { at = λ s. refl }

  pub get_agent-id :
      (gateway_id : ℕ) (s : State W) (g : Gateway)
      → (get_agent p gateway_id s).0 ≡ ok g
      → g.id ≡ gateway_id
  unfolding get_agent query outside ◌>>=◌
  get_agent-id gateway_id s g h = elim (Option-cases (get_gateway gateway_id s.db)) [
    | inl missing ↦ absurd (err_ne_ok (rw missing at h))
    | inr (r, found) ↦
        let same : r ≡ g = ground arith in rw (← same) (get-key gateway_id s.db.gateways r found)
  ]
