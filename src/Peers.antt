-- ===== src/Peers.antt =====
-- orchestrator/services/peer_service.py: the one WireGuard peer of a gateway.
pub mod Uplink
pub mod Steps
pub mod Laws
use deep_orc.Prelude.{
  leb, if◌then◌else◌, ◌==◌, nat_eq, length, any, select, Text, codes, text_eq, is_empty, ℕ, ◌+◌,
  Bool, true, false, not, ◌&&◌, Option, none, some, List, [], ◌∷◌, ◌++◌,
}
use deep_orc.Models.{
  gateway_not_found, gateway_not_ready, peer_limit, peer_exists, peer_not_found, integrity_error,
  Gateway, Peer, Worker,
}
use deep_orc.Tables.{get, update, delete, keys}
use deep_orc.Effects.{ok, err, pure, gets, require, raise_if, ◌>>=◌, ◌>>◌}
use deep_orc.Database.{
  Database, gateway_keyed, job_keyed, peer_keyed, group_keyed, worker_keyed, enrollment_keyed,
  registration_keyed, Query,
}
use deep_orc.Wg.{allocate_peer_ip, release_peer_ip}
use deep_orc.Database.Gateways.{is_ready, get_gateway}
use deep_orc.Platform.{KeyPair, AgentCall, Platform}
use deep_orc.Session.{Action, query, outside, ask, commit, write}
use deep_orc.Gateways.Lifecycle.{worker_of}

-- The peer and the private key of the configuration that the client gets.
pub record CreatePeerResult : Type 0 where
  pub peer : Peer
  pub client_key : Text

abbrev pub max_peers_per_gateway : ℕ
max_peers_per_gateway = 1

abbrev pub default_backhaul_peer_name : Text → Text
default_backhaul_peer_name gateway_name = gateway_name ++ codes "-link"

-- `BACKHAUL_GATEWAY_PEER_ALLOWED_IPS`
abbrev pub backhaul_allowed_ips : Text
backhaul_allowed_ips = codes "0.0.0.0/0, ::/0"

-- `list_by_gateway`
unfoldable pub list_by_gateway : ℕ → Database → List Peer
list_by_gateway gateway_id db = select (λ q. q.gateway_id == gateway_id) db.peers

abbrev pub get_peer : ℕ → Database → Option Peer
get_peer peer_id db = get peer_id db.peers

-- `public_key` is unique.
unfoldable pub create_peer_row : Peer → Query (Unit {0})
create_peer_row row db =
    if any (λ q. q.public_key == row.public_key) db.peers
    then (err integrity_error, db)
    else (ok tt, record db { peers = db.peers ++ row ∷ [] })

unfoldable pub update_peer : ℕ → (Peer → Peer) → Database → Database
update_peer peer_id f db = record db { peers = update peer_id f db.peers }

-- The flush of new keys, of which the public one is unique.
abbrev pub set_private_key : ℕ → Text → Text → Query (Unit {0})
set_private_key peer_id public_key privkey_enc db =
    if any (λ q. not (q.id == peer_id) && q.public_key == public_key) db.peers
    then (err integrity_error, db)
    else (ok tt, update_peer peer_id (λ q. record q { private_key_enc = privkey_enc }) db)

unfoldable pub delete_peer_row : ℕ → Database → Database
delete_peer_row peer_id db = record db { peers = delete peer_id db.peers }

abbrev pub set_suspended : Bool → Peer → Peer
set_suspended suspended q = record q { suspended = suspended }

abbrev pub uplink_prefix : Text
uplink_prefix = codes "UPLINK_PEER="

abbrev pub starts_with : Text → Text → Bool
starts_with [] text = true
starts_with (c ∷ prefix) [] = false
starts_with (c ∷ prefix) (d ∷ text) = c == d && starts_with prefix text

unfoldable pub is_uplink : Text → Bool
is_uplink line = starts_with uplink_prefix line

unfoldable pub uplink_line : Text → Text
uplink_line public_key = uplink_prefix ++ public_key

-- Every line that names the uplink is replaced; the answer says whether there was one.
abbrev pub replace_uplink : Text → List Text → List Text × Bool
replace_uplink public_key [] = ([], false)
replace_uplink public_key (line ∷ lines) =
    let rest = replace_uplink public_key lines in
    if is_uplink line then (uplink_line public_key ∷ rest.0, true) else (line ∷ rest.0, rest.1)

unfoldable pub set_uplink_lines : Text → List Text → List Text
set_uplink_lines public_key lines =
    let r = replace_uplink public_key lines in
    if r.1 then r.0 else r.0 ++ uplink_line public_key ∷ []

module _ {W : Type 0} (p : Platform W) where
  -- `_get_agent`: a gateway that is ready, and whose token can be read.
  unfoldable pub get_agent : ℕ → Action W Gateway
  get_agent gateway_id = do
    g ← query (λ db. require gateway_not_found (get_gateway gateway_id db) db)
    query (λ db. raise_if (not (is_ready g.status)) gateway_not_ready db)
    outside (p.decrypt_value g.agent_token_enc)
    pure g

  abbrev pub write_uplink : Gateway → Text → Option (List Text) → Action W (Unit {0})
  write_uplink g public_key none = pure tt
  write_uplink g public_key (some lines) =
      outside (p.write_exit_env g (set_uplink_lines public_key lines))

  abbrev pub push_uplink : Gateway → Text → Option Worker → Action W (Unit {0})
  push_uplink g public_key none = pure tt
  push_uplink g public_key (some worker) = do
    lines ← outside (p.read_exit_env g)
    write_uplink g public_key lines

  -- `_set_gateway_uplink_peer`
  unfoldable pub set_gateway_uplink_peer : Gateway → Text → Action W (Unit {0})
  set_gateway_uplink_peer g public_key = do
    worker ← ask (λ db. get g.worker_id db.workers)
    push_uplink g public_key worker

  abbrev pub new_peer : Gateway → Text → KeyPair → ℕ → Text → ℕ → Peer
  new_peer g name pair ip privkey_enc id = record {
    id = id;
    gateway_id = g.id;
    name = name;
    public_key = pair.public_key;
    private_key_enc = privkey_enc;
    allowed_ip = ip;
    suspended = false;
  }

  unfoldable pub store_peer : (ℕ → Peer) → Query Peer
  unfolding create_peer_row
  store_peer row = do
    id ← gets (λ db. p.new_key (keys db.peers))
    create_peer_row (row id)
    pure (row id)

  unfoldable pub create_peer : ℕ → Text → Action W CreatePeerResult
  create_peer gateway_id peer_name = do
    g ← get_agent gateway_id
    query (λ db.
        raise_if (leb max_peers_per_gateway (length (list_by_gateway gateway_id db))) peer_limit db)
    query (λ db.
        raise_if (any (λ q. q.name == peer_name) (list_by_gateway gateway_id db)) peer_exists db)
    pair ← outside p.generate_keypair
    ip ← query (allocate_peer_ip g)
    privkey_enc ← outside (p.encrypt_value pair.private_key)
    q ← query (store_peer (new_peer g peer_name pair ip privkey_enc))
    outside (p.agent g (AgentCall.add_peer pair.public_key (backhaul_allowed_ips)))
    set_gateway_uplink_peer g pair.public_key
    query (worker_of g)
    commit
    pure (record { peer = q; client_key = pair.private_key })

  -- The peers that are not suspended, added again; the last one's key and their number.
  abbrev pub add_peers : Gateway → List Peer → Action W (Option Text × ℕ)
  add_peers g [] = pure (none, 0)
  add_peers g (q ∷ peers) =
      let rest = add_peers g peers in
      if q.suspended then rest else (do
        outside (p.agent g (AgentCall.add_peer q.public_key (backhaul_allowed_ips)))
        r ← rest
        pure (some (elim r.0 [ none ↦ q.public_key | some key ↦ key ]), r.1 + 1))

  abbrev pub uplink_to : Gateway → Option Text → Action W (Unit {0})
  uplink_to g none = pure tt
  uplink_to g (some public_key) =
      if is_empty public_key then pure tt else set_gateway_uplink_peer g public_key

  unfoldable pub resync_gateway_peers : ℕ → Action W ℕ
  resync_gateway_peers gateway_id = do
    g ← get_agent gateway_id
    peers ← ask (list_by_gateway gateway_id)
    r ← add_peers g peers
    uplink_to g r.0
    pure r.1

  abbrev pub ensure_for : ℕ → List Peer → Option Gateway → Action W (Unit {0})
  ensure_for gateway_id peers none = pure tt
  ensure_for gateway_id [] (some g) =
      if is_ready g.status
      then (create_peer gateway_id (default_backhaul_peer_name g.name) >> pure tt)
      else pure tt
  ensure_for gateway_id (q ∷ peers) (some g) = pure tt

  unfoldable pub ensure_backhaul_peer : ℕ → Action W (Unit {0})
  ensure_backhaul_peer gateway_id = do
    found ← ask (get_gateway gateway_id)
    peers ← ask (list_by_gateway gateway_id)
    ensure_for gateway_id peers found

  unfoldable pub next_peer_name : ℕ → Action W Text
  next_peer_name gateway_id = do
    g ← query (λ db. require gateway_not_found (get_gateway gateway_id db) db)
    query (λ db. raise_if (leb 1 (length (list_by_gateway gateway_id db))) peer_exists db)
    pure (default_backhaul_peer_name g.name)

  abbrev pub found_peer : ℕ → Action W Peer
  found_peer peer_id = query (λ db. require peer_not_found (get_peer peer_id db) db)

  unfoldable pub delete_peer : ℕ → Action W (Unit {0})
  delete_peer peer_id = do
    q ← found_peer peer_id
    g ← get_agent q.gateway_id
    outside (p.agent g (AgentCall.remove_peer q.public_key))
    write (release_peer_ip g.id q.allowed_ip)
    write (delete_peer_row peer_id)
    commit

  unfoldable pub suspend_peer : ℕ → Action W (Unit {0})
  suspend_peer peer_id = do
    q ← found_peer peer_id
    g ← get_agent q.gateway_id
    outside (p.agent g (AgentCall.suspend_peer q.public_key q.allowed_ip))
    write (update_peer peer_id (set_suspended true))
    commit

  unfoldable pub resume_peer : ℕ → Action W (Unit {0})
  resume_peer peer_id = do
    q ← found_peer peer_id
    g ← get_agent q.gateway_id
    outside (p.agent g (AgentCall.resume_peer q.public_key q.allowed_ip))
    write (update_peer peer_id (set_suspended false))
    commit

  unfoldable pub regenerate_peer_keys : ℕ → Action W (Unit {0})
  regenerate_peer_keys peer_id = do
    q ← found_peer peer_id
    g ← get_agent q.gateway_id
    outside (p.agent g (AgentCall.remove_peer q.public_key))
    pair ← outside p.generate_keypair
    outside (p.agent g (AgentCall.add_peer pair.public_key backhaul_allowed_ips))
    write (update_peer peer_id (λ r. record r { public_key = pair.public_key }))
    privkey_enc ← outside (p.encrypt_value pair.private_key)
    query (λ db. set_private_key peer_id pair.public_key privkey_enc db)
    query (worker_of g)
    commit
