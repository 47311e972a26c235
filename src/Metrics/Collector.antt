-- ===== src/Metrics/Collector.antt =====
-- `collect_metrics` of orchestrator/workers/metrics_collector.py, and `wg_uplink_connected` of
-- orchestrator/services/gateway_connectivity.py. The tables of metrics are apart from the others:
-- a round that raises leaves them as they were, as its rollback does.
use deep_orc.Prelude.{
  ltb, if◌then◌else◌, ◌==◌, nat_eq, any, Text, codes, text_eq, ℕ, ◌+◌, ◌-◌, Bool, true, false, not,
  ◌&&◌, Option, none, some, List, [], ◌∷◌, ◌++◌,
}
use deep_orc.Models.{Gateway, Peer}
use deep_orc.Effects.{ok, Exec, pure, raise, ◌>>=◌, ◌>>◌, try_except}
use deep_orc.Database.{
  gateway_keyed, job_keyed, peer_keyed, group_keyed, worker_keyed, enrollment_keyed,
  registration_keyed,
}
use deep_orc.Database.Gateways.{is_ready}
use deep_orc.Platform.{Platform}
use deep_orc.Session.{State, Action, query, outside, ask, read_world, commit, rollback}
use deep_orc.Gateways.Lifecycle.{worker_of}
use deep_orc.Views.{peer_online_handshake_seconds}
use deep_orc.Peers.{list_by_gateway, resync_gateway_peers}
use deep_orc.Metrics.{
  InterfaceState, EgressSnapshot, GatewayMetric, latest_gateway_metric,
  latest_gateway_metric_with_egress,
}
use deep_orc.Metrics.Egress.{EgressHost, snapshot_of, resolve_egress, new_metric}

pub record PeerMetric : Type 0 where
  pub peer_id : ℕ
  pub last_handshake : Option ℕ
  pub rx_bytes : Option ℕ
  pub tx_bytes : Option ℕ

-- A peer as the agent lists it, its times already read.
pub record PeerStats : Type 0 where
  pub public_key : Text
  pub last_handshake : Option ℕ
  pub rx_bytes : Option ℕ
  pub tx_bytes : Option ℕ

pub record CollectorHost (W : Type 0) : Type 0 where
  pub egress : EgressHost W
  pub vm_status : Gateway → Exec W Text
  -- `exit_node_configured` of the agent's health
  pub exit_configured : Gateway → Exec W (Option Bool)
  pub list_peers : Gateway → Exec W (List PeerStats)
  pub tailscale_connected : Gateway → Exec W Bool

pub record Readings : Type 0 where
  pub gateway_metrics : List GatewayMetric
  pub peer_metrics : List PeerMetric

-- The variables of the loop's body, which an exception leaves as they are.
pub record Locals (W : Type 0) : Type 0 where
  pub session : State W
  pub readings : Readings
  pub exit_node_reachable : Option Bool
  pub tailscale_online : Option Bool
  pub wg_online : Option Bool
  pub snapshot : EgressSnapshot

-- A dict of the peers by their key: the last one of a key counts.
abbrev pub stats_of : Text → List PeerStats → Option PeerStats
stats_of key [] = none
stats_of key (s ∷ stats) = elim (stats_of key stats) [
  | some later ↦ some later
  | none ↦ if s.public_key == key then some s else none
]

abbrev pub is_recent : ℕ → Option PeerStats → Bool
is_recent now none = false
is_recent now (some s) = elim s.last_handshake [
  | none ↦ false
  | some at ↦ ltb (now - at) peer_online_handshake_seconds
]

unfoldable pub wg_uplink_connected : ℕ → List PeerStats → Bool
wg_uplink_connected now stats = any (λ s. is_recent now (stats_of s.public_key stats)) stats

abbrev pub is_missing : List PeerStats → Peer → Bool
is_missing stats q =
    not q.suspended && elim (stats_of q.public_key stats) [ none ↦ true | some s ↦ false ]

abbrev pub peer_metric : ℕ → PeerStats → PeerMetric
peer_metric peer_id s = record {
  peer_id = peer_id;
  last_handshake = s.last_handshake;
  rx_bytes = s.rx_bytes;
  tx_bytes = s.tx_bytes;
}

abbrev pub peer_metrics_of : List PeerStats → List Peer → List PeerMetric
peer_metrics_of stats [] = []
peer_metrics_of stats (q ∷ peers) =
    let rest = peer_metrics_of stats peers in
    elim (stats_of q.public_key stats) [ none ↦ rest | some s ↦ peer_metric q.id s ∷ rest ]

abbrev pub vm_running : Text → Bool
vm_running vm_status = vm_status == codes "Running"

module _ {W : Type 0} (p : Platform W) (host : CollectorHost W) where
  -- An action of the session among the variables.
  unfoldable pub inside : {A : Type 0} → Action W A → Exec (Locals W) A
  inside m l = let r = m l.session in (r.0, record l { session = r.1 })

  unfoldable pub assign : (Locals W → Locals W) → Exec (Locals W) (Unit {0})
  assign f l = (ok tt, f l)

  unfoldable pub listed_again :
      Gateway → List PeerStats → List Peer → Exec (Locals W) (List PeerStats)
  unfolding ◌>>=◌
  listed_again g stats peers =
      if any (is_missing stats) peers
      then (do inside (resync_gateway_peers p g.id); inside (outside (host.list_peers g)))
      else pure stats

  -- The body of the inner `try`, but for the look-up of the address.
  unfoldable pub read_agent : Gateway → Exec (Locals W) (Unit {0})
  unfolding listed_again
  read_agent g = do
    inside (outside (p.decrypt_value g.agent_token_enc))
    configured ← inside (outside (host.exit_configured g))
    assign (λ l. record l { exit_node_reachable = configured })
    stats ← inside (outside (host.list_peers g))
    peers ← inside (ask (list_by_gateway g.id))
    stats_now ← listed_again g stats peers
    time ← inside (read_world p.now)
    assign (λ l. record l { wg_online = some (wg_uplink_connected time stats_now) })
    online ← inside (outside (host.tailscale_connected g))
    assign (λ l. record l { tailscale_online = some online })
    assign (λ l. record l {
      readings = record l.readings {
        peer_metrics = l.readings.peer_metrics ++ peer_metrics_of stats_now peers;
      };
    })

  abbrev pub interfaces_in : Locals W → InterfaceState
  interfaces_in l = record {
    tailscale_online = l.tailscale_online;
    wg_online = l.wg_online;
    exit_node_reachable = l.exit_node_reachable;
  }

  unfoldable pub read_egress : Gateway → ℕ → Exec (Locals W) (Unit {0})
  read_egress g now = do
    current ← (λ l. (ok (interfaces_in l), l))
    metrics ← (λ l. (ok l.readings.gateway_metrics, l))
    snapshot ← inside (outside (resolve_egress host.egress g metrics current now))
    assign (λ l. record l { snapshot = snapshot })

  -- `except Exception`
  abbrev pub mark_down : Text → Locals W → Locals W
  mark_down vm_status l =
      if vm_running vm_status
      then record l { tailscale_online = some false; wg_online = some false }
      else l

  unfoldable pub read_gateway : Gateway → Text → ℕ → Exec (Locals W) (Unit {0})
  unfolding read_agent read_egress try_except
  read_gateway g vm_status now =
      try_except (read_agent g >> read_egress g now) pure (λ e. assign (mark_down vm_status))

  abbrev pub start_locals : Gateway → Readings → State W → Locals W
  start_locals g readings s =
      let newest = latest_gateway_metric g.id readings.gateway_metrics in
      record {
        session = s;
        readings = readings;
        exit_node_reachable = elim newest [
          | none ↦ none
          | some m ↦ m.interfaces.exit_node_reachable
        ];
        tailscale_online = none;
        wg_online = none;
        snapshot =
            snapshot_of host.egress
              (latest_gateway_metric_with_egress g.id readings.gateway_metrics) newest;
      }

  -- The row is stamped with the time of its own insertion.
  abbrev pub add_metric : Gateway → Text → ℕ → Locals W → Readings
  add_metric g vm_status polled_at l = record l.readings {
    gateway_metrics =
        l.readings.gateway_metrics
        ++ new_metric host.egress g vm_status (interfaces_in l) l.snapshot polled_at ∷ [];
  }

  unfoldable pub read_and_add : Gateway → Text → ℕ → Readings → Action W Readings
  unfolding read_gateway
  read_and_add g vm_status now readings s =
      let l = (read_gateway g vm_status now (start_locals g readings s)).1 in
      (ok (add_metric g vm_status (p.now l.session.world) l), l.session)

  unfoldable pub collect_gateway : Gateway → ℕ → Readings → Action W Readings
  unfolding read_and_add
  collect_gateway g now readings = do
    query (worker_of g)
    vm_status ← try_except (outside (host.vm_status g)) pure (λ e. pure (codes "unknown"))
    read_and_add g vm_status now readings

  unfoldable pub collect_all : List Gateway → ℕ → Readings → ℕ → Action W (Readings × ℕ)
  unfolding collect_gateway
  collect_all [] now readings count = pure (readings, count)
  collect_all (g ∷ gs) now readings count = elim (is_ready g.status) [
    | false ↦ collect_all gs now readings count
    | true ↦ do more ← collect_gateway g now readings; collect_all gs now more (count + 1)
  ]

  abbrev pub commit_count : Readings × ℕ → Action W (Readings × ℕ)
  commit_count answer = commit >> pure answer

  -- The tables of metrics after the round, and the number of gateways.
  unfoldable pub collect_round : Readings → Action W (Readings × ℕ)
  unfolding collect_all
  collect_round readings = do
    now ← read_world p.now
    gateways ← ask (λ db. db.gateways)
    answer ← collect_all gateways now readings 0
    commit_count answer

  unfoldable pub collect_metrics : Readings → Action W (Readings × ℕ)
  unfolding collect_round
  collect_metrics readings = try_except (collect_round readings) pure (λ e. rollback >> raise e)
