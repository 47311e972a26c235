-- ===== src/Metrics.antt =====
-- orchestrator/workers/egress_metrics.py, models/metrics.py and repositories/metrics_repo.py: the
-- measurements of gateways, and when their public address is looked up. Times are in seconds.
pub mod Egress
pub mod Laws
pub mod Unthrottled
pub mod Collector
pub mod Proper
pub mod Round
use deep_orc.Prelude.{
  ltb, leb, if◌then◌else◌, ◌==◌, nat_eq, Text, text_eq, is_empty, ℕ, ◌-◌, Bool, true, false, not,
  ◌&&◌, ◌||◌, Option, none, some, List, [], ◌∷◌,
}
use deep_orc.Database.{
  gateway_keyed, job_keyed, peer_keyed, group_keyed, worker_keyed, enrollment_keyed,
  registration_keyed,
}

pub record InterfaceState : Type 0 where
  pub tailscale_online : Option Bool
  pub wg_online : Option Bool
  pub exit_node_reachable : Option Bool

pub record EgressSnapshot : Type 0 where
  pub public_ip : Option Text
  pub country_code : Option Text
  pub updated_at : Option ℕ

pub record GatewayMetric : Type 0 where
  pub gateway_id : ℕ
  pub vm_status : Text
  pub interfaces : InterfaceState
  pub egress_public_ip : Option Text
  pub egress_country_code : Option Text
  pub egress_updated_at : Option ℕ
  pub polled_at : ℕ

abbrev pub egress_refresh_seconds : ℕ
egress_refresh_seconds = 300

-- `if value` on a text that may be missing
abbrev pub has_text : Option Text → Bool
has_text none = false
has_text (some s) = not (is_empty s)

abbrev pub no_egress : EgressSnapshot
no_egress = record { public_ip = none; country_code = none; updated_at = none }

abbrev pub time_or : Option ℕ → ℕ → Option ℕ
time_or none t = some t
time_or (some u) t = some u

unfoldable pub egress_snapshot_from_metric : Option GatewayMetric → EgressSnapshot
egress_snapshot_from_metric none = no_egress
egress_snapshot_from_metric (some m) =
    if has_text m.egress_public_ip
    then record {
      public_ip = m.egress_public_ip;
      country_code = m.egress_country_code;
      updated_at = time_or m.egress_updated_at m.polled_at;
    }
    else no_egress

abbrev pub same_bool : Bool → Bool → Bool
same_bool true b = b
same_bool false b = not b

abbrev pub same_option : Option Bool → Option Bool → Bool
same_option none none = true
same_option none (some b) = false
same_option (some a) none = false
same_option (some a) (some b) = same_bool a b

unfoldable pub interface_state_changed : Option InterfaceState → InterfaceState → Bool
interface_state_changed none current = true
interface_state_changed (some previous) current = not (
    same_option previous.tailscale_online current.tailscale_online
    && same_option previous.wg_online current.wg_online
    && same_option previous.exit_node_reachable current.exit_node_reachable)

-- `value is True`
abbrev pub is_true : Option Bool → Bool
is_true none = false
is_true (some b) = b

unfoldable pub pathways_ready : InterfaceState → Bool
pathways_ready state = is_true state.tailscale_online && is_true state.wg_online

-- How old the snapshot is; an age below zero counts as zero, which is under the limit too.
abbrev pub refresh_aged :
    Option InterfaceState → InterfaceState → EgressSnapshot → ℕ → Option ℕ → Bool
refresh_aged previous current snapshot now none = true
refresh_aged previous current snapshot now (some t) =
    if ltb (now - t) egress_refresh_seconds
    then false
    else if not (has_text snapshot.public_ip)
    then true
    else interface_state_changed previous current

unfoldable pub should_refresh_egress :
    Option InterfaceState → InterfaceState → EgressSnapshot → ℕ → Bool
unfolding pathways_ready
should_refresh_egress previous current snapshot now =
    if not (pathways_ready current)
    then false
    else refresh_aged previous current snapshot now snapshot.updated_at

abbrev pub text_or_else : Option Text → Option Text → Option Text
text_or_else a b = if has_text a then a else b

unfoldable pub merge_egress : EgressSnapshot → EgressSnapshot → Bool → ℕ → EgressSnapshot
merge_egress snapshot refreshed attempted now =
    if has_text refreshed.public_ip
    then record {
      public_ip = refreshed.public_ip;
      country_code = text_or_else refreshed.country_code snapshot.country_code;
      updated_at = some now;
    }
    else if attempted
    then record snapshot { updated_at = some now }
    else snapshot

-- The newest of a gateway's rows; of rows of one time, the last that was added.
abbrev pub newer : GatewayMetric → Option GatewayMetric → Option GatewayMetric
newer m none = some m
newer m (some n) = if leb m.polled_at n.polled_at then some n else some m

unfoldable pub latest_gateway_metric : ℕ → List GatewayMetric → Option GatewayMetric
latest_gateway_metric gateway_id [] = none
latest_gateway_metric gateway_id (m ∷ metrics) =
    let rest = latest_gateway_metric gateway_id metrics in
    if m.gateway_id == gateway_id then newer m rest else rest

-- A NULL time comes last.
abbrev pub before_time : Option ℕ → Option ℕ → Bool
before_time none none = false
before_time none (some u) = true
before_time (some t) none = false
before_time (some t) (some u) = ltb t u

abbrev pub same_time : Option ℕ → Option ℕ → Bool
same_time none none = true
same_time (some t) (some u) = t == u
same_time _ _ = false

-- By `egress_updated_at`, then by `polled_at`.
abbrev pub not_after : GatewayMetric → GatewayMetric → Bool
not_after m n =
    before_time m.egress_updated_at n.egress_updated_at
    || (same_time m.egress_updated_at n.egress_updated_at && leb m.polled_at n.polled_at)

abbrev pub fresher : GatewayMetric → Option GatewayMetric → Option GatewayMetric
fresher m none = some m
fresher m (some n) = if not_after m n then some n else some m

abbrev pub has_time : Option ℕ → Bool
has_time none = false
has_time (some t) = true

abbrev pub has_egress : Option Text → Bool
has_egress none = false
has_egress (some ip) = true

unfoldable pub latest_gateway_metric_with_egress : ℕ → List GatewayMetric → Option GatewayMetric
latest_gateway_metric_with_egress gateway_id [] = none
latest_gateway_metric_with_egress gateway_id (m ∷ metrics) =
    let rest = latest_gateway_metric_with_egress gateway_id metrics in
    if m.gateway_id == gateway_id && has_egress m.egress_public_ip then fresher m rest else rest
