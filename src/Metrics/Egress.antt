-- ===== src/Metrics/Egress.antt =====
-- `_egress_geo_from_agent` and `_resolve_egress` of orchestrator/workers/metrics_collector.py.
use deep_orc.Prelude.{
  if◌then◌else◌, ◌==◌, nat_eq, Text, text_eq, is_empty, strip, ℕ, Bool, true, false, ◌&&◌, Option,
  none, some, List, [],
}
use deep_orc.Models.{Gateway}
use deep_orc.Effects.{Exec, pure, ◌>>=◌, try_except}
use deep_orc.Database.{
  gateway_keyed, job_keyed, peer_keyed, group_keyed, worker_keyed, enrollment_keyed,
  registration_keyed,
}
use deep_orc.Database.Jobs.{latest}
use deep_orc.Metrics.{
  InterfaceState, EgressSnapshot, GatewayMetric, has_text, no_egress, egress_snapshot_from_metric,
  pathways_ready, should_refresh_egress, merge_egress, latest_gateway_metric,
  latest_gateway_metric_with_egress,
}

pub record GeoResult : Type 0 where
  pub ip : Text
  pub country_code : Text

-- The agent's answer to GET /v1/egress/public-ip, and services/ip_geo.py.
pub record EgressHost (W : Type 0) : Type 0 where
  pub egress_public_ip : Gateway → Exec W (Option Text)
  pub lookup_geo : Text → Exec W (Option GeoResult)

module _ {W : Type 0} (host : EgressHost W) where
  abbrev pub geo_snapshot : Text → Option GeoResult → EgressSnapshot
  geo_snapshot ip none = record { public_ip = some ip; country_code = none; updated_at = none }
  geo_snapshot ip (some geo) = record {
    public_ip = some geo.ip;
    country_code = some geo.country_code;
    updated_at = none;
  }

  -- `ip == snapshot.public_ip and snapshot.country_code`
  abbrev pub is_known : Text → EgressSnapshot → Bool
  is_known ip snapshot =
      has_text snapshot.country_code
      && elim snapshot.public_ip [ none ↦ false | some old ↦ ip == old ]

  unfoldable pub look_up : EgressSnapshot → Text → Exec W EgressSnapshot
  unfolding ◌>>=◌
  look_up snapshot ip =
      if is_empty ip
      then pure no_egress
      else if is_known ip snapshot
      then pure
          (record { public_ip = some ip; country_code = snapshot.country_code; updated_at = none })
      else (do geo ← host.lookup_geo ip; pure (geo_snapshot ip geo))

  -- `(payload.get("ip") or "").strip()`
  abbrev pub stripped : Option Text → Text
  stripped none = []
  stripped (some ip) = strip ip

  -- Any exception counts as no answer.
  unfoldable pub egress_geo_from_agent : Gateway → EgressSnapshot → Exec W EgressSnapshot
  unfolding look_up try_except
  egress_geo_from_agent gateway snapshot =
      try_except (do payload ← host.egress_public_ip gateway; look_up snapshot (stripped payload))
        pure (λ e. pure no_egress)

  abbrev pub snapshot_of : Option GatewayMetric → Option GatewayMetric → EgressSnapshot
  snapshot_of egress latest =
      let snapshot = egress_snapshot_from_metric egress in
      if has_text snapshot.public_ip then snapshot else egress_snapshot_from_metric latest

  abbrev pub interfaces_of : Option GatewayMetric → Option InterfaceState
  interfaces_of none = none
  interfaces_of (some m) = some m.interfaces

  unfoldable pub resolve_egress :
      Gateway → List GatewayMetric → InterfaceState → ℕ → Exec W EgressSnapshot
  unfolding egress_geo_from_agent
  resolve_egress gateway metrics current now =
      let latest = latest_gateway_metric gateway.id metrics in
      let snapshot = snapshot_of (latest_gateway_metric_with_egress gateway.id metrics) latest in
      if should_refresh_egress (interfaces_of latest) current snapshot now
      then (do
        refreshed ← egress_geo_from_agent gateway snapshot
        pure (merge_egress snapshot refreshed true now))
      else pure snapshot

  -- The row that a collection adds.
  abbrev pub stored_snapshot : InterfaceState → EgressSnapshot → EgressSnapshot
  stored_snapshot current snapshot = if pathways_ready current then snapshot else no_egress

  unfoldable pub new_metric : Gateway → Text → InterfaceState → EgressSnapshot → ℕ → GatewayMetric
  new_metric gateway vm_status current snapshot now = record {
    gateway_id = gateway.id;
    vm_status = vm_status;
    interfaces = current;
    egress_public_ip = (stored_snapshot current snapshot).public_ip;
    egress_country_code = (stored_snapshot current snapshot).country_code;
    egress_updated_at = (stored_snapshot current snapshot).updated_at;
    polled_at = now;
  }
