-- ===== src/Tests/Metrics.antt =====
-- When a gateway's public address is looked up.
use deep_orc.Prelude.{
  nat_eq, length, Text, codes, text_eq, strip, ◌≡◌, refl, true, Option, none, some, List, [], ◌∷◌,
}
use deep_orc.Models.{GatewayStatus, Gateway}
use deep_orc.Effects.{pure, raise, ◌>>=◌, try_except}
use deep_orc.Database.{
  gateway_keyed, job_keyed, peer_keyed, group_keyed, worker_keyed, enrollment_keyed,
  registration_keyed,
}
use deep_orc.Session.{query, outside, ask, read_world, commit}
use deep_orc.Agent.RuleLog.{words_eq}
use deep_orc.Workers.{get_worker}
use deep_orc.Peers.{list_by_gateway}
use deep_orc.Metrics.{
  InterfaceState, GatewayMetric, egress_snapshot_from_metric, interface_state_changed,
  pathways_ready, should_refresh_egress, merge_egress, latest_gateway_metric,
  latest_gateway_metric_with_egress,
}
use deep_orc.Metrics.Egress.{EgressHost, look_up, egress_geo_from_agent, resolve_egress, new_metric}
use deep_orc.Metrics.Collector.{
  CollectorHost, Readings, wg_uplink_connected, inside, assign, listed_again, read_agent,
  read_egress, read_gateway, read_and_add, collect_gateway, collect_all, collect_round,
  collect_metrics,
}
use deep_orc.Metrics.Round.{ready_gateways, IsRound, collect_metrics-IsRound}
use deep_orc.Tests.Sample.{World, succeeds, platform, gateway_row, database, session}

abbrev egress_host : EgressHost World
egress_host = record {
  egress_public_ip = λ g. succeeds (some (codes "9.9.9.9"));
  lookup_geo = λ ip. succeeds (some (record { ip = ip; country_code = codes "NL" }));
}

abbrev both_online : InterfaceState
both_online = record {
  tailscale_online = some true;
  wg_online = some true;
  exit_node_reachable = none;
}

abbrev exit : Gateway
exit = gateway_row GatewayStatus.ready

abbrev reading : Option Text → GatewayMetric
reading ip = record {
  gateway_id = 3;
  vm_status = codes "Running";
  interfaces = both_online;
  egress_public_ip = ip;
  egress_country_code = none;
  egress_updated_at = some 1000;
  polled_at = 1000;
}

abbrev collector_host : CollectorHost World
collector_host = record {
  egress = egress_host;
  vm_status = λ g. succeeds (codes "Running");
  exit_configured = λ g. succeeds none;
  list_peers = λ g. succeeds (
      record { public_key = codes "q"; last_handshake = some 990; rx_bytes = none; tx_bytes = none }
      ∷ []);
  tailscale_connected = λ g. succeeds true;
}

abbrev no_readings : Readings
no_readings = record { gateway_metrics = []; peer_metrics = [] }

abbrev read_row : GatewayMetric
read_row = record {
  gateway_id = 3;
  vm_status = codes "Running";
  interfaces = both_online;
  egress_public_ip = some (codes "9.9.9.9");
  egress_country_code = some (codes "NL");
  egress_updated_at = some 1000;
  polled_at = 1000;
}

-- A READY gateway and one that failed.
abbrev two_gateways : List Gateway
two_gateways = exit ∷ gateway_row GatewayStatus.error ∷ []

collect_metrics-IsRound_example :
    IsRound two_gateways [] (read_row ∷ []) × (1 ≡ length (ready_gateways two_gateways))
unfolding collect_metrics read_world ask query get_worker outside commit inside assign
    list_by_gateway resolve_egress should_refresh_egress wg_uplink_connected
    egress_snapshot_from_metric latest_gateway_metric_with_egress latest_gateway_metric strip pure
    raise try_except ◌>>=◌ collect_all collect_gateway collect_round listed_again read_agent
    read_and_add read_egress read_gateway egress_geo_from_agent look_up new_metric
    interface_state_changed merge_egress pathways_ready
collect_metrics-IsRound_example =
    collect_metrics-IsRound platform collector_host no_readings (session (database two_gateways []))
      (record { gateway_metrics = read_row ∷ []; peer_metrics = [] }, 1) refl
