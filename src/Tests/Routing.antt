-- ===== src/Tests/Routing.antt =====
-- The agent's routing on a small machine.
use deep_orc.Prelude.{nat_eq, text_eq, contains_text, split_words, split_lines, refl, ◌≢◌, []}
use deep_orc.Effects.{err}
use deep_orc.Models.{agent_error}
use deep_orc.Database.{
  gateway_keyed, job_keyed, peer_keyed, group_keyed, worker_keyed, enrollment_keyed,
  registration_keyed,
}
use deep_orc.Agent.Reading.{inet_address, before_slash, first_line, pieces}
use deep_orc.Agent.Routing.{
  tailscale_gateway_ip, cleanup_stale_exit_hacks, ensure_public_dns_bypass,
}
use deep_orc.Agent.Firewall.{ensure_exit_via_wg_backhaul}
use deep_orc.Agent.Exit.{ensure_exit_node_forwarding, restore_exit_node_routing}
use deep_orc.Agent.RuleLog.{words_eq}
use deep_orc.Agent.Policy.Forwarding.{IsRouted, ensure_exit_node_forwarding-IsRouted}
use deep_orc.Agent.Restored.{restore_exit_node_routing-survives}
use deep_orc.Tests.Router.{router, log}

ensure_exit_node_forwarding-IsRouted_example :
    IsRouted router log [] (ensure_exit_node_forwarding router []).1
unfolding ensure_exit_node_forwarding split_words first_line split_lines inet_address pieces
    tailscale_gateway_ip before_slash cleanup_stale_exit_hacks ensure_public_dns_bypass
    ensure_exit_via_wg_backhaul contains_text
ensure_exit_node_forwarding-IsRouted_example =
    ensure_exit_node_forwarding-IsRouted router log [] refl refl

restore_exit_node_routing-survives_example :
    (restore_exit_node_routing router []).0 ≢ err agent_error
restore_exit_node_routing-survives_example =
    restore_exit_node_routing-survives router (λ command w h. cc) []
