-- ===== src/Agent/Exit.antt =====
-- gateway_agent/tailscale_handler.py: how a gateway becomes an exit node, and its routing after a
-- restart.
use deep_orc.Prelude.{
  if◌then◌else◌, ◌==◌, nat_eq, any, Text, codes, text_eq, contains_text, Bool, true, false, Option,
  none, some, [], ◌∷◌, ◌++◌,
}
use deep_orc.Models.{bad_json, value_error}
use deep_orc.Effects.{Result, ok, err, Exec, pure, gets, lift_result, ◌>>=◌, ◌>>◌, try_except}
use deep_orc.Agent.{Completed, pass_runtime}
use deep_orc.Database.{
  gateway_keyed, job_keyed, peer_keyed, group_keyed, worker_keyed, enrollment_keyed,
  registration_keyed,
}
use deep_orc.Headscale.Values.{
  Json, null, text, list, object, to_list, get_member, truthy, equals_text, member_names,
}
use deep_orc.Agent.Reading.{words}
use deep_orc.Agent.Routing.{
  Machine, run_command, run_optional, vm_lan_ip, wg_subnet, wg_gateway_ip, tailscale_gateway_ip,
  ensure_wg_reply_rules, cleanup_stale_peer_routing, cleanup_stale_exit_hacks,
  ensure_backhaul_policy_routing,
}
use deep_orc.Agent.Firewall.{strip_tailscale_postrouting_masquerade, ensure_exit_via_wg_backhaul}

abbrev pub routing_script : Text
routing_script = codes "/opt/gateway-agent/deeporc-routing.sh"

abbrev pub exit_node_env : Text
exit_node_env = codes "/opt/gateway-agent/exit-node.env"

module _ {W : Type 0} (m : Machine W) where
  unfoldable pub route_exit : Exec W (Unit {0})
  unfolding vm_lan_ip wg_gateway_ip wg_subnet ensure_backhaul_policy_routing
  route_exit = do
    vm_ip ← vm_lan_ip m
    gateway_ip ← wg_gateway_ip m
    subnet ← wg_subnet m
    ts_ip ← tailscale_gateway_ip m
    ensure_backhaul_policy_routing m vm_ip gateway_ip subnet ts_ip
    ensure_exit_via_wg_backhaul m

  abbrev pub script_or_route : Bool → Exec W (Unit {0})
  script_or_route true = run_command m (routing_script ∷ codes "apply" ∷ [])
  script_or_route false = route_exit

  unfoldable pub ensure_exit_node_forwarding : Exec W (Unit {0})
  unfolding route_exit
  ensure_exit_node_forwarding = do
    present ← gets (m.is_file routing_script)
    script_or_route present

  unfoldable pub clear_advertised_wg_routes : Exec W (Unit {0})
  clear_advertised_wg_routes = run_optional m (words "tailscale set --advertise-routes=")

  unfoldable pub advertise_exit_node : Exec W (Unit {0})
  unfolding clear_advertised_wg_routes ensure_exit_node_forwarding
  advertise_exit_node = do
    subnet ← wg_subnet m
    cleanup_stale_peer_routing m subnet
    run_command m (words "tailscale set --advertise-exit-node --accept-dns --advertise-routes=")
    clear_advertised_wg_routes
    ensure_exit_node_forwarding
    strip_tailscale_postrouting_masquerade m

  unfoldable pub set_tailscale_hostname : Text → Exec W (Unit {0})
  set_tailscale_hostname hostname =
      run_command m (words "tailscale set --hostname" ++ hostname ∷ [])

  unfoldable pub set_exit_node : Text → Exec W (Unit {0})
  unfolding clear_advertised_wg_routes
  set_exit_node exit_node_id = do
    vm_ip ← vm_lan_ip m
    gateway_ip ← wg_gateway_ip m
    subnet ← wg_subnet m
    ensure_wg_reply_rules m vm_ip gateway_ip subnet
    cleanup_stale_peer_routing m subnet
    run_command m (
        words "tailscale set"
        ++ (codes "--exit-node=" ++ exit_node_id)
          ∷ words "--exit-node-allow-lan-access=false --netfilter-mode=off")
    clear_advertised_wg_routes
    m.write_text exit_node_env (codes "EXIT_NODE_ID=" ++ exit_node_id ++ 10 ∷ [])

  abbrev pub unlink_if : Bool → Exec W (Unit {0})
  unlink_if true = m.unlink exit_node_env
  unlink_if false = pure tt

  unfoldable pub clear_exit_node : Exec W (Unit {0})
  clear_exit_node = do
    run_command m (words "tailscale set --exit-node= --netfilter-mode=off")
    present ← gets (m.is_file exit_node_env)
    unlink_if present

  -- `routes = value or []`, and `"0.0.0.0/0" in routes`
  abbrev pub has_default_route : Option Json → Result Bool
  has_default_route none = ok false
  has_default_route (some null) = ok false
  has_default_route (some (list values)) =
      ok (any (equals_text (codes "0.0.0.0/0")) (to_list values))
  has_default_route (some (text t)) = ok (contains_text (codes "0.0.0.0/0") t)
  has_default_route (some (object members)) =
      ok (any (equals_text (codes "0.0.0.0/0")) (member_names members))
  has_default_route (some value) = if truthy value then err (value_error bad_json) else ok false

  abbrev pub is_set : Option Json → Bool
  is_set none = false
  is_set (some value) = truthy value

  abbrev pub advertises : Json → Result Bool
  advertises (object members) =
      if is_set (get_member (codes "AdvertiseExitNode") members)
      then ok true
      else has_default_route (get_member (codes "AdvertiseRoutes") members)
  advertises _ = err (value_error bad_json)

  abbrev pub advertised_text : Text
  advertised_text = b'"' ∷ codes "AdvertiseExitNode" ++ b'"' ∷ codes ": true"

  unfoldable pub exit_advertised : Text → Result Bool
  exit_advertised stdout = elim (m.loads stdout) [
    | none ↦ ok (contains_text advertised_text stdout)
    | some prefs ↦ advertises prefs
  ]

  abbrev pub forward_if : Bool → Exec W (Unit {0})
  forward_if true = ensure_exit_node_forwarding
  forward_if false = pure tt

  abbrev pub restore_listed : Completed → Exec W (Unit {0})
  restore_listed result =
      if result.returncode == 0
      then (do advertised ← lift_result (exit_advertised result.stdout); forward_if advertised)
      else pure tt

  unfoldable pub restore_exit_node_routing : Exec W (Unit {0})
  unfolding ensure_exit_node_forwarding try_except
  restore_exit_node_routing = do
    cleanup_stale_exit_hacks m
    try_except (do result ← m.processes.run (words "tailscale debug prefs"); restore_listed result)
        pure pass_runtime
