-- ===== src/Agent/Policy/Forwarding.antt =====
-- The routing rules that `ensure_exit_node_forwarding` adds, for the addresses that it reads.
use deep_orc.Prelude.{
  nat_eq, Text, text_eq, ◌≡◌, refl, ap, ◌∙◌, false, Option, [], ◌++◌, append-nil,
}
use deep_orc.Effects.{ok, ◌>>=◌, gets, bind-IsBound}
use deep_orc.Database.{
  gateway_keyed, job_keyed, peer_keyed, group_keyed, worker_keyed, enrollment_keyed,
  registration_keyed,
}
use deep_orc.Agent.Routing.{
  Machine, vm_lan_ip, wg_subnet, wg_gateway_ip, tailscale_gateway_ip, given_or_read,
  ensure_uplink_routes, ensure_backhaul_policy_routing,
}
use deep_orc.Agent.Exit.{routing_script, route_exit, ensure_exit_node_forwarding}
use deep_orc.Agent.RuleLog.{words_eq, RuleLog}
use deep_orc.Agent.Policy.{successes, Adds-then}
use deep_orc.Agent.Policy.Commands.{Adds-of_Leaves}
use deep_orc.Agent.Policy.Uplink.{uplink_rules, Adds-uplink_rules}
use deep_orc.Agent.Policy.Filters.{Leaves-exit_via_wg_backhaul}
use deep_orc.Agent.Policy.Readings.{
  Leaves-uplink_routes, Leaves-vm_lan_ip, Leaves-tailscale_gateway_ip, Leaves-given_or_read,
  Leaves-wg_gateway_ip, Leaves-wg_subnet,
}

module _ {W : Type 0} (m : Machine W) (log : RuleLog m) where
  -- The uplink's rules for the tailnet's address, which is read if it is not given, and for the
  -- other three addresses.
  record IsUplink (vm_ip gateway_ip subnet : Text) (given : Option Text) (w v : W) : Type 0 where
    pub ts_ip : Option Text
    pub ts_known : (given_or_read m given w).0 ≡ ok ts_ip
    pub added : log.added v ≡ log.added w ++ successes (uplink_rules vm_ip gateway_ip subnet ts_ip)

  -- If the routing of the backhaul returns, then the rules that it has added are just the uplink's
  -- for the given addresses, in their order and each with success: those of preference 35, 40 and
  -- 50 for the subnet, the uplink's address and the machine's, that of 45 if the tailnet's address
  -- is given or can be read, those of 52 to 55 for the public resolvers, and 48, 57, 58 and 59.
  ensure_backhaul_policy_routing-IsUplink :
      (vm_ip gateway_ip subnet : Text) (given : Option Text) (w : W)
      → (ensure_backhaul_policy_routing m vm_ip gateway_ip subnet given w).0 ≡ ok tt
      → IsUplink vm_ip gateway_ip subnet given w
          (ensure_backhaul_policy_routing m vm_ip gateway_ip subnet given w).1
  unfolding ensure_backhaul_policy_routing
  ensure_backhaul_policy_routing-IsUplink vm_ip gateway_ip subnet given w h =
      let b = bind-IsBound (given_or_read m given) _ w tt h in
      let rules =
        Adds-then m log (Adds-uplink_rules m log vm_ip gateway_ip subnet b.value)
          (Adds-of_Leaves m log (ensure_uplink_routes m) (Leaves-uplink_routes m log)) in
      record {
        ts_ip = b.value;
        ts_known = b.first;
        added =
            ap (λ r. log.added r.1) b.whole_step
            ∙ rules.at (given_or_read m given w).1 tt b.second
            ∙ ap (λ xs. xs ++ successes (uplink_rules vm_ip gateway_ip subnet b.value ++ []))
                ((Leaves-given_or_read m log given).at w)
            ∙ ap (λ plan. log.added w ++ successes plan)
                (append-nil (uplink_rules vm_ip gateway_ip subnet b.value));
      }

  -- The uplink's rules for the addresses that the four readings give, one after the other.
  pub record IsRouted (w v : W) : Type 0 where
    pub vm_ip : Text
    pub gateway_ip : Text
    pub subnet : Text
    pub given : Option Text
    pub at_vm : W
    pub at_gateway : W
    pub at_subnet : W
    pub at_ts : W
    pub vm_read : vm_lan_ip m w ≡ (ok vm_ip, at_vm)
    pub gateway_read : wg_gateway_ip m at_vm ≡ (ok gateway_ip, at_gateway)
    pub subnet_read : wg_subnet m at_gateway ≡ (ok subnet, at_subnet)
    pub ts_read : tailscale_gateway_ip m at_subnet ≡ (ok given, at_ts)
    pub ts_ip : Option Text
    pub ts_known : (given_or_read m given at_ts).0 ≡ ok ts_ip
    pub added : log.added v ≡ log.added w ++ successes (uplink_rules vm_ip gateway_ip subnet ts_ip)

  route_exit-IsRouted : (w : W) → (route_exit m w).0 ≡ ok tt → IsRouted w (route_exit m w).1
  unfolding route_exit
  route_exit-IsRouted w h =
      let b1 = bind-IsBound (vm_lan_ip m) _ w tt h in
      let w1 : W = (vm_lan_ip m w).1 in
      let b2 = bind-IsBound (wg_gateway_ip m) _ w1 tt b1.second in
      let w2 : W = (wg_gateway_ip m w1).1 in
      let b3 = bind-IsBound (wg_subnet m) _ w2 tt b2.second in
      let w3 : W = (wg_subnet m w2).1 in
      let b4 = bind-IsBound (tailscale_gateway_ip m) _ w3 tt b3.second in
      let w4 : W = (tailscale_gateway_ip m w3).1 in
      let b5 =
        bind-IsBound (ensure_backhaul_policy_routing m b1.value b2.value b3.value b4.value) _ w4 tt
          b4.second in
      let w5 : W = (ensure_backhaul_policy_routing m b1.value b2.value b3.value b4.value w4).1 in
      let uplink =
        ensure_backhaul_policy_routing-IsUplink b1.value b2.value b3.value b4.value w4 b5.first in
      record {
        vm_ip = b1.value;
        gateway_ip = b2.value;
        subnet = b3.value;
        given = b4.value;
        at_vm = w1;
        at_gateway = w2;
        at_subnet = w3;
        at_ts = w4;
        vm_read = λ i. (b1.first i, w1);
        gateway_read = λ i. (b2.first i, w2);
        subnet_read = λ i. (b3.first i, w3);
        ts_read = λ i. (b4.first i, w4);
        ts_ip = uplink.ts_ip;
        ts_known = uplink.ts_known;
        added =
            ap (λ r. log.added r.1)
              (b1.whole_step ∙ b2.whole_step ∙ b3.whole_step ∙ b4.whole_step ∙ b5.whole_step)
            ∙ (Leaves-exit_via_wg_backhaul m log).at w5
            ∙ uplink.added
            ∙ ap (λ xs. xs ++ successes (uplink_rules b1.value b2.value b3.value uplink.ts_ip))
                ((Leaves-tailscale_gateway_ip m log).at w3
                  ∙ (Leaves-wg_subnet m log).at w2
                  ∙ (Leaves-wg_gateway_ip m log).at w1
                  ∙ (Leaves-vm_lan_ip m log).at w);
      }

  -- If the forwarding of exit clients is set up without the gateway's own script and returns, then
  -- the rules that it has added are just the uplink's, in their order and each with success, for
  -- the addresses of the machine, of the uplink, of its subnet and of the tailnet that were read
  -- one after the other; the tailnet's is read again if the first reading has none.
  pub ensure_exit_node_forwarding-IsRouted :
      (w : W)
      → m.is_file routing_script w ≡ false
      → (ensure_exit_node_forwarding m w).0 ≡ ok tt
      → IsRouted w (ensure_exit_node_forwarding m w).1
  unfolding ensure_exit_node_forwarding gets ◌>>=◌
  ensure_exit_node_forwarding-IsRouted w no_script h =
      let whole : ensure_exit_node_forwarding m w ≡ route_exit m w = rw no_script refl in
      rw whole (route_exit-IsRouted w (rw whole at h))
