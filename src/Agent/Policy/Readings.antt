-- ===== src/Agent/Policy/Readings.antt =====
-- What reads addresses and sets routes adds no routing rule.
use deep_orc.Prelude.{
  nat_eq, Text, codes, text_eq, split_words, split_lines, ◌≡◌, refl, Bool, true, false, Option,
  none, some, List, [], ◌∷◌, ◌++◌,
}
use deep_orc.Effects.{Result, pure, lift_result, ◌>>=◌}
use deep_orc.Database.{
  gateway_keyed, job_keyed, peer_keyed, group_keyed, worker_keyed, enrollment_keyed,
  registration_keyed,
}
use deep_orc.Agent.Reading.{
  words, inet_address, first_line, lan_address, plain_address, word_after, subnet_or_default,
}
use deep_orc.Agent.Routing.{
  Machine, checked_output, or_runtime, backhaul_default, backhaul_tailnet, read_output,
  succeeds_with, route_source, vm_lan_ip, show_device, wg_subnet, wg_gateway_ip,
  tailscale_gateway_ip, given_or_read, name_table, ensure_uplink_routes,
}
use deep_orc.Agent.RuleLog.{words_eq, addition, is_apart, RuleLog}
use deep_orc.Agent.Policy.{Leaves, Leaves-bind, Leaves-then}
use deep_orc.Agent.Policy.Commands.{
  Leaves-pure, Leaves-lift_result, Leaves-run, Leaves-run_optional, Leaves-run_command,
  Leaves-read_output, Leaves-succeeds_with,
}

module _ {W : Type 0} (m : Machine W) (log : RuleLog m) where
  Leaves-name_table : (named : Bool) → Leaves m log (name_table m named)
  Leaves-name_table true = Leaves-pure m log tt
  Leaves-name_table false = record {
    at =
        λ w. log.append_keeps (codes "/etc/iproute2/rt_tables") (codes "200 backhaul" ++ 10 ∷ []) w;
  }

  pub Leaves-uplink_routes : Leaves m log (ensure_uplink_routes m)
  unfolding ensure_uplink_routes split_words addition
  Leaves-uplink_routes =
      Leaves-bind m log
        (succeeds_with m (words "grep -q backhaul /etc/iproute2/rt_tables") (λ stdout. true)) _
        (Leaves-succeeds_with m log (words "grep -q backhaul /etc/iproute2/rt_tables")
          (λ stdout. true) refl)
        (λ named. Leaves-then m log (Leaves-name_table named) (
          Leaves-then m log (Leaves-run_command m log backhaul_default refl)
            (Leaves-run_optional m log backhaul_tailnet refl)))

  -- A command that prints, and how its output is read.
  Leaves-read :
      {A : Type 0} (command : List Text) (f : Text → Result A)
      → is_apart command ≡ true
      → Leaves m log (do stdout ← read_output m command; lift_result (f stdout))
  Leaves-read command f h =
      Leaves-bind m log (read_output m command) (λ stdout. lift_result (f stdout))
        (Leaves-read_output m log command h) (λ stdout. Leaves-lift_result m log (f stdout))

  Leaves-route_source : (ip : Option Text) → Leaves m log (route_source m ip)
  unfolding split_words addition
  Leaves-route_source (some ip) = Leaves-pure m log ip
  Leaves-route_source none =
      Leaves-bind m log (m.processes.run (words "ip -4 route get 1.1.1.1")) _
        (Leaves-run m log (words "ip -4 route get 1.1.1.1") refl)
        (λ result.
          Leaves-bind m log (lift_result (checked_output result))
            (λ stdout. lift_result (or_runtime (word_after (codes "src") (split_words stdout))))
            (Leaves-lift_result m log (checked_output result))
            (λ stdout.
              Leaves-lift_result m log
                (or_runtime (word_after (codes "src") (split_words stdout)))))

  pub Leaves-vm_lan_ip : Leaves m log (vm_lan_ip m)
  unfolding vm_lan_ip split_words addition
  Leaves-vm_lan_ip =
      Leaves-bind m log (m.processes.run (words "ip -4 -o addr show scope global")) _
        (Leaves-run m log (words "ip -4 -o addr show scope global") refl)
        (λ result.
          Leaves-bind m log (lift_result (checked_output result))
            (λ stdout. route_source m (first_line lan_address (split_lines stdout)))
            (Leaves-lift_result m log (checked_output result))
            (λ stdout. Leaves-route_source (first_line lan_address (split_lines stdout))))

  pub Leaves-tailscale_gateway_ip : Leaves m log (tailscale_gateway_ip m)
  unfolding tailscale_gateway_ip split_words addition
  Leaves-tailscale_gateway_ip =
      Leaves-bind m log (read_output m (show_device m (codes "tailscale0")))
        (λ stdout. pure (first_line plain_address (split_lines stdout)))
        (Leaves-read_output m log (show_device m (codes "tailscale0")) refl)
        (λ stdout. Leaves-pure m log (first_line plain_address (split_lines stdout)))

  pub Leaves-given_or_read : (ts_ip : Option Text) → Leaves m log (given_or_read m ts_ip)
  Leaves-given_or_read (some ip) = Leaves-pure m log (some ip)
  Leaves-given_or_read none = Leaves-tailscale_gateway_ip

  pub Leaves-wg_gateway_ip : Leaves m log (wg_gateway_ip m)
  unfolding wg_gateway_ip split_words addition
  Leaves-wg_gateway_ip =
      Leaves-read (show_device m (codes "wg0"))
        (λ stdout. or_runtime (first_line plain_address (split_lines stdout))) refl

  pub Leaves-wg_subnet : Leaves m log (wg_subnet m)
  unfolding wg_subnet split_words addition
  Leaves-wg_subnet =
      Leaves-read (show_device m (codes "wg0"))
        (λ stdout. subnet_or_default (first_line inet_address (split_lines stdout))) refl
