-- ===== src/Agent/Policy/Uplink.antt =====
-- The routing rules that `_ensure_backhaul_policy_routing` adds.
use deep_orc.Prelude.{
  nat_eq, Text, codes, text_eq, split_words, ◌≡◌, refl, true, Option, none, some, List, [], ◌∷◌,
  ◌++◌,
}
use deep_orc.Effects.{pure, ◌>>◌}
use deep_orc.Database.{
  gateway_keyed, job_keyed, peer_keyed, group_keyed, worker_keyed, enrollment_keyed,
  registration_keyed,
}
use deep_orc.Agent.Reading.{words, search_for, default_pattern}
use deep_orc.Agent.Routing.{
  Machine, Rule, host_address, peer_return, from_host, to_main, resolvers, run_optional,
  read_output, host_default_gw, ensure_ip_rule, ensure_wg_reply_rules, cleanup_stale_exit_hacks,
  route_via, bypass_all, ensure_public_dns_bypass, ensure_tailscale_rule, ensure_uplink_rules,
}
use deep_orc.Agent.RuleLog.{words_eq, addition, is_apart, RuleLog}
use deep_orc.Agent.Policy.{Adds, Adds-bind, Adds-then}
use deep_orc.Agent.Policy.Commands.{
  Adds-of_Leaves, Leaves-read_output, Adds-pure, Adds-run_optional, Adds-ensure_ip_rule,
}

-- A rule that sends to the main table what comes from an address or goes to one.
abbrev pub main_rule : Text → Text → Text → Rule
main_rule pref selector address = pref ∷ selector ∷ address ∷ codes "lookup" ∷ codes "main" ∷ []

abbrev pub own_rule : Text → Text → Rule
own_rule pref ip = main_rule pref (codes "from") (ip ++ codes "/32")

abbrev pub reply_rules : Text → Text → Text → List Rule
reply_rules vm_ip gateway_ip subnet =
    main_rule (codes "35") (codes "to") subnet
    ∷ own_rule (codes "40") gateway_ip
    ∷ own_rule (codes "50") vm_ip
    ∷ []

abbrev pub tailscale_rules : Option Text → List Rule
tailscale_rules none = []
tailscale_rules (some ts_ip) = own_rule (codes "45") ts_ip ∷ []

abbrev pub resolver_rules : List Rule
resolver_rules =
    main_rule (codes "52") (codes "to") (codes "8.8.8.8")
    ∷ main_rule (codes "53") (codes "to") (codes "8.8.4.4")
    ∷ main_rule (codes "54") (codes "to") (codes "1.1.1.1")
    ∷ main_rule (codes "55") (codes "to") (codes "1.0.0.1")
    ∷ []

abbrev pub exit_rules : List Rule
exit_rules =
    main_rule (codes "48") (codes "to") (codes "100.64.0.0/10")
    ∷ main_rule (codes "57") (codes "to") (codes "100.100.100.100")
    ∷ (codes "58" ∷ codes "iif" ∷ codes "tailscale0" ∷ codes "lookup" ∷ codes "200" ∷ [])
    ∷ (codes "59" ∷ codes "iif" ∷ codes "wg0" ∷ codes "lookup" ∷ codes "main" ∷ [])
    ∷ []

-- The uplink's rules, in their order.
abbrev pub uplink_rules : Text → Text → Text → Option Text → List Rule
uplink_rules vm_ip gateway_ip subnet ts_ip =
    reply_rules vm_ip gateway_ip subnet ++ (tailscale_rules ts_ip ++ (resolver_rules ++ exit_rules))

module _ {W : Type 0} (m : Machine W) (log : RuleLog m) where
  Adds-reply_rules :
      (vm_ip gateway_ip subnet : Text)
      → Adds m log
          (reply_rules vm_ip gateway_ip subnet)
          (ensure_wg_reply_rules m vm_ip gateway_ip subnet)
  unfolding ensure_wg_reply_rules split_words
  Adds-reply_rules vm_ip gateway_ip subnet =
      Adds-then m log (Adds-ensure_ip_rule m log (peer_return subnet)) (
        Adds-then m log (Adds-ensure_ip_rule m log (from_host (codes "40") gateway_ip))
          (Adds-ensure_ip_rule m log (from_host (codes "50") vm_ip)))

  Adds-tailscale_rules :
      (ts_ip : Option Text) → Adds m log (tailscale_rules ts_ip) (ensure_tailscale_rule m ts_ip)
  unfolding split_words
  Adds-tailscale_rules none = Adds-pure m log tt
  Adds-tailscale_rules (some ts_ip) = Adds-ensure_ip_rule m log (from_host (codes "45") ts_ip)

  Adds-cleanup : Adds m log [] (cleanup_stale_exit_hacks m)
  unfolding cleanup_stale_exit_hacks split_words addition
  Adds-cleanup = Adds-then m log (Adds-run_optional m log (words "ip rule del pref 60") refl) (
      Adds-then m log (Adds-run_optional m log (words "nft delete table ip gw_mangle") refl)
        (Adds-run_optional m log (words "nft delete table ip gw_preroute") refl))

  Adds-route_via :
      (host_gw : Option Text) (resolver : Text) → Adds m log [] (route_via m host_gw resolver)
  unfolding split_words addition
  Adds-route_via none resolver = Adds-pure m log tt
  Adds-route_via (some host_gw) resolver =
      Adds-run_optional m log
        (words "ip route replace"
          ++ host_address resolver ∷ codes "via" ∷ host_gw ∷ words "dev eth0")
        refl

  abbrev rules_for : List (Text × Text) → List Rule
  rules_for [] = []
  rules_for ((resolver, pref) ∷ rest) = to_main pref resolver ∷ rules_for rest

  Adds-bypass_all :
      (host_gw : Option Text) (pairs : List (Text × Text))
      → Adds m log (rules_for pairs) (bypass_all m host_gw pairs)
  unfolding bypass_all split_words addition
  Adds-bypass_all host_gw [] = Adds-pure m log tt
  Adds-bypass_all host_gw ((resolver, pref) ∷ rest) =
      Adds-then m log
        (Adds-run_optional m log (words "ip route del" ++ host_address resolver ∷ words "dev wg0")
          refl)
        (Adds-then m log (Adds-route_via host_gw resolver) (
          Adds-then m log (Adds-ensure_ip_rule m log (to_main pref resolver))
            (Adds-bypass_all host_gw rest)))

  Adds-read_output :
      (command : List Text) → is_apart command ≡ true → Adds m log [] (read_output m command)
  Adds-read_output command h =
      Adds-of_Leaves m log (read_output m command) (Leaves-read_output m log command h)

  Adds-dns : Adds m log resolver_rules (ensure_public_dns_bypass m)
  unfolding ensure_public_dns_bypass host_default_gw split_words addition
  Adds-dns =
      Adds-bind m log (host_default_gw m) (λ host_gw. bypass_all m host_gw resolvers) []
        resolver_rules
        (Adds-bind m log (read_output m (words "ip -4 route show default dev eth0"))
          (λ stdout. pure (search_for default_pattern stdout)) [] []
          (Adds-read_output (words "ip -4 route show default dev eth0") refl)
          (λ stdout. Adds-pure m log (search_for default_pattern stdout)))
        (λ host_gw. Adds-bypass_all host_gw resolvers)

  Adds-exit_rules : Adds m log exit_rules (do
    ensure_ip_rule m (to_main (codes "48") (codes "100.64.0.0/10"))
    run_optional m (words "ip route replace 100.100.100.100 dev tailscale0 scope link")
    ensure_ip_rule m (to_main (codes "57") (codes "100.100.100.100"))
    ensure_ip_rule m (words "58 iif tailscale0 lookup 200")
    ensure_ip_rule m (words "59 iif wg0 lookup main"))
  unfolding split_words addition
  Adds-exit_rules =
      Adds-then m log (Adds-ensure_ip_rule m log (to_main (codes "48") (codes "100.64.0.0/10"))) (
        Adds-then m log
          (Adds-run_optional m log
            (words "ip route replace 100.100.100.100 dev tailscale0 scope link") refl)
          (Adds-then m log
            (Adds-ensure_ip_rule m log (to_main (codes "57") (codes "100.100.100.100")))
            (Adds-then m log (Adds-ensure_ip_rule m log (words "58 iif tailscale0 lookup 200"))
              (Adds-ensure_ip_rule m log (words "59 iif wg0 lookup main")))))

  pub Adds-uplink_rules :
      (vm_ip gateway_ip subnet : Text) (ts_ip : Option Text)
      → Adds m log
          (uplink_rules vm_ip gateway_ip subnet ts_ip)
          (ensure_uplink_rules m vm_ip gateway_ip subnet ts_ip)
  unfolding ensure_uplink_rules
  Adds-uplink_rules vm_ip gateway_ip subnet ts_ip =
      Adds-then m log (Adds-reply_rules vm_ip gateway_ip subnet) (
        Adds-then m log (Adds-tailscale_rules ts_ip)
          (Adds-then m log Adds-cleanup (Adds-then m log Adds-dns Adds-exit_rules)))
