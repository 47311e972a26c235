-- ===== src/Agent/Routing.antt =====
-- gateway_agent/tailscale_handler.py: the rules and routes that send what exit clients send through
-- the WireGuard uplink. The commands are run by the machine; a RuntimeError is `agent_error`.
use deep_orc.Prelude.{
  if◌then◌else◌, ◌==◌, nat_eq, Text, codes, text_eq, split_words, split_lines, ℕ, Bool, true, false,
  ◌&&◌, Option, none, some, List, [], ◌∷◌, ◌++◌,
}
use deep_orc.Models.{process_failed, value_error, agent_error}
use deep_orc.Effects.{Result, ok, err, Exec, pure, lift_result, ◌>>=◌, ◌>>◌}
use deep_orc.Agent.{Completed, Processes, finished}
use deep_orc.Database.{
  gateway_keyed, job_keyed, peer_keyed, group_keyed, worker_keyed, enrollment_keyed,
  registration_keyed,
}
use deep_orc.Headscale.Values.{Json}
use deep_orc.Agent.Reading.{
  words, search_for, default_pattern, inet_address, first_line, lan_address, plain_address,
  word_after, subnet_or_default,
}

pub record Machine (W : Type 0) : Type 0 where
  pub processes : Processes W
  pub is_file : Text → W → Bool
  pub append_text : Text → Text → Exec W (Unit {0})
  -- with the directories above it
  pub write_text : Text → Text → Exec W (Unit {0})
  pub unlink : Text → Exec W (Unit {0})
  pub loads : Text → Option Json
  -- `str.isdigit` of one character
  pub is_digit : ℕ → Bool

-- A rule of `ip rule` is its preference and the words of its selectors and its action.
abbrev pub Rule : Type 0
Rule = List Text

abbrev pub host_address : Text → Text
host_address ip = ip ++ codes "/32"

abbrev pub peer_return : Text → Rule
peer_return wg_subnet = codes "35" ∷ codes "to" ∷ wg_subnet ∷ words "lookup main"

abbrev pub from_host : Text → Text → Rule
from_host pref ip = pref ∷ codes "from" ∷ host_address ip ∷ words "lookup main"

abbrev pub to_main : Text → Text → Rule
to_main pref target = pref ∷ codes "to" ∷ target ∷ words "lookup main"

abbrev pub resolvers : List (Text × Text)
resolvers =
    (codes "8.8.8.8", codes "52")
    ∷ (codes "8.8.4.4", codes "53")
    ∷ (codes "1.1.1.1", codes "54")
    ∷ (codes "1.0.0.1", codes "55")
    ∷ []

-- `check=True`
abbrev pub checked_output : Completed → Result Text
checked_output result =
    if result.returncode == 0 then ok result.stdout else err (value_error process_failed)

abbrev pub or_runtime : Option Text → Result Text
or_runtime none = err agent_error
or_runtime (some s) = ok s

abbrev pub backhaul_default : List Text
backhaul_default = words "ip route replace default dev wg0 table 200"

abbrev pub backhaul_tailnet : List Text
backhaul_tailnet = words "ip route replace 100.64.0.0/10 dev tailscale0 table 200"

module _ {W : Type 0} (m : Machine W) where
  unfoldable pub run_command : List Text → Exec W (Unit {0})
  unfolding ◌>>=◌
  run_command command = do result ← m.processes.run command; lift_result (finished result)

  unfoldable pub run_optional : List Text → Exec W (Unit {0})
  unfolding ◌>>=◌
  run_optional command = m.processes.run command >> pure tt

  unfoldable pub read_output : List Text → Exec W Text
  unfolding ◌>>=◌
  read_output command = do result ← m.processes.run command; pure result.stdout

  unfoldable pub succeeds_with : List Text → (Text → Bool) → Exec W Bool
  unfolding ◌>>=◌
  succeeds_with command test = do
    result ← m.processes.run command
    pure (result.returncode == 0 && test result.stdout)

  abbrev pub route_source : Option Text → Exec W Text
  route_source (some ip) = pure ip
  route_source none = do
    result ← m.processes.run (words "ip -4 route get 1.1.1.1")
    stdout ← lift_result (checked_output result)
    lift_result (or_runtime (word_after (codes "src") (split_words stdout)))

  unfoldable pub vm_lan_ip : Exec W Text
  vm_lan_ip = do
    result ← m.processes.run (words "ip -4 -o addr show scope global")
    stdout ← lift_result (checked_output result)
    route_source (first_line lan_address (split_lines stdout))

  abbrev pub show_device : Text → List Text
  show_device interface = words "ip -4 -o addr show dev" ++ interface ∷ []

  unfoldable pub wg_subnet : Exec W Text
  unfolding read_output
  wg_subnet = do
    stdout ← read_output (show_device (codes "wg0"))
    lift_result (subnet_or_default (first_line inet_address (split_lines stdout)))

  unfoldable pub wg_gateway_ip : Exec W Text
  unfolding read_output
  wg_gateway_ip = do
    stdout ← read_output (show_device (codes "wg0"))
    lift_result (or_runtime (first_line plain_address (split_lines stdout)))

  unfoldable pub tailscale_gateway_ip : Exec W (Option Text)
  unfolding read_output
  tailscale_gateway_ip = do
    stdout ← read_output (show_device (codes "tailscale0"))
    pure (first_line plain_address (split_lines stdout))

  unfoldable pub host_default_gw : Exec W (Option Text)
  unfolding read_output
  host_default_gw = do
    stdout ← read_output (words "ip -4 route show default dev eth0")
    pure (search_for default_pattern stdout)

  unfoldable pub ensure_ip_rule : Rule → Exec W (Unit {0})
  unfolding run_command run_optional
  ensure_ip_rule rule = do
    run_optional (words "ip rule del pref" ++ rule)
    run_command (words "ip rule add pref" ++ rule)

  unfoldable pub ensure_wg_reply_rules : Text → Text → Text → Exec W (Unit {0})
  unfolding ensure_ip_rule
  ensure_wg_reply_rules vm_ip gateway_ip subnet = do
    ensure_ip_rule (peer_return subnet)
    ensure_ip_rule (from_host (codes "40") gateway_ip)
    ensure_ip_rule (from_host (codes "50") vm_ip)

  unfoldable pub cleanup_stale_peer_routing : Text → Exec W (Unit {0})
  unfolding run_optional
  cleanup_stale_peer_routing subnet = do
    run_optional (words "ip rule del pref 100")
    run_optional (words "ip rule del pref 100 iif wg0 from" ++ subnet ∷ words "lookup 100")
    run_optional (words "ip route flush table 100")

  unfoldable pub cleanup_stale_exit_hacks : Exec W (Unit {0})
  unfolding run_optional
  cleanup_stale_exit_hacks = do
    run_optional (words "ip rule del pref 60")
    run_optional (words "nft delete table ip gw_mangle")
    run_optional (words "nft delete table ip gw_preroute")

  abbrev pub route_via : Option Text → Text → Exec W (Unit {0})
  route_via none resolver = pure tt
  route_via (some host_gw) resolver =
      run_optional (
        words "ip route replace"
        ++ host_address resolver ∷ codes "via" ∷ host_gw ∷ words "dev eth0")

  unfoldable pub bypass_all : Option Text → List (Text × Text) → Exec W (Unit {0})
  unfolding run_optional ensure_ip_rule
  bypass_all host_gw [] = pure tt
  bypass_all host_gw ((resolver, pref) ∷ rest) = do
    run_optional (words "ip route del" ++ host_address resolver ∷ words "dev wg0")
    route_via host_gw resolver
    ensure_ip_rule (to_main pref resolver)
    bypass_all host_gw rest

  unfoldable pub ensure_public_dns_bypass : Exec W (Unit {0})
  unfolding host_default_gw bypass_all
  ensure_public_dns_bypass = do host_gw ← host_default_gw; bypass_all host_gw resolvers

  abbrev pub given_or_read : Option Text → Exec W (Option Text)
  given_or_read (some ip) = pure (some ip)
  given_or_read none = tailscale_gateway_ip

  abbrev pub ensure_tailscale_rule : Option Text → Exec W (Unit {0})
  ensure_tailscale_rule none = pure tt
  ensure_tailscale_rule (some ts_ip) = ensure_ip_rule (from_host (codes "45") ts_ip)

  abbrev pub name_table : Bool → Exec W (Unit {0})
  name_table true = pure tt
  name_table false =
      m.append_text (codes "/etc/iproute2/rt_tables") (codes "200 backhaul" ++ 10 ∷ [])

  unfoldable pub ensure_uplink_rules : Text → Text → Text → Option Text → Exec W (Unit {0})
  unfolding ensure_wg_reply_rules
  ensure_uplink_rules vm_ip gateway_ip subnet ts_ip = do
    ensure_wg_reply_rules vm_ip gateway_ip subnet
    ensure_tailscale_rule ts_ip
    cleanup_stale_exit_hacks
    ensure_public_dns_bypass
    ensure_ip_rule (to_main (codes "48") (codes "100.64.0.0/10"))
    run_optional (words "ip route replace 100.100.100.100 dev tailscale0 scope link")
    ensure_ip_rule (to_main (codes "57") (codes "100.100.100.100"))
    ensure_ip_rule (words "58 iif tailscale0 lookup 200")
    ensure_ip_rule (words "59 iif wg0 lookup main")

  unfoldable pub ensure_uplink_routes : Exec W (Unit {0})
  unfolding succeeds_with run_command run_optional
  ensure_uplink_routes = do
    named ← succeeds_with (words "grep -q backhaul /etc/iproute2/rt_tables") (λ stdout. true)
    name_table named
    run_command backhaul_default
    run_optional backhaul_tailnet

  unfoldable pub ensure_backhaul_policy_routing :
      Text → Text → Text → Option Text → Exec W (Unit {0})
  unfolding ensure_uplink_rules ensure_uplink_routes
  ensure_backhaul_policy_routing vm_ip gateway_ip subnet tailscale_ip = do
    ts_ip ← given_or_read tailscale_ip
    ensure_uplink_rules vm_ip gateway_ip subnet ts_ip
    ensure_uplink_routes
