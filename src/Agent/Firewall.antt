-- ===== src/Agent/Firewall.antt =====
-- gateway_agent/tailscale_handler.py: the rules of nftables that masquerade and forward what exit
-- clients send.
use deep_orc.Prelude.{
  if◌then◌else◌, ◌==◌, nat_eq, all, Text, codes, text_eq, is_empty, strip, contains_text,
  split_words, split_lines, last_word, Bool, true, false, not, ◌&&◌, List, [], ◌∷◌, ◌++◌,
}
use deep_orc.Models.{bad_key}
use deep_orc.Effects.{Exec, pure, gets, require, ◌>>=◌, ◌>>◌}
use deep_orc.Agent.{Completed}
use deep_orc.Database.{
  gateway_keyed, job_keyed, peer_keyed, group_keyed, worker_keyed, enrollment_keyed,
  registration_keyed,
}
use deep_orc.Agent.Reading.{words}
use deep_orc.Agent.Routing.{Machine, run_command, run_optional, succeeds_with}

abbrev pub snat_marker : Text
snat_marker = codes "oifname " ++ b'"' ∷ codes "eth0" ++ b'"' ∷ codes " udp dport 53"

abbrev pub nat_chain : List Text
nat_chain =
    words
      "nft add chain ip gw_nat postrouting { type nat hook postrouting priority srcnat ; policy accept ; }"

abbrev pub forward_table_chain : List Text
forward_table_chain =
    words
      "nft add chain ip deeporc_exit forward { type filter hook forward priority filter ; policy accept ; }"

abbrev pub uplink_masquerade : List Text
uplink_masquerade =
    words "nft add rule ip gw_nat postrouting ip saddr 100.64.0.0/10 oifname wg0 masquerade"

abbrev pub dns_masquerade : Text → List Text
dns_masquerade proto =
    words "nft add rule ip gw_nat postrouting ip saddr 100.64.0.0/10 oifname eth0"
    ++ proto ∷ words "dport 53 masquerade"

abbrev pub gateway_nft : Text
gateway_nft = codes "/etc/nftables.d/gateway.nft"

module _ {W : Type 0} (m : Machine W) where
  -- A rule of nftables whose last word is a number is deleted by it.
  abbrev pub delete_numbered : List Text → Text → Exec W (Unit {0})
  delete_numbered chain nft_handle =
      if not (is_empty nft_handle) && all m.is_digit nft_handle
      then run_optional m (words "nft delete rule" ++ chain ++ codes "handle" ∷ nft_handle ∷ [])
      else pure tt

  unfoldable pub delete_lines : List Text → (Text → Bool) → List Text → Exec W (Unit {0})
  unfolding run_optional
  delete_lines chain predicate [] = pure tt
  delete_lines chain predicate (line ∷ lines) = elim (predicate line) [
    | false ↦ delete_lines chain predicate lines
    | true ↦ do
      nft_handle ← require bad_key (last_word (split_words (strip line)))
      delete_numbered chain nft_handle
      delete_lines chain predicate lines
  ]

  abbrev pub delete_matching : List Text → (Text → Bool) → Completed → Exec W (Unit {0})
  delete_matching chain predicate result =
      if result.returncode == 0
      then delete_lines chain predicate (split_lines result.stdout)
      else pure tt

  unfoldable pub nft_delete_matching : List Text → (Text → Bool) → Exec W (Unit {0})
  unfolding delete_lines
  nft_delete_matching chain predicate = do
    result ← m.processes.run (words "nft -a list chain" ++ chain)
    delete_matching chain predicate result

  unfoldable pub strip_tailscale_postrouting_masquerade : Exec W (Unit {0})
  unfolding nft_delete_matching
  strip_tailscale_postrouting_masquerade =
      nft_delete_matching (words "ip nat ts-postrouting") (contains_text (codes "masquerade"))

  abbrev pub unless : Bool → Exec W (Unit {0}) → Exec W (Unit {0})
  unless true act = pure tt
  unless false act = act

  unfoldable pub add_dns_snat : Exec W (Unit {0})
  unfolding run_optional succeeds_with
  add_dns_snat = do
    run_optional m (words "nft add table ip gw_nat")
    listed ← succeeds_with m (words "nft list chain ip gw_nat postrouting") (λ stdout. true)
    unless listed (run_optional m nat_chain)
    run_optional m (dns_masquerade (codes "udp"))
    run_optional m (dns_masquerade (codes "tcp"))

  unfoldable pub ensure_eth0_dns_snat : Exec W (Unit {0})
  unfolding add_dns_snat
  ensure_eth0_dns_snat = do
    present ←
        succeeds_with m (words "nft list chain ip gw_nat postrouting") (contains_text snat_marker)
    unless present add_dns_snat

  unfoldable pub add_forwarding : Exec W (Unit {0})
  unfolding run_optional
  add_forwarding = do
    run_optional m
        (words "nft add rule ip deeporc_exit forward iifname tailscale0 oifname wg0 accept")
    run_optional m
        (words "nft add rule ip deeporc_exit forward iifname wg0 oifname tailscale0 accept")

  unfoldable pub add_exit_tables : Exec W (Unit {0})
  unfolding add_forwarding succeeds_with
  add_exit_tables = do
    run_optional m (words "nft add table ip gw_nat")
    run_optional m nat_chain
    run_optional m uplink_masquerade
    run_optional m (dns_masquerade (codes "udp"))
    run_optional m (dns_masquerade (codes "tcp"))
    run_optional m (words "nft add table ip deeporc_exit")
    run_optional m forward_table_chain
    present ←
        succeeds_with m (words "nft -a list chain ip deeporc_exit forward")
          (contains_text (codes "tailscale0"))
    unless present add_forwarding

  abbrev pub load_or_add : Bool → Exec W (Unit {0})
  load_or_add true = run_command m (words "nft -f" ++ gateway_nft ∷ []) >> ensure_eth0_dns_snat
  load_or_add false = add_exit_tables

  unfoldable pub ensure_exit_via_wg_backhaul : Exec W (Unit {0})
  unfolding strip_tailscale_postrouting_masquerade ensure_eth0_dns_snat add_exit_tables
  ensure_exit_via_wg_backhaul = do
    strip_tailscale_postrouting_masquerade
    run_optional m (words "nft delete table ip gw_nat")
    run_optional m (words "nft delete table ip deeporc_exit")
    present ← gets (m.is_file gateway_nft)
    load_or_add present
