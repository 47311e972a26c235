-- ===== src/Agent/Policy/Filters.antt =====
-- The commands for the firewall add no routing rule.
use deep_orc.Prelude.{
  if◌then◌else◌, ◌==◌, nat_eq, all, Text, codes, text_eq, is_empty, strip, contains_text,
  split_words, split_lines, last_word, ◌≡◌, refl, Bool, true, false, not, ◌&&◌, Option, List, [],
  ◌∷◌, ◌++◌,
}
use deep_orc.Models.{Reason, bad_key}
use deep_orc.Effects.{Exec, pure, gets, require, ◌>>=◌, ◌>>◌}
use deep_orc.Agent.{Completed}
use deep_orc.Database.{
  gateway_keyed, job_keyed, peer_keyed, group_keyed, worker_keyed, enrollment_keyed,
  registration_keyed,
}
use deep_orc.Agent.Reading.{words}
use deep_orc.Agent.Routing.{Machine, run_optional, succeeds_with}
use deep_orc.Agent.Firewall.{
  snat_marker, nat_chain, forward_table_chain, uplink_masquerade, dns_masquerade, gateway_nft,
  delete_numbered, delete_lines, delete_matching, nft_delete_matching,
  strip_tailscale_postrouting_masquerade, unless, add_dns_snat, ensure_eth0_dns_snat,
  add_forwarding, add_exit_tables, load_or_add, ensure_exit_via_wg_backhaul,
}
use deep_orc.Agent.RuleLog.{words_eq, addition, is_apart, RuleLog}
use deep_orc.Agent.Policy.{Leaves, Leaves-bind, Leaves-then}
use deep_orc.Agent.Policy.Commands.{
  Leaves-pure, Leaves-gets, Leaves-run, Leaves-run_optional, Leaves-run_command,
  Leaves-succeeds_with,
}

module _ {W : Type 0} (m : Machine W) (log : RuleLog m) where
  Leaves-delete_numbered :
      (nft_handle : Text)
      → Leaves m log (delete_numbered m (words "ip nat ts-postrouting") nft_handle)
  unfolding split_words addition
  Leaves-delete_numbered nft_handle =
      elim (not (is_empty nft_handle) && all m.is_digit nft_handle)
        as (λ b. Leaves m log (
          if b
          then run_optional m (
              words "nft delete rule"
              ++ words "ip nat ts-postrouting"
              ++ codes "handle" ∷ nft_handle ∷ [])
          else pure tt)) [
            | true ↦
                Leaves-run_optional m log
                  (words "nft delete rule"
                    ++ words "ip nat ts-postrouting"
                    ++ codes "handle" ∷ nft_handle ∷ [])
                  refl
            | false ↦ Leaves-pure m log tt
          ]

  Leaves-require : {A : Type 0} (why : Reason) (o : Option A) → Leaves m log (require why o)
  unfolding require
  Leaves-require why o = record { at = λ w. refl }

  Leaves-delete_lines :
      (predicate : Text → Bool) (lines : List Text)
      → Leaves m log (delete_lines m (words "ip nat ts-postrouting") predicate lines)
  unfolding delete_lines
  Leaves-delete_lines predicate [] = Leaves-pure m log tt
  Leaves-delete_lines predicate (line ∷ lines) =
      let rest = Leaves-delete_lines predicate lines in
      elim (predicate line)
        as (λ b. Leaves m log (elim b [
          | false ↦ delete_lines m (words "ip nat ts-postrouting") predicate lines
          | true ↦ do
            nft_handle ← require bad_key (last_word (split_words (strip line)))
            delete_numbered m (words "ip nat ts-postrouting") nft_handle
            delete_lines m (words "ip nat ts-postrouting") predicate lines
        ])) [
          | false ↦ rest
          | true ↦
              Leaves-bind m log (require bad_key (last_word (split_words (strip line)))) _
                (Leaves-require bad_key (last_word (split_words (strip line))))
                (λ nft_handle. Leaves-then m log (Leaves-delete_numbered nft_handle) rest)
        ]

  Leaves-delete_matching :
      (predicate : Text → Bool) (result : Completed)
      → Leaves m log (delete_matching m (words "ip nat ts-postrouting") predicate result)
  Leaves-delete_matching predicate result =
      elim (result.returncode == 0)
        as (λ b. Leaves m log (
          if b
          then delete_lines m (words "ip nat ts-postrouting") predicate (split_lines result.stdout)
          else pure tt)) [
            | true ↦ Leaves-delete_lines predicate (split_lines result.stdout)
            | false ↦ Leaves-pure m log tt
          ]

  Leaves-strip : Leaves m log (strip_tailscale_postrouting_masquerade m)
  unfolding strip_tailscale_postrouting_masquerade nft_delete_matching split_words addition
  Leaves-strip =
      Leaves-bind m log
        (m.processes.run (words "nft -a list chain" ++ words "ip nat ts-postrouting"))
        (delete_matching m (words "ip nat ts-postrouting") (contains_text (codes "masquerade")))
        (Leaves-run m log (words "nft -a list chain" ++ words "ip nat ts-postrouting") refl)
        (Leaves-delete_matching (contains_text (codes "masquerade")))

  Leaves-unless :
      (b : Bool) (act : Exec W (Unit {0})) → Leaves m log act → Leaves m log (unless m b act)
  Leaves-unless true act l = Leaves-pure m log tt
  Leaves-unless false act l = l

  nft : (command : List Text) → is_apart command ≡ true → Leaves m log (run_optional m command)
  nft = Leaves-run_optional m log

  Leaves-add_dns_snat : Leaves m log (add_dns_snat m)
  unfolding add_dns_snat split_words addition
  Leaves-add_dns_snat = Leaves-then m log (nft (words "nft add table ip gw_nat") refl) (
      Leaves-bind m log
        (succeeds_with m (words "nft list chain ip gw_nat postrouting") (λ stdout. true)) _
        (Leaves-succeeds_with m log (words "nft list chain ip gw_nat postrouting") (λ stdout. true)
          refl)
        (λ listed.
          Leaves-then m log (Leaves-unless listed (run_optional m nat_chain) (nft nat_chain refl)) (
            Leaves-then m log (nft (dns_masquerade (codes "udp")) refl)
              (nft (dns_masquerade (codes "tcp")) refl))))

  Leaves-eth0_dns_snat : Leaves m log (ensure_eth0_dns_snat m)
  unfolding ensure_eth0_dns_snat split_words addition
  Leaves-eth0_dns_snat =
      Leaves-bind m log
        (succeeds_with m (words "nft list chain ip gw_nat postrouting") (contains_text snat_marker))
        _
        (Leaves-succeeds_with m log (words "nft list chain ip gw_nat postrouting")
          (contains_text snat_marker) refl)
        (λ present. Leaves-unless present (add_dns_snat m) Leaves-add_dns_snat)

  Leaves-add_forwarding : Leaves m log (add_forwarding m)
  unfolding add_forwarding split_words addition
  Leaves-add_forwarding =
      Leaves-then m log
        (nft (words "nft add rule ip deeporc_exit forward iifname tailscale0 oifname wg0 accept")
          refl)
        (nft (words "nft add rule ip deeporc_exit forward iifname wg0 oifname tailscale0 accept")
          refl)

  Leaves-add_exit_tables : Leaves m log (add_exit_tables m)
  unfolding add_exit_tables split_words addition
  Leaves-add_exit_tables = Leaves-then m log (nft (words "nft add table ip gw_nat") refl) (
      Leaves-then m log (nft nat_chain refl) (
        Leaves-then m log (nft uplink_masquerade refl) (
          Leaves-then m log (nft (dns_masquerade (codes "udp")) refl) (
            Leaves-then m log (nft (dns_masquerade (codes "tcp")) refl) (
              Leaves-then m log (nft (words "nft add table ip deeporc_exit") refl) (
                Leaves-then m log (nft forward_table_chain refl) (
                  Leaves-bind m log
                    (succeeds_with m (words "nft -a list chain ip deeporc_exit forward")
                      (contains_text (codes "tailscale0")))
                    _
                    (Leaves-succeeds_with m log (words "nft -a list chain ip deeporc_exit forward")
                      (contains_text (codes "tailscale0")) refl)
                    (λ present.
                      Leaves-unless present (add_forwarding m) Leaves-add_forwarding))))))))

  Leaves-load_or_add : (present : Bool) → Leaves m log (load_or_add m present)
  unfolding split_words addition
  Leaves-load_or_add true =
      Leaves-then m log (Leaves-run_command m log (words "nft -f" ++ gateway_nft ∷ []) refl)
        Leaves-eth0_dns_snat
  Leaves-load_or_add false = Leaves-add_exit_tables

  pub Leaves-exit_via_wg_backhaul : Leaves m log (ensure_exit_via_wg_backhaul m)
  unfolding ensure_exit_via_wg_backhaul split_words addition
  Leaves-exit_via_wg_backhaul = Leaves-then m log Leaves-strip (
      Leaves-then m log (nft (words "nft delete table ip gw_nat") refl) (
        Leaves-then m log (nft (words "nft delete table ip deeporc_exit") refl) (
          Leaves-bind m log (gets (m.is_file gateway_nft)) (load_or_add m)
            (Leaves-gets m log (m.is_file gateway_nft)) Leaves-load_or_add)))
