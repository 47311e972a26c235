-- ===== src/Tests/Naming.antt =====
-- Names.
use deep_orc.Prelude.{nat_eq, Text, codes, text_eq, ◌≡◌, ◌↔◌, false, some, [], ◌∷◌, map, arith}
use deep_orc.Naming.{
  Unicode, gateway_prefix, next_sequential_name, lower_ascii, normalize_tailscale_display_name,
  valid, validate_tailscale_display_name,
}
use deep_orc.Naming.Sequential.{IsNextName, next_sequential_name_first}
use deep_orc.Naming.Display.{IsLabel}
use deep_orc.Naming.Display.Laws.{
  LowerLaws, lower_ascii_newline, lower_ascii_no_upper, validate_tailscale_display_name-valid_iff,
}
use deep_orc.Database.{
  gateway_keyed, job_keyed, peer_keyed, group_keyed, worker_keyed, enrollment_keyed,
  registration_keyed,
}
use deep_orc.Agent.RuleLog.{words_eq}

abbrev ascii : Unicode
ascii = record { decimal_digit = λ c. false; lower_text = λ s. map lower_ascii s }

ascii-LowerLaws : LowerLaws ascii
ascii-LowerLaws = record { no_upper = lower_ascii_no_upper; last_newline = lower_ascii_newline }

next_sequential_name_first_example :
    (name : Text) × (next_sequential_name gateway_prefix (codes "gw-000" ∷ []) 3 ≡ some name)
    × IsNextName gateway_prefix (codes "gw-000" ∷ []) 3 name
next_sequential_name_first_example =
    next_sequential_name_first gateway_prefix (codes "gw-000" ∷ []) 2 (omega arith)

validate_tailscale_display_name-valid_iff_example :
    (validate_tailscale_display_name ascii (codes " Paris-1 ") ≡ valid (codes "paris-1")) ↔ (
      (codes "paris-1" ≡ normalize_tailscale_display_name ascii (codes " Paris-1 "))
      × IsLabel (codes "paris-1"))
validate_tailscale_display_name-valid_iff_example =
    validate_tailscale_display_name-valid_iff ascii ascii-LowerLaws (codes " Paris-1 ")
      (codes "paris-1")
