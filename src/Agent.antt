-- ===== src/Agent.antt =====
-- gateway_agent/nft_handler.py: the rules of nftables that suspend a peer. `subprocess.run` is
-- outside; a RuntimeError is `agent_error`.
pub mod Resume
pub mod Reading
pub mod Routing
pub mod Firewall
pub mod Exit
pub mod RuleLog
pub mod Policy
pub mod Restored
use deep_orc.Prelude.{
  if◌then◌else◌, ◌==◌, nat_eq, Text, codes, text_eq, strip, contains_text, split_words, split_lines,
  last_word, ℕ, Bool, true, false, ◌&&◌, List, [], ◌∷◌, ◌++◌,
}
use deep_orc.Models.{bad_key, Failure, agent_error}
use deep_orc.Tables.{delete}
use deep_orc.Effects.{
  Result, ok, err, Exec, pure, raise, lift_result, require, ◌>>=◌, ◌>>◌, handle, try_except,
}

pub record Completed : Type 0 where
  pub returncode : ℕ
  pub stdout : Text

pub record Processes (W : Type 0) : Type 0 where
  pub run : List Text → Exec W Completed

abbrev pub forward_chain : List Text
forward_chain =
    codes "forward"
    ∷ codes "{"
    ∷ codes "type"
    ∷ codes "filter"
    ∷ codes "hook"
    ∷ codes "forward"
    ∷ codes "priority"
    ∷ codes "filter"
    ∷ codes ";"
    ∷ codes "policy"
    ∷ codes "accept"
    ∷ codes ";"
    ∷ codes "}"
    ∷ []

abbrev pub drop_rule : Text → Text
drop_rule peer_ip = codes "ip daddr " ++ peer_ip ++ codes " drop"

unfoldable pub is_drop_of : Text → Text → Bool
is_drop_of peer_ip line = contains_text peer_ip line && contains_text (codes "drop") line

abbrev pub finished : Completed → Result (Unit {0})
finished result = if result.returncode == 0 then ok tt else err agent_error

-- `except RuntimeError: pass`
abbrev pub pass_runtime : {W : Type 0} → Failure → Exec W (Unit {0})
pass_runtime agent_error = pure tt
pass_runtime e = raise e

-- `table` is the setting `nft_suspend_table`.
module _ {W : Type 0} (processes : Processes W) (table : Text) where
  unfoldable pub run_nft : List Text → Exec W (Unit {0})
  run_nft args = do result ← processes.run (codes "nft" ∷ args); lift_result (finished result)

  unfoldable pub ensure_suspend_table : Exec W (Unit {0})
  unfolding run_nft
  ensure_suspend_table = do
    run_nft (codes "add" ∷ codes "table" ∷ split_words table)
    run_nft (codes "add" ∷ codes "chain" ∷ (split_words table ++ forward_chain))

  unfoldable pub suspend_peer_ip : Text → Exec W (Unit {0})
  unfolding ensure_suspend_table
  suspend_peer_ip peer_ip = do
    ensure_suspend_table
    try_except
        (run_nft (
          codes "add"
          ∷ codes "rule"
          ∷ (split_words table ++ codes "forward" ∷ drop_rule peer_ip ∷ [])))
        pure pass_runtime

  abbrev pub delete_handle : Text → List Text
  delete_handle handle =
      codes "delete"
      ∷ codes "rule"
      ∷ (split_words table ++ codes "forward" ∷ codes "handle" ∷ handle ∷ [])

  unfoldable pub delete_rules : Text → List Text → Exec W (Unit {0})
  unfolding run_nft
  delete_rules peer_ip [] = pure tt
  delete_rules peer_ip (line ∷ lines) = elim (is_drop_of peer_ip line) [
    | false ↦ delete_rules peer_ip lines
    | true ↦ do
      nft_handle ← require bad_key (last_word (split_words (strip line)))
      run_nft (delete_handle nft_handle)
      delete_rules peer_ip lines
  ]

  abbrev pub list_chain : List Text
  list_chain =
      codes "nft"
      ∷ codes "-a"
      ∷ codes "list"
      ∷ codes "chain"
      ∷ (split_words table ++ codes "forward" ∷ [])

  abbrev pub delete_listed : Text → Completed → Exec W (Unit {0})
  delete_listed peer_ip result =
      if result.returncode == 0 then delete_rules peer_ip (split_lines result.stdout) else pure tt

  unfoldable pub resume_peer_ip : Text → Exec W (Unit {0})
  unfolding delete_rules
  resume_peer_ip peer_ip = do result ← processes.run list_chain; delete_listed peer_ip result
