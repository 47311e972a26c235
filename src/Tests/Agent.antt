-- ===== src/Tests/Agent.antt =====
-- A peer that is resumed while another one's address begins with its own.
use deep_orc.Prelude.{
  nat_eq, Text, codes, text_eq, strip, contains_text, split_words, split_lines, ◌≡◌, refl, none,
  some, List, [], ◌∷◌, ◌++◌,
}
use deep_orc.Effects.{ok, ◌>>◌}
use deep_orc.Agent.{
  Processes, is_drop_of, run_nft, delete_handle, delete_rules, list_chain, resume_peer_ip,
}
use deep_orc.Agent.Resume.{resume_peer_ip-longer}
use deep_orc.Database.{
  gateway_keyed, job_keyed, peer_keyed, group_keyed, worker_keyed, enrollment_keyed,
  registration_keyed,
}
use deep_orc.Agent.RuleLog.{words_eq}
use deep_orc.AgentClient.{curl_command, incus_http_script}
use deep_orc.AgentClient.Shell.{shell_words}
use deep_orc.AgentClient.Quoting.{
  get_arguments, post_arguments, curl_arguments, incus_http_script-arguments,
}

-- A log of the commands, each of which succeeds and prints a listing of one rule.
abbrev listing : Text
listing =
    codes "table inet wg_suspend {"
    ++ 10 ∷ codes "ip daddr 10.0.0.12 drop # handle 7"
    ++ 10 ∷ codes "}"

abbrev logged : Processes (List (List Text))
logged = record {
  run = λ command log. (ok (record { returncode = 0; stdout = listing }), log ++ command ∷ []);
}

abbrev suspend_table : Text
suspend_table = codes "inet wg_suspend"

resume_peer_ip-longer_example :
    resume_peer_ip logged suspend_table (codes "10.0.0.1") []
    ≡ (run_nft logged suspend_table (delete_handle logged suspend_table (codes "7"))
          >> delete_rules logged suspend_table (codes "10.0.0.1") (codes "}" ∷ []))
        (list_chain logged suspend_table ∷ [])
unfolding split_lines is_drop_of contains_text split_words strip
resume_peer_ip-longer_example =
    resume_peer_ip-longer logged suspend_table (codes "10.0.0.1") (codes "ip daddr ")
      (codes "2 drop # handle 7") (codes "7") listing (codes "table inet wg_suspend {" ∷ [])
      (codes "}" ∷ []) [] (list_chain logged suspend_table ∷ []) refl refl refl refl refl

-- A token with a quote and a separator in it.
abbrev hostile : Text
hostile = codes "a'; reboot '"

incus_http_script-arguments_example :
    (shell_words (incus_http_script hostile (codes "GET") (codes "u") none)
      ≡ some (get_arguments hostile (codes "u")))
    × (shell_words (incus_http_script hostile (codes "POST") (codes "u") none)
        ≡ some (post_arguments hostile (codes "u") none))
    × (shell_words (curl_command (codes "DELETE") hostile (codes "u") none)
        ≡ some (curl_arguments (codes "DELETE") hostile (codes "u") none))
incus_http_script-arguments_example =
    incus_http_script-arguments hostile (codes "u") none b'D' (codes "ELETE") refl
