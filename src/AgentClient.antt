-- ===== src/AgentClient.antt =====
-- orchestrator/services/gateway_agent_client.py: requests to a gateway's agent that are made inside
-- its virtual machine, by a script for the shell.
pub mod Shell
pub mod Quoting
use deep_orc.Prelude.{
  if◌then◌else◌, ◌==◌, nat_eq, Text, codes, text_eq, is_empty, strip, not, Option, none, some, [],
  ◌∷◌, ◌++◌,
}
use deep_orc.Models.{bad_json, value_error, agent_error}
use deep_orc.Effects.{Result, ok, err, Exec, lift_result, ◌>>=◌, ◌>>◌}
use deep_orc.Agent.{Completed, Processes}
use deep_orc.Database.{
  gateway_keyed, job_keyed, peer_keyed, group_keyed, worker_keyed, enrollment_keyed,
  registration_keyed,
}
use deep_orc.Headscale.Values.{Json}
use deep_orc.Agent.RuleLog.{words_eq}

-- `text.replace("'", "'\\''")`: the quote is closed, an escaped one added, and it is opened again.
unfoldable pub escape_quotes : Text → Text
escape_quotes [] = []
escape_quotes (c ∷ s) =
    let rest = escape_quotes s in if c == 39 then 39 ∷ 92 ∷ 39 ∷ 39 ∷ rest else c ∷ rest

-- the escaped text between quotes, and what follows
unfoldable pub quoted : Text → Text → Text
quoted s rest = 39 ∷ (escape_quotes s ++ (39 ∷ rest))

abbrev pub auth_header : Text → Text
auth_header token = codes "Authorization: Bearer " ++ token

abbrev pub payload_of : Option Text → Text
payload_of none = []
payload_of (some json) = json

unfoldable pub get_command : Text → Text → Text
unfolding quoted
get_command token url =
    codes "wget -qO- -T 30 --header=" ++ quoted (auth_header token) (32 ∷ quoted url [])

unfoldable pub post_command : Text → Text → Option Text → Text
unfolding quoted
post_command token url body =
    codes "wget -qO- -T 30 --header="
    ++ quoted (auth_header token) (
        codes " --header="
        ++ quoted (codes "Content-Type: application/json")
            (codes " --post-data=" ++ quoted (payload_of body) (32 ∷ quoted url [])))

abbrev pub curl_payload : Option Text → Text → Text
curl_payload none rest = rest
curl_payload (some json) rest =
    codes "-H "
    ++ quoted (codes "Content-Type: application/json") (codes " -d " ++ quoted json (32 ∷ rest))

unfoldable pub curl_command : Text → Text → Text → Option Text → Text
unfolding quoted
curl_command method token url body =
    codes "curl -sf -X "
    ++ (method
        ++ (codes " -H " ++ quoted (auth_header token) (32 ∷ curl_payload body (quoted url []))))

unfoldable pub incus_http_script : Text → Text → Text → Option Text → Text
unfolding get_command post_command curl_command
incus_http_script token method url body =
    if method == codes "GET"
    then get_command token url
    else if method == codes "POST"
    then post_command token url body
    else codes "if command -v curl >/dev/null 2>&1; then "
      ++ (curl_command method token url body ++ codes "; else exit 127; fi")

-- `params` is the query as `urlencode` gives it.
abbrev pub with_query : Text → Option Text → Text
with_query url none = url
with_query url (some params) = url ++ b'?' ∷ params

abbrev pub answer_of : (Text → Option Json) → Completed → Result (Option Json)
answer_of loads result =
    if not (result.returncode == 0)
    then err agent_error
    else if is_empty (strip result.stdout)
    then ok none
    else elim (loads result.stdout) [ none ↦ err (value_error bad_json) | some v ↦ ok (some v) ]

module _ {W : Type 0} (processes : Processes W) (loads : Text → Option Json) where
  -- `{}` is `none`; `port` is a text.
  unfoldable pub request_via_incus :
      Text → Text → Text → Text → Text → Option Text → Option Text → Exec W (Option Json)
  unfolding incus_http_script ◌>>=◌
  request_via_incus instance_name token port method path params body = do
    result ← processes.run (
        codes "incus"
        ∷ codes "exec"
        ∷ instance_name
        ∷ codes "--"
        ∷ codes "sh"
        ∷ codes "-c"
        ∷ incus_http_script token method
            (with_query (codes "http://127.0.0.1:" ++ port ++ path) params) body
        ∷ [])
    lift_result (answer_of loads result)
