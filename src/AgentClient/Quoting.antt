-- ===== src/AgentClient/Quoting.antt =====
-- The shell reads from the scripts just the arguments that they are made of.
use deep_orc.Prelude.{
  Bool-cases, ◌==◌, nat_eq, all, Text, codes, text_eq, ℕ, ◌≡◌, refl, sym, ap, ◌∙◌, inl, inr, true,
  Option, none, some, List, [], ◌∷◌, ◌++◌, append-nil, append_assoc, arith,
}
use deep_orc.Database.{
  gateway_keyed, job_keyed, peer_keyed, group_keyed, worker_keyed, enrollment_keyed,
  registration_keyed,
}
use deep_orc.Agent.RuleLog.{words_eq}
use deep_orc.AgentClient.{
  escape_quotes, quoted, auth_header, payload_of, get_command, post_command, curl_payload,
  curl_command, incus_http_script,
}
use deep_orc.AgentClient.Shell.{
  Mode, between, within, in_quotes, escaped, go, is_plain, shift, put_first, read_words,
  shell_words,
}

read_go :
    (mode next : Mode) (word more s : Text) (c : ℕ)
    → shift mode word c ≡ go next more
    → read_words mode word (c ∷ s) ≡ read_words next more s
unfolding read_words
read_go mode next word more s c h = rw (h, read_words) refl

quoted-read :
    (s word rest : Text)
    → read_words in_quotes word (escape_quotes s ++ (39 ∷ rest))
      ≡ read_words within (word ++ s) rest
unfolding escape_quotes
quoted-read [] word rest =
    read_go in_quotes within word word rest 39 refl
    ∙ ap (λ w. read_words within w rest) (sym (append-nil word))
quoted-read (c ∷ s) word rest =
    let longer =
      quoted-read s (word ++ c ∷ []) rest
      ∙ ap (λ w. read_words within w rest) (append_assoc word (c ∷ []) s) in
    elim (Bool-cases (c == 39)) [
      | inr plain ↦
          let step : shift in_quotes word c ≡ go in_quotes (word ++ c ∷ []) = rw plain refl in
          rw plain (
            read_go in_quotes in_quotes word (word ++ c ∷ []) (escape_quotes s ++ (39 ∷ rest)) c
              step
            ∙ longer)
      | inl quote ↦
          let is_quote : c ≡ 39 = (nat_eq.beq_iff c 39).0 quote in
          rw quote (
            read_go in_quotes within word word (92 ∷ 39 ∷ 39 ∷ (escape_quotes s ++ (39 ∷ rest))) 39
              refl
            ∙ read_go within escaped word word (39 ∷ 39 ∷ (escape_quotes s ++ (39 ∷ rest))) 92 refl
            ∙ read_go escaped within word (word ++ 39 ∷ []) (39 ∷ (escape_quotes s ++ (39 ∷ rest)))
                39 refl
            ∙ read_go within in_quotes (word ++ 39 ∷ []) (word ++ 39 ∷ [])
                (escape_quotes s ++ (39 ∷ rest)) 39 refl
            ∙ ap (λ d. read_words in_quotes (word ++ d ∷ []) (escape_quotes s ++ (39 ∷ rest)))
                (sym is_quote)
            ∙ longer)
    ]

abbrev pub get_arguments : Text → Text → List Text
get_arguments token url =
    codes "wget"
    ∷ codes "-qO-"
    ∷ codes "-T"
    ∷ codes "30"
    ∷ (codes "--header=" ++ auth_header token)
    ∷ url
    ∷ []

abbrev pub post_arguments : Text → Text → Option Text → List Text
post_arguments token url body =
    codes "wget"
    ∷ codes "-qO-"
    ∷ codes "-T"
    ∷ codes "30"
    ∷ (codes "--header=" ++ auth_header token)
    ∷ codes "--header=Content-Type: application/json"
    ∷ (codes "--post-data=" ++ payload_of body)
    ∷ url
    ∷ []

abbrev pub payload_arguments : Option Text → List Text
payload_arguments none = []
payload_arguments (some json) =
    codes "-H" ∷ codes "Content-Type: application/json" ∷ codes "-d" ∷ json ∷ []

abbrev pub curl_arguments : Text → Text → Text → Option Text → List Text
curl_arguments method token url body =
    codes "curl"
    ∷ codes "-sf"
    ∷ codes "-X"
    ∷ method
    ∷ codes "-H"
    ∷ auth_header token
    ∷ (payload_arguments body ++ url ∷ [])

get_command-read :
    (token url : Text) → shell_words (get_command token url) ≡ some (get_arguments token url)
unfolding get_command shell_words read_words
get_command-read token url =
    rw
      (
        quoted-read (auth_header token) (codes "--header=") (32 ∷ quoted url []),
        quoted-read url [] [],
      )
      refl

post_command-read :
    (token url : Text) (body : Option Text)
    → shell_words (post_command token url body) ≡ some (post_arguments token url body)
unfolding post_command shell_words read_words escape_quotes
post_command-read token url body =
    rw
      (
        quoted-read (auth_header token) (codes "--header=") (
            codes " --header="
            ++ quoted (codes "Content-Type: application/json")
                (codes " --post-data=" ++ quoted (payload_of body) (32 ∷ quoted url []))),
        quoted-read (payload_of body) (codes "--post-data=") (32 ∷ quoted url []),
        quoted-read url [] [],
      )
      refl

plain_step :
    (c : ℕ) (word : Text) → is_plain c ≡ true → shift within word c ≡ go within (word ++ c ∷ [])
plain_step c word h = ground arith

plain_start : (c : ℕ) → is_plain c ≡ true → shift between [] c ≡ go within (c ∷ [])
plain_start c h = ground arith

plain-read :
    (s word rest : Text)
    → all is_plain s ≡ true
    → read_words within word (s ++ rest) ≡ read_words within (word ++ s) rest
plain-read [] word rest h = ap (λ w. read_words within w rest) (sym (append-nil word))
plain-read (c ∷ s) word rest h =
    read_go within within word (word ++ c ∷ []) (s ++ rest) c (plain_step c word (ground arith))
    ∙ plain-read s (word ++ c ∷ []) rest (ground arith)
    ∙ ap (λ w. read_words within w rest) (append_assoc word (c ∷ []) s)

-- What follows the method.
curl_rest : Text → Text → Option Text → Text
curl_rest token url body =
    codes " -H " ++ quoted (auth_header token) (32 ∷ curl_payload body (quoted url []))

curl_rest-read :
    (word token url : Text) (body : Option Text)
    → read_words within word (curl_rest token url body)
      ≡ some (word ∷ codes "-H" ∷ auth_header token ∷ (payload_arguments body ++ url ∷ []))
unfolding curl_rest read_words quoted escape_quotes
curl_rest-read word token url none =
    rw (quoted-read (auth_header token) [] (32 ∷ quoted url []), quoted-read url [] []) refl
curl_rest-read word token url (some json) =
    rw
      (
        quoted-read (auth_header token) [] (32 ∷ curl_payload (some json) (quoted url [])),
        quoted-read json [] (32 ∷ quoted url []),
        quoted-read url [] [],
      )
      refl

method-read :
    (c : ℕ) (s rest : Text)
    → all is_plain (c ∷ s) ≡ true
    → read_words between [] ((c ∷ s) ++ rest) ≡ read_words within (c ∷ s) rest
method-read c s rest h =
    read_go between within [] (c ∷ []) (s ++ rest) c (plain_start c (ground arith))
    ∙ plain-read s (c ∷ []) rest (ground arith)

curl_command-read :
    (c : ℕ) (method token url : Text) (body : Option Text)
    → all is_plain (c ∷ method) ≡ true
    → shell_words (curl_command (c ∷ method) token url body)
      ≡ some (curl_arguments (c ∷ method) token url body)
unfolding curl_command shell_words read_words curl_rest
curl_command-read c method token url body h =
    ap (λ r. put_first (codes "curl") (put_first (codes "-sf") (put_first (codes "-X") r)))
      (method-read c method (curl_rest token url body) h
        ∙ curl_rest-read (c ∷ method) token url body)

-- Whatever characters the token, the address and the payload have, the shell reads from
-- the scripts for GET and POST, and from the command for any other method that is made of plain
-- characters, just the arguments meant: the header with the token, the payload as it was, and the
-- address last.
pub incus_http_script-arguments :
    (token url : Text) (body : Option Text) (c : ℕ) (method : Text)
    → all is_plain (c ∷ method) ≡ true
    → (shell_words (incus_http_script token (codes "GET") url body)
        ≡ some (get_arguments token url))
      × (shell_words (incus_http_script token (codes "POST") url body)
          ≡ some (post_arguments token url body))
      × (shell_words (curl_command (c ∷ method) token url body)
          ≡ some (curl_arguments (c ∷ method) token url body))
unfolding incus_http_script
incus_http_script-arguments token url body c method h = (
  get_command-read token url,
  post_command-read token url body,
  curl_command-read c method token url body h,
)
