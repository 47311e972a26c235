-- ===== src/Headscale/Keys.antt =====
-- Users and preauth keys.
use deep_orc.Prelude.{
  if◌then◌else◌, nat_eq, Text, codes, text_eq, decimal, ℕ, Bool, true, false, Option, none, some,
  List, [], ◌∷◌, ◌++◌,
}
use deep_orc.Models.{bad_json, value_error, headscale_error}
use deep_orc.Effects.{Result, ok, err, Exec, pure, lift_result, ◌>>=◌, ◌>>◌}
use deep_orc.Database.{
  gateway_keyed, job_keyed, peer_keyed, group_keyed, worker_keyed, enrollment_keyed,
  registration_keyed,
}
use deep_orc.Headscale.Values.{
  Json, object, Members, get_member, truthy, equals_text, iterate, as_object,
}
use deep_orc.Headscale.{Host, HeadscaleSettings, run_headscale, loads_json}

pub record PreAuthKey : Type 0 where
  pub key : Json
  pub user_id : ℕ

-- `value` if it is there and true
abbrev pub if_truthy : Option Json → Option Json
if_truthy none = none
if_truthy (some value) = if truthy value then some value else none

-- `data.get("preAuthKey", {}).get("key")`
abbrev pub inner_key : Option Json → Result (Option Json)
inner_key none = ok none
inner_key (some (object m)) = ok (if_truthy (get_member (codes "key") m))
inner_key (some _) = err (value_error bad_json)

abbrev pub key_or_inner : Option Json → Members → Result (Option Json)
key_or_inner none data_members = inner_key (get_member (codes "preAuthKey") data_members)
key_or_inner (some value) data_members = ok (some value)

abbrev pub preauth_key_in : Members → Result (Option Json)
preauth_key_in members = key_or_inner (if_truthy (get_member (codes "key") members)) members

abbrev pub key_or_raise : ℕ → Option Json → Result PreAuthKey
key_or_raise user_id none = err headscale_error
key_or_raise user_id (some key) = ok (record { key = key; user_id = user_id })

abbrev pub is_named : Text → Option Json → Bool
is_named name none = false
is_named name (some value) = equals_text name value

module _ {W : Type 0} (host : Host W) (config : HeadscaleSettings) where
  -- `int(user["id"])`
  abbrev pub user_id_in : Option Json → Result (Option ℕ)
  user_id_in none = err (value_error bad_json)
  user_id_in (some value) = elim (host.int_of value) [
    | none ↦ err (value_error bad_json)
    | some id ↦ ok (some id)
  ]

  -- The id of the first user of the name, each in turn.
  unfoldable pub find_user : Text → List Json → Result (Option ℕ)
  find_user name [] = ok none
  find_user name (user ∷ users) = elim (as_object user) [
    | err e ↦ err e
    | ok m ↦ elim (is_named name (get_member (codes "name") m)) [
      | false ↦ find_user name users
      | true ↦ user_id_in (get_member (codes "id") m)
    ]
  ]

  unfoldable pub list_users : Exec W (List Json)
  unfolding run_headscale ◌>>=◌
  list_users = do
    output ←
        run_headscale host config (codes "users" ∷ codes "list" ∷ codes "-o" ∷ codes "json" ∷ [])
    users ← lift_result (loads_json host config output)
    lift_result (iterate users)

  abbrev pub id_or_missing : Option ℕ → Result ℕ
  id_or_missing none = err headscale_error
  id_or_missing (some id) = ok id

  -- `username or settings.headscale_user` is the name here.
  unfoldable pub get_user_id : Text → Exec W ℕ
  unfolding list_users
  get_user_id name = do
    users ← list_users
    found ← lift_result (find_user name users)
    lift_result (id_or_missing found)

  abbrev pub id_or_create : Text → Option ℕ → Exec W ℕ
  id_or_create name none =
      run_headscale host config (codes "users" ∷ codes "create" ∷ name ∷ []) >> get_user_id name
  id_or_create name (some id) = pure id

  unfoldable pub ensure_headscale_user : Text → Exec W ℕ
  unfolding list_users get_user_id
  ensure_headscale_user name = do
    users ← list_users
    found ← lift_result (find_user name users)
    id_or_create name found

  -- `preauthkeys create` for a user, with its options.
  unfoldable pub create_preauth_key : ℕ → List Text → List Text → Exec W PreAuthKey
  unfolding run_headscale
  create_preauth_key user_id before_expiry after_expiry = do
    output ← run_headscale host config (
        codes "preauthkeys"
        ∷ codes "create"
        ∷ codes "-u"
        ∷ decimal user_id
        ∷ (before_expiry
            ++ (codes "-e"
                ∷ config.headscale_preauth_expiration
                ∷ (after_expiry ++ (codes "-o" ∷ codes "json" ∷ [])))))
    value ← lift_result (loads_json host config output)
    members ← lift_result (as_object value)
    key ← lift_result (preauth_key_in members)
    lift_result (key_or_raise user_id key)

  unfoldable pub create_gateway_preauth_key : Exec W PreAuthKey
  unfolding get_user_id create_preauth_key
  create_gateway_preauth_key = do
    user_id ← get_user_id config.headscale_user
    create_preauth_key user_id [] (codes "--tags" ∷ config.headscale_exit_node_tag ∷ [])

  unfoldable pub create_exit_node_preauth_key : Exec W PreAuthKey
  unfolding ensure_headscale_user create_preauth_key
  create_exit_node_preauth_key = do
    user_id ← ensure_headscale_user config.headscale_mobile_user
    create_preauth_key user_id (codes "--reusable" ∷ []) []

  unfoldable pub create_worker_preauth_key : Exec W PreAuthKey
  unfolding ensure_headscale_user create_preauth_key
  create_worker_preauth_key = do
    user_id ← ensure_headscale_user config.headscale_worker_user
    create_preauth_key user_id (codes "--reusable" ∷ [])
        (codes "--tags" ∷ config.headscale_worker_tag ∷ [])

  abbrev pub exit_node_registration_command : Text → Text
  exit_node_registration_command auth_key =
      codes "tailscale up --login-server="
      ++ (config.headscale_url ++ (codes " --authkey=" ++ auth_key))
