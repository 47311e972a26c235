-- ===== src/Headscale/Joining.antt =====
-- The registration of nodes: the keys that are accepted, and their approval.
use deep_orc.Prelude.{
  ltb, if◌then◌else◌, ◌==◌, nat_eq, length, Text, codes, text_eq, is_empty, strip, starts_with,
  decimal, ℕ, Bool, true, false, ◌&&◌, ◌||◌, Option, none, some, List, [], ◌∷◌,
}
use deep_orc.Models.{bad_json, Failure, value_error, headscale_error}
use deep_orc.Effects.{Result, ok, err, Exec, pure, raise, lift_result, ◌>>=◌, ◌>>◌, try_except}
use deep_orc.Database.{
  gateway_keyed, job_keyed, peer_keyed, group_keyed, worker_keyed, enrollment_keyed,
  registration_keyed,
}
use deep_orc.Headscale.Values.{Json, Members, as_object}
use deep_orc.Headscale.{Host, HeadscaleSettings, run_headscale, loads_json}
use deep_orc.Headscale.Nodes.{RegisteredNode, node_id_of, node_ipv4, name_of}
use deep_orc.Headscale.Client.{assign_exit_node_name}

abbrev pub registration_key_length : ℕ
registration_key_length = 24

abbrev pub registration_key_max_length : ℕ
registration_key_max_length = 128

abbrev pub auth_id_prefix : Text
auth_id_prefix = codes "hskey-authreq-"

unfoldable pub normalize_registration_key : Text → Text
normalize_registration_key key = strip key

unfoldable pub is_valid_registration_key : Text → Bool
unfolding normalize_registration_key
is_valid_registration_key key =
    let normalized = normalize_registration_key key in
    if is_empty normalized || ltb registration_key_max_length (length normalized)
    then false
    else if length normalized == registration_key_length
    then true
    else starts_with auth_id_prefix normalized && ltb (length auth_id_prefix) (length normalized)

module _ {W : Type 0} (host : Host W) (config : HeadscaleSettings) where
  abbrev pub node_or_raise : Members → Json → Option Text → Result RegisteredNode
  node_or_raise members value none = err headscale_error
  node_or_raise members value (some ip) =
      if is_empty ip then err headscale_error else elim (host.int_of value) [
        | none ↦ err (value_error bad_json)
        | some id ↦ ok (record {
          node_id = id;
          hostname =
              if is_empty (name_of host members) then host.str_of value else name_of host members;
          tailscale_ip = ip;
        })
      ]

  unfoldable pub parse_registered_node : Members → Result RegisteredNode
  parse_registered_node members = elim (node_id_of members) [
    | none ↦ err headscale_error
    | some value ↦ node_or_raise members value (node_ipv4 host members)
  ]

  abbrev pub auth_register : Text → List Text
  auth_register key =
      codes "auth"
      ∷ codes "register"
      ∷ codes "--auth-id"
      ∷ key
      ∷ codes "--user"
      ∷ config.headscale_user
      ∷ codes "-o"
      ∷ codes "json"
      ∷ []

  abbrev pub nodes_register : Text → List Text
  nodes_register key =
      codes "nodes"
      ∷ codes "register"
      ∷ codes "-u"
      ∷ config.headscale_user
      ∷ codes "-k"
      ∷ key
      ∷ codes "-o"
      ∷ codes "json"
      ∷ []

  unfoldable pub run_json : List Text → Exec W Json
  unfolding run_headscale
  run_json args = do
    output ← run_headscale host config args
    lift_result (loads_json host config output)

  -- Only a `HeadscaleError` falls back on the older command.
  abbrev pub fall_back : Text → Failure → Exec W Json
  fall_back key headscale_error = run_json (nodes_register key)
  fall_back key e = raise e

  unfoldable pub register_node_with_headscale : Text → Exec W Json
  unfolding run_json try_except
  register_node_with_headscale key = try_except (run_json (auth_register key)) pure (fall_back key)

  -- The name is assigned with nothing reserved.
  unfoldable pub approve_valid : Text → Exec W RegisteredNode
  unfolding register_node_with_headscale assign_exit_node_name
  approve_valid key = do
    value ← register_node_with_headscale key
    members ← lift_result (as_object value)
    node ← lift_result (parse_registered_node members)
    run_headscale host config (
        codes "nodes"
        ∷ codes "approve-routes"
        ∷ codes "-i"
        ∷ decimal node.node_id
        ∷ codes "-r"
        ∷ []
        ∷ [])
    assigned_name ← assign_exit_node_name host config node.node_id []
    pure (record node { hostname = assigned_name })

  unfoldable pub approve_registration_request : Text → Exec W RegisteredNode
  unfolding approve_valid
  approve_registration_request registration_key =
      let key = normalize_registration_key registration_key in
      if is_valid_registration_key key then approve_valid key else raise headscale_error
