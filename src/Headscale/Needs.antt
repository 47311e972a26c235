-- ===== src/Headscale/Needs.antt =====
-- Which nodes want their exit route approved, said of the texts that Headscale answers.
use deep_orc.Prelude.{
  Bool-cases, nat_eq, contains, Among, contains-Among, Among-contains, any-Among, Among-any, Text,
  codes, text_eq, ◌≡◌, sym, ◌∙◌, ◌⊎◌, inl, inr, true, false, none, some, List, [], ◌∷◌,
}
use deep_orc.Database.{
  gateway_keyed, job_keyed, peer_keyed, group_keyed, worker_keyed, enrollment_keyed,
  registration_keyed,
}
use deep_orc.Headscale.Values.{Json, Members}
use deep_orc.Headscale.{Host, HeadscaleSettings}
use deep_orc.Headscale.Nodes.{
  exit_node_routes, has_exit_route, node_id_of, approved_keys, available_keys, route_list,
  node_tags, node_has_exit_tag,
}
use deep_orc.Headscale.Client.{to_approve, is_tagged}

abbrev pub IsExitRoute : Text → Type 0
IsExitRoute route = (route ≡ codes "0.0.0.0/0") ⊎ (route ≡ codes "::/0")

contains-IsExitRoute : (route : Text) → contains exit_node_routes route ≡ true → IsExitRoute route
contains-IsExitRoute route h = elim (contains-Among exit_node_routes route h) [
  | inl e ↦ inl (cc)
  | inr (inl e) ↦ inr (cc)
  | inr (inr no_more) ↦ absurd no_more
]

IsExitRoute-contains : (route : Text) → IsExitRoute route → contains exit_node_routes route ≡ true
IsExitRoute-contains route (inl e) = Among-contains exit_node_routes route (inl (cc))
IsExitRoute-contains route (inr e) = Among-contains exit_node_routes route (inr (inl (cc)))

none-IsExitRoute :
    (routes : List Text) (route : Text)
    → has_exit_route routes ≡ false
    → Among route routes
    → ¬ IsExitRoute route
unfolding has_exit_route
none-IsExitRoute routes route h m e =
    cc (h, Among-any (contains exit_node_routes) routes route m (IsExitRoute-contains route e))

none_not_id : {a : Json} → none ≡ some a → ⊥
none_not_id h = cc

module _ {W : Type 0} (host : Host W) (config : HeadscaleSettings) where
  -- The node has the tag of exit nodes and an id, and of the routes that it offers some is an exit
  -- route, of those that are approved none is.
  pub record NeedsApproval (node : Members) (id : Json) : Type 0 where
    pub tagged : Among config.headscale_exit_node_tag (node_tags host node)
    pub route : Text
    pub offered : Among route (route_list host node available_keys)
    pub is_exit : IsExitRoute route
    pub none_approved :
        (other : Text) → Among other (route_list host node approved_keys) → ¬ IsExitRoute other
    pub at_id : node_id_of node ≡ some id

  pub needed-NeedsApproval :
      (node : Members) (id : Json)
      → is_tagged host config node ≡ true
      → to_approve host config node ≡ some id
      → NeedsApproval node id
  unfolding is_tagged node_has_exit_tag to_approve has_exit_route
  needed-NeedsApproval node id tag h =
      elim (Bool-cases (has_exit_route (route_list host node approved_keys))) [
        | inl approved ↦ absurd (none_not_id (rw approved at h))
        | inr open_yet ↦ elim (Bool-cases (has_exit_route (route_list host node available_keys))) [
          | inr nothing ↦ absurd (none_not_id (rw (open_yet, nothing) at h))
          | inl available ↦
              let (route, m, e) =
                any-Among (contains exit_node_routes) (route_list host node available_keys)
                  available in
              record {
                tagged = contains-Among (node_tags host node) config.headscale_exit_node_tag tag;
                route = route;
                offered = m;
                is_exit = contains-IsExitRoute route e;
                none_approved =
                    λ other. none-IsExitRoute (route_list host node approved_keys) other open_yet;
                at_id = rw (open_yet, available) at h;
              }
        ]
      ]

  pub untagged-needless :
      (node : Members) (id : Json) → is_tagged host config node ≡ false → ¬ NeedsApproval node id
  unfolding is_tagged node_has_exit_tag
  untagged-needless node id other n =
      cc (other, Among-contains (node_tags host node) config.headscale_exit_node_tag n.tagged)

  pub to_approve-needless :
      (node : Members) (id : Json) → to_approve host config node ≡ none → ¬ NeedsApproval node id
  unfolding to_approve has_exit_route
  to_approve-needless node id h n =
      elim (Bool-cases (has_exit_route (route_list host node approved_keys))) [
        | inl approved ↦
            let (route, m, e) =
              any-Among (contains exit_node_routes) (route_list host node approved_keys) approved in
            n.none_approved route m (contains-IsExitRoute route e)
        | inr open_yet ↦
            let available : has_exit_route (route_list host node available_keys) ≡ true =
              Among-any (contains exit_node_routes) (route_list host node available_keys) n.route
                n.offered (IsExitRoute-contains n.route n.is_exit) in
            none_not_id (sym (rw (open_yet, available) at h) ∙ n.at_id)
      ]

  -- The ids of the nodes that need it, in the order of the list.
  pub data Waiting : List Members → List Json → Type 0 where
    none_left : Waiting [] []
    pass :
        (node : Members) (nodes : List Members) (ids : List Json)
        → ((id : Json) → ¬ NeedsApproval node id)
        → Waiting nodes ids
        → Waiting (node ∷ nodes) ids
    take :
        (node : Members) (nodes : List Members) (id : Json) (ids : List Json)
        → NeedsApproval node id
        → Waiting nodes ids
        → Waiting (node ∷ nodes) (id ∷ ids)
