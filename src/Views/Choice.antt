-- ===== src/Views/Choice.antt =====
-- The exit nodes that a gateway can choose from.
use deep_orc.Prelude.{
  Bool-cases, Option-cases, nat_eq, nat_beq_iff, any, select, Among, Among-select, select-Among,
  any-Among, Among-sort_by, sort_by-Among, Text, text_beq_iff, text_eq, IsSorted, sort_by-IsSorted,
  ◌≡◌, sym, ap, ◌∙◌, ◌↔◌, subst, ◌⊎◌, inl, inr, Bool, true, Option, none, some, List, [], arith,
}
use deep_orc.Naming.{Unicode}
use deep_orc.Models.{Gateway}
use deep_orc.Database.{
  gateway_keyed, job_keyed, peer_keyed, group_keyed, worker_keyed, enrollment_keyed,
  registration_keyed,
}
use deep_orc.Headscale.Nodes.{HeadscaleNode}
use deep_orc.Gateways.{known_exit_ip}
use deep_orc.Views.{
  node_before, same_bit, same_exit_node, is_option, with_current, current_node,
  selectable_exit_nodes,
}
use deep_orc.Views.Order.{node_before-IsOrder}
use deep_orc.Views.Current.{LastAt, put_all-LastAt, LastAt-put_all}
use deep_orc.Views.Free.{
  HasExit, known-HasExit, HasExit-known, IsFree, option-IsFree, IsFree-option,
}

same_bit-eq : (a b : Bool) → same_bit a b ≡ true → a ≡ b
same_bit-eq a b h = ground arith

same_exit_node-eq : (a b : HeadscaleNode) → same_exit_node a b ≡ true → a ≡ b
same_exit_node-eq a b h = ground (
  arith,
  nat_beq_iff a.node_id b.node_id,
  text_beq_iff a.hostname b.hostname,
  text_beq_iff a.tailscale_ip b.tailscale_ip,
  same_bit-eq a.online b.online,
  same_bit-eq a.exit_approved b.exit_approved,
  same_bit-eq a.exit_tagged b.exit_tagged,
  same_bit-eq a.exit_advertised b.exit_advertised,
)

-- The current node is offered once, whether it was on offer or not.
with_current-Among :
    (o : Option HeadscaleNode) (options : List HeadscaleNode) (n : HeadscaleNode)
    → Among n (with_current o options)
    → Among n options ⊎ (o ≡ some n)
with_current-Among none options n m = inl m
with_current-Among (some c) options n m = elim (Bool-cases (any (same_exit_node c) options)) [
  | inl there ↦ inl (rw there at m)
  | inr new ↦
      let now : (c ≡ n) ⊎ Among n options = rw new at m in
      elim now [ inl e ↦ inr (ap some e) | inr rest ↦ inl rest ]
]

Among-with_current :
    (o : Option HeadscaleNode) (options : List HeadscaleNode) (n : HeadscaleNode)
    → Among n options ⊎ (o ≡ some n)
    → Among n (with_current o options)
Among-with_current none options n (inl m) = m
Among-with_current none options n (inr e) = cc
Among-with_current (some c) options n h = elim (Bool-cases (any (same_exit_node c) options)) [
  | inr new ↦ rw new (elim h [ inl m ↦ inr m | inr e ↦ inl (cc) ])
  | inl there ↦ rw there (elim h [
    | inl m ↦ m
    | inr e ↦
        let (k, m, same) = any-Among (same_exit_node c) options there in
        let it : c ≡ n = cc in
        subst (λ x. Among x options) (sym (same_exit_node-eq c k same) ∙ it) m
  ])
]

none_not_node : {n : HeadscaleNode} → none ≡ some n → ⊥
none_not_node h = cc

module _ (g : Gateway) (gateways : List Gateway) where
  -- The last node listed at the address of the gateway's own exit node.
  pub record IsCurrent (nodes : List HeadscaleNode) (n : HeadscaleNode) : Type 0 where
    pub ip : Text
    pub own : HasExit g ip
    pub last : LastAt ip nodes n

  node-IsCurrent :
      (nodes : List HeadscaleNode) (n : HeadscaleNode)
      → current_node g nodes ≡ some n
      → IsCurrent nodes n
  node-IsCurrent nodes n h = elim (Option-cases (known_exit_ip g)) [
    | inl no_ip ↦ absurd (none_not_node (rw (no_ip, current_node) at h))
    | inr (ip, known) ↦ record {
      ip = ip;
      own = known-HasExit g ip known;
      last = elim (put_all-LastAt ip nodes [] n (rw (known, current_node) at h)) [
        | inl last ↦ last
        | inr (e, _) ↦ absurd (none_not_node e)
      ];
    }
  ]

  IsCurrent-node :
      (nodes : List HeadscaleNode) (n : HeadscaleNode)
      → IsCurrent nodes n
      → current_node g nodes ≡ some n
  IsCurrent-node nodes n c =
      rw (HasExit-known g c.ip c.own, current_node) (LastAt-put_all c.ip nodes [] n c.last)

  -- The nodes on offer are sorted, connected ones first, and a node is on offer exactly when it is a
  -- listed one that bears no gateway's name, is approved, tagged or advertising, and is no other
  -- gateway's exit node, or when it is the last one listed at the address of the gateway's own exit
  -- node, whatever its state.
  pub selectable_exit_nodes_iff :
      (u : Unicode) (nodes : List HeadscaleNode) (n : HeadscaleNode)
      → IsSorted (node_before u) (selectable_exit_nodes u g gateways nodes)
        × (Among n (selectable_exit_nodes u g gateways nodes)
            ↔ ((Among n nodes × IsFree g gateways n) ⊎ IsCurrent nodes n))
  unfolding selectable_exit_nodes
  selectable_exit_nodes_iff u nodes n =
      let free : List HeadscaleNode = select (is_option g gateways) nodes in
      let options : List HeadscaleNode = with_current (current_node g nodes) free in
      (
        sort_by-IsSorted (node_before u) (node_before-IsOrder u) options,
        (
          λ m.
              elim (with_current-Among (current_node g nodes) free n
                (sort_by-Among (node_before u) options n m)) [
                  | inl there ↦
                      let (listed, passes) = select-Among (is_option g gateways) nodes n there in
                      inl (listed, option-IsFree g gateways n passes)
                  | inr e ↦ inr (node-IsCurrent nodes n e)
                ],
          λ h. Among-sort_by (node_before u) options n (
              Among-with_current (current_node g nodes) free n (elim h [
                | inl (listed, f) ↦ inl (
                    Among-select (is_option g gateways) nodes n (IsFree-option g gateways n f)
                      listed)
                | inr c ↦ inr (IsCurrent-node nodes n c)
              ])),
        ),
      )
