-- ===== src/Views/Free.antt =====
-- Which nodes a gateway may take, said of the gateways' and the nodes' fields.
use deep_orc.Prelude.{
  Bool-cases, Option-cases, ◌==◌, nat_eq, nat_beq_iff, beq_ne, select, contains, Among,
  Among-select, select-Among, absent-contains, contains-absent, Text, codes, text_beq_iff, text_eq,
  is_empty, ◌≡◌, refl, sym, ap, ◌∙◌, ◌≢◌, subst, ◌⊎◌, inl, inr, Bool, true, false, not, ◌||◌, none,
  some, List, [], ◌∷◌, map, arith,
}
use deep_orc.Models.{Gateway}
use deep_orc.Database.{
  gateway_keyed, job_keyed, peer_keyed, group_keyed, worker_keyed, enrollment_keyed,
  registration_keyed,
}
use deep_orc.Headscale.Nodes.{HeadscaleNode}
use deep_orc.Gateways.{known_exit_ip}
use deep_orc.Views.{assigned_ips, is_gateway_node, assigned_elsewhere, is_option}

-- The gateway's exit node is the one of this address: the column is neither empty nor "pending".
pub record HasExit (g : Gateway) (ip : Text) : Type 0 where
  pub at : g.exit_node_id ≡ ip
  pub not_empty : ip ≢ []
  pub not_pending : ip ≢ codes "pending"

is_empty-eq : (s : Text) → is_empty s ≡ true → s ≡ []
is_empty-eq [] h = refl
is_empty-eq (c ∷ s) h = cc

none_not_ip : {ip : Text} → none ≡ some ip → ⊥
none_not_ip h = cc

pub known-HasExit : (g : Gateway) (ip : Text) → known_exit_ip g ≡ some ip → HasExit g ip
known-HasExit g ip h = elim (Bool-cases (is_empty g.exit_node_id)) [
  | inl nothing ↦ absurd (none_not_ip (rw nothing at h))
  | inr some_of ↦ elim (Bool-cases (g.exit_node_id == codes "pending")) [
    | inl waits ↦ absurd (none_not_ip (rw (some_of, waits) at h))
    | inr set ↦
        let found : some g.exit_node_id ≡ some ip = rw (some_of, set) at h in
        let e : g.exit_node_id ≡ ip = cc in
        record {
          at = e;
          not_empty = λ p. cc (some_of, ap is_empty (e ∙ p));
          not_pending = λ p. cc (set, (text_beq_iff g.exit_node_id (codes "pending")).1 (e ∙ p));
        }
  ]
]

pub HasExit-known : (g : Gateway) (ip : Text) → HasExit g ip → known_exit_ip g ≡ some ip
HasExit-known g ip h = elim (Bool-cases (is_empty g.exit_node_id)) [
  | inl nothing ↦ absurd (h.not_empty (sym h.at ∙ is_empty-eq g.exit_node_id nothing))
  | inr some_of ↦
      let set : (g.exit_node_id == codes "pending") ≡ false =
        beq_ne g.exit_node_id (codes "pending") (λ p. h.not_pending (sym h.at ∙ p)) in
      rw (some_of, set) (ap some h.at)
]

Among-map : {A B : Type 0} (f : A → B) (xs : List A) (a : A) → Among a xs → Among (f a) (map f xs)
Among-map f [] a m = m
Among-map f (x ∷ xs) a (inl e) = inl (ap f e)
Among-map f (x ∷ xs) a (inr m) = inr (Among-map f xs a m)

map-Among :
    {A B : Type 0} (f : A → B) (xs : List A) (b : B)
    → Among b (map f xs)
    → (a : A) × Among a xs × (f a ≡ b)
map-Among f [] b m = absurd m
map-Among f (x ∷ xs) b (inl e) = (x, inl refl, e)
map-Among f (x ∷ xs) b (inr m) = let (a, there, e) = map-Among f xs b m in (a, inr there, e)

assigned-skip :
    (g : Gateway) (gateways : List Gateway)
    → known_exit_ip g ≡ none
    → assigned_ips (g ∷ gateways) ≡ assigned_ips gateways
assigned-skip g gateways e = rw (e, assigned_ips) refl

assigned-add :
    (g : Gateway) (gateways : List Gateway) (ip : Text)
    → known_exit_ip g ≡ some ip
    → assigned_ips (g ∷ gateways) ≡ ip ∷ assigned_ips gateways
assigned-add g gateways ip e = rw (e, assigned_ips) refl

assigned-HasExit :
    (gateways : List Gateway) (ip : Text)
    → Among ip (assigned_ips gateways)
    → (h : Gateway) × Among h gateways × HasExit h ip
assigned-HasExit [] ip m = absurd m
assigned-HasExit (g ∷ gateways) ip m = elim (Option-cases (known_exit_ip g)) [
  | inl no_ip ↦
      let (h, there, has) =
        assigned-HasExit gateways ip (rw (assigned-skip g gateways no_ip) at m) in
      (h, inr there, has)
  | inr (a, known) ↦
      let now : (a ≡ ip) ⊎ Among ip (assigned_ips gateways) =
        rw (assigned-add g gateways a known) at m in
      elim now [
        | inl e ↦ (g, inl refl, known-HasExit g ip (known ∙ ap some e))
        | inr later ↦
            let (h, there, has) = assigned-HasExit gateways ip later in (h, inr there, has)
      ]
]

HasExit-assigned :
    (gateways : List Gateway) (ip : Text) (h : Gateway)
    → Among h gateways
    → HasExit h ip
    → Among ip (assigned_ips gateways)
HasExit-assigned [] ip h m has = absurd m
HasExit-assigned (g ∷ gateways) ip h (inl e) has =
    rw (assigned-add g gateways ip (HasExit-known g ip (subst (λ x. HasExit x ip) (sym e) has)))
      (inl refl)
HasExit-assigned (g ∷ gateways) ip h (inr m) has = elim (Option-cases (known_exit_ip g)) [
  | inl no_ip ↦ rw (assigned-skip g gateways no_ip) (HasExit-assigned gateways ip h m has)
  | inr (a, known) ↦
      rw (assigned-add g gateways a known) (inr (HasExit-assigned gateways ip h m has))
]

module _ (g : Gateway) (gateways : List Gateway) where
  -- No gateway's node, approved, tagged or advertising, and no other gateway's exit node.
  pub record IsFree (n : HeadscaleNode) : Type 0 where
    pub no_gateway : (h : Gateway) → Among h gateways → h.name ≢ n.hostname
    pub usable : (n.exit_approved ≡ true) ⊎ (n.exit_tagged ≡ true) ⊎ (n.exit_advertised ≡ true)
    pub unassigned : (h : Gateway) → Among h gateways → h.id ≢ g.id → HasExit h n.tailscale_ip → ⊥

  abbrev is_other : Gateway → Bool
  is_other h = not (h.id == g.id)

  other_id : (h : Gateway) → h.id ≢ g.id → is_other h ≡ true
  other_id h other = rw (beq_ne h.id g.id other) refl

  is_other-ne : (h : Gateway) → is_other h ≡ true → h.id ≢ g.id
  is_other-ne h other e = cc (other, (nat_beq_iff h.id g.id).1 e)

  option_parts :
      (n : HeadscaleNode)
      → is_option g gateways n ≡ true
      → (is_gateway_node gateways n ≡ false)
        × ((n.exit_approved || n.exit_tagged || n.exit_advertised) ≡ true)
        × (contains (assigned_elsewhere g gateways) n.tailscale_ip ≡ false)
  option_parts n h = ground arith

  usable_cases : (a t v : Bool) → (a || t || v) ≡ true → (a ≡ true) ⊎ (t ≡ true) ⊎ (v ≡ true)
  usable_cases true t v h = inl refl
  usable_cases false true v h = inr (inl refl)
  usable_cases false false v h = inr (inr h)

  usable-or : (a t v : Bool) → (a ≡ true) ⊎ (t ≡ true) ⊎ (v ≡ true) → (a || t || v) ≡ true
  usable-or a t v (inl h) = ground arith
  usable-or a t v (inr (inl h)) = ground arith
  usable-or a t v (inr (inr h)) = ground arith

  pub option-IsFree : (n : HeadscaleNode) → is_option g gateways n ≡ true → IsFree n
  option-IsFree n h =
      let (named, use_it, elsewhere) = option_parts n h in
      record {
        no_gateway = λ other m e. contains-absent (map (λ x. x.name) gateways) n.hostname named (
            subst (λ s. Among s (map (λ (x : Gateway). x.name) gateways)) e
              (Among-map (λ (x : Gateway). x.name) gateways other m));
        usable = usable_cases n.exit_approved n.exit_tagged n.exit_advertised use_it;
        unassigned = λ other m apart has.
            contains-absent (assigned_elsewhere g gateways) n.tailscale_ip elsewhere (
              HasExit-assigned (select is_other gateways) n.tailscale_ip other
                (Among-select is_other gateways other (other_id other apart) m) has);
      }

  pub IsFree-option : (n : HeadscaleNode) → IsFree n → is_option g gateways n ≡ true
  IsFree-option n f =
      let named : is_gateway_node gateways n ≡ false =
        absent-contains (map (λ (x : Gateway). x.name) gateways) n.hostname (λ m.
          let (h, there, e) = map-Among (λ (x : Gateway). x.name) gateways n.hostname m in
          f.no_gateway h there e) in
      let elsewhere : contains (assigned_elsewhere g gateways) n.tailscale_ip ≡ false =
        absent-contains (assigned_elsewhere g gateways) n.tailscale_ip (λ m.
          let (h, there, has) = assigned-HasExit (select is_other gateways) n.tailscale_ip m in
          let (in_all, other) = select-Among is_other gateways h there in
          f.unassigned h in_all (is_other-ne h other) has) in
      rw (named, usable-or n.exit_approved n.exit_tagged n.exit_advertised f.usable, elsewhere) refl
