-- ===== src/Views/Current.antt =====
-- The node that a dict of the nodes by their addresses has for an address: the last one listed.
use deep_orc.Prelude.{
  if◌then◌else◌, Bool-cases, ◌==◌, nat_eq, beq_ne, Among, Text, text_beq_iff, text_eq, ◌≡◌, refl,
  sym, ◌∙◌, ◌≢◌, subst, ◌⊎◌, inl, inr, false, some, List, [], ◌∷◌,
}
use deep_orc.Database.{
  gateway_keyed, job_keyed, peer_keyed, group_keyed, worker_keyed, enrollment_keyed,
  registration_keyed,
}
use deep_orc.Headscale.Nodes.{HeadscaleNode}
use deep_orc.Views.{put, entry, put_all}

abbrev pub NoneAt : Text → List HeadscaleNode → Type 0
NoneAt ip nodes = (k : HeadscaleNode) → Among k nodes → k.tailscale_ip ≢ ip

-- The node stands in the list, with the address, and no later one has it.
abbrev pub LastAt : Text → List HeadscaleNode → HeadscaleNode → Type 0
LastAt ip [] n = ⊥
LastAt ip (m ∷ nodes) n = ((m ≡ n) × (m.tailscale_ip ≡ ip) × NoneAt ip nodes) ⊎ LastAt ip nodes n

entry-put :
    (ip key : Text) (n : HeadscaleNode) (entries : List (Text × HeadscaleNode))
    → entry ip (put key n entries) ≡ (if key == ip then some n else entry ip entries)
entry-put ip key n [] = refl
entry-put ip key n ((k, m) ∷ entries) = elim (Bool-cases (k == key)) [
  | inl same ↦
      let e : k ≡ key = (text_beq_iff k key).0 same in
      rw same (elim (Bool-cases (k == ip)) [
        | inl hit ↦ rw (← e, hit) refl
        | inr miss ↦ rw (← e, miss) refl
      ])
  | inr other ↦ rw other (elim (Bool-cases (k == ip)) [
    | inr miss ↦ rw miss (entry-put ip key n entries)
    | inl hit ↦
        let apart : (key == ip) ≡ false = beq_ne key ip (λ p. cc (other, hit)) in
        rw (hit, apart) refl
  ])
]

pub put_all-LastAt :
    (ip : Text) (nodes : List HeadscaleNode) (entries : List (Text × HeadscaleNode))
    (n : HeadscaleNode)
    → entry ip (put_all nodes entries) ≡ some n
    → LastAt ip nodes n ⊎ ((entry ip entries ≡ some n) × NoneAt ip nodes)
put_all-LastAt ip [] entries n h = inr (h, λ k m. absurd m)
put_all-LastAt ip (m ∷ nodes) entries n h =
    elim (put_all-LastAt ip nodes (put m.tailscale_ip m entries) n h) [
      | inl last ↦ inl (inr last)
      | inr (e, absent) ↦
          let found = sym (entry-put ip m.tailscale_ip m entries) ∙ e in
          elim (Bool-cases (m.tailscale_ip == ip)) [
            | inl same ↦
                let it : some m ≡ some n = rw same at found in
                inl (inl (cc, (text_beq_iff m.tailscale_ip ip).0 same, absent))
            | inr other ↦ inr (
              rw other at found,
              λ k there. elim there [
                | inr later ↦ absent k later
                | inl p ↦ λ at. cc (
                  other,
                  (text_beq_iff m.tailscale_ip ip).1 (subst (λ x. x.tailscale_ip ≡ ip) (sym p) at),
                )
              ],
            )
          ]
    ]

put_all-NoneAt :
    (ip : Text) (nodes : List HeadscaleNode) (entries : List (Text × HeadscaleNode))
    → NoneAt ip nodes
    → entry ip (put_all nodes entries) ≡ entry ip entries
put_all-NoneAt ip [] entries h = refl
put_all-NoneAt ip (m ∷ nodes) entries h =
    put_all-NoneAt ip nodes (put m.tailscale_ip m entries) (λ k later. h k (inr later))
    ∙ entry-put ip m.tailscale_ip m entries
    ∙ rw (beq_ne m.tailscale_ip ip (h m (inl refl))) refl

pub LastAt-put_all :
    (ip : Text) (nodes : List HeadscaleNode) (entries : List (Text × HeadscaleNode))
    (n : HeadscaleNode)
    → LastAt ip nodes n
    → entry ip (put_all nodes entries) ≡ some n
LastAt-put_all ip [] entries n h = absurd h
LastAt-put_all ip (m ∷ nodes) entries n (inr h) =
    LastAt-put_all ip nodes (put m.tailscale_ip m entries) n h
LastAt-put_all ip (m ∷ nodes) entries n (inl (e, at, absent)) =
    put_all-NoneAt ip nodes (put m.tailscale_ip m entries) absent
    ∙ entry-put ip m.tailscale_ip m entries
    ∙ rw ((text_beq_iff m.tailscale_ip ip).1 at) (rw e refl)
