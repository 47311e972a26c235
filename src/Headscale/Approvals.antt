-- ===== src/Headscale/Approvals.antt =====
-- The exit routes that are approved.
use deep_orc.Prelude.{
  if◌then◌else◌, Bool-cases, Option-cases, nat_eq, length, text_eq, ℕ, suc, ◌+◌, ◌≡◌, refl, ap, ◌∙◌,
  ◌⊎◌, inl, inr, true, false, none, some, List, [], ◌∷◌, arith,
}
use deep_orc.Effects.{ok, Exec, pure, ◌>>=◌, ◌>>◌, Result-cases}
use deep_orc.Database.{
  gateway_keyed, job_keyed, peer_keyed, group_keyed, worker_keyed, enrollment_keyed,
  registration_keyed,
}
use deep_orc.Headscale.Values.{Json, Members}
use deep_orc.Headscale.{Host, HeadscaleSettings, run_headscale}
use deep_orc.Headscale.Client.{
  list_headscale_nodes_raw, approve_command, to_approve, approve_exit_route_if_needed, is_tagged,
  approve_all, approve_exit_routes_for_tagged_nodes,
}
use deep_orc.Headscale.Needs.{
  needed-NeedsApproval, untagged-needless, to_approve-needless, Waiting, none_left, pass, take,
}

module _ {W : Type 0} (host : Host W) (config : HeadscaleSettings) where
  -- The ids of the tagged nodes that advertise an exit route, have none approved, and have an id.
  abbrev waiting : List Members → List Json
  waiting [] = []
  waiting (node ∷ nodes) =
      let rest = waiting nodes in
      if is_tagged host config node
      then elim (to_approve host config node) [ none ↦ rest | some id ↦ id ∷ rest ]
      else rest

  -- One approval after the other.
  unfoldable pub run_approvals : List Json → Exec W (Unit {0})
  unfolding ◌>>=◌
  run_approvals [] = pure tt
  run_approvals (id ∷ ids) =
      run_headscale host config (approve_command host config id) >> run_approvals ids

  unfoldable pub approved : List Json → ℕ → Exec W ℕ
  unfolding run_approvals
  approved ids n = run_approvals ids >> pure n

  -- The first approval, and what runs after it.
  approve_first :
      (id : Json) (ids : List Json) (m n : ℕ) (w : W) (go : Exec W ℕ)
      → ((v : W) → go v ≡ approved ids m v)
      → m ≡ n
      → (run_headscale host config (approve_command host config id) >> go) w
        ≡ approved (id ∷ ids) n w
  unfolding approved ◌>>=◌
  approve_first id ids m n w go same count =
      elim (Result-cases (run_headscale host config (approve_command host config id) w).0) [
        | inr (e, failed) ↦ rw failed refl
        | inl (_, done) ↦
            rw (done, ← count)
              (same (run_headscale host config (approve_command host config id) w).1)
      ]

  module _ (node : Members) (nodes : List Members) (count : ℕ) where
    abbrev later : ℕ → Exec W ℕ
    later = approve_all host config nodes

    approve_all-untagged :
        (w : W)
        → is_tagged host config node ≡ false
        → approve_all host config (node ∷ nodes) count w ≡ later count w
    unfolding approve_all
    approve_all-untagged w other = rw (other, approve_all) refl

    approve_all-needless :
        (w : W)
        → is_tagged host config node ≡ true
        → to_approve host config node ≡ none
        → approve_all host config (node ∷ nodes) count w ≡ later count w
    unfolding approve_all approve_exit_route_if_needed ◌>>=◌
    approve_all-needless w tagged needless = rw (tagged, approve_all, needless) refl

    approve_all-needed :
        (w : W) (id : Json)
        → is_tagged host config node ≡ true
        → to_approve host config node ≡ some id
        → approve_all host config (node ∷ nodes) count w
          ≡ (run_headscale host config (approve_command host config id) >> later (count + 1)) w
    unfolding approve_all approve_exit_route_if_needed ◌>>=◌
    approve_all-needed w id tagged needed =
        elim (Result-cases (run_headscale host config (approve_command host config id) w).0) [
          | inr (e, failed) ↦ rw (tagged, approve_all, needed, failed) refl
          | inl (_, done) ↦ rw (tagged, approve_all, needed, done) refl
        ]

  waiting-skip :
      (node : Members) (nodes : List Members)
      → (is_tagged host config node ≡ false) ⊎ (to_approve host config node ≡ none)
      → waiting (node ∷ nodes) ≡ waiting nodes
  waiting-skip node nodes (inl other) = rw (other, waiting) refl
  waiting-skip node nodes (inr needless) = elim (Bool-cases (is_tagged host config node)) [
    | inl tagged ↦ rw (tagged, waiting, needless) refl
    | inr other ↦ rw (other, waiting) refl
  ]

  waiting-needed :
      (node : Members) (nodes : List Members) (id : Json)
      → is_tagged host config node ≡ true
      → to_approve host config node ≡ some id
      → waiting (node ∷ nodes) ≡ id ∷ waiting nodes
  waiting-needed node nodes id tagged needed = rw (tagged, waiting, needed) refl

  approve_none :
      (count : ℕ) (w : W) → approve_all host config [] count w ≡ approved [] (count + 0) w
  unfolding approve_all approved pure
  approve_none count w = let same : count ≡ count + 0 = omega arith in λ i. (ok (same i), w)

  approve_all-approved :
      (nodes : List Members) (count : ℕ) (w : W)
      → approve_all host config nodes count w
        ≡ approved (waiting nodes) (count + length (waiting nodes)) w
  approve_all-approved [] count w = approve_none count w
  approve_all-approved (node ∷ nodes) count w = elim (Bool-cases (is_tagged host config node)) [
    | inr other ↦
        rw (waiting-skip node nodes (inl other))
          (approve_all-untagged node nodes count w other ∙ approve_all-approved nodes count w)
    | inl tagged ↦ elim (Option-cases (to_approve host config node)) [
      | inl needless ↦ rw (waiting-skip node nodes (inr needless)) (
          approve_all-needless node nodes count w tagged needless
          ∙ approve_all-approved nodes count w)
      | inr (id, needed) ↦ rw (waiting-needed node nodes id tagged needed) (
          approve_all-needed node nodes count w id tagged needed
          ∙ approve_first id (waiting nodes) (count + 1 + length (waiting nodes))
              (count + suc (length (waiting nodes))) w (approve_all host config nodes (count + 1))
              (λ v. approve_all-approved nodes (count + 1) v) (omega arith))
    ]
  ]

  waiting-Waiting : (nodes : List Members) → Waiting host config nodes (waiting nodes)
  waiting-Waiting [] = none_left
  waiting-Waiting (node ∷ nodes) = elim (Bool-cases (is_tagged host config node)) [
    | inr other ↦ rw (waiting-skip node nodes (inl other)) (
        pass node nodes (waiting nodes) (λ id. untagged-needless host config node id other)
          (waiting-Waiting nodes))
    | inl tagged ↦ elim (Option-cases (to_approve host config node)) [
      | inl needless ↦ rw (waiting-skip node nodes (inr needless)) (
          pass node nodes (waiting nodes) (λ id. to_approve-needless host config node id needless)
            (waiting-Waiting nodes))
      | inr (id, needed) ↦ rw (waiting-needed node nodes id tagged needed) (
          take node nodes id (waiting nodes)
            (needed-NeedsApproval host config node id tagged needed) (waiting-Waiting nodes))
    ]
  ]

  -- Whatever Headscale answers, approving the routes of the listed nodes is one approval for each
  -- node that has the tag of exit nodes, offers `0.0.0.0/0` or `::/0`, has neither of them approved,
  -- and has an id, and for no other, in the order of the list, up to the first that fails; if none
  -- fails, the answer is how many there are.
  pub approve_exit_routes-approved :
      (w : W) (nodes : List Members)
      → (list_headscale_nodes_raw host config w).0 ≡ ok nodes
      → (ids : List Json) × Waiting host config nodes ids
        × (approve_exit_routes_for_tagged_nodes host config w
            ≡ approved ids (length ids) (list_headscale_nodes_raw host config w).1)
  unfolding approve_exit_routes_for_tagged_nodes ◌>>=◌
  approve_exit_routes-approved w nodes listed =
      let after_list : W = (list_headscale_nodes_raw host config w).1 in
      (
        waiting nodes,
        waiting-Waiting nodes,
        rw listed (
            approve_all-approved nodes 0 after_list
            ∙ ap (λ (m : ℕ). approved (waiting nodes) m after_list) (omega arith)),
      )
