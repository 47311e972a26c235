-- ===== src/Headscale/Renames/Laws.antt =====
-- The loop of `sync_exit_node_names` carries out a plan.
use deep_orc.Prelude.{
  Option-cases, nat_eq, length, select, Text, text_eq, is_empty, sort_by, IsSorted, IsOrder,
  sort_by-IsSorted, ℕ, suc, ◌+◌, ◌≡◌, refl, ap, ◌∙◌, inl, inr, not, none, some, List, [], ◌∷◌, ◌++◌,
  arith,
}
use deep_orc.Models.{no_name, bad_json, value_error}
use deep_orc.Effects.{Result, ok, err, Exec, pure, lift_result, ◌>>=◌, ◌>>◌, Result-cases}
use deep_orc.Database.{
  gateway_keyed, job_keyed, peer_keyed, group_keyed, worker_keyed, enrollment_keyed,
  registration_keyed,
}
use deep_orc.Headscale.Values.{Json, Members}
use deep_orc.Headscale.{Host, HeadscaleSettings}
use deep_orc.Headscale.Client.{
  list_headscale_nodes_raw, rename_headscale_node, exit_names, next_exit_name,
}
use deep_orc.Headscale.Sync.{
  KeyedNode, by_id, with_keys, to_rename, rename_next, rename_all, sync_exit_node_names,
}
use deep_orc.Headscale.Renames.{Rename, conclude, IsPlan, IsSynced, raises, extend, skip}

module _ {W : Type 0} (host : Host W) (config : HeadscaleSettings) (gateway_names : List Text) where
  -- The first rename, and what runs after it.
  run_first :
      (id : ℕ) (name : Text) (renames : List Rename) (finish : Result (Unit {0})) (m n : ℕ) (w : W)
      (go : Exec W ℕ)
      → ((v : W) → go v ≡ conclude host config gateway_names renames finish m v)
      → m ≡ n
      → (rename_headscale_node host config id name >> go) w
        ≡ conclude host config gateway_names
            (record { node_id = id; new_name = name } ∷ renames)
            finish
            n
            w
  unfolding conclude ◌>>=◌
  run_first id name renames finish m n w go same count =
      elim (Result-cases (rename_headscale_node host config id name w).0) [
        | inr (e, failed) ↦ rw failed refl
        | inl (_, done) ↦ rw (done, ← count) (same (rename_headscale_node host config id name w).1)
      ]

  rename_all-step :
      (item : KeyedNode) (items : List KeyedNode) (taken : List Text) (n : ℕ) (value : Json)
      (id : ℕ) (name : Text)
      → to_rename host config gateway_names item.node ≡ some value
      → next_exit_name host config taken ≡ some name
      → host.int_of value ≡ some id
      → (w : W)
      → rename_all host config gateway_names (item ∷ items) taken n w
        ≡ (rename_headscale_node host config id name
              >> rename_all host config gateway_names items (name ∷ taken) (n + 1))
            w
  unfolding rename_all rename_next ◌>>=◌
  rename_all-step item items taken n value id name target next int w =
      elim (Result-cases (rename_headscale_node host config id name w).0) [
        | inr (e, failed) ↦ rw (target, rename_all, next, int, failed) refl
        | inl (_, done) ↦ rw (target, rename_all, next, int, done) refl
      ]

  rename_all-skip :
      (item : KeyedNode) (items : List KeyedNode) (taken : List Text) (n : ℕ)
      → to_rename host config gateway_names item.node ≡ none
      → (w : W)
      → rename_all host config gateway_names (item ∷ items) taken n w
        ≡ rename_all host config gateway_names items taken n w
  unfolding rename_all
  rename_all-skip item items taken n target w = rw (target, rename_all) refl

  nothing_to_do :
      (taken : List Text) (n : ℕ) (w : W)
      → rename_all host config gateway_names [] taken n w
        ≡ conclude host config gateway_names [] (ok tt) (n + 0) w
  unfolding rename_all conclude pure
  nothing_to_do taken n w = let same : n ≡ n + 0 = omega arith in λ i. (ok (same i), w)

  names_run_out :
      (item : KeyedNode) (items : List KeyedNode) (taken : List Text) (n : ℕ) (value : Json)
      → to_rename host config gateway_names item.node ≡ some value
      → next_exit_name host config taken ≡ none
      → (w : W)
      → rename_all host config gateway_names (item ∷ items) taken n w
        ≡ conclude host config gateway_names [] (err (value_error no_name)) (n + 0) w
  unfolding rename_all rename_next conclude
  names_run_out item items taken n value target full w = rw (target, rename_all, full) refl

  no_number :
      (item : KeyedNode) (items : List KeyedNode) (taken : List Text) (n : ℕ) (value : Json)
      (name : Text)
      → to_rename host config gateway_names item.node ≡ some value
      → next_exit_name host config taken ≡ some name
      → host.int_of value ≡ none
      → (w : W)
      → rename_all host config gateway_names (item ∷ items) taken n w
        ≡ conclude host config gateway_names [] (err (value_error bad_json)) (n + 0) w
  unfolding rename_all rename_next conclude
  no_number item items taken n value name target next no_int w =
      rw (target, rename_all, next, no_int) refl

  first_node :
      (item : KeyedNode) (items : List KeyedNode) (taken : List Text) (n : ℕ)
      → ((later : List Text) (m : ℕ) → IsSynced host config gateway_names items later m)
      → IsSynced host config gateway_names (item ∷ items) taken n
  first_node item items taken n others =
      elim (Option-cases (to_rename host config gateway_names item.node)) [
        | inl target ↦
            let rest = others taken n in
            record {
              renames = rest.renames;
              finish = rest.finish;
              runs = λ w. rename_all-skip item items taken n target w ∙ rest.runs w;
              plan =
                  skip host config gateway_names item items taken rest.renames rest.finish target
                    rest.plan;
            }
        | inr (value, target) ↦ elim (Option-cases (next_exit_name host config taken)) [
          | inl full ↦ record {
            renames = [];
            finish = err (value_error no_name);
            runs = λ w. names_run_out item items taken n value target full w;
            plan = raises host config gateway_names (item ∷ items) taken (value_error no_name);
          }
          | inr (name, next) ↦ elim (Option-cases (host.int_of value)) [
            | inl no_int ↦ record {
              renames = [];
              finish = err (value_error bad_json);
              runs = λ w. no_number item items taken n value name target next no_int w;
              plan = raises host config gateway_names (item ∷ items) taken (value_error bad_json);
            }
            | inr (id, int) ↦
                let rest = others (name ∷ taken) (n + 1) in
                record {
                  renames = record { node_id = id; new_name = name } ∷ rest.renames;
                  finish = rest.finish;
                  runs = λ w.
                      rename_all-step item items taken n value id name target next int w
                      ∙ run_first id name rest.renames rest.finish (n + 1 + length rest.renames)
                          (n + suc (length rest.renames)) w
                          (rename_all host config gateway_names items (name ∷ taken) (n + 1))
                          rest.runs (omega arith);
                  plan =
                      extend host config gateway_names item items taken value id name rest.renames
                        rest.finish target int next rest.plan;
                }
          ]
        ]
      ]

  -- The loop is a plan carried out: whatever Headscale answers, it runs the renames of a plan one
  -- after the other up to the first that fails, and, if none does, returns how many there are or
  -- raises what ended the plan.
  pub rename_all-IsSynced :
      (items : List KeyedNode) (taken : List Text) (n : ℕ)
      → IsSynced host config gateway_names items taken n
  unfolding rename_all
  rename_all-IsSynced [] taken n = record {
    renames = [];
    finish = ok tt;
    runs = λ w. nothing_to_do taken n w;
    plan = record {
      new_names = refl;
      distinct = tt;
      exit_form = refl;
      renamed = [];
      skipped = [];
      in_order = refl;
      ids = refl;
      all_done = λ h. refl;
    };
  }
  rename_all-IsSynced (item ∷ items) taken n =
      first_node item items taken n (λ later m. rename_all-IsSynced items later m)

  by_id-IsOrder : IsOrder by_id
  by_id-IsOrder = record { total = λ x y h. ground arith; transitive = λ x y z h k. ground arith }

  -- Whatever Headscale answers, a synchronisation that can read the listed nodes carries out a plan
  -- for them in the order of their ids: it runs the plan's renames up to the first that fails, and
  -- then returns how many there are, or raises what ended the plan. The plan's names are of the form
  -- of exit nodes' names, differ from each other, from those of the listed nodes, and from the given
  -- ones; unless an exception ends it, every node that is to be renamed is.
  pub sync_exit_node_names-IsPlan :
      (w : W) (nodes : List Members) (keyed : List KeyedNode)
      → (list_headscale_nodes_raw host config w).0 ≡ ok nodes
      → with_keys host config nodes ≡ ok keyed
      → (renames : List Rename) × (finish : Result (Unit {0})) × IsSorted by_id
          (sort_by by_id keyed)
        × IsPlan host config gateway_names
            (sort_by by_id keyed)
            (exit_names host config nodes ++ select (λ name. not (is_empty name)) gateway_names)
            renames
            finish
        × (sync_exit_node_names host config gateway_names w
            ≡ conclude host config gateway_names renames finish
                (length renames)
                (list_headscale_nodes_raw host config w).1)
  unfolding sync_exit_node_names ◌>>=◌ lift_result
  sync_exit_node_names-IsPlan w nodes keyed listed read =
      let taken : List Text =
        exit_names host config nodes ++ select (λ name. not (is_empty name)) gateway_names in
      let later : W = (list_headscale_nodes_raw host config w).1 in
      let r = rename_all-IsSynced (sort_by by_id keyed) taken 0 in
      (
        r.renames,
        r.finish,
        sort_by-IsSorted by_id by_id-IsOrder keyed,
        r.plan,
        rw (listed, read)
            (r.runs later
              ∙ ap (λ (m : ℕ). conclude host config gateway_names r.renames r.finish m later)
                  (omega arith)),
      )
