-- ===== src/Headscale/Renames.antt =====
-- What `sync_exit_node_names` asks Headscale to do.
pub mod Laws
use deep_orc.Prelude.{
  ◌==◌, nat_eq, length, all, any, contains, Text, text_eq, ℕ, ◌+◌, ◌≡◌, refl, ap, Bool, true, false,
  not, none, some, List, [], ◌∷◌, ◌++◌, map, arith,
}
use deep_orc.Naming.{exit_node_prefix, sequential_width, is_exit_node_name}
use deep_orc.Naming.Sequential.{next_sequential_name-IsNextName, generated_names_recognised}
use deep_orc.Models.{Failure}
use deep_orc.Effects.{Result, ok, err, Exec, pure, lift_result, ◌>>=◌, ◌>>◌, err_ne_ok}
use deep_orc.Database.{
  gateway_keyed, job_keyed, peer_keyed, group_keyed, worker_keyed, enrollment_keyed,
  registration_keyed,
}
use deep_orc.Pools.Constraints.{IsUnique}
use deep_orc.Headscale.Values.{Json}
use deep_orc.Headscale.{Host, HeadscaleSettings}
use deep_orc.Headscale.Client.{rename_headscale_node, next_exit_name}
use deep_orc.Headscale.Sync.{KeyedNode, to_rename, rename_all}

pub record Rename : Type 0 where
  pub node_id : ℕ
  pub new_name : Text

abbrev pub same_new_name : Rename → Rename → Bool
same_new_name r q = r.new_name == q.new_name

module _ {W : Type 0} (host : Host W) (config : HeadscaleSettings) (gateway_names : List Text) where
  -- One rename after the other.
  unfoldable pub run_renames : List Rename → Exec W (Unit {0})
  unfolding ◌>>=◌
  run_renames [] = pure tt
  run_renames (r ∷ rs) = rename_headscale_node host config r.node_id r.new_name >> run_renames rs

  -- The renames, then an exception or the number of them.
  unfoldable pub conclude : List Rename → Result (Unit {0}) → ℕ → Exec W ℕ
  unfolding run_renames
  conclude renames finish n = do run_renames renames; lift_result finish; pure n

  -- The ids of the nodes that are to be renamed.
  abbrev pub targets : List KeyedNode → List Json
  targets [] = []
  targets (item ∷ items) = elim (to_rename host config gateway_names item.node) [
    | none ↦ targets items
    | some value ↦ value ∷ targets items
  ]

  abbrev pub all_new : List Text → List Rename → Bool
  all_new taken = all (λ r. not (contains taken r.new_name))

  -- New names, each used once, of the form of an exit node's, for the nodes in their order; only
  -- an exception leaves a node without one.
  pub record IsPlan (items : List KeyedNode) (taken : List Text) (renames : List Rename)
      (finish : Result (Unit {0})) : Type 0 where
    pub new_names : all_new taken renames ≡ true
    pub distinct : IsUnique same_new_name renames
    pub exit_form : all (λ r. is_exit_node_name host.unicode r.new_name) renames ≡ true
    pub renamed : List Json
    pub skipped : List Json
    pub in_order : targets items ≡ renamed ++ skipped
    pub ids : map host.int_of renamed ≡ map (λ r. some r.node_id) renames
    pub all_done : finish ≡ ok tt → skipped ≡ []

  pub record IsSynced (items : List KeyedNode) (taken : List Text) (n : ℕ) : Type 0 where
    pub renames : List Rename
    pub finish : Result (Unit {0})
    pub runs :
        (w : W)
        → rename_all host config gateway_names items taken n w
          ≡ conclude renames finish (n + length renames) w
    pub plan : IsPlan items taken renames finish

  pub raises :
      (items : List KeyedNode) (taken : List Text) (e : Failure) → IsPlan items taken [] (err e)
  raises items taken e = record {
    new_names = refl;
    distinct = tt;
    exit_form = refl;
    renamed = [];
    skipped = targets items;
    in_order = refl;
    ids = refl;
    all_done = λ h. absurd (err_ne_ok h);
  }

  -- A name that is taken later on was new before.
  all_new-later :
      (name : Text) (taken : List Text) (rs : List Rename)
      → all_new (name ∷ taken) rs ≡ true
      → all_new taken rs ≡ true
  all_new-later name taken [] h = refl
  all_new-later name taken (r ∷ rs) h = ground (arith, all_new-later name taken rs)

  not_again :
      (id : ℕ) (name : Text) (taken : List Text) (rs : List Rename)
      → all_new (name ∷ taken) rs ≡ true
      → any (same_new_name (record { node_id = id; new_name = name })) rs ≡ false
  not_again id name taken [] h = refl
  not_again id name taken (r ∷ rs) h = ground (arith, not_again id name taken rs)

  next_name-facts :
      (taken : List Text) (name : Text)
      → next_exit_name host config taken ≡ some name
      → (contains taken name ≡ false) × (is_exit_node_name host.unicode name ≡ true)
  unfolding next_exit_name
  next_name-facts taken name h =
      let f = next_sequential_name-IsNextName exit_node_prefix taken sequential_width name h in
      (f.is_free, rw f.is_format (generated_names_recognised host.unicode f.index f.fits).1)

  pub extend :
      (item : KeyedNode) (items : List KeyedNode) (taken : List Text) (value : Json) (id : ℕ)
      (name : Text) (renames : List Rename) (finish : Result (Unit {0}))
      → to_rename host config gateway_names item.node ≡ some value
      → host.int_of value ≡ some id
      → next_exit_name host config taken ≡ some name
      → IsPlan items (name ∷ taken) renames finish
      → IsPlan (item ∷ items) taken (record { node_id = id; new_name = name } ∷ renames) finish
  extend item items taken value id name renames finish target int next plan =
      let (free, form) = next_name-facts taken name next in
      record {
        new_names = rw free (all_new-later name taken renames plan.new_names);
        distinct = (not_again id name taken renames plan.new_names, plan.distinct);
        exit_form = rw form plan.exit_form;
        renamed = value ∷ plan.renamed;
        skipped = plan.skipped;
        in_order = rw (target, targets) (ap (λ l. value ∷ l) plan.in_order);
        ids = rw int (ap (λ l. some id ∷ l) plan.ids);
        all_done = plan.all_done;
      }

  pub skip :
      (item : KeyedNode) (items : List KeyedNode) (taken : List Text) (renames : List Rename)
      (finish : Result (Unit {0}))
      → to_rename host config gateway_names item.node ≡ none
      → IsPlan items taken renames finish
      → IsPlan (item ∷ items) taken renames finish
  skip item items taken renames finish target plan = record {
    new_names = plan.new_names;
    distinct = plan.distinct;
    exit_form = plan.exit_form;
    renamed = plan.renamed;
    skipped = plan.skipped;
    in_order = rw (target, targets) plan.in_order;
    ids = plan.ids;
    all_done = plan.all_done;
  }
