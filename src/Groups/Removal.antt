-- ===== src/Groups/Removal.antt =====
-- What deleting a group does.
use deep_orc.Prelude.{
  Bool-cases, Option-cases, ◌==◌, nat_eq, any, text_eq, ℕ, ◌≡◌, refl, ap, ◌≢◌, ◌⊎◌, inl, inr, true,
  false, none, some, List, [], ◌∷◌, map,
}
use deep_orc.Models.{group_not_empty, value_error, Gateway, PeerGroup}
use deep_orc.Tables.{keys, get-key, get-delete_self, get-delete_ne}
use deep_orc.Effects.{ok, err, ◌>>=◌}
use deep_orc.Database.{
  gateway_keyed, job_keyed, peer_keyed, group_keyed, worker_keyed, enrollment_keyed,
  registration_keyed,
}
use deep_orc.Lan.{in_group}
use deep_orc.Database.Groups.{get_group, leave_group, delete_group_row}
use deep_orc.Session.{State, query, commit, write}
use deep_orc.Groups.{is_active_in, delete_group}

-- The group is gone, the others are there, and its gateways are in no group.
pub record IsRemoved {W : Type 0} (k : ℕ) (s t : State W) : Type 0 where
  pub gone : get_group k t.db ≡ none
  pub others : (j : ℕ) → j ≢ k → get_group j t.db ≡ get_group j s.db
  pub left : any (in_group k) t.db.gateways ≡ false
  pub same_gateways : keys t.db.gateways ≡ keys s.db.gateways
  pub jobs_kept : t.db.jobs ≡ s.db.jobs
  pub all_saved : t.saved ≡ t.db

left_group : (k : ℕ) (g : Gateway) → in_group k (leave_group k g) ≡ false
left_group k g = elim (Option-cases g.peer_group_id) [
  | inl no_group ↦ rw no_group refl
  | inr (j, e) ↦ elim (Bool-cases (j == k)) [
    | inl same ↦ rw (e, same) refl
    | inr other ↦ rw (e, other) other
  ]
]

any-left :
    (k : ℕ) (gateways : List Gateway) → any (in_group k) (map (leave_group k) gateways) ≡ false
any-left k [] = refl
any-left k (g ∷ gateways) = rw (left_group k g) (any-left k gateways)

keys-left : (k : ℕ) (gateways : List Gateway) → keys (map (leave_group k) gateways) ≡ keys gateways
keys-left k [] = refl
keys-left k (g ∷ gateways) = ap (λ l. g.id ∷ l) (keys-left k gateways)

module _ {W : Type 0} (k : ℕ) where
  removed_lem :
      (s : State W)
      → IsRemoved k s (record s { db = delete_group_row k s.db; saved = delete_group_row k s.db })
  unfolding delete_group_row get_group
  removed_lem s = record {
    gone = get-delete_self k s.db.peer_groups;
    others = λ j n. get-delete_ne k j s.db.peer_groups n;
    left = any-left k s.db.gateways;
    same_gateways = keys-left k s.db.gateways;
    jobs_kept = refl;
    all_saved = refl;
  }

  -- A group with a gateway that is not being deleted stays, and the call raises and writes nothing.
  -- A group with no such gateway is removed, which leaves the gateways that are being deleted, and
  -- their jobs, but in no group; the call returns and has committed that.
  pub delete_group-cases :
      (group : PeerGroup) (s : State W)
      → get_group k s.db ≡ some group
      → ((any (is_active_in k) s.db.gateways ≡ true)
          × (delete_group k s ≡ (err (value_error group_not_empty), s)))
        ⊎ ((any (is_active_in k) s.db.gateways ≡ false)
            × ((delete_group k s).0 ≡ ok tt)
            × IsRemoved k s (delete_group k s).1)
  unfolding delete_group query write commit ◌>>=◌ get_group
  delete_group-cases group s found =
      let own : group.id ≡ k = get-key k s.db.peer_groups group found in
      elim (Bool-cases (any (is_active_in k) s.db.gateways)) [
        | inl active ↦ inl (active, rw (found, own, active) refl)
        | inr idle ↦ inr (idle, rw (found, own, idle) refl, rw (found, own, idle) (removed_lem s))
      ]
