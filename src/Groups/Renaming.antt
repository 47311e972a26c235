-- ===== src/Groups/Renaming.antt =====
-- How `rename_group` ends.
use deep_orc.Prelude.{
  Bool-cases, ◌==◌, nat_eq, any, Among, any-Among, Among-any, Text, text_beq_iff, text_eq, is_empty,
  strip, ℕ, ◌≡◌, refl, ◌≢◌, ◌⊎◌, inl, inr, true, false, not, ◌&&◌, some, List, [], ◌∷◌, arith,
}
use deep_orc.Models.{value_error, bad_name, group_exists, PeerGroup}
use deep_orc.Tables.{update, get-key, get-update_self, get-update_ne}
use deep_orc.Effects.{ok, err, ◌>>=◌}
use deep_orc.Database.{
  Database, gateway_keyed, job_keyed, peer_keyed, group_keyed, worker_keyed, enrollment_keyed,
  registration_keyed,
}
use deep_orc.Database.Groups.{get_group, rename_group_row}
use deep_orc.Session.{State, query, commit}
use deep_orc.Groups.{has_name, renamed, change_name, rename_group}

-- The group has the name, which no group had, the other groups and the gateways are as they were,
-- and everything is committed.
pub record IsRenamed {W : Type 0} (k : ℕ) (group : PeerGroup) (name : Text) (s t : State W)
    : Type 0 where
  pub free : (h : PeerGroup) → Among h s.db.peer_groups → h.name ≢ name
  pub changed : get_group k t.db ≡ some (record group { name = name })
  pub others : (j : ℕ) → j ≢ k → get_group j t.db ≡ get_group j s.db
  pub gateways_kept : t.db.gateways ≡ s.db.gateways
  pub all_saved : t.saved ≡ t.db

no_clash :
    (k : ℕ) (name : Text) (groups : List PeerGroup)
    → any (has_name name) groups ≡ false
    → any (λ g. g.name == name && not (g.id == k)) groups ≡ false
no_clash k name [] h = refl
no_clash k name (g ∷ groups) h = ground (arith, no_clash k name groups)

module _ {W : Type 0} (k : ℕ) (name : Text) (group : PeerGroup) where
  -- A group that is there is asked to take a name. A blank name and a name that a group has are
  -- refused by a ValueError, never by a constraint of the database, and nothing is written; the
  -- group's own name changes nothing. Any other name, without the spaces round it, becomes the
  -- group's name; the other groups and the gateways stay as they were, and that is committed.
  pub rename_group-cases :
      (s : State W)
      → get_group k s.db ≡ some group
      → ((is_empty (strip name) ≡ true) × (rename_group k name s ≡ (err (value_error bad_name), s)))
        ⊎ ((strip name ≡ group.name) × (rename_group k name s ≡ (ok group, s)))
        ⊎ ((h : PeerGroup) × Among h s.db.peer_groups
            × (h.name ≡ strip name)
            × (rename_group k name s ≡ (err (value_error group_exists), s)))
        ⊎ (((rename_group k name s).0 ≡ ok (record group { name = strip name }))
            × IsRenamed k group (strip name) s (rename_group k name s).1)
  unfolding rename_group change_name query commit get_group rename_group_row ◌>>=◌
  rename_group-cases s found =
      let own : group.id ≡ k = get-key k s.db.peer_groups group found in
      elim (Bool-cases (is_empty (strip name))) [
        | inl blank ↦ inl (blank, rw blank refl)
        | inr some_name ↦ elim (Bool-cases (strip name == group.name)) [
          | inl same ↦ inr (
              inl ((text_beq_iff (strip name) group.name).0 same, rw (some_name, found, same) refl))
          | inr other ↦ elim (Bool-cases (any (has_name (strip name)) s.db.peer_groups)) [
            | inl old ↦
                let (h, there, e) = any-Among (has_name (strip name)) s.db.peer_groups old in
                inr (
                  inr (
                    inl (
                      h,
                      there,
                      (text_beq_iff h.name (strip name)).0 e,
                      rw (some_name, found, other, old) refl,
                    )))
            | inr new ↦
                let fits = no_clash k (strip name) s.db.peer_groups new in
                let db : Database = record s.db {
                  peer_groups = update k (renamed (strip name)) s.db.peer_groups;
                } in
                let whole : rename_group k name s
                    ≡ (ok (renamed (strip name) group), record s { db = db; saved = db }) =
                  rw (some_name, found, other, new, own, fits) refl in
                inr (
                  inr (
                    inr (
                      rw whole refl,
                      rw whole (record {
                        free = λ h there e. cc (
                          new,
                          Among-any (has_name (strip name)) s.db.peer_groups h there
                              ((text_beq_iff h.name (strip name)).1 e),
                        );
                        changed =
                            get-update_self k (renamed (strip name)) s.db.peer_groups group
                              (λ g. refl) found;
                        others = λ j apart.
                            get-update_ne k j (renamed (strip name)) s.db.peer_groups (λ g. refl)
                              apart;
                        gateways_kept = refl;
                        all_saved = refl;
                      }),
                    )))
          ]
        ]
      ]
