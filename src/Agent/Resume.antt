-- ===== src/Agent/Resume.antt =====
-- Which rules a peer's resumption deletes.
use deep_orc.Prelude.{
  Bool-cases, nat_eq, all, Text, codes, text_eq, strip, contains_text, split_words, split_lines,
  last_word, contains_text-append, ◌≡◌, refl, ap, ◌∙◌, inl, inr, true, false, not, ◌&&◌, some, List,
  [], ◌∷◌, ◌++◌,
}
use deep_orc.Effects.{ok, require, ◌>>=◌, ◌>>◌}
use deep_orc.Agent.{
  Processes, is_drop_of, run_nft, delete_handle, delete_rules, list_chain, resume_peer_ip,
}

module _ {W : Type 0} (processes : Processes W) (table : Text) where
  delete_rules-first :
      (peer_ip line nft_handle : Text) (lines : List Text) (w : W)
      → is_drop_of peer_ip line ≡ true
      → last_word (split_words (strip line)) ≡ some nft_handle
      → delete_rules processes table peer_ip (line ∷ lines) w
        ≡ (run_nft processes table (delete_handle processes table nft_handle)
              >> delete_rules processes table peer_ip lines)
            w
  unfolding delete_rules ◌>>=◌ require
  delete_rules-first peer_ip line nft_handle lines w drops ends =
      rw (delete_rules, drops, ends) refl

  delete_rules-skip :
      (peer_ip : Text) (earlier lines : List Text)
      → all (λ l. not (is_drop_of peer_ip l)) earlier ≡ true
      → delete_rules processes table peer_ip (earlier ++ lines)
        ≡ delete_rules processes table peer_ip lines
  unfolding delete_rules
  delete_rules-skip peer_ip [] lines h = refl
  delete_rules-skip peer_ip (line ∷ earlier) lines h = elim (Bool-cases (is_drop_of peer_ip line)) [
    | inl drops ↦ let never : false ≡ true = rw drops at h in cc
    | inr other ↦ rw (delete_rules, other) (delete_rules-skip peer_ip earlier lines (rw other at h))
  ]

  -- Resuming a peer also deletes the rule of a peer whose address only begins with its own: if the
  -- listing succeeds and has such a rule on a line, whose last word is its handle, and no line
  -- before it contains both the address and `drop`, then that rule is deleted by its handle
  -- before the later lines are read.
  pub resume_peer_ip-longer :
      (peer_ip before rest nft_handle stdout : Text) (earlier lines : List Text) (w v : W)
      → processes.run (list_chain processes table) w
        ≡ (ok (record { returncode = 0; stdout = stdout }), v)
      → split_lines stdout ≡ earlier ++ (before ++ (peer_ip ++ rest)) ∷ lines
      → all (λ l. not (is_drop_of peer_ip l)) earlier ≡ true
      → contains_text (codes "drop") (before ++ (peer_ip ++ rest)) ≡ true
      → last_word (split_words (strip (before ++ (peer_ip ++ rest)))) ≡ some nft_handle
      → resume_peer_ip processes table peer_ip w
        ≡ (run_nft processes table (delete_handle processes table nft_handle)
              >> delete_rules processes table peer_ip lines)
            v
  unfolding resume_peer_ip is_drop_of ◌>>=◌
  resume_peer_ip-longer peer_ip before rest nft_handle stdout earlier lines w v listed read others
        drops ends =
      let line : Text = before ++ (peer_ip ++ rest) in
      let dropped : is_drop_of peer_ip line ≡ true =
        ap (λ b. b && contains_text (codes "drop") line) (contains_text-append before peer_ip rest)
        ∙ drops in
      rw (listed, read)
        (ap (λ m. m v) (delete_rules-skip peer_ip earlier (line ∷ lines) others)
          ∙ delete_rules-first peer_ip line nft_handle lines v dropped ends)
