-- ===== src/Sketch/Natural.antt =====
-- A map of sketches that keeps the seed and respects the update of one bucket respects `update`
-- and `batch_update`. The laws of the sketch are instances of this one induction.
use anon_graphzeppelin.Base.{
  ℕ, zero, suc, ◌+◌, ◌≡◌, refl, ap, ◌∙◌, List, [], ◌∷◌, Bool-cases, inl, inr, ltb, u64, ◌*◌,
}
use anon_graphzeppelin.Bucket.{Hashing, get_index_depth}
use anon_graphzeppelin.Sketch.{
  Statics, Sketch, update_bucket, column_seed, checksum_seed, update_column, update_columns, update,
  batch_update,
}

-- A property that the update of a bucket keeps.
abbrev pub Kept : (Sketch → Type 0) → Type 0
Kept P = (s : Sketch) (b v c : ℕ) → P s → P (update_bucket s b v c)

module _ (h : Hashing) (st : Statics) (P : Sketch → Type 0) (keep : Kept P) where
  pub update_column-keep : (idx chk i : ℕ) (s : Sketch) → P s → P (update_column h st idx chk i s)
  unfolding update_column
  update_column-keep idx chk i s p =
      elim (Bool-cases
        (ltb (get_index_depth h idx (column_seed s i) st.num_guesses) st.num_guesses)) [
          | inl e ↦ rw e (keep s _ _ _ p)
          | inr e ↦ rw e p
        ]

  pub update_columns-keep :
      (idx chk left i : ℕ) (s : Sketch) → P s → P (update_columns h st idx chk left i s)
  unfolding update_columns
  update_columns-keep idx chk zero i s p = p
  update_columns-keep idx chk (suc left) i s p =
      update_columns-keep idx chk left (i + 1) _ (update_column-keep idx chk i s p)

  pub update-keep : (s : Sketch) (idx : ℕ) → P s → P (update h st s idx)
  unfolding update
  update-keep s idx p = update_columns-keep idx _ st.num_columns 0 _ (keep s _ _ _ p)

  pub batch_update-keep : (s : Sketch) (idxs : List ℕ) → P s → P (batch_update h st s idxs)
  unfolding batch_update
  batch_update-keep s [] p = p
  batch_update-keep s (idx ∷ idxs) p =
      batch_update-keep (update h st s idx) idxs (update-keep s idx p)

module _ (h : Hashing) (st : Statics) (P : Sketch → Type 0) (keep : Kept P) (F : Sketch → Sketch)
    (same_seed : (s : Sketch) → P s → (F s).seed ≡ s.seed)
    (respects : (s : Sketch) (b v c : ℕ)
      → P s
      → F (update_bucket s b v c) ≡ update_bucket (F s) b v c) where
  pub update_column-natural :
      (idx chk i : ℕ) (s : Sketch)
      → P s
      → F (update_column h st idx chk i s) ≡ update_column h st idx chk i (F s)
  unfolding update_column column_seed
  update_column-natural idx chk i s p =
      simp (same_seed s p)
        (elim (Bool-cases
          (ltb (get_index_depth h idx (u64 (s.seed + i * 5)) st.num_guesses) st.num_guesses)) [
            | inl e ↦ rw e (respects s _ _ _ p)
            | inr e ↦ rw e refl
          ])

  pub update_columns-natural :
      (idx chk left i : ℕ) (s : Sketch)
      → P s
      → F (update_columns h st idx chk left i s) ≡ update_columns h st idx chk left i (F s)
  unfolding update_columns
  update_columns-natural idx chk zero i s p = refl
  update_columns-natural idx chk (suc left) i s p =
      update_columns-natural idx chk left (i + 1) _ (update_column-keep h st P keep idx chk i s p)
      ∙ ap (update_columns h st idx chk left (i + 1)) (update_column-natural idx chk i s p)

  pub update-natural : (s : Sketch) (idx : ℕ) → P s → F (update h st s idx) ≡ update h st (F s) idx
  unfolding update checksum_seed
  update-natural s idx p = simp (same_seed s p) (
      update_columns-natural idx _ st.num_columns 0 _ (keep s _ _ _ p)
      ∙ ap (update_columns h st idx _ st.num_columns 0) (respects s _ _ _ p))

  pub batch_update-natural :
      (s : Sketch) (idxs : List ℕ)
      → P s
      → F (batch_update h st s idxs) ≡ batch_update h st (F s) idxs
  unfolding batch_update
  batch_update-natural s [] p = refl
  batch_update-natural s (idx ∷ idxs) p =
      batch_update-natural (update h st s idx) idxs (update-keep h st P keep s idx p)
      ∙ ap (λ t. batch_update h st t idxs) (update-natural s idx p)
