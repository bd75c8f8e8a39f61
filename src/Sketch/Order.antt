-- ===== src/Sketch/Order.antt =====
-- A sketch does not depend on the order of its updates, and an update made twice is as if it was
-- not made: an edge that is inserted and deleted leaves no trace.
use anon_graphzeppelin.Base.{
  ℕ, zero, suc, ◌+◌, ◌≡◌, refl, ap, ap₂, sym, ◌∙◌, List, [], ◌∷◌, ◌++◌, Bool-cases, inl, inr, ltb,
}
use mathlib.Core.Logic.{∥∥₁_elim}
use mathlib.Core.List.{Perm, Permᴰ}
use anon_graphzeppelin.Bucket.{Hashing, get_index_depth, get_index_hash}
use anon_graphzeppelin.Sketch.{
  Statics, Sketch, update_bucket, column_seed, checksum_seed, last_bucket, update_column,
  update_columns, update, batch_update,
}
use anon_graphzeppelin.Sketch.Arrays.{xor_at_comm, xor_at_cancel}
use anon_graphzeppelin.Sketch.Natural.{
  update_column-natural, update_columns-natural, update-natural, update_column-keep, update-keep,
}

pub Sketch-set : IsSet Sketch
Sketch-set = hlevel

pub update_bucket_comm :
    (s : Sketch) (b b' v v' c c' : ℕ)
    → update_bucket (update_bucket s b v c) b' v' c'
      ≡ update_bucket (update_bucket s b' v' c') b v c
unfolding update_bucket
update_bucket_comm s b b' v v' c c' = λ i. record s {
  bucket_a = xor_at_comm s.bucket_a b b' v v' i;
  bucket_c = xor_at_comm s.bucket_c b b' c c' i;
}

pub update_bucket_cancel :
    (s : Sketch) (b v c : ℕ) → update_bucket (update_bucket s b v c) b v c ≡ s
unfolding update_bucket
update_bucket_cancel s b v c = λ i. record s {
  bucket_a = xor_at_cancel s.bucket_a b v i;
  bucket_c = xor_at_cancel s.bucket_c b c i;
}

update_bucket-seed : (s : Sketch) (b v c : ℕ) → (update_bucket s b v c).seed ≡ s.seed
unfolding update_bucket
update_bucket-seed s b v c = refl

module _ (h : Hashing) (st : Statics) where
  abbrev SameSeed : ℕ → Sketch → Type 0
  SameSeed sd s = s.seed ≡ sd

  pub update-seed : (s : Sketch) (idx : ℕ) → (update h st s idx).seed ≡ s.seed
  update-seed s idx =
      update-keep h st (SameSeed s.seed) (λ t b v c e. update_bucket-seed t b v c ∙ e) s idx refl

  pub update-update_bucket :
      (s : Sketch) (idx b v c : ℕ)
      → update h st (update_bucket s b v c) idx ≡ update_bucket (update h st s idx) b v c
  update-update_bucket s idx b v c = sym (
      update-natural h st (λ _. Unit {0}) (λ _ _ _ _ _. tt) (λ t. update_bucket t b v c)
        (λ t _. update_bucket-seed t b v c) (λ t b' v' c' _. update_bucket_comm t b' b v' v c' c) s
        idx tt)

  pub update_comm :
      (s : Sketch) (idx jdx : ℕ)
      → update h st (update h st s idx) jdx ≡ update h st (update h st s jdx) idx
  update_comm s idx jdx =
      update-natural h st (λ _. Unit {0}) (λ _ _ _ _ _. tt) (λ t. update h st t jdx)
        (λ t _. update-seed t jdx) (λ t b v c _. update-update_bucket t jdx b v c) s idx tt

  update_column_cancel :
      (s : Sketch) (idx chk i : ℕ)
      → update_column h st idx chk i (update_column h st idx chk i s) ≡ s
  unfolding update_column update_bucket column_seed
  update_column_cancel s idx chk i =
      elim (Bool-cases
        (ltb (get_index_depth h idx (column_seed s i) st.num_guesses) st.num_guesses)) [
          | inl e ↦ simp e (update_bucket_cancel s _ idx chk)
          | inr e ↦ simp e
        ]

  update_column-seed : (s : Sketch) (idx chk i : ℕ) → (update_column h st idx chk i s).seed ≡ s.seed
  update_column-seed s idx chk i =
      update_column-keep h st (SameSeed s.seed) (λ t b v c e. update_bucket-seed t b v c ∙ e) idx
        chk i s refl

  -- The loop commutes with the body at any column.
  update_columns-update_column :
      (s : Sketch) (idx chk jdx chk' left i j : ℕ)
      → update_column h st jdx chk' j (update_columns h st idx chk left i s)
        ≡ update_columns h st idx chk left i (update_column h st jdx chk' j s)
  update_columns-update_column s idx chk jdx chk' left i j =
      update_columns-natural h st (λ _. Unit {0}) (λ _ _ _ _ _. tt) (update_column h st jdx chk' j)
        (λ t _. update_column-seed t jdx chk' j)
        (λ t b v c _. sym (
          update_column-natural h st (λ _. Unit {0}) (λ _ _ _ _ _. tt) (λ u. update_bucket u b v c)
            (λ u _. update_bucket-seed u b v c)
            (λ u b' v' c' _. update_bucket_comm u b' b v' v c' c) jdx chk' j t tt))
        idx chk left i s tt

  update_columns_cancel :
      (idx chk left i : ℕ) (s : Sketch)
      → update_columns h st idx chk left i (update_columns h st idx chk left i s) ≡ s
  unfolding update_columns
  update_columns_cancel idx chk zero i s = refl
  update_columns_cancel idx chk (suc left) i s =
      ap (update_columns h st idx chk left (i + 1))
        (update_columns-update_column _ idx chk idx chk left (i + 1) i)
      ∙ update_columns_cancel idx chk left (i + 1) _
      ∙ update_column_cancel s idx chk i

  -- `update` for a checksum that is given.
  update_with : ℕ → Sketch → ℕ → Sketch
  update_with chk s idx =
      update_columns h st idx chk st.num_columns 0 (update_bucket s (last_bucket st) idx chk)

  update_with_cancel :
      (chk : ℕ) (s : Sketch) (idx : ℕ) → update_with chk (update_with chk s idx) idx ≡ s
  unfolding update_with
  update_with_cancel chk s idx =
      ap (update_columns h st idx chk st.num_columns 0) (
        update_columns-natural h st (λ _. Unit {0}) (λ _ _ _ _ _. tt)
          (λ t. update_bucket t (last_bucket st) idx chk)
          (λ t _. update_bucket-seed t (last_bucket st) idx chk)
          (λ t b v c _. update_bucket_comm t b (last_bucket st) v idx c chk) idx chk st.num_columns
          0 _ tt)
      ∙ update_columns_cancel idx chk st.num_columns 0 _
      ∙ update_bucket_cancel s (last_bucket st) idx chk

  pub update_cancel : (s : Sketch) (idx : ℕ) → update h st (update h st s idx) idx ≡ s
  unfolding update update_with checksum_seed
  update_cancel s idx =
      ap (λ sd. update_with (get_index_hash h idx sd) (update h st s idx) idx) (update-seed s idx)
      ∙ update_with_cancel (get_index_hash h idx s.seed) s idx

  batch_update-permᴰ :
      {l l' : List ℕ} → Permᴰ l l' → (s : Sketch) → batch_update h st s l ≡ batch_update h st s l'
  unfolding batch_update
  batch_update-permᴰ Permᴰ.nil s = refl
  batch_update-permᴰ (Permᴰ.cons {a} {b} {l₁} {l₂} e p) s =
      batch_update-permᴰ p _ ∙ ap (λ x. batch_update h st (update h st s x) l₂) e
  batch_update-permᴰ (Permᴰ.swap {a} {b} {l} e f) s =
      ap (λ t. batch_update h st t l) (update_comm s a b)
      ∙ ap₂ (λ x y. batch_update h st (update h st (update h st s x) y) l) f e
  batch_update-permᴰ (Permᴰ.trans p q) s = batch_update-permᴰ p s ∙ batch_update-permᴰ q s

  -- Two batches that hold the same updates, in any order, give the same sketch.
  pub batch_update-perm :
      (s : Sketch) {l l' : List ℕ} → Perm l l' → batch_update h st s l ≡ batch_update h st s l'
  batch_update-perm s {l} {l'} p = ∥∥₁_elim p (Sketch-set _ _) (λ q. batch_update-permᴰ q s)

  pub batch_update-append :
      (s : Sketch) (l l' : List ℕ)
      → batch_update h st s (l ++ l') ≡ batch_update h st (batch_update h st s l) l'
  unfolding batch_update
  batch_update-append s [] l' = refl
  batch_update-append s (x ∷ l) l' = batch_update-append (update h st s x) l l'

  pub batch_update-update :
      (s : Sketch) (l : List ℕ) (idx : ℕ)
      → update h st (batch_update h st s l) idx ≡ batch_update h st (update h st s idx) l
  unfolding batch_update
  batch_update-update s [] idx = refl
  batch_update-update s (x ∷ l) idx =
      batch_update-update (update h st s x) l idx
      ∙ ap (λ t. batch_update h st t l) (update_comm s x idx)

  -- A batch that is applied twice cancels.
  pub batch_update_cancel :
      (s : Sketch) (l : List ℕ) → batch_update h st (batch_update h st s l) l ≡ s
  unfolding batch_update
  batch_update_cancel s [] = refl
  batch_update_cancel s (x ∷ l) =
      ap (λ t. batch_update h st t l) (batch_update-update (update h st s x) l x)
      ∙ ap (λ t. batch_update h st (batch_update h st t l) l) (update_cancel s x)
      ∙ batch_update_cancel s l
