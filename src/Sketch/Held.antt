-- ===== src/Sketch/Held.antt =====
-- The sketch of a batch, as a supernode holds it: its fields, its words, and the sum of two.
use native.Mathlib.Nat.{pow-suc, one-le-pow}
use anon_graphzeppelin.Base.{
  ℕ, zero, suc, ◌+◌, ◌*◌, ◌^◌, ◌<◌, ◌≡◌, refl, sym, ap, subst, ◌∙◌, inl, inr, true, false, List, [],
  ◌∷◌, ◌++◌, bit_xor, replicate, arith, ltb, Bool-cases,
}
use anon_graphzeppelin.Bits.Xor.{bit_xor-lt-pow}
use anon_graphzeppelin.Stream.{Fits}
use anon_graphzeppelin.Bucket.{Hashing, get_index_depth, get_index_hash-lt}
use anon_graphzeppelin.Sketch.{
  Statics, Sketch, make, xor_at, update_bucket, column_seed, checksum_seed, last_bucket,
  update_column, update_columns, update, batch_update, last_is_zero, add_assign,
}
use anon_graphzeppelin.Sketch.Content.{SameOdd, batch_update-SameOdd}
use anon_graphzeppelin.Sketch.Order.{batch_update-append}
use anon_graphzeppelin.Sketch.Merge.{
  IsSized, IsSized-make, IsSized-batch_update, batch_update-seed, batch_update-queried,
  add_assign-delta_iff,
}
use anon_graphzeppelin.Sketch.Serial.Dense.{IsWords}

pow_256 : (k : ℕ) → 256 ^ k ≡ 2 ^ (8 * k)
pow_256 zero = refl
pow_256 (suc k) =
    let more : 8 * suc k ≡ suc (suc (suc (suc (suc (suc (suc (suc (8 * k)))))))) = omega arith in
    rw more (omega (arith, pow_256 k, pow-suc 256 k, double (8 * k)))
  where
    double : (m : ℕ) → 2 ^ suc (suc (suc (suc (suc (suc (suc (suc m))))))) ≡ 2 ^ m * 256
    double m = omega (arith, pow-suc 2 m)

bit_xor-fits : (k a b : ℕ) → a < 256 ^ k → b < 256 ^ k → bit_xor a b < 256 ^ k
bit_xor-fits k a b = rw (pow_256 k) (bit_xor-lt-pow (8 * k) a b)

Fits-xor_at : (k : ℕ) (xs : List ℕ) (i v : ℕ) → Fits k xs → v < 256 ^ k → Fits k (xor_at xs i v)
unfolding xor_at
Fits-xor_at k [] i v f p = tt
Fits-xor_at k (x ∷ xs) zero v f p = (bit_xor-fits k x v f.0 p, f.1)
Fits-xor_at k (x ∷ xs) (suc i) v f p = (f.0, unfold xor_at in Fits-xor_at k xs i v f.1 p)

Fits-replicate : (k left : ℕ) → 0 < 256 ^ k → Fits k (replicate left 0)
Fits-replicate k zero p = tt
Fits-replicate k (suc left) p = (p, Fits-replicate k left p)

-- Every index of a batch is a number of 64 bits.
abbrev pub AllIn : (ℕ → Type 0) → List ℕ → Type 0
AllIn P [] = Unit {0}
AllIn P (x ∷ xs) = P x × AllIn P xs

pub AllIn-append : (P : ℕ → Type 0) (l m : List ℕ) → AllIn P l → AllIn P m → AllIn P (l ++ m)
AllIn-append P [] m p q = q
AllIn-append P (x ∷ l) m p q = (p.0, AllIn-append P l m p.1 q)

module _ (h : Hashing) (st : Statics) where
  IsWords-update_bucket :
      (s : Sketch) (b v c : ℕ)
      → v < 2 ^ 64
      → c < 256 ^ h.hash_bytes
      → IsWords h s
      → IsWords h (update_bucket s b v c)
  unfolding update_bucket
  IsWords-update_bucket s b v c p q w = record {
    a_words = Fits-xor_at 8 s.bucket_a b v w.a_words (omega (arith, p));
    c_words = Fits-xor_at h.hash_bytes s.bucket_c b c w.c_words q;
  }

  module _ (v c : ℕ) (p : v < 2 ^ 64) (q : c < 256 ^ h.hash_bytes) where
    IsWords-update_column :
        (i : ℕ) (s : Sketch) → IsWords h s → IsWords h (update_column h st v c i s)
    unfolding update_column
    IsWords-update_column i s w =
        elim (Bool-cases
          (ltb (get_index_depth h v (column_seed s i) st.num_guesses) st.num_guesses)) [
            | inl e ↦ rw e (IsWords-update_bucket s _ v c p q w)
            | inr e ↦ rw e w
          ]

    IsWords-update_columns :
        (left i : ℕ) (s : Sketch) → IsWords h s → IsWords h (update_columns h st v c left i s)
    unfolding update_columns
    IsWords-update_columns zero i s w = w
    IsWords-update_columns (suc left) i s w =
        IsWords-update_columns left (i + 1) _ (IsWords-update_column i s w)

  IsWords-batch_update :
      (l : List ℕ) (s : Sketch)
      → AllIn (λ v. v < 2 ^ 64) l
      → IsWords h s
      → IsWords h (batch_update h st s l)
  unfolding batch_update update
  IsWords-batch_update [] s p w = w
  IsWords-batch_update (v ∷ l) s p w =
      let small = get_index_hash-lt h v (checksum_seed s) in
      IsWords-batch_update l _ p.1 (
        IsWords-update_columns v _ p.0 small st.num_columns 0 _
          (IsWords-update_bucket s (last_bucket st) v _ p.0 small w))

  IsWords-make : (seed : ℕ) → IsWords h (make st seed)
  unfolding make
  IsWords-make seed = record {
    a_words = Fits-replicate 8 st.num_elems (omega arith);
    c_words = Fits-replicate h.hash_bytes st.num_elems (one-le-pow h.hash_bytes 256 (omega arith));
  }

  module _ (sd : ℕ) where
    -- The sketch of a batch.
    abbrev pub held : List ℕ → Sketch
    held l = batch_update h st (make st sd) l

    pub held-seed : (l : List ℕ) → (held l).seed ≡ sd
    held-seed l = batch_update-seed h st (make st sd) l (IsSized-make st sd) ∙ unfold make in refl

    pub held-IsSized : (l : List ℕ) → IsSized st (held l)
    held-IsSized l = IsSized-batch_update h st (make st sd) l (IsSized-make st sd)

    pub held-fresh : (l : List ℕ) → (held l).already_queried ≡ false
    held-fresh l =
        batch_update-queried h st (make st sd) l (IsSized-make st sd) ∙ unfold make in refl

    pub held-IsWords : (l : List ℕ) → AllIn (λ v. v < 2 ^ 64) l → IsWords h (held l)
    held-IsWords l p = IsWords-batch_update l (make st sd) p (IsWords-make sd)

    -- The sum of two of them is that of both batches, where a deterministic bucket that is zero means
    -- that nothing is left of the second batch.
    pub add_assign-held :
        (l m : List ℕ)
        → (last_is_zero st (held m) ≡ true → SameOdd m [])
        → add_assign st (held l) (held m) ≡ held (l ++ m)
    unfolding batch_update
    add_assign-held l m none_left =
        ap (λ k. add_assign st (held l) (batch_update h st (make st k) m)) (sym (held-seed l))
        ∙ (add_assign-delta_iff h st (held l) m (held-IsSized l)).1 (
            subst
              (λ k.
                last_is_zero st (batch_update h st (make st k) m) ≡ true
                → batch_update h st (make st k) m ≡ make st k)
              (sym (held-seed l)) (λ e. batch_update-SameOdd h st (make st sd) m [] (none_left e)))
        ∙ sym (batch_update-append h st (make st sd) l m)
