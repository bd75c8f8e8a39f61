-- ===== src/Sketch/LastBucket.antt =====
-- The deterministic bucket: the exclusive or of all indices, and of all checksums, of the stream.
use anon_graphzeppelin.Base.{
  ℕ, zero, suc, ◌+◌, ◌*◌, ◌^◌, ◌<◌, ◌≤◌, bit_xor, ◌≡◌, ◌≢◌, refl, ap, ◌∙◌, List, [], ◌∷◌,
  Bool-cases, inl, inr, ltb, u64, arith, ltb→lt,
}
use anon_graphzeppelin.Bucket.{Hashing, get_index_depth, get_index_hash}
use anon_graphzeppelin.Sketch.{
  Statics, Sketch, configure, update_bucket, column_seed, checksum_seed, last_bucket, update_column,
  update_columns, update, batch_update, a_at, c_at,
}
use anon_graphzeppelin.Sketch.Arrays.{get_or-xor_at_self, get_or-xor_at_ne}
use anon_graphzeppelin.Sketch.Order.{update-seed}
use anon_graphzeppelin.Sketch.Merge.{IsSized, IsSized-update}

-- The sizes fit together, and bucket indices fit 32 bits.
pub record IsConfigured (st : Statics) : Type 0 where
  pub elems : st.num_elems ≡ st.num_columns * st.num_guesses + 1
  pub narrow : st.num_elems ≤ 2 ^ 32

-- `configure` sets sizes that fit together unless their product overflows.
pub configure-IsConfigured :
    (column_gen guess_gen : ℕ → ℕ) (n factor : ℕ)
    → column_gen factor * guess_gen n < 2 ^ 32
    → IsConfigured (configure column_gen guess_gen n factor)
unfolding configure
configure-IsConfigured column_gen guess_gen n factor small = record {
  elems = omega arith;
  narrow = omega arith;
}

-- Both words of a bucket.
abbrev pub Holds : ℕ → Sketch → ℕ → ℕ → Type 0
Holds b s a c = (a_at s b ≡ a) × (c_at s b ≡ c)

update_bucket_self :
    (st : Statics) (s : Sketch) (b v c : ℕ)
    → IsSized st s
    → b < st.num_elems
    → Holds b (update_bucket s b v c) (bit_xor (a_at s b) v) (bit_xor (c_at s b) c)
unfolding update_bucket a_at c_at
update_bucket_self st s b v c p h = (
  get_or-xor_at_self s.bucket_a b v (omega (arith, p.a_size)),
  get_or-xor_at_self s.bucket_c b c (omega (arith, p.c_size)),
)

update_bucket-ne :
    (s : Sketch) (b b' v c : ℕ) → b ≢ b' → Holds b' (update_bucket s b v c) (a_at s b') (c_at s b')
unfolding update_bucket a_at c_at
update_bucket-ne s b b' v c ne =
    (get_or-xor_at_ne s.bucket_a b b' v ne, get_or-xor_at_ne s.bucket_c b b' c ne)

-- `i * columns + j` indexes a table.
pub index-lt : (i j rows columns : ℕ) → i < rows → j < columns → i * columns + j < rows * columns
index-lt i j rows columns p q = grind arith

-- The sum without carry of a list, on top of a value.
abbrev pub xor_all : (ℕ → ℕ) → ℕ → List ℕ → ℕ
xor_all f acc [] = acc
xor_all f acc (x ∷ xs) = xor_all f (bit_xor acc (f x)) xs

module _ (h : Hashing) (st : Statics) (conf : IsConfigured st) where
  -- The buckets of the columns lie below the deterministic bucket.
  column_below :
      (i depth : ℕ)
      → i < st.num_columns
      → depth < st.num_guesses
      → u64 (i * st.num_guesses + depth) ≢ last_bucket st
  unfolding last_bucket
  column_below i depth p q =
      omega (arith, index-lt i depth st.num_columns st.num_guesses p q, conf.elems, conf.narrow)

  update_column-last :
      (s : Sketch) (idx chk i : ℕ)
      → i < st.num_columns
      → Holds
          (last_bucket st)
          (update_column h st idx chk i s)
          (a_at s (last_bucket st))
          (c_at s (last_bucket st))
  unfolding update_column
  update_column-last s idx chk i p =
      elim (Bool-cases
        (ltb (get_index_depth h idx (column_seed s i) st.num_guesses) st.num_guesses)) [
          | inl e ↦
              rw e
                (update_bucket-ne s _ (last_bucket st) idx chk (column_below i _ p (ltb→lt _ _ e)))
          | inr e ↦ rw e (refl, refl)
        ]

  update_columns-last :
      (idx chk left i : ℕ) (s : Sketch)
      → i + left ≡ st.num_columns
      → Holds
          (last_bucket st)
          (update_columns h st idx chk left i s)
          (a_at s (last_bucket st))
          (c_at s (last_bucket st))
  unfolding update_columns
  update_columns-last idx chk zero i s e = (refl, refl)
  update_columns-last idx chk (suc left) i s e =
      let rest =
        update_columns-last idx chk left (i + 1) (update_column h st idx chk i s) (omega arith) in
      let here = update_column-last s idx chk i (omega arith) in (rest.0 ∙ here.0, rest.1 ∙ here.1)

  pub last_bucket-lt : last_bucket st < st.num_elems
  unfolding last_bucket
  last_bucket-lt = omega (arith, conf.elems)

  -- One update adds its index and its checksum to the deterministic bucket.
  pub update-last :
      (s : Sketch) (idx : ℕ)
      → IsSized st s
      → Holds
          (last_bucket st)
          (update h st s idx)
          (bit_xor (a_at s (last_bucket st)) idx)
          (bit_xor (c_at s (last_bucket st)) (get_index_hash h idx s.seed))
  unfolding update checksum_seed
  update-last s idx p =
      let columns = update_columns-last idx _ st.num_columns 0 _ (omega arith) in
      let bucket =
        update_bucket_self st s (last_bucket st) idx (get_index_hash h idx s.seed) p
          last_bucket-lt in
      (columns.0 ∙ bucket.0, columns.1 ∙ bucket.1)

  -- The deterministic bucket holds the sum without carry of all the indices of the stream, and of
  -- all their checksums.
  pub batch_update-last :
      (s : Sketch) (l : List ℕ)
      → IsSized st s
      → Holds
          (last_bucket st)
          (batch_update h st s l)
          (xor_all (λ x. x) (a_at s (last_bucket st)) l)
          (xor_all (λ x. get_index_hash h x s.seed) (c_at s (last_bucket st)) l)
  unfolding batch_update
  batch_update-last s [] p = (refl, refl)
  batch_update-last s (x ∷ l) p =
      let rest = batch_update-last (update h st s x) l (IsSized-update h st s x p) in
      let here = update-last s x p in
      (
        rest.0 ∙ ap (λ a. xor_all (λ y. y) a l) here.0,
        rest.1
            ∙ ap
                (λ sd.
                  xor_all (λ y. get_index_hash h y sd) (c_at (update h st s x) (last_bucket st)) l)
                (update-seed h st s x)
            ∙ ap (λ c. xor_all (λ y. get_index_hash h y s.seed) c l) here.1,
      )
