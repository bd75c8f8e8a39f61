-- ===== src/Sketch/Merge.antt =====
-- `operator+=`: adding a sketch of a batch to a sketch applies the batch, which is how a graph
-- worker's delta reaches a supernode and how the supernodes of a component are merged.
use anon_graphzeppelin.Base.{
  ℕ, ◌≡◌, refl, ap, sym, ◌∙◌, Bool, true, false, ◌||◌, List, ◌↔◌, Bool-cases, inl, inr, length,
  replicate, arith, length-replicate,
}
use anon_graphzeppelin.Bucket.{Hashing}
use anon_graphzeppelin.Sketch.{
  Statics, Sketch, update_bucket, update, batch_update, make, last_is_zero, add_buckets, add_assign,
}
use anon_graphzeppelin.Sketch.Arrays.{
  length-xor_at, xor_arrays-xor_at, xor_arrays-replicate, xor_arrays-fixed,
}
use anon_graphzeppelin.Sketch.Natural.{update-keep, batch_update-keep, batch_update-natural}

-- A sketch whose arrays have the length that `configure` computed.
pub record IsSized (st : Statics) (s : Sketch) : Type 0 where
  pub a_size : length s.bucket_a ≡ st.num_elems
  pub c_size : length s.bucket_c ≡ st.num_elems

pub IsSized-update_bucket :
    (st : Statics) (s : Sketch) (b v c : ℕ) → IsSized st s → IsSized st (update_bucket s b v c)
unfolding update_bucket
IsSized-update_bucket st s b v c p = record {
  a_size = length-xor_at s.bucket_a b v ∙ p.a_size;
  c_size = length-xor_at s.bucket_c b c ∙ p.c_size;
}

pub IsSized-make : (st : Statics) (seed : ℕ) → IsSized st (make st seed)
unfolding make
IsSized-make st seed = record {
  a_size = length-replicate st.num_elems 0;
  c_size = length-replicate st.num_elems 0;
}

or_false : (b : Bool) → (b || false) ≡ b
or_false b = ground arith

same_flag :
    (s : Sketch) (flag : Bool)
    → flag ≡ false
    → record s { already_queried = s.already_queried || flag } ≡ s
same_flag s flag e = λ i. record s {
  already_queried = (ap (λ f. s.already_queried || f) e ∙ or_false s.already_queried) i;
}

pub add_assign_skips :
    (st : Statics) (s t : Sketch)
    → last_is_zero st t ≡ true
    → t.already_queried ≡ false
    → add_assign st s t ≡ s
unfolding add_assign
add_assign_skips st s t e f = rw e (same_flag s t.already_queried f)

pub add_assign_adds :
    (st : Statics) (s t : Sketch)
    → last_is_zero st t ≡ false
    → t.already_queried ≡ false
    → add_assign st s t ≡ add_buckets s t
unfolding add_assign
add_assign_adds st s t e f = rw e (ap (λ u. add_buckets u t) (same_flag s t.already_queried f))

-- A sketch whose addition changes nothing is the empty sketch.
zero_of_fixed :
    (st : Statics) (s t : Sketch)
    → IsSized st s
    → IsSized st t
    → t.seed ≡ s.seed
    → t.already_queried ≡ false
    → add_buckets s t ≡ s
    → t ≡ make st s.seed
unfolding add_buckets make
zero_of_fixed st s t p q e f fixed = λ i. record {
  seed = e i;
  bucket_a = (a_zero ∙ ap (λ n. replicate n 0) q.a_size) i;
  bucket_c = (c_zero ∙ ap (λ n. replicate n 0) q.c_size) i;
  already_queried = f i;
}
  where
    a_zero : t.bucket_a ≡ replicate (length t.bucket_a) 0
    a_zero =
        xor_arrays-fixed s.bucket_a t.bucket_a (p.a_size ∙ sym q.a_size)
          (ap (λ u. u.bucket_a) fixed)

    c_zero : t.bucket_c ≡ replicate (length t.bucket_c) 0
    c_zero =
        xor_arrays-fixed s.bucket_c t.bucket_c (p.c_size ∙ sym q.c_size)
          (ap (λ u. u.bucket_c) fixed)

module _ (h : Hashing) (st : Statics) where
  pub IsSized-update : (s : Sketch) (idx : ℕ) → IsSized st s → IsSized st (update h st s idx)
  IsSized-update s idx p = update-keep h st (IsSized st) (IsSized-update_bucket st) s idx p

  pub IsSized-batch_update :
      (s : Sketch) (l : List ℕ) → IsSized st s → IsSized st (batch_update h st s l)
  IsSized-batch_update s l p = batch_update-keep h st (IsSized st) (IsSized-update_bucket st) s l p

  -- The fields that no update changes.
  record Fresh (sd : ℕ) (flag : Bool) (s : Sketch) : Type 0 where
    seeded : s.seed ≡ sd
    queried : s.already_queried ≡ flag
    sized : IsSized st s

  Fresh-update_bucket :
      (sd : ℕ) (flag : Bool) (s : Sketch) (b v c : ℕ)
      → Fresh sd flag s
      → Fresh sd flag (update_bucket s b v c)
  unfolding update_bucket
  Fresh-update_bucket sd flag s b v c p = record {
    seeded = p.seeded;
    queried = p.queried;
    sized = unfold update_bucket in IsSized-update_bucket st s b v c p.sized;
  }

  Fresh-batch_update :
      (sd : ℕ) (flag : Bool) (s : Sketch) (l : List ℕ)
      → Fresh sd flag s
      → Fresh sd flag (batch_update h st s l)
  Fresh-batch_update sd flag s l p =
      batch_update-keep h st (Fresh sd flag) (Fresh-update_bucket sd flag) s l p

  Fresh-make : (seed : ℕ) → Fresh seed false (make st seed)
  unfolding make
  Fresh-make seed = record { seeded = refl; queried = refl; sized = IsSized-make st seed }

  pub batch_update-queried :
      (s : Sketch) (l : List ℕ)
      → IsSized st s
      → (batch_update h st s l).already_queried ≡ s.already_queried
  batch_update-queried s l z =
      (Fresh-batch_update s.seed s.already_queried s l
        (record { seeded = refl; queried = refl; sized = z })).queried

  pub batch_update-seed :
      (s : Sketch) (l : List ℕ) → IsSized st s → (batch_update h st s l).seed ≡ s.seed
  batch_update-seed s l z =
      (Fresh-batch_update s.seed s.already_queried s l
        (record { seeded = refl; queried = refl; sized = z })).seeded

  add_buckets-update_bucket :
      (s t : Sketch) (b v c : ℕ)
      → IsSized st s
      → IsSized st t
      → add_buckets s (update_bucket t b v c) ≡ update_bucket (add_buckets s t) b v c
  unfolding add_buckets update_bucket
  add_buckets-update_bucket s t b v c p q = λ i. record s {
    bucket_a = xor_arrays-xor_at s.bucket_a t.bucket_a b v (p.a_size ∙ sym q.a_size) i;
    bucket_c = xor_arrays-xor_at s.bucket_c t.bucket_c b c (p.c_size ∙ sym q.c_size) i;
  }

  -- Adding the sketch of a longer batch: the rest of the batch may be applied after the addition.
  pub add_buckets-batch_update :
      (s t : Sketch) (l : List ℕ)
      → IsSized st s
      → IsSized st t
      → s.seed ≡ t.seed
      → add_buckets s (batch_update h st t l) ≡ batch_update h st (add_buckets s t) l
  unfolding add_buckets
  add_buckets-batch_update s t l p q e =
      batch_update-natural h st (Fresh t.seed t.already_queried)
        (Fresh-update_bucket t.seed t.already_queried) (add_buckets s) (λ u f. e ∙ sym f.seeded)
        (λ u b v c f. unfold add_buckets in add_buckets-update_bucket s u b v c p f.sized) t l
        (record { seeded = refl; queried = refl; sized = q })

  pub add_buckets-make : (s : Sketch) (seed : ℕ) → add_buckets s (make st seed) ≡ s
  unfolding add_buckets make
  add_buckets-make s seed = λ i. record s {
    bucket_a = xor_arrays-replicate st.num_elems s.bucket_a i;
    bucket_c = xor_arrays-replicate st.num_elems s.bucket_c i;
  }

  -- The sketch of a batch, added bucket by bucket, is the batch applied.
  pub add_buckets-delta :
      (s : Sketch) (l : List ℕ)
      → IsSized st s
      → add_buckets s (batch_update h st (make st s.seed) l) ≡ batch_update h st s l
  add_buckets-delta s l p =
      add_buckets-batch_update s (make st s.seed) l p (IsSized-make st s.seed) (unfold make in refl)
      ∙ ap (λ t. batch_update h st t l) (add_buckets-make s s.seed)

  module _ (s : Sketch) (l : List ℕ) (p : IsSized st s) where
    abbrev delta : Sketch
    delta = batch_update h st (make st s.seed) l

    delta-Fresh : Fresh s.seed false delta
    delta-Fresh = Fresh-batch_update s.seed false (make st s.seed) l (Fresh-make s.seed)

    delta-add : add_buckets s delta ≡ batch_update h st s l
    delta-add = add_buckets-delta s l p

    applied_of_no_collision :
        (last_is_zero st delta ≡ true → delta ≡ make st s.seed)
        → add_assign st s delta ≡ batch_update h st s l
    applied_of_no_collision no_collision = elim (Bool-cases (last_is_zero st delta)) [
      | inl e ↦
          add_assign_skips st s delta e delta-Fresh.queried
          ∙ sym (add_buckets-make s s.seed)
          ∙ ap (add_buckets s) (sym (no_collision e))
          ∙ delta-add
      | inr e ↦ add_assign_adds st s delta e delta-Fresh.queried ∙ delta-add
    ]

    no_collision_of_applied :
        add_assign st s delta ≡ batch_update h st s l
        → last_is_zero st delta ≡ true
        → delta ≡ make st s.seed
    no_collision_of_applied applied e =
        zero_of_fixed st s delta p delta-Fresh.sized delta-Fresh.seeded delta-Fresh.queried
          (delta-add ∙ sym applied ∙ add_assign_skips st s delta e delta-Fresh.queried)

  -- Adding the sketch of a batch with `operator+=` applies the batch exactly when the test of the
  -- deterministic bucket does not err: if that bucket is zero, the whole sketch is.
  pub add_assign-delta_iff :
      (s : Sketch) (l : List ℕ)
      → IsSized st s
      → (add_assign st s (batch_update h st (make st s.seed) l) ≡ batch_update h st s l) ↔ (
          last_is_zero st (batch_update h st (make st s.seed) l) ≡ true
          → batch_update h st (make st s.seed) l ≡ make st s.seed)
  add_assign-delta_iff s l p = (no_collision_of_applied s l p, applied_of_no_collision s l p)

-- A sum is marked as queried if one of the two was.
pub add_assign-queried :
    (st : Statics) (s t : Sketch)
    → (add_assign st s t).already_queried ≡ (s.already_queried || t.already_queried)
unfolding add_assign add_buckets
add_assign-queried st s t = ground arith
