-- ===== src/Sketch/Query/Recovery.antt =====
-- End to end: from a stream of updates to the answer of a query.
use mathlib.Core.List.{Perm}
use anon_graphzeppelin.Base.{
  ℕ, bit_xor, ◌≡◌, refl, ap, ap₂, sym, ◌∙◌, true, false, List, ◌∷◌, ◌++◌, Option, none, some, arith,
  ok, throw, multiple_query, get_or-replicate,
}
use anon_graphzeppelin.Bits.Xor.{zero-bit_xor}
use anon_graphzeppelin.Types.{SampleSketchRet}
use anon_graphzeppelin.Bucket.{Hashing, get_index_hash, is_good_iff}
use anon_graphzeppelin.Sketch.{
  Statics, Sketch, make, update, batch_update, a_at, c_at, last_bucket, bucket_is_good,
  checksum_seed,
}
use anon_graphzeppelin.Sketch.Order.{
  batch_update-perm, batch_update-append, batch_update_cancel, update-seed,
}
use anon_graphzeppelin.Sketch.Merge.{IsSized-make, batch_update-queried}
use anon_graphzeppelin.Sketch.LastBucket.{IsConfigured, update-last}
use anon_graphzeppelin.Sketch.Query.{Answer, mark_queried, scan_columns, answer_scan, query}
use anon_graphzeppelin.Sketch.Query.Correct.{LastIsZero, query_of_zero, query_of_good_last}

answer_scan-sketch : (s : Sketch) (o : Option ℕ) → (answer_scan s o).sketch ≡ s
unfolding answer_scan
answer_scan-sketch s none = refl
answer_scan-sketch s (some v) = refl

module _ (h : Hashing) (st : Statics) where
  query-sketch : (s : Sketch) (a : Answer ℕ) → query h st s ≡ ok a → a.sketch ≡ mark_queried s
  unfolding query
  query-sketch s a e = ground (
    arith,
    answer_scan-sketch (mark_queried s) (scan_columns h st (mark_queried s) st.num_columns 0),
  )

  -- A sketch answers one query: the next one throws.
  pub query_twice :
      (s : Sketch) (a : Answer ℕ) → query h st s ≡ ok a → query h st a.sketch ≡ throw multiple_query
  query_twice s a e = rw (query-sketch s a e) (unfold query mark_queried in refl)

  -- A stream in which all but one update cancel leaves the sketch of that update.
  one_left :
      (s : Sketch) (l m : List ℕ) (v : ℕ)
      → Perm l (v ∷ m ++ m)
      → batch_update h st s l ≡ update h st s v
  unfolding batch_update
  one_left s l m v p =
      batch_update-perm h st s p
      ∙ batch_update-append h st (update h st s v) m m
      ∙ batch_update_cancel h st (update h st s v) m

  module _ (conf : IsConfigured st) (seed : ℕ) where
    fresh_flag : (l : List ℕ) → (batch_update h st (make st seed) l).already_queried ≡ false
    fresh_flag l =
        batch_update-queried h st (make st seed) l (IsSized-make st seed) ∙ unfold make in refl

    pub make-LastIsZero : (sd : ℕ) → LastIsZero st (make st sd)
    unfolding make a_at c_at
    make-LastIsZero sd = (
      get_or-replicate st.num_elems (last_bucket st) 0,
      get_or-replicate st.num_elems (last_bucket st) 0,
    )

    -- The deterministic bucket of the sketch of one index.
    single_last :
        (v : ℕ)
        → (a_at (update h st (make st seed) v) (last_bucket st) ≡ v)
          × (c_at (update h st (make st seed) v) (last_bucket st) ≡ get_index_hash h v seed)
    unfolding make
    single_last v =
        let (ea, ec) = update-last h st conf (make st seed) v (IsSized-make st seed) in
        (
          ea ∙ ap (λ x. bit_xor x v) (make-LastIsZero seed).0 ∙ zero-bit_xor v,
          ec
              ∙ ap (λ x. bit_xor x (get_index_hash h v seed)) (make-LastIsZero seed).1
              ∙ zero-bit_xor (get_index_hash h v seed),
        )

    single_good : (v : ℕ) → bucket_is_good h (update h st (make st seed) v) (last_bucket st) ≡ true
    unfolding bucket_is_good checksum_seed
    single_good v = (is_good_iff h _ _ _).1 (
        (single_last v).1
        ∙ ap₂ (get_index_hash h) (sym (single_last v).0)
            (sym (update-seed h st (make st seed) v ∙ unfold make in refl)))

    -- A stream after which one index is left, whatever the order and the cancelled updates: the
    -- query returns that index. (An index 0 whose checksum is 0 too looks like no index at all.)
    pub query_one_left :
        (l m : List ℕ) (v : ℕ)
        → Perm l (v ∷ m ++ m)
        → ¬ ((v ≡ 0) × (get_index_hash h v seed ≡ 0))
        → query h st (batch_update h st (make st seed) l)
          ≡ ok (record {
            sketch = mark_queried (batch_update h st (make st seed) l);
            value = v;
            code = SampleSketchRet.good;
          })
    query_one_left l m v p visible =
        query_of_good_last h st sketch (fresh_flag l) (λ z. visible (unseen z))
          (rw left (single_good v))
        ∙ ap
            (λ w.
              ok (record { sketch = mark_queried sketch; value = w; code = SampleSketchRet.good }))
            (ap (λ t. a_at t (last_bucket st)) left ∙ (single_last v).0)
      where
        sketch : Sketch
        sketch = batch_update h st (make st seed) l

        left : sketch ≡ update h st (make st seed) v
        left = one_left (make st seed) l m v p

        unseen : LastIsZero st sketch → (v ≡ 0) × (get_index_hash h v seed ≡ 0)
        unseen z = (
          sym (single_last v).0 ∙ ap (λ t. a_at t (last_bucket st)) (sym left) ∙ z.0,
          sym (single_last v).1 ∙ ap (λ t. c_at t (last_bucket st)) (sym left) ∙ z.1,
        )

    -- A stream that cancels altogether: the query returns ZERO.
    pub query_none_left :
        (l m : List ℕ)
        → Perm l (m ++ m)
        → query h st (batch_update h st (make st seed) l)
          ≡ ok (record {
            sketch = mark_queried (make st seed);
            value = 0;
            code = SampleSketchRet.zero;
          })
    query_none_left l m p = rw left (query_of_zero h st (make st seed) made_fresh made_zero)
      where
        left : batch_update h st (make st seed) l ≡ make st seed
        left =
            batch_update-perm h st (make st seed) p
            ∙ batch_update-append h st (make st seed) m m
            ∙ batch_update_cancel h st (make st seed) m

        made_fresh : (make st seed).already_queried ≡ false
        made_fresh = unfold make in refl

        made_zero : LastIsZero st (make st seed)
        made_zero = make-LastIsZero seed
