-- ===== src/Supernode/Sampling.antt =====
-- Sampling: each sketch answers once, and the supernode keeps track of it.
pub mod Kept
pub mod Edges
pub mod Stored
pub mod Filled
use anon_graphzeppelin.Base.{
  ℕ, ◌⊎◌, inl, ◌+◌, ◌-◌, ◌<◌, ◌≤◌, ◌≡◌, refl, ap, ◌∙◌, inr, min, max, false, ◌||◌, arith, length,
  ok, throw, out_of_queries, ap₂, subst, length-set, get_or-set_ne,
}
use native.Mathlib.Decide.{dec_lt}
use anon_graphzeppelin.Types.{SampleSketchRet}
use anon_graphzeppelin.Util.{inv_concat_pairing_fn}
use anon_graphzeppelin.Bucket.{Hashing}
use anon_graphzeppelin.Sketch.{Statics, Sketch, make, add_assign}
use anon_graphzeppelin.Sketch.LastBucket.{IsConfigured}
use anon_graphzeppelin.Sketch.Query.{Answer, query, reset_queried}
use anon_graphzeppelin.Sketch.Query.Correct.{Answers, query-Answers}
use anon_graphzeppelin.Supernode.{
  Supernode, no_sketch, get_sketch, set_sketch, for_sketches, out_of_queries?, reset_query_state,
  make_supernode, add_sketches, merge, sample, sample_answer,
}
use anon_graphzeppelin.Supernode.Delta.{length-make_sketches, get_sketch-make}
use anon_graphzeppelin.Supernode.Fields.{
  SameFields, for_sketches-SameFields, for_sketches-inside, for_sketches-outside,
}
use anon_graphzeppelin.Sketch.Merge.{add_assign-queried}

-- The sketches that are left for queries were not queried.
pub record IsReady (s : Supernode) : Type 0 where
  pub room : s.num_sketches ≤ length s.sketches
  pub usable : s.merged_sketches ≤ s.num_sketches
  pub fresh :
      (i : ℕ) → s.sample_idx ≤ i → i < s.num_sketches → (get_sketch s i).already_queried ≡ false

-- A new supernode is ready.
pub make_supernode-IsReady :
    (st : Statics) (max_sketches width n sd : ℕ)
    → IsReady (make_supernode st max_sketches width n sd)
unfolding make_supernode
make_supernode-IsReady st max_sketches width n sd = record {
  room = omega (arith, length-make_sketches st width max_sketches sd);
  usable = omega arith;
  fresh = λ i _ q.
      ap (λ x. x.already_queried)
        (unfold make_supernode in get_sketch-make st width max_sketches n sd i q)
      ∙ (unfold make in refl);
}

module _ (h : Hashing) (st : Statics) where
  -- With no sketch left a sample throws, and changes nothing.
  pub sample_exhausted :
      (s : Supernode)
      → s.merged_sketches ≤ s.sample_idx
      → sample h st s ≡ record { node = s; result = throw out_of_queries }
  unfolding sample out_of_queries?
  sample_exhausted s p = ground arith

  sample-ok :
      (s : Supernode) (a : Answer ℕ)
      → s.sample_idx < s.merged_sketches
      → query h st (get_sketch s s.sample_idx) ≡ ok a
      → sample h st s ≡ sample_answer s (ok a)
  unfolding sample out_of_queries?
  sample-ok s a p e = ground arith

  sample_answer-IsReady :
      (s : Supernode) (a : Answer ℕ) → IsReady s → IsReady (sample_answer s (ok a)).node
  unfolding sample_answer set_sketch get_sketch
  sample_answer-IsReady s a ready = record {
    room = rw length-set ready.room;
    usable = ready.usable;
    fresh = λ i p q.
        ap (λ x. x.already_queried)
          (get_or-set_ne s.sketches s.sample_idx i a.sketch no_sketch (omega arith))
        ∙ ready.fresh i (omega arith) q;
  }

  -- With a sketch left a sample returns the answer of that sketch, as an edge, and uses the sketch
  -- up; the supernode stays ready for the next sample.
  pub sample-Answers :
      (s : Supernode)
      → IsConfigured st
      → IsReady s
      → s.sample_idx < s.merged_sketches
      → (v : ℕ) × (r : SampleSketchRet) × ((sample h st s).result ≡ ok (inv_concat_pairing_fn v, r))
        × Answers h st (get_sketch s s.sample_idx) v r
        × ((sample h st s).node.sample_idx ≡ s.sample_idx + 1)
        × IsReady (sample h st s).node
  sample-Answers s conf ready p =
      let (a, e, marked, right) =
        query-Answers h st (get_sketch s s.sample_idx) conf
          (ready.fresh s.sample_idx (omega arith) (omega (arith, ready.usable))) in
      let step = sample-ok s a p e in
      (
        a.value,
        a.code,
        ap (λ o. o.result) step ∙ result_lem s a,
        right,
        ap (λ o. o.node.sample_idx) step ∙ index_lem s a,
        rw step (sample_answer-IsReady s a ready),
      )
    where
      result_lem :
          (s : Supernode) (a : Answer ℕ)
          → (sample_answer s (ok a)).result ≡ ok (inv_concat_pairing_fn a.value, a.code)
      result_lem s a = unfold sample_answer in refl

      index_lem :
          (s : Supernode) (a : Answer ℕ)
          → (sample_answer s (ok a)).node.sample_idx ≡ s.sample_idx + 1
      index_lem s a = unfold sample_answer in refl

reset-fresh :
    (s : Supernode) (i : ℕ)
    → IsReady s
    → i < s.num_sketches
    → (get_sketch
        (for_sketches s.sample_idx 0 (λ _ sketch. reset_queried sketch) s)
        i).already_queried
      ≡ false
unfolding reset_queried
reset-fresh s i ready p = elim (dec_lt i s.sample_idx) [
  | yes below ↦
      ap (λ x. x.already_queried)
        (for_sketches-inside (λ _ sketch. reset_queried sketch) s.sample_idx 0 i s (omega arith)
          (omega arith) (omega (arith, ready.room)))
  | no above ↦
      ap (λ x. x.already_queried)
        (for_sketches-outside (λ _ sketch. reset_queried sketch) s.sample_idx 0 i s
          (inr (omega arith)))
      ∙ ready.fresh i (omega arith) p
]

-- Resetting starts with the first sketch again, and makes every sketch usable.
pub reset_query_state-IsReady :
    (s : Supernode)
    → IsReady s
    → IsReady (reset_query_state s) × ((reset_query_state s).sample_idx ≡ 0)
unfolding reset_query_state get_sketch
reset_query_state-IsReady s ready =
    let same = for_sketches-SameFields (λ _ sketch. reset_queried sketch) s.sample_idx 0 s in
    (
      record {
        room = rw (same.size, same.num_sketches) ready.room;
        usable = rw (same.merged_sketches, same.num_sketches) ready.usable;
        fresh = λ i _ q. reset-fresh s i ready (subst (λ n. i < n) same.num_sketches q);
      },
      refl,
    )

module _ (st : Statics) (s other : Supernode) where
  merge_from : ℕ
  merge_from = max s.sample_idx other.sample_idx

  merge_end : ℕ
  merge_end = min s.merged_sketches other.merged_sketches

  -- The supernode as a merge sets its fields, in front of the loop.
  merge_start : Supernode
  merge_start = record s { sample_idx = merge_from; merged_sketches = merge_end }

  add_one : ℕ → Sketch → Sketch
  add_one j sketch = add_assign st sketch (get_sketch other j)

  merge_loop :
      merge st s other ≡ for_sketches (merge_end - merge_from) merge_from add_one merge_start
  unfolding merge add_sketches merge_from merge_end merge_start add_one
  merge_loop = refl

  merge_start-get : (i : ℕ) → get_sketch merge_start i ≡ get_sketch s i
  unfolding merge_start get_sketch
  merge_start-get i = refl

  merge-inside :
      (i : ℕ)
      → merge_from ≤ i
      → i < merge_end
      → i < length s.sketches
      → get_sketch (merge st s other) i ≡ add_assign st (get_sketch s i) (get_sketch other i)
  unfolding merge_start add_one
  merge-inside i p q r =
      ap (λ t. get_sketch t i) merge_loop
      ∙ for_sketches-inside add_one (merge_end - merge_from) merge_from i merge_start p
          (omega arith) r
      ∙ ap (add_one i) (merge_start-get i)

  merge-outside :
      (i : ℕ) → merge_end ≤ i → merge_from ≤ i → get_sketch (merge st s other) i ≡ get_sketch s i
  merge-outside i p q =
      ap (λ t. get_sketch t i) merge_loop
      ∙ for_sketches-outside add_one (merge_end - merge_from) merge_from i merge_start
          (inr (omega arith))
      ∙ merge_start-get i

  -- The sketches outside of the range of the loop stay.
  merge-out :
      (i : ℕ)
      → (i < max s.sample_idx other.sample_idx) ⊎ (min s.merged_sketches other.merged_sketches ≤ i)
      → get_sketch (merge st s other) i ≡ get_sketch s i
  unfolding merge_from merge_end
  merge-out i out =
      ap (λ t. get_sketch t i) merge_loop
      ∙ for_sketches-outside add_one (merge_end - merge_from) merge_from i merge_start
          (ground (arith, out))
      ∙ merge_start-get i

  merge-SameFields : SameFields merge_start (merge st s other)
  merge-SameFields =
      rw merge_loop
        (for_sketches-SameFields add_one (merge_end - merge_from) merge_from merge_start)

  merge-fresh :
      (i : ℕ)
      → IsReady s
      → IsReady other
      → s.num_sketches ≡ other.num_sketches
      → merge_from ≤ i
      → i < s.num_sketches
      → (get_sketch (merge st s other) i).already_queried ≡ false
  unfolding merge_from
  merge-fresh i ready ready' e p q = elim (dec_lt i merge_end) [
    | yes below ↦
        ap (λ x. x.already_queried) (merge-inside i p below (omega (arith, ready.room)))
        ∙ add_assign-queried st (get_sketch s i) (get_sketch other i)
        ∙ ap₂ (λ x y. x || y) (ready.fresh i (omega arith) q)
            (ready'.fresh i (omega arith) (omega arith))
    | no above ↦
        ap (λ x. x.already_queried) (merge-outside i (omega arith) p)
        ∙ ready.fresh i (omega arith) q
  ]

-- A merge of two ready supernodes is ready: it goes on at the later index, ends with the smaller
-- count, and holds the sums of the sketches that both still have for queries.
pub merge-IsReady :
    (st : Statics) (s other : Supernode)
    → IsReady s
    → IsReady other
    → s.num_sketches ≡ other.num_sketches
    → IsReady (merge st s other)
      × ((merge st s other).sample_idx ≡ max s.sample_idx other.sample_idx)
      × ((merge st s other).merged_sketches ≡ min s.merged_sketches other.merged_sketches)
      × ((i : ℕ)
          → max s.sample_idx other.sample_idx ≤ i
          → i < min s.merged_sketches other.merged_sketches
          → get_sketch (merge st s other) i ≡ add_assign st (get_sketch s i) (get_sketch other i))
unfolding merge_from merge_end merge_start
merge-IsReady st s other ready ready' e =
    let same = merge-SameFields st s other in
    (
      record {
        room = rw (same.size, same.num_sketches) ready.room;
        usable = rw (same.merged_sketches, same.num_sketches) (omega (arith, ready.usable));
        fresh = λ i p q.
            merge-fresh st s other i ready ready' e (subst (λ n. n ≤ i) same.sample_idx p)
              (subst (λ n. i < n) same.num_sketches q);
      },
      same.sample_idx,
      same.merged_sketches,
      λ i p q. merge-inside st s other i p q (omega (arith, ready.room, ready.usable)),
    )
