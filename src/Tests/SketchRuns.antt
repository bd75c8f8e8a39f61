-- ===== src/Tests/SketchRuns.antt =====
-- The sketch at fixed inputs.
use mathlib.Core.Quot.{Quot}
use anon_graphzeppelin.Base.{
  ℕ, ◌+◌, ◌≡◌, refl, ◌↔◌, List, [], ◌∷◌, ◌++◌, true, false, arith, ok, throw, multiple_query, u64,
  some,
}
use anon_graphzeppelin.Types.{SampleSketchRet}
use anon_graphzeppelin.Bucket.{get_index_depth, get_index_hash}
use anon_graphzeppelin.Bucket.Depth.{IsDepth, get_index_depth-IsDepth}
use anon_graphzeppelin.Sketch.{
  Sketch, make, update, batch_update, add_assign, add_buckets, last_bucket, a_at, c_at,
  last_is_zero, configure,
}
use anon_graphzeppelin.Sketch.Order.{update_cancel}
use anon_graphzeppelin.Sketch.Content.{
  SameOdd, batch_update-SameOdd, sketch_of, difference, add_buckets-sketch_of,
}
use anon_graphzeppelin.Sketch.Merge.{IsSized, IsSized-make, add_assign-delta_iff}
use anon_graphzeppelin.Sketch.LastBucket.{
  IsConfigured, configure-IsConfigured, Holds, xor_all, batch_update-last,
}
use anon_graphzeppelin.Sketch.Query.{Answer, query, mark_queried, exhaustive_query}
use anon_graphzeppelin.Sketch.Query.Correct.{Answers, query-Answers}
use anon_graphzeppelin.Sketch.Query.Exhaustive.{Collects, exhaustive_query-Collects}
use anon_graphzeppelin.Sketch.Query.Recovery.{query_twice}
use anon_graphzeppelin.Sketch.Query.Parity.{query_one_odd, query_none_odd}
use anon_graphzeppelin.Sketch.Serial.{copy, write_binary, read_dense}
use anon_graphzeppelin.Sketch.Serial.Dense.{IsWords, read_dense-write_binary}
use anon_graphzeppelin.Tests.Data.{
  toy_hash, toy_statics, toy_statics-IsConfigured, toy_stream, toy_noise,
}

abbrev toy_sketch : Sketch
toy_sketch = batch_update toy_hash toy_statics (make toy_statics 5) toy_stream

get_index_depth-IsDepth_example :
    IsDepth (u64 (toy_hash.xxh 9 5)) 3 (get_index_depth toy_hash 9 5 3)
get_index_depth-IsDepth_example = get_index_depth-IsDepth toy_hash 9 5 3 (omega arith)

update_cancel_example :
    update toy_hash toy_statics (update toy_hash toy_statics (make toy_statics 5) 9) 9
    ≡ make toy_statics 5
update_cancel_example = update_cancel toy_hash toy_statics (make toy_statics 5) 9

toy_stream-SameOdd : SameOdd toy_stream (21 ∷ [])
toy_stream-SameOdd x = ground arith

batch_update-SameOdd_example :
    batch_update toy_hash toy_statics (make toy_statics 5) toy_stream
    ≡ batch_update toy_hash toy_statics (make toy_statics 5) (21 ∷ [])
batch_update-SameOdd_example =
    batch_update-SameOdd toy_hash toy_statics (make toy_statics 5) toy_stream (21 ∷ [])
      toy_stream-SameOdd

add_buckets-sketch_of_example :
    add_buckets
      (sketch_of toy_hash toy_statics 5 (Quot.mk toy_stream))
      (sketch_of toy_hash toy_statics 5 (Quot.mk (3 ∷ 21 ∷ [])))
    ≡ sketch_of toy_hash toy_statics 5 (difference (Quot.mk toy_stream) (Quot.mk (3 ∷ 21 ∷ [])))
add_buckets-sketch_of_example =
    add_buckets-sketch_of toy_hash toy_statics 5 (Quot.mk toy_stream) (Quot.mk (3 ∷ 21 ∷ []))

made-IsSized : IsSized toy_statics (make toy_statics 5)
made-IsSized = IsSized-make toy_statics 5

add_assign-delta_iff_example :
    (add_assign toy_statics
        (make toy_statics 5)
        (batch_update toy_hash toy_statics (make toy_statics (make toy_statics 5).seed) toy_stream)
      ≡ batch_update toy_hash toy_statics (make toy_statics 5) toy_stream)
    ↔ (last_is_zero toy_statics (
            batch_update toy_hash toy_statics
              (make toy_statics (make toy_statics 5).seed)
              toy_stream)
          ≡ true
        → batch_update toy_hash toy_statics (make toy_statics (make toy_statics 5).seed) toy_stream
          ≡ make toy_statics (make toy_statics 5).seed)
add_assign-delta_iff_example =
    add_assign-delta_iff toy_hash toy_statics (make toy_statics 5) toy_stream made-IsSized

configure-IsConfigured_example : IsConfigured (configure (λ d. d + 1) (λ x. x + 2) 10 4)
configure-IsConfigured_example = configure-IsConfigured (λ d. d + 1) (λ x. x + 2) 10 4 (omega arith)

batch_update-last_example :
    Holds
      (last_bucket toy_statics)
      (batch_update toy_hash toy_statics (make toy_statics 5) toy_stream)
      (xor_all (λ x. x) (a_at (make toy_statics 5) (last_bucket toy_statics)) toy_stream)
      (xor_all
        (λ x. get_index_hash toy_hash x (make toy_statics 5).seed)
        (c_at (make toy_statics 5) (last_bucket toy_statics))
        toy_stream)
batch_update-last_example =
    batch_update-last toy_hash toy_statics toy_statics-IsConfigured (make toy_statics 5) toy_stream
      made-IsSized

made_fresh : (make toy_statics 5).already_queried ≡ false
unfolding make
made_fresh = refl

query-Answers_example :
    (a : Answer ℕ) × (query toy_hash toy_statics (make toy_statics 5) ≡ ok a)
    × (a.sketch ≡ mark_queried (make toy_statics 5))
    × Answers toy_hash toy_statics (make toy_statics 5) a.value a.code
query-Answers_example =
    query-Answers toy_hash toy_statics (make toy_statics 5) toy_statics-IsConfigured made_fresh

exhaustive_query-Collects_example :
    (a : Answer (List ℕ)) × (exhaustive_query toy_hash toy_statics (make toy_statics 5) ≡ ok a)
    × Collects toy_hash toy_statics (make toy_statics 5) a.value a.code
exhaustive_query-Collects_example =
    exhaustive_query-Collects toy_hash toy_statics (make toy_statics 5) toy_statics-IsConfigured
      made_fresh

visible : ¬ ((◌≡◌ {A = ℕ} 21 0) × (get_index_hash toy_hash 21 5 ≡ 0))
visible z = omega (arith, z.0)

query_one_odd_example :
    query toy_hash toy_statics toy_sketch
    ≡ ok (record { sketch = mark_queried toy_sketch; value = 21; code = SampleSketchRet.good })
query_one_odd_example =
    query_one_odd toy_hash toy_statics toy_statics-IsConfigured 5 toy_stream 21 toy_stream-SameOdd
      visible

query_none_odd_example :
    query toy_hash toy_statics
      (batch_update toy_hash toy_statics (make toy_statics 5) (toy_noise ++ toy_noise))
    ≡ ok (record {
      sketch = mark_queried (make toy_statics 5);
      value = 0;
      code = SampleSketchRet.zero;
    })
query_none_odd_example =
    query_none_odd toy_hash toy_statics toy_statics-IsConfigured 5 (toy_noise ++ toy_noise)
      (λ x. ground arith)

query_twice_example : query toy_hash toy_statics (mark_queried toy_sketch) ≡ throw multiple_query
query_twice_example =
    query_twice toy_hash toy_statics toy_sketch
      (record { sketch = mark_queried toy_sketch; value = 21; code = SampleSketchRet.good })
      query_one_odd_example

made-IsWords : IsWords toy_hash (make toy_statics 5)
made-IsWords = record { a_words = unfold make in omega arith; c_words = unfold make in omega arith }

read_dense-write_binary_example :
    read_dense toy_hash toy_statics
      (make toy_statics 5).seed
      (write_binary toy_hash (make toy_statics 5) ++ 7 ∷ [])
    ≡ some (copy (make toy_statics 5), 7 ∷ [])
read_dense-write_binary_example =
    read_dense-write_binary toy_hash toy_statics (make toy_statics 5) (7 ∷ []) made-IsSized
      made-IsWords
