-- ===== src/Sketch/Query/Parity.antt =====
-- The query of a sketch, by what occurs an odd number of times in its updates.
use mathlib.Core.List.Perm
use anon_graphzeppelin.Base.{ℕ, ◌≡◌, List, [], ◌∷◌, ok}
use anon_graphzeppelin.Types.{SampleSketchRet}
use anon_graphzeppelin.Bucket.{Hashing, get_index_hash}
use anon_graphzeppelin.Sketch.{Statics, make, batch_update}
use anon_graphzeppelin.Sketch.LastBucket.{IsConfigured}
use anon_graphzeppelin.Sketch.Content.{SameOdd, batch_update-SameOdd}
use anon_graphzeppelin.Sketch.Query.{mark_queried, query}
use anon_graphzeppelin.Sketch.Query.Recovery.{query_one_left, query_none_left}

module _ (h : Hashing) (st : Statics) (conf : IsConfigured st) (seed : ℕ) where
  -- After a stream in which one index occurs an odd number of times, and no other one does, the query
  -- returns that index. (An index 0 whose checksum is 0 too looks like no index at all.)
  pub query_one_odd :
      (l : List ℕ) (v : ℕ)
      → SameOdd l (v ∷ [])
      → ¬ ((v ≡ 0) × (get_index_hash h v seed ≡ 0))
      → query h st (batch_update h st (make st seed) l)
        ≡ ok (record {
          sketch = mark_queried (batch_update h st (make st seed) l);
          value = v;
          code = SampleSketchRet.good;
        })
  query_one_odd l v same visible =
      rw (batch_update-SameOdd h st (make st seed) l (v ∷ []) same)
        (query_one_left h st conf seed (v ∷ []) [] v (Perm.refl (v ∷ [])) visible)

  -- After a stream in which each index occurs an even number of times the query returns ZERO.
  pub query_none_odd :
      (l : List ℕ)
      → SameOdd l []
      → query h st (batch_update h st (make st seed) l)
        ≡ ok (record {
          sketch = mark_queried (make st seed);
          value = 0;
          code = SampleSketchRet.zero;
        })
  query_none_odd l same =
      rw (batch_update-SameOdd h st (make st seed) l [] same)
        (query_none_left h st conf seed [] [] (Perm.refl []))
