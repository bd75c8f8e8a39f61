-- ===== src/Sketch/Query.antt =====
-- `Sketch::query` and `Sketch::exhaustive_query`. A set of indices is the list of its elements in
-- the order of their insertion.
pub mod Correct
pub mod Marked
pub mod Exhaustive
pub mod Recovery
pub mod Parity
use anon_graphzeppelin.Base.{
  ℕ, zero, suc, ◌+◌, ◌*◌, Bool, true, false, ◌||◌, List, [], ◌∷◌, ◌++◌, Option, none, some, ◌==◌,
  if◌then◌else◌, u32, Result, ok, throw, multiple_query,
}
use anon_graphzeppelin.Types.{SampleSketchRet}
use anon_graphzeppelin.Bucket.{Hashing}
use anon_graphzeppelin.Sketch.{Statics, Sketch, a_at, last_bucket, last_is_zero, bucket_is_good}

-- The sketch after a call, with the pair that the call returns.
pub record Answer (A : Type 0) : Type 0 where
  pub sketch : Sketch
  pub value : A
  pub code : SampleSketchRet

-- `already_queried = true`
pub mark_queried : Sketch → Sketch
mark_queried s = record s { already_queried = true }

-- `already_queried = false`
unfoldable pub reset_queried : Sketch → Sketch
reset_queried s = record s { already_queried = false }

-- `unsigned bucket_id`
pub bucket_id : Statics → ℕ → ℕ → ℕ
bucket_id st i j = u32 (i * st.num_guesses + j)

-- `std::unordered_set::insert`
pub contains : ℕ → List ℕ → Bool
contains v [] = false
contains v (w ∷ ws) = v == w || contains v ws

pub insert : ℕ → List ℕ → List ℕ
insert v ws = if contains v ws then ws else ws ++ v ∷ []

-- The two returns behind the scan.
pub answer_scan : Sketch → Option ℕ → Answer ℕ
answer_scan s (some v) = record { sketch = s; value = v; code = SampleSketchRet.good }
answer_scan s none = record { sketch = s; value = 0; code = SampleSketchRet.fail }

-- The two returns behind the collection.
pub answer_set : Sketch → List ℕ → Answer (List ℕ)
answer_set s [] = record { sketch = s; value = []; code = SampleSketchRet.fail }
answer_set s (v ∷ vs) = record { sketch = s; value = v ∷ vs; code = SampleSketchRet.good }

module _ (h : Hashing) (st : Statics) where
  -- The loop over the rows of column `i` from row `j`, up to the first good bucket.
  pub scan_column : Sketch → ℕ → ℕ → ℕ → Option ℕ
  scan_column s i zero j = none
  scan_column s i (suc left) j =
      let rest = scan_column s i left (j + 1) in
      if bucket_is_good h s (bucket_id st i j) then some (a_at s (bucket_id st i j)) else rest

  pub scan_columns : Sketch → ℕ → ℕ → Option ℕ
  scan_columns s zero i = none
  scan_columns s (suc left) i = elim (scan_column s i st.num_guesses 0) [
    | some v ↦ some v
    | none ↦ scan_columns s left (i + 1)
  ]

  pub query : Sketch → Result (Answer ℕ)
  query s =
      if s.already_queried
      then throw multiple_query
      else (let s' = mark_queried s in
          if last_is_zero st s'
          then ok (record { sketch = s'; value = 0; code = SampleSketchRet.zero })
          else if bucket_is_good h s' (last_bucket st)
          then ok (record {
            sketch = s';
            value = a_at s' (last_bucket st);
            code = SampleSketchRet.good;
          })
          else ok (answer_scan s' (scan_columns s' st.num_columns 0)))

  pub collect_column : Sketch → ℕ → ℕ → ℕ → List ℕ → List ℕ
  collect_column s i zero j ret = ret
  collect_column s i (suc left) j ret = collect_column s i left (j + 1) (
      if bucket_is_good h s (bucket_id st i j) then insert (a_at s (bucket_id st i j)) ret else ret)

  pub collect_columns : Sketch → ℕ → ℕ → List ℕ → List ℕ
  collect_columns s zero i ret = ret
  collect_columns s (suc left) i ret =
      collect_columns s left (i + 1) (collect_column s i st.num_guesses 0 ret)

  -- The flag is set behind the two early returns.
  pub exhaustive_query : Sketch → Result (Answer (List ℕ))
  exhaustive_query s =
      if s.already_queried
      then throw multiple_query
      else if last_is_zero st s
      then ok (record { sketch = s; value = []; code = SampleSketchRet.zero })
      else if bucket_is_good h s (last_bucket st)
      then ok (record {
        sketch = s;
        value = insert (a_at s (last_bucket st)) [];
        code = SampleSketchRet.good;
      })
      else ok (answer_set (mark_queried s) (collect_columns s st.num_columns 0 []))
