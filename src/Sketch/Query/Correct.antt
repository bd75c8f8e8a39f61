-- ===== src/Sketch/Query/Correct.antt =====
-- What a query answers, on every branch.
use anon_graphzeppelin.Base.{
  ℕ, zero, suc, ◌+◌, ◌*◌, ◌/◌, ◌%◌, ◌<◌, ◌≤◌, ◌≡◌, refl, true, false, Option, none, some,
  Option-cases, Bool-cases, inl, inr, arith, ok,
}
use native.Mathlib.Decide.{ℕ_discrete}
use native.Mathlib.Nat.{div-lt_iff_lt-mul, mod-lt, div-add-mod'}
use anon_graphzeppelin.Types.{SampleSketchRet}
use anon_graphzeppelin.Bucket.{Hashing}
use anon_graphzeppelin.Sketch.{
  Statics, Sketch, a_at, c_at, last_bucket, last_is_zero, bucket_is_good, checksum_seed,
}
use anon_graphzeppelin.Sketch.LastBucket.{IsConfigured, index-lt, last_bucket-lt}
use anon_graphzeppelin.Sketch.Query.{
  Answer, mark_queried, bucket_id, scan_column, scan_columns, answer_scan, query,
}

abbrev pub LastIsZero : Statics → Sketch → Type 0
LastIsZero st s = (a_at s (last_bucket st) ≡ 0) × (c_at s (last_bucket st) ≡ 0)

-- What the code of an answer says of the sketch, and which index comes with it.
abbrev pub Answers : Hashing → Statics → Sketch → ℕ → SampleSketchRet → Type 0
Answers h st s v SampleSketchRet.zero = LastIsZero st s × (v ≡ 0)
Answers h st s v SampleSketchRet.good =
    ¬ LastIsZero st s
    × ((b : ℕ) × (b < st.num_elems) × (bucket_is_good h s b ≡ true) × (v ≡ a_at s b))
Answers h st s v SampleSketchRet.fail =
    ¬ LastIsZero st s × ((b : ℕ) → b < st.num_elems → bucket_is_good h s b ≡ false) × (v ≡ 0)

pub last_is_zero-true : (st : Statics) (s : Sketch) → last_is_zero st s ≡ true → LastIsZero st s
unfolding last_is_zero
last_is_zero-true st s e = ground arith

pub last_is_zero-false : (st : Statics) (s : Sketch) → last_is_zero st s ≡ false → ¬ LastIsZero st s
unfolding last_is_zero
last_is_zero-false st s e = ground arith

pub last_is_zero_of : (st : Statics) (s : Sketch) → LastIsZero st s → last_is_zero st s ≡ true
unfolding last_is_zero
last_is_zero_of st s z = ground arith

pub last_is_zero_of_not :
    (st : Statics) (s : Sketch) → ¬ LastIsZero st s → last_is_zero st s ≡ false
unfolding last_is_zero
last_is_zero_of_not st s z = ground arith

module _ (h : Hashing) (st : Statics) (s : Sketch) where
  scan_column-some :
      (i left j : ℕ) (v : ℕ)
      → scan_column h st s i left j ≡ some v
      → (k : ℕ) × (k < j + left)
        × (bucket_is_good h s (bucket_id st i k) ≡ true)
        × (v ≡ a_at s (bucket_id st i k))
  unfolding scan_column
  scan_column-some i zero j v e = cc
  scan_column-some i (suc left) j v e = elim (Bool-cases (bucket_is_good h s (bucket_id st i j))) [
    | inl g ↦ (j, omega arith, g, cc (rw g at e))
    | inr g ↦
        let (k, below, g', e') = scan_column-some i left (j + 1) v (rw g at e) in
        (k, omega arith, g', e')
  ]

  scan_column-none :
      (i left j k : ℕ)
      → scan_column h st s i left j ≡ none
      → j ≤ k
      → k < j + left
      → bucket_is_good h s (bucket_id st i k) ≡ false
  unfolding scan_column
  scan_column-none i zero j k e p q = absurd (omega arith)
  scan_column-none i (suc left) j k e p q =
      elim (Bool-cases (bucket_is_good h s (bucket_id st i j))) [
        | inl g ↦ cc (rw g at e)
        | inr g ↦ elim (ℕ_discrete j k) [
          | yes same ↦ rw (← same) g
          | no other ↦ scan_column-none i left (j + 1) k (rw g at e) (omega arith) (omega arith)
        ]
      ]

  scan_columns-some :
      (left i v : ℕ)
      → scan_columns h st s left i ≡ some v
      → (k : ℕ) × (j : ℕ) × (k < i + left)
        × (j < st.num_guesses)
        × (bucket_is_good h s (bucket_id st k j) ≡ true)
        × (v ≡ a_at s (bucket_id st k j))
  unfolding scan_columns
  scan_columns-some zero i v e = cc
  scan_columns-some (suc left) i v e = elim (Option-cases (scan_column h st s i st.num_guesses 0)) [
    | inl n ↦
        let (k, j, p, q, g, w) = scan_columns-some left (i + 1) v (rw (n, scan_columns) at e) in
        (k, j, omega arith, q, g, w)
    | inr (u, n) ↦
        let (j, q, g, w) = scan_column-some i st.num_guesses 0 u n in
        (i, j, omega arith, omega arith, g, cc (rw (n, scan_columns) at e))
  ]

  scan_columns-none :
      (left i k j : ℕ)
      → scan_columns h st s left i ≡ none
      → i ≤ k
      → k < i + left
      → j < st.num_guesses
      → bucket_is_good h s (bucket_id st k j) ≡ false
  unfolding scan_columns
  scan_columns-none zero i k j e p q r = absurd (omega arith)
  scan_columns-none (suc left) i k j e p q r =
      elim (Option-cases (scan_column h st s i st.num_guesses 0)) [
        | inl n ↦ elim (ℕ_discrete i k) [
          | yes same ↦
              rw (← same) (scan_column-none i st.num_guesses 0 j n (omega arith) (omega arith))
          | no other ↦
              scan_columns-none left (i + 1) k j (rw (n, scan_columns) at e) (omega arith)
                (omega arith) r
        ]
        | inr (u, n) ↦ cc (rw (n, scan_columns) at e)
      ]

factor_pos : (b m n : ℕ) → b < m * n → 0 < n
factor_pos b m zero h = absurd (omega arith)
factor_pos b m (suc n) h = omega arith

-- Each bucket but the deterministic one lies in a row of a column.
module _ (st : Statics) (conf : IsConfigured st) where
  pub bucket_id-lt :
      (i j : ℕ) → i < st.num_columns → j < st.num_guesses → bucket_id st i j < st.num_elems
  unfolding bucket_id
  bucket_id-lt i j p q =
      omega (arith, index-lt i j st.num_columns st.num_guesses p q, conf.elems, conf.narrow)

  pub bucket_id-row :
      (b : ℕ)
      → b < last_bucket st
      → (b / st.num_guesses < st.num_columns)
        × (b % st.num_guesses < st.num_guesses)
        × (bucket_id st (b / st.num_guesses) (b % st.num_guesses) ≡ b)
  unfolding bucket_id last_bucket
  bucket_id-row b p =
      let bound : b < st.num_columns * st.num_guesses = omega (arith, conf.elems) in
      let pos = factor_pos b st.num_columns st.num_guesses bound in
      (
        (div-lt_iff_lt-mul pos).1 bound,
        mod-lt b pos,
        omega (arith, div-add-mod' b st.num_guesses, conf.elems, conf.narrow),
      )

module _ (h : Hashing) (st : Statics) (conf : IsConfigured st) (s : Sketch) where
  all_bad :
      bucket_is_good h s (last_bucket st) ≡ false
      → scan_columns h st s st.num_columns 0 ≡ none
      → (b : ℕ) → b < st.num_elems
      → bucket_is_good h s b ≡ false
  all_bad last_bad e b p = elim (ℕ_discrete b (last_bucket st)) [
    | yes same ↦ rw same last_bad
    | no other ↦
        let (q, r, w) = bucket_id-row st conf b (unfold last_bucket in omega arith) in
        rw (← w) (scan_columns-none h st s st.num_columns 0 _ _ e (omega arith) (omega arith) r)
  ]

  scan-Answers :
      ¬ LastIsZero st s
      → bucket_is_good h s (last_bucket st) ≡ false
      → (o : Option ℕ) → scan_columns h st s st.num_columns 0 ≡ o
      → Answers h st s (answer_scan s o).value (answer_scan s o).code
  unfolding answer_scan
  scan-Answers nonzero bad none e = (nonzero, all_bad bad e, refl)
  scan-Answers nonzero bad (some v) e =
      let (k, j, p, q, g, w) = scan_columns-some h st s st.num_columns 0 v e in
      (nonzero, (bucket_id st k j, bucket_id-lt st conf k j (omega arith) q, g, w))

  answer_scan-sketch : (o : Option ℕ) → (answer_scan s o).sketch ≡ s
  unfolding answer_scan
  answer_scan-sketch none = refl
  answer_scan-sketch (some v) = refl

Answers-mark_queried :
    (h : Hashing) (st : Statics) (s : Sketch) (v : ℕ) (r : SampleSketchRet)
    → Answers h st (mark_queried s) v r
    → Answers h st s v r
unfolding mark_queried a_at c_at bucket_is_good checksum_seed
Answers-mark_queried h st s v SampleSketchRet.zero a = a
Answers-mark_queried h st s v SampleSketchRet.good a = a
Answers-mark_queried h st s v SampleSketchRet.fail a = a

-- The two answers that the deterministic bucket alone decides.
pub query_of_zero :
    (h : Hashing) (st : Statics) (s : Sketch)
    → s.already_queried ≡ false
    → LastIsZero st s
    → query h st s ≡ ok (record { sketch = mark_queried s; value = 0; code = SampleSketchRet.zero })
unfolding query mark_queried a_at c_at last_is_zero
query_of_zero h st s fresh z = simp (fresh, z.0, z.1)

pub query_of_good_last :
    (h : Hashing) (st : Statics) (s : Sketch)
    → s.already_queried ≡ false
    → ¬ LastIsZero st s
    → bucket_is_good h s (last_bucket st) ≡ true
    → query h st s
      ≡ ok (record {
        sketch = mark_queried s;
        value = a_at s (last_bucket st);
        code = SampleSketchRet.good;
      })
unfolding query mark_queried a_at c_at last_is_zero bucket_is_good checksum_seed
query_of_good_last h st s fresh nonzero g = simp (fresh, last_is_zero_of_not st s nonzero, g)

-- On a sketch that was not queried `query` answers, marks the sketch, and its answer is right:
-- ZERO exactly when the deterministic bucket is zero, else the index of a good bucket, and FAIL
-- only if no bucket is good.
pub query-Answers :
    (h : Hashing) (st : Statics) (s : Sketch)
    → IsConfigured st
    → s.already_queried ≡ false
    → (a : Answer ℕ) × (query h st s ≡ ok a)
      × (a.sketch ≡ mark_queried s)
      × Answers h st s a.value a.code
unfolding query
query-Answers h st s conf fresh = elim (Bool-cases (last_is_zero st s')) [
  | inl z ↦ (
    record { sketch = s'; value = 0; code = SampleSketchRet.zero },
    simp (fresh, z),
    refl,
    conclude 0 SampleSketchRet.zero (last_is_zero-true st s' z, refl),
  )
  | inr z ↦ elim (Bool-cases (bucket_is_good h s' (last_bucket st))) [
    | inl g ↦ (
      record { sketch = s'; value = a_at s' (last_bucket st); code = SampleSketchRet.good },
      simp (fresh, z, g),
      refl,
      conclude _ SampleSketchRet.good
          (last_is_zero-false st s' z, (last_bucket st, last_bucket-lt h st conf, g, refl)),
    )
    | inr g ↦ (
      answer_scan s' (scan_columns h st s' st.num_columns 0),
      simp (fresh, z, g),
      answer_scan-sketch h st conf s' _,
      conclude _ _ (scan-Answers h st conf s' (last_is_zero-false st s' z) g _ refl),
    )
  ]
]
  where
    s' : Sketch
    s' = mark_queried s

    conclude : (v : ℕ) (r : SampleSketchRet) → Answers h st s' v r → Answers h st s v r
    conclude v r a = Answers-mark_queried h st s v r a
