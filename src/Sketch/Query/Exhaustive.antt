-- ===== src/Sketch/Query/Exhaustive.antt =====
-- `exhaustive_query` returns the set of the indices of all good buckets.
use anon_graphzeppelin.Base.{
  ℕ, zero, suc, ◌+◌, ◌<◌, ◌≤◌, ◌≡◌, ◌≢◌, refl, ap, sym, ◌∙◌, true, false, ◌||◌, ◌==◌, ◌⊎◌, ◌↔◌,
  List, [], ◌∷◌, ◌++◌, Bool-cases, List-cases, inl, inr, if◌then◌else◌, arith, ok,
}
use native.Mathlib.Decide.{ℕ_discrete}
use anon_graphzeppelin.Types.{SampleSketchRet}
use anon_graphzeppelin.Bucket.{Hashing}
use anon_graphzeppelin.Sketch.{Statics, Sketch, a_at, last_bucket, last_is_zero, bucket_is_good}
use anon_graphzeppelin.Sketch.LastBucket.{IsConfigured, last_bucket-lt}
use anon_graphzeppelin.Sketch.Query.{
  Answer, mark_queried, bucket_id, contains, insert, collect_column, collect_columns, answer_set,
  exhaustive_query,
}
use anon_graphzeppelin.Sketch.Query.Correct.{
  LastIsZero, last_is_zero-true, last_is_zero-false, bucket_id-lt, bucket_id-row,
}

contains-append : (w v : ℕ) (ws : List ℕ) → contains w (ws ++ v ∷ []) ≡ (contains w ws || w == v)
unfolding contains
contains-append w v [] = ground arith
contains-append w v (x ∷ ws) = ground (arith, contains-append w v ws)

-- An element is found behind an insertion if it was there or is the new one.
contains-insert :
    (w v : ℕ) (ws : List ℕ) → (contains w (insert v ws) ≡ true) ↔ ((contains w ws ≡ true) ⊎ (w ≡ v))
unfolding insert
contains-insert w v ws = ground (arith, contains-append w v ws)

module _ (h : Hashing) (st : Statics) (s : Sketch) where
  -- A good bucket in one of the columns `i` to `i + left - 1` holds `w`.
  record Sampled (i left w : ℕ) : Type 0 where
    column : ℕ
    row : ℕ
    from : i ≤ column
    to : column < i + left
    in_column : row < st.num_guesses
    passes : bucket_is_good h s (bucket_id st column row) ≡ true
    holds : w ≡ a_at s (bucket_id st column row)

  collect_column_sound :
      (i left j w : ℕ) (ret : List ℕ)
      → contains w (collect_column h st s i left j ret) ≡ true
      → (contains w ret ≡ true)
        ⊎ ((k : ℕ) × (k < j + left)
            × (bucket_is_good h s (bucket_id st i k) ≡ true)
            × (w ≡ a_at s (bucket_id st i k)))
  unfolding collect_column
  collect_column_sound i zero j w ret e = inl e
  collect_column_sound i (suc left) j w ret e =
      elim (Bool-cases (bucket_is_good h s (bucket_id st i j))) [
        | inl g ↦ elim (collect_column_sound i left (j + 1) w _ (rw g at e)) [
          | inl here ↦ elim ((contains-insert w (a_at s (bucket_id st i j)) ret).0 here) [
            | inl old ↦ inl old
            | inr new ↦ inr (j, omega arith, g, new)
          ]
          | inr (k, p, q, r) ↦ inr (k, omega arith, q, r)
        ]
        | inr g ↦ elim (collect_column_sound i left (j + 1) w _ (rw g at e)) [
          | inl old ↦ inl old
          | inr (k, p, q, r) ↦ inr (k, omega arith, q, r)
        ]
      ]

  collect_column-keeps :
      (i left j w : ℕ) (ret : List ℕ)
      → contains w ret ≡ true
      → contains w (collect_column h st s i left j ret) ≡ true
  unfolding collect_column
  collect_column-keeps i zero j w ret e = e
  collect_column-keeps i (suc left) j w ret e =
      elim (Bool-cases (bucket_is_good h s (bucket_id st i j))) [
        | inl g ↦
            rw g (collect_column-keeps i left (j + 1) w _ ((contains-insert w _ ret).1 (inl e)))
        | inr g ↦ rw g (collect_column-keeps i left (j + 1) w ret e)
      ]

  collect_column-full :
      (i left j k : ℕ) (ret : List ℕ)
      → j ≤ k
      → k < j + left
      → bucket_is_good h s (bucket_id st i k) ≡ true
      → contains (a_at s (bucket_id st i k)) (collect_column h st s i left j ret) ≡ true
  unfolding collect_column
  collect_column-full i zero j k ret p q g = absurd (omega arith)
  collect_column-full i (suc left) j k ret p q g = elim (ℕ_discrete j k) [
    | yes same ↦
        rw (same, g)
          (collect_column-keeps i left (k + 1) _ _ ((contains-insert _ _ ret).1 (inr refl)))
    | no other ↦ collect_column-full i left (j + 1) k _ (omega arith) (omega arith) g
  ]

  collect_columns_sound :
      (left i w : ℕ) (ret : List ℕ)
      → contains w (collect_columns h st s left i ret) ≡ true
      → (contains w ret ≡ true) ⊎ Sampled i left w
  unfolding collect_columns
  collect_columns_sound zero i w ret e = inl e
  collect_columns_sound (suc left) i w ret e = elim (collect_columns_sound left (i + 1) w _ e) [
    | inl here ↦ elim (collect_column_sound i st.num_guesses 0 w ret here) [
      | inl old ↦ inl old
      | inr (k, p, q, r) ↦ inr (record {
        column = i;
        row = k;
        from = omega arith;
        to = omega arith;
        in_column = omega arith;
        passes = q;
        holds = r;
      })
    ]
    | inr m ↦ inr (record {
      column = m.column;
      row = m.row;
      from = omega (arith, m.from);
      to = omega (arith, m.to);
      in_column = m.in_column;
      passes = m.passes;
      holds = m.holds;
    })
  ]

  collect_columns-keeps :
      (left i w : ℕ) (ret : List ℕ)
      → contains w ret ≡ true
      → contains w (collect_columns h st s left i ret) ≡ true
  unfolding collect_columns
  collect_columns-keeps zero i w ret e = e
  collect_columns-keeps (suc left) i w ret e =
      collect_columns-keeps left (i + 1) w _ (collect_column-keeps i st.num_guesses 0 w ret e)

  collect_columns-full :
      (left i k j : ℕ) (ret : List ℕ)
      → i ≤ k
      → k < i + left
      → j < st.num_guesses
      → bucket_is_good h s (bucket_id st k j) ≡ true
      → contains (a_at s (bucket_id st k j)) (collect_columns h st s left i ret) ≡ true
  unfolding collect_columns
  collect_columns-full zero i k j ret p q r g = absurd (omega arith)
  collect_columns-full (suc left) i k j ret p q r g = elim (ℕ_discrete i k) [
    | yes same ↦ rw same (
        collect_columns-keeps left (k + 1) _ _
          (collect_column-full k st.num_guesses 0 j ret (omega arith) (omega arith) g))
    | no other ↦ collect_columns-full left (i + 1) k j _ (omega arith) (omega arith) r g
  ]

-- What the code of an answer says of the sketch, and which set comes with it.
abbrev pub Collects : Hashing → Statics → Sketch → List ℕ → SampleSketchRet → Type 0
Collects h st s vs SampleSketchRet.zero = LastIsZero st s × (vs ≡ [])
Collects h st s vs SampleSketchRet.good =
    ¬ LastIsZero st s
    × (vs ≢ [])
    × ((w : ℕ)
        → contains w vs ≡ true
        → (b : ℕ) × (b < st.num_elems) × (bucket_is_good h s b ≡ true) × (w ≡ a_at s b))
    × (bucket_is_good h s (last_bucket st) ≡ false
        → (b : ℕ) → b < st.num_elems
        → bucket_is_good h s b ≡ true
        → contains (a_at s b) vs ≡ true)
Collects h st s vs SampleSketchRet.fail =
    ¬ LastIsZero st s × ((b : ℕ) → b < st.num_elems → bucket_is_good h s b ≡ false) × (vs ≡ [])

contains-singleton : (w v : ℕ) → contains w (insert v []) ≡ true → w ≡ v
unfolding contains insert
contains-singleton w v e = ground arith

answer_set-sketch : (s : Sketch) (vs : List ℕ) → (answer_set s vs).sketch ≡ s
unfolding answer_set
answer_set-sketch s [] = refl
answer_set-sketch s (v ∷ vs) = refl

insert-ne-nil : (v : ℕ) → insert v [] ≢ []
unfolding insert contains
insert-ne-nil v e = cc

module _ (h : Hashing) (st : Statics) (s : Sketch) (conf : IsConfigured st) where
  abbrev collected : List ℕ
  collected = collect_columns h st s st.num_columns 0 []

  collected_sound :
      (w : ℕ)
      → contains w collected ≡ true
      → (b : ℕ) × (b < st.num_elems) × (bucket_is_good h s b ≡ true) × (w ≡ a_at s b)
  unfolding contains
  collected_sound w e = elim (collect_columns_sound h st s st.num_columns 0 w [] e) [
    | inl old ↦ cc
    | inr m ↦ (
      bucket_id st m.column m.row,
      bucket_id-lt st conf m.column m.row (omega (arith, m.to)) m.in_column,
      m.passes,
      m.holds,
    )
  ]

  collected-full :
      bucket_is_good h s (last_bucket st) ≡ false
      → (b : ℕ) → b < st.num_elems
      → bucket_is_good h s b ≡ true
      → contains (a_at s b) collected ≡ true
  collected-full bad b p g = elim (ℕ_discrete b (last_bucket st)) [
    | yes same ↦ cc (sym g ∙ ap (bucket_is_good h s) same ∙ bad)
    | no other ↦
        let (q, r, w) = bucket_id-row st conf b (unfold last_bucket in omega arith) in
        rw (← w) (
          collect_columns-full h st s st.num_columns 0 _ _ [] (omega arith) (omega arith) r
            (ap (bucket_is_good h s) w ∙ g))
  ]

  collected_none :
      bucket_is_good h s (last_bucket st) ≡ false
      → collected ≡ []
      → (b : ℕ) → b < st.num_elems
      → bucket_is_good h s b ≡ false
  unfolding contains
  collected_none bad empty b p = elim (Bool-cases (bucket_is_good h s b)) [
    | inl g ↦ cc (sym (collected-full bad b p g) ∙ ap (contains (a_at s b)) empty)
    | inr g ↦ g
  ]

  -- On a sketch that was not queried `exhaustive_query` answers: ZERO if the deterministic bucket
  -- is zero; GOOD with a set that is not empty and holds indices of good buckets only, and all of
  -- them unless the deterministic bucket is good itself; and FAIL only if no bucket is good.
  pub exhaustive_query-Collects :
      s.already_queried ≡ false
      → (a : Answer (List ℕ)) × (exhaustive_query h st s ≡ ok a) × Collects h st s a.value a.code
  unfolding exhaustive_query answer_set
  exhaustive_query-Collects fresh = elim (Bool-cases (last_is_zero st s)) [
    | inl z ↦ (
      record { sketch = s; value = []; code = SampleSketchRet.zero },
      simp (fresh, z),
      (last_is_zero-true st s z, refl),
    )
    | inr z ↦ elim (Bool-cases (bucket_is_good h s (last_bucket st))) [
      | inl g ↦ (
        record {
          sketch = s;
          value = insert (a_at s (last_bucket st)) [];
          code = SampleSketchRet.good;
        },
        simp (fresh, z, g),
        (
          last_is_zero-false st s z,
          insert-ne-nil (a_at s (last_bucket st)),
          λ w e. (
            last_bucket st,
            last_bucket-lt h st conf,
            g,
            contains-singleton w (a_at s (last_bucket st)) e,
          ),
          λ bad. cc,
        ),
      )
      | inr g ↦ elim (List-cases collected) [
        | inl e ↦ (
          record { sketch = mark_queried s; value = []; code = SampleSketchRet.fail },
          simp (fresh, z, g, e, answer_set),
          (last_is_zero-false st s z, collected_none g e, refl),
        )
        | inr (v, vs, e) ↦ (
          record { sketch = mark_queried s; value = v ∷ vs; code = SampleSketchRet.good },
          simp (fresh, z, g, e, answer_set),
          (
            last_is_zero-false st s z,
            (λ i. cc),
            λ w i. collected_sound w (rw e i),
            λ bad b p q. rw (← e) (collected-full bad b p q),
          ),
        )
      ]
    ]
  ]

  -- A query that returns ZERO, or the index of the deterministic bucket, leaves the sketch
  -- unmarked, so it can be made again; every other marks the sketch.
  pub exhaustive_query-sketch :
      (a : Answer (List ℕ))
      → exhaustive_query h st s ≡ ok a
      → a.sketch
        ≡ (if last_is_zero st s || bucket_is_good h s (last_bucket st) then s else mark_queried s)
  unfolding exhaustive_query
  exhaustive_query-sketch a e = ground (arith, answer_set-sketch (mark_queried s) collected)
