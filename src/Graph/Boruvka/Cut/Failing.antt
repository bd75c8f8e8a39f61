-- ===== src/Graph/Boruvka/Cut/Failing.antt =====
-- The representatives that a round keeps: those that failed, none where no sample failed, and those
-- that others were merged into.
use mathlib.Core.List.{Memᴰ}
use anon_graphzeppelin.Base.{
  ℕ, ◌≡◌, ◌≢◌, refl, sym, ap, subst, ◌∙◌, inl, inr, List, [], ◌∷◌, Option, none, some, and_then,
  ltb, ◌==◌, Bool-cases, Option-cases, suc, zero, ◌+◌, ◌<◌, ◌≤◌, length, get_or, ==_iff, arith,
  false,
}
use anon_graphzeppelin.Types.{Edge, SampleSketchRet}
use anon_graphzeppelin.Forest.{at}
use anon_graphzeppelin.Graph.{
  Step, Merging, get_parent, link_supernodes, merge_parents, first_parent, second_parent,
  merge_sample, merge_samples, still_failed, merged_into,
}

-- The result, if there is one, has the same failures.
abbrev SameReps : Merging → Option Merging → Type 0
SameReps m none = Unit {0}
SameReps m (some t) = t.new_reps ≡ m.new_reps

merge_parents-new_reps :
    (m : Merging) (a b : ℕ) (edge : Edge) → (merge_parents m a b edge).new_reps ≡ m.new_reps
unfolding merge_parents link_supernodes
merge_parents-new_reps m a b edge = elim (Bool-cases (a == b)) [
  | inl e ↦ rw e refl
  | inr e ↦ elim (Bool-cases (ltb (at m.graph.size a) (at m.graph.size b))) [
    | inl less ↦ rw (e, less) refl
    | inr more ↦ rw (e, more) refl
  ]
]

SameReps-second :
    (m : Merging) (a : ℕ) (edge : Edge) (o : Option (Step ℕ))
    → SameReps m (second_parent m a edge o)
unfolding second_parent
SameReps-second m a edge none = tt
SameReps-second m a edge (some r) =
    merge_parents-new_reps (record m { graph = r.graph }) a r.value edge

SameReps-first :
    (fuel : ℕ) (m : Merging) (edge : Edge) (o : Option (Step ℕ))
    → SameReps m (first_parent fuel m edge o)
unfolding first_parent
SameReps-first fuel m edge none = tt
SameReps-first fuel m edge (some r) =
    SameReps-second (record m { graph = r.graph }) r.value edge (get_parent fuel r.graph edge.dst)

SameReps-sample :
    (fuel : ℕ) (m : Merging) (i : ℕ) (edge : Edge) (code : SampleSketchRet)
    → code ≢ SampleSketchRet.fail
    → SameReps m (merge_sample fuel m i edge code)
unfolding merge_sample
SameReps-sample fuel m i edge SampleSketchRet.good ne =
    SameReps-first fuel m edge (get_parent fuel m.graph edge.src)
SameReps-sample fuel m i edge SampleSketchRet.zero ne = refl
SameReps-sample fuel m i edge SampleSketchRet.fail ne = absurd (ne refl)

-- The whole loop.
pub SameReps-samples :
    (fuel : ℕ) (query : ℕ → Edge × SampleSketchRet) (reps : List ℕ) (m m' : Merging)
    → ((i : ℕ) → Memᴰ i reps → (query i).1 ≢ SampleSketchRet.fail)
    → merge_samples fuel query m reps ≡ some m'
    → m'.new_reps ≡ m.new_reps
unfolding merge_samples
SameReps-samples fuel query [] m m' never run =
    sym (ap (λ o. elim o [ none ↦ [] | some t ↦ t.new_reps ]) run)
SameReps-samples fuel query (i ∷ reps) m m' never run =
    elim (Option-cases (merge_sample fuel m i (query i).0 (query i).1)) [
      | inl failed ↦ cc
      | inr (t, e) ↦
          let one =
            subst (SameReps m) e
              (SameReps-sample fuel m i (query i).0 (query i).1 (never i (Memᴰ.head refl))) in
          SameReps-samples fuel query reps t m' (λ j l. never j (Memᴰ.tail l))
            (ap (λ o. and_then o (λ t. merge_samples fuel query t reps)) (sym e) ∙ run)
          ∙ one
    ]

-- A failed node without a list is tried again.
pub Memᴰ-still_failed :
    (lists : List (List ℕ)) (r : ℕ) (is : List ℕ)
    → get_or lists r [] ≡ []
    → Memᴰ r is
    → Memᴰ r (still_failed lists is)
unfolding still_failed
Memᴰ-still_failed lists r [] empty m = elim m [ ]
Memᴰ-still_failed lists r (i ∷ is) empty m = elim (Bool-cases (length (get_or lists i []) == 0)) [
  | inl e ↦ rw e (elim m [
    | Memᴰ.head s ↦ Memᴰ.head s
    | Memᴰ.tail m' ↦ Memᴰ.tail (Memᴰ-still_failed lists r is empty m')
  ])
  | inr e ↦ rw e (elim m [
    | Memᴰ.head s ↦ absurd (full (ap length (ap (λ k. get_or lists k []) (sym s) ∙ empty)) e)
    | Memᴰ.tail m' ↦ Memᴰ-still_failed lists r is empty m'
  ])
]
  where
    full : {k : ℕ} → k ≡ 0 → (k == 0) ≡ false → ⊥
    full h e = ground arith

-- A node with a list is a representative.
pub Memᴰ-merged_into :
    (lists : List (List ℕ)) (r left a : ℕ)
    → a ≤ r
    → r < a + left
    → (length (get_or lists r []) == 0) ≡ false
    → Memᴰ r (merged_into lists left a)
unfolding merged_into
Memᴰ-merged_into lists r zero a le lt filled = absurd (omega arith)
Memᴰ-merged_into lists r (suc left) a le lt filled = elim (Bool-cases (a == r)) [
  | inl e ↦
      rw (subst (λ k. (length (get_or lists k []) == 0) ≡ false) (sym ((==_iff a r).0 e)) filled)
        (Memᴰ.head (sym ((==_iff a r).0 e)))
  | inr e ↦
      let later = Memᴰ-merged_into lists r left (a + 1) (ground arith) (omega arith) filled in
      elim (Bool-cases (length (get_or lists a []) == 0)) [
        | inl empty ↦ rw empty later
        | inr full ↦ rw full (Memᴰ.tail later)
      ]
]
