-- ===== src/Graph/Boruvka/Cut/Telling.antt =====
-- What `sample_supernodes` tells of the classes.
use anon_graphzeppelin.Base.{
  ℕ, ◌≡◌, refl, sym, subst, ◌⊎◌, inl, inr, arith, true, false, List, [], ◌∷◌, none, get_or, set,
  get_or-set_ne, ◌==◌, Result, ok, throw,
}
use mathlib.Core.List.{Memᴰ}
use native.Mathlib.Decide.{ℕ_discrete}
use anon_graphzeppelin.Types.{Edge, SampleSketchRet}
use anon_graphzeppelin.Graph.Sampler.{Sampler}
use anon_graphzeppelin.Graph.Boruvka.{Sampling, take_sample, sample_supernodes}
use anon_graphzeppelin.Graph.Boruvka.Samples.{get_or-set_cases}
use anon_graphzeppelin.Graph.Boruvka.Cut.{IsCut}

module _ (S : Sampler) (n : ℕ) (IsEdge : Edge → Type 0) (cut : IsCut S n IsEdge) where
  -- An answer that came from a state for the nodes of `X`.
  abbrev pub Told : (ℕ → Type 0) → Edge × SampleSketchRet → Type 0
  Told X q = (s : S.State) × cut.Shows s X × ((S.sample s).result ≡ ok q)

  -- The state at `c` shows `X`, and if `c` was sampled, without an exception, so does its answer.
  pub record Tells (X : ℕ → Type 0) (c : ℕ) (t t' : Sampling S.State) (reps : List ℕ) : Type 0 where
    pub shows : cut.Shows (get_or t'.supernodes c S.absent) X
    pub told : t'.err ≡ none → Told X (t.query c) ⊎ Memᴰ c reps → Told X (t'.query c)
    pub quiet : t'.err ≡ none → t.err ≡ none

  sampled-Shows :
      (X : ℕ → Type 0) (c i : ℕ) (sn : List S.State)
      → cut.Shows (get_or sn c S.absent) X
      → cut.Shows (get_or (set sn i (S.sample (get_or sn i S.absent)).state) c S.absent) X
  sampled-Shows X c i sn shows = elim (ℕ_discrete i c) [
    | yes e ↦
        get_or-set_cases (λ y. cut.Shows y X) sn i c (S.sample (get_or sn i S.absent)).state
          S.absent
          (cut.sample-Shows (get_or sn i S.absent) X
            (subst (λ k. cut.Shows (get_or sn k S.absent) X) (sym e) shows))
          shows
    | no ne ↦
        subst (λ y. cut.Shows y X)
          (sym (get_or-set_ne sn i c (S.sample (get_or sn i S.absent)).state S.absent ne)) shows
  ]

  -- `result` is what the sample of `i` gives.
  take-Tells :
      (X : ℕ → Type 0) (c : ℕ) (t : Sampling S.State) (i : ℕ)
      (result : Result (Edge × SampleSketchRet))
      → (S.sample (get_or t.supernodes i S.absent)).result ≡ result
      → cut.Shows (get_or t.supernodes c S.absent) X
      → Tells X c t
          (take_sample S t i
            (record { state = (S.sample (get_or t.supernodes i S.absent)).state; result = result }))
          (i ∷ [])
  unfolding take_sample
  take-Tells X c t i (throw x) e shows = record {
    shows = sampled-Shows X c i t.supernodes shows;
    told = λ quiet _. cc;
    quiet = λ quiet. cc;
  }
  take-Tells X c t i (ok r) e shows = record {
    shows = sampled-Shows X c i t.supernodes shows;
    told = λ quiet known. elim (ℕ_discrete c i) [
      | yes same ↦
          let test : (c == i) ≡ true = ground (arith, same) in
          rw test (
            get_or t.supernodes i S.absent,
            subst (λ k. cut.Shows (get_or t.supernodes k S.absent) X) same shows,
            e,
          )
      | no ne ↦
          let test : (c == i) ≡ false = ground (arith, ne) in
          rw test (elim known [
            | inl before ↦ before
            | inr m ↦ elim m [ Memᴰ.head same ↦ absurd (ne same) | Memᴰ.tail m' ↦ elim m' [ ] ]
          ])
    ];
    quiet = λ quiet. quiet;
  }

  -- The whole loop.
  pub sample_supernodes-Tells :
      (X : ℕ → Type 0) (c : ℕ) (reps : List ℕ) (t : Sampling S.State)
      → cut.Shows (get_or t.supernodes c S.absent) X
      → Tells X c t (sample_supernodes S t reps) reps
  unfolding sample_supernodes
  sample_supernodes-Tells X c [] t shows = record {
    shows = shows;
    told = λ quiet known. elim known [ inl before ↦ before | inr m ↦ elim m [ ] ];
    quiet = λ quiet. quiet;
  }
  sample_supernodes-Tells X c (i ∷ reps) t shows =
      let s = get_or t.supernodes i S.absent in
      let first = take-Tells X c t i (S.sample s).result refl shows in
      let rest = sample_supernodes-Tells X c reps (take_sample S t i (S.sample s)) first.shows in
      record {
        shows = rest.shows;
        told = λ quiet known. rest.told quiet (elim known [
          | inl before ↦ inl (first.told (rest.quiet quiet) (inl before))
          | inr m ↦ elim m [
            | Memᴰ.head e ↦ inl (first.told (rest.quiet quiet) (inr (Memᴰ.head e)))
            | Memᴰ.tail m' ↦ inr m'
          ]
        ]);
        quiet = λ quiet. first.quiet (rest.quiet quiet);
      }
