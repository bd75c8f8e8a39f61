-- ===== src/Graph/Boruvka/Samples.antt =====
-- What `sample_supernodes` and `merge_supernodes` do to the supernodes: each stays a good state, and
-- together they have fewer samples left.
use mathlib.Core.List.{Memᴰ}
use anon_graphzeppelin.Base.{
  Below, ℕ, zero, suc, ◌+◌, ◌<◌, ◌≤◌, ◌≡◌, ◌≢◌, refl, sym, ap, subst, ◌∙◌, ◌⊎◌, inl, inr, arith,
  Bool, true, false, List, [], ◌∷◌, none, ◌==◌, length, get_or, set, length-set, get_or-set_self,
  get_or-set_ne, Result, ok, throw,
}
use native.Mathlib.Decide.{ℕ_discrete, dec_lt}
use anon_graphzeppelin.Types.{Edge, SampleSketchRet}
use anon_graphzeppelin.Forest.Sum.{sum, sum-change}
use anon_graphzeppelin.Graph.Sampler.{Sampler, IsFair}
use anon_graphzeppelin.Graph.Boruvka.{
  Sampling, take_sample, sample_supernodes, merge_into, merge_supernodes,
}

-- A write out of bounds is lost, as is a read.
pub get_or-set_cases :
    {A : Type 0} (P : A → Type 0) (xs : List A) (i j : ℕ) (x d : A)
    → P x
    → P (get_or xs j d)
    → P (get_or (set xs i x) j d)
get_or-set_cases P xs i j x d px pj = elim (ℕ_discrete i j) [
  | no ne ↦ subst P (sym (get_or-set_ne xs i j x d ne)) pj
  | yes e ↦ elim (dec_lt i (length xs)) [
    | yes inside ↦
        subst P (sym (ap (λ k. get_or (set xs i x) k d) (sym e) ∙ get_or-set_self xs i x d inside))
          px
    | no outside ↦ subst P (sym (ap (λ l. get_or l j d) (set_out xs i x (omega arith)))) pj
  ]
]
  where
    set_out : {A : Type 0} (xs : List A) (i : ℕ) (x : A) → length xs ≤ i → set xs i x ≡ xs
    set_out [] i x p = refl
    set_out (y ∷ xs) zero x p = absurd (omega arith)
    set_out (y ∷ xs) (suc i) x p = ap (λ l. y ∷ l) (set_out xs i x (omega arith))

module _ (S : Sampler) (n : ℕ) (Good : S.State → Type 0) (IsEdge : Edge → Type 0)
    (fair : IsFair S n Good IsEdge) where
  abbrev pub AllGood : List S.State → Type 0
  AllGood supernodes = (i : ℕ) → Good (get_or supernodes i S.absent)

  -- All the samples that are left.
  abbrev pub total_remaining : List S.State → ℕ
  total_remaining supernodes = sum (λ i. fair.remaining (get_or supernodes i S.absent)) n

  AllGood-set :
      (supernodes : List S.State) (i : ℕ) (x : S.State)
      → AllGood supernodes
      → Good x
      → AllGood (set supernodes i x)
  AllGood-set supernodes i x good gx j = get_or-set_cases Good supernodes i j x S.absent gx (good j)

  total-set :
      (supernodes : List S.State) (i : ℕ) (x : S.State)
      → i < n
      → i < length supernodes
      → total_remaining (set supernodes i x) + fair.remaining (get_or supernodes i S.absent)
        ≡ total_remaining supernodes + fair.remaining x
  total-set supernodes i x p inside =
      sum-change (λ j. fair.remaining (get_or (set supernodes i x) j S.absent))
        (λ j. fair.remaining (get_or supernodes j S.absent)) n i p
        (λ j q ne. ap fair.remaining (get_or-set_ne supernodes i j x S.absent ne))
      ∙ ap (λ k. total_remaining supernodes + fair.remaining k)
          (get_or-set_self supernodes i x S.absent inside)

  -- An answer of `sample`, where it is an edge.
  abbrev pub Honest : Edge × SampleSketchRet → Type 0
  Honest r = r.1 ≡ SampleSketchRet.good → IsEdge r.0

  -- What a loop over samples makes of `t`: `t'`.
  pub record Samplings (reps : List ℕ) (t t' : Sampling S.State) : Type 0 where
    pub size : length t'.supernodes ≡ length t.supernodes
    pub good : AllGood t'.supernodes
    pub le : total_remaining t'.supernodes ≤ total_remaining t.supernodes
    pub err : t'.err ≡ none → t.err ≡ none
    pub less :
        t'.err ≡ none → reps ≢ [] → total_remaining t'.supernodes < total_remaining t.supernodes
    pub honest : (j : ℕ) → t'.err ≡ none → Honest (t.query j) ⊎ Memᴰ j reps → Honest (t'.query j)

  -- An answer that came from state `s` and left `y`.
  record Answered (s y : S.State) (result : Result (Edge × SampleSketchRet)) : Type 0 where
    good : Good y
    le : fair.remaining y ≤ fair.remaining s
    less : (r : Edge × SampleSketchRet) → result ≡ ok r → fair.remaining y < fair.remaining s
    honest : (r : Edge × SampleSketchRet) → result ≡ ok r → Honest r

  sample-Answered : (s : S.State) → Good s → Answered s (S.sample s).state (S.sample s).result
  sample-Answered s g = record {
    good = fair.sample-Good s g;
    le = fair.sample-le s g;
    less = λ r e. fair.sample-lt s r g e;
    honest = λ r e code. fair.sample-IsEdge s r.0 g (e ∙ ap (λ c. ok (r.0, c)) code);
  }

  take-Samplings :
      (t : Sampling S.State) (i : ℕ) (y : S.State) (result : Result (Edge × SampleSketchRet))
      → length t.supernodes ≡ n
      → i < n
      → AllGood t.supernodes
      → Answered (get_or t.supernodes i S.absent) y result
      → Samplings (i ∷ []) t (take_sample S t i (record { state = y; result = result }))
  unfolding take_sample
  take-Samplings t i y (ok r) size p good answered =
      let change = total-set t.supernodes i y p (omega (arith, size)) in
      record {
        size = length-set t.supernodes i y;
        good = AllGood-set t.supernodes i y good answered.good;
        le = omega (arith, change, answered.le);
        err = λ e. e;
        less = λ _ _. omega (arith, change, answered.less r refl);
        honest = λ j _ known. elim (ℕ_discrete j i) [
          | yes e ↦
              let test : (j == i) ≡ true = ground (arith, e) in rw test (answered.honest r refl)
          | no ne ↦
              let test : (j == i) ≡ false = ground (arith, ne) in
              rw test (elim known [
                | inl h ↦ h
                | inr m ↦ elim m [ Memᴰ.head e ↦ absurd (ne e) | Memᴰ.tail m' ↦ elim m' [ ] ]
              ])
        ];
      }
  take-Samplings t i y (throw x) size p good answered =
      let change = total-set t.supernodes i y p (omega (arith, size)) in
      record {
        size = length-set t.supernodes i y;
        good = AllGood-set t.supernodes i y good answered.good;
        le = omega (arith, change, answered.le);
        err = λ e. cc;
        less = λ e _. cc;
        honest = λ j e _. cc;
      }

  Samplings-trans :
      (i : ℕ) (reps : List ℕ) {t t' t'' : Sampling S.State}
      → Samplings (i ∷ []) t t'
      → Samplings reps t' t''
      → Samplings (i ∷ reps) t t''
  Samplings-trans i reps {t} {t'} {t''} first rest = record {
    size = rest.size ∙ first.size;
    good = rest.good;
    le = omega (arith, first.le, rest.le);
    err = λ e. first.err (rest.err e);
    less = λ e _. omega (arith, rest.le, first.less (rest.err e) (λ q. cc));
    honest = λ j e known. rest.honest j e (elim known [
      | inl h ↦ inl (first.honest j (rest.err e) (inl h))
      | inr m ↦ elim m [
        | Memᴰ.head q ↦ inl (first.honest j (rest.err e) (inr (Memᴰ.head q)))
        | Memᴰ.tail m' ↦ inr m'
      ]
    ]);
  }

  pub sample_supernodes-Samplings :
      (reps : List ℕ) (t : Sampling S.State)
      → length t.supernodes ≡ n
      → Below n reps
      → AllGood t.supernodes
      → Samplings reps t (sample_supernodes S t reps)
  unfolding sample_supernodes
  sample_supernodes-Samplings [] t size below good = record {
    size = refl;
    good = good;
    le = omega arith;
    err = λ e. e;
    less = λ e ne. absurd (ne refl);
    honest = λ j e known. elim known [ inl h ↦ h | inr m ↦ elim m [ ] ];
  }
  sample_supernodes-Samplings (i ∷ reps) t size below good =
      let s = get_or t.supernodes i S.absent in
      let first =
        take-Samplings t i (S.sample s).state (S.sample s).result size below.0 good
          (sample-Answered s (good i)) in
      Samplings-trans i reps first (
        sample_supernodes-Samplings reps (take_sample S t i (S.sample s)) (first.size ∙ size)
          below.1 first.good)

  -- What a merging of supernodes keeps.
  pub record Merges (sn sn' : List S.State) : Type 0 where
    pub size : length sn' ≡ length sn
    pub good : AllGood sn'
    pub le : total_remaining sn' ≤ total_remaining sn

  Merges-trans : {sn sn' sn'' : List S.State} → Merges sn sn' → Merges sn' sn'' → Merges sn sn''
  Merges-trans p q = record {
    size = q.size ∙ p.size;
    good = q.good;
    le = omega (arith, p.le, q.le);
  }

  merge_one-Merges :
      (a b : ℕ) (sn : List S.State)
      → length sn ≡ n
      → a < n
      → AllGood sn
      → Merges sn (set sn a (S.merge (get_or sn a S.absent) (get_or sn b S.absent)))
  merge_one-Merges a b sn size p good =
      let x = S.merge (get_or sn a S.absent) (get_or sn b S.absent) in
      record {
        size = length-set sn a x;
        good = AllGood-set sn a x good (fair.merge-Good _ _ (good a) (good b));
        le = omega (
          arith,
          total-set sn a x p (omega (arith, size)),
          fair.merge-le (get_or sn a S.absent) (get_or sn b S.absent) (good a) (good b),
        );
      }

  merge_into-Merges :
      (a : ℕ) (bs : List ℕ) (sn : List S.State)
      → length sn ≡ n
      → a < n
      → AllGood sn
      → Merges sn (merge_into S a bs sn)
  unfolding merge_into
  merge_into-Merges a [] sn size p good = record { size = refl; good = good; le = omega arith }
  merge_into-Merges a (b ∷ bs) sn size p good =
      let one = merge_one-Merges a b sn size p good in
      Merges-trans one (merge_into-Merges a bs _ (one.size ∙ size) p one.good)

  pub merge_supernodes-Merges :
      (make_copy : Bool) (to_merge : List (List ℕ)) (reps : List ℕ) (copies sn : List S.State)
      → length sn ≡ n
      → Below n reps
      → AllGood sn
      → Merges sn (merge_supernodes S make_copy to_merge reps copies sn).1
  unfolding merge_supernodes
  merge_supernodes-Merges make_copy to_merge [] copies sn size below good = record {
    size = refl;
    good = good;
    le = omega arith;
  }
  merge_supernodes-Merges make_copy to_merge (a ∷ reps) copies sn size below good =
      let one = merge_into-Merges a (get_or to_merge a []) sn size below.0 good in
      Merges-trans one
        (merge_supernodes-Merges make_copy to_merge reps _ _ (one.size ∙ size) below.1 one.good)
