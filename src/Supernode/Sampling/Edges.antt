-- ===== src/Supernode/Sampling/Edges.antt =====
-- What a sample of a supernode says of the edges that the sketch holds.
use anon_graphzeppelin.Base.{
  ℕ, ◌<◌, ◌≤◌, ◌^◌, ◌+◌, ◌≡◌, refl, sym, ap, subst, ◌∙◌, inl, inr, true, List, [], ◌∷◌, arith, ◌==◌,
  ==_iff, Bool-cases, Result, ok, throw, out_of_queries, min, max,
}
use anon_graphzeppelin.Types.{Edge, SampleSketchRet}
use anon_graphzeppelin.Util.{concat_pairing_fn, inv_concat_pairing_fn}
use anon_graphzeppelin.Util.Concat.{concat_pairing_fn-sum, inv_concat-concat}
use anon_graphzeppelin.Bucket.{Hashing}
use anon_graphzeppelin.Sketch.{Statics}
use anon_graphzeppelin.Sketch.Content.{odd, SameOdd}
use anon_graphzeppelin.Sketch.Sifted.{held-matching, held-last}
use anon_graphzeppelin.Sketch.Held.{AllIn, held}
use anon_graphzeppelin.Sketch.LastBucket.{IsConfigured}
use anon_graphzeppelin.Sketch.Query.{Answer}
use anon_graphzeppelin.Sketch.Query.Correct
use anon_graphzeppelin.Sketch.Query.Correct.{last_is_zero_of}
use anon_graphzeppelin.Supernode.{Supernode, get_sketch, set_sketch, sample, sample_answer}
use anon_graphzeppelin.Supernode.Delta.{seed_of}
use anon_graphzeppelin.Supernode.Sampling.Kept.{
  IsNumber, Inside, IsSeparating, IsKept, sample-cases, answered-outside,
}

pub odd-AllIn : (P : ℕ → Type 0) (v : ℕ) (l : List ℕ) → AllIn P l → odd v l ≡ true → P v
odd-AllIn P v [] all e = cc
odd-AllIn P v (y ∷ l) all e = elim (Bool-cases (y == v)) [
  | inl same ↦ subst P ((==_iff y v).0 same) all.0
  | inr other ↦ odd-AllIn P v l all.1 (rw other at e)
]

-- The edge that is read from its number.
pub inv_concat-edge :
    (e : Edge)
    → e.src < e.dst
    → e.dst < 2 ^ 32
    → inv_concat_pairing_fn (concat_pairing_fn e.src e.dst) ≡ e
inv_concat-edge e p q =
    let low : min e.src e.dst ≡ e.src = omega (arith, p) in
    let high : max e.src e.dst ≡ e.dst = omega (arith, p) in
    inv_concat-concat e.src e.dst (omega (arith, p, q)) q ∙ λ k. record {
      src = low k;
      dst = high k;
    }

pub concat-narrow :
    (e : Edge) → e.src < e.dst → e.dst < 2 ^ 32 → concat_pairing_fn e.src e.dst < 2 ^ 64
concat-narrow e p q = omega (arith, p, q, concat_pairing_fn-sum e.src e.dst (omega (arith, p, q)) q)

abbrev code_of : Result (Edge × SampleSketchRet) → SampleSketchRet
code_of (ok r) = r.1
code_of (throw x) = SampleSketchRet.fail

abbrev edge_of : Edge → Result (Edge × SampleSketchRet) → Edge
edge_of d (ok r) = r.0
edge_of d (throw x) = d

answer-result :
    (s : Supernode) (a : Answer ℕ)
    → (sample_answer s (ok a)).result ≡ ok (inv_concat_pairing_fn a.value, a.code)
unfolding sample_answer
answer-result s a = refl

module _ (h : Hashing) (st : Statics) (width max_sketches n seed : ℕ) (IsEdge : Edge → Type 0)
    (conf : IsConfigured st) where
  module _ (s : Supernode) (kept : IsKept h st width max_sketches n seed IsEdge s) where
    -- What was answered, and by which sketch.
    pub sample-told :
        (e : Edge) (code : SampleSketchRet)
        → (sample h st s).result ≡ ok (e, code)
        → (s.sample_idx < s.merged_sketches)
          × ((v : ℕ) × (e ≡ inv_concat_pairing_fn v)
              × Correct.Answers h st (get_sketch s s.sample_idx) v code)
    sample-told e code run = elim (sample-cases h st width max_sketches n seed IsEdge conf s kept) [
      | inl (none_left, thrown) ↦ absurd (never (sym (ap (λ o. o.result) thrown) ∙ run))
      | inr (left, (a, answered, marked, right)) ↦
          let told = sym (ap (λ o. o.result) answered ∙ answer-result s a) ∙ run in
          (
            left,
            (
              a.value,
              sym (ap (edge_of e) told),
              subst (Correct.Answers h st (get_sketch s s.sample_idx) a.value) (ap code_of told)
                  right,
            ),
          )
    ]
      where
        never : ◌≡◌ {A = Result (Edge × SampleSketchRet)} (throw out_of_queries) (ok (e, code)) → ⊥
        never p = cc

    module _ (sep : IsSeparating h width max_sketches seed IsEdge) (l : List ℕ)
        (edges : AllIn (IsNumber IsEdge) l)
        (is : get_sketch s s.sample_idx ≡ held h st (seed_of width s.sample_idx seed) l) where
      few : s.sample_idx < s.merged_sketches → s.sample_idx < max_sketches
      few left = omega (arith, left, kept.ready.usable, kept.all)

      -- A sampled edge occurs an odd number of times.
      pub sample-odd :
          (e : Edge)
          → n < 2 ^ 32
          → Inside n IsEdge
          → (sample h st s).result ≡ ok (e, SampleSketchRet.good)
          → IsEdge e × (odd (concat_pairing_fn e.src e.dst) l ≡ true)
      sample-odd e narrow inside run =
          let (left, (v, read, answers)) = sample-told e SampleSketchRet.good run in
          let (nonzero, (b, p, good, found)) =
            subst (λ x. Correct.Answers h st x v SampleSketchRet.good) is answers in
          let again =
            subst (λ k. odd k l ≡ true) (sym found)
              (held-matching h st (seed_of width s.sample_idx seed) b p (IsNumber IsEdge) l edges
                (λ k all e. sep.matching s.sample_idx k (few left) all e) good) in
          let (f, edge, number) = odd-AllIn (IsNumber IsEdge) v l edges again in
          let same : f ≡ e =
            sym (inv_concat-edge f (inside f edge).0 (omega (arith, inside f edge, narrow)))
            ∙ ap inv_concat_pairing_fn (sym number)
            ∙ sym read in
          (
            subst IsEdge same edge,
            subst (λ g. odd (concat_pairing_fn g.src g.dst) l ≡ true) same
                (subst (λ k. odd k l ≡ true) number again),
          )

      -- Where the answer is ZERO, no edge does.
      pub sample-even :
          (e : Edge) → (sample h st s).result ≡ ok (e, SampleSketchRet.zero) → SameOdd l []
      sample-even e run =
          let (left, (v, read, answers)) = sample-told e SampleSketchRet.zero run in
          let (z, none) = subst (λ x. Correct.Answers h st x v SampleSketchRet.zero) is answers in
          let (sum, hashes) =
            held-last h st conf (seed_of width s.sample_idx seed) l (last_is_zero_of st _ z) in
          sep.none_left s.sample_idx l (few left) edges sum hashes

-- A sample uses up one sketch, and leaves the later ones.
module _ (h : Hashing) (st : Statics) (width max_sketches n seed : ℕ) (IsEdge : Edge → Type 0)
    (conf : IsConfigured st) (s : Supernode)
    (kept : IsKept h st width max_sketches n seed IsEdge s) where
  abbrev After : Supernode → Type 0
  After t =
      (t.merged_sketches ≡ s.merged_sketches)
      × (s.sample_idx ≤ t.sample_idx)
      × (s.sample_idx < s.merged_sketches → t.sample_idx ≡ s.sample_idx + 1)
      × ((i : ℕ) → t.sample_idx ≤ i → i < s.merged_sketches → get_sketch t i ≡ get_sketch s i)

  answer-After :
      (a : Answer ℕ) → s.sample_idx < s.merged_sketches → After (sample_answer s (ok a)).node
  answer-After a left = (
    unfold sample_answer set_sketch in refl,
    unfold sample_answer set_sketch in omega arith,
    λ _. unfold sample_answer set_sketch in refl,
    λ i p q. answered-outside h st width max_sketches n seed IsEdge conf s kept a i left (
        let next : s.sample_idx + 1 ≤ i = (unfold sample_answer set_sketch in p) in
        omega (arith, next)),
  )

  pub sample-keeps : After (sample h st s).node
  sample-keeps = elim (sample-cases h st width max_sketches n seed IsEdge conf s kept) [
    | inl (none_left, e) ↦
        rw e (refl, omega arith, λ left. absurd (omega (arith, left, none_left)), λ i p q. refl)
    | inr (left, (a, e, marked, right)) ↦ rw e (answer-After a left)
  ]
