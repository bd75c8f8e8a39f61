-- ===== src/Graph/Supernodes/Crossing.antt =====
-- The supernodes satisfy the second interface: they stand for sets of nodes, and hold the edges that
-- leave the set.
use anon_graphzeppelin.Base.{
  ℕ, Bool, ◌<◌, ◌≤◌, ◌^◌, ◌≡◌, refl, sym, subst, ◌∙◌, ◌⊎◌, ◌↔◌, inl, inr, true, false, List, ◌++◌,
  ok, arith,
}
use anon_graphzeppelin.Types.{Edge, SampleSketchRet}
use anon_graphzeppelin.Util.{concat_pairing_fn}
use anon_graphzeppelin.Bucket.{Hashing}
use anon_graphzeppelin.Sketch.{Statics}
use anon_graphzeppelin.Sketch.Content.{odd, odd-append, xor}
use anon_graphzeppelin.Sketch.Held.{AllIn, AllIn-append, held}
use anon_graphzeppelin.Sketch.LastBucket.{IsConfigured}
use anon_graphzeppelin.Supernode.{Supernode, get_sketch, sample, merge}
use anon_graphzeppelin.Supernode.Delta.{seed_of}
use anon_graphzeppelin.Supernode.Sampling.{merge-IsReady}
use anon_graphzeppelin.Supernode.Sampling.Kept.{
  IsNumber, Inside, IsSeparating, IsKept, sample-IsKept, merge-IsKept, sum-held,
}
use anon_graphzeppelin.Supernode.Sampling.Edges.{sample-told, sample-odd, sample-even, sample-keeps}
use anon_graphzeppelin.Supernode.Sampling.Filled.{filled, filled-IsKept, filled-get, filled-merged}
use anon_graphzeppelin.Graph.Boruvka.Cut.{IsCut}
use anon_graphzeppelin.Graph.Supernodes.{supernodes}

never_true : false ≡ true → ⊥
never_true e = cc

-- An edge has one end in a set.
abbrev pub Crosses : (ℕ → Type 0) → Edge → Type 0
Crosses X e = (X e.src × (X e.dst → ⊥)) ⊎ ((X e.src → ⊥) × X e.dst)

abbrev pub Decided : ℕ → (ℕ → Type 0) → Type 0
Decided n X = (i : ℕ) → i < n → X i ⊎ (X i → ⊥)

-- The edges that occur an odd number of times are those that leave the set.
abbrev pub Cuts : (Edge → Type 0) → List ℕ → (ℕ → Type 0) → Type 0
Cuts IsEdge l X =
    (e : Edge) → IsEdge e → (odd (concat_pairing_fn e.src e.dst) l ≡ true) ↔ Crosses X e

module _ (X Y : ℕ → Type 0) (e : Edge) (apart_src : X e.src → Y e.src → ⊥)
    (apart_dst : X e.dst → Y e.dst → ⊥) where
  both-leave : Crosses X e → Crosses Y e → Crosses (λ i. X i ⊎ Y i) e → ⊥
  both-leave (inl (x, nx)) (inl (y, ny)) r = apart_src x y
  both-leave (inl (x, nx)) (inr (ny, y)) (inl (_, out)) = out (inr y)
  both-leave (inl (x, nx)) (inr (ny, y)) (inr (out, _)) = out (inl x)
  both-leave (inr (nx, x)) (inl (y, ny)) (inl (_, out)) = out (inl x)
  both-leave (inr (nx, x)) (inl (y, ny)) (inr (out, _)) = out (inr y)
  both-leave (inr (nx, x)) (inr (ny, y)) r = apart_dst x y

  first-leaves : Crosses X e → (Crosses Y e → ⊥) → Crosses (λ i. X i ⊎ Y i) e
  first-leaves (inl (x, nx)) q =
      inl (inl x, λ u. elim u [ inl d ↦ nx d | inr y ↦ q (inr (apart_src x, y)) ])
  first-leaves (inr (nx, x)) q =
      inr (λ u. elim u [ inl d ↦ nx d | inr y ↦ q (inl (y, apart_dst x)) ], inl x)

  second-leaves : (Crosses X e → ⊥) → Crosses Y e → Crosses (λ i. X i ⊎ Y i) e
  second-leaves p (inl (y, ny)) =
      inl (inr y, λ u. elim u [ inl x ↦ p (inr (λ x'. apart_src x' y, x)) | inr d ↦ ny d ])
  second-leaves p (inr (ny, y)) =
      inr (λ u. elim u [ inl x ↦ p (inl (x, λ x'. apart_dst x' y)) | inr d ↦ ny d ], inr y)

  neither-leaves : (Crosses X e → ⊥) → (Crosses Y e → ⊥) → Crosses (λ i. X i ⊎ Y i) e → ⊥
  neither-leaves p q (inl (inl x, out)) = p (inl (x, λ d. out (inl d)))
  neither-leaves p q (inl (inr y, out)) = q (inl (y, λ d. out (inr d)))
  neither-leaves p q (inr (out, inl x)) = p (inr (λ s. out (inl s), x))
  neither-leaves p q (inr (out, inr y)) = q (inr (λ s. out (inr s), y))

  -- The edges of two sets without a common node: those that leave both leave their union no more.
  Crosses-union :
      (a b : Bool)
      → (a ≡ true) ↔ Crosses X e
      → (b ≡ true) ↔ Crosses Y e
      → (xor a b ≡ true) ↔ Crosses (λ i. X i ⊎ Y i) e
  Crosses-union true true p q = (λ odd. cc, λ r. absurd (both-leave (p.0 refl) (q.0 refl) r))
  Crosses-union true false p q =
      (λ odd. first-leaves (p.0 refl) (λ y. never_true (q.1 y)), λ r. refl)
  Crosses-union false true p q =
      (λ odd. second-leaves (λ x. never_true (p.1 x)) (q.0 refl), λ r. refl)
  Crosses-union false false p q = (
    λ odd. cc,
    λ r. absurd (neither-leaves (λ x. never_true (p.1 x)) (λ y. never_true (q.1 y)) r),
  )

pub Cuts-append :
    (n : ℕ) (IsEdge : Edge → Type 0) (l m : List ℕ) (X Y : ℕ → Type 0)
    → Inside n IsEdge
    → ((i : ℕ) → i < n → X i → Y i → ⊥)
    → Cuts IsEdge l X
    → Cuts IsEdge m Y
    → Cuts IsEdge (l ++ m) (λ i. X i ⊎ Y i)
Cuts-append n IsEdge l m X Y inside apart p q e edge =
    let ends = inside e edge in
    let v = concat_pairing_fn e.src e.dst in
    subst (λ b. (b ≡ true) ↔ Crosses (λ i. X i ⊎ Y i) e) (sym (odd-append l m v))
      (Crosses-union X Y e (apart e.src (omega (arith, ends))) (apart e.dst ends.1) (odd v l)
        (odd v m) (p e edge) (q e edge))

pub Cuts-same :
    (n : ℕ) (IsEdge : Edge → Type 0) (l : List ℕ) (X Y : ℕ → Type 0)
    → Inside n IsEdge
    → ((i : ℕ) → i < n → X i ↔ Y i)
    → Cuts IsEdge l X
    → Cuts IsEdge l Y
Cuts-same n IsEdge l X Y inside same cuts e edge =
    let ends = inside e edge in
    let s = same e.src (omega (arith, ends)) in
    let d = same e.dst ends.1 in
    (
      λ odd. elim ((cuts e edge).0 odd) [
        | inl (x, out) ↦ inl (s.0 x, λ y. out (d.1 y))
        | inr (out, x) ↦ inr (λ y. out (s.1 y), d.0 x)
      ],
      λ crosses. (cuts e edge).1 (elim crosses [
        | inl (y, out) ↦ inl (s.1 y, λ x. out (d.0 x))
        | inr (out, y) ↦ inr (λ x. out (s.0 x), d.1 y)
      ]),
    )

module _ (h : Hashing) (st : Statics) (width max_sketches n seed : ℕ) (IsEdge : Edge → Type 0) where
  -- A supernode of the nodes in `X`: each sketch that is left holds the edges that leave `X`.
  pub record StandsFor (s : Supernode) (X : ℕ → Type 0) : Type 0 where
    pub kept : IsKept h st width max_sketches n seed IsEdge s
    pub decided : Decided n X
    pub cuts :
        (i : ℕ)
        → s.sample_idx ≤ i
        → i < s.merged_sketches
        → (l : List ℕ) × AllIn (IsNumber IsEdge) l
          × (get_sketch s i ≡ held h st (seed_of width i seed) l)
          × Cuts IsEdge l X

  module _ (fuel : ℕ) (conf : IsConfigured st) (narrow : n < 2 ^ 32) (inside : Inside n IsEdge)
      (sep : IsSeparating h width max_sketches seed IsEdge) where
    StandsFor-same :
        (s : Supernode) (X Y : ℕ → Type 0)
        → ((i : ℕ) → i < n → X i ↔ Y i)
        → StandsFor s X
        → StandsFor s Y
    StandsFor-same s X Y same p = record {
      kept = p.kept;
      decided = λ i q. elim (p.decided i q) [
        | inl x ↦ inl ((same i q).0 x)
        | inr out ↦ inr (λ y. out ((same i q).1 y))
      ];
      cuts = λ i q r.
          let (l, edges, is, cuts) = p.cuts i q r in
          (l, edges, is, Cuts-same n IsEdge l X Y inside same cuts);
    }

    StandsFor-sample :
        (s : Supernode) (X : ℕ → Type 0) → StandsFor s X → StandsFor (sample h st s).node X
    StandsFor-sample s X p =
        let (last, le, next, later) =
          sample-keeps h st width max_sketches n seed IsEdge conf s p.kept in
        record {
          kept = sample-IsKept h st width max_sketches n seed IsEdge conf s p.kept;
          decided = p.decided;
          cuts = λ i q r.
              let (l, edges, is, cuts) = p.cuts i (omega (arith, q, le)) (omega (arith, r, last)) in
              (l, edges, later i q (omega (arith, r, last)) ∙ is, cuts);
        }

    StandsFor-merge :
        (s t : Supernode) (X Y : ℕ → Type 0)
        → ((i : ℕ) → i < n → X i → Y i → ⊥)
        → StandsFor s X
        → StandsFor t Y
        → StandsFor (merge st s t) (λ i. X i ⊎ Y i)
    StandsFor-merge s t X Y apart p q =
        let (ready, idx, last, sums) =
          merge-IsReady st s t p.kept.ready q.kept.ready (p.kept.all ∙ sym q.kept.all) in
        record {
          kept = merge-IsKept h st width max_sketches n seed IsEdge conf sep s t p.kept q.kept;
          decided = λ i r. elim (p.decided i r) [
            | inl x ↦ inl (inl x)
            | inr out ↦ elim (q.decided i r) [
              | inl y ↦ inl (inr y)
              | inr out' ↦ inr (λ u. elim u [ inl x ↦ out x | inr y ↦ out' y ])
            ]
          ];
          cuts = λ i r k.
              let (l, edges, is, cuts) =
                p.cuts i (omega (arith, r, idx)) (omega (arith, k, last)) in
              let (m, edges', is', cuts') =
                q.cuts i (omega (arith, r, idx)) (omega (arith, k, last)) in
              (
                l ++ m,
                AllIn-append (IsNumber IsEdge) l m edges edges',
                sums i (omega (arith, r, idx)) (omega (arith, k, last))
                    ∙ sum-held h st width max_sketches n seed IsEdge conf sep i _ _ l m
                        (omega (arith, k, last, p.kept.ready.usable, p.kept.all)) edges' is is',
                Cuts-append n IsEdge l m X Y inside apart cuts cuts',
              );
        }

    StandsFor-leaves :
        (s : Supernode) (X : ℕ → Type 0) (e : Edge)
        → StandsFor s X
        → (sample h st s).result ≡ ok (e, SampleSketchRet.good)
        → Crosses X e
    StandsFor-leaves s X e p run =
        let (left, _) =
          sample-told h st width max_sketches n seed IsEdge conf s p.kept e SampleSketchRet.good
            run in
        let (l, edges, is, cuts) = p.cuts s.sample_idx (omega arith) left in
        let (edge, odd) =
          sample-odd h st width max_sketches n seed IsEdge conf s p.kept sep l edges is e narrow
            inside run in
        (cuts e edge).0 odd

    StandsFor-closed :
        (s : Supernode) (X : ℕ → Type 0) (e : Edge)
        → StandsFor s X
        → (sample h st s).result ≡ ok (e, SampleSketchRet.zero)
        → (f : Edge) → IsEdge f
        → X f.src ↔ X f.dst
    StandsFor-closed s X e p run f edge =
        let (left, _) =
          sample-told h st width max_sketches n seed IsEdge conf s p.kept e SampleSketchRet.zero
            run in
        let (l, edges, is, cuts) = p.cuts s.sample_idx (omega arith) left in
        let even =
          sample-even h st width max_sketches n seed IsEdge conf s p.kept sep l edges is e run in
        let ends = inside f edge in
        let stays = λ (c : Crosses X f).
          never_true (sym (even (concat_pairing_fn f.src f.dst)) ∙ (cuts f edge).1 c) in
        (
          λ x. elim (p.decided f.dst ends.1) [
            | inl d ↦ d
            | inr out ↦ absurd (stays (inl (x, out)))
          ],
          λ x. elim (p.decided f.src (omega (arith, ends))) [
            | inl d ↦ d
            | inr out ↦ absurd (stays (inr (out, x)))
          ],
        )

    pub supernodes-IsCut : IsCut (supernodes h st fuel width max_sketches n seed) n IsEdge
    supernodes-IsCut = record {
      Shows = StandsFor;
      same_nodes = StandsFor-same;
      sample-Shows = StandsFor-sample;
      merge-Shows = StandsFor-merge;
      leaves = StandsFor-leaves;
      closed = StandsFor-closed;
    }

    pub StandsFor-Shows :
        (s : Supernode) (X : ℕ → Type 0) → StandsFor s X → supernodes-IsCut.Shows s X
    unfolding supernodes-IsCut
    StandsFor-Shows s X p = p

-- The supernode of a node stands for it once it got the edges at the node, each an odd number of times.
pub filled-StandsFor :
    (h : Hashing) (st : Statics) (width max_sketches n seed : ℕ) (IsEdge : Edge → Type 0)
    (l : List ℕ) (X : ℕ → Type 0)
    → AllIn (IsNumber IsEdge) l
    → Decided n X
    → Cuts IsEdge l X
    → StandsFor h st width max_sketches n seed IsEdge (filled h st width max_sketches n seed l) X
filled-StandsFor h st width max_sketches n seed IsEdge l X edges decided cuts = record {
  kept = filled-IsKept h st width max_sketches n seed l IsEdge edges;
  decided = decided;
  cuts = λ i p q.
      let few : i < max_sketches =
        omega (arith, q, filled-merged h st width max_sketches n seed l) in
      (l, edges, filled-get h st width max_sketches n seed l i few, cuts);
}
