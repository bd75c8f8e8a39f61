-- ===== src/Supernode/Fields.antt =====
-- What a loop over the sketches changes: the sketches of its range, once each, and nothing else.
use anon_graphzeppelin.Base.{
  ℕ, zero, suc, ◌+◌, ◌<◌, ◌≤◌, ◌≡◌, ◌≢◌, refl, ap, ◌∙◌, ◌⊎◌, inl, arith, length, length-set,
  get_or-set_self, get_or-set_ne,
}
use native.Mathlib.Decide.{ℕ_discrete}
use anon_graphzeppelin.Sketch.{Sketch}
use anon_graphzeppelin.Supernode.{Supernode, no_sketch, get_sketch, set_sketch, for_sketches}

-- Two supernodes that differ at most in their sketches.
pub record SameFields (s t : Supernode) : Type 0 where
  pub sample_idx : t.sample_idx ≡ s.sample_idx
  pub n : t.n ≡ s.n
  pub seed : t.seed ≡ s.seed
  pub num_sketches : t.num_sketches ≡ s.num_sketches
  pub merged_sketches : t.merged_sketches ≡ s.merged_sketches
  pub size : length t.sketches ≡ length s.sketches

SameFields-set_sketch : (s : Supernode) (i : ℕ) (x : Sketch) → SameFields s (set_sketch s i x)
unfolding set_sketch
SameFields-set_sketch s i x = record {
  sample_idx = refl;
  n = refl;
  seed = refl;
  num_sketches = refl;
  merged_sketches = refl;
  size = length-set s.sketches i x;
}

pub SameFields-refl : (s : Supernode) → SameFields s s
SameFields-refl s = record {
  sample_idx = refl;
  n = refl;
  seed = refl;
  num_sketches = refl;
  merged_sketches = refl;
  size = refl;
}

pub SameFields-trans : {s t u : Supernode} → SameFields s t → SameFields t u → SameFields s u
SameFields-trans p q = record {
  sample_idx = q.sample_idx ∙ p.sample_idx;
  n = q.n ∙ p.n;
  seed = q.seed ∙ p.seed;
  num_sketches = q.num_sketches ∙ p.num_sketches;
  merged_sketches = q.merged_sketches ∙ p.merged_sketches;
  size = q.size ∙ p.size;
}

pub get_sketch-set_self :
    (s : Supernode) (i : ℕ) (x : Sketch)
    → i < length s.sketches
    → get_sketch (set_sketch s i x) i ≡ x
unfolding get_sketch set_sketch
get_sketch-set_self s i x h = get_or-set_self s.sketches i x no_sketch h

pub get_sketch-set_ne :
    (s : Supernode) (i j : ℕ) (x : Sketch)
    → i ≢ j
    → get_sketch (set_sketch s i x) j ≡ get_sketch s j
unfolding get_sketch set_sketch
get_sketch-set_ne s i j x h = get_or-set_ne s.sketches i j x no_sketch h

module _ (f : ℕ → Sketch → Sketch) where
  pub for_sketches-SameFields :
      (left i : ℕ) (s : Supernode) → SameFields s (for_sketches left i f s)
  unfolding for_sketches
  for_sketches-SameFields zero i s = SameFields-refl s
  for_sketches-SameFields (suc left) i s =
      SameFields-trans (SameFields-set_sketch s i (f i (get_sketch s i)))
        (for_sketches-SameFields left (i + 1) _)

  pub for_sketches-outside :
      (left i j : ℕ) (s : Supernode)
      → (j < i) ⊎ (i + left ≤ j)
      → get_sketch (for_sketches left i f s) j ≡ get_sketch s j
  unfolding for_sketches
  for_sketches-outside zero i j s out = refl
  for_sketches-outside (suc left) i j s out =
      for_sketches-outside left (i + 1) j _ (omega arith)
      ∙ get_sketch-set_ne s i j (f i (get_sketch s i)) (omega arith)

  pub for_sketches-inside :
      (left i j : ℕ) (s : Supernode)
      → i ≤ j
      → j < i + left
      → j < length s.sketches
      → get_sketch (for_sketches left i f s) j ≡ f j (get_sketch s j)
  unfolding for_sketches
  for_sketches-inside zero i j s p q r = absurd (omega arith)
  for_sketches-inside (suc left) i j s p q r = elim (ℕ_discrete i j) [
    | yes same ↦
        for_sketches-outside left (i + 1) j _ (inl (omega arith))
        ∙ ap (λ k. get_sketch (set_sketch s k (f k (get_sketch s k))) j) same
        ∙ get_sketch-set_self s j (f j (get_sketch s j)) r
    | no other ↦
        for_sketches-inside left (i + 1) j _ (omega arith) (omega arith)
          (rw (SameFields-set_sketch s i (f i (get_sketch s i))).size r)
        ∙ ap (f j) (get_sketch-set_ne s i j (f i (get_sketch s i)) other)
  ]
