-- ===== src/Sketch/Content.antt =====
-- What a sketch stands for: the set of the indices that were updated an odd number of times, as a
-- quotient of the batches.
use mathlib.Core.Quot
use mathlib.Core.Quot.{Quot, Quot-set}
use anon_graphzeppelin.Base.{
  ℕ, zero, suc, ◌≤◌, ◌≡◌, refl, sym, ap, ◌∙◌, inl, inr, Bool, true, false, not, List, [], ◌∷◌, ◌++◌,
  length, arith, ◌==◌, ==_iff, Bool-cases, if◌then◌else◌,
}
use anon_graphzeppelin.Bucket.{Hashing}
use anon_graphzeppelin.Sketch.{Statics, Sketch, make, update, batch_update, add_buckets}
use anon_graphzeppelin.Sketch.Order.{
  Sketch-set, update_comm, update_cancel, batch_update-append, batch_update_cancel,
}
use anon_graphzeppelin.Sketch.Merge.{
  IsSized-make, IsSized-batch_update, add_buckets-batch_update, add_buckets-make, batch_update-seed,
}

-- Whether an index occurs an odd number of times.
abbrev pub odd : ℕ → List ℕ → Bool
odd x [] = false
odd x (y ∷ ys) = if y == x then not (odd x ys) else odd x ys

abbrev pub SameOdd : List ℕ → List ℕ → Type 0
SameOdd l m = (x : ℕ) → odd x l ≡ odd x m

abbrev pub xor : Bool → Bool → Bool
xor a b = if a then not b else b

pub odd-append : (l m : List ℕ) (x : ℕ) → odd x (l ++ m) ≡ xor (odd x l) (odd x m)
odd-append [] m x = refl
odd-append (y ∷ l) m x = ground (arith, odd-append l m x)

module _ (h : Hashing) (st : Statics) where
  -- An index that occurs can be moved to the front.
  record Fronted (x : ℕ) (l : List ℕ) : Type 0 where
    rest : List ℕ
    shorter : length l ≡ suc (length rest)
    same : SameOdd l (x ∷ rest)
    applied : (s : Sketch) → batch_update h st s l ≡ batch_update h st s (x ∷ rest)

  odd-Fronted : (x : ℕ) (l : List ℕ) → odd x l ≡ true → Fronted x l
  unfolding batch_update
  odd-Fronted x [] e = cc
  odd-Fronted x (y ∷ l) e = elim (Bool-cases (y == x)) [
    | inl is ↦
        let here = (==_iff y x).0 is in
        record {
          rest = l;
          shorter = refl;
          same = λ z. ap (λ k. odd z (k ∷ l)) here;
          applied = λ s. ap (λ k. batch_update h st (update h st s k) l) here;
        }
    | inr other ↦
        let found = odd-Fronted x l (rw other at e) in
        record {
          rest = y ∷ found.rest;
          shorter = ap suc found.shorter;
          same = λ z. ground (arith, found.same z);
          applied = λ s.
              found.applied (update h st s y)
              ∙ ap (λ t. batch_update h st t found.rest) (update_comm h st s y x);
        }
  ]

  -- A batch in which each index occurs an even number of times changes nothing.
  none_odd :
      (left : ℕ) (l : List ℕ)
      → length l ≤ left
      → SameOdd l []
      → (s : Sketch) → batch_update h st s l ≡ s
  unfolding batch_update
  none_odd left [] le e s = refl
  none_odd zero (y ∷ l) le e s = absurd (omega (arith, le))
  none_odd (suc left) (y ∷ l) le e s =
      let again : odd y l ≡ true = ground (arith, e y) in
      let found = odd-Fronted y l again in
      found.applied (update h st s y)
      ∙ ap (λ t. batch_update h st t found.rest) (update_cancel h st s y)
      ∙ none_odd left found.rest (omega (arith, le, found.shorter))
          (λ x. ground (arith, e x, found.same x)) s

  -- Two batches in which the same indices occur an odd number of times give the same sketch, whatever
  -- the order and the number of the updates.
  pub batch_update-SameOdd :
      (s : Sketch) (l m : List ℕ) → SameOdd l m → batch_update h st s l ≡ batch_update h st s m
  batch_update-SameOdd s l m same =
      let t = batch_update h st s m in
      ap (λ u. batch_update h st u l) (sym (batch_update_cancel h st s m))
      ∙ sym (batch_update-append h st t m l)
      ∙ none_odd (length (m ++ l)) (m ++ l) (omega arith)
          (λ x. odd-append m l x ∙ ground (arith, same x)) t

-- A set of indices: the batches, up to what occurs an odd number of times in them.
abbrev pub Content : Type 0
Content = Quot SameOdd

SameOdd-append : (l l' m m' : List ℕ) → SameOdd l l' → SameOdd m m' → SameOdd (l ++ m) (l' ++ m')
SameOdd-append l l' m m' e f x =
    odd-append l m x ∙ ground (arith, e x, f x) ∙ sym (odd-append l' m' x)

join_to : List ℕ → Content → Content
join_to l =
    Quot.lift Quot-set (λ m. Quot.mk (l ++ m))
      (λ m m' e. Quot.sound (SameOdd-append l l m m' (λ x. refl) e))

join_to_same : (l l' : List ℕ) → SameOdd l l' → (c : Content) → join_to l c ≡ join_to l' c
unfolding join_to
join_to_same l l' e =
    Quot.ind (λ c. Quot-set _ _) (λ m. Quot.sound (SameOdd-append l l' m m e (λ x. refl)))

-- The symmetric difference of two sets.
pub difference : Content → Content → Content
difference c d = Quot.lift Quot-set (λ l. join_to l d) (λ l l' e. join_to_same l l' e d) c

module _ (h : Hashing) (st : Statics) (seed : ℕ) where
  -- The sketch of a set.
  pub sketch_of : Content → Sketch
  sketch_of =
      Quot.lift Sketch-set (batch_update h st (make st seed))
        (λ l m e. batch_update-SameOdd h st (make st seed) l m e)

  -- Adding sketches bucket by bucket is the symmetric difference of the sets that they stand for.
  pub add_buckets-sketch_of :
      (c d : Content) → add_buckets (sketch_of c) (sketch_of d) ≡ sketch_of (difference c d)
  unfolding sketch_of difference join_to
  add_buckets-sketch_of =
      Quot.ind (λ c. hlevel) (λ l. Quot.ind (λ d. Sketch-set _ _) (λ m. added l m))
    where
      added :
          (l m : List ℕ)
          → add_buckets (batch_update h st (make st seed) l) (batch_update h st (make st seed) m)
            ≡ batch_update h st (make st seed) (l ++ m)
      added l m =
          let s = batch_update h st (make st seed) l in
          let fresh = make st seed in
          add_buckets-batch_update h st s fresh m
            (IsSized-batch_update h st fresh l (IsSized-make st seed)) (IsSized-make st seed)
            (batch_update-seed h st fresh l (IsSized-make st seed))
          ∙ ap (λ t. batch_update h st t m) (add_buckets-make h st s seed)
          ∙ sym (batch_update-append h st fresh l m)
