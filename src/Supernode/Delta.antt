-- ===== src/Supernode/Delta.antt =====
-- A batch reaches a supernode as a delta: a supernode of the batch alone, which is added sketch by
-- sketch. The outcome is that of the updates made one by one.
use anon_graphzeppelin.Base.{
  ℕ, zero, suc, ◌+◌, ◌-◌, ◌<◌, ◌≤◌, ◌≡◌, refl, ap, sym, subst, ◌∙◌, inr, List, [], ◌∷◌, true, arith,
  length, get_or, u64, get_or_ext,
}
use native.Mathlib.Decide.{dec_lt}
use anon_graphzeppelin.Bucket.{Hashing}
use anon_graphzeppelin.Sketch.{Statics, make, batch_update, add_assign, last_is_zero}
use anon_graphzeppelin.Sketch.Merge.{IsSized, add_assign-delta_iff, IsSized-make}
use anon_graphzeppelin.Supernode.{
  Supernode, no_sketch, get_sketch, add_sketches, apply_delta_update, make_sketches, make_supernode,
  update_supernode, delta_supernode,
}
use anon_graphzeppelin.Supernode.Fields.{
  SameFields, SameFields-trans, for_sketches-SameFields, for_sketches-inside, for_sketches-outside,
  SameFields-refl,
}

-- The seed of sketch `i`.
abbrev pub seed_of : ℕ → ℕ → ℕ → ℕ
seed_of width zero sd = sd
seed_of width (suc i) sd = seed_of width i (u64 (sd + width))

-- The sketches of a supernode are those of its seed, each with arrays of the right size.
pub record IsBuilt (st : Statics) (width : ℕ) (s : Supernode) : Type 0 where
  pub room : s.num_sketches ≤ length s.sketches
  pub seeds : (i : ℕ) → i < s.num_sketches → (get_sketch s i).seed ≡ seed_of width i s.seed
  pub sizes : (i : ℕ) → i < s.num_sketches → IsSized st (get_sketch s i)

module _ (st : Statics) (width : ℕ) where
  pub length-make_sketches : (left sd : ℕ) → length (make_sketches st width left sd) ≡ left
  unfolding make_sketches
  length-make_sketches zero sd = refl
  length-make_sketches (suc left) sd = ap suc (length-make_sketches left (u64 (sd + width)))

  get_or-make_sketches :
      (left i sd : ℕ)
      → i < left
      → get_or (make_sketches st width left sd) i no_sketch ≡ make st (seed_of width i sd)
  unfolding make_sketches
  get_or-make_sketches zero i sd p = absurd (omega arith)
  get_or-make_sketches (suc left) zero sd p = refl
  get_or-make_sketches (suc left) (suc i) sd p =
      get_or-make_sketches left i (u64 (sd + width)) (omega arith)

  pub get_sketch-make :
      (max_sketches n sd i : ℕ)
      → i < max_sketches
      → get_sketch (make_supernode st max_sketches width n sd) i ≡ make st (seed_of width i sd)
  unfolding get_sketch make_supernode
  get_sketch-make max_sketches n sd i p = get_or-make_sketches max_sketches i sd p

  -- The constructor builds such a supernode.
  pub make_supernode-IsBuilt :
      (max_sketches n sd : ℕ) → IsBuilt st width (make_supernode st max_sketches width n sd)
  unfolding make_supernode
  make_supernode-IsBuilt max_sketches n sd = record {
    room = omega (arith, length-make_sketches max_sketches sd);
    seeds = λ i p.
        ap (λ x. x.seed) (unfold make_supernode in get_sketch-make max_sketches n sd i p)
        ∙ unfold make in refl;
    sizes = λ i p.
        subst (IsSized st) (sym (unfold make_supernode in get_sketch-make max_sketches n sd i p))
          (IsSized-make st (seed_of width i sd));
  }

module _ (h : Hashing) (st : Statics) where
  -- One update after another.
  abbrev pub update_all : Supernode → List ℕ → Supernode
  update_all s [] = s
  update_all s (upd ∷ upds) = update_all (update_supernode h st s upd) upds

  update_supernode-SameFields :
      (s : Supernode) (upd : ℕ) → SameFields s (update_supernode h st s upd)
  unfolding update_supernode
  update_supernode-SameFields s upd = for_sketches-SameFields _ s.num_sketches 0 s

  pub update_all-SameFields : (s : Supernode) (l : List ℕ) → SameFields s (update_all s l)
  update_all-SameFields s [] = SameFields-refl s
  update_all-SameFields s (upd ∷ l) =
      SameFields-trans (update_supernode-SameFields s upd)
        (update_all-SameFields (update_supernode h st s upd) l)

  pub get_sketch-update_all :
      (s : Supernode) (l : List ℕ) (i : ℕ)
      → i < s.num_sketches
      → s.num_sketches ≤ length s.sketches
      → get_sketch (update_all s l) i ≡ batch_update h st (get_sketch s i) l
  unfolding batch_update
  get_sketch-update_all s [] i p r = refl
  get_sketch-update_all s (upd ∷ l) i p r =
      let kept = update_supernode-SameFields s upd in
      get_sketch-update_all (update_supernode h st s upd) l i (rw kept.num_sketches p)
        (rw (kept.num_sketches, kept.size) r)
      ∙ ap (λ x. batch_update h st x l)
          (unfold update_supernode in
            for_sketches-inside _ s.num_sketches 0 i s (omega arith) (omega arith) (omega arith))

  get_sketch-update_all_outside :
      (s : Supernode) (l : List ℕ) (i : ℕ)
      → s.num_sketches ≤ i
      → get_sketch (update_all s l) i ≡ get_sketch s i
  get_sketch-update_all_outside s [] i p = refl
  get_sketch-update_all_outside s (upd ∷ l) i p =
      let kept = update_supernode-SameFields s upd in
      get_sketch-update_all_outside (update_supernode h st s upd) l i (rw kept.num_sketches p)
      ∙ (unfold update_supernode in for_sketches-outside _ s.num_sketches 0 i s (inr (omega arith)))

module _ (h : Hashing) (st : Statics) (width max_sketches : ℕ) where
  get_sketch-delta :
      (n sd : ℕ) (l : List ℕ) (i : ℕ)
      → i < max_sketches
      → get_sketch (delta_supernode h st max_sketches width n sd l) i
        ≡ batch_update h st (make st (seed_of width i sd)) l
  unfolding delta_supernode make_supernode
  get_sketch-delta n sd l i p =
      for_sketches-inside _ max_sketches 0 i _ (omega arith) (omega arith)
        (omega (arith, length-make_sketches st width max_sketches sd))
      ∙ ap (λ x. batch_update h st x l)
          (unfold make_supernode in get_sketch-make st width max_sketches n sd i p)

  -- The test of the deterministic bucket does not err on any sketch of the delta: where that
  -- bucket is zero, the sketch is empty.
  abbrev pub NoCollision : Supernode → List ℕ → Type 0
  NoCollision s l =
      (i : ℕ)
      → i < s.num_sketches
      → last_is_zero st (batch_update h st (make st (get_sketch s i).seed) l) ≡ true
      → batch_update h st (make st (get_sketch s i).seed) l ≡ make st (get_sketch s i).seed

  module _ (s : Supernode) (l : List ℕ) (built : IsBuilt st width s)
      (fits : s.num_sketches ≤ max_sketches) (no_collision : NoCollision s l) where
    abbrev delta : Supernode
    delta = delta_supernode h st max_sketches width s.n s.seed l

    applied-SameFields : SameFields s (apply_delta_update st s delta)
    applied-SameFields = unfold apply_delta_update add_sketches in for_sketches-SameFields _ _ 0 s

    same_sketch :
        (i : ℕ) → get_sketch (apply_delta_update st s delta) i ≡ get_sketch (update_all h st s l) i
    same_sketch i = elim (dec_lt i s.num_sketches) [
      | yes p ↦
          inside i p
          ∙ ap (add_assign st (get_sketch s i)) (
              get_sketch-delta s.n s.seed l i (omega arith)
              ∙ ap (λ sd. batch_update h st (make st sd) l) (sym (built.seeds i p)))
          ∙ (add_assign-delta_iff h st (get_sketch s i) l (built.sizes i p)).1 (no_collision i p)
          ∙ sym (get_sketch-update_all h st s l i p built.room)
      | no p ↦
          outside i (omega arith) ∙ sym (get_sketch-update_all_outside h st s l i (omega arith))
    ]
      where
        outside :
            (i : ℕ)
            → s.num_sketches ≤ i
            → get_sketch (apply_delta_update st s delta) i ≡ get_sketch s i
        outside i p =
            unfold apply_delta_update add_sketches in
            for_sketches-outside _ (s.num_sketches - 0) 0 i s (inr (omega arith))

        inside :
            (i : ℕ)
            → i < s.num_sketches
            → get_sketch (apply_delta_update st s delta) i
              ≡ add_assign st (get_sketch s i) (get_sketch delta i)
        inside i p =
            unfold apply_delta_update add_sketches in
            for_sketches-inside _ (s.num_sketches - 0) 0 i s (omega arith) (omega arith)
              (omega (arith, built.room))

    -- A graph worker makes a delta of a batch and adds it to the supernode: that is the supernode
    -- after the updates of the batch one by one, provided that on no sketch of the delta the test
    -- of the deterministic bucket errs.
    pub apply_delta_update-delta : apply_delta_update st s delta ≡ update_all h st s l
    apply_delta_update-delta = λ k. record {
      sample_idx = (one.sample_idx ∙ sym other.sample_idx) k;
      n = (one.n ∙ sym other.n) k;
      seed = (one.seed ∙ sym other.seed) k;
      num_sketches = (one.num_sketches ∙ sym other.num_sketches) k;
      merged_sketches = (one.merged_sketches ∙ sym other.merged_sketches) k;
      sketches =
          get_or_ext no_sketch (apply_delta_update st s delta).sketches
            (update_all h st s l).sketches (one.size ∙ sym other.size)
            (λ i. unfold get_sketch in same_sketch i) k;
    }
      where
        one : SameFields s (apply_delta_update st s delta)
        one = applied-SameFields

        other : SameFields s (update_all h st s l)
        other = update_all-SameFields h st s l
