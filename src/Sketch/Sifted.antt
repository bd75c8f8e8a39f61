-- ===== src/Sketch/Sifted.antt =====
-- A bucket of the sketch of a batch holds the sum of those updates that go to it: whether an update
-- does is settled by its index and the seed.
use anon_graphzeppelin.Base.{
  ℕ, zero, suc, ◌+◌, ◌*◌, ◌<◌, ◌≡◌, ◌≢◌, refl, sym, ap, subst, ◌∙◌, inl, inr, Bool, true, false,
  not, ◌&&◌, if◌then◌else◌, List, [], ◌∷◌, bit_xor, arith, ◌==◌, ==_iff, ltb, Bool-cases, u64,
  get_or, replicate,
}
use anon_graphzeppelin.Bits.Xor.{bit_xor_assoc, bit_xor_self, bit_xor-zero}
use anon_graphzeppelin.Bucket.{Hashing, get_index_depth, get_index_hash, is_good_iff}
use anon_graphzeppelin.Sketch.{
  Statics, Sketch, make, update_bucket, a_at, c_at, column_seed, checksum_seed, last_bucket,
  last_is_zero, bucket_is_good, update_column, update_columns, update, batch_update,
}
use anon_graphzeppelin.Sketch.Arrays.{get_or-xor_at_self, get_or-xor_at_ne}
use anon_graphzeppelin.Sketch.Content.{odd, xor}
use anon_graphzeppelin.Sketch.LastBucket.{IsConfigured, xor_all, batch_update-last}
use anon_graphzeppelin.Sketch.Merge.{IsSized, IsSized-make, IsSized-update_bucket}
use anon_graphzeppelin.Sketch.Held.{AllIn, held, held-seed}
use anon_graphzeppelin.Sketch.Query.Correct.{last_is_zero-true}
use anon_graphzeppelin.Sketch.Query.Recovery.{make-LastIsZero}

xor_all-if :
    (f : ℕ → ℕ) (acc v : ℕ) (p : Bool) (l : List ℕ)
    → xor_all f (if p then bit_xor acc (f v) else acc) l ≡ xor_all f acc (if p then v ∷ l else l)
xor_all-if f acc v true l = refl
xor_all-if f acc v false l = refl

odd-own :
    (x : ℕ) (p : Bool) (k l : List ℕ)
    → odd x k ≡ (p && odd x l)
    → odd x (if p then x ∷ k else k) ≡ (p && odd x (x ∷ l))
odd-own x true k l e = ap (λ b. if x == x then not b else b) e
odd-own x false k l e = e

odd-other :
    (x y : ℕ) (p : Bool) (k : List ℕ) → (y == x) ≡ false → odd x (if p then y ∷ k else k) ≡ odd x k
odd-other x y true k e = ap (λ t. if t then not (odd x k) else odd x k) e
odd-other x y false k e = refl

AllIn-if :
    (P : ℕ → Type 0) (v : ℕ) (p : Bool) (k : List ℕ)
    → P v
    → AllIn P k
    → AllIn P (if p then v ∷ k else k)
AllIn-if P v true k q all = (q, all)
AllIn-if P v false k q all = all

get_or-zeros : (left b : ℕ) → ◌≡◌ {A = ℕ} (get_or (replicate left 0) b 0) 0
get_or-zeros zero b = refl
get_or-zeros (suc left) zero = refl
get_or-zeros (suc left) (suc b) = get_or-zeros left b

module _ (h : Hashing) (st : Statics) (sd b : ℕ) (small : b < st.num_elems) where
  -- A sketch of this seed, with arrays of the right size.
  abbrev Sound : Sketch → Type 0
  Sound s = (s.seed ≡ sd) × IsSized st s

  -- Bucket `b` has got the update, if `p` holds.
  abbrev Toggled : Bool → ℕ → ℕ → Sketch → Sketch → Type 0
  Toggled p v c s t =
      (a_at t b ≡ (if p then bit_xor (a_at s b) v else a_at s b))
      × (c_at t b ≡ (if p then bit_xor (c_at s b) c else c_at s b))

  abbrev Toggles : ℕ → ℕ → (Sketch → Sketch) → Type 0
  Toggles v c F = (p : Bool) × ((s : Sketch) → Sound s → Sound (F s) × Toggled p v c s (F s))

  twice : (x v : ℕ) → bit_xor (bit_xor x v) v ≡ x
  twice x v = bit_xor_assoc x v v ∙ ap (bit_xor x) (bit_xor_self v) ∙ bit_xor-zero x

  Toggled-then :
      (p q : Bool) (v c : ℕ) (s t u : Sketch)
      → Toggled p v c s t
      → Toggled q v c t u
      → Toggled (xor p q) v c s u
  Toggled-then true true v c s t u (a, k) (a', k') = (
    a' ∙ ap (λ x. bit_xor x v) a ∙ twice (a_at s b) v,
    k' ∙ ap (λ x. bit_xor x c) k ∙ twice (c_at s b) c,
  )
  Toggled-then true false v c s t u (a, k) (a', k') = (a' ∙ a, k' ∙ k)
  Toggled-then false true v c s t u (a, k) (a', k') =
      (a' ∙ ap (λ x. bit_xor x v) a, k' ∙ ap (λ x. bit_xor x c) k)
  Toggled-then false false v c s t u (a, k) (a', k') = (a' ∙ a, k' ∙ k)

  Toggles-then :
      (v c : ℕ) (F G : Sketch → Sketch) → Toggles v c F → Toggles v c G → Toggles v c (λ s. G (F s))
  Toggles-then v c F G (p, f) (q, g) = (
    xor p q,
    λ s sound.
        let (sound', one) = f s sound in
        let (sound'', two) = g (F s) sound' in
        (sound'', Toggled-then p q v c s (F s) (G (F s)) one two),
  )

  bucket-Toggled :
      (k v c : ℕ) (s : Sketch) → IsSized st s → Toggled (k == b) v c s (update_bucket s k v c)
  unfolding update_bucket a_at c_at
  bucket-Toggled k v c s sized = elim (Bool-cases (k == b)) [
    | inl same ↦
        rw (same, (==_iff k b).0 same)
          (
            get_or-xor_at_self s.bucket_a b v (omega (arith, sized.a_size, small)),
            get_or-xor_at_self s.bucket_c b c (omega (arith, sized.c_size, small)),
          )
    | inr other ↦
        let ne : k ≢ b = λ e. differ (sym other ∙ (==_iff k b).1 e) in
        rw other (get_or-xor_at_ne s.bucket_a k b v ne, get_or-xor_at_ne s.bucket_c k b c ne)
  ]
    where
      differ : false ≡ true → ⊥
      differ e = cc

  bucket-Toggles : (k v c : ℕ) → Toggles v c (λ s. update_bucket s k v c)
  unfolding update_bucket
  bucket-Toggles k v c = (
    k == b,
    λ s sound. (
      (sound.0, (unfold update_bucket in IsSized-update_bucket st s k v c sound.1)),
      (unfold update_bucket in bucket-Toggled k v c s sound.1),
    ),
  )

  -- The depth of an update in a column, for the seed.
  abbrev depth_at : ℕ → ℕ → ℕ
  depth_at v i = get_index_depth h v (u64 (sd + i * 5)) st.num_guesses

  abbrev in_column : ℕ → ℕ → ℕ → Sketch → Bool → Sketch
  in_column v c i s hit =
      if hit then update_bucket s (u64 (i * st.num_guesses + depth_at v i)) v c else s

  column-at :
      (v c i : ℕ) (s : Sketch)
      → s.seed ≡ sd
      → update_column h st v c i s ≡ in_column v c i s (ltb (depth_at v i) st.num_guesses)
  unfolding update_column column_seed
  column-at v c i s e =
      ap
        (λ k.
          let depth = get_index_depth h v (u64 (k + i * 5)) st.num_guesses in
          if ltb depth st.num_guesses
          then update_bucket s (u64 (i * st.num_guesses + depth)) v c
          else s)
        e

  in_column-Toggles : (v c i : ℕ) (hit : Bool) → Toggles v c (λ s. in_column v c i s hit)
  in_column-Toggles v c i true = bucket-Toggles (u64 (i * st.num_guesses + depth_at v i)) v c
  in_column-Toggles v c i false = (false, λ s sound. (sound, (refl, refl)))

  -- Where two functions agree on sketches of the seed.
  Toggles-same :
      (v c : ℕ) (F G : Sketch → Sketch)
      → ((s : Sketch) → s.seed ≡ sd → G s ≡ F s)
      → Toggles v c F
      → Toggles v c G
  Toggles-same v c F G same (p, run) =
      (p, λ s sound. subst (λ t. Sound t × Toggled p v c s t) (sym (same s sound.0)) (run s sound))

  column-Toggles : (v c i : ℕ) → Toggles v c (update_column h st v c i)
  column-Toggles v c i =
      Toggles-same v c (λ s. in_column v c i s (ltb (depth_at v i) st.num_guesses))
        (update_column h st v c i) (column-at v c i)
        (in_column-Toggles v c i (ltb (depth_at v i) st.num_guesses))

  columns-Toggles : (v c left i : ℕ) → Toggles v c (update_columns h st v c left i)
  unfolding update_columns
  columns-Toggles v c zero i = (false, λ s sound. (sound, (refl, refl)))
  columns-Toggles v c (suc left) i =
      Toggles-then v c (update_column h st v c i) (update_columns h st v c left (i + 1))
        (column-Toggles v c i) (columns-Toggles v c left (i + 1))

  update-Toggles : (v : ℕ) → Toggles v (get_index_hash h v sd) (λ s. update h st s v)
  unfolding update checksum_seed
  update-Toggles v =
      let c = get_index_hash h v sd in
      let last : Sketch → Sketch = λ s. update_bucket s (last_bucket st) v c in
      Toggles-same v c (λ s. update_columns h st v c st.num_columns 0 (last s))
        (λ s. update h st s v)
        (λ s e.
          unfold update in
          unfold checksum_seed in
          ap
            (λ k.
              update_columns h st v (get_index_hash h v k) st.num_columns 0
                (update_bucket s (last_bucket st) v (get_index_hash h v k)))
            e)
        (Toggles-then v c last (update_columns h st v c st.num_columns 0)
          (bucket-Toggles (last_bucket st) v c) (columns-Toggles v c st.num_columns 0))

  -- The updates that go to bucket `b`.
  abbrev sift : List ℕ → List ℕ
  sift [] = []
  sift (v ∷ l) = if (update-Toggles v).0 then v ∷ sift l else sift l

  batch-sifted :
      (l : List ℕ) (s : Sketch)
      → Sound s
      → (a_at (batch_update h st s l) b ≡ xor_all (λ v. v) (a_at s b) (sift l))
        × (c_at (batch_update h st s l) b
            ≡ xor_all (λ v. get_index_hash h v sd) (c_at s b) (sift l))
  unfolding batch_update
  batch-sifted [] s sound = (refl, refl)
  batch-sifted (v ∷ l) s sound =
      let (sound', (a, c)) = (update-Toggles v).1 s sound in
      let (a', c') = batch-sifted l (update h st s v) sound' in
      (
        a'
            ∙ ap (λ k. xor_all (λ v. v) k (sift l)) a
            ∙ xor_all-if (λ v. v) (a_at s b) v (update-Toggles v).0 (sift l),
        c'
            ∙ ap (λ k. xor_all (λ v. get_index_hash h v sd) k (sift l)) c
            ∙ xor_all-if (λ v. get_index_hash h v sd) (c_at s b) v (update-Toggles v).0 (sift l),
      )

  odd-sift : (x : ℕ) (l : List ℕ) → odd x (sift l) ≡ ((update-Toggles x).0 && odd x l)
  odd-sift x [] = ground arith
  odd-sift x (y ∷ l) = elim (Bool-cases (y == x)) [
    | inl same ↦
        subst (λ k. odd x (sift (k ∷ l)) ≡ ((update-Toggles x).0 && odd x (k ∷ l)))
          (sym ((==_iff y x).0 same)) (odd-own x (update-Toggles x).0 (sift l) l (odd-sift x l))
    | inr other ↦
        odd-other x y (update-Toggles y).0 (sift l) other
        ∙ odd-sift x l
        ∙ ap (λ b. (update-Toggles x).0 && b)
            (ap (λ t. if t then not (odd x l) else odd x l) (sym other))
  ]

  abbrev hash_sum : List ℕ → ℕ
  hash_sum k = xor_all (λ v. get_index_hash h v sd) 0 k

  AllIn-sift : (P : ℕ → Type 0) (l : List ℕ) → AllIn P l → AllIn P (sift l)
  AllIn-sift P [] all = tt
  AllIn-sift P (v ∷ l) all = AllIn-if P v (update-Toggles v).0 (sift l) all.0 (AllIn-sift P l all.1)

  make-Sound : Sound (make st sd)
  make-Sound = (unfold make in refl, IsSized-make st sd)

  make-zero : (a_at (make st sd) b ≡ 0) × (c_at (make st sd) b ≡ 0)
  unfolding make a_at c_at
  make-zero = (get_or-zeros st.num_elems b, get_or-zeros st.num_elems b)

  -- Bucket `b` of the sketch of a batch is the sum of some of its updates; what occurs an odd number
  -- of times among these does in the batch.
  pub held-sifted :
      (P : ℕ → Type 0) (l : List ℕ)
      → AllIn P l
      → (k : List ℕ) × AllIn P k
        × (a_at (held h st sd l) b ≡ xor_all (λ v. v) 0 k)
        × (c_at (held h st sd l) b ≡ hash_sum k)
        × ((x : ℕ) → odd x k ≡ true → odd x l ≡ true)
  held-sifted P l all =
      let (a, c) = batch-sifted l (make st sd) make-Sound in
      (
        sift l,
        AllIn-sift P l all,
        a ∙ ap (λ z. xor_all (λ v. v) z (sift l)) make-zero.0,
        c ∙ ap (λ z. xor_all (λ v. get_index_hash h v sd) z (sift l)) make-zero.1,
        λ x e. (ground (arith, odd-sift x l, e)),
      )

  -- A good bucket holds an index that is left, where checksums match no other sum.
  pub held-matching :
      (P : ℕ → Type 0) (l : List ℕ)
      → AllIn P l
      → ((k : List ℕ)
          → AllIn P k
          → hash_sum k ≡ get_index_hash h (xor_all (λ v. v) 0 k) sd
          → odd (xor_all (λ v. v) 0 k) k ≡ true)
      → bucket_is_good h (held h st sd l) b ≡ true
      → odd (a_at (held h st sd l) b) l ≡ true
  unfolding bucket_is_good checksum_seed
  held-matching P l all matching good =
      let (k, all', a, c, parity) = held-sifted P l all in
      let checked = (is_good_iff h _ _ _).0 good in
      let left = matching k all' (
        sym c
        ∙ checked
        ∙ ap (λ z. get_index_hash h z (held h st sd l).seed) a
        ∙ ap (get_index_hash h (xor_all (λ v. v) 0 k)) (held-seed h st sd l)) in
      subst (λ z. odd z l ≡ true) (sym a) (parity _ left)

-- Where the deterministic bucket is zero both sums are.
pub held-last :
    (h : Hashing) (st : Statics) (conf : IsConfigured st) (sd : ℕ) (l : List ℕ)
    → last_is_zero st (held h st sd l) ≡ true
    → (xor_all (λ v. v) 0 l ≡ 0) × (xor_all (λ v. get_index_hash h v sd) 0 l ≡ 0)
held-last h st conf sd l zero_last =
    let last = batch_update-last h st conf (make st sd) l (IsSized-make st sd) in
    let start = make-LastIsZero h st conf sd sd in
    let z = last_is_zero-true st (held h st sd l) zero_last in
    let own : sd ≡ (make st sd).seed = unfold make in refl in
    (
      ap (λ a. xor_all (λ v. v) a l) (sym start.0) ∙ sym last.0 ∙ z.0,
      ap (λ k. xor_all (λ v. get_index_hash h v k) 0 l) own
          ∙ ap (λ c. xor_all (λ v. get_index_hash h v (make st sd).seed) c l) (sym start.1)
          ∙ sym last.1
          ∙ z.1,
    )
