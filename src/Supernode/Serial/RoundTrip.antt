-- ===== src/Supernode/Serial/RoundTrip.antt =====
-- What `write_binary` wrote is read back as a copy, whose sketches are not yet queried.
use mathlib.Core.List.{append_assoc, append-nil}
use anon_graphzeppelin.Base.{
  ℕ, zero, suc, ◌+◌, ◌-◌, ◌^◌, ◌<◌, ◌≤◌, ◌≡◌, refl, sym, ap, subst, ◌∙◌, arith, false, List, [],
  ◌∷◌, ◌++◌, some, u32, u64,
}
use anon_graphzeppelin.Stream.{◌>>=◌, write_uint, read_uint-write_uint}
use anon_graphzeppelin.Bucket.{Hashing}
use anon_graphzeppelin.Sketch.{Statics, Sketch}
use anon_graphzeppelin.Sketch.Serial
use anon_graphzeppelin.Sketch.Serial.{copy, read_dense}
use anon_graphzeppelin.Sketch.Serial.Dense.{IsWords, read_dense-write_binary}
use anon_graphzeppelin.Supernode.{Supernode, get_sketch, make_sketches}
use anon_graphzeppelin.Supernode.Delta.{seed_of, IsBuilt}
use anon_graphzeppelin.Supernode.Serial.{
  full, append_some, write_sketch, write_sketches, write_binary, read_sketch, read_sketches,
  step_seed, read_range, read_typed, read_supernode,
}

-- The copies of `left` sketches from index `i` on.
abbrev pub copies_from : Supernode → ℕ → ℕ → List Sketch
copies_from s zero i = []
copies_from s (suc left) i = copy (get_sketch s i) ∷ copies_from s left (i + 1)

seed_of-suc : (width i sd : ℕ) → seed_of width (suc i) sd ≡ u64 (seed_of width i sd + width)
seed_of-suc width zero sd = refl
seed_of-suc width (suc i) sd = seed_of-suc width i (u64 (sd + width))

module _ (h : Hashing) (st : Statics) (width : ℕ) (s : Supernode) (built : IsBuilt st width s)
    (words : (i : ℕ) → i < s.num_sketches → IsWords h (get_sketch s i))
    (fuel max_sketches : ℕ) where
  -- The bytes of the sketches, in the dense format.
  dense_bytes : ℕ → ℕ → List ℕ
  dense_bytes zero i = []
  dense_bytes (suc left) i = Serial.write_binary h (get_sketch s i) ++ dense_bytes left (i + 1)

  write_sketches-dense :
      (left i : ℕ) → write_sketches h st fuel false s left i ≡ some (dense_bytes left i)
  unfolding write_sketches write_sketch dense_bytes
  write_sketches-dense zero i = refl
  write_sketches-dense (suc left) i =
      ap (append_some (some (Serial.write_binary h (get_sketch s i))))
        (write_sketches-dense left (i + 1))

  read_sketches-dense :
      (left i seed : ℕ) (rest : List ℕ)
      → i + left ≤ s.num_sketches
      → seed ≡ seed_of width i s.seed
      → read_sketches h st fuel max_sketches width false left seed (dense_bytes left i ++ rest)
        ≡ some (copies_from s left i, rest)
  unfolding read_sketches read_sketch dense_bytes
  read_sketches-dense zero i seed rest p e = refl
  read_sketches-dense (suc left) i seed rest p e =
      let pi : i < s.num_sketches = omega (arith, p) in
      let one : read_dense h st seed
            (Serial.write_binary h (get_sketch s i) ++ (dense_bytes left (i + 1) ++ rest))
          ≡ some (copy (get_sketch s i), dense_bytes left (i + 1) ++ rest) =
        subst
          (λ sd.
            read_dense h st sd
              (Serial.write_binary h (get_sketch s i) ++ (dense_bytes left (i + 1) ++ rest))
            ≡ some (copy (get_sketch s i), dense_bytes left (i + 1) ++ rest))
          (built.seeds i pi ∙ sym e)
          (read_dense-write_binary h st (get_sketch s i) (dense_bytes left (i + 1) ++ rest)
            (built.sizes i pi) (words i pi)) in
      let next : suc i ≡ i + 1 = omega arith in
      let seed_next : u64 (seed + width) ≡ seed_of width (i + 1) s.seed =
        ap (λ sd. u64 (sd + width)) e
        ∙ sym (seed_of-suc width i s.seed)
        ∙ ap (λ k. seed_of width k s.seed) next in
      rw
        (
          append_assoc,
          ◌>>=◌,
          one,
          read_sketches-dense left (i + 1) (u64 (seed + width)) rest (omega (arith, p)) seed_next,
        )
        refl

  read_full :
      (rest : List ℕ)
      → s.num_sketches ≡ max_sketches
      → max_sketches < 2 ^ 32
      → read_range h st fuel max_sketches width s.n s.seed false 0
          (u32 max_sketches)
          (dense_bytes max_sketches 0 ++ rest)
        ≡ some (
          record {
            sample_idx = 0;
            n = s.n;
            seed = s.seed;
            num_sketches = max_sketches;
            merged_sketches = max_sketches;
            sketches = copies_from s max_sketches 0;
          },
          rest,
        )
  unfolding read_range step_seed make_sketches
  read_full rest all narrow =
      let count : u32 (0 + u32 max_sketches) ≡ max_sketches = omega arith in
      let all_left : u32 (0 + u32 max_sketches) - 0 ≡ max_sketches = omega arith in
      let none_left : max_sketches - max_sketches ≡ 0 = omega arith in
      let read = read_sketches-dense max_sketches 0 s.seed rest (omega (arith, all)) refl in
      rw (all_left, ◌>>=◌, read, count, none_left, append-nil) refl

  -- A supernode that is written in full, with the sketches in the dense format, is read back as a copy
  -- of which no sketch is used up: its sketches are the copies of those written, and the rest of
  -- the stream is left.
  pub read_supernode-write_binary :
      (rest : List ℕ)
      → s.num_sketches ≡ max_sketches
      → max_sketches < 2 ^ 32
      → (bytes : List ℕ) × (write_binary h st fuel s false ≡ some bytes)
        × (read_supernode h st fuel max_sketches width s.n s.seed (bytes ++ rest)
            ≡ some (
              record {
                sample_idx = 0;
                n = s.n;
                seed = s.seed;
                num_sketches = max_sketches;
                merged_sketches = max_sketches;
                sketches = copies_from s max_sketches 0;
              },
              rest,
            ))
  unfolding write_binary read_supernode read_typed read_range step_seed make_sketches
  read_supernode-write_binary rest all narrow = (
    write_uint 4 full ++ dense_bytes max_sketches 0,
    ap (λ k. append_some (some (write_uint 4 full)) (write_sketches h st fuel false s k 0)) all
        ∙ ap (append_some (some (write_uint 4 full))) (write_sketches-dense max_sketches 0),
    rw (append_assoc, ◌>>=◌, read_uint-write_uint 4 full _ (omega arith))
        (read_full rest all narrow),
  )
