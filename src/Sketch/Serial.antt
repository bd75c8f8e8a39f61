-- ===== src/Sketch/Serial.antt =====
-- Writing a sketch to a stream and building one from it: `write_binary`, `write_sparse_binary`, the
-- constructor from a stream, the copy constructor and `operator==`.
pub mod Dense
use anon_graphzeppelin.Base.{
  ℕ, zero, suc, ◌+◌, ◌-◌, ◌*◌, Bool, true, false, ◌&&◌, ◌||◌, not, List, [], ◌∷◌, ◌++◌, Option,
  none, some, ltb, ◌==◌, if◌then◌else◌, u16, set, xor,
}
use anon_graphzeppelin.Stream.{Reader, ◌>>=◌, done, write_uint, read_uint, write_array, read_array}
use anon_graphzeppelin.Bucket.{Hashing}
use anon_graphzeppelin.Sketch.{Statics, Sketch, make, a_at, c_at, last_bucket}

-- `Sketch(const Sketch& s)`: the flag is not copied.
pub copy : Sketch → Sketch
copy s = record s { already_queried = false }

pub equal_arrays : List ℕ → List ℕ → Bool
equal_arrays [] [] = true
equal_arrays [] (y ∷ ys) = false
equal_arrays (x ∷ xs) [] = false
equal_arrays (x ∷ xs) (y ∷ ys) = x == y && equal_arrays xs ys

-- `operator==`
pub equal : Sketch → Sketch → Bool
equal sketch1 sketch2 =
    if not (sketch1.seed == sketch2.seed) || xor sketch1.already_queried sketch2.already_queried
    then false
    else if not (equal_arrays sketch1.bucket_a sketch2.bucket_a)
    then false
    else equal_arrays sketch1.bucket_c sketch2.bucket_c

-- `bucket_a[i] = a; bucket_c[i] = c;`
pub store_bucket : Sketch → ℕ → ℕ → ℕ → Sketch
store_bucket s i a c = record s { bucket_a = set s.bucket_a i a; bucket_c = set s.bucket_c i c }

pub write_binary : Hashing → Sketch → List ℕ
write_binary h s = write_array 8 s.bucket_a ++ write_array h.hash_bytes s.bucket_c

-- One entry: an index of two bytes and the two words of a bucket.
pub write_entry : Hashing → ℕ → ℕ → ℕ → List ℕ
write_entry h i a c = write_uint 2 i ++ (write_uint 8 a ++ write_uint h.hash_bytes c)

module _ (h : Hashing) (st : Statics) where
  -- `Sketch(seed, binary_in, false)`
  pub read_dense : ℕ → Reader Sketch
  read_dense seed = do
    a ← read_array 8 st.num_elems
    c ← read_array h.hash_bytes st.num_elems
    done (record { seed = seed; bucket_a = a; bucket_c = c; already_queried = false })

  -- The loop with a counter of 16 bits, which does not end if `num_elems - 1` needs more; `none`
  -- means that the fuel ran out.
  pub write_sparse_loop : Sketch → ℕ → ℕ → Option (List ℕ)
  write_sparse_loop s zero i = none
  write_sparse_loop s (suc fuel) i = elim (ltb i (last_bucket st)) [
    | false ↦ some []
    | true ↦ elim (write_sparse_loop s fuel (u16 (i + 1))) [
      | none ↦ none
      | some entries ↦ some (
          (if a_at s i == 0 && c_at s i == 0 then [] else write_entry h i (a_at s i) (c_at s i))
          ++ entries)
    ]
  ]

  pub write_sparse_binary : ℕ → Sketch → Option (List ℕ)
  write_sparse_binary fuel s = elim (write_sparse_loop s fuel 0) [
    | none ↦ none
    | some entries ↦ some (
        entries
        ++ write_entry h (u16 (last_bucket st)) (a_at s (last_bucket st)) (c_at s (last_bucket st)))
  ]

  -- Entries are read up to the one that is not below the deterministic bucket.
  pub read_sparse_loop : ℕ → Sketch → Reader Sketch
  read_sparse_loop zero s bytes = none
  read_sparse_loop (suc fuel) s bytes =
      (do
        idx ← read_uint 2
        a ← read_uint 8
        c ← read_uint h.hash_bytes
        let s' = store_bucket s idx a c
        λ rest. elim (ltb idx (last_bucket st)) [
          | true ↦ read_sparse_loop fuel s' rest
          | false ↦ some (s', rest)
        ])
        bytes

  -- `Sketch(seed, binary_in, true)`
  pub read_sparse : ℕ → ℕ → Reader Sketch
  read_sparse fuel seed = read_sparse_loop fuel (make st seed)
