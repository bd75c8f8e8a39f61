-- ===== src/Sketch/Serial/Dense.antt =====
-- A sketch that is written and read back is the sketch, not yet queried; and `operator==`.
use anon_graphzeppelin.Base.{
  ℕ, ◌+◌, ◌*◌, ◌≡◌, refl, ◌↔◌, true, xor, List, [], ◌∷◌, ◌++◌, some, arith, length, length-append,
}
use mathlib.Core.List.{append_assoc}
use anon_graphzeppelin.Stream.{◌>>=◌, Fits, read_array-write_array, length-write_array}
use anon_graphzeppelin.Bucket.{Hashing}
use anon_graphzeppelin.Sketch.{Statics, Sketch}
use anon_graphzeppelin.Sketch.Merge.{IsSized}
use anon_graphzeppelin.Sketch.Serial.{copy, equal_arrays, equal, write_binary, read_dense}

-- The words of a sketch fit their types.
pub record IsWords (h : Hashing) (s : Sketch) : Type 0 where
  pub a_words : Fits 8 s.bucket_a
  pub c_words : Fits h.hash_bytes s.bucket_c

-- What is read back from a written sketch is a copy of it, and the rest of the stream is left.
pub read_dense-write_binary :
    (h : Hashing) (st : Statics) (s : Sketch) (rest : List ℕ)
    → IsSized st s
    → IsWords h s
    → read_dense h st s.seed (write_binary h s ++ rest) ≡ some (copy s, rest)
unfolding read_dense write_binary copy
read_dense-write_binary h st s rest p w =
    rw (append_assoc, ← p.a_size, ◌>>=◌, read_array-write_array 8 s.bucket_a _ w.a_words)
      (rw (← p.c_size, ◌>>=◌, read_array-write_array h.hash_bytes s.bucket_c rest w.c_words) refl)

-- `serialized_size()` is the number of bytes that are written.
pub length-write_binary :
    (h : Hashing) (st : Statics) (s : Sketch)
    → IsSized st s
    → length (write_binary h s) ≡ st.num_elems * (8 + h.hash_bytes)
unfolding write_binary
length-write_binary h st s p =
    rw (length-append, length-write_array 8, length-write_array h.hash_bytes, p.a_size, p.c_size)
      (omega arith)

equal_arrays_iff : (xs ys : List ℕ) → (equal_arrays xs ys ≡ true) ↔ (xs ≡ ys)
unfolding equal_arrays
equal_arrays_iff [] [] = (λ _. refl, λ _. refl)
equal_arrays_iff [] (y ∷ ys) = (λ e. cc, λ e. cc)
equal_arrays_iff (x ∷ xs) [] = (λ e. cc, λ e. cc)
equal_arrays_iff (x ∷ xs) (y ∷ ys) = ground (arith, equal_arrays_iff xs ys)

-- `operator==` compares all that a sketch holds.
pub equal_iff : (s t : Sketch) → (equal s t ≡ true) ↔ (s ≡ t)
unfolding equal xor
equal_iff s t =
    ground (arith, equal_arrays_iff s.bucket_a t.bucket_a, equal_arrays_iff s.bucket_c t.bucket_c)
