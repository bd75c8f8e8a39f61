-- ===== src/Sketch.antt =====
-- include/l0_sampling/sketch.h and src/l0_sampling/sketch.cpp: the L0 sketch.
pub mod Arrays
pub mod Natural
pub mod Order
pub mod Merge
pub mod LastBucket
pub mod Content
pub mod Held
pub mod Sifted
pub mod Query
pub mod Serial
use anon_graphzeppelin.Base.{
  ℕ, zero, suc, ◌+◌, ◌-◌, ◌*◌, ◌%◌, ◌^◌, bit_xor, Bool, true, false, ◌&&◌, ◌||◌, List, [], ◌∷◌, ltb,
  ◌==◌, if◌then◌else◌, u32, u64, get_or, set, replicate, Result, ok, throw, Exception,
  multiple_query,
}
use anon_graphzeppelin.Types.{SampleSketchRet}
use anon_graphzeppelin.Bucket.{Hashing, get_index_depth, get_index_hash, is_good}

-- The static variables of the class, as `configure` sets them.
pub record Statics : Type 0 where
  pub failure_factor : ℕ
  pub n : ℕ
  pub num_elems : ℕ
  pub num_columns : ℕ
  pub num_guesses : ℕ

-- The buckets are two parallel arrays of `num_elems` elements.
pub record Sketch : Type 0 where
  pub seed : ℕ
  pub bucket_a : List ℕ
  pub bucket_c : List ℕ
  pub already_queried : Bool

-- `column_gen` and `guess_gen` round logarithms of `double`s: their values are parameters.
unfoldable pub configure : (ℕ → ℕ) → (ℕ → ℕ) → ℕ → ℕ → Statics
configure column_gen guess_gen n factor =
    let num_columns = column_gen factor in
    let num_guesses = guess_gen n in
    record {
      failure_factor = factor;
      n = n;
      num_elems = u64 (u64 (num_columns * num_guesses) + 1);
      num_columns = num_columns;
      num_guesses = num_guesses;
    }

-- `arr[i] ^= v`
pub xor_at : List ℕ → ℕ → ℕ → List ℕ
xor_at arr i v = set arr i (bit_xor (get_or arr i 0) v)

-- `arr1[i] ^= arr2[i]` for each `i`
pub xor_arrays : List ℕ → List ℕ → List ℕ
xor_arrays [] ys = []
xor_arrays (x ∷ xs) [] = x ∷ xs
xor_arrays (x ∷ xs) (y ∷ ys) = bit_xor x y ∷ xor_arrays xs ys

-- `Bucket_Boruvka::update` on the bucket of one index.
pub update_bucket : Sketch → ℕ → ℕ → ℕ → Sketch
update_bucket s bucket_id update_idx update_hash = record s {
  bucket_a = xor_at s.bucket_a bucket_id update_idx;
  bucket_c = xor_at s.bucket_c bucket_id update_hash;
}

pub column_seed : Sketch → ℕ → ℕ
column_seed s column_idx = u64 (s.seed + column_idx * 5)

pub checksum_seed : Sketch → ℕ
checksum_seed s = s.seed

pub a_at : Sketch → ℕ → ℕ
a_at s i = get_or s.bucket_a i 0

pub c_at : Sketch → ℕ → ℕ
c_at s i = get_or s.bucket_c i 0

-- The index of the bucket that every update goes to.
pub last_bucket : Statics → ℕ
last_bucket st = st.num_elems - 1

-- `bucket_a[num_elems - 1] == 0 && bucket_c[num_elems - 1] == 0`
pub last_is_zero : Statics → Sketch → Bool
last_is_zero st s = a_at s (last_bucket st) == 0 && c_at s (last_bucket st) == 0

-- `Sketch(uint64_t seed)`
unfoldable pub make : Statics → ℕ → Sketch
make st seed = record {
  seed = seed;
  bucket_a = replicate st.num_elems 0;
  bucket_c = replicate st.num_elems 0;
  already_queried = false;
}

module _ (h : Hashing) (st : Statics) where
  -- The body of the loop over the columns: at depth `num_guesses` or more no bucket is updated.
  pub update_column : ℕ → ℕ → ℕ → Sketch → Sketch
  update_column update_idx checksum i s =
      let depth = get_index_depth h update_idx (column_seed s i) st.num_guesses in
      let bucket_id = u64 (i * st.num_guesses + depth) in
      if ltb depth st.num_guesses then update_bucket s bucket_id update_idx checksum else s

  -- The loop at column `i`, with `left` columns to go.
  pub update_columns : ℕ → ℕ → ℕ → ℕ → Sketch → Sketch
  update_columns update_idx checksum zero i s = s
  update_columns update_idx checksum (suc left) i s =
      update_columns update_idx checksum left (i + 1) (update_column update_idx checksum i s)

  pub update : Sketch → ℕ → Sketch
  update s update_idx =
      let checksum = get_index_hash h update_idx (checksum_seed s) in
      update_columns update_idx checksum st.num_columns 0
        (update_bucket s (last_bucket st) update_idx checksum)

  unfoldable pub batch_update : Sketch → List ℕ → Sketch
  batch_update s [] = s
  batch_update s (update_idx ∷ updates) = batch_update (update s update_idx) updates

pub bucket_is_good : Hashing → Sketch → ℕ → Bool
bucket_is_good h s i = is_good h (a_at s i) (c_at s i) (checksum_seed s)

-- `operator+=` without the early return: every bucket of `sketch2` is added.
pub add_buckets : Sketch → Sketch → Sketch
add_buckets sketch1 sketch2 = record sketch1 {
  bucket_a = xor_arrays sketch1.bucket_a sketch2.bucket_a;
  bucket_c = xor_arrays sketch1.bucket_c sketch2.bucket_c;
}

-- `operator+=`; the seeds are equal, as the code asserts.
pub add_assign : Statics → Sketch → Sketch → Sketch
add_assign st sketch1 sketch2 =
    let sketch1' = record sketch1 {
      already_queried = sketch1.already_queried || sketch2.already_queried;
    } in
    if last_is_zero st sketch2 then sketch1' else add_buckets sketch1' sketch2
