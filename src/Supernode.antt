-- ===== src/Supernode.antt =====
-- include/supernode.h and src/supernode.cpp: the sketches of one node of the graph, or of a
-- component of it, of which each is queried once.
-- The sketches behind `num_sketches` are memory that is not read. A lock guards
-- `apply_delta_update`, so that each call is one step. The loop over the sketches of a delta runs
-- in several threads, each on a sketch of its own: its order does not matter.
pub mod Fields
pub mod Delta
pub mod Sampling
pub mod Serial
use anon_graphzeppelin.Base.{
  ℕ, zero, suc, ◌+◌, ◌-◌, ◌*◌, ◌/◌, min, max, Bool, true, false, List, [], ◌∷◌, map, leb, ltb,
  if◌then◌else◌, u64, get_or, set, length, Result, ok, throw, out_of_queries,
}
use anon_graphzeppelin.Types.{Edge, SampleSketchRet}
use anon_graphzeppelin.Util.{inv_concat_pairing_fn}
use anon_graphzeppelin.Bucket.{Hashing}
use anon_graphzeppelin.Sketch.{Statics, Sketch, make, update, batch_update, add_assign}
use anon_graphzeppelin.Sketch.Query.{Answer, query, exhaustive_query, reset_queried}
use anon_graphzeppelin.Sketch.Serial.{copy}

pub record Supernode : Type 0 where
  pub sample_idx : ℕ
  pub n : ℕ
  pub seed : ℕ
  pub num_sketches : ℕ
  pub merged_sketches : ℕ
  pub sketches : List Sketch

-- What a read behind the sketches would give; no function reads there.
abbrev pub no_sketch : Sketch
no_sketch = record { seed = 0; bucket_a = []; bucket_c = []; already_queried = false }

pub get_sketch : Supernode → ℕ → Sketch
get_sketch s i = get_or s.sketches i no_sketch

pub set_sketch : Supernode → ℕ → Sketch → Supernode
set_sketch s i sketch = record s { sketches = set s.sketches i sketch }

-- What a call that may throw leaves behind: the object is changed also where it throws.
pub record Outcome (A : Type 0) : Type 0 where
  pub node : Supernode
  pub result : Result A

pub out_of_queries? : Supernode → Bool
out_of_queries? s = leb s.merged_sketches s.sample_idx

-- A loop over `left` sketches from index `i` on: sketch `j` becomes `f j` of it.
pub for_sketches : ℕ → ℕ → (ℕ → Sketch → Sketch) → Supernode → Supernode
for_sketches zero i f s = s
for_sketches (suc left) i f s = for_sketches left (i + 1) f (set_sketch s i (f i (get_sketch s i)))

pub reset_query_state : Supernode → Supernode
reset_query_state s = record (for_sketches s.sample_idx 0 (λ _ sketch. reset_queried sketch) s) {
  sample_idx = 0;
}

-- `*get_sketch(i) += *other.get_sketch(i)` for the indices from `i` below `end`.
pub add_sketches : Statics → ℕ → ℕ → Supernode → Supernode → Supernode
add_sketches st i end s other =
    for_sketches (end - i) i (λ j sketch. add_assign st sketch (get_sketch other j)) s

pub merge : Statics → Supernode → Supernode → Supernode
merge st s other =
    let s' = record s {
      sample_idx = max s.sample_idx other.sample_idx;
      merged_sketches = min s.merged_sketches other.merged_sketches;
    } in
    add_sketches st s'.sample_idx s'.merged_sketches s' other

pub range_merge : Statics → Supernode → Supernode → ℕ → ℕ → Supernode
range_merge st s other start_idx num_merge =
    let s' = record s {
      sample_idx = max s.sample_idx other.sample_idx;
      merged_sketches = u64 (start_idx + num_merge);
    } in
    add_sketches st s'.sample_idx s'.merged_sketches s' other

pub apply_delta_update : Statics → Supernode → Supernode → Supernode
apply_delta_update st s delta_node = add_sketches st 0 s.num_sketches s delta_node

-- The loop of the constructor: the sketches of the seeds from `seed` on, `width` apart.
pub make_sketches : Statics → ℕ → ℕ → ℕ → List Sketch
make_sketches st width zero seed = []
make_sketches st width (suc left) seed =
    make st seed ∷ make_sketches st width left (u64 (seed + width))

-- `Supernode(n, seed)`, with `max_sketches` and the width of a sketch as `configure` sets them.
unfoldable pub make_supernode : Statics → ℕ → ℕ → ℕ → ℕ → Supernode
make_supernode st max_sketches width n seed = record {
  sample_idx = 0;
  n = n;
  seed = seed;
  num_sketches = max_sketches;
  merged_sketches = max_sketches;
  sketches = make_sketches st width max_sketches seed;
}

-- `Supernode(const Supernode& s)`: the sketches up to `num_sketches` are copied.
pub copy_sketches : ℕ → List Sketch → List Sketch
copy_sketches zero sketches = sketches
copy_sketches (suc left) [] = []
copy_sketches (suc left) (sketch ∷ sketches) = copy sketch ∷ copy_sketches left sketches

pub copy_supernode : Supernode → Supernode
copy_supernode s = record s { sketches = copy_sketches s.num_sketches s.sketches }

-- `get_sketch(sample_idx++)->query()`: the index is raised whether or not the query throws.
pub sample_answer : Supernode → Result (Answer ℕ) → Outcome (Edge × SampleSketchRet)
sample_answer s (throw e) = record {
  node = record s { sample_idx = s.sample_idx + 1 };
  result = throw e;
}
sample_answer s (ok a) = record {
  node = record (set_sketch s s.sample_idx a.sketch) { sample_idx = s.sample_idx + 1 };
  result = ok (inv_concat_pairing_fn a.value, a.code);
}

pub exhaustive_answer : Supernode → Result (Answer (List ℕ)) → Outcome (List Edge × SampleSketchRet)
exhaustive_answer s (throw e) = record {
  node = record s { sample_idx = s.sample_idx + 1 };
  result = throw e;
}
exhaustive_answer s (ok a) = record {
  node = record (set_sketch s s.sample_idx a.sketch) { sample_idx = s.sample_idx + 1 };
  result = ok (map inv_concat_pairing_fn a.value, a.code);
}

module _ (h : Hashing) (st : Statics) where
  pub update_supernode : Supernode → ℕ → Supernode
  update_supernode s upd = for_sketches s.num_sketches 0 (λ _ sketch. update h st sketch upd) s

  pub delta_supernode : ℕ → ℕ → ℕ → ℕ → List ℕ → Supernode
  delta_supernode max_sketches width n seed updates =
      let delta_node = make_supernode st max_sketches width n seed in
      for_sketches delta_node.num_sketches 0 (λ _ sketch. batch_update h st sketch updates)
        delta_node

  pub sample : Supernode → Outcome (Edge × SampleSketchRet)
  sample s =
      if out_of_queries? s
      then record { node = s; result = throw out_of_queries }
      else sample_answer s (query h st (get_sketch s s.sample_idx))

  pub exhaustive_sample : Supernode → Outcome (List Edge × SampleSketchRet)
  exhaustive_sample s =
      if out_of_queries? s
      then record { node = s; result = throw out_of_queries }
      else exhaustive_answer s (exhaustive_query h st (get_sketch s s.sample_idx))
