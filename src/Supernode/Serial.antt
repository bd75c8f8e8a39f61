-- ===== src/Supernode/Serial.antt =====
-- Writing a supernode to a stream and building one from it: `write_binary`, `write_binary_range` and
-- the constructor from a stream. `SerialType` has four bytes.
pub mod RoundTrip
use anon_graphzeppelin.Base.{
  ℕ, zero, suc, ◌+◌, ◌-◌, ◌^◌, Bool, true, false, List, [], ◌∷◌, ◌++◌, Option, none, some, and_then,
  leb, ltb, ◌==◌, ◌||◌, if◌then◌else◌, u32, u64,
}
use anon_graphzeppelin.Stream.{Reader, ◌>>=◌, done, write_uint, read_uint}
use anon_graphzeppelin.Bucket.{Hashing}
use anon_graphzeppelin.Sketch.{Statics, Sketch, make}
use anon_graphzeppelin.Sketch.Serial
use anon_graphzeppelin.Sketch.Serial.{write_sparse_binary, read_dense, read_sparse}
use anon_graphzeppelin.Supernode.{Supernode, get_sketch, make_sketches}

-- `SerialType`
abbrev pub full : ℕ
full = 0

abbrev pub partial : ℕ
partial = 1

abbrev pub sparse_type : ℕ
sparse_type = 2

-- The first and the number of sketches, as `write_binary_range` corrects them.
pub record Range : Type 0 where
  pub beg : ℕ
  pub num : ℕ

pub correct_range : ℕ → ℕ → ℕ → Range
correct_range num_sketches beg num =
    let beg' = if leb num_sketches beg then u32 (u64 (num_sketches + 2 ^ 64 - 1)) else beg in
    let num' =
      if ltb num_sketches (u32 (beg' + num))
      then u32 (u64 (num_sketches + 2 ^ 64 - beg'))
      else num in
    record { beg = beg'; num = if num' == 0 then 1 else num' }

-- `append` for results that may be missing.
abbrev pub append_some : Option (List ℕ) → Option (List ℕ) → Option (List ℕ)
append_some none ys = none
append_some (some xs) none = none
append_some (some xs) (some ys) = some (xs ++ ys)

-- `fuel` bounds the loops over the entries of a sketch in the sparse format.
module _ (h : Hashing) (st : Statics) (fuel : ℕ) where
  pub write_sketch : Bool → Sketch → Option (List ℕ)
  write_sketch sparse sketch =
      if sparse then write_sparse_binary h st fuel sketch else some (Serial.write_binary h sketch)

  -- The loop from sketch `i` on.
  pub write_sketches : Bool → Supernode → ℕ → ℕ → Option (List ℕ)
  write_sketches sparse s zero i = some []
  write_sketches sparse s (suc left) i =
      append_some (write_sketch sparse (get_sketch s i)) (write_sketches sparse s left (i + 1))

  -- The type is FULL also where the sketches are written in the sparse format.
  pub write_binary : Supernode → Bool → Option (List ℕ)
  write_binary s sparse =
      append_some (some (write_uint 4 full)) (write_sketches sparse s s.num_sketches 0)

  pub write_binary_range : Supernode → ℕ → ℕ → Bool → Option (List ℕ)
  write_binary_range s beg num sparse =
      let r = correct_range s.num_sketches beg num in
      append_some
        (some (
          write_uint 4 (if sparse then sparse_type else partial)
          ++ (write_uint 4 r.beg ++ write_uint 4 r.num)))
        (write_sketches sparse s (u32 (r.beg + r.num) - r.beg) r.beg)

  module _ (max_sketches width : ℕ) where
    pub read_sketch : Bool → ℕ → Reader Sketch
    read_sketch sparse seed = if sparse then read_sparse h st fuel seed else read_dense h st seed

    -- The loop that builds sketches from the stream, from the one with `seed` on.
    pub read_sketches : Bool → ℕ → ℕ → Reader (List Sketch)
    read_sketches sparse zero seed = done []
    read_sketches sparse (suc left) seed = do
      sketch ← read_sketch sparse seed
      sketches ← read_sketches sparse left (u64 (seed + width))
      done (sketch ∷ sketches)

    -- The seed behind `left` steps of `seed += sketch_width`.
    pub step_seed : ℕ → ℕ → ℕ
    step_seed zero seed = seed
    step_seed (suc left) seed = step_seed left (u64 (seed + width))

    -- The three loops of the constructor, and the fields; `beg + num` does not wrap around in a stream
    -- that was written.
    pub read_range : ℕ → ℕ → Bool → ℕ → ℕ → Reader Supernode
    read_range n seed sparse beg num = do
      sketches ← read_sketches sparse (u32 (beg + num) - beg) (step_seed beg seed)
      done (record {
        sample_idx = beg;
        n = n;
        seed = seed;
        num_sketches = u32 (beg + num);
        merged_sketches = u32 (beg + num);
        sketches =
            make_sketches st width beg seed
            ++ (sketches
                ++ make_sketches st width (max_sketches - u32 (beg + num))
                    (step_seed (u32 (beg + num) - beg) (step_seed beg seed)));
      })

    pub read_header_range : ℕ → ℕ → Bool → Reader Supernode
    read_header_range n seed sparse = do
      beg ← read_uint 4
      num ← read_uint 4
      read_range n seed sparse beg num

    pub read_typed : ℕ → ℕ → ℕ → Reader Supernode
    read_typed n seed type =
        if type == partial
        then read_header_range n seed false
        else if type == sparse_type
        then read_header_range n seed true
        else read_range n seed false 0 (u32 max_sketches)

    -- `Supernode(n, seed, binary_in)`
    pub read_supernode : ℕ → ℕ → Reader Supernode
    read_supernode n seed = do type ← read_uint 4; read_typed n seed type
