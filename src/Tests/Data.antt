-- ===== src/Tests/Data.antt =====
-- Small inputs for the runs.
use anon_graphzeppelin.Base.{ℕ, ◌≡◌, ◌≢◌, ap, sym, ◌∙◌, ◌+◌, ◌*◌, List, [], ◌∷◌, arith}
use anon_graphzeppelin.Bucket.{Hashing}
use anon_graphzeppelin.Sketch.{Statics, make, batch_update}
use anon_graphzeppelin.Sketch.LastBucket.{IsConfigured, xor_all, batch_update-last}
use anon_graphzeppelin.Sketch.Merge.{IsSized-make}
use anon_graphzeppelin.Sketch.Query.Recovery.{make-LastIsZero}
use anon_graphzeppelin.Sketch.Query.Correct.{last_is_zero-true}
use anon_graphzeppelin.Supernode.{Supernode, get_sketch, make_supernode}
use anon_graphzeppelin.Supernode.Delta.{NoCollision}

-- A stand-in for the hash function: it mixes by two odd constants.
abbrev pub toy_hash : Hashing
toy_hash = record { xxh = λ idx sd. (idx + 1) * 2654435761 + (sd + idx) * 40503; hash_bytes = 4 }

-- Two columns of three guesses, and the deterministic bucket.
abbrev pub toy_statics : Statics
toy_statics = record { failure_factor = 2; n = 32; num_elems = 7; num_columns = 2; num_guesses = 3 }

pub toy_statics-IsConfigured : IsConfigured toy_statics
toy_statics-IsConfigured = record { elems = omega arith; narrow = omega arith }

-- A stream in which 9 and 14 are inserted and deleted, and 21 stays.
abbrev pub toy_stream : List ℕ
toy_stream = 9 ∷ 14 ∷ 21 ∷ 14 ∷ 9 ∷ []

abbrev pub toy_noise : List ℕ
toy_noise = 9 ∷ 14 ∷ []

abbrev pub toy_node : Supernode
toy_node = make_supernode toy_statics 2 2 32 5

-- Where the sum of the indices is not 0 the deterministic bucket is not zero.
pub NoCollision-of :
    (s : Supernode) (l : List ℕ)
    → xor_all (λ x. x) 0 l ≢ 0
    → NoCollision toy_hash toy_statics 2 2 s l
NoCollision-of s l ne i p z =
    let sd = (get_sketch s i).seed in
    let last =
      batch_update-last toy_hash toy_statics toy_statics-IsConfigured (make toy_statics sd) l
        (IsSized-make toy_statics sd) in
    let start = make-LastIsZero toy_hash toy_statics toy_statics-IsConfigured sd sd in
    let zero_last =
      last_is_zero-true toy_statics (batch_update toy_hash toy_statics (make toy_statics sd) l) z in
    let sum : xor_all (λ x. x) 0 l ≡ 0 =
      ap (λ a. xor_all (λ x. x) a l) (sym start.0) ∙ sym last.0 ∙ zero_last.0 in
    absurd (ne sum)
