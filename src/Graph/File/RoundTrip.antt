-- ===== src/Graph/File/RoundTrip.antt =====
-- A graph that is written and opened again.
use anon_graphzeppelin.Base.{
  ℕ, ◌^◌, ◌<◌, ◌≡◌, refl, ap, subst, Bool, false, List, [], ◌∷◌, ◌++◌, map, some, and_then, length,
  ok,
}
use mathlib.Core.List.{append_assoc, append-nil}
use anon_graphzeppelin.Stream.{◌>>=◌, write_uint, read_uint-write_uint}
use anon_graphzeppelin.Bucket.{Hashing}
use anon_graphzeppelin.Sketch.{Statics}
use anon_graphzeppelin.Sketch.Serial.Dense.{IsWords}
use anon_graphzeppelin.Supernode.{Supernode, get_sketch}
use anon_graphzeppelin.Supernode.Delta.{IsBuilt}
use anon_graphzeppelin.Supernode.Serial
use anon_graphzeppelin.Supernode.Serial.{append_some, read_supernode}
use anon_graphzeppelin.Supernode.Serial.RoundTrip.{copies_from, read_supernode-write_binary}
use anon_graphzeppelin.Graph.File.{
  Opened, start_engine, configure_supernodes, write_supernodes, write_graph, read_supernodes,
  read_opened, open_file,
}

-- A supernode of a graph, with all its sketches.
pub record IsWhole (h : Hashing) (st : Statics) (width max_sketches n seed : ℕ) (s : Supernode)
    : Type 0 where
  pub built : IsBuilt st width s
  pub words : (i : ℕ) → i < s.num_sketches → IsWords h (get_sketch s i)
  pub all : s.num_sketches ≡ max_sketches
  pub same_n : s.n ≡ n
  pub same_seed : s.seed ≡ seed

abbrev pub AreWhole : Hashing → Statics → ℕ → ℕ → ℕ → ℕ → List Supernode → Type 0
AreWhole h st width max_sketches n seed [] = Unit {0}
AreWhole h st width max_sketches n seed (s ∷ supernodes) =
    IsWhole h st width max_sketches n seed s × AreWhole h st width max_sketches n seed supernodes

-- The copy that is read back, of which no sketch is used up.
abbrev pub unused_copy : ℕ → ℕ → ℕ → Supernode → Supernode
unused_copy max_sketches n seed s = record {
  sample_idx = 0;
  n = n;
  seed = seed;
  num_sketches = max_sketches;
  merged_sketches = max_sketches;
  sketches = copies_from s max_sketches 0;
}

module _ (h : Hashing) (column_gen guess_gen max_of : ℕ → ℕ) (fuel n : ℕ)
    (narrow : max_of n < 2 ^ 32) where
  supernode_back :
      (st : Statics) (width seed : ℕ) (s : Supernode) (rest : List ℕ)
      → IsWhole h st width (max_of n) n seed s
      → (bytes : List ℕ) × (Serial.write_binary h st fuel s false ≡ some bytes)
        × (read_supernode h st fuel (max_of n) width n seed (bytes ++ rest)
            ≡ some (unused_copy (max_of n) n seed s, rest))
  supernode_back st width seed s rest w =
      let (bytes, written, back) =
        read_supernode-write_binary h st width s w.built w.words fuel (max_of n) rest w.all
          narrow in
      (
        bytes,
        written,
        subst
            (λ k.
              read_supernode h st fuel (max_of n) width k seed (bytes ++ rest)
              ≡ some (unused_copy (max_of n) k seed s, rest))
            w.same_n
            (subst
              (λ k.
                read_supernode h st fuel (max_of n) width s.n k (bytes ++ rest)
                ≡ some (unused_copy (max_of n) s.n k s, rest))
              w.same_seed back),
      )

  supernodes_back :
      (st : Statics) (width seed : ℕ) (supernodes : List Supernode) (rest : List ℕ)
      → AreWhole h st width (max_of n) n seed supernodes
      → (bytes : List ℕ) × (write_supernodes h column_gen guess_gen max_of fuel st supernodes
          ≡ some bytes)
        × (read_supernodes h column_gen guess_gen max_of fuel st width n seed
              (length supernodes)
              (bytes ++ rest)
            ≡ some (map (unused_copy (max_of n) n seed) supernodes, rest))
  unfolding write_supernodes read_supernodes
  supernodes_back st width seed [] rest w = ([], refl, refl)
  supernodes_back st width seed (s ∷ supernodes) rest (one, others) =
      let (tail, tail_written, tail_back) = supernodes_back st width seed supernodes rest others in
      let (head, head_written, head_back) = supernode_back st width seed s (tail ++ rest) one in
      (
        head ++ tail,
        rw (head_written, tail_written) refl,
        rw (append_assoc head tail rest, read_supernodes, ◌>>=◌, head_back, tail_back) refl,
      )

  -- The header is read back, and then the supernodes.
  opened :
      (g : Opened) (backup_in_mem : Bool) (tail : List ℕ) (supernodes : List Supernode)
      → n < 2 ^ 32
      → g.seed < 2 ^ 64
      → g.fail_factor < 2 ^ 64
      → read_supernodes h column_gen guess_gen max_of fuel
          (configure_supernodes h column_gen guess_gen max_of fuel n g.fail_factor)
          (column_gen g.fail_factor)
          n
          g.seed
          n
          (tail ++ [])
        ≡ some (supernodes, [])
      → read_opened h column_gen guess_gen max_of fuel backup_in_mem
          ((write_uint 8 g.seed ++ (write_uint 4 n ++ write_uint 8 g.fail_factor)) ++ tail)
        ≡ some (
          record {
            engine = start_engine n false backup_in_mem supernodes;
            seed = g.seed;
            fail_factor = g.fail_factor;
          },
          [],
        )
  unfolding read_opened
  opened g backup_in_mem tail supernodes hn hs hf back =
      rw
        (
          append_assoc,
          append_assoc,
          ◌>>=◌,
          read_uint-write_uint 8 g.seed _ hs,
          read_uint-write_uint 4 n _ hn,
          read_uint-write_uint 8 g.fail_factor _ hf,
          ← append-nil tail,
          back,
        )
        refl

  -- A graph all of whose supernodes have all their sketches, with one supernode for each of its
  -- nodes and numbers that fit their bytes, is written, and the file is opened again as a graph
  -- with the same seed and failure factor, whose supernodes are copies with no sketch used up,
  -- whose nodes stand each on their own, and whose components are not valid.
  pub open_file-write_graph :
      (g : Opened) (backup_in_mem : Bool)
      → g.engine.graph.num_nodes ≡ n
      → length g.engine.supernodes ≡ n
      → n < 2 ^ 32
      → g.seed < 2 ^ 64
      → g.fail_factor < 2 ^ 64
      → AreWhole h
          (configure_supernodes h column_gen guess_gen max_of fuel n g.fail_factor)
          (column_gen g.fail_factor)
          (max_of n)
          n
          g.seed
          g.engine.supernodes
      → (bytes : List ℕ) × (write_graph h column_gen guess_gen max_of fuel g ≡ some bytes)
        × (open_file h column_gen guess_gen max_of fuel false backup_in_mem bytes
            ≡ some (
                ok (record {
                  engine =
                      start_engine n false backup_in_mem
                        (map (unused_copy (max_of n) n g.seed) g.engine.supernodes);
                  seed = g.seed;
                  fail_factor = g.fail_factor;
                })))
  unfolding write_graph open_file
  open_file-write_graph g backup_in_mem nodes count hn hs hf whole =
      let st = configure_supernodes h column_gen guess_gen max_of fuel n g.fail_factor in
      let (tail, written, back) =
        supernodes_back st (column_gen g.fail_factor) g.seed g.engine.supernodes [] whole in
      let header = write_uint 8 g.seed ++ (write_uint 4 n ++ write_uint 8 g.fail_factor) in
      (
        header ++ tail,
        rw (nodes, written) refl,
        ap (λ o. and_then o (λ r. some (ok r.0)))
            (opened g backup_in_mem tail (map (unused_copy (max_of n) n g.seed) g.engine.supernodes)
              hn hs hf
              (subst
                (λ k.
                  read_supernodes h column_gen guess_gen max_of fuel st (column_gen g.fail_factor) n
                    g.seed k (tail ++ [])
                  ≡ some (map (unused_copy (max_of n) n g.seed) g.engine.supernodes, []))
                count back)),
      )
