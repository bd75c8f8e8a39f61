-- ===== src/Graph/Boruvka.antt =====
-- `boruvka_emulation` of src/graph.cpp, with `sample_supernodes`, `merge_supernodes` and the
-- backups. The parallel loops work on distinct supernodes, and are seen in the order of their
-- indices; of several exceptions the last is thrown.
pub mod Samples
pub mod Rounds
pub mod Backup
pub mod Cut
use anon_graphzeppelin.Base.{
  ℕ, zero, suc, ◌+◌, Bool, true, false, not, ◌&&◌, List, [], ◌∷◌, ◌++◌, Option, none, some,
  and_then, ◌==◌, if◌then◌else◌, get_or, set, replicate, Result, ok, throw, Exception,
}
use anon_graphzeppelin.Types.{Edge, SampleSketchRet}
use anon_graphzeppelin.Dsu.{identity}
use anon_graphzeppelin.Graph.{Graph, Step, Merging, supernodes_to_merge}
use anon_graphzeppelin.Graph.Answer.{cc_from_dsu}
use anon_graphzeppelin.Graph.Sampler.{Sampler, Sampled}

-- `query`: the array of the samples, read at the representatives.
abbrev pub Samples : Type 0
Samples = ℕ → Edge × SampleSketchRet

-- The variables of `boruvka_emulation`, with those of the graph that it changes.
pub record Run (A : Type 0) : Type 0 where
  pub graph : Graph
  pub supernodes : List A
  pub query : Samples
  pub reps : List ℕ
  pub copies : List A  -- copy_supernodes
  pub backed_up : List ℕ
  pub backup_file : List ℕ
  pub first_round : Bool

-- The end of the `try` block, or of one round of its loop.
pub record Ended (A : Type 0) : Type 0 where
  pub run : Run A
  pub err : Option Exception

-- The variables of `sample_supernodes`.
pub record Sampling (A : Type 0) : Type 0 where
  pub supernodes : List A
  pub query : Samples
  pub err : Option Exception

module _ (S : Sampler) where
  -- What the `try` block in the loop of `sample_supernodes` does with a sample.
  pub take_sample : Sampling S.State → ℕ → Sampled S.State → Sampling S.State
  take_sample t i sampled = record {
    supernodes = set t.supernodes i sampled.state;
    query = elim sampled.result [ ok r ↦ λ j. if j == i then r else t.query j | throw e ↦ t.query ];
    err = elim sampled.result [ ok r ↦ t.err | throw e ↦ some e ];
  }

  -- The loop of `sample_supernodes`.
  pub sample_supernodes : Sampling S.State → List ℕ → Sampling S.State
  sample_supernodes t [] = t
  sample_supernodes t (i ∷ reps) =
      sample_supernodes (take_sample t i (S.sample (get_or t.supernodes i S.absent))) reps

  -- `supernodes[a]->merge(*supernodes[b])` for each `b` of a list.
  pub merge_into : ℕ → List ℕ → List S.State → List S.State
  merge_into a [] supernodes = supernodes
  merge_into a (b ∷ bs) supernodes =
      merge_into a bs
        (set supernodes a (S.merge (get_or supernodes a S.absent) (get_or supernodes b S.absent)))

  -- The loop of `merge_supernodes`: the copies, where they are made, and the supernodes.
  pub merge_supernodes :
      Bool → List (List ℕ) → List ℕ → List S.State → List S.State → List S.State × List S.State
  merge_supernodes make_copy to_merge [] copies supernodes = (copies, supernodes)
  merge_supernodes make_copy to_merge (a ∷ new_reps) copies supernodes =
      merge_supernodes make_copy to_merge new_reps
        (if make_copy then set copies a (S.copy (get_or supernodes a S.absent)) else copies)
        (merge_into a (get_or to_merge a []) supernodes)

  pub backup_to_disk : List ℕ → List S.State → List ℕ
  backup_to_disk [] supernodes = []
  backup_to_disk (i ∷ ids) supernodes =
      S.save (get_or supernodes i S.absent) ++ backup_to_disk ids supernodes

  -- `none`: the file is too short.
  pub restore_from_disk : List ℕ → List ℕ → List S.State → Option (List S.State)
  restore_from_disk [] bytes supernodes = some supernodes
  restore_from_disk (i ∷ ids) bytes supernodes =
      and_then (S.load bytes) (λ r. restore_from_disk ids r.1 (set supernodes i r.0))

  -- `supernodes[i] = copy_supernodes[i]`
  pub restore_copies : List ℕ → List S.State → List S.State → List S.State
  restore_copies [] copies supernodes = supernodes
  restore_copies (i ∷ ids) copies supernodes =
      restore_copies ids copies (set supernodes i (get_or copies i S.absent))

  module _ (fuel : ℕ) (make_copy in_mem : Bool) where
    -- The rest of a round, behind `supernodes_to_merge`.
    pub merge_round : Run S.State → Merging → Ended S.State
    merge_round r m =
        let backing = make_copy && r.first_round in
        let (copies, supernodes) =
          merge_supernodes (backing && in_mem) m.to_merge m.new_reps r.copies r.supernodes in
        record {
          run = record r {
            graph = m.graph;
            supernodes = supernodes;
            reps = m.new_reps;
            copies = copies;
            backed_up = if backing then m.new_reps else r.backed_up;
            backup_file =
                if backing && not in_mem
                then backup_to_disk m.new_reps r.supernodes
                else r.backup_file;
            first_round = false;
          };
          err = none;
        }

    -- The rest of a round, behind `sample_supernodes`; `err` is its exception.
    pub sampled_round : Run S.State → Option Exception → Option (Ended S.State)
    sampled_round r (some e) = some (record { run = r; err = some e })
    sampled_round r none =
        and_then (supernodes_to_merge fuel r.query r.graph r.reps) (λ m. some (merge_round r m))

    -- The body of the `do` loop.
    pub round : Run S.State → Option (Ended S.State)
    round r =
        let t =
          sample_supernodes (record { supernodes = r.supernodes; query = r.query; err = none })
            r.reps in
        sampled_round
          (record r {
            graph = record r.graph { modified = false };
            supernodes = t.supernodes;
            query = t.query;
          })
          t.err

    -- `while (modified)`, and the exception that ends the loop.
    pub go_on :
        Option Exception
        → Bool
        → Ended S.State
        → (Run S.State → Option (Ended S.State))
        → Option (Ended S.State)
    go_on (some e) modified ended loop = some ended
    go_on none true ended loop = loop ended.run
    go_on none false ended loop = some ended

    -- The `do` loop, for at most `rounds` rounds.
    pub boruvka_rounds : ℕ → Run S.State → Option (Ended S.State)
    boruvka_rounds zero r = none
    boruvka_rounds (suc rounds) r =
        and_then (round r)
          (λ ended. go_on ended.err ended.run.graph.modified ended (boruvka_rounds rounds))

    -- `cleanup_copy`
    pub cleanup_copy : Run S.State → Option (List S.State)
    cleanup_copy r =
        if not make_copy
        then some r.supernodes
        else if in_mem
        then some (restore_copies r.backed_up r.copies r.supernodes)
        else restore_from_disk r.backed_up r.backup_file r.supernodes

    -- The variables as they are set in front of the `try` block.
    unfoldable pub first_run : Graph → List S.State → Run S.State
    first_run g supernodes = record {
      graph = record g {
        parent = identity g.num_nodes 0;
        size = replicate g.num_nodes 1;
        spanning_forest = replicate g.num_nodes [];
      };
      supernodes = supernodes;
      query = λ _. (record { src = 0; dst = 0 }, SampleSketchRet.good);
      reps = identity g.num_nodes 0;
      copies = replicate g.num_nodes S.absent;
      backed_up = [];
      backup_file = [];
      first_round = true;
    }
