-- ===== src/Tests/StreamRuns.antt =====
-- Stream files at fixed inputs.
use anon_graphzeppelin.Base.{
  Option, ◌+◌, ◌<◌, take, drop, replicate, min, inl, ℕ, false, List, [], ◌∷◌, ◌++◌, some, length,
  ◌≡◌, refl, arith, ok,
}
use anon_graphzeppelin.Types.{UpdateType, GraphUpdate, update_type}
use anon_graphzeppelin.Stream.{write_uint}
use anon_graphzeppelin.BinaryStream.{
  type_code, write_updates, BinaryGraphStream, open_stream, Taken, get_edges,
}
use anon_graphzeppelin.BinaryStream.Format.{AreUpdates}
use anon_graphzeppelin.BinaryStream.Calls.{fresh, get_edges-open_stream}
use anon_graphzeppelin.BinaryStream.Shared.{
  ReadData, read_data, BinaryGraphStreamMt, fetch_add, stop_at_query, query_inside,
}
use anon_graphzeppelin.BinaryStream.Shared.Bytes.{read_data-bytes}
use anon_graphzeppelin.BinaryStream.Threads.{Chunk, World, Step, Reach, truncated}
use anon_graphzeppelin.BinaryStream.Threads.Pending.{pendings}
use anon_graphzeppelin.BinaryStream.Threads.Moves.{Tiles, MayStart}
use anon_graphzeppelin.BinaryStream.Threads.Tiling.{Reach-Tiles}
use mathlib.Core.List.{Permᴰ}

abbrev update_of : ℕ → ℕ → UpdateType → GraphUpdate
update_of a b t = record { edge = record { src = a; dst = b }; type = t }

abbrev three_updates : List GraphUpdate
three_updates =
    update_of 0 1 UpdateType.insert
    ∷ update_of 2 300 UpdateType.insert
    ∷ update_of 0 1 UpdateType.delete
    ∷ []

three-AreUpdates : AreUpdates three_updates
unfolding type_code update_type
three-AreUpdates = (
  record { src_lt = omega arith; dst_lt = omega arith; code_lt = omega arith; type_back = refl },
  (
    record { src_lt = omega arith; dst_lt = omega arith; code_lt = omega arith; type_back = refl },
    (
      record {
        src_lt = omega arith;
        dst_lt = omega arith;
        code_lt = omega arith;
        type_back = refl;
      },
      _,
    ),
  ),
)

-- A buffer of two updates, so that the file is read twice.
abbrev small_heap : List ℕ
small_heap = 7 ∷ 7 ∷ 7 ∷ 7 ∷ 7 ∷ 7 ∷ 7 ∷ 7 ∷ 7 ∷ 7 ∷ 7 ∷ 7 ∷ 7 ∷ 7 ∷ 7 ∷ 7 ∷ 7 ∷ 7 ∷ []

get_edges-open_stream_example :
    (s : BinaryGraphStream) × (open_stream
        (some (
          fresh (
            write_uint 4 400
            ++ (write_uint 8 (length three_updates) ++ write_updates three_updates))))
        20
        []
        []
        small_heap
      ≡ ok s)
    × (s.num_nodes ≡ 400)
    × (s.num_edges ≡ length three_updates)
    × (t : Taken) × (get_edges s.num_edges s ≡ some (ok t))
    × (t.updates ≡ three_updates)
get_edges-open_stream_example =
    get_edges-open_stream three_updates 400 20 [] [] small_heap three-AreUpdates (omega arith)
      (omega arith) (omega arith) refl

-- Two threads, buffers of two updates, three updates in the file and a query behind the first one.
abbrev shared_stream : BinaryGraphStreamMt
shared_stream = record {
  num_nodes = 400;
  num_edges = 3;
  buf_size = 18;
  end_of_file = 39;
  stream_off = 12;
  query_index = 21;
  query_block = false;
}

abbrev two_threads : (w : World) × Reach shared_stream 2 w
unfolding fetch_add truncated query_inside stop_at_query
two_threads = (
  _,
  Reach.later 1
      (Reach.later 0
        (Reach.later 1
          (Reach.later 0
            (Reach.later 1
              (Reach.later 0
                (Reach.later 1
                  (Reach.later 0 Reach.start (omega arith) (Step.enter refl refl (omega arith)))
                  (omega arith) (Step.enter refl refl (omega arith)))
                (omega arith) (Step.pass refl (omega arith)))
              (omega arith) (Step.pass refl (omega arith)))
            (omega arith) (Step.fetch refl))
          (omega arith) (Step.fetch refl))
        (omega arith) (Step.read 12 refl (omega arith) (omega arith)))
      (omega arith) (Step.past_query 30 refl (omega arith)),
)

shared-MayStart : MayStart shared_stream 2
shared-MayStart = record {
  buf_gt = omega arith;
  before = omega arith;
  query_ok = inl (omega arith);
  small = omega arith;
}

Reach-Tiles_example :
    (claims : List Chunk) × Permᴰ claims
      (two_threads.0.reads ++ pendings shared_stream two_threads.0.pcs)
    × Tiles 12 claims (min two_threads.0.stream.stream_off 21)
Reach-Tiles_example = Reach-Tiles shared_stream 2 two_threads.0 shared-MayStart two_threads.1

-- A file of 39 bytes, of which the query lets one update be read.
abbrev some_bytes : List ℕ
some_bytes = replicate 39 7

abbrev pread_some : ℕ → ℕ → Option (List ℕ)
pread_some k off = some (take k (drop off some_bytes))

read_data-bytes_example :
    (d : ReadData) × (read_data pread_some 2 shared_stream small_heap ≡ some (ok d))
    × (0 < d.data_read)
    × (12 + d.data_read ≡ 21)
    × (d.buf ≡ take d.data_read (drop 12 some_bytes) ++ drop d.data_read small_heap)
read_data-bytes_example =
    read_data-bytes pread_some some_bytes (λ k off h. refl) shared_stream small_heap refl refl
      (omega arith) (omega arith) (omega arith) (omega arith)
