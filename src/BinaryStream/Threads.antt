-- ===== src/BinaryStream/Threads.antt =====
-- `BinaryGraphStream_MT::read_data` of include/binary_graph_stream.h called by several threads at
-- once: each read of `stream_off` with a test, the `fetch_add`, and the rest with its one store are
-- a step. Queries are registered, and the stream is resumed, only while no thread is in `read_data`.
pub mod Pending
pub mod Moves
pub mod Tiling
use anon_graphzeppelin.Base.{
  ℕ, zero, suc, ◌+◌, ◌≤◌, ◌<◌, ◌≡◌, Bool, true, false, ◌||◌, List, [], ◌∷◌, ◌++◌, leb, length,
  get_or, set, replicate, if◌then◌else◌,
}
use anon_graphzeppelin.BinaryStream.Shared.{
  BinaryGraphStreamMt, fetch_add, stop_at_query, query_inside, data_to_read, on_demand_query,
}

-- Where a thread stands in `read_data`.
pub data Pc : Type 0 where
  idle : Pc
  in_file : Pc  -- after `query_block` and `stream_off >= end_of_file`
  checked : Pc  -- before the `fetch_add`
  fetched : (read_off : ℕ) → Pc

-- The bytes that one call reads.
pub record Chunk : Type 0 where
  pub start : ℕ
  pub size : ℕ

-- `reads` are the chunks that were read, the last one first.
pub record World : Type 0 where
  pub stream : BinaryGraphStreamMt
  pub pcs : List Pc
  pub reads : List Chunk

abbrev move : World → ℕ → Pc → World
move w i p = record w { pcs = set w.pcs i p }

-- The chunk of a call that reads.
abbrev pub chunk_of : BinaryGraphStreamMt → ℕ → Chunk
chunk_of s read_off = record { start = read_off; size = data_to_read s read_off }

-- The stream after the query truncates the read.
unfoldable pub truncated : BinaryGraphStreamMt → ℕ → BinaryGraphStreamMt
truncated s read_off = if query_inside s read_off then stop_at_query s else s

-- A step of thread `i`.
pub data Step (w : World) (i : ℕ) : World → Type 0 where
  blocked : get_or w.pcs i Pc.idle ≡ Pc.idle → w.stream.query_block ≡ true → Step w i w
  ended : get_or w.pcs i Pc.idle ≡ Pc.idle → w.stream.end_of_file ≤ w.stream.stream_off → Step w i w
  enter :
      get_or w.pcs i Pc.idle ≡ Pc.idle
      → w.stream.query_block ≡ false
      → w.stream.stream_off < w.stream.end_of_file
      → Step w i (move w i Pc.in_file)
  stopped :
      get_or w.pcs i Pc.idle ≡ Pc.in_file
      → w.stream.query_index ≤ w.stream.stream_off
      → Step w i (move w i Pc.idle)
  pass :
      get_or w.pcs i Pc.idle ≡ Pc.in_file
      → w.stream.stream_off < w.stream.query_index
      → Step w i (move w i Pc.checked)
  fetch :
      get_or w.pcs i Pc.idle ≡ Pc.checked
      → Step w i
          (record (move w i (Pc.fetched w.stream.stream_off)) { stream = fetch_add w.stream })
  past_query :
      (r : ℕ)
      → get_or w.pcs i Pc.idle ≡ Pc.fetched r
      → w.stream.query_index ≤ r
      → Step w i (record (move w i Pc.idle) { stream = stop_at_query w.stream })
  past_end :
      (r : ℕ)
      → get_or w.pcs i Pc.idle ≡ Pc.fetched r
      → r < w.stream.query_index
      → w.stream.end_of_file ≤ r
      → Step w i (move w i Pc.idle)
  read :
      (r : ℕ)
      → get_or w.pcs i Pc.idle ≡ Pc.fetched r
      → r < w.stream.query_index
      → r < w.stream.end_of_file
      → Step w i (record (move w i Pc.idle) {
        stream = truncated w.stream r;
        reads = chunk_of w.stream r ∷ w.reads;
      })

-- What `n` threads that start on `s` can reach.
pub data Reach (s : BinaryGraphStreamMt) (n : ℕ) : World → Type 0 where
  start : Reach s n (record { stream = s; pcs = replicate n Pc.idle; reads = [] })
  later : {w w' : World} (i : ℕ) → Reach s n w → i < length w.pcs → Step w i w' → Reach s n w'
  -- `on_demand_query` by another thread
  ask : {w : World} → Reach s n w → Reach s n (record w { stream = on_demand_query w.stream })
