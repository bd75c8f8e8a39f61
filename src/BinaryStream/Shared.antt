-- ===== src/BinaryStream/Shared.antt =====
-- `BinaryGraphStream_MT` of include/binary_graph_stream.h: the state that the threads share, what
-- one thread does in `read_data`, and the queries. The atomic variables are those of a sequentially
-- consistent memory; `pread` of the system is a parameter, which returns -1 as `none`.
pub mod Amount
pub mod Bytes
use anon_graphzeppelin.Base.{
  ℕ, zero, suc, ◌+◌, ◌-◌, ◌*◌, ◌%◌, ◌^◌, Bool, true, false, ◌&&◌, ◌||◌, List, [], ◌∷◌, ◌++◌, Option,
  none, some, and_then, length, drop, ltb, leb, ◌==◌, if◌then◌else◌, u32, u64, Result, ok, throw,
  Exception,
}
use anon_graphzeppelin.Types.{UpdateType, Edge, GraphUpdate}
use anon_graphzeppelin.BinaryStream.{edge_size, header_size, uint_of, read_update}

-- `stream_fd`, and `this->` fields.
pub record BinaryGraphStreamMt : Type 0 where
  pub num_nodes : ℕ
  pub num_edges : ℕ
  pub buf_size : ℕ
  pub end_of_file : ℕ
  pub stream_off : ℕ
  pub query_index : ℕ
  pub query_block : Bool

abbrev pub no_query : ℕ
no_query = 2 ^ 64 - 1

-- The constructor from what the two calls of `read` return: -1 is `none`.
pub open_mt : Option (List ℕ) → Option (List ℕ) → ℕ → Result BinaryGraphStreamMt
open_mt (some nodes) (some edges) b =
    if length nodes == 4 && length edges == 8
    then ok (record {
      num_nodes = uint_of 4 nodes;
      num_edges = uint_of 8 edges;
      buf_size = b - b % edge_size;
      end_of_file = u64 (u64 (uint_of 8 edges * edge_size) + header_size);
      stream_off = header_size;
      query_index = no_query;
      query_block = false;
    })
    else throw Exception.bad_stream
open_mt (some nodes) none b = throw Exception.bad_stream
open_mt none edges b = throw Exception.bad_stream

unfoldable pub on_demand_query : BinaryGraphStreamMt → BinaryGraphStreamMt
on_demand_query s = record s { query_block = true }

pub post_query_resume : BinaryGraphStreamMt → BinaryGraphStreamMt
post_query_resume s = record s { query_block = false; query_index = no_query }

pub record Registered : Type 0 where
  pub stream : BinaryGraphStreamMt
  pub accepted : Bool

pub register_query : ℕ → BinaryGraphStreamMt → Registered
register_query query_idx s =
    let byte_index = u64 (header_size + u64 (query_idx * edge_size)) in
    if leb byte_index s.stream_off
    then record { stream = s; accepted = false }
    else record { stream = record s { query_index = byte_index }; accepted = true }

pub stream_reset : BinaryGraphStreamMt → BinaryGraphStreamMt
stream_reset s = record s { stream_off = header_size }

-- `stream_off.fetch_add(buf_size)`
unfoldable pub fetch_add : BinaryGraphStreamMt → BinaryGraphStreamMt
fetch_add s = record s { stream_off = u64 (s.stream_off + s.buf_size) }

-- `stream_off = query_index.load();`
unfoldable pub stop_at_query : BinaryGraphStreamMt → BinaryGraphStreamMt
stop_at_query s = record s { stream_off = s.query_index }

-- `query_index >= read_off && query_index < read_off + buf_size`
unfoldable pub query_inside : BinaryGraphStreamMt → ℕ → Bool
query_inside s read_off =
    leb read_off s.query_index && ltb s.query_index (u64 (read_off + s.buf_size))

-- The `data_to_read` that the query and the end of the file leave of the buffer.
unfoldable pub data_to_read : BinaryGraphStreamMt → ℕ → ℕ
data_to_read s read_off =
    let want = if query_inside s read_off then s.query_index - read_off else s.buf_size in
    if ltb s.end_of_file (u64 (read_off + want)) then s.end_of_file - read_off else want

-- What `read_data` leaves, its result, and the buffer.
pub record ReadData : Type 0 where
  pub stream : BinaryGraphStreamMt
  pub buf : List ℕ
  pub data_read : ℕ

-- `MT_StreamReader`
pub record MtStreamReader : Type 0 where
  pub memory : List ℕ  -- from `start_buf` on
  pub pos : ℕ  -- buf - start_buf
  pub data_in_buf : ℕ

pub record MtGot : Type 0 where
  pub stream : BinaryGraphStreamMt
  pub reader : MtStreamReader
  pub update : GraphUpdate

pub make_reader : List ℕ → MtStreamReader
make_reader heap = record { memory = heap; pos = 0; data_in_buf = 0 }

abbrev pub break_point : GraphUpdate
break_point = record { edge = record { src = 0; dst = 0 }; type = UpdateType.breakpoint }

-- The part of `get_edge` after the buffer was filled.
pub next_update : BinaryGraphStreamMt → MtStreamReader → Option (Result MtGot)
next_update s r = and_then (read_update (drop r.pos r.memory)) (λ u.
    some (ok (record { stream = s; reader = record r { pos = r.pos + edge_size }; update = u.0 })))

-- `if ((data_in_buf = stream.read_data(start_buf)) == 0)`
pub after_read : MtStreamReader → ReadData → Option (Result MtGot)
after_read r d =
    let filled = record r { memory = d.buf; data_in_buf = d.data_read } in
    if d.data_read == 0
    then some (ok (record { stream = d.stream; reader = filled; update = break_point }))
    else next_update d.stream (record filled { pos = 0 })

module _ (pread : ℕ → ℕ → Option (List ℕ)) where
  -- The loop of `pread`, which writes each part to the beginning of the buffer.
  pub read_loop : ℕ → ℕ → ℕ → ℕ → List ℕ → Option (Result (List ℕ × ℕ))
  read_loop zero want read_off data_read buf = none
  read_loop (suc fuel) want read_off data_read buf =
      if leb want data_read
      then some (ok (buf, data_read))
      else elim (pread want (u64 (read_off + data_read))) [
        | none ↦ some (throw Exception.stream_failed)
        | some bytes ↦
            read_loop fuel want read_off (data_read + length bytes)
              (bytes ++ drop (length bytes) buf)
      ]

  pub read_chunk : ℕ → BinaryGraphStreamMt → ℕ → List ℕ → Option (Result ReadData)
  read_chunk fuel s read_off buf =
      and_then (read_loop fuel (data_to_read s read_off) read_off 0 buf) (λ r. elim r [
        | throw x ↦ some (throw x)
        | ok (buf', amount) ↦ some (
            ok (record {
              stream = if query_inside s read_off then stop_at_query s else s;
              buf = buf';
              data_read = u32 amount;
            }))
      ])

  -- After `fetch_add`.
  pub settle : ℕ → BinaryGraphStreamMt → ℕ → List ℕ → Option (Result ReadData)
  settle fuel s read_off buf =
      if leb s.query_index read_off
      then some (ok (record { stream = stop_at_query s; buf = buf; data_read = 0 }))
      else if leb s.end_of_file read_off
      then some (ok (record { stream = s; buf = buf; data_read = 0 }))
      else read_chunk fuel s read_off buf

  pub read_data : ℕ → BinaryGraphStreamMt → List ℕ → Option (Result ReadData)
  read_data fuel s buf =
      if s.query_block || leb s.end_of_file s.stream_off || leb s.query_index s.stream_off
      then some (ok (record { stream = s; buf = buf; data_read = 0 }))
      else settle fuel (fetch_add s) s.stream_off buf

  pub get_edge : ℕ → BinaryGraphStreamMt → MtStreamReader → Option (Result MtGot)
  get_edge fuel s r =
      if leb r.data_in_buf r.pos
      then and_then (read_data fuel s r.memory)
          (λ d. elim d [ throw x ↦ some (throw x) | ok d' ↦ after_read r d' ])
      else next_update s r
