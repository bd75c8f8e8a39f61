-- ===== src/BinaryStream.antt =====
-- include/binary_graph_stream.h: the format of a stream file, and `BinaryGraphStream`, which one
-- thread reads. A header of 12 bytes holds the number of nodes and of updates; an update has 9
-- bytes: its type and its two nodes. What an uninitialised variable or buffer holds is a parameter.
pub mod Format
pub mod Order
pub mod Calls
pub mod Shared
pub mod Threads
use anon_graphzeppelin.Base.{
  ℕ, zero, suc, ◌+◌, ◌-◌, ◌%◌, Bool, true, false, not, ◌&&◌, ◌||◌, List, [], ◌∷◌, ◌++◌, Option,
  none, some, and_then, length, take, drop, ltb, ◌==◌, if◌then◌else◌, Result, ok, throw, Exception,
}
use anon_graphzeppelin.Types.{UpdateType, Edge, GraphUpdate, update_type}
use anon_graphzeppelin.Stream
use anon_graphzeppelin.Stream.{Reader, done, write_uint, read_uint}

abbrev pub edge_size : ℕ
edge_size = 9

abbrev pub header_size : ℕ
header_size = 12

-- The byte of a type that the tools write.
unfoldable pub type_code : UpdateType → ℕ
type_code UpdateType.insert = 0
type_code UpdateType.delete = 1
type_code UpdateType.breakpoint = 2
type_code (UpdateType.other k) = k

pub write_update : GraphUpdate → List ℕ
write_update u =
    write_uint 1 (type_code u.type) ++ (write_uint 4 u.edge.src ++ write_uint 4 u.edge.dst)

pub write_updates : List GraphUpdate → List ℕ
write_updates [] = []
write_updates (u ∷ us) = write_update u ++ write_updates us

-- The three copies out of the buffer in `get_edge`; `none` where they pass its end.
pub read_update : Reader GraphUpdate
read_update = Stream.◌>>=◌ (read_uint 1) (λ u. Stream.◌>>=◌ (read_uint 4) (λ a.
    Stream.◌>>=◌ (read_uint 4)
      (λ b. done (record { edge = record { src = a; dst = b }; type = update_type u }))))

-- `std::ifstream`: the bytes that are left and the flags; `broken` if the device fails.
pub record File : Type 0 where
  pub left : List ℕ
  pub eof : Bool
  pub failed : Bool
  pub broken : Bool

-- What `read` leaves of the file and of the memory it writes to.
pub record Filled : Type 0 where
  pub file : File
  pub memory : List ℕ

-- `ifstream::read` of `k` bytes.
pub read_file : ℕ → File → List ℕ → Filled
read_file k f memory =
    if f.eof || f.failed || f.broken
    then record { file = record f { failed = true }; memory = memory }
    else record {
      file = record {
        left = drop k f.left;
        eof = ltb (length f.left) k;
        failed = ltb (length f.left) k;
        broken = false;
      };
      memory = take k f.left ++ drop (length (take k f.left)) memory;
    }

pub record BinaryGraphStream : Type 0 where
  pub bin_file : File
  pub memory : List ℕ  -- from `start_buf` on
  pub pos : ℕ  -- buf - start_buf
  pub buf_size : ℕ
  pub num_nodes : ℕ
  pub num_edges : ℕ

pub read_data : BinaryGraphStream → Result BinaryGraphStream
read_data s =
    let filled = read_file s.buf_size s.bin_file s.memory in
    if filled.file.failed && not filled.file.eof
    then throw Exception.stream_failed
    else ok (record s { bin_file = filled.file; memory = filled.memory; pos = 0 })

-- The integer that `k` bytes of memory hold.
pub uint_of : ℕ → List ℕ → ℕ
uint_of k memory = elim (read_uint k memory) [ none ↦ 0 | some (v, rest) ↦ v ]

-- The constructor; `nodes`, `edges` and `heap` are what the fields and the buffer hold before, and
-- `none` is a file that does not open.
pub open_stream : Option File → ℕ → List ℕ → List ℕ → List ℕ → Result BinaryGraphStream
open_stream none b nodes edges heap = throw Exception.bad_stream
open_stream (some f) b nodes edges heap =
    let first = read_file 4 f nodes in
    let second = read_file 8 first.file edges in
    read_data (record {
      bin_file = second.file;
      memory = heap;
      pos = 0;
      buf_size = b - b % edge_size;
      num_nodes = uint_of 4 first.memory;
      num_edges = uint_of 8 second.memory;
    })

pub record Got : Type 0 where
  pub update : GraphUpdate
  pub stream : BinaryGraphStream

-- `if (buf - start_buf == buf_size) read_data();`
pub refill : BinaryGraphStream → Result BinaryGraphStream
refill s = if s.pos == s.buf_size then read_data s else ok s

pub got : GraphUpdate → Result BinaryGraphStream → Result Got
got u (throw x) = throw x
got u (ok s) = ok (record { update = u; stream = s })

pub get_edge : BinaryGraphStream → Option (Result Got)
get_edge s =
    and_then (read_update (drop s.pos s.memory))
      (λ r. some (got r.0 (refill (record s { pos = s.pos + edge_size }))))

-- The updates that `k` calls of `get_edge` return.
pub record Taken : Type 0 where
  pub updates : List GraphUpdate
  pub stream : BinaryGraphStream

pub keep : GraphUpdate → Option (Result Taken) → Option (Result Taken)
keep u none = none
keep u (some (throw x)) = some (throw x)
keep u (some (ok t)) = some (ok (record t { updates = u ∷ t.updates }))

pub get_edges : ℕ → BinaryGraphStream → Option (Result Taken)
get_edges zero s = some (ok (record { updates = []; stream = s }))
get_edges (suc k) s = elim (get_edge s) [
  | none ↦ none
  | some r ↦ elim r [ throw x ↦ some (throw x) | ok g ↦ keep g.update (get_edges k g.stream) ]
]
