-- ===== src/StreamTools.antt =====
-- tools/to_binary_format.cpp and tools/validate_binary_stream.cpp: the streams that the one writes
-- and the other accepts. The numbers that `txt_file >>` reads are the input of the first; the
-- arguments of the command line and the messages are not modelled.
pub mod Convert
pub mod Validate
pub mod Accepted
use anon_graphzeppelin.Base.{
  ℕ, zero, suc, ◌+◌, ◌-◌, ◌*◌, ◌<◌, Bool, true, false, not, ◌||◌, ◌&&◌, List, [], ◌∷◌, ◌++◌, Option,
  none, some, and_then, length, get_or, set, replicate, ltb, leb, ◌==◌, if◌then◌else◌, Result, ok,
  throw,
}
use anon_graphzeppelin.Types.{UpdateType, Edge, GraphUpdate}
use anon_graphzeppelin.Stream.{write_uint}
use anon_graphzeppelin.BinaryStream.{write_updates, File, BinaryGraphStream, open_stream, get_edge}

-- `adj_mat` from row `i` on: row `i` has the nodes from `i` on.
pub make_rows : ℕ → List (List Bool)
make_rows zero = []
make_rows (suc left) = replicate (suc left) false ∷ make_rows left

pub make_adj_mat : ℕ → List (List Bool)
make_adj_mat num_nodes = make_rows num_nodes

-- An element of the matrix, `none` out of its bounds.
pub element : List (List Bool) → ℕ → ℕ → Option Bool
element adj_mat i j =
    if ltb j (length (get_or adj_mat i []))
    then some (get_or (get_or adj_mat i []) j false)
    else none

pub set_element : List (List Bool) → ℕ → ℕ → Bool → List (List Bool)
set_element adj_mat i j b = set adj_mat i (set (get_or adj_mat i []) j b)

-- `u`, which is written as a byte.
pub type_of : Bool → UpdateType
type_of u = if u then UpdateType.delete else UpdateType.insert

pub record Corrected : Type 0 where
  pub adj_mat : List (List Bool)
  pub update : GraphUpdate

-- `u = adj_mat[i][j]; adj_mat[i][j] = !adj_mat[i][j];`
pub correct_at : List (List Bool) → ℕ → ℕ → Edge → Option Corrected
correct_at adj_mat i j e = and_then (element adj_mat i j) (λ u. some (record {
  adj_mat = set_element adj_mat i j (not u);
  update = record { edge = e; type = type_of u };
}))

pub correct : List (List Bool) → Edge → Option Corrected
correct adj_mat e =
    if ltb e.dst e.src
    then correct_at adj_mat e.dst (e.src - e.dst) e
    else correct_at adj_mat e.src (e.dst - e.src) e

-- The loop over the updates of the text.
pub correct_all : List (List Bool) → List Edge → Option (List GraphUpdate)
correct_all adj_mat [] = some []
correct_all adj_mat (e ∷ es) =
    and_then (correct adj_mat e)
      (λ c. and_then (correct_all c.adj_mat es) (λ us. some (c.update ∷ us)))

-- The file that is written.
pub to_binary_format : ℕ → List Edge → Option (List ℕ)
to_binary_format num_nodes es =
    and_then (correct_all (make_adj_mat num_nodes) es)
      (λ us. some (write_uint 4 num_nodes ++ (write_uint 8 (length es) ++ write_updates us)))

pub is_update_type : UpdateType → Bool
is_update_type UpdateType.insert = true
is_update_type UpdateType.delete = true
is_update_type UpdateType.breakpoint = false
is_update_type (UpdateType.other b) = false

pub bad_update : ℕ → GraphUpdate → Bool
bad_update nodes upd =
    leb nodes upd.edge.src
    || leb nodes upd.edge.dst
    || not (is_update_type upd.type)
    || upd.edge.src == upd.edge.dst

-- The loop over the edges; an exception is thrown again.
pub find_errors : ℕ → ℕ → BinaryGraphStream → Bool → Option (Result Bool)
find_errors zero nodes stream err = some (ok err)
find_errors (suc left) nodes stream err = elim (get_edge stream) [
  | none ↦ none
  | some r ↦ elim r [
    | throw x ↦ some (throw x)
    | ok g ↦ find_errors left nodes g.stream (err || bad_update nodes g.update)
  ]
]

pub after_open : Result BinaryGraphStream → Option (Result Bool)
after_open (throw x) = some (throw x)
after_open (ok stream) = find_errors stream.num_edges stream.num_nodes stream false

-- Whether "Stream invalid!" is printed.
pub validate : Option File → List ℕ → List ℕ → List ℕ → Option (Result Bool)
validate file nodes edges heap = after_open (open_stream file (1024 * 1024) nodes edges heap)
