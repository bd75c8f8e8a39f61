-- ===== src/Types.antt =====
-- include/types.h: stream updates, edges and their order; and the result codes of a query
-- (include/l0_sampling/sketch.h).
use anon_graphzeppelin.Base.{ℕ, Bool, ◌&&◌, ltb, ◌==◌, if◌then◌else◌}

-- A byte of a file that is no enumerator gives the type `other`.
pub data UpdateType : Type 0 where
  insert delete breakpoint : UpdateType
  other : ℕ → UpdateType

-- `(UpdateType)` of a byte
unfoldable pub update_type : ℕ → UpdateType
update_type b =
    if b == 0
    then UpdateType.insert
    else if b == 1
    then UpdateType.delete
    else if b == 2
    then UpdateType.breakpoint
    else UpdateType.other b

pub record Edge : Type 0 where
  pub src : ℕ
  pub dst : ℕ

pub record GraphUpdate : Type 0 where
  pub edge : Edge
  pub type : UpdateType

pub data SampleSketchRet : Type 0 where
  good zero fail : SampleSketchRet

-- `operator<`
pub edge_lt : Edge → Edge → Bool
edge_lt e oth = if e.src == oth.src then ltb e.dst oth.dst else ltb e.src oth.src

-- `operator==`
pub edge_eq : Edge → Edge → Bool
edge_eq e oth = e.src == oth.src && e.dst == oth.dst
