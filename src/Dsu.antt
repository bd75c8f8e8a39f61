-- ===== src/Dsu.antt =====
-- include/dsu.h: `DisjointSetUnion` and `MT_DisjoinSetUnion`, over node ids of `bits` bits. Both
-- keep the same arrays; those of the second are atomic, and its calls are seen one at a time.
pub mod Find
pub mod Merge
pub mod Components
pub mod Concurrent
use anon_graphzeppelin.Base.{
  ℕ, zero, suc, ◌+◌, ◌%◌, ◌^◌, Bool, true, false, List, [], ◌∷◌, Option, none, some, ltb, ◌==◌,
  if◌then◌else◌, length, set, replicate,
}
use anon_graphzeppelin.Forest.{at}

pub record DisjointSetUnion : Type 0 where
  pub parent : List ℕ
  pub size : List ℕ

pub record DsuMergeRet : Type 0 where
  pub merged : Bool
  pub root : ℕ
  pub child : ℕ

-- The object and what a call returns.
pub record Found (A : Type 0) : Type 0 where
  pub dsu : DisjointSetUnion
  pub value : A

-- `parent[i] = i` for the `left` indices from `i` on.
pub identity : ℕ → ℕ → List ℕ
identity zero i = []
identity (suc left) i = i ∷ identity left (i + 1)

-- `DisjointSetUnion(T n)`
pub make : ℕ → DisjointSetUnion
make n = record { parent = identity n 0; size = replicate n 1 }

pub reset : DisjointSetUnion → DisjointSetUnion
reset d = make (length d.parent)

-- The loop of `find_root`, for at most `fuel` tests of its condition.
unfoldable pub find_root : ℕ → DisjointSetUnion → ℕ → Option (Found ℕ)
find_root zero d u = none
find_root (suc fuel) d u =
    let grand = at d.parent (at d.parent u) in
    let rest = find_root fuel (record d { parent = set d.parent u grand }) grand in
    if grand == u then some (record { dsu = d; value = u }) else rest

pub not_merged : DisjointSetUnion → Found DsuMergeRet
not_merged d = record { dsu = d; value = record { merged = false; root = 0; child = 0 } }

module _ (bits : ℕ) where
  -- Root `b` goes below root `a`.
  pub link : DisjointSetUnion → ℕ → ℕ → Found DsuMergeRet
  link d a b = record {
    dsu = record {
      parent = set d.parent b a;
      size = set d.size a ((at d.size a + at d.size b) % 2 ^ bits);
    };
    value = record { merged = true; root = a; child = b };
  }

  -- `merge`, once both roots are found.
  pub merge_roots : DisjointSetUnion → ℕ → ℕ → Found DsuMergeRet
  merge_roots d a b =
      if a == b
      then not_merged d
      else if ltb (at d.size a) (at d.size b)
      then link d b a
      else link d a b

  pub merge_second : ℕ → Option (Found ℕ) → Option (Found DsuMergeRet)
  merge_second a none = none
  merge_second a (some b) = some (merge_roots b.dsu a b.value)

  pub merge_first : ℕ → Option (Found ℕ) → ℕ → Option (Found DsuMergeRet)
  merge_first fuel none v = none
  merge_first fuel (some a) v = merge_second a.value (find_root fuel a.dsu v)

  -- Both nodes are led to their roots, and the roots are merged.
  pub merge : ℕ → DisjointSetUnion → ℕ → ℕ → Option (Found DsuMergeRet)
  merge fuel d u v = merge_first fuel (find_root fuel d u) v
