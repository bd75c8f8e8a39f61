-- ===== src/Graph/Parent.antt =====
-- `get_parent` finds the root, and leaves the classes as they are.
use anon_graphzeppelin.Base.{
  ℕ, zero, suc, ◌*◌, ◌^◌, ◌<◌, ◌≤◌, ◌≡◌, ◌≢◌, refl, sym, ap, ◌∙◌, inl, inr, arith, false, true,
  some, set, ◌==◌,
}
use anon_graphzeppelin.Forest.{at, Represents, Represents-compress, size_root, root_root}
use anon_graphzeppelin.Dsu.Find.{more_than}
use anon_graphzeppelin.Graph.{Graph, Step, get_parent, set_parent}

-- The graph's arrays stand for the classes of `root`.
abbrev pub GraphStands : ℕ → Graph → (ℕ → ℕ) → Type 0
GraphStands n g root = Represents n g.parent g.size root

-- Two graphs that differ at most in the array of the parents.
pub record SameButParent (g g' : Graph) : Type 0 where
  pub num_nodes : g'.num_nodes ≡ g.num_nodes
  pub size : g'.size ≡ g.size
  pub spanning_forest : g'.spanning_forest ≡ g.spanning_forest
  pub modified : g'.modified ≡ g.modified
  pub dsu_valid : g'.dsu_valid ≡ g.dsu_valid

pub SameButParent-refl : (g : Graph) → SameButParent g g
SameButParent-refl g = record {
  num_nodes = refl;
  size = refl;
  spanning_forest = refl;
  modified = refl;
  dsu_valid = refl;
}

pub SameButParent-trans :
    {g h k : Graph} → SameButParent g h → SameButParent h k → SameButParent g k
SameButParent-trans p q = record {
  num_nodes = q.num_nodes ∙ p.num_nodes;
  size = q.size ∙ p.size;
  spanning_forest = q.spanning_forest ∙ p.spanning_forest;
  modified = q.modified ∙ p.modified;
  dsu_valid = q.dsu_valid ∙ p.dsu_valid;
}

-- With more than log2(n) calls `get_parent` returns: it returns the root, changes nothing but
-- parents, and the graph stands for the same classes.
pub get_parent-GraphStands :
    (n : ℕ) (root : ℕ → ℕ) (fuel : ℕ) (g : Graph) (u : ℕ)
    → GraphStands n g root
    → u < n
    → n < at g.size u * 2 ^ fuel
    → (r : Step ℕ) × (get_parent fuel g u ≡ some r)
      × (r.value ≡ root u)
      × SameButParent g r.graph
      × GraphStands n r.graph root
unfolding get_parent set_parent
get_parent-GraphStands n root zero g u rep p enough = absurd (omega (arith, rep.small u p))
get_parent-GraphStands n root (suc fuel) g u rep p enough = elim (rep.up u p) [
  | inl is_root ↦
      let test : (at g.parent u == u) ≡ true = ground (arith, is_root) in
      (
        record { graph = g; value = u },
        rw test refl,
        sym (rep.own u p is_root),
        SameButParent-refl g,
        rep,
      )
  | inr less ↦
      let above = rep.inside u p in
      let test : (at g.parent u == u) ≡ false =
        ground (arith, less, rep.positive u p, λ (e : at g.parent u ≡ u). ap (at g.size) e) in
      let (r, run, is_root, same, rep') =
        get_parent-GraphStands n root fuel g (at g.parent u) rep above
          (more_than n (at g.size u) (at g.size (at g.parent u)) fuel enough less) in
      let found : r.value ≡ root u = is_root ∙ rep.kept u p in
      (
        record {
          graph = record r.graph { parent = set r.graph.parent u r.value };
          value = r.value;
        },
        rw test (ap (set_parent g u) run),
        found,
        record {
          num_nodes = same.num_nodes;
          size = same.size;
          spanning_forest = same.spanning_forest;
          modified = same.modified;
          dsu_valid = same.dsu_valid;
        },
        rw found (
            Represents-compress rep' u (root u) p (rep.root_inside u p)
              (rw same.size (
                omega (
                  arith,
                  less,
                  size_root rep (at g.parent u) above,
                  ap (at g.size) (rep.kept u p),
                )))
              (root_root rep u p) (not_root_still r.graph rep' less)),
      )
]
  where
    not_root_still :
        (g' : Graph)
        → GraphStands n g' root
        → 2 * at g.size u ≤ at g.size (at g.parent u)
        → at g'.parent u ≢ u
    not_root_still g' rep' less e =
        let root_u = rep'.own u p e in
        let fixed : at g.parent u ≡ u = ap (at g.parent) (sym root_u) ∙ rep.top u p ∙ root_u in
        absurd (omega (arith, less, rep.positive u p, ap (at g.size) fixed))
