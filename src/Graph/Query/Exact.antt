-- ===== src/Graph/Query/Exact.antt =====
-- The sets that a query for the components returns are the connected components of the graph, where
-- the samples come from the edges that leave a supernode.
pub mod Calls
use mathlib.Core.List.{append-nil, Memᴰ}
use anon_graphzeppelin.Base.{
  ℕ, ◌^◌, ◌<◌, ◌≡◌, refl, sym, ap, subst, ◌∙◌, ◌⊎◌, inl, inr, ◌↔◌, Bool, true, false, not, ◌&&◌,
  List, [], ◌∷◌, map, Option, none, some, and_then, length, get_or, Exception, ok, throw,
  Option-cases,
}
use anon_graphzeppelin.Types.{Edge}
use anon_graphzeppelin.Dsu.Merge.Classes.{Linked, Linked-none}
use anon_graphzeppelin.Forest.{root_root, root_unique}
use anon_graphzeppelin.Graph.{Graph}
use anon_graphzeppelin.Graph.Parent.{GraphStands}
use anon_graphzeppelin.Graph.Rounds.{Joined}
use anon_graphzeppelin.Graph.Answer.{Entry}
use anon_graphzeppelin.Graph.Answer.Classes.{class_below, Lists, cc_from_dsu-Lists}
use anon_graphzeppelin.Graph.Sampler.{Sampler, IsFair}
use anon_graphzeppelin.Graph.Boruvka.{first_run, cleanup_copy, boruvka_rounds}
use anon_graphzeppelin.Graph.Boruvka.Samples.{AllGood, total_remaining}
use anon_graphzeppelin.Graph.Boruvka.Backup.{cleanup-some, first_run-Inv}
use anon_graphzeppelin.Graph.Boruvka.Rounds.{Each, Each-Memᴰ, boruvka_rounds-Inv}
use anon_graphzeppelin.Graph.Boruvka.Cut.{IsCut}
use anon_graphzeppelin.Graph.Boruvka.Cut.Covered.{AllClosed}
use anon_graphzeppelin.Graph.Boruvka.Cut.Loop.{boruvka_rounds-AllClosed, first_run-Covered}
use anon_graphzeppelin.Graph.Query.{Engine, Reply, finish_boruvka, boruvka_emulation}

-- Edges lead from one node to the other.
pub data Connected (IsEdge : Edge → Type 0) : ℕ → ℕ → Type 0 where
  here : (i : ℕ) → Connected IsEdge i i
  edge : (e : Edge) → IsEdge e → Connected IsEdge e.src e.dst
  back : (i j : ℕ) → Connected IsEdge i j → Connected IsEdge j i
  path : (i j k : ℕ) → Connected IsEdge i j → Connected IsEdge j k → Connected IsEdge i k

Linked-Connected :
    (IsEdge : Edge → Type 0) (edges : List Edge)
    → Each IsEdge edges
    → (i j : ℕ) → Linked (λ k. k) edges i j
    → Connected IsEdge i j
Linked-Connected IsEdge edges each i j (Linked.before _ _ e) =
    subst (Connected IsEdge i) e (Connected.here i)
Linked-Connected IsEdge edges each i j (Linked.edge e l) =
    Connected.edge e (Each-Memᴰ IsEdge edges e each l)
Linked-Connected IsEdge edges each i j (Linked.back _ _ l) =
    Connected.back j i (Linked-Connected IsEdge edges each j i l)
Linked-Connected IsEdge edges each i j (Linked.path _ k _ l l') =
    Connected.path i k j (Linked-Connected IsEdge edges each i k l)
      (Linked-Connected IsEdge edges each k j l')

module _ (S : Sampler) (n : ℕ) (Good : S.State → Type 0) (IsEdge : Edge → Type 0)
    (fair : IsFair S n Good IsEdge) (cut : IsCut S n IsEdge) (narrow : n < 2 ^ 32) (fuel : ℕ)
    (fits : n < 2 ^ fuel) where
  -- The classes of `root` are the connected components.
  abbrev pub Components : (ℕ → ℕ) → Type 0
  Components root = (i j : ℕ) → i < n → j < n → (root i ≡ root j) ↔ Connected IsEdge i j

  -- A call returned the connected components, and the graph stands for them.
  abbrev pub FoundReply : Reply S.State (List (List ℕ)) → Type 0
  FoundReply r =
      (root : ℕ → ℕ) × (temp : List Entry) × (r.result ≡ ok (map (λ e. e.nodes) temp))
      × Lists (λ k. class_below root k n) 0 temp
      × Components root
      × GraphStands n r.engine.graph root
      × (r.engine.graph.dsu_valid ≡ true)

  -- Or it threw.
  abbrev pub Exact : Reply S.State (List (List ℕ)) → Type 0
  Exact r = FoundReply r ⊎ ((x : Exception) × (r.result ≡ throw x))

  -- Connected nodes are in one class where no edge leaves a class.
  Connected-closed :
      (g : Graph)
      → (closed : AllClosed S n IsEdge cut g) → (i j : ℕ) → Connected IsEdge i j
      → closed.0 i ≡ closed.0 j
  Connected-closed g closed i j (Connected.here _) = refl
  Connected-closed g (root, stands, closed) i j (Connected.edge e l) =
      let (ps, pd) = fair.inside e l in
      sym
        ((closed (root e.src) (stands.root_inside e.src ps) (root_root stands e.src ps) e l).0 refl)
  Connected-closed g closed i j (Connected.back _ _ l) = sym (Connected-closed g closed j i l)
  Connected-closed g closed i j (Connected.path _ k _ l l') =
      Connected-closed g closed i k l ∙ Connected-closed g closed k j l'

  AllClosed-Components :
      (g : Graph) (edges : List Edge)
      → Each IsEdge edges
      → Joined n (λ i. i) edges g
      → (closed : AllClosed S n IsEdge cut g) → Components closed.0
  AllClosed-Components g edges each (root, stands, same) closed i j pi pj = (
    λ e.
        let one = root_unique stands closed.1 i pi ∙ e ∙ sym (root_unique stands closed.1 j pj) in
        Linked-Connected IsEdge edges each i j (
          subst (λ es. Linked (λ k. k) es i j) (append-nil edges)
            ((same [] i j).0 (Linked.before i j one))),
    Connected-closed g closed i j,
  )

  pub finish-FoundReply :
      (rounds : ℕ) (e : Engine S.State)
      → e.graph.num_nodes ≡ n
      → (edges : List Edge) × Each IsEdge edges × Joined n (λ i. i) edges e.graph
      → AllClosed S n IsEdge cut e.graph
      → (r : Reply S.State (List (List ℕ))) × (finish_boruvka S fuel rounds e none ≡ some r)
        × (r.engine.update_locked ≡ e.update_locked)
        × (r.engine.graph.num_nodes ≡ n)
        × FoundReply r
  unfolding finish_boruvka
  finish-FoundReply rounds e nodes (edges, each, joined) all =
      let (temp, r, run, sets, lists, rep, kept) =
        cc_from_dsu-Lists n all.0 fuel fits (record e.graph { dsu_valid = true }) nodes all.1 in
      (
        record { engine = record e { graph = r.graph }; result = ok r.value },
        ap
            (λ o.
              and_then o
                (λ r. some (record { engine = record e { graph = r.graph }; result = ok r.value })))
            run,
        refl,
        kept.num_nodes ∙ nodes,
        (
          all.0,
          temp,
          ap ok sets,
          lists,
          AllClosed-Components e.graph edges each joined all,
          rep,
          kept.dsu_valid,
        ),
      )

  finish-Exact :
      (rounds : ℕ) (err : Option Exception) (e : Engine S.State)
      → e.graph.num_nodes ≡ n
      → (edges : List Edge) × Each IsEdge edges × Joined n (λ i. i) edges e.graph
      → (err ≡ none → AllClosed S n IsEdge cut e.graph)
      → (r : Reply S.State (List (List ℕ))) × (finish_boruvka S fuel rounds e err ≡ some r)
        × (r.engine.update_locked ≡ e.update_locked)
        × (r.engine.graph.num_nodes ≡ n)
        × Exact r
  unfolding finish_boruvka
  finish-Exact rounds (some x) e nodes classes closed =
      (record { engine = e; result = throw x }, refl, refl, nodes, inr (x, refl))
  finish-Exact rounds none e nodes classes closed =
      let (r, run, locked, nodes', found) =
        finish-FoundReply rounds e nodes classes (closed refl) in
      (r, run, locked, nodes', inl found)

  -- The algorithm of Boruvka, with more rounds than there are samples left, on good supernodes that
  -- each stand for one node: it returns the connected components of the graph, or throws what a
  -- sample threw. Updates are locked then.
  pub boruvka_emulation-Exact :
      (rounds : ℕ) (make_copy : Bool) (e : Engine S.State)
      → e.graph.num_nodes ≡ n
      → length e.supernodes ≡ n
      → AllGood S n Good IsEdge fair e.supernodes
      → ((c : ℕ) → c < n → cut.Shows (get_or e.supernodes c S.absent) (λ i. i ≡ c))
      → total_remaining S n Good IsEdge fair e.supernodes < rounds
      → (r : Reply S.State (List (List ℕ))) × (boruvka_emulation S fuel rounds make_copy e ≡ some r)
        × (r.engine.update_locked ≡ true)
        × (r.engine.graph.num_nodes ≡ n)
        × Exact r
  unfolding boruvka_emulation first_run
  boruvka_emulation-Exact rounds make_copy e nodes size good shows enough =
      let start = first_run S fuel make_copy e.backup_in_mem e.graph e.supernodes in
      let inv0 =
        first_run-Inv S n Good IsEdge fair narrow fuel fits make_copy e.backup_in_mem e.graph
          e.supernodes nodes size good in
      let (stands, covered) =
        first_run-Covered S n Good IsEdge fair cut narrow fuel fits make_copy e.backup_in_mem
          e.graph e.supernodes nodes shows in
      let (ended, run, inv) =
        boruvka_rounds-Inv S n Good IsEdge fair narrow fuel fits make_copy e.backup_in_mem rounds
          start inv0 enough in
      let (sn, clean) =
        cleanup-some S n Good IsEdge fair narrow fuel fits make_copy e.backup_in_mem ended.run
          inv in
      let engine = record e { graph = ended.run.graph; supernodes = sn; update_locked = true } in
      let (r, finish, locked, nodes', exact) =
        finish-Exact rounds ended.err engine inv.nodes inv.classes (
          boruvka_rounds-AllClosed S n Good IsEdge fair cut narrow fuel fits make_copy
            e.backup_in_mem rounds start ended inv0 ((λ i. i), stands, covered) run) in
      (r, rw (run, and_then, clean, and_then) finish, locked, nodes', exact)
