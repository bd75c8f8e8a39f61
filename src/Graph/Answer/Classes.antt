-- ===== src/Graph/Answer/Classes.antt =====
-- The sets that `cc_from_dsu` returns are the classes.
use mathlib.Core.List.{append-nil}
use anon_graphzeppelin.Base.{
  ℕ, zero, suc, ◌+◌, ◌^◌, ◌<◌, ◌≤◌, ◌≡◌, ◌≢◌, refl, sym, subst, ap, length, length-append, ◌∙◌,
  arith, false, true, List, [], ◌∷◌, ◌++◌, map, some, and_then, ltb, ◌==◌, if◌then◌else◌,
}
use native.Mathlib.Decide.{ℕ_discrete, dec_lt}
use anon_graphzeppelin.Forest.{at}
use anon_graphzeppelin.Dsu.Merge.{enough_fuel}
use anon_graphzeppelin.Graph.{Graph, Step}
use anon_graphzeppelin.Graph.Parent.{
  GraphStands, SameButParent, SameButParent-refl, SameButParent-trans, get_parent-GraphStands,
}
use anon_graphzeppelin.Graph.Answer.{Entry, insert_node, group_nodes, sets_of, cc_from_dsu}

-- The nodes below `i` with root `k`, in rising order.
abbrev pub class_below : (ℕ → ℕ) → ℕ → ℕ → List ℕ
class_below root k zero = []
class_below root k (suc i) = class_below root k i ++ (if root i == k then i ∷ [] else [])

-- The set of a key, which is empty where the map has none.
abbrev pub nodes_at : List Entry → ℕ → List ℕ
nodes_at [] k = []
nodes_at (e ∷ temp) k = if e.key == k then e.nodes else nodes_at temp k

-- The keys of the map rise, from above `low` on, and its sets are those of `set`, none of them empty.
pub data Lists (set : ℕ → List ℕ) : ℕ → List Entry → Type 0 where
  nothing : (low : ℕ) → ((k : ℕ) → low ≤ k → set k ≡ []) → Lists set low []
  entry :
      (low : ℕ) (e : Entry) (temp : List Entry)
      → low ≤ e.key
      → ((k : ℕ) → low ≤ k → k < e.key → set k ≡ [])
      → e.nodes ≡ set e.key
      → e.nodes ≢ []
      → Lists set (suc e.key) temp
      → Lists set low (e ∷ temp)

snoc_ne : (xs : List ℕ) (i : ℕ) → xs ++ i ∷ [] ≢ []
snoc_ne xs i e = absurd (omega (arith, length-append xs (i ∷ []), ap length e))

module _ {set set' : ℕ → List ℕ} where
  Lists-same :
      {low : ℕ} {temp : List Entry}
      → Lists set low temp
      → ((k : ℕ) → low ≤ k → set' k ≡ set k)
      → Lists set' low temp
  Lists-same (nothing low empty) same = nothing low (λ k p. same k p ∙ empty k p)
  Lists-same (entry low e temp le gap nodes ne rest) same =
      entry low e temp le (λ k p q. same k p ∙ gap k p q) (nodes ∙ sym (same e.key le)) ne
        (Lists-same rest (λ k p. same k (omega (arith, le))))

  -- A node is put into the set of its key, and the other sets stay.
  insert_node-Lists :
      {low : ℕ} {temp : List Entry} (key i : ℕ)
      → Lists set low temp
      → low ≤ key
      → set' key ≡ set key ++ i ∷ []
      → ((k : ℕ) → key ≢ k → set' k ≡ set k)
      → Lists set' low (insert_node key i temp)
  unfolding insert_node
  insert_node-Lists key i (nothing low empty) p this other =
      entry low (record { key = key; nodes = i ∷ [] }) [] p
        (λ k q r. other k (omega arith) ∙ empty k q)
        (sym (this ∙ ap (λ s. s ++ i ∷ []) (empty key p))) (snoc_ne [] i)
        (nothing (suc key) (λ k q. other k (omega arith) ∙ empty k (omega arith)))
  insert_node-Lists key i (entry low e temp le gap nodes ne rest) p this other =
      elim (ℕ_discrete key e.key) [
        | yes same ↦
            let test : (key == e.key) ≡ true = ground (arith, same) in
            rw test (
              entry low (record { key = e.key; nodes = e.nodes ++ i ∷ [] }) temp le
                (λ k q r. other k (omega (arith, same)) ∙ gap k q r)
                (ap (λ s. s ++ i ∷ []) nodes
                  ∙ subst (λ k. set k ++ i ∷ [] ≡ set' k) same (sym this))
                (snoc_ne e.nodes i) (Lists-same rest (λ k q. other k (omega (arith, same)))))
        | no apart ↦
            let test : (key == e.key) ≡ false = ground (arith, apart) in
            elim (dec_lt key e.key) [
              | yes less ↦
                  let first : ltb key e.key ≡ true = ground arith in
                  rw (test, first)
                    (entry low (record { key = key; nodes = i ∷ [] }) (e ∷ temp) p
                      (λ k q r. other k (omega arith) ∙ gap k q (omega arith))
                      (sym (this ∙ ap (λ s. s ++ i ∷ []) (gap key p less))) (snoc_ne [] i)
                      (entry (suc key) e temp less
                        (λ k q r. other k (omega arith) ∙ gap k (omega arith) r)
                        (nodes ∙ sym (other e.key apart)) ne
                        (Lists-same rest (λ k q. other k (omega (arith, less))))))
              | no more ↦
                  let later : ltb key e.key ≡ false = ground arith in
                  rw (test, later)
                    (entry low e (insert_node key i temp) le
                      (λ k q r. other k (omega (arith, more, apart)) ∙ gap k q r)
                      (nodes ∙ sym (other e.key apart)) ne
                      (insert_node-Lists key i rest (omega (arith, more, apart)) this other))
            ]
      ]

module _ (n : ℕ) (root : ℕ → ℕ) (fuel : ℕ) (fits : n < 2 ^ fuel) where
  group_nodes-Lists :
      (left i : ℕ) (g : Graph) (temp : List Entry)
      → GraphStands n g root
      → i + left ≡ n
      → Lists (λ k. class_below root k i) 0 temp
      → (r : Step (List Entry)) × (group_nodes fuel left i g temp ≡ some r)
        × GraphStands n r.graph root
        × Lists (λ k. class_below root k n) 0 r.value
        × SameButParent g r.graph
  unfolding group_nodes
  group_nodes-Lists zero i g temp rep e lists =
      let end : i ≡ n = omega (arith, e) in
      (
        record { graph = g; value = temp },
        refl,
        rep,
        subst (λ m. Lists (λ k. class_below root k m) 0 temp) end lists,
        SameButParent-refl g,
      )
  group_nodes-Lists (suc left) i g temp rep e lists =
      let p : i < n = omega arith in
      let (r, run, value, same, rep') =
        get_parent-GraphStands n root fuel g i rep p
          (enough_fuel n (at g.size i) fuel fits (rep.positive i p)) in
      let (all, runs, rep_all, lists_all, same_all) =
        group_nodes-Lists left (i + 1) r.graph (insert_node r.value i temp) rep' (omega (arith, e))
          (next i temp r.value value lists) in
      (
        all,
        ap
              (λ o.
                and_then o
                  (λ r. group_nodes fuel left (i + 1) r.graph (insert_node r.value i temp)))
              run
            ∙ runs,
        rep_all,
        lists_all,
        SameButParent-trans same same_all,
      )
    where
      next :
          (i : ℕ) (temp : List Entry) (key : ℕ)
          → key ≡ root i
          → Lists (λ k. class_below root k i) 0 temp
          → Lists (λ k. class_below root k (i + 1)) 0 (insert_node key i temp)
      next i temp key at_root lists =
          let one_on : suc i ≡ i + 1 = omega arith in
          subst (λ m. Lists (λ k. class_below root k m) 0 (insert_node key i temp)) one_on
            (insert_node-Lists {set' = λ k. class_below root k (suc i)} key i lists (omega arith)
              (let test : (root i == key) ≡ true = ground (arith, at_root) in rw test refl)
              (λ k ne.
                let test : (root i == k) ≡ false = ground (arith, at_root, ne) in
                rw test (append-nil (class_below root k i))))

  -- `cc_from_dsu` returns the classes that have nodes, in the order of their roots, each as the list
  -- of its nodes in rising order; the graph changes in its parents at most, and stands for the same
  -- classes as before.
  pub cc_from_dsu-Lists :
      (g : Graph)
      → g.num_nodes ≡ n
      → GraphStands n g root
      → (temp : List Entry) × (r : Step (List (List ℕ))) × (cc_from_dsu fuel g ≡ some r)
        × (r.value ≡ map (λ e. e.nodes) temp)
        × Lists (λ k. class_below root k n) 0 temp
        × GraphStands n r.graph root
        × SameButParent g r.graph
  unfolding cc_from_dsu sets_of
  cc_from_dsu-Lists g e rep =
      let (r, run, rep', lists, same) =
        group_nodes-Lists n 0 g [] rep (omega arith) (nothing 0 (λ k p. refl)) in
      (
        r.value,
        record { graph = r.graph; value = map (λ e. e.nodes) r.value },
        ap (λ m. sets_of (group_nodes fuel m 0 g [])) e ∙ ap sets_of run,
        refl,
        lists,
        rep',
        same,
      )
