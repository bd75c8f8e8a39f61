-- ===== src/Graph/Boruvka/Cut/Covered.antt =====
-- One round keeps that the supernode of each root shows its class, and that a class without a
-- representative has no edge that leaves it.
use anon_graphzeppelin.Base.{
  ℕ, ◌<◌, ◌≡◌, refl, sym, ap, subst, ◌∙◌, ◌⊎◌, inl, inr, ◌↔◌, arith, Bool, true, false, List, [],
  ◌++◌, length, get_or, get_or-out, no_elements, ==_iff, Bool-cases, ◌==◌, List-cases, ok,
}
use mathlib.Core.List.{Memᴰ}
use native.Mathlib.Decide.{dec_lt}
use anon_graphzeppelin.Types.{Edge, SampleSketchRet}
use anon_graphzeppelin.Forest.{root_root}
use anon_graphzeppelin.Graph.{Graph, Merging, still_failed, merged_into, finish_merging}
use anon_graphzeppelin.Graph.Parent.{GraphStands}
use anon_graphzeppelin.Graph.Sampler.{Sampler}
use anon_graphzeppelin.Graph.Boruvka.{merge_supernodes}
use anon_graphzeppelin.Graph.Boruvka.Cut.{IsCut}
use anon_graphzeppelin.Graph.Boruvka.Cut.Families.{Memᴰ-left, Memᴰ-right}
use anon_graphzeppelin.Graph.Boruvka.Cut.Gather.{
  gathered, merge_supernodes-gathered, gathered-Shows,
}
use anon_graphzeppelin.Graph.Boruvka.Cut.Joining.{Merged, Settled}
use anon_graphzeppelin.Graph.Boruvka.Cut.Telling.{Told}
use anon_graphzeppelin.Graph.Boruvka.Cut.Failing.{Memᴰ-still_failed, Memᴰ-merged_into}

code_cases :
    (c : SampleSketchRet)
    → (c ≡ SampleSketchRet.good) ⊎ ((c ≡ SampleSketchRet.zero) ⊎ (c ≡ SampleSketchRet.fail))
code_cases SampleSketchRet.good = inl refl
code_cases SampleSketchRet.zero = inr (inl refl)
code_cases SampleSketchRet.fail = inr (inr refl)

module _ (S : Sampler) (n : ℕ) (IsEdge : Edge → Type 0) (cut : IsCut S n IsEdge) where
  -- No edge leaves the class of `c`.
  abbrev pub Closed : (ℕ → ℕ) → ℕ → Type 0
  Closed root c = (f : Edge) → IsEdge f → (root f.src ≡ c) ↔ (root f.dst ≡ c)

  -- No edge leaves a class of the graph.
  abbrev pub AllClosed : Graph → Type 0
  AllClosed g =
      (root : ℕ → ℕ) × GraphStands n g root × ((c : ℕ) → c < n → root c ≡ c → Closed root c)

  pub record Covered (sn : List S.State) (reps : List ℕ) (root : ℕ → ℕ) : Type 0 where
    pub shows : (c : ℕ) → c < n → root c ≡ c → cut.Shows (get_or sn c S.absent) (λ i. root i ≡ c)
    pub active : (c : ℕ) → c < n → root c ≡ c → Memᴰ c reps ⊎ Closed root c

  module _ (inside : (e : Edge) → IsEdge e → (e.src < n) × (e.dst < n)) (m : Merging)
      (old root : ℕ → ℕ) (g : Graph) (stands : GraphStands n g old) (merged : Merged n old m root)
      (reps : List ℕ) (query : ℕ → Edge × SampleSketchRet)
      (active : (c : ℕ) → c < n → old c ≡ c → Memᴰ c reps ⊎ Closed old c)
      (told : (c : ℕ)
        → c < n
        → old c ≡ c
        → Memᴰ c reps
        → Told S n IsEdge cut (λ i. old i ≡ c) (query c))
      (settled : (i : ℕ) → Memᴰ i reps → Settled m root i (query i))
      (good_inside : (i : ℕ)
        → Memᴰ i reps
        → (query i).1 ≡ SampleSketchRet.good
        → ((query i).0.src < n) × ((query i).0.dst < n)) where
    -- An old class is part of the new one, and all of it where the list is empty.
    into : (i r : ℕ) → i < n → root r ≡ r → old i ≡ r → root i ≡ r
    into i r p top e = sym (merged.family.coarse i p) ∙ ap root e ∙ top

    back : (i r : ℕ) → i < n → get_or m.to_merge r [] ≡ [] → root i ≡ r → old i ≡ r
    back i r p none e =
        let up = merged.family.coarse i p ∙ e in
        elim (merged.family.complete (old i) (stands.root_inside i p) (root_root stands i p)) [
          | inl own ↦ own ∙ up
          | inr l ↦ elim (subst (Memᴰ (old i)) (ap (λ k. get_or m.to_merge k []) up ∙ none) l) [ ]
        ]

    still-Closed : (r : ℕ) → root r ≡ r → get_or m.to_merge r [] ≡ [] → Closed old r → Closed root r
    still-Closed r top none closed f h =
        let (ps, pd) = inside f h in
        (
          λ e. into f.dst r pd top ((closed f h).0 (back f.src r ps none e)),
          λ e. into f.src r ps top ((closed f h).1 (back f.dst r pd none e)),
        )

    -- A root that took up no other one failed, or no edge leaves its class.
    outcome :
        (r : ℕ)
        → r < n
        → root r ≡ r
        → get_or m.to_merge r [] ≡ []
        → ((m.graph.modified ≡ true) × Memᴰ r m.new_reps) ⊎ Closed root r
    outcome r p top none =
        let own = merged.family.own r p top in
        elim (active r p own) [
          | inr closed ↦ inr (still-Closed r top none closed)
          | inl rep ↦
              let (s, shows, answer) = told r p own rep in
              let said : (code : SampleSketchRet)
                  → (query r).1 ≡ code
                  → (S.sample s).result ≡ ok ((query r).0, code) =
                λ code e. answer ∙ ap (λ c. ok ((query r).0, c)) e in
              elim (code_cases (query r).1) [
                | inl good ↦
                    let (ps, pd) = good_inside r rep good in
                    let same = (settled r rep).0 good in
                    elim (cut.leaves s (λ i. old i ≡ r) (query r).0 shows
                      (said SampleSketchRet.good good)) [
                        | inl (src, dst) ↦ absurd (
                            dst (
                              back (query r).0.dst r pd none
                                (sym same ∙ into (query r).0.src r ps top src)))
                        | inr (src, dst) ↦ absurd (
                            src (
                              back (query r).0.src r ps none
                                (same ∙ into (query r).0.dst r pd top dst)))
                      ]
                | inr other ↦ elim other [
                  | inl empty ↦ inr (
                      still-Closed r top none (
                        cut.closed s (λ i. old i ≡ r) (query r).0 shows
                          (said SampleSketchRet.zero empty)))
                  | inr fail ↦ inl ((settled r rep).1 fail)
                ]
              ]
        ]

    -- A root is a representative of the next round, or no edge leaves its class.
    active_after : (r : ℕ) → r < n → root r ≡ r → Memᴰ r (finish_merging m).new_reps ⊎ Closed root r
    unfolding finish_merging
    active_after r p top = elim (Bool-cases (length (get_or m.to_merge r []) == 0)) [
      | inl e ↦
          let none = no_elements (get_or m.to_merge r []) ((==_iff _ _).0 e) in
          elim (outcome r p top none) [
            | inl (_, failed) ↦ inl (
                Memᴰ-left (still_failed m.to_merge m.new_reps)
                  (merged_into m.to_merge m.graph.num_nodes 0)
                  (Memᴰ-still_failed m.to_merge r m.new_reps none failed))
            | inr closed ↦ inr closed
          ]
      | inr e ↦ inl (
          Memᴰ-right (still_failed m.to_merge m.new_reps)
            (merged_into m.to_merge m.graph.num_nodes 0)
            (Memᴰ-merged_into m.to_merge r m.graph.num_nodes 0 (omega arith)
              (omega (arith, merged.nodes, p)) e))
    ]

    -- Where nothing was modified, no edge leaves a class.
    pub Closed-after : m.graph.modified ≡ false → (r : ℕ) → r < n → root r ≡ r → Closed root r
    Closed-after quiet r p top = elim (List-cases (get_or m.to_merge r [])) [
      | inl none ↦ elim (outcome r p top none) [
        | inl (modified, _) ↦ absurd (both modified quiet)
        | inr closed ↦ closed
      ]
      | inr (c, rest, e) ↦
          let (pc, own, up, ne) =
            merged.family.member r c p (subst (Memᴰ c) (sym e) (Memᴰ.head refl)) in
          absurd (ne (sym own ∙ sym (merged.still quiet c pc) ∙ up))
    ]
      where
        both : {b : Bool} → b ≡ true → b ≡ false → ⊥
        both e e' = cc

    -- A node on a list is no root, and has no list of its own.
    only_roots : (a b : ℕ) → Memᴰ b (get_or m.to_merge a []) → get_or m.to_merge b [] ≡ []
    only_roots a b l = elim (dec_lt a n) [
      | yes p ↦
          let (pb, own, up, ne) = merged.family.member a b p l in
          merged.family.empty b pb (λ e. ne (sym e ∙ up))
      | no out ↦
          elim (subst (Memᴰ b) (get_or-out m.to_merge a [] (omega (arith, out, merged.family.size)))
            l) [ ]
    ]

    -- The nodes of a class are those of the old class of its root, and of those on the list.
    same_class :
        (r i : ℕ)
        → r < n
        → root r ≡ r
        → i < n
        → ((old i ≡ r) ⊎ Memᴰ (old i) (get_or m.to_merge r [])) ↔ (root i ≡ r)
    same_class r i p top pi = (
      λ y. elim y [
        | inl e ↦ into i r pi top e
        | inr l ↦ sym (merged.family.coarse i pi) ∙ (merged.family.member r (old i) p l).2
      ],
      λ e.
          let up = merged.family.coarse i pi ∙ e in
          elim (merged.family.complete (old i) (stands.root_inside i pi) (root_root stands i pi)) [
            | inl own ↦ inl (own ∙ up)
            | inr l ↦ inr (subst (Memᴰ (old i)) (ap (λ k. get_or m.to_merge k []) up) l)
          ],
    )

    -- Behind `merge_supernodes` a supernode has taken up those on its list.
    pub taken_up :
        (sn copies : List S.State) (make_copy : Bool)
        → length sn ≡ n
        → (r : ℕ) → r < n
        → get_or
            (merge_supernodes S make_copy
              (finish_merging m).to_merge
              (finish_merging m).new_reps
              copies
              sn).1
            r
            S.absent
          ≡ gathered S sn (get_or sn r S.absent) (get_or m.to_merge r [])
    unfolding finish_merging
    taken_up sn copies make_copy size r p =
        subst
          (λ k.
            get_or
              (merge_supernodes S make_copy m.to_merge
                (still_failed m.to_merge m.new_reps ++ merged_into m.to_merge k 0) copies sn).1
              r S.absent
            ≡ gathered S sn (get_or sn r S.absent) (get_or m.to_merge r []))
          (size ∙ sym merged.nodes)
          (merge_supernodes-gathered S m.to_merge sn only_roots make_copy m.new_reps copies r
            (omega (arith, p, size)))

    -- The supernodes behind `merge_supernodes`.
    pub Covered-after :
        (sn copies : List S.State) (make_copy : Bool)
        → length sn ≡ n
        → ((c : ℕ) → c < n → old c ≡ c → cut.Shows (get_or sn c S.absent) (λ i. old i ≡ c))
        → Covered
            (merge_supernodes S make_copy
              (finish_merging m).to_merge
              (finish_merging m).new_reps
              copies
              sn).1
            (finish_merging m).new_reps
            root
    unfolding finish_merging
    Covered-after sn copies make_copy size shows = record {
      shows = λ r p top.
          let own = merged.family.own r p top in
          let bs = get_or m.to_merge r [] in
          let all =
            gathered-Shows S n IsEdge cut old sn (get_or sn r S.absent) (λ i. old i ≡ r) bs
              (shows r p own)
              (λ b l. let (pb, own_b, _, _) = merged.family.member r b p l in shows b pb own_b)
              (λ i q e l. (merged.family.member r (old i) p l).3 e) (merged.family.distinct r p) in
          subst (λ s. cut.Shows s (λ i. root i ≡ r)) (sym (taken_up sn copies make_copy size r p))
            (cut.same_nodes (gathered S sn (get_or sn r S.absent) bs)
              (λ i. (old i ≡ r) ⊎ Memᴰ (old i) bs) (λ i. root i ≡ r)
              (λ i pi. same_class r i p top pi) all);
      active = active_after;
    }
