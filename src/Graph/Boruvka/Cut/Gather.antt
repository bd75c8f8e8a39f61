-- ===== src/Graph/Boruvka/Cut/Gather.antt =====
-- What `merge_supernodes` makes of the supernodes: each takes up those on its list, as they were.
use anon_graphzeppelin.Base.{
  Distinct, ℕ, zero, suc, ◌+◌, ◌<◌, ◌≤◌, ◌≡◌, ◌≢◌, refl, sym, ap, subst, ◌∙◌, ◌⊎◌, inl, inr, arith,
  Bool, List, [], ◌∷◌, ◌++◌, length, get_or, set, length-set, get_or-set_self, get_or-set_ne, ◌==◌,
  no_elements, ==_iff, Bool-cases,
}
use mathlib.Core.List.{Memᴰ}
use native.Mathlib.Decide.{ℕ_discrete}
use anon_graphzeppelin.Types.{Edge}
use anon_graphzeppelin.Graph.{still_failed, merged_into}
use anon_graphzeppelin.Graph.Sampler.{Sampler}
use anon_graphzeppelin.Graph.Boruvka.{merge_into, merge_supernodes}
use anon_graphzeppelin.Graph.Boruvka.Cut.{IsCut}

module _ (S : Sampler) where
  -- The state `s`, merged with the states of the nodes `bs`.
  pub gathered : List S.State → S.State → List ℕ → S.State
  gathered sn s [] = s
  gathered sn s (b ∷ bs) = gathered sn (S.merge s (get_or sn b S.absent)) bs

  -- What merging keeps.
  pub gathered-keeps :
      (P : S.State → Type 0)
      → ((s t : S.State) → P s → P t → P (S.merge s t))
      → (sn : List S.State) (s : S.State) (bs : List ℕ) → P s
      → ((b : ℕ) → Memᴰ b bs → P (get_or sn b S.absent))
      → P (gathered sn s bs)
  unfolding gathered
  gathered-keeps P merges sn s [] p each = p
  gathered-keeps P merges sn s (b ∷ bs) p each =
      gathered-keeps P merges sn (S.merge s (get_or sn b S.absent)) bs
        (merges s (get_or sn b S.absent) p (each b (Memᴰ.head refl))) (λ c l. each c (Memᴰ.tail l))

  -- The loop over one list changes the state of `a` alone.
  merge_into-gathered :
      (a : ℕ) (bs : List ℕ) (sn old : List S.State)
      → a < length sn
      → ((b : ℕ) → Memᴰ b bs → (b ≢ a) × (get_or sn b S.absent ≡ get_or old b S.absent))
      → (get_or (merge_into S a bs sn) a S.absent ≡ gathered old (get_or sn a S.absent) bs)
        × ((x : ℕ) → x ≢ a → get_or (merge_into S a bs sn) x S.absent ≡ get_or sn x S.absent)
        × (length (merge_into S a bs sn) ≡ length sn)
  unfolding merge_into gathered
  merge_into-gathered a [] sn old p other = (refl, λ x ne. refl, refl)
  merge_into-gathered a (b ∷ bs) sn old p other =
      let new = S.merge (get_or sn a S.absent) (get_or sn b S.absent) in
      let (here, rest, size) =
        merge_into-gathered a bs (set sn a new) old (omega (arith, p, length-set sn a new)) (λ c m.
          let (ne, same) = other c (Memᴰ.tail m) in
          (ne, get_or-set_ne sn a c new S.absent (λ e. ne (sym e)) ∙ same)) in
      (
        here
            ∙ ap (λ s. gathered old s bs)
                (get_or-set_self sn a new S.absent p
                  ∙ ap (S.merge (get_or sn a S.absent)) (other b (Memᴰ.head refl)).1),
        λ x ne. rest x ne ∙ get_or-set_ne sn a x new S.absent (λ e. ne (sym e)),
        size ∙ length-set sn a new,
      )

  unfolded_nil : (old : List S.State) (s : S.State) → gathered old s [] ≡ s
  unfolding gathered
  unfolded_nil old s = refl

  module _ (lists : List (List ℕ)) (old : List S.State)
      (empty : (a b : ℕ) → Memᴰ b (get_or lists a []) → get_or lists b [] ≡ []) where
    -- The states of the nodes from `a` on, and of those without a list, are still the old ones; the
    -- others have gathered their lists.
    record Halfway (a : ℕ) (sn : List S.State) : Type 0 where
      size : length sn ≡ length old
      ahead : (x : ℕ) → a ≤ x → get_or sn x S.absent ≡ get_or old x S.absent
      idle : (x : ℕ) → get_or lists x [] ≡ [] → get_or sn x S.absent ≡ get_or old x S.absent
      behind :
          (x : ℕ)
          → x < a
          → get_or sn x S.absent ≡ gathered old (get_or old x S.absent) (get_or lists x [])

    Halfway-merge :
        (a : ℕ) (sn : List S.State)
        → a < length old
        → Halfway a sn
        → Halfway (a + 1) (merge_into S a (get_or lists a []) sn)
    Halfway-merge a sn p h =
        let own : (b : ℕ) → Memᴰ b (get_or lists a []) → b ≢ a = λ b m e.
          elim (subst (Memᴰ b) (ap (λ k. get_or lists k []) (sym e) ∙ empty a b m) m) [ ] in
        let (here, rest, size) =
          merge_into-gathered a (get_or lists a []) sn old (omega (arith, p, h.size))
            (λ b m. (own b m, h.idle b (empty a b m))) in
        record {
          size = size ∙ h.size;
          ahead =
              λ x le. rest x (λ e. absurd (omega (arith, le, e))) ∙ h.ahead x (omega (arith, le));
          idle = λ x none. elim (ℕ_discrete x a) [
            | yes e ↦
                ap (λ k. get_or (merge_into S a (get_or lists a []) sn) k S.absent) e
                ∙ here
                ∙ ap (gathered old (get_or sn a S.absent))
                    (ap (λ k. get_or lists k []) (sym e) ∙ none)
                ∙ unfolded_nil old (get_or sn a S.absent)
                ∙ ap (λ k. get_or sn k S.absent) (sym e)
                ∙ h.idle x none
            | no ne ↦ rest x ne ∙ h.idle x none
          ];
          behind = λ x lt. elim (ℕ_discrete x a) [
            | yes e ↦
                subst
                  (λ k.
                    get_or (merge_into S a (get_or lists a []) sn) k S.absent
                    ≡ gathered old (get_or old k S.absent) (get_or lists k []))
                  (sym e)
                  (here ∙ ap (λ s. gathered old s (get_or lists a [])) (h.ahead a (omega arith)))
            | no ne ↦ rest x ne ∙ h.behind x (omega (arith, lt, ne))
          ];
        }

    -- A node without a list takes up nothing.
    Halfway-skip :
        (a : ℕ) (sn : List S.State) → get_or lists a [] ≡ [] → Halfway a sn → Halfway (a + 1) sn
    Halfway-skip a sn none h = record {
      size = h.size;
      ahead = λ x le. h.ahead x (omega (arith, le));
      idle = h.idle;
      behind = λ x lt. elim (ℕ_discrete x a) [
        | yes e ↦
            subst
              (λ k. get_or sn k S.absent ≡ gathered old (get_or old k S.absent) (get_or lists k []))
              (sym e)
              (h.idle a none
                ∙ sym (
                    ap (gathered old (get_or old a S.absent)) none
                    ∙ unfolded_nil old (get_or old a S.absent)))
        | no ne ↦ h.behind x (omega (arith, lt, ne))
      ];
    }

    -- The part of the loop over the nodes that others are merged into.
    merged_into-Halfway :
        (make_copy : Bool) (left a : ℕ) (copies sn : List S.State)
        → a + left ≤ length old
        → Halfway a sn
        → Halfway
            (a + left)
            (merge_supernodes S make_copy lists (merged_into lists left a) copies sn).1
    unfolding merge_supernodes merged_into
    merged_into-Halfway make_copy zero a copies sn p h =
        subst (λ k. Halfway k sn) {x = a} (omega arith) h
    merged_into-Halfway make_copy (suc left) a copies sn p h =
        elim (Bool-cases (length (get_or lists a []) == 0)) [
          | inl e ↦ rw (e) (
              subst
                (λ k.
                  Halfway k
                    (merge_supernodes S make_copy lists (merged_into lists left (a + 1)) copies
                      sn).1)
                {x = a + 1 + left} (omega arith)
                (merged_into-Halfway make_copy left (a + 1) copies sn (omega arith)
                  (Halfway-skip a sn (no_elements (get_or lists a []) ((==_iff _ _).0 e)) h)))
          | inr e ↦ rw (e) (
              subst
                (λ k.
                  Halfway k
                    (merge_supernodes S make_copy lists (a ∷ merged_into lists left (a + 1)) copies
                      sn).1)
                {x = a + 1 + left} (omega arith)
                (merged_into-Halfway make_copy left (a + 1) _
                  (merge_into S a (get_or lists a []) sn) (omega arith)
                  (Halfway-merge a sn (omega arith) h)))
        ]

    -- The part over the nodes that failed and have no list.
    still_failed-Halfway :
        (make_copy : Bool) (is reps : List ℕ) (copies sn : List S.State)
        → ((copies' : List S.State)
            → Halfway (length old) (merge_supernodes S make_copy lists reps copies' sn).1)
        → Halfway
            (length old)
            (merge_supernodes S make_copy lists (still_failed lists is ++ reps) copies sn).1
    unfolding merge_supernodes still_failed merge_into
    still_failed-Halfway make_copy [] reps copies sn h = h copies
    still_failed-Halfway make_copy (i ∷ is) reps copies sn h =
        elim (Bool-cases (length (get_or lists i []) == 0)) [
          | inl e ↦
              let none = no_elements (get_or lists i []) ((==_iff _ _).0 e) in
              rw (e, merge_supernodes, none) (still_failed-Halfway make_copy is reps _ sn h)
          | inr e ↦ rw (e) (still_failed-Halfway make_copy is reps copies sn h)
        ]

    -- Behind the loop each supernode has taken up its list.
    pub merge_supernodes-gathered :
        (make_copy : Bool) (is : List ℕ) (copies : List S.State) (x : ℕ)
        → x < length old
        → get_or
            (merge_supernodes S make_copy lists
              (still_failed lists is ++ merged_into lists (length old) 0)
              copies
              old).1
            x
            S.absent
          ≡ gathered old (get_or old x S.absent) (get_or lists x [])
    merge_supernodes-gathered make_copy is copies x p =
        let before : Halfway 0 old = record {
          size = refl;
          ahead = λ x le. refl;
          idle = λ x none. refl;
          behind = λ x lt. absurd (omega (arith, lt));
        } in
        let behind =
          still_failed-Halfway make_copy is (merged_into lists (length old) 0) copies old
            (λ copies'.
              subst
                (λ k.
                  Halfway k
                    (merge_supernodes S make_copy lists (merged_into lists (length old) 0) copies'
                      old).1)
                {x = 0 + length old} (omega arith)
                (merged_into-Halfway make_copy (length old) 0 copies' old (omega arith) before)) in
        behind.behind x p

module _ (S : Sampler) (n : ℕ) (IsEdge : Edge → Type 0) (cut : IsCut S n IsEdge) (root : ℕ → ℕ)
    (sn : List S.State) where
  -- A state that takes up the classes of distinct roots shows them all.
  pub gathered-Shows :
      (s : S.State) (X : ℕ → Type 0) (bs : List ℕ)
      → cut.Shows s X
      → ((b : ℕ) → Memᴰ b bs → cut.Shows (get_or sn b S.absent) (λ i. root i ≡ b))
      → ((i : ℕ) → i < n → X i → Memᴰ (root i) bs → ⊥)
      → Distinct bs
      → cut.Shows (gathered S sn s bs) (λ i. X i ⊎ Memᴰ (root i) bs)
  unfolding gathered
  gathered-Shows s X [] shows each apart distinct =
      cut.same_nodes s X (λ i. X i ⊎ Memᴰ (root i) [])
        (λ i p. (λ x. inl x, λ y. elim y [ inl x ↦ x | inr m ↦ elim m [ ] ])) shows
  gathered-Shows s X (b ∷ bs) shows each apart distinct =
      let t = get_or sn b S.absent in
      let one =
        cut.merge-Shows s t X (λ i. root i ≡ b) (λ i p x e. apart i p x (Memᴰ.head e)) shows
          (each b (Memᴰ.head refl)) in
      let all =
        gathered-Shows (S.merge s t) (λ i. X i ⊎ (root i ≡ b)) bs one (λ c m. each c (Memᴰ.tail m))
          (λ i p y m. elim y [
            | inl x ↦ apart i p x (Memᴰ.tail m)
            | inr e ↦ distinct.0 (subst (λ k. Memᴰ k bs) e m)
          ])
          distinct.1 in
      cut.same_nodes (gathered S sn (S.merge s t) bs) (λ i. (X i ⊎ (root i ≡ b)) ⊎ Memᴰ (root i) bs)
        (λ i. X i ⊎ Memᴰ (root i) (b ∷ bs))
        (λ i p. (
          λ y. elim y [
            | inl z ↦ elim z [ inl x ↦ inl x | inr e ↦ inr (Memᴰ.head e) ]
            | inr m ↦ inr (Memᴰ.tail m)
          ],
          λ y. elim y [
            | inl x ↦ inl (inl x)
            | inr m ↦ elim m [ Memᴰ.head e ↦ inl (inr e) | Memᴰ.tail m' ↦ inr m' ]
          ],
        ))
        all
