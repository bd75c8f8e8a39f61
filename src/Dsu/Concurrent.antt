-- ===== src/Dsu/Concurrent.antt =====
-- `MT_DisjoinSetUnion` of include/dsu.h. Its `find_root` and its `reset` are those of
-- `DisjointSetUnion`, word for word; its `merge` sets a parent by compare-and-exchange. The operands
-- of `!=` are evaluated from left to right here.
use anon_graphzeppelin.Base.{
  ℕ, zero, suc, ◌+◌, ◌%◌, ◌^◌, ◌<◌, ◌≡◌, ◌≢◌, refl, sym, ap, ◌∙◌, arith, Bool, true, false, not,
  ◌&&◌, List, Option, none, some, and_then, ltb, ◌==◌, if◌then◌else◌, set, Bool-cases, inl, inr,
}
use native.Mathlib.Decide.{ℕ_discrete}
use anon_graphzeppelin.Forest.{at}
use anon_graphzeppelin.Dsu.{DisjointSetUnion, DsuMergeRet, Found, find_root, not_merged}
use anon_graphzeppelin.Dsu.Find.{Stands, find_root-Represents}
use anon_graphzeppelin.Dsu.Merge.{enough_fuel}

-- The array, the expected value after the call, and whether the call wrote.
pub record Exchange : Type 0 where
  pub parent : List ℕ
  pub expected : ℕ
  pub written : Bool

-- `std::atomic_compare_exchange_weak(&parent[i], &expected, desired)`, which may fail spuriously. Where
-- it fails, it stores what it found in `expected`.
pub compare_exchange : Bool → List ℕ → ℕ → ℕ → ℕ → Exchange
compare_exchange spurious parent i expected desired =
    if not spurious && at parent i == expected
    then record { parent = set parent i desired; expected = expected; written = true }
    else record { parent = parent; expected = at parent i; written = false }

module _ (bits : ℕ) where
  -- What follows the exchange.
  pub mt_exchanged :
      DisjointSetUnion → ℕ → ℕ → Exchange → Option (Found DsuMergeRet) → Option (Found DsuMergeRet)
  mt_exchanged d u v exchange again =
      if exchange.written
      then some (record {
        dsu = record {
          parent = exchange.parent;
          size = set d.size u ((at d.size u + at d.size v) % 2 ^ bits);
        };
        value = record { merged = true; root = u; child = v };
      })
      else again

  -- The body of the loop, for the larger tree `u` and the smaller one `v`.
  pub mt_try :
      Bool
      → (ℕ → ℕ → Option (Found DsuMergeRet))
      → DisjointSetUnion
      → ℕ
      → ℕ
      → Option (Found DsuMergeRet)
  mt_try spurious loop d u v =
      let exchange = compare_exchange spurious d.parent u v u in
      mt_exchanged d u v exchange (loop u exchange.expected)

  -- The condition of the loop, on two roots, and the swap.
  pub mt_round :
      Bool
      → (DisjointSetUnion → ℕ → ℕ → Option (Found DsuMergeRet))
      → DisjointSetUnion
      → ℕ
      → ℕ
      → Option (Found DsuMergeRet)
  mt_round spurious loop d u v =
      if u == v
      then some (not_merged d)
      else if ltb (at d.size u) (at d.size v)
      then mt_try spurious (loop d) d v u
      else mt_try spurious (loop d) d u v

  module _ (fuel : ℕ) (spurious : ℕ → Bool) where
    -- `MT_DisjoinSetUnion::merge`, for at most `rounds` tests of its condition; `spurious` says in
    -- which rounds the exchange fails spuriously.
    unfoldable pub mt_merge : ℕ → DisjointSetUnion → ℕ → ℕ → Option (Found DsuMergeRet)
    mt_merge zero d u v = none
    mt_merge (suc rounds) d u v = and_then (find_root fuel d u) (λ a.
        and_then (find_root fuel a.dsu v)
          (λ b. mt_round (spurious rounds) (mt_merge rounds) b.dsu a.value b.value))

    -- A call that leaves all classes as they are, and says so.
    abbrev pub DoesNothing : ℕ → (ℕ → ℕ) → Option (Found DsuMergeRet) → Type 0
    DoesNothing n root call =
        (f : Found DsuMergeRet) × (call ≡ some f)
        × (f.value ≡ record { merged = false; root = 0; child = 0 })
        × Stands n f.dsu root

    module _ (n : ℕ) (root : ℕ → ℕ) (fits : n < 2 ^ fuel) where
      -- A round is the test of the two roots, and what it leads to.
      round_found :
          (rounds : ℕ) (d : DisjointSetUnion) (u v : ℕ)
          → Stands n d root
          → u < n
          → v < n
          → (d' : DisjointSetUnion) × (mt_merge (suc rounds) d u v
              ≡ mt_round (spurious rounds) (mt_merge rounds) d' (root u) (root v))
            × Stands n d' root
      unfolding mt_merge
      round_found rounds d u v rep pu pv =
          let (a, run_u, a_root, rep_a) =
            find_root-Represents n root fuel d u rep pu
              (enough_fuel n (at d.size u) fuel fits (rep.positive u pu)) in
          let (b, run_v, b_root, rep_b) =
            find_root-Represents n root fuel a.dsu v rep_a pv
              (enough_fuel n (at a.dsu.size v) fuel fits (rep_a.positive v pv)) in
          (
            b.dsu,
            ap
                  (λ o. and_then o (λ a.
                    and_then (find_root fuel a.dsu v)
                      (λ b. mt_round (spurious rounds) (mt_merge rounds) b.dsu a.value b.value)))
                  run_u
                ∙ ap
                    (λ o.
                      and_then o
                        (λ b. mt_round (spurious rounds) (mt_merge rounds) b.dsu a.value b.value))
                    run_v
                ∙ (λ k. mt_round (spurious rounds) (mt_merge rounds) b.dsu (a_root k) (b_root k)),
            rep_b,
          )

      one_root :
          (rounds : ℕ) (d : DisjointSetUnion) (u v : ℕ)
          → Stands n d root
          → u < n
          → v < n
          → root u ≡ root v
          → DoesNothing n root (mt_merge (suc rounds) d u v)
      unfolding mt_round not_merged
      one_root rounds d u v rep pu pv same =
          let (d', run, rep') = round_found rounds d u v rep pu pv in
          let test : (root u == root v) ≡ true = ground (arith, same) in
          (not_merged d', run ∙ rw test refl, refl, rep')

      -- The exchange at a root finds the root, and not the other node.
      try_fails :
          (sp : Bool) (rounds : ℕ) (d : DisjointSetUnion) (u v : ℕ)
          → Stands n d root
          → u < n
          → at d.parent u ≡ u
          → u ≢ v
          → DoesNothing n root (mt_try sp (mt_merge (suc rounds) d) d u v)
      unfolding mt_try compare_exchange mt_exchanged
      try_fails sp rounds d u v rep pu top ne =
          let found : (at d.parent u == v) ≡ false = ground (arith, ne, top) in
          let (f, run, value, rep') = one_root rounds d u u rep pu pu refl in
          let guard : (not sp && at d.parent u == v) ≡ false = no_write sp found in
          (f, rw (guard, top) run, value, rep')
        where
          no_write : (sp : Bool) {test : Bool} → test ≡ false → (not sp && test) ≡ false
          no_write true e = refl
          no_write false e = e

      -- One call from one thread leaves all classes as they are and says that nothing was merged,
      -- whichever two nodes it is called on: with more than log2(n) tests of the loops of
      -- `find_root`, in the second round at the latest, and whether or not the exchange fails
      -- spuriously.
      pub mt_merge-DoesNothing :
          (rounds : ℕ) (d : DisjointSetUnion) (u v : ℕ)
          → Stands n d root
          → u < n
          → v < n
          → DoesNothing n root (mt_merge (suc (suc rounds)) d u v)
      unfolding mt_round
      mt_merge-DoesNothing rounds d u v rep pu pv = elim (ℕ_discrete (root u) (root v)) [
        | yes same ↦ one_root (suc rounds) d u v rep pu pv same
        | no ne ↦
            let (d', run, rep') = round_found (suc rounds) d u v rep pu pv in
            let test : (root u == root v) ≡ false = ground (arith, ne) in
            elim (Bool-cases (ltb (at d'.size (root u)) (at d'.size (root v)))) [
              | inl less ↦
                  let (f, fails, value, after) =
                    try_fails (spurious (suc rounds)) rounds d' (root v) (root u) rep'
                      (rep'.root_inside v pv) (rep'.top v pv) (λ e. ne (sym e)) in
                  (f, run ∙ rw (test, less) fails, value, after)
              | inr more ↦
                  let (f, fails, value, after) =
                    try_fails (spurious (suc rounds)) rounds d' (root u) (root v) rep'
                      (rep'.root_inside u pu) (rep'.top u pu) ne in
                  (f, run ∙ rw (test, more) fails, value, after)
            ]
      ]
