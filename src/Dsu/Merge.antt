-- ===== src/Dsu/Merge.antt =====
-- `merge` makes the classes of two nodes one.
pub mod Classes
use anon_graphzeppelin.Base.{
  ℕ, zero, suc, ◌+◌, ◌*◌, ◌%◌, ◌^◌, ◌<◌, ◌≤◌, ◌≡◌, ◌≢◌, refl, sym, ap, ◌∙◌, ◌⊎◌, inl, inr, ◌↔◌,
  arith, Option, none, some, set, ◌==◌, List, [], ◌∷◌, Bool, true, false, length, ltb, Bool-cases,
}
use native.Mathlib.Decide.{ℕ_discrete, dec_lt}
use native.Mathlib.Nat.{mod-eq_of_lt, mul-le-mul_right}
use anon_graphzeppelin.Forest.{at, Represents}
use anon_graphzeppelin.Forest.Link.{join, Represents-link, sizes-le}
use anon_graphzeppelin.Dsu.{
  DisjointSetUnion, DsuMergeRet, Found, find_root, link, merge_roots, merge_first, merge_second,
  merge, not_merged,
}
use anon_graphzeppelin.Dsu.Find.{Stands, find_root-Represents}

-- What a call of `merge` on `u` and `v` did: nothing, where they had one root; else one of their
-- roots is now below the other.
pub data Merged (n : ℕ) (root : ℕ → ℕ) (u v : ℕ) (f : Found DsuMergeRet) : Type 0 where
  same :
      root u ≡ root v
      → f.value ≡ record { merged = false; root = 0; child = 0 }
      → Stands n f.dsu root
      → Merged n root u v f
  joined :
      root u ≢ root v
      → f.value.merged ≡ true
      → ((f.value.root ≡ root u) × (f.value.child ≡ root v))
        ⊎ ((f.value.root ≡ root v) × (f.value.child ≡ root u))
      → Stands n f.dsu (join root f.value.root f.value.child)
      → Merged n root u v f

pub enough_fuel : (n s fuel : ℕ) → n < 2 ^ fuel → 1 ≤ s → n < s * 2 ^ fuel
enough_fuel n s fuel p q = omega (arith, mul-le-mul_right (2 ^ fuel) q)

module _ (bits : ℕ) where
  link-Represents :
      {n : ℕ} {d : DisjointSetUnion} {root : ℕ → ℕ} (a b : ℕ)
      → Stands n d root
      → n < 2 ^ bits
      → a < n
      → b < n
      → at d.parent a ≡ a
      → at d.parent b ≡ b
      → a ≢ b
      → at d.size b ≤ at d.size a
      → Stands n (link bits d a b).dsu (join root a b)
  unfolding link
  link-Represents {d = d} a b rep small pa pb ra rb ne le =
      let le_n = sizes-le rep a b pa pb ra rb ne in
      let exact : (at d.size a + at d.size b) % 2 ^ bits ≡ at d.size a + at d.size b =
        mod-eq_of_lt (omega (arith, le_n, small)) in
      rw exact (Represents-link rep a b pa pb ra rb ne le)

  merge_roots-Merged :
      (n : ℕ) (d : DisjointSetUnion) (root : ℕ → ℕ) (u v : ℕ)
      → Stands n d root
      → n < 2 ^ bits
      → u < n
      → v < n
      → Merged n root u v (merge_roots bits d (root u) (root v))
  unfolding merge_roots not_merged link
  merge_roots-Merged n d root u v rep small pu pv = elim (ℕ_discrete (root u) (root v)) [
    | yes e ↦ let test : (root u == root v) ≡ true = ground (arith, e) in rw test (same e refl rep)
    | no ne ↦
        let test : (root u == root v) ≡ false = ground (arith, ne) in
        elim (dec_lt (at d.size (root u)) (at d.size (root v))) [
          | yes less ↦
              let swap : ltb (at d.size (root u)) (at d.size (root v)) ≡ true = ground arith in
              rw (test, swap)
                (joined ne refl (inr (refl, refl)) (
                  link-Represents {d = d} (root v) (root u) rep small (rep.root_inside v pv)
                    (rep.root_inside u pu) (rep.top v pv) (rep.top u pu) (λ e. ne (sym e))
                    (omega arith)))
          | no more ↦
              let keep : ltb (at d.size (root u)) (at d.size (root v)) ≡ false = ground arith in
              rw (test, keep)
                (joined ne refl (inl (refl, refl)) (
                  link-Represents {d = d} (root u) (root v) rep small (rep.root_inside u pu)
                    (rep.root_inside v pv) (rep.top u pu) (rep.top v pv) ne (omega arith)))
        ]
  ]

  merge_run :
      (fuel : ℕ) (d : DisjointSetUnion) (u v : ℕ) (a b : Found ℕ)
      → find_root fuel d u ≡ some a
      → find_root fuel a.dsu v ≡ some b
      → merge bits fuel d u v ≡ some (merge_roots bits b.dsu a.value b.value)
  unfolding merge merge_first merge_second
  merge_run fuel d u v a b p q =
      ap (λ o. merge_first bits fuel o v) p ∙ ap (merge_second bits a.value) q

  -- In a forest of `n` nodes, with more than log2(n) tests of the loops and node ids wide enough for
  -- `n`, a merge returns: it makes the classes of its two nodes one, and says whether they were
  -- different.
  pub merge-Merged :
      (n : ℕ) (d : DisjointSetUnion) (root : ℕ → ℕ) (fuel u v : ℕ)
      → Stands n d root
      → n < 2 ^ bits
      → n < 2 ^ fuel
      → u < n
      → v < n
      → (f : Found DsuMergeRet) × (merge bits fuel d u v ≡ some f) × Merged n root u v f
  merge-Merged n d root fuel u v rep small fits pu pv =
      let (a, run_u, a_root, rep_a) =
        find_root-Represents n root fuel d u rep pu
          (enough_fuel n (at d.size u) fuel fits (rep.positive u pu)) in
      let (b, run_v, b_root, rep_b) =
        find_root-Represents n root fuel a.dsu v rep_a pv
          (enough_fuel n (at a.dsu.size v) fuel fits (rep_a.positive v pv)) in
      (
        merge_roots bits b.dsu a.value b.value,
        merge_run fuel d u v a b run_u run_v,
        rw (a_root, b_root) (merge_roots-Merged n b.dsu root u v rep_b small pu pv),
      )
