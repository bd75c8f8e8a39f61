-- ===== src/Graph/Boruvka/Backup.antt =====
-- In front of the loop of `boruvka_emulation`, and behind it: the backups can be restored.
use anon_graphzeppelin.Base.{
  Below, ℕ, ◌^◌, ◌<◌, ◌≡◌, refl, sym, ap, subst, ◌∙◌, inl, inr, arith, Bool, List, [], ◌∷◌, some,
  and_then, length, get_or, set, Bool-cases,
}
use anon_graphzeppelin.Types.{Edge}
use anon_graphzeppelin.Dsu.{identity}
use anon_graphzeppelin.Dsu.Components.{identity-Below, identity-Represents}
use anon_graphzeppelin.Graph.{Graph}
use anon_graphzeppelin.Graph.Sampler.{Sampler, IsFair}
use anon_graphzeppelin.Graph.Boruvka.{
  Run, first_run, cleanup_copy, backup_to_disk, restore_from_disk, restore_copies,
}
use anon_graphzeppelin.Graph.Boruvka.Samples.{AllGood}
use anon_graphzeppelin.Graph.Boruvka.Rounds.{Inv}

module _ (S : Sampler) (n : ℕ) (Good : S.State → Type 0) (IsEdge : Edge → Type 0)
    (fair : IsFair S n Good IsEdge) (narrow : n < 2 ^ 32) (fuel : ℕ) (fits : n < 2 ^ fuel) where
  -- The backup of good supernodes can be read.
  restore-backup :
      (ids : List ℕ) (old sn : List S.State)
      → AllGood S n Good IsEdge fair old
      → (sn' : List S.State) × (restore_from_disk S ids (backup_to_disk S ids old) sn ≡ some sn')
  unfolding restore_from_disk backup_to_disk
  restore-backup [] old sn good = (sn, refl)
  restore-backup (i ∷ ids) old sn good =
      let (sn', rest) = restore-backup ids old _ good in
      (
        sn',
        ap (λ o. and_then o (λ r. restore_from_disk S ids r.1 (set sn i r.0)))
              (fair.load-save (get_or old i S.absent) (backup_to_disk S ids old) (good i))
            ∙ rest,
      )

  module _ (make_copy in_mem : Bool) where
    pub cleanup-some :
        (r : Run S.State)
        → Inv S n Good IsEdge fair narrow fuel fits make_copy in_mem r
        → (sn : List S.State) × (cleanup_copy S fuel make_copy in_mem r ≡ some sn)
    unfolding cleanup_copy
    cleanup-some r inv = elim (Bool-cases make_copy) [
      | inr none_made ↦ (r.supernodes, rw none_made refl)
      | inl made ↦ elim (Bool-cases in_mem) [
        | inl e ↦ (restore_copies S r.backed_up r.copies r.supernodes, rw (made, e) refl)
        | inr e ↦
            let (old, good, file) = inv.file e in
            let (sn, read) = restore-backup r.backed_up old r.supernodes good in
            (
              sn,
              rw (made, e) (ap (λ f. restore_from_disk S r.backed_up f r.supernodes) file ∙ read),
            )
      ]
    ]

    pub first_run-Inv :
        (g : Graph) (sn : List S.State)
        → g.num_nodes ≡ n
        → length sn ≡ n
        → AllGood S n Good IsEdge fair sn
        → Inv S n Good IsEdge fair narrow fuel fits make_copy in_mem
            (first_run S fuel make_copy in_mem g sn)
    unfolding first_run backup_to_disk
    first_run-Inv g sn nodes size good = record {
      nodes = nodes;
      size = size;
      good = good;
      reps = subst (λ m. Below n (identity m 0)) (sym nodes) (identity-Below n n 0 (omega arith));
      classes =
          ([], tt, ((λ i. i), rw nodes (identity-Represents n), λ more i j. (λ l. l, λ l. l)));
      file = λ _. (sn, good, refl);
    }
