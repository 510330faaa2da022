-- ===== src/Instances/Counts.antt =====
-- What calls do to the answers of the registry.
use duck_dbsp.Prelude.{
  ℕ, ◌+◌, ◌≡◌, refl, true, false, [], ◌∷◌, Option, none, some, if◌then◌else◌, arith, inl, inr,
  Bool-cases,
}
use duck_dbsp.Prelude.Equality.{Eq, ◌==◌}
use duck_dbsp.Umap
use duck_dbsp.Umap.Sums.{UniqueKeys, find-update, find-erase, update-UniqueKeys, erase-UniqueKeys}
use duck_dbsp.Instances.{
  InstanceRegistry, register_internal, unregister_internal, is_internal, internal_count,
}

module _ {κ} {D : Type κ} ⦃ed : Eq D⦄ where
  -- One if the entry belongs to the database.
  abbrev pub belongs : D → Option D → ℕ
  belongs db none = 0
  belongs db (some other) = if other == db then 1 else 0

module _ {ℓ κ} {X : Type ℓ} {D : Type κ} ⦃ex : Eq X⦄ ⦃ed : Eq D⦄ where
  internal_count-update :
      (ctx : X) (d db : D) (r : InstanceRegistry X D)
      → internal_count db (Umap.update d ctx (λ _. d) r) + belongs db (Umap.find ctx r)
        ≡ internal_count db r + belongs db (some d)
  unfolding internal_count Umap.update Umap.find
  internal_count-update ctx d db [] = ground arith
  internal_count-update ctx d db ((c, other) ∷ r) = elim (Bool-cases (c == ctx)) [
    | inl hit ↦ rw hit (ground arith)
    | inr miss ↦ rw miss (ground (arith, internal_count-update ctx d db r))
  ]

  internal_count-erase :
      (ctx : X) (db : D) (r : InstanceRegistry X D)
      → internal_count db (Umap.erase ctx r) + belongs db (Umap.find ctx r) ≡ internal_count db r
  unfolding internal_count Umap.erase Umap.find
  internal_count-erase ctx db [] = omega arith
  internal_count-erase ctx db ((c, other) ∷ r) = elim (Bool-cases (c == ctx)) [
    | inl hit ↦ rw hit (ground arith)
    | inr miss ↦ rw miss (ground (arith, internal_count-erase ctx db r))
  ]

  -- Registering a context makes it internal and counts it for its database in place of the one it
  -- belonged to; unregistering it makes it not internal and takes it off its database's count. The
  -- other contexts stay as they are, and both keep one entry for a context.
  pub internal_count-register_internal :
      (ctx other_ctx : X) (d db : D) (r : InstanceRegistry X D)
      → UniqueKeys r
      → let added = register_internal ctx d r in
        let removed = unregister_internal ctx r in
        (is_internal other_ctx added ≡ (if ctx == other_ctx then true else is_internal other_ctx r))
        × (is_internal other_ctx removed
            ≡ (if ctx == other_ctx then false else is_internal other_ctx r))
        × (internal_count db added + belongs db (Umap.find ctx r)
            ≡ internal_count db r + belongs db (some d))
        × (internal_count db removed + belongs db (Umap.find ctx r) ≡ internal_count db r)
        × UniqueKeys added
        × UniqueKeys removed
  unfolding register_internal unregister_internal is_internal
  internal_count-register_internal ctx other_ctx d db r unique =
      let put = find-update d ctx other_ctx (λ _. d) r in
      let gone = find-erase ctx other_ctx r unique in
      (
        rw (is_internal, put)
            (elim (Bool-cases (ctx == other_ctx)) [ inl e ↦ rw e refl | inr e ↦ rw e refl ]),
        rw (is_internal, gone)
            (elim (Bool-cases (ctx == other_ctx)) [ inl e ↦ rw e refl | inr e ↦ rw e refl ]),
        internal_count-update ctx d db r,
        internal_count-erase ctx db r,
        update-UniqueKeys d ctx (λ _. d) r unique,
        erase-UniqueKeys ctx r unique,
      )
