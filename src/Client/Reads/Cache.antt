-- ===== src/Client/Reads/Cache.antt =====
-- The cache of a cycle: a resource is requested once, and every read of it gives that answer.
use sonarr_remediator.Base.{
  ℤ, ◌≡◌, refl, sym, ◌∙◌, ap, inl, inr, Option, some, ◌==◌, int_eq, int_beq_iff, Dict, lookup,
  lookup-insert, insert, Bool-cases, Option-cases, Result,
}
use sonarr_remediator.Client.Reads.{checked_resource, resource}

some-injective {ℓ} : {A : Type ℓ} {a b : A} → some a ≡ some b → a ≡ b
some-injective h = cc

module _ {ℓ} {T : Type ℓ} (get_id : T → ℤ) where
  -- The second read of a resource in a cycle gives what the first gave, whatever Sonarr would answer by
  -- then, and changes nothing.
  pub resource-again :
      (id : ℤ) (first second : Result T) (cache : Dict ℤ (Result T))
      → resource get_id id second (resource get_id id first (some cache)).1
        ≡ resource get_id id first (some cache)
  unfolding resource
  resource-again id first second cache = elim (Option-cases (lookup id cache)) [
    | inr (hit, e) ↦ repeated (hit, some cache) (rw (e, resource) refl) (rw (e, resource) refl)
    | inl n ↦
        let v = checked_resource get_id id first in
        let found : lookup id (insert id v cache) ≡ some v =
          lookup-insert id id v cache ∙ rw ((int_beq_iff id id).1 refl) refl in
        repeated (v, some (insert id v cache)) (rw (n, resource) refl) (rw (found, resource) refl)
  ]
    where
      repeated :
          (r : Result T × Option (Dict ℤ (Result T)))
          → resource get_id id first (some cache) ≡ r
          → resource get_id id second r.1 ≡ r
          → resource get_id id second (resource get_id id first (some cache)).1
            ≡ resource get_id id first (some cache)
      repeated r one two = ap (λ s. resource get_id id second s.1) one ∙ two ∙ sym one

  -- Every answer in the cache is the checked answer of Sonarr.
  abbrev pub IsCoherent : (ℤ → Result T) → Dict ℤ (Result T) → Type ℓ
  IsCoherent answer cache =
      (id : ℤ) (hit : Result T)
      → lookup id cache ≡ some hit
      → hit ≡ checked_resource get_id id (answer id)

  -- In a cycle in which Sonarr's answers do not change, a read with the cache gives what a read without
  -- it gives, and the cache stays coherent.
  pub resource-IsCoherent :
      (answer : ℤ → Result T) (id : ℤ) (cache : Dict ℤ (Result T))
      → IsCoherent answer cache
      → ((resource get_id id (answer id) (some cache)).0 ≡ checked_resource get_id id (answer id))
        × ((after : Dict ℤ (Result T)) × ((resource get_id id (answer id) (some cache)).1
              ≡ some after)
            × IsCoherent answer after)
  unfolding resource
  resource-IsCoherent answer id cache coherent = elim (Option-cases (lookup id cache)) [
    | inr (hit, e) ↦
        (rw (e, resource) (coherent id hit e), (cache, rw (e, resource) refl, coherent))
    | inl n ↦
        let v = checked_resource get_id id (answer id) in
        (
          rw (n, resource) refl,
          (
            insert id v cache,
            rw (n, resource) refl,
            λ j hit h. elim (Bool-cases (id == j)) [
              | inl y ↦
                  let same : id ≡ j = (int_beq_iff id j).0 y in
                  let at_id : some v ≡ some hit =
                    sym (lookup-insert id j v cache ∙ rw y refl) ∙ h in
                  sym (some-injective at_id) ∙ ap (λ k. checked_resource get_id k (answer k)) same
              | inr m ↦ coherent j hit (sym (lookup-insert id j v cache ∙ rw m refl) ∙ h)
            ],
          ),
        )
  ]
