-- ===== src/HashTable/Laws.antt =====
-- The hash tables implement a finite map: what each call returns and does to the map.
use database_management_syst.Common.{
  true, false, ◌≡◌, refl, sym, ap, ◌∙◌, ◌⊎◌, inl, inr, Option, none, some, [], ◌∷◌, arith,
  if◌then◌else◌, Option-cases, Bool-cases, ℤ, eq_ℤ, eq_ℤ_iff, Eq,
}
use database_management_syst.Status.{Res, ok, err, hash_tbl_error, hash_not_found}
use database_management_syst.HashTable.{
  Chain, Buckets, cons_option, write, find, unlink, insert, lookup, remove,
}

beq_self : {K : Type 0} ⦃e : Eq K⦄ (k : K) → e.beq k k ≡ true
beq_self ⦃e⦄ k = (e.beq_iff k k).1 refl

module _ {K V : Type 0} ⦃e : Eq K⦄ where
  -- No key stands twice in a chain.
  abbrev pub Unique : Chain K V → Type 0
  Unique [] = Unit {0}
  Unique (b ∷ c) = (find b.0 c ≡ none) × Unique c

  -- The outcome of `unlink`: the chain without the key, or none if the key is not there.
  abbrev Unlinks : K → Chain K V → Option (Chain K V) → Type 0
  Unlinks k c none = find k c ≡ none
  Unlinks k c (some d) =
      ((v : V) × (find k c ≡ some v))
      × ((q : K) → find q d ≡ (if e.beq q k then none else find q c))
      × Unique d

  Unlinks-cons :
      (k : K) (b : K × V) (c : Chain K V) (r : Option (Chain K V))
      → find b.0 c ≡ none
      → e.beq b.0 k ≡ false
      → Unlinks k c r
      → Unlinks k (b ∷ c) (cons_option b r)
  unfolding find
  Unlinks-cons k b c none new other u = ground arith
  Unlinks-cons k b c (some d) new other u = (
    (u.0.0, rw other u.0.1),
    λ q. ground (arith, u.1 q, e.beq_iff b.0 q, e.beq_iff q k, e.beq_iff b.0 k),
    (ground (arith, u.1 b.0), u.2),
  )

  unlink-Unlinks : (k : K) (c : Chain K V) → Unique c → Unlinks k c (unlink k c)
  unfolding find unlink
  unlink-Unlinks k [] u = refl
  unlink-Unlinks k (b ∷ c) u = elim (Bool-cases (e.beq b.0 k)) [
    | inl hit ↦ rw hit (
      (b.1, rw hit),
      λ q. ground (arith, u.0, e.beq_iff b.0 q, e.beq_iff q k, e.beq_iff b.0 k),
      u.1,
    )
    | inr miss ↦ rw miss (Unlinks-cons k b c (unlink k c) u.0 miss (unlink-Unlinks k c u.1))
  ]

module _ {K V : Type 0} ⦃e : Eq K⦄ (hash : K → ℤ) where
  -- Every chain holds a key once. The map of the table reads each key in its own chain.
  abbrev pub IsUnique : Buckets K V → Type 0
  IsUnique ht = (i : ℤ) → Unique (ht i)

  unfoldable pub view : Buckets K V → K → Option V
  view ht k = find k (ht (hash k))

  abbrev pub FoundBy : Option V → Res V → Type 0
  FoundBy none r = r ≡ err hash_not_found
  FoundBy (some v) r = r ≡ ok v

  -- `lookup` reads the map, and reports a missing key as an error.
  pub lookup-FoundBy : (k : K) (ht : Buckets K V) → FoundBy (view ht k) (lookup hash k ht)
  unfolding lookup view
  lookup-FoundBy k ht = elim (Option-cases (find k (ht (hash k)))) [
    | inl absent ↦ rw (absent, lookup)
    | inr (v, present) ↦ rw (present, lookup)
  ]

  -- What a successful lookup found.
  pub lookup-ok : (k : K) (ht : Buckets K V) {v : V} → lookup hash k ht ≡ ok v → view ht k ≡ some v
  unfolding lookup view
  lookup-ok k ht e = ground arith

  write-IsUnique :
      (ht : Buckets K V) (i : ℤ) (c : Chain K V) → IsUnique ht → Unique c → IsUnique (write ht i c)
  write-IsUnique ht i c u uc j = elim (Bool-cases (eq_ℤ j i)) [
    | inl same ↦ rw same uc
    | inr other ↦ rw other (u j)
  ]

  -- A change of one key in its chain is that change in the map.
  view-write :
      (k : K) (ht : Buckets K V) (c : Chain K V) (x : Option V)
      → ((q : K) → find q c ≡ (if e.beq q k then x else find q (ht (hash k))))
      → (q : K) → view (write ht (hash k) c) q ≡ (if e.beq q k then x else view ht q)
  unfolding view
  view-write k ht c x h q = elim (Bool-cases (eq_ℤ (hash q) (hash k))) [
    | inl same ↦
        let eq = (eq_ℤ_iff (hash q) (hash k)).0 same in
        rw same (h q ∙ ap (λ i. if e.beq q k then x else find q (ht i)) (sym eq))
    | inr other ↦
        ground (arith, other, e.beq_iff q k, eq_ℤ_iff (hash q) (hash k), λ (p : q ≡ k). ap hash p)
  ]

  -- A new table: the map with the key bound to the value if the key was absent, else an error.
  abbrev pub Inserts : K → V → Buckets K V → Res (Buckets K V) → Type 0
  Inserts k v ht r =
      ((view ht k ≡ none)
        × ((ht' : Buckets K V) × (r ≡ ok ht')
            × IsUnique ht'
            × ((q : K) → view ht' q ≡ (if e.beq q k then some v else view ht q))))
      ⊎ (((old : V) × (view ht k ≡ some old)) × (r ≡ err hash_tbl_error))

  -- On a table that has no key twice, an insertion either binds its key in the map and no other, and
  -- again no key is twice, if the key was absent, or it fails with HASHTBLERROR, if it was there.
  pub insert-Inserts :
      (k : K) (v : V) (ht : Buckets K V) → IsUnique ht → Inserts k v ht (insert hash k v ht)
  unfolding insert view find
  insert-Inserts k v ht u = elim (Option-cases (find k (ht (hash k)))) [
    | inl absent ↦ inl (
      absent,
      (
        write ht (hash k) ((k, v) ∷ ht (hash k)),
        rw (absent, insert),
        write-IsUnique ht (hash k) _ u (absent, u (hash k)),
        view-write k ht _ (some v) (λ q. ground (arith, e.beq_iff q k, e.beq_iff k q)),
      ),
    )
    | inr (old, present) ↦ inr ((old, present), rw (present, insert))
  ]

  -- The map without the key if it was there, else an error.
  abbrev pub Removes : K → Buckets K V → Res (Buckets K V) → Type 0
  Removes k ht r =
      (((old : V) × (view ht k ≡ some old))
        × ((ht' : Buckets K V) × (r ≡ ok ht')
            × IsUnique ht'
            × ((q : K) → view ht' q ≡ (if e.beq q k then none else view ht q))))
      ⊎ ((view ht k ≡ none) × (r ≡ err hash_tbl_error))

  remove_cases :
      (k : K) (ht : Buckets K V) (r : Option (Chain K V))
      → IsUnique ht
      → unlink k (ht (hash k)) ≡ r
      → Unlinks k (ht (hash k)) r
      → Removes k ht (remove hash k ht)
  unfolding remove view
  remove_cases k ht none u eq l = inr (l, rw (eq, remove))
  remove_cases k ht (some d) u eq l = inl (
    l.0,
    (
      write ht (hash k) d,
      rw (eq, remove),
      write-IsUnique ht (hash k) d u l.2,
      view-write k ht d none l.1,
    ),
  )

  -- On a table that has no key twice, a removal either takes its key out of the map and no other, and
  -- again no key is twice, if the key was there, or it fails with HASHTBLERROR, if it was absent.
  pub remove-Removes : (k : K) (ht : Buckets K V) → IsUnique ht → Removes k ht (remove hash k ht)
  remove-Removes k ht u = remove_cases k ht _ u refl (unlink-Unlinks k (ht (hash k)) (u (hash k)))
