-- ===== src/HashTable.antt =====
-- The chained hash tables of bufHash.cpp (BufHashTbl) and db.cpp (OpenFileHashTbl): the two
-- classes have the same loops, over other keys and values and with another hash function.
--
-- The array of chains is a function of the index, as the source computes it; that the index lies
-- in the array is a property of the hash function, stated with it.
pub mod Laws
use database_management_syst.Common.{
  Bool, Option, none, some, List, [], ◌∷◌, if◌then◌else◌, ℤ, eq_ℤ, Eq,
}
use database_management_syst.Status.{Res, ok, err, undefined, hash_tbl_error, hash_not_found}

-- The buckets of one chain, the newest first.
abbrev pub Chain : Type 0 → Type 0 → Type 0
Chain K V = List (K × V)

abbrev pub Buckets : Type 0 → Type 0 → Type 0
Buckets K V = ℤ → Chain K V

abbrev pub cons_option : {A : Type 0} → A → Option (List A) → Option (List A)
cons_option a none = none
cons_option a (some r) = some (a ∷ r)

abbrev pub write : {A : Type 0} → (ℤ → A) → ℤ → A → ℤ → A
write ht i c j = if eq_ℤ j i then c else ht j

module _ {K V : Type 0} ⦃e : Eq K⦄ where
  -- The loop of `lookup` and `find`.
  unfoldable pub find : K → Chain K V → Option V
  find k [] = none
  find k (b ∷ c) = if e.beq b.0 k then some b.1 else find k c

  -- The loop of `remove` and `erase`, which unlinks the first bucket of the key.
  unfoldable pub unlink : K → Chain K V → Option (Chain K V)
  unlink k [] = none
  unlink k (b ∷ c) = if e.beq b.0 k then some c else cons_option b (unlink k c)

module _ {K V : Type 0} ⦃e : Eq K⦄ (hash : K → ℤ) where
  unfoldable pub insert : K → V → Buckets K V → Res (Buckets K V)
  unfolding find
  insert k v ht = elim (find k (ht (hash k))) [
    | some old ↦ err hash_tbl_error
    | none ↦ ok (write ht (hash k) ((k, v) ∷ ht (hash k)))
  ]

  unfoldable pub lookup : K → Buckets K V → Res V
  unfolding find
  lookup k ht = elim (find k (ht (hash k))) [ some v ↦ ok v | none ↦ err hash_not_found ]

  unfoldable pub remove : K → Buckets K V → Res (Buckets K V)
  unfolding unlink
  remove k ht = elim (unlink k (ht (hash k))) [
    | some c ↦ ok (write ht (hash k) c)
    | none ↦ err hash_tbl_error
  ]
