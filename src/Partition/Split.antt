-- ===== src/Partition/Split.antt =====
-- The partitions of a list of records.
use mathlib.Core.List.{append-nil, append_assoc}
use database_management_syst.Common.{
  ℕ, zero, suc, ◌<◌, ◌≡◌, refl, sym, ap, ◌∙◌, inl, inr, Bool, true, Bool-cases, Option, none, some,
  List, [], ◌∷◌, ◌++◌, ◌==◌, length, ltb, if◌then◌else◌, arith,
}
use database_management_syst.Status.{Res, ok, undefined}
use database_management_syst.Monad.{M, ◌>>=◌}
use database_management_syst.HeapFile.Cursor.{Cursor, Rows, row_cursor, leave_current}
use database_management_syst.Catalog.Loops.{at}
use database_management_syst.Query.Table.{select}
use database_management_syst.Partition.{split}

-- The scan of the file, and the records of each partition.
pub record Parts : Type 0 where
  pub rel : Rows
  pub part : ℕ → List (List ℕ)

abbrev rel_moved : {A : Type 0} → Parts → Res A × Rows → Res A × Parts
rel_moved t (r, rel) = (r, record t { rel = rel })

abbrev pub parts_cursor : Cursor Parts
parts_cursor = record {
  next = λ t. rel_moved t (row_cursor.next t.rel);
  fetch = λ t. rel_moved t (row_cursor.fetch t.rel);
  delete = λ t. rel_moved t (row_cursor.delete t.rel);
  stop = λ t. rel_moved t (row_cursor.stop t.rel);
}

abbrev pub with_record : (ℕ → List (List ℕ)) → ℕ → List ℕ → ℕ → List (List ℕ)
with_record part p rec q = if q == p then part q ++ rec ∷ [] else part q

-- `part[p]`, for `count` partitions.
abbrev pub insert_row : ℕ → ℕ → List ℕ → M Parts (Unit {0})
insert_row count p rec t =
    if ltb p count then (ok tt, record t { part = with_record t.part p rec }) else (undefined, t)

-- The hash values of the records number partitions.
abbrev pub HashBelow : (List ℕ → ℕ) → ℕ → List (List ℕ) → Type 0
HashBelow hashfcn count [] = Unit {0}
HashBelow hashfcn count (x ∷ xs) = (hashfcn x < count) × HashBelow hashfcn count xs

abbrev pub parts_of : Rows → (ℕ → List (List ℕ)) → Parts
parts_of rel part = record { rel = rel; part = part }

-- The outcome of a call, and the records of the partition `q` after it.
abbrev pub part_after :
    ℕ → Res (Option (Unit {0})) × Parts → Res (Option (Unit {0})) × List (List ℕ)
part_after q (r, t) = (r, t.part q)

module _ (hashfcn : List ℕ → ℕ) (count : ℕ) where
  abbrev pub has_hash : ℕ → List ℕ → Bool
  has_hash q rec = q == hashfcn rec

  with_record-select :
      (part : ℕ → List (List ℕ)) (q : ℕ) (x : List ℕ) (xs : List (List ℕ))
      → with_record part (hashfcn x) x q ++ select (has_hash q) xs
        ≡ part q ++ select (has_hash q) (x ∷ xs)
  with_record-select part q x xs = elim (Bool-cases (q == hashfcn x)) [
    | inl h ↦ rw h (append_assoc (part q) (x ∷ []) (select (has_hash q) xs))
    | inr h ↦ rw h refl
  ]

  split-step :
      (fuel : ℕ) (p : List (List ℕ)) (cur : Option (List ℕ)) (x : List ℕ) (xs : List (List ℕ))
      (part : ℕ → List (List ℕ))
      → hashfcn x < count
      → split parts_cursor hashfcn (insert_row count) (suc fuel) (parts_of (at p cur (x ∷ xs)) part)
        ≡ split parts_cursor hashfcn (insert_row count) fuel (
            parts_of
              (at (leave_current (at p cur [])) (some x) xs)
              (with_record part (hashfcn x) x))
  unfolding split ◌>>=◌
  split-step fuel p cur x xs part h =
      let inside : ltb (hashfcn x) count ≡ true = ground arith in rw inside refl

  split-end :
      (fuel : ℕ) (p : List (List ℕ)) (cur : Option (List ℕ)) (part : ℕ → List (List ℕ)) (q : ℕ)
      → part_after q
          (split parts_cursor hashfcn (insert_row count) (suc fuel) (parts_of (at p cur []) part))
        ≡ (ok (some tt), part q)
  unfolding split ◌>>=◌
  split-end fuel p cur part q = refl

  split-from :
      (fuel : ℕ) (p : List (List ℕ)) (cur : Option (List ℕ)) (xs : List (List ℕ))
      (part : ℕ → List (List ℕ)) (q : ℕ)
      → HashBelow hashfcn count xs
      → length xs < fuel
      → part_after q
          (split parts_cursor hashfcn (insert_row count) fuel (parts_of (at p cur xs) part))
        ≡ (ok (some tt), part q ++ select (has_hash q) xs)
  split-from zero p cur xs part q b h = absurd (omega arith)
  split-from (suc fuel) p cur [] part q b h =
      split-end fuel p cur part q ∙ ap (λ z. (ok (some tt), z)) (sym (append-nil (part q)))
  split-from (suc fuel) p cur (x ∷ xs) part q b h =
      ap (part_after q) (split-step fuel p cur x xs part b.0)
      ∙ split-from fuel (leave_current (at p cur [])) (some x) xs (with_record part (hashfcn x) x) q
          b.1 (omega arith)
      ∙ ap (λ z. (ok (some tt), z)) (with_record-select part q x xs)

  -- The loop of Partition's constructor on a list of records, with more fuel than records and a
  -- hash function whose values number partitions: it ends with OK, and each partition has got, in
  -- the order of the list, just the records whose hash value is its number.
  pub split-select :
      (fuel : ℕ) (xs : List (List ℕ)) (part : ℕ → List (List ℕ)) (q : ℕ)
      → HashBelow hashfcn count xs
      → length xs < fuel
      → part_after q
          (split parts_cursor hashfcn (insert_row count) fuel (parts_of (at [] none xs) part))
        ≡ (ok (some tt), part q ++ select (has_hash q) xs)
  split-select fuel xs part q b h = split-from fuel [] none xs part q b h
