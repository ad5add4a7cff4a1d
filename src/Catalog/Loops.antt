-- ===== src/Catalog/Loops.antt =====
-- The loops of the catalogs on the rows of a list.
use mathlib.Core.List.{append-nil, append_assoc}
use database_management_syst.Common.{
  ℕ, zero, suc, ◌<◌, ◌≡◌, refl, sym, ap, ◌∙◌, inl, inr, Bool, true, false, Bool-cases, Option, none,
  some, List, [], ◌∷◌, ◌++◌, arith, if◌then◌else◌, length,
}
use database_management_syst.Status.{Status, Res, ok, undefined}
use database_management_syst.Monad.{M, ◌>>=◌}
use database_management_syst.HeapFile.Cursor.{Rows, leave_current, rows, row_cursor}
use database_management_syst.HeapFile.Match.{slice}
use database_management_syst.Catalog.{same_c_string}
use database_management_syst.Catalog.Relations.{remove_first}
use database_management_syst.Catalog.Schema.{delete_named, drop_second}

-- The rows of other names.
unfoldable pub others : List ℕ → List (List ℕ) → List (List ℕ)
others name [] = []
others name (x ∷ xs) = let rest = others name xs in if same_c_string x name then rest else x ∷ rest

abbrev pub at : List (List ℕ) → Option (List ℕ) → List (List ℕ) → Rows
at passed current ahead = record { passed = passed; current = current; ahead = ahead }

-- The cursor behind the last row.
abbrev pub at_end : List (List ℕ) → Rows
at_end xs = at xs none []

-- The outcome of a loop that has come to the end.
abbrev pub ended : List (List ℕ) → Res (Option (Unit {0})) × Rows
ended xs = (ok (some tt), at_end xs)

module _ (failed : Bool → Status → M Rows (Option (Unit {0}))) (name : List ℕ) where
  -- Whatever a scan that fails would do: on the rows of a list, the loop ends at the end of the
  -- list, has deleted the rows of that name, and has kept the others in their order.
  delete_named-others :
      (fuel : ℕ) (seen : Bool) (p : List (List ℕ)) (cur : Option (List ℕ)) (xs : List (List ℕ))
      → length xs < fuel
      → delete_named row_cursor failed name fuel seen (at p cur xs)
        ≡ ended (leave_current (at p cur xs) ++ others name xs)
  unfolding delete_named others ◌>>=◌
  delete_named-others zero seen p cur xs h = absurd (omega arith)
  delete_named-others (suc fuel) seen p cur [] h =
      ap ended (sym (append-nil (leave_current (at p cur []))))
  delete_named-others (suc fuel) seen p cur (x ∷ xs) h =
      let q = leave_current (at p cur (x ∷ xs)) in
      elim (Bool-cases (same_c_string x name)) [
        | inl same ↦ rw same (delete_named-others fuel true q none xs (omega arith))
        | inr other ↦ rw other (
            delete_named-others fuel true q (some x) xs (omega arith)
            ∙ ap ended (append_assoc q (x ∷ []) (others name xs)))
      ]

-- dropRelation's second loop and endScan, on the rows of a list and with more fuel than rows: they
-- end with OK, all rows of the relation's name are deleted, and the others are kept in their order.
pub drop_second-others :
    (name : List ℕ) (fuel : ℕ) (xs : List (List ℕ))
    → length xs < fuel
    → drop_second row_cursor name fuel (at [] none xs) ≡ ended (others name xs)
unfolding drop_second ◌>>=◌
drop_second-others name fuel xs h = rw (delete_named-others _ name fuel false [] none xs h) refl

abbrev prepend : List ℕ → Option (List (List ℕ)) → Option (List (List ℕ))
prepend x none = none
prepend x (some xs) = some (x ∷ xs)

-- The rows without the first one of a name, if there is one.
unfoldable pub without_first : List ℕ → List (List ℕ) → Option (List (List ℕ))
without_first name [] = none
without_first name (x ∷ xs) =
    let rest = prepend x (without_first name xs) in
    if same_c_string (slice x 0 36) name then some xs else rest

-- An outcome with the rows that are left in place of the position of the scan.
abbrev pub with_rows : {A : Type 0} → Res A × Rows → Res A × List (List ℕ)
with_rows (r, s) = (r, rows s)

abbrev pub removed :
    List (List ℕ) → List (List ℕ) → Option (List (List ℕ)) → Res (Option (Unit {0})) × List (List ℕ)
removed q xs none = (undefined, q ++ xs)
removed q xs (some ys) = (ok (some tt), q ++ ys)

removed-prepend :
    (q : List (List ℕ)) (x : List ℕ) (xs : List (List ℕ)) (o : Option (List (List ℕ)))
    → removed (q ++ x ∷ []) xs o ≡ removed q (x ∷ xs) (prepend x o)
removed-prepend q x xs none = ap (λ z. (undefined, z)) (append_assoc q (x ∷ []) xs)
removed-prepend q x xs (some ys) = ap (λ z. (ok (some tt), z)) (append_assoc q (x ∷ []) ys)

module _ (name : List ℕ) (fuel : ℕ) (p : List (List ℕ)) (cur : Option (List ℕ)) where
  remove_first-none :
      with_rows (remove_first row_cursor name (suc fuel) (at p cur []))
      ≡ (undefined, leave_current (at p cur []) ++ [])
  unfolding remove_first ◌>>=◌
  remove_first-none = refl

  remove_first-same :
      (x : List ℕ) (xs : List (List ℕ))
      → same_c_string (slice x 0 36) name ≡ true
      → remove_first row_cursor name (suc fuel) (at p cur (x ∷ xs))
        ≡ (ok (some tt), at (leave_current (at p cur [])) none xs)
  unfolding remove_first ◌>>=◌
  remove_first-same x xs same = rw same refl

  remove_first-other :
      (x : List ℕ) (xs : List (List ℕ))
      → same_c_string (slice x 0 36) name ≡ false
      → remove_first row_cursor name (suc fuel) (at p cur (x ∷ xs))
        ≡ remove_first row_cursor name fuel (at (leave_current (at p cur [])) (some x) xs)
  unfolding remove_first ◌>>=◌
  remove_first-other x xs other = rw other refl

remove_first-removed :
    (name : List ℕ) (fuel : ℕ) (p : List (List ℕ)) (cur : Option (List ℕ)) (xs : List (List ℕ))
    → length xs < fuel
    → with_rows (remove_first row_cursor name fuel (at p cur xs))
      ≡ removed (leave_current (at p cur [])) xs (without_first name xs)
unfolding without_first
remove_first-removed name zero p cur xs h = absurd (omega arith)
remove_first-removed name (suc fuel) p cur [] h = remove_first-none name fuel p cur
remove_first-removed name (suc fuel) p cur (x ∷ xs) h =
    let q = leave_current (at p cur []) in
    elim (Bool-cases (same_c_string (slice x 0 36) name)) [
      | inl same ↦ rw same (ap with_rows (remove_first-same name fuel p cur x xs same))
      | inr other ↦ rw other (
          ap with_rows (remove_first-other name fuel p cur x xs other)
          ∙ remove_first-removed name fuel q (some x) xs (omega arith)
          ∙ removed-prepend q x xs (without_first name xs))
    ]

-- The loop of RelCatalog::removeInfo, on the rows of a list and with more fuel than rows: if a row
-- has the relation's name, the first one is deleted and no other, with OK; else no row is deleted
-- and the function ends without a status.
pub remove_first-without_first :
    (name : List ℕ) (fuel : ℕ) (xs : List (List ℕ))
    → length xs < fuel
    → with_rows (remove_first row_cursor name fuel (at [] none xs))
      ≡ removed [] xs (without_first name xs)
remove_first-without_first name fuel xs h = remove_first-removed name fuel [] none xs h
