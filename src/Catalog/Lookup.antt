-- ===== src/Catalog/Lookup.antt =====
-- The loops of AttrCatalog on rows that addInfo has written.
use mathlib.Core.List.{append_assoc}
use database_management_syst.Common.{
  ℕ, zero, suc, ◌<◌, ◌≡◌, refl, ap, ◌∙◌, inl, inr, Bool, true, false, Bool-cases, Option, none,
  some, List, [], ◌∷◌, ◌++◌, arith, if◌then◌else◌, length,
}
use database_management_syst.Status.{Res, ok, err, attr_not_found}
use database_management_syst.Monad.{◌>>=◌, and_then}
use database_management_syst.HeapFile.Cursor.{leave_current, row_cursor}
use database_management_syst.Catalog.{AttrDesc, attr_bytes}
use database_management_syst.Catalog.Attributes.{find_attr, await_attr, remove_attr, has_attr_name}
use database_management_syst.Catalog.Rows.{IsAttrRow, copy_attr-attr_bytes}
use database_management_syst.Catalog.Loops.{at, with_rows}

-- The rows that addInfo writes for some structs, and what the structs must be like.
abbrev pub written : List AttrDesc → List (List ℕ)
written [] = []
written (d ∷ ds) = attr_bytes d ∷ written ds

abbrev pub AreAttrRows : List AttrDesc → Type 0
AreAttrRows [] = Unit {0}
AreAttrRows (d ∷ ds) = IsAttrRow d × AreAttrRows ds

-- The first struct with a name.
unfoldable pub first_named : List ℕ → List AttrDesc → Option AttrDesc
first_named name [] = none
first_named name (d ∷ ds) =
    let rest = first_named name ds in if has_attr_name d name then some d else rest

abbrev pub found : Option AttrDesc → Res (Option AttrDesc)
found none = err attr_not_found
found (some d) = ok (some d)

find_attr-none :
    (name : List ℕ) (fuel : ℕ) (old : AttrDesc) (p : List (List ℕ)) (cur : Option (List ℕ))
    → with_rows (find_attr row_cursor name (suc fuel) old (at p cur []))
      ≡ (err attr_not_found, leave_current (at p cur []) ++ [])
unfolding find_attr ◌>>=◌
find_attr-none name fuel old p cur = refl

module _ (name : List ℕ) (fuel : ℕ) (old : AttrDesc) (p : List (List ℕ)) (cur : Option (List ℕ))
    (d : AttrDesc) (xs : List (List ℕ)) (v : IsAttrRow d) where
  find_attr-same :
      has_attr_name d name ≡ true
      → find_attr row_cursor name (suc fuel) old (at p cur (attr_bytes d ∷ xs))
        ≡ (ok (some d), at (leave_current (at p cur [])) (some (attr_bytes d)) xs)
  unfolding find_attr ◌>>=◌
  find_attr-same same = rw (and_then, copy_attr-attr_bytes old d v) (rw (and_then, same) refl)

  find_attr-other :
      has_attr_name d name ≡ false
      → find_attr row_cursor name (suc fuel) old (at p cur (attr_bytes d ∷ xs))
        ≡ find_attr row_cursor name fuel d
            (at (leave_current (at p cur [])) (some (attr_bytes d)) xs)
  unfolding find_attr ◌>>=◌
  find_attr-other other = rw (and_then, copy_attr-attr_bytes old d v) (rw (and_then, other) refl)

find_attr-found :
    (name : List ℕ) (fuel : ℕ) (old : AttrDesc) (p : List (List ℕ)) (cur : Option (List ℕ))
    (ds : List AttrDesc)
    → AreAttrRows ds
    → length ds < fuel
    → with_rows (find_attr row_cursor name fuel old (at p cur (written ds)))
      ≡ (found (first_named name ds), leave_current (at p cur []) ++ written ds)
unfolding first_named
find_attr-found name zero old p cur ds v h = absurd (omega arith)
find_attr-found name (suc fuel) old p cur [] v h = find_attr-none name fuel old p cur
find_attr-found name (suc fuel) old p cur (d ∷ ds) v h =
    let q = leave_current (at p cur []) in
    elim (Bool-cases (has_attr_name d name)) [
      | inl same ↦ rw same (
          ap with_rows (find_attr-same name fuel old p cur d (written ds) v.0 same)
          ∙ ap (λ z. (ok (some d), z)) (append_assoc q (attr_bytes d ∷ []) (written ds)))
      | inr other ↦ rw other (
          ap with_rows (find_attr-other name fuel old p cur d (written ds) v.0 other)
          ∙ find_attr-found name fuel d q (some (attr_bytes d)) ds v.1 (omega arith)
          ∙ ap (λ z. (found (first_named name ds), z))
              (append_assoc q (attr_bytes d ∷ []) (written ds)))
    ]

-- The loop of AttrCatalog::getInfo on a list of rows that addInfo has written, with more fuel than
-- rows: it gives the struct of the first row with the attribute's name, ATTRNOTFOUND if there is
-- none, whatever the caller's struct held before, and leaves the rows as they are.
pub find_attr-first_named :
    (name : List ℕ) (fuel : ℕ) (old : AttrDesc) (ds : List AttrDesc)
    → AreAttrRows ds
    → length ds < fuel
    → with_rows (find_attr row_cursor name fuel old (at [] none (written ds)))
      ≡ (found (first_named name ds), written ds)
find_attr-first_named name fuel old ds v h = find_attr-found name fuel old [] none ds v h

module _ (name : List ℕ) (d : AttrDesc) (v : IsAttrRow d) (p ahead : List (List ℕ)) where
  await_attr-same :
      (fuel : ℕ) (old : AttrDesc)
      → has_attr_name d name ≡ true
      → await_attr row_cursor name (suc fuel) old (at p (some (attr_bytes d)) ahead)
        ≡ (ok (some tt), at p (some (attr_bytes d)) ahead)
  unfolding await_attr ◌>>=◌
  await_attr-same fuel old same =
      rw (and_then, copy_attr-attr_bytes old d v) (rw (and_then, same) refl)

  -- The loop inside removeInfo tests the current row for as long as it is given fuel.
  await_attr-other :
      (fuel : ℕ) (old : AttrDesc)
      → has_attr_name d name ≡ false
      → await_attr row_cursor name fuel old (at p (some (attr_bytes d)) ahead)
        ≡ (ok none, at p (some (attr_bytes d)) ahead)
  unfolding await_attr ◌>>=◌
  await_attr-other zero old other = refl
  await_attr-other (suc fuel) old other =
      rw (and_then, copy_attr-attr_bytes old d v)
        (rw (and_then, other) (await_attr-other fuel d other))

  await_attr-current :
      (fuel : ℕ) (old : AttrDesc)
      → await_attr row_cursor name (suc fuel) old (at p (some (attr_bytes d)) ahead)
        ≡ (ok (if has_attr_name d name then some tt else none), at p (some (attr_bytes d)) ahead)
  await_attr-current fuel old = elim (Bool-cases (has_attr_name d name)) [
    | inl same ↦ rw same (await_attr-same fuel old same)
    | inr other ↦ rw other (await_attr-other (suc fuel) old other)
  ]

-- What removeInfo is seen to do with a first row of a struct.
abbrev pub first_removed : Bool → List ℕ → List (List ℕ) → Res (Option (Unit {0})) × List (List ℕ)
first_removed true x xs = (ok (some tt), xs)
first_removed false x xs = (ok none, x ∷ xs)

remove_attr-awaited :
    (name : List ℕ) (fuel : ℕ) (old d : AttrDesc) (xs : List (List ℕ)) (b : Bool)
    → await_attr row_cursor name (suc fuel) old (at [] (some (attr_bytes d)) xs)
      ≡ (ok (if b then some tt else none), at [] (some (attr_bytes d)) xs)
    → with_rows (remove_attr row_cursor name (suc fuel) old (at [] none (attr_bytes d ∷ xs)))
      ≡ first_removed b (attr_bytes d) xs
unfolding remove_attr ◌>>=◌
remove_attr-awaited name fuel old d xs true e = rw e refl
remove_attr-awaited name fuel old d xs false e = rw e refl

-- AttrCatalog::removeInfo behind startScan, on the rows of a list of which the first is one that
-- addInfo has written, with any fuel but 0. If that row has the attribute's name, just that row is
-- deleted, with OK. If it has another name, no fuel is enough for the loop to end and nothing is
-- deleted, whether a later row has the name or not.
pub remove_attr-first_removed :
    (name : List ℕ) (fuel : ℕ) (old d : AttrDesc) (xs : List (List ℕ))
    → IsAttrRow d
    → with_rows (remove_attr row_cursor name (suc fuel) old (at [] none (attr_bytes d ∷ xs)))
      ≡ first_removed (has_attr_name d name) (attr_bytes d) xs
remove_attr-first_removed name fuel old d xs v =
    remove_attr-awaited name fuel old d xs (has_attr_name d name)
      (await_attr-current name d v [] xs fuel old)
