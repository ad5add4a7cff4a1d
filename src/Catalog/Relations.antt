-- ===== src/Catalog/Relations.antt =====
-- catalog.cpp, class RelCatalog: the rows of "relcat".
--
-- The loops run on any cursor, and take fuel for the rows that they pass; `none` says that some
-- loop ran out. A record parameter goes in with what the caller's struct holds.
use database_management_syst.Common.{
  ℕ, zero, suc, ◌+◌, Bool, true, false, Option, none, some, List, [], ◌∷◌, ◌++◌, if◌then◌else◌,
  length, pos,
}
use database_management_syst.Status.{Status, Res, ok, err, undefined, bad_cat_parm, rel_not_found}
use database_management_syst.Monad.{M, ◌>>=◌, ◌>>◌, pure, fail, attempt, of_res, ignore}
use database_management_syst.Platform.{Platform}
use database_management_syst.System.{Sys}
use database_management_syst.Db.{is_empty}
use database_management_syst.HeapFile.{Session, string, eq, unchecked, open_heap_file}
use database_management_syst.HeapFile.Match.{Sign, slice}
use database_management_syst.HeapFile.Cursor.{
  Cursor, heap_cursor, start, use_scan, with_scan, insert_into,
}
use database_management_syst.Catalog.{
  RelDesc, rel_cat_name, rel_bytes, copy_rel, same_c_string, is_eof,
}

-- The status of getInfo after a scanNext that failed.
abbrev pub missing : Status → Status
missing e = if is_eof e then rel_not_found else e

module _ {S : Type 0} (c : Cursor S) where
  -- The part of getInfo behind startScan.
  unfoldable pub find_rel : RelDesc → M S (Option RelDesc)
  find_rel old = do
    r ← attempt c.next
    elim r [
      | ok none ↦ pure none
      | ok (some _) ↦ do rec ← c.fetch; d ← of_res (copy_rel old rec); c.stop; pure (some d)
      | err e ↦ ignore c.stop >> fail (missing e)
      | undefined ↦ of_res undefined
    ]

  -- The loop of removeInfo, which deletes the first row with the name. Without such a row the
  -- function ends with no `return`.
  unfoldable pub remove_first : List ℕ → ℕ → M S (Option (Unit {0}))
  remove_first relation zero = pure none
  remove_first relation (suc fuel) = do
    r ← attempt c.next
    elim r [
      | ok none ↦ pure none
      | ok (some _) ↦ do
        rec ← c.fetch
        if same_c_string (slice rec 0 36) relation
            then ignore c.delete >> pure (some tt)
            else remove_first relation fuel
      | err e ↦ if is_eof e then of_res undefined else fail e
      | undefined ↦ of_res undefined
    ]

module _ {P : Platform} (float_sign : List ℕ → List ℕ → Sign) (fuel : ℕ) where
  -- startScan(0, relation.length() + 1, STRING, relation.c_str(), EQ)
  abbrev pub start_named : List ℕ → M (Session P) (Unit {0})
  start_named relation =
      start (pos 0) (pos (length relation + 1)) string (some (relation ++ 0 ∷ [])) eq

  unfoldable pub get_info : List ℕ → RelDesc → M (Sys P) (Option RelDesc)
  get_info relation old =
      if is_empty relation
      then fail bad_cat_parm
      else with_scan rel_cat_name
          (start_named relation >> find_rel (heap_cursor float_sign fuel) old)

  unfoldable pub add_info : RelDesc → M (Sys P) (Unit {0})
  add_info record_in = insert_into rel_cat_name (rel_bytes record_in) >>= λ _. pure tt

  abbrev pub status_only : Res (Unit {0}) × Sys P → Res (Option (Unit {0})) × Sys P
  status_only (ok _, s) = (ok (some tt), s)
  status_only (err e, s) = (err e, s)
  status_only (undefined, s) = (undefined, s)

  -- removeInfo tests `status`, which nothing has set, for what the constructor returned: `stale`
  -- is the outcome of that test. Where it passes, an object that could not be opened is used.
  unfoldable pub remove_info : Bool → List ℕ → M (Sys P) (Option (Unit {0}))
  remove_info stale relation = if is_empty relation then fail bad_cat_parm else elim stale [
    | false ↦ λ s. status_only (with_scan rel_cat_name (pure tt) s)
    | true ↦
        use_scan (unchecked (open_heap_file rel_cat_name))
          (start_named relation >> remove_first (heap_cursor float_sign fuel) relation fuel)
  ]
