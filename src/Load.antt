-- ===== src/Load.antt =====
-- load.cpp: tuples from a file outside the database into a relation.
--
-- open, read and close are parameters: the bytes of a file that can be opened, which read gives one
-- piece after another, and whether close succeeds.
pub mod Records
use database_management_syst.Common.{
  ℕ, zero, suc, ◌+◌, Bool, true, false, ◌||◌, Option, none, some, List, [], ◌∷◌, ◌==◌, length, take,
  drop, if◌then◌else◌, bytes_eq,
}
use database_management_syst.Status.{Res, ok, err, undefined, bad_cat_parm, unix_err}
use database_management_syst.Monad.{M, ◌>>=◌, ◌>>◌, and_then, pure, fail, attempt, caught, of_res}
use database_management_syst.Platform.{Platform}
use database_management_syst.Page.{Rid}
use database_management_syst.System.{Sys}
use database_management_syst.Db.{is_empty}
use database_management_syst.HeapFile.{Session}
use database_management_syst.HeapFile.Match.{Sign}
use database_management_syst.HeapFile.Insert.{open_insert, insert_record}
use database_management_syst.HeapFile.Cursor.{leave}
use database_management_syst.Catalog.{
  RelDesc, AttrDesc, rel_cat_name, attr_cat_name, rel_bytes, c_string,
}
use database_management_syst.Catalog.Relations
use database_management_syst.Catalog.Attributes
use database_management_syst.Query.{record_length}

module _ {S : Type 0} (insert : List ℕ → M S (Unit {0})) (width : ℕ) where
  -- The loop over the file, of which these bytes are still to be read: a piece that is not as long
  -- as a record ends it.
  unfoldable pub load_records : ℕ → List ℕ → M S (Option (Unit {0}))
  load_records zero bytes = pure none
  load_records (suc fuel) bytes =
      if length (take width bytes) == width
      then insert (take width bytes) >> load_records fuel (drop width bytes)
      else pure (some tt)

module _ {P : Platform} (float_sign : List ℕ → List ℕ → Sign) (fuel : ℕ)
    (open_data : List ℕ → Option (List ℕ)) (close_succeeds : Bool) where
  abbrev inserted : Res Rid × Session P → Res (Unit {0}) × Session P
  inserted (ok _, s) = (ok tt, s)
  inserted (err e, s) = (err e, s)
  inserted (undefined, s) = (undefined, s)

  -- The part of UT_Load behind getRelInfo. The InsertFileScan is never deleted.
  unfoldable pub load_into : List ℕ → List ℕ → List AttrDesc → M (Sys P) (Option (Unit {0}))
  load_into name bytes attrs = do
    h ← open_insert name
    done ← (λ s. leave (
        load_records (λ rec t. inserted (insert_record rec t)) (record_length attrs) fuel bytes
          (record { hf = h; sys = s })))
    if close_succeeds then pure done else fail unix_err

  -- What getRelInfo has given.
  unfoldable pub load_found :
      List ℕ → List ℕ → Option (List AttrDesc) → M (Sys P) (Option (Unit {0}))
  load_found name bytes none = pure none
  load_found name bytes (some attrs) = load_into name bytes attrs

  -- UT_Load behind the opening of the file.
  unfoldable pub load_bytes :
      RelDesc → AttrDesc → List ℕ → Option (List ℕ) → M (Sys P) (Option (Unit {0}))
  load_bytes unset_rel unset relation none = fail unix_err
  load_bytes unset_rel unset relation (some bytes) = do
    found ← Relations.get_info float_sign fuel relation unset_rel
    elim found [
      | none ↦ pure none
      | some rd ↦ do
        let name = c_string (rel_bytes rd)
        attrs ← Attributes.get_rel_info float_sign fuel name unset_rel unset
        load_found name bytes attrs
    ]

  -- UT_Load
  unfoldable pub load : RelDesc → AttrDesc → List ℕ → List ℕ → M (Sys P) (Option (Unit {0}))
  load unset_rel unset relation file_name =
      if is_empty relation
        || (is_empty file_name
            || (bytes_eq relation rel_cat_name || bytes_eq relation attr_cat_name))
      then fail bad_cat_parm
      else load_bytes unset_rel unset relation (open_data file_name)
