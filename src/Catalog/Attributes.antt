-- ===== src/Catalog/Attributes.antt =====
-- catalog.cpp, class AttrCatalog: the rows of "attrcat".
use database_management_syst.Common.{
  ℕ, zero, suc, Bool, ◌||◌, Option, none, some, List, ◌==◌, if◌then◌else◌, drop, set, replicate, ℤ,
  pos, negsuc, to_int32,
}
use database_management_syst.Status.{
  ok, err, undefined, bad_cat_parm, rel_not_found, attr_not_found,
}
use database_management_syst.Monad.{M, ◌>>=◌, ◌>>◌, pure, fail, attempt, of_res, ignore}
use database_management_syst.Platform.{Platform}
use database_management_syst.System.{Sys}
use database_management_syst.Db.{is_empty}
use database_management_syst.HeapFile.{Session}
use database_management_syst.HeapFile.Match.{Sign}
use database_management_syst.HeapFile.Cursor.{
  Cursor, heap_cursor, start_all, with_scan, insert_into,
}
use database_management_syst.Catalog.{
  RelDesc, AttrDesc, attr_cat_name, attr_bytes, attr_of, copy_attr, same_c_string, same_string,
  is_eof,
}
use database_management_syst.Catalog.Relations
use database_management_syst.Catalog.Relations.{start_named}

-- `record.attrName == attrName`
unfoldable pub has_attr_name : AttrDesc → List ℕ → Bool
unfolding same_string
has_attr_name d name = same_string (drop 32 (attr_bytes d)) name

module _ {S : Type 0} (c : Cursor S) where
  -- The loop of getInfo. A scanNext that fails otherwise than at the end is forgotten: the status
  -- is that of endScan, and the record that of the row before.
  unfoldable pub find_attr : List ℕ → ℕ → AttrDesc → M S (Option AttrDesc)
  find_attr name zero d = pure none
  find_attr name (suc fuel) d = do
    r ← attempt c.next
    elim r [
      | ok none ↦ pure none
      | ok (some _) ↦ do
        rec ← c.fetch
        d' ← of_res (copy_attr d rec)
        if has_attr_name d' name then c.stop >> pure (some d') else find_attr name fuel d'
      | err e ↦ if is_eof e then fail attr_not_found else c.stop >> pure (some d)
      | undefined ↦ of_res undefined
    ]

  -- The loop of removeInfo, which tests one row again and again: it calls scanNext only before.
  unfoldable pub await_attr : List ℕ → ℕ → AttrDesc → M S (Option (Unit {0}))
  await_attr name zero d = pure none
  await_attr name (suc fuel) d = do
    rec ← c.fetch
    d' ← of_res (copy_attr d rec)
    if has_attr_name d' name then pure (some tt) else await_attr name fuel d'

  -- The part of removeInfo behind startScan.
  unfoldable pub remove_attr : List ℕ → ℕ → AttrDesc → M S (Option (Unit {0}))
  remove_attr name fuel d = do
    r ← attempt c.next
    elim r [
      | ok none ↦ pure none
      | ok (some _) ↦ do
        w ← await_attr name fuel d
        elim w [
          | none ↦ pure none
          | some _ ↦ do deleted ← attempt c.delete; ignore c.stop; of_res deleted; pure (some tt)
        ]
      | err e ↦ ignore c.stop >> fail rel_not_found
      | undefined ↦ of_res undefined
    ]

  -- The loop of getRelInfo, with `amount + 1` places of the array left to fill, from its end.
  unfoldable pub fill_attrs : List ℕ → ℕ → ℕ → List AttrDesc → M S (Option (List AttrDesc))
  fill_attrs relation zero left attrs = pure none
  fill_attrs relation (suc fuel) left attrs = do
    r ← attempt c.next
    elim r [
      | ok none ↦ pure none
      | undefined ↦ of_res undefined
      | err e ↦ if is_eof e || (left == 0) then pure (some attrs) else fail e
      | ok (some _) ↦ elim left [
        | zero ↦ pure (some attrs)
        | suc amount ↦ do
          rec ← c.fetch
          let d = attr_of rec
          let filled = set attrs amount d
          if same_c_string (attr_bytes d) relation
              then fill_attrs relation fuel amount filled
              else fill_attrs relation fuel (suc amount) filled
      ]
    ]

module _ {P : Platform} (float_sign : List ℕ → List ℕ → Sign) (fuel : ℕ) where
  unfoldable pub get_info : List ℕ → List ℕ → AttrDesc → M (Sys P) (Option AttrDesc)
  get_info relation attr_name old =
      if is_empty relation || is_empty attr_name
      then fail bad_cat_parm
      else with_scan attr_cat_name (
          start_named float_sign fuel relation
          >> find_attr (heap_cursor float_sign fuel) attr_name fuel old)

  unfoldable pub add_info : AttrDesc → M (Sys P) (Unit {0})
  add_info record_in = insert_into attr_cat_name (attr_bytes record_in) >>= λ _. pure tt

  unfoldable pub remove_info : List ℕ → List ℕ → AttrDesc → M (Sys P) (Option (Unit {0}))
  remove_info relation attr_name unset =
      if is_empty relation || is_empty attr_name
      then fail bad_cat_parm
      else with_scan attr_cat_name (
          start_named float_sign fuel relation
          >> remove_attr (heap_cursor float_sign fuel) attr_name fuel unset)

  -- `new AttrDesc[attrCnt]` throws if the count is negative.
  abbrev pub fill_array : List ℕ → AttrDesc → ℤ → M (Session P) (Option (List AttrDesc))
  fill_array relation unset (negsuc n) = of_res undefined
  fill_array relation unset (pos n) =
      start_all >> fill_attrs (heap_cursor float_sign fuel) relation fuel n (replicate n unset)

  -- The array, whose length is attrCnt. `unset` is what fresh memory holds.
  unfoldable pub get_rel_info : List ℕ → RelDesc → AttrDesc → M (Sys P) (Option (List AttrDesc))
  get_rel_info relation unset_rel unset = if is_empty relation then fail bad_cat_parm else do
    found ← Relations.get_info float_sign fuel relation unset_rel
    elim found [
      | none ↦ pure none
      | some d ↦ with_scan attr_cat_name (fill_array relation unset (to_int32 d.attr_cnt))
    ]
