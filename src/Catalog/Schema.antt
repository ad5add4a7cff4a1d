-- ===== src/Catalog/Schema.antt =====
-- create.cpp and destroy.cpp: the relations that the two catalogs describe.
use database_management_syst.Common.{
  ℕ, zero, suc, ◌+◌, ◌%◌, ◌^◌, Bool, true, false, ◌||◌, Option, none, some, List, [], ◌∷◌, leb,
  if◌then◌else◌, length, bytes_eq,
}
use database_management_syst.Status.{
  Status, Res, ok, err, undefined, bad_cat_parm, rel_not_found, name_too_long, rel_exists,
}
use database_management_syst.Monad.{M, ◌>>=◌, ◌>>◌, pure, fail, attempt, of_res, ignore, when}
use database_management_syst.Platform.{Platform}
use database_management_syst.System.{Sys}
use database_management_syst.Db.{is_empty}
use database_management_syst.HeapFile.{create_heap_file, destroy_heap_file}
use database_management_syst.HeapFile.Match.{Sign}
use database_management_syst.HeapFile.Cursor.{Cursor, heap_cursor, start_all, with_scan}
use database_management_syst.Catalog.{
  RelDesc, AttrDesc, AttrInfo, rel_cat_name, attr_cat_name, max_name, strcpy, same_c_string, is_eof,
  c_string,
}
use database_management_syst.Catalog.Relations
use database_management_syst.Catalog.Attributes

abbrev pub is_not_found : Status → Bool
is_not_found rel_not_found = true
is_not_found _ = false

-- The struct that createRel fills for an attribute, at the offset where the last one ended.
unfoldable pub describe : AttrDesc → ℕ → AttrInfo → Res AttrDesc
describe old ordering a = elim (strcpy old.attr_name a.attr_name) [
  | err e ↦ err e
  | undefined ↦ undefined
  | ok attr ↦ elim (strcpy old.rel_name a.rel_name) [
    | err e ↦ err e
    | undefined ↦ undefined
    | ok rel ↦ ok (record {
      rel_name = rel;
      attr_name = attr;
      attr_offset = ordering;
      attr_type = a.attr_type;
      attr_len = a.attr_len;
    })
  ]
]

module _ {S : Type 0} (c : Cursor S) where
  -- A loop of dropRelation, which deletes all rows whose first field is the name. `failed` is the
  -- end of the function after a scanNext that fails; its argument says whether a row was read.
  unfoldable pub delete_named :
      (Bool → Status → M S (Option (Unit {0}))) → List ℕ → ℕ → Bool → M S (Option (Unit {0}))
  delete_named failed relation zero seen = pure none
  delete_named failed relation (suc fuel) seen = do
    r ← attempt c.next
    elim r [
      | ok none ↦ pure none
      | ok (some _) ↦ do
        rec ← c.fetch
        when (same_c_string rec relation) (ignore c.delete)
        delete_named failed relation fuel true
      | err e ↦ if is_eof e then pure (some tt) else failed seen e
      | undefined ↦ of_res undefined
    ]

  -- The first loop returns the status of scanNext, and an endScan that fails makes the function
  -- return a status that it has not set.
  unfoldable pub drop_first : List ℕ → ℕ → M S (Option (Unit {0}))
  drop_first relation fuel = do
    done ← delete_named (λ seen e. fail e) relation fuel false
    stopped ← attempt c.stop
    elim stopped [ ok _ ↦ pure done | err e ↦ of_res undefined | undefined ↦ of_res undefined ]

  -- The second loop returns the status of the getRecord before, which is OK if there was one, in
  -- place of that of scanNext, and skips endScan then.
  unfoldable pub drop_second : List ℕ → ℕ → M S (Option (Unit {0}))
  drop_second relation fuel = do
    done ←
        delete_named (λ seen e. elim seen [ true ↦ pure (some tt) | false ↦ of_res undefined ])
          relation fuel false
    c.stop
    pure done

module _ {P : Platform} (float_sign : List ℕ → List ℕ → Sign) (fuel : ℕ) where
  unfoldable pub drop_relation : List ℕ → M (Sys P) (Option (Unit {0}))
  drop_relation relation = if is_empty relation then fail bad_cat_parm else do
    first ←
        with_scan rel_cat_name (start_all >> drop_first (heap_cursor float_sign fuel) relation fuel)
    elim first [
      | none ↦ pure none
      | some _ ↦
          with_scan attr_cat_name
            (start_all >> drop_second (heap_cursor float_sign fuel) relation fuel)
    ]

  unfoldable pub destroy_rel : Bool → List ℕ → M (Sys P) (Option (Unit {0}))
  destroy_rel stale relation =
      if is_empty relation || (bytes_eq relation rel_cat_name || bytes_eq relation attr_cat_name)
      then fail bad_cat_parm
      else do
        removed ← Relations.remove_info float_sign fuel stale relation
        elim removed [
          | none ↦ pure none
          | some _ ↦ do
            dropped ← drop_relation relation
            elim dropped [
              | none ↦ pure none
              | some _ ↦ destroy_heap_file relation >> pure (some tt)
            ]
        ]

  -- The loop of createRel over the attributes, which forgets every status.
  unfoldable pub add_attrs : AttrDesc → ℕ → List AttrInfo → M (Sys P) (Unit {0})
  add_attrs ad ordering [] = pure tt
  add_attrs ad ordering (a ∷ attrs) = do
    ad' ← of_res (describe ad ordering a)
    ignore (Attributes.add_info float_sign fuel ad')
    add_attrs ad' ((ordering + ad'.attr_len) % 2 ^ 32) attrs

  -- The relation is new: its row, its attributes' rows, and its file.
  unfoldable pub enter_rel : RelDesc → AttrDesc → List ℕ → List AttrInfo → M (Sys P) (Unit {0})
  enter_rel rd ad relation attrs = do
    name ← of_res (strcpy rd.rel_name relation)
    Relations.add_info float_sign fuel
        (record { rel_name = name; attr_cnt = length attrs % 2 ^ 32 })
    add_attrs ad 0 attrs
    create_heap_file (c_string relation)

  -- The list has attrCnt entries. `rd` and `ad` are what the two local structs hold at first.
  unfoldable pub create_rel :
      RelDesc → AttrDesc → List ℕ → List AttrInfo → M (Sys P) (Option (Unit {0}))
  create_rel rd ad relation attrs =
      if is_empty relation || leb (length attrs) 0
      then fail bad_cat_parm
      else if leb max_name (length relation)
      then fail name_too_long
      else do
        found ← attempt (Relations.get_info float_sign fuel relation rd)
        elim found [
          | ok none ↦ pure none
          | ok (some _) ↦ fail rel_exists
          | undefined ↦ of_res undefined
          | err e ↦
              if is_not_found e then enter_rel rd ad relation attrs >> pure (some tt) else fail e
        ]
