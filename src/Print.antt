-- ===== src/Print.antt =====
-- print.cpp: a relation as a table on the screen.
--
-- What is printed is the list of its bytes. The text of a float is a parameter, and so is the word
-- that `new int` leaves, for an attribute of a type that the switch does not name.
pub mod Table
pub mod Columns
pub mod Help
use database_management_syst.Common.{
  ℕ, zero, suc, ◌+◌, ◌-◌, ◌/◌, ◌%◌, Bool, true, false, Option, none, some, List, [], ◌∷◌, ◌++◌,
  ◌==◌, ltb, if◌then◌else◌, length, take, drop, replicate, ℤ, pos, negsuc, to_int32, codes,
}
use database_management_syst.Status.{Status, Res, ok, err, undefined, file_eof}
use database_management_syst.Monad.{M, ◌>>=◌, ◌>>◌, pure, fail, modify, attempt, ignore, of_res}
use database_management_syst.Platform.{Platform}
use database_management_syst.System.{Sys}
use database_management_syst.Db.{is_empty}
use database_management_syst.HeapFile.{Session, HeapFile, integer, eq, open_heap_file}
use database_management_syst.HeapFile.Match.{Sign, slice, word}
use database_management_syst.HeapFile.Scan.{close_scan}
use database_management_syst.HeapFile.Cursor.{Cursor, heap_cursor, start}
use database_management_syst.Catalog.{
  RelDesc, AttrDesc, rel_cat_name, rel_bytes, attr_bytes, c_string, is_eof,
}
use database_management_syst.Catalog.Relations
use database_management_syst.Catalog.Attributes

-- A state and what has been printed.
pub record Screen (S : Type 0) : Type 0 where
  pub out : List ℕ
  pub under : S

abbrev pub put : {S : Type 0} → List ℕ → M (Screen S) (Unit {0})
put text s = (ok tt, record s { out = s.out ++ text })

abbrev pub above : {S A : Type 0} → List ℕ → Res A × S → Res A × Screen S
above out (r, s) = (r, record { out = out; under = s })

-- A call that prints nothing.
abbrev pub below : {S A : Type 0} → M S A → M (Screen S) A
below m s = above s.out (m s.under)

-- The decimal digits of a number with at most n of them, the last one always.
unfoldable pub digits : ℕ → ℕ → List ℕ
digits zero k = []
digits (suc n) k =
    let more = digits n (k / 10) in if ltb k 10 then (48 + k) ∷ [] else more ++ (48 + k % 10) ∷ []

-- %d of an int, which has at most ten digits
unfoldable pub int_text : ℤ → List ℕ
int_text (pos n) = digits 10 n
int_text (negsuc n) = 45 ∷ digits 10 (n + 1)

-- %-*d and the like: blanks behind a text that is shorter than the width
unfoldable pub padded : ℕ → List ℕ → List ℕ
padded width text = text ++ replicate (width - length text) 32

-- %-*.*s with the width twice: no more than that many bytes of the C string
unfoldable pub column : ℕ → List ℕ → List ℕ
column width bytes = padded width (take width (c_string bytes))

abbrev pub max : ℕ → ℕ → ℕ
max a b = if ltb b a then a else b

abbrev pub min : ℕ → ℕ → ℕ
min a b = if ltb a b then a else b

-- The name of an attribute, to the 0 behind it.
unfoldable pub shown_name : AttrDesc → List ℕ
shown_name d = drop 32 (attr_bytes d)

-- The body of the loop of UT_computeWidth. STRING is 0, INTEGER 1 and FLOAT 2.
unfoldable pub column_width : ℕ → AttrDesc → ℕ
column_width unset d =
    let namelen = length (c_string (shown_name d)) in
    elim d.attr_type [
      | zero ↦ min (max namelen d.attr_len) 20
      | suc zero ↦ min (max namelen 5) 7
      | suc (suc zero) ↦ min (max namelen 5) 7
      | suc (suc (suc n)) ↦ unset
    ]

-- UT_computeWidth
unfoldable pub compute_width : ℕ → List AttrDesc → List ℕ
compute_width unset [] = []
compute_width unset (d ∷ attrs) = column_width unset d ∷ compute_width unset attrs

-- The line of the names, and the line under it.
unfoldable pub name_line : List AttrDesc → List ℕ → List ℕ
name_line (d ∷ attrs) (w ∷ widths) = column w (shown_name d) ++ (32 ∷ name_line attrs widths)
name_line _ _ = 10 ∷ []

unfoldable pub dash_line : List ℕ → List ℕ
dash_line [] = 10 ∷ []
dash_line (w ∷ widths) = replicate w 45 ++ (32 ∷ 32 ∷ dash_line widths)

module _ (float_text : List ℕ → List ℕ) where
  -- The switch of UT_printRec. A string that has no 0 goes on into the attributes behind it;
  -- behind the record it ends here.
  unfoldable pub cell_as : ℕ → ℕ → ℕ → List ℕ → List ℕ
  cell_as zero offset width rec = column width (drop offset rec)
  cell_as (suc zero) offset width rec =
      padded width (int_text (to_int32 (word (slice rec offset 4))))
  cell_as (suc (suc zero)) offset width rec = padded width (float_text (slice rec offset 4))
  cell_as (suc (suc (suc n))) offset width rec = column width (drop offset rec)

  -- UT_printRec
  unfoldable pub record_line : List AttrDesc → List ℕ → List ℕ → List ℕ
  record_line (d ∷ attrs) (w ∷ widths) rec =
      cell_as d.attr_type d.attr_offset w rec ++ (32 ∷ 32 ∷ record_line attrs widths rec)
  record_line _ _ rec = 10 ∷ []

  module _ {S : Type 0} (c : Cursor S) where
    -- The loop of UT_Print, with the records so far.
    unfoldable pub print_records : List AttrDesc → List ℕ → ℕ → ℕ → M (Screen S) (Option ℕ)
    print_records attrs widths zero records = pure none
    print_records attrs widths (suc fuel) records = do
      r ← attempt (below c.next)
      elim r [
        | ok none ↦ pure none
        | ok (some _) ↦ do
          rec ← below c.fetch
          put (record_line attrs widths rec)
          print_records attrs widths fuel (records + 1)
        | err e ↦ if is_eof e then pure (some records) else fail e
        | undefined ↦ of_res undefined
      ]

    -- From the heading on, with the start of the scan.
    unfoldable pub print_table :
        M S (Unit {0}) → List ℕ → List AttrDesc → List ℕ → ℕ → M (Screen S) (Option (Unit {0}))
    print_table begin name attrs widths fuel = do
      put (codes "Relation name: " ++ (name ++ 10 ∷ 10 ∷ []))
      put (name_line attrs widths)
      put (dash_line widths)
      below begin
      n ← print_records attrs widths fuel 0
      elim n [
        | none ↦ pure none
        | some records ↦ do
          put (10 ∷ codes "Number of records: " ++ (int_text (pos records) ++ 10 ∷ []))
          below c.stop
          pure (some tt)
      ]

module _ {P : Platform} (float_sign : List ℕ → List ℕ → Sign) (float_text : List ℕ → List ℕ)
    (fuel unset_width : ℕ) where
  abbrev leave_closed : Res (Unit {0}) × Session P → Res (Option (Unit {0})) × Sys P
  leave_closed (ok _, s) = (ok (some tt), s.sys)
  leave_closed (err e, s) = (err e, s.sys)
  leave_closed (undefined, s) = (undefined, s.sys)

  abbrev closed :
      Res (Option (Unit {0})) × Screen (Session P) → Res (Option (Unit {0})) × Screen (Sys P)
  closed (ok none, s) = (ok none, record { out = s.out; under = s.under.sys })
  closed (ok (some _), s) = above s.out (leave_closed (close_scan s.under))
  closed (err e, s) = (err e, record { out = s.out; under = s.under.sys })
  closed (undefined, s) = (undefined, record { out = s.out; under = s.under.sys })

  -- The scan of the relation, whose object is deleted at the end only.
  unfoldable pub print_file : List ℕ → List AttrDesc → M (Screen (Sys P)) (Option (Unit {0}))
  print_file name attrs = do
    h ← below (open_heap_file name)
    λ s. closed (
        print_table float_text (heap_cursor float_sign fuel) (start (pos 0) (pos 0) integer none eq)
          name attrs (compute_width unset_width attrs) fuel
          (record { out = s.out; under = record { hf = h; sys = s.under } }))

  -- UT_Print behind the choice of the relation.
  unfoldable pub print_relation :
      RelDesc → AttrDesc → List ℕ → M (Screen (Sys P)) (Option (Unit {0}))
  print_relation unset_rel unset relation = do
    found ← below (Relations.get_info float_sign fuel relation unset_rel)
    elim found [
      | none ↦ pure none
      | some rd ↦ do
        let name = c_string (rel_bytes rd)
        attrs ← below (Attributes.get_rel_info float_sign fuel name unset_rel unset)
        elim attrs [ none ↦ pure none | some ds ↦ print_file name ds ]
    ]

  -- UT_Print
  unfoldable pub print : RelDesc → AttrDesc → List ℕ → M (Screen (Sys P)) (Option (Unit {0}))
  print unset_rel unset relation =
      print_relation unset_rel unset (if is_empty relation then rel_cat_name else relation)
