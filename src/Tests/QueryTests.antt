-- ===== src/Tests/QueryTests.antt =====
-- A join of two relations of records of four bytes each, and the partitions of one of them.
use database_management_syst.Common.{
  ℕ, arith, ◌≡◌, Bool, none, some, List, [], ◌∷◌, ◌++◌, drop, get_or, to_int32,
}
use database_management_syst.Status.{ok}
use database_management_syst.HeapFile.{integer, lt, eq}
use database_management_syst.HeapFile.Match.{Sign, null, slice, word, match_rec}
use database_management_syst.HeapFile.Compare.{compare_ℤ}
use database_management_syst.HeapFile.Cursor.{Rows}
use database_management_syst.Catalog.{AttrDesc}
use database_management_syst.Catalog.Loops.{at}
use database_management_syst.Query.{project}
use database_management_syst.Query.Table.{tables, select, joined}
use database_management_syst.Query.Nested.{shown, outer_on_rows, outer_loop-joined}
use database_management_syst.Query.Turned.{inner_filter, match_rec-turned}
use database_management_syst.Partition.{split}
use database_management_syst.Partition.Split
use database_management_syst.Partition.Split.{
  parts_cursor, part_after, parts_of, has_hash, split-select,
}

abbrev float_sign : List ℕ → List ℕ → Sign
float_sign a b = null

-- The attribute of four bytes that a record consists of.
abbrev attr : ℕ → AttrDesc
attr rel = record {
  rel_name = rel ∷ 0 ∷ [];
  attr_name = 97 ∷ 0 ∷ [];
  attr_offset = 0;
  attr_type = 1;
  attr_len = 4;
}

abbrev number : ℕ → List ℕ
number n = n ∷ 0 ∷ 0 ∷ 0 ∷ []

abbrev matches : List ℕ → List ℕ → Bool
matches o i = match_rec float_sign (some (inner_filter (attr 114) (attr 115) integer eq o)) i

abbrev combine : List ℕ → List ℕ → List ℕ
combine = project (attr 114) (attr 114 ∷ attr 115 ∷ [])

abbrev outer : List (List ℕ)
outer = number 1 ∷ number 2 ∷ []

abbrev inner : List (List ℕ)
inner = number 2 ∷ number 3 ∷ number 2 ∷ []

abbrev closed : Rows
closed = at [] none []

outer_loop-joined_example :
    shown matches combine
      (outer_on_rows matches combine 4 3 (tables (at [] none outer) closed inner []))
    ≡ (ok (some tt), [] ++ joined matches combine outer inner)
outer_loop-joined_example =
    outer_loop-joined matches combine 4 3 outer closed inner [] (omega arith) (omega arith)

match_rec-turned_example :
    match_rec float_sign
      (some (inner_filter (attr 114) (attr 115) integer lt (number 1)))
      (number 2)
    ≡ compare_ℤ lt (to_int32 (word (drop 0 (number 1)))) (to_int32 (word (slice (number 2) 0 4)))
unfolding word slice
match_rec-turned_example =
    match_rec-turned float_sign (attr 114) (attr 115) lt (number 1) (number 2) (omega arith)
      (omega arith) (omega arith, omega arith)

-- The first byte decides the partition.
abbrev first_byte : List ℕ → ℕ
first_byte rec = get_or rec 0 0

abbrev nothing : ℕ → List (List ℕ)
nothing p = []

split-select_example :
    part_after 2
      (split parts_cursor first_byte (Split.insert_row 4) 4 (parts_of (at [] none inner) nothing))
    ≡ (ok (some tt), [] ++ select (has_hash first_byte 4 2) inner)
split-select_example =
    split-select first_byte 4 4 inner nothing 2 (omega arith, (omega arith, (omega arith, tt)))
      (omega arith)
