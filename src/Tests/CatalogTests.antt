-- ===== src/Tests/CatalogTests.antt =====
-- Rows of the attribute catalog: "a" and "b" of relation "r", and "c" of relation "s".
use database_management_syst.Common.{
  ℕ, ◌<◌, arith, ◌≡◌, refl, false, none, some, List, [], ◌∷◌, length, replicate,
}
use database_management_syst.Status.{ok}
use database_management_syst.HeapFile.Cursor.{row_cursor}
use database_management_syst.Catalog.{
  RelDesc, AttrDesc, rel_bytes, attr_bytes, word_bytes, c_string, same_c_string, same_string,
}
use database_management_syst.Catalog.Rows.{IsAttrRow}
use database_management_syst.Catalog.Schema.{drop_second}
use database_management_syst.Catalog.Relations.{remove_first}
use database_management_syst.Catalog.Attributes.{find_attr, remove_attr, fill_attrs, has_attr_name}
use database_management_syst.Catalog.Loops.{
  at, ended, others, removed, with_rows, without_first, drop_second-others,
  remove_first-without_first,
}
use database_management_syst.Catalog.Lookup.{
  AreAttrRows, written, found, first_named, first_removed, find_attr-first_named,
  remove_attr-first_removed,
}
use database_management_syst.Catalog.Fill.{of_relation, fill_attrs-of_relation}
use mathlib.Core.List.{reverse}

-- A name of one letter in its field of 32 bytes.
abbrev field : ℕ → List ℕ
field c = c ∷ replicate 31 0

abbrev row : ℕ → ℕ → ℕ → AttrDesc
row rel attr offset = record {
  rel_name = field rel;
  attr_name = field attr;
  attr_offset = offset;
  attr_type = 1;
  attr_len = 4;
}

abbrev a : AttrDesc
a = row 114 97 0

abbrev b : AttrDesc
b = row 114 98 4

abbrev c : AttrDesc
c = row 115 99 0

abbrev old : AttrDesc
old = row 0 0 0

IsAttrRow-row : (rel attr offset : ℕ) → offset < 4294967296 → IsAttrRow (row rel attr offset)
IsAttrRow-row rel attr offset h = record {
  rel_size = refl;
  attr_size = refl;
  offset = omega arith;
  type = omega arith;
  len = omega arith;
}

abbrev rel : RelDesc
rel = record { rel_name = field 114; attr_cnt = 2 }

abbrev old_rel : RelDesc
old_rel = record { rel_name = field 0; attr_cnt = 0 }

abbrev rows_of_two : List AttrDesc
rows_of_two = a ∷ c ∷ b ∷ []

rows_of_two-AreAttrRows : AreAttrRows rows_of_two
rows_of_two-AreAttrRows = (
  IsAttrRow-row 114 97 0 (omega arith),
  (IsAttrRow-row 115 99 0 (omega arith), (IsAttrRow-row 114 98 4 (omega arith), tt)),
)

abbrev relation_rows : List (List ℕ)
relation_rows = rel_bytes old_rel ∷ rel_bytes rel ∷ []

drop_second-others_example :
    drop_second row_cursor (114 ∷ []) 4 (at [] none (written rows_of_two))
    ≡ ended (others (114 ∷ []) (written rows_of_two))
drop_second-others_example = drop_second-others (114 ∷ []) 4 (written rows_of_two) (omega arith)

remove_first-without_first_example :
    with_rows (remove_first row_cursor (114 ∷ []) 3 (at [] none relation_rows))
    ≡ removed [] relation_rows (without_first (114 ∷ []) relation_rows)
remove_first-without_first_example =
    remove_first-without_first (114 ∷ []) 3 relation_rows (omega arith)

find_attr-first_named_example :
    with_rows (find_attr row_cursor (98 ∷ []) 4 old (at [] none (written rows_of_two)))
    ≡ (found (first_named (98 ∷ []) rows_of_two), written rows_of_two)
find_attr-first_named_example =
    find_attr-first_named (98 ∷ []) 4 old rows_of_two rows_of_two-AreAttrRows (omega arith)

remove_attr-first_removed_example :
    with_rows (remove_attr row_cursor (98 ∷ []) 100 old (at [] none (written rows_of_two)))
    ≡ first_removed (has_attr_name a (98 ∷ [])) (attr_bytes a) (written (c ∷ b ∷ []))
remove_attr-first_removed_example =
    remove_attr-first_removed (98 ∷ []) 99 old a (written (c ∷ b ∷ []))
      (IsAttrRow-row 114 97 0 (omega arith))

two_found : length (of_relation (114 ∷ []) rows_of_two) ≡ 2
unfolding of_relation same_c_string c_string attr_bytes word_bytes
two_found = refl

-- "b" is there, but not first: removeInfo does not find it.
b_follows : (first_named (98 ∷ []) rows_of_two ≡ some b) × (has_attr_name a (98 ∷ []) ≡ false)
unfolding first_named has_attr_name same_string c_string attr_bytes word_bytes
b_follows = (refl, refl)

fill_attrs-of_relation_example :
    (fill_attrs row_cursor (114 ∷ []) 4 2 (old ∷ old ∷ []) (at [] none (written rows_of_two))).0
    ≡ ok (some (reverse (of_relation (114 ∷ []) rows_of_two)))
fill_attrs-of_relation_example =
    fill_attrs-of_relation (114 ∷ []) 4 (old ∷ old ∷ []) rows_of_two rows_of_two-AreAttrRows
      (omega arith) two_found
