-- ===== src/Tests/PrintTests.antt =====
-- A relation of a name and a number on the screen.
use database_management_syst.Common.{
  ℕ, ◌+◌, ◌≡◌, refl, none, some, List, [], ◌∷◌, ◌++◌, arith, length, replicate, codes, negsuc,
}
use database_management_syst.Status.{ok, bad_scan_id}
use database_management_syst.Monad.{pure}
use database_management_syst.HeapFile.Cursor.{row_cursor}
use database_management_syst.HeapFile.Match.{slice, word}
use database_management_syst.Catalog.{AttrDesc, attr_bytes, word_bytes, c_string}
use database_management_syst.Catalog.Loops.{at, at_end}
use database_management_syst.Message.{message, error_line}
use database_management_syst.Print.{
  digits, int_text, padded, column, shown_name, column_width, compute_width, name_line, dash_line,
  cell_as, record_line, print_table,
}
use database_management_syst.Print.Table.{screen, table_text, print_table-text}
use database_management_syst.Print.Columns.{AllFit, compute_width-lines}

abbrev name_attr : AttrDesc
name_attr = record {
  rel_name = 82 ∷ replicate 31 0;
  attr_name = codes "who" ++ replicate 29 0;
  attr_offset = 0;
  attr_type = 0;
  attr_len = 4;
}

abbrev number_attr : AttrDesc
number_attr = record {
  rel_name = 82 ∷ replicate 31 0;
  attr_name = codes "n" ++ replicate 31 0;
  attr_offset = 4;
  attr_type = 1;
  attr_len = 4;
}

abbrev attrs : List AttrDesc
attrs = name_attr ∷ number_attr ∷ []

abbrev ann : List ℕ
ann = codes "ann" ++ (0 ∷ 42 ∷ 1 ∷ 0 ∷ 0 ∷ [])

abbrev no_floats : List ℕ → List ℕ
no_floats bytes = []

print_program : Unit {0}
unfolding digits int_text padded column shown_name column_width compute_width name_line dash_line
    cell_as record_line slice word attr_bytes word_bytes c_string message error_line
print_program = tt

widths-run : compute_width 0 attrs ≡ 4 ∷ 5 ∷ []
unfolding print_program
widths-run = refl

record_line-run : record_line no_floats attrs (4 ∷ 5 ∷ []) ann ≡ codes "ann   298    " ++ 10 ∷ []
unfolding print_program
record_line-run = refl

name_line-run : name_line attrs (4 ∷ 5 ∷ []) ≡ codes "who  n     " ++ 10 ∷ []
unfolding print_program
name_line-run = refl

int_text-run : int_text (negsuc 120) ≡ codes "-121"
unfolding print_program
int_text-run = refl

error_line-run :
    error_line (some bad_scan_id) ≡ codes "Error: undefined error status: -975" ++ 10 ∷ []
unfolding print_program
error_line-run = refl

fits : AllFit no_floats ann attrs (compute_width 0 attrs)
unfolding print_program
fits = (tt, (omega arith, tt))

compute_width-lines_example :
    (length (record_line no_floats attrs (compute_width 0 attrs) ann)
      ≡ length (dash_line (compute_width 0 attrs)))
    × (length (name_line attrs (compute_width 0 attrs)) + length attrs
        ≡ length (dash_line (compute_width 0 attrs)))
compute_width-lines_example = compute_width-lines no_floats ann 0 attrs fits

print_table-text_example :
    print_table no_floats row_cursor
      (pure tt)
      (codes "R")
      attrs
      (4 ∷ 5 ∷ [])
      3
      (screen [] (at [] none (ann ∷ ann ∷ [])))
    ≡ (
      ok (some tt),
      screen
          ([] ++ table_text no_floats attrs (4 ∷ 5 ∷ []) (codes "R") (ann ∷ ann ∷ []))
          (at_end (ann ∷ ann ∷ [])),
    )
print_table-text_example =
    print_table-text no_floats attrs (4 ∷ 5 ∷ []) (codes "R") [] 3 (ann ∷ ann ∷ []) (omega arith)
