-- ===== src/Print/Table.antt =====
-- The table that UT_Print shows of a relation, and how its columns stand.
use mathlib.Core.List.{append-nil, append_assoc}
use database_management_syst.Common.{
  ℕ, zero, suc, ◌+◌, ◌<◌, ◌≡◌, sym, ◌∙◌, Option, none, some, List, [], ◌∷◌, ◌++◌, length, arith,
  pos, codes,
}
use database_management_syst.Status.{ok}
use database_management_syst.Monad.{◌>>=◌, pure}
use database_management_syst.HeapFile.Cursor.{Rows, leave_current, row_cursor}
use database_management_syst.Catalog.{AttrDesc}
use database_management_syst.Catalog.Loops.{at, at_end}
use database_management_syst.Print.{
  Screen, int_text, name_line, dash_line, record_line, print_records, print_table,
}

-- The lines of some records.
abbrev pub lines : (List ℕ → List ℕ) → List (List ℕ) → List ℕ
lines line [] = []
lines line (x ∷ xs) = line x ++ lines line xs

abbrev pub screen : List ℕ → Rows → Screen Rows
screen out r = record { out = out; under = r }

append_assoc_all :
    (a b c d e f : List ℕ) → a ++ b ++ c ++ d ++ e ++ f ≡ a ++ (b ++ (c ++ (d ++ (e ++ f))))
append_assoc_all a b c d e f =
    append_assoc (a ++ b ++ c ++ d) e f
    ∙ append_assoc (a ++ b ++ c) d (e ++ f)
    ∙ append_assoc (a ++ b) c (d ++ (e ++ f))
    ∙ append_assoc a b (c ++ (d ++ (e ++ f)))

module _ (float_text : List ℕ → List ℕ) (attrs : List AttrDesc) (widths : List ℕ) where
  -- The loop, with the records that it has counted before.
  print_records-lines :
      (fuel n : ℕ) (out : List ℕ) (p : List (List ℕ)) (cur : Option (List ℕ)) (xs : List (List ℕ))
      → length xs < fuel
      → print_records float_text row_cursor attrs widths fuel n (screen out (at p cur xs)) ≡ (
        ok (some (n + length xs)),
        screen
            (out ++ lines (record_line float_text attrs widths) xs)
            (at_end (leave_current (at p cur xs) ++ xs)),
      )
  unfolding print_records ◌>>=◌
  print_records-lines zero n out p cur xs h = absurd (omega arith)
  print_records-lines (suc fuel) n out p cur [] h = λ i. (
    ok (some ((let e : n ≡ n + 0 = omega arith in e i))),
    screen (sym (append-nil out) i) (at_end (sym (append-nil (leave_current (at p cur []))) i)),
  )
  print_records-lines (suc fuel) n out p cur (x ∷ xs) h =
      let line = record_line float_text attrs widths x in
      let rest = lines (record_line float_text attrs widths) xs in
      let q = leave_current (at p cur []) in
      print_records-lines fuel (n + 1) (out ++ line) q (some x) xs (omega arith) ∙ λ i. (
        ok (some ((let e : n + 1 + length xs ≡ n + suc (length xs) = omega arith in e i))),
        screen (append_assoc out line rest i) (at_end (append_assoc q (x ∷ []) xs i)),
      )

  -- What stands on the screen: the heading, the two lines above the records, the records in their
  -- order, and their number.
  abbrev pub table_text : List ℕ → List (List ℕ) → List ℕ
  table_text name xs =
      (codes "Relation name: " ++ (name ++ 10 ∷ 10 ∷ []))
      ++ (name_line attrs widths
          ++ (dash_line widths
              ++ (lines (record_line float_text attrs widths) xs
                  ++ (10 ∷ codes "Number of records: "
                      ++ (int_text (pos (length xs)) ++ 10 ∷ [])))))

  -- UT_Print from the heading on, on the records of a list and with more fuel than records: it
  -- ends with OK, leaves the records as they are, and behind what stood on the screen it has put
  -- the heading, the line of the names and the one under it, a line for each record in the order
  -- of the list, and the number of the records.
  pub print_table-text :
      (name out : List ℕ) (fuel : ℕ) (xs : List (List ℕ))
      → length xs < fuel
      → print_table float_text row_cursor
          (pure tt)
          name
          attrs
          widths
          fuel
          (screen out (at [] none xs))
        ≡ (ok (some tt), screen (out ++ table_text name xs) (at_end xs))
  unfolding print_table ◌>>=◌
  print_table-text name out fuel xs h =
      let heading = codes "Relation name: " ++ (name ++ 10 ∷ 10 ∷ []) in
      let shown = out ++ heading ++ name_line attrs widths ++ dash_line widths in
      let body = lines (record_line float_text attrs widths) xs in
      let end = 10 ∷ codes "Number of records: " ++ (int_text (pos (length xs)) ++ 10 ∷ []) in
      let count : 0 + length xs ≡ length xs = omega arith in
      rw (print_records-lines fuel 0 shown [] none xs h, count)
        (λ i. (
          ok (some tt),
          screen
              (append_assoc_all out heading (name_line attrs widths) (dash_line widths) body end i)
              (at_end xs),
        ))
