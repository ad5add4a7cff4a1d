-- ===== src/Tests/SortTests.antt =====
-- Two runs of records of two bytes, which are sorted on the second byte.
use mathlib.Core.List.{Perm, flatten}
use database_management_syst.Common.{
  ℕ, arith, ◌≡◌, refl, take, Bool, false, none, some, List, [], ◌∷◌,
}
use database_management_syst.Page.{null_rid}
use database_management_syst.HeapFile.{string}
use database_management_syst.HeapFile.Match.{Sign, null, slice}
use database_management_syst.HeapFile.Cursor.{Rows, row_cursor, leave_current}
use database_management_syst.Sort.{Key, Run, memcmp, reccmp, is_behind}
use database_management_syst.Sort.Merge.{next, list_cursor}
use database_management_syst.Sort.Least.{IsSorted}
use database_management_syst.Sort.Bytes.{string_key, is_behind-IsOrder}
use database_management_syst.Sort.Refresh.{remaining, remains}
use database_management_syst.Catalog.Loops.{at}
use database_management_syst.Sort.Filled.{sort_recs, after_calls, fill_buffer-take}
use database_management_syst.Sort.Build.{fill_buffer}
use database_management_syst.Status.{ok}
use database_management_syst.Sort.Drain.{
  Stepped, with_remains, sorted_lists, drain, next-Stepped, drain-IsSorted,
}

abbrev float_sign : List ℕ → List ℕ → Sign
float_sign a b = null

abbrev run : List (List ℕ) → Run Rows
run records = record {
  name = [];
  in_file = record { passed = []; current = none; ahead = records };
  valid = false;
  rec = [];
  rid = null_rid;
  mark = none;
}

abbrev runs : List (Run Rows)
runs = run ((7 ∷ 1 ∷ []) ∷ (5 ∷ 4 ∷ []) ∷ []) ∷ run ((9 ∷ 1 ∷ []) ∷ (6 ∷ 2 ∷ []) ∷ []) ∷ []

abbrev behind : List ℕ → List ℕ → Bool
behind = is_behind float_sign (string_key float_sign 1 1)

next-Stepped_example : Stepped (is_behind float_sign (string_key float_sign 1 1)) (remains runs) (
    with_remains
      (next list_cursor (is_behind float_sign (string_key float_sign 1 1)) (sorted_lists runs)))
next-Stepped_example =
    next-Stepped (is_behind float_sign (string_key float_sign 1 1))
      (is_behind-IsOrder float_sign 1 1) runs

drain-IsSorted_example :
    (out : List (List ℕ)) × (drain
        (is_behind float_sign (string_key float_sign 1 1))
        5
        (sorted_lists runs)
      ≡ some out)
    × IsSorted (is_behind float_sign (string_key float_sign 1 1)) out
    × Perm (flatten (remains runs)) out
unfolding is_behind reccmp memcmp slice remaining flatten
drain-IsSorted_example =
    drain-IsSorted (is_behind float_sign (string_key float_sign 1 1))
      (is_behind-IsOrder float_sign 1 1) 5 runs
      (((refl, tt), (tt, tt)), (((refl, tt), (tt, tt)), tt)) (omega arith)

abbrev key : Key
key = record { offset = 1; len = 1; type = string }

abbrev records : List (List ℕ)
records = (9 ∷ 1 ∷ []) ∷ (5 ∷ 4 ∷ []) ∷ (6 ∷ 2 ∷ []) ∷ []

fill_buffer-take_example : fill_buffer row_cursor key 2 (at [] none records) ≡ (
  ok (some (take 2 (sort_recs key (leave_current (at [] none [])) records))),
  after_calls 2 [] none records,
)
fill_buffer-take_example = fill_buffer-take key 2 [] none records
