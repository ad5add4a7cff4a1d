-- ===== src/Sort/Filled.antt =====
-- The inner loop of sortFile on a list of records.
use database_management_syst.Common.{
  ℕ, zero, suc, ◌≡◌, refl, Option, some, List, [], ◌∷◌, ◌++◌, length, take, pos,
}
use database_management_syst.Status.{ok}
use database_management_syst.Monad.{◌>>=◌}
use database_management_syst.HeapFile.Match.{slice}
use database_management_syst.HeapFile.Cursor.{Rows, row_cursor, leave_current}
use database_management_syst.Catalog.Loops.{at, at_end}
use database_management_syst.Sort.{SortRec, Key}
use database_management_syst.Sort.Build.{fill_buffer}

-- The sort records of the records behind those of the first list: where each stands, and the bytes
-- of its attribute.
abbrev pub sort_recs : Key → List (List ℕ) → List (List ℕ) → List SortRec
sort_recs key passed [] = []
sort_recs key passed (x ∷ xs) =
    record {
      rid = record { page_no = pos 0; slot_no = pos (length passed) };
      field = slice x key.offset key.len;
      length = key.len;
    }
    ∷ sort_recs key (passed ++ x ∷ []) xs

-- A scan that has made k calls of scanNext, or fewer and the one that has found the end.
abbrev pub after_calls : ℕ → List (List ℕ) → Option (List ℕ) → List (List ℕ) → Rows
after_calls zero p cur xs = at p cur xs
after_calls (suc k) p cur [] = at_end (leave_current (at p cur []))
after_calls (suc k) p cur (x ∷ xs) = after_calls k (leave_current (at p cur [])) (some x) xs

-- sortFile's inner loop with k places in the buffer, on a scan of a list of records wherever it
-- stands: it ends with OK, the buffer has the sort records of the next k records, or of those that
-- are left, with their places in the list and the bytes of the attribute, in the order of the list,
-- and the scan stands behind them.
pub fill_buffer-take :
    (key : Key) (k : ℕ) (p : List (List ℕ)) (cur : Option (List ℕ)) (xs : List (List ℕ))
    → fill_buffer row_cursor key k (at p cur xs) ≡ (
      ok (some (take k (sort_recs key (leave_current (at p cur [])) xs))),
      after_calls k p cur xs,
    )
unfolding fill_buffer ◌>>=◌
fill_buffer-take key zero p cur xs = refl
fill_buffer-take key (suc k) p cur [] = refl
fill_buffer-take key (suc k) p cur (x ∷ xs) =
    rw (fill_buffer-take key k (leave_current (at p cur [])) (some x) xs) refl
