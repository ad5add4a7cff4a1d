-- ===== src/HeapFile/Cursor.antt =====
-- How the layers above use a scan: the interface, and the two classes of scans that fill it.
--
-- The records of a list fill it too, so that a client can be stated and run without a pool.
use database_management_syst.Common.{ℕ, Option, none, some, List, [], ◌∷◌, ◌++◌, ℤ, pos, length}
use database_management_syst.Status.{Res, ok, err, undefined, file_eof}
use database_management_syst.Monad.{M, ◌>>=◌, ◌>>◌, attempt, of_res}
use database_management_syst.Platform.{Platform}
use database_management_syst.Page.{Rid}
use database_management_syst.System.{Sys}
use database_management_syst.HeapFile.{
  HeapFile, Session, Datatype, string, Operator, eq, open_heap_file,
}
use database_management_syst.HeapFile.Match.{Sign, start_scan}
use database_management_syst.HeapFile.Scan.{scan_next, get_cur_record, delete_cur_record, end_scan}
use database_management_syst.HeapFile.Insert.{open_insert, insert_record, close_insert_file}

-- A scan that has been started: scanNext, getRecord, deleteRecord and endScan. The result `none` of
-- `next` says that the loops inside ran out of fuel.
pub record Cursor (S : Type 0) : Type 0 where
  pub next : M S (Option Rid)
  pub fetch : M S (List ℕ)
  pub delete : M S (Unit {0})
  pub stop : M S (Unit {0})

module _ {P : Platform} where
  abbrev pub heap_cursor : (List ℕ → List ℕ → Sign) → ℕ → Cursor (Session P)
  heap_cursor float_sign fuel = record {
    next = scan_next float_sign fuel;
    fetch = get_cur_record;
    delete = delete_cur_record;
    stop = end_scan;
  }

  abbrev started : Session P → Res HeapFile → Res (Unit {0}) × Session P
  started s (ok h) = (ok tt, record s { hf = h })
  started s (err e) = (err e, s)
  started s undefined = (undefined, s)

  -- startScan on the object of a session.
  unfoldable pub start : ℤ → ℤ → Datatype → Option (List ℕ) → Operator → M (Session P) (Unit {0})
  start offset len type value op s = started s (start_scan offset len type value op s.hf)

  -- startScan(0, 0, STRING, NULL, EQ)
  unfoldable pub start_all : M (Session P) (Unit {0})
  start_all = start (pos 0) (pos 0) string none eq

  abbrev pub leave : {A : Type 0} → Res A × Session P → Res A × Sys P
  leave (r, s) = (r, s.sys)

  -- `new HeapFileScan` and a use of it. The objects are given to `free` or to nobody: their
  -- destructor does not run.
  unfoldable pub use_scan : {A : Type 0} → M (Sys P) HeapFile → M (Session P) A → M (Sys P) A
  use_scan opened body = do h ← opened; λ s. leave (body (record { hf = h; sys = s }))

  abbrev pub with_scan : {A : Type 0} → List ℕ → M (Session P) A → M (Sys P) A
  with_scan name = use_scan (open_heap_file name)

  -- `new InsertFileScan`, one insertRecord, and `delete`.
  unfoldable pub insert_into : List ℕ → List ℕ → M (Sys P) Rid
  insert_into name rec = do
    h ← open_insert name
    λ s. leave (
        (do r ← attempt (insert_record rec); close_insert_file; of_res r)
          (record { hf = h; sys = s }))

-- A list of records under a scan: those behind it, the current one, and those ahead.
pub record Rows : Type 0 where
  pub passed : List (List ℕ)
  pub current : Option (List ℕ)
  pub ahead : List (List ℕ)

abbrev pub leave_current : Rows → List (List ℕ)
leave_current r = elim r.current [ none ↦ r.passed | some x ↦ r.passed ++ x ∷ [] ]

-- All records that are left.
abbrev pub rows : Rows → List (List ℕ)
rows r = leave_current r ++ r.ahead

-- The number of a record in the list is its slot on page 0.
abbrev pub row_rid : Rows → Rid
row_rid r = record { page_no = pos 0; slot_no = pos (length (leave_current r)) }

abbrev row_next : Rows → List (List ℕ) → Res (Option Rid) × Rows
row_next r [] = (err file_eof, record { passed = leave_current r; current = none; ahead = [] })
row_next r (x ∷ xs) =
    (ok (some (row_rid r)), record { passed = leave_current r; current = some x; ahead = xs })

abbrev row_fetch : Option (List ℕ) → Res (List ℕ)
row_fetch none = undefined
row_fetch (some x) = ok x

abbrev pub row_cursor : Cursor Rows
row_cursor = record {
  next = λ r. row_next r r.ahead;
  fetch = λ r. (row_fetch r.current, r);
  delete = λ r. (ok tt, record r { current = none });
  stop = λ r. (ok tt, r);
}
