-- ===== src/Sort/Build.antt =====
-- sort.cpp: the constructor, sortFile, generateRun, startScans and the destructor.
--
-- qsort is a parameter, with the comparison function as its argument. `new` always gives memory.
use mathlib.Core.List.{reverse}
use database_management_syst.Common.{
  ℕ, zero, suc, ◌+◌, ◌/◌, ◌%◌, false, not, ◌||◌, Option, none, some, List, [], ◌∷◌, ◌++◌,
  if◌then◌else◌, ◌==◌, ltb, length, ℤ, pos, negsuc,
}
use database_management_syst.Status.{Res, ok, err, undefined, bad_sort_parm, insuf_mem}
use database_management_syst.Monad.{M, ◌>>=◌, ◌>>◌, pure, fail, attempt, of_res, ignore}
use database_management_syst.Platform.{Platform}
use database_management_syst.Page.{Rid, null_rid}
use database_management_syst.System.{Sys}
use database_management_syst.Db.{create_file, destroy_file}
use database_management_syst.HeapFile.{
  HeapFile, Session, Datatype, open_heap_file, close_heap_file, get_record,
}
use database_management_syst.HeapFile.Match.{Sign, slice, size_fits}
use database_management_syst.HeapFile.Insert.{open_insert, insert_record, close_insert_file}
use database_management_syst.HeapFile.Scan.{close_scan}
use database_management_syst.HeapFile.Cursor.{Cursor, heap_cursor, start_all}
use database_management_syst.Catalog.{is_eof}
use database_management_syst.Sort.{SortRec, Key, Run, field_cmp}

abbrev prepend : SortRec → Option (List SortRec) → Option (List SortRec)
prepend item none = none
prepend item (some items) = some (item ∷ items)

module _ {S : Type 0} (c : Cursor S) (key : Key) where
  abbrev pub item_of : Rid → List ℕ → SortRec
  item_of rid rec = record { rid = rid; field = slice rec key.offset key.len; length = key.len }

  -- The inner loop of sortFile, with `left` places in the buffer.
  unfoldable pub fill_buffer : ℕ → M S (Option (List SortRec))
  fill_buffer zero = pure (some [])
  fill_buffer (suc left) = do
    r ← attempt c.next
    elim r [
      | ok none ↦ pure none
      | undefined ↦ of_res undefined
      | err e ↦ if is_eof e then pure (some []) else fail e
      | ok (some rid) ↦ do
        rec ← c.fetch
        items ← fill_buffer left
        pure (prepend (item_of rid rec) items)
    ]

  -- The outer loop, which ends after a pass that has read nothing.
  unfoldable pub make_runs : ℕ → (List SortRec → M S (Unit {0})) → ℕ → M S (Option (Unit {0}))
  make_runs max_items generate zero = pure none
  make_runs max_items generate (suc fuel) = do
    filled ← fill_buffer max_items
    elim filled [
      | none ↦ pure none
      | some items ↦ elim items [
        | [] ↦ pure (some tt)
        | item ∷ more ↦ do generate (item ∷ more); make_runs max_items generate fuel
      ]
    ]

-- A number in decimal digits, with fuel for them.
unfoldable pub digits : ℕ → ℕ → List ℕ
digits zero n = []
digits (suc fuel) n =
    let front = digits fuel (n / 10) in
    if ltb n 10 then (48 + n) ∷ [] else front ++ (48 + n % 10) ∷ []

-- `fileName << ".sort." << number << ends`, where `ends` is a 0.
unfoldable pub run_name : List ℕ → ℕ → List ℕ
run_name file_name number =
    file_name ++ (46 ∷ 115 ∷ 111 ∷ 114 ∷ 116 ∷ 46 ∷ []) ++ digits (suc number) number ++ 0 ∷ []

-- The file that is read and the file that is written.
pub record Copying (P : Platform) : Type 0 where
  pub source : HeapFile
  pub target : HeapFile
  pub sys : Sys P

-- The names of the runs, the last one first, and the scan of the source file.
pub record Building (P : Platform) : Type 0 where
  pub names : List (List ℕ)
  pub scan : Session P

module _ {P : Platform} where
  abbrev on_source_done : {A : Type 0} → Copying P → Res A × Session P → Res A × Copying P
  on_source_done t (r, s) = (r, record { source = s.hf; target = t.target; sys = s.sys })

  abbrev pub on_source : {A : Type 0} → M (Session P) A → M (Copying P) A
  on_source m t = on_source_done t (m (record { hf = t.source; sys = t.sys }))

  abbrev on_target_done : {A : Type 0} → Copying P → Res A × Session P → Res A × Copying P
  on_target_done t (r, s) = (r, record { source = t.source; target = s.hf; sys = s.sys })

  abbrev pub on_target : {A : Type 0} → M (Session P) A → M (Copying P) A
  on_target m t = on_target_done t (m (record { hf = t.target; sys = t.sys }))

  -- The records of the buffer go to the new file in the order of the buffer.
  unfoldable pub copy_items : List SortRec → M (Copying P) (Unit {0})
  copy_items [] = pure tt
  copy_items (item ∷ items) = do
    rec ← on_source (get_record item.rid)
    new_rid ← on_target (insert_record rec)
    copy_items items

  abbrev sys_of : {A : Type 0} → Res A × Copying P → Res A × Sys P
  sys_of (r, t) = (r, t.sys)

  -- generateRun behind qsort and the naming of the run. The constructor of InsertFileScan does not
  -- create the file: it opens it.
  unfoldable pub write_run : List ℕ → List ℕ → List SortRec → M (Sys P) (Unit {0})
  write_run file_name name items = do
    create_file name
    destroy_file name
    target ← open_insert name
    source ← open_heap_file file_name
    λ s. sys_of (
        (copy_items items >> on_target close_insert_file >> on_source close_heap_file)
          (record { source = source; target = target; sys = s }))

  abbrev scan_kept : Building P → Res (Unit {0}) × Sys P → Res (Unit {0}) × Building P
  scan_kept t (r, s) = (r, record t { scan = record t.scan { sys = s } })

  abbrev scan_of : Res (Unit {0}) × Session P → Res HeapFile × Sys P
  scan_of (ok _, s) = (ok s.hf, s.sys)
  scan_of (err e, s) = (err e, s.sys)
  scan_of (undefined, s) = (undefined, s.sys)

  -- startScans: the runs, in their order.
  unfoldable pub start_scans : List (List ℕ) → M (Sys P) (List (Run HeapFile))
  start_scans [] = pure []
  start_scans (name ∷ names) = do
    h ← open_heap_file name
    f ← (λ s. scan_of (start_all (record { hf = h; sys = s })))
    runs ← start_scans names
    pure (
        record { name = name; in_file = f; valid = false; rec = []; rid = null_rid; mark = none }
        ∷ runs)

  abbrev on_scan_done : {A : Type 0} → Building P → Res A × Session P → Res A × Building P
  on_scan_done t (r, s) = (r, record t { scan = s })

  abbrev pub on_scan : {A : Type 0} → M (Session P) A → M (Building P) A
  on_scan m t = on_scan_done t (m t.scan)

  abbrev names_of : Res (Option (Unit {0})) × Building P → Res (Option (List (List ℕ))) × Sys P
  names_of (ok (some _), t) = (ok (some (reverse t.names)), t.scan.sys)
  names_of (ok none, t) = (ok none, t.scan.sys)
  names_of (err e, t) = (err e, t.scan.sys)
  names_of (undefined, t) = (undefined, t.scan.sys)

  module _ (qsort : (SortRec → SortRec → Sign) → List SortRec → List SortRec)
      (float_sign : List ℕ → List ℕ → Sign) (key : Key) (file_name : List ℕ) where
    -- The run is entered before it is written.
    unfoldable pub generate_run : List SortRec → M (Building P) (Unit {0})
    generate_run items t =
        let name = run_name file_name (suc (length t.names)) in
        scan_kept (record t { names = name ∷ t.names })
          (write_run file_name name (qsort (field_cmp float_sign key.type) items) t.scan.sys)

    abbrev scan_cursor : ℕ → Cursor (Building P)
    scan_cursor fuel =
        let c = heap_cursor {P = P} float_sign fuel in
        record {
          next = on_scan c.next;
          fetch = on_scan c.fetch;
          delete = on_scan c.delete;
          stop = on_scan c.stop;
        }

    -- The runs of the file. After an error the scan of the file is not closed.
    unfoldable pub sort_file : ℕ → ℕ → M (Sys P) (Option (List (Run HeapFile)))
    sort_file fuel max_items = do
      h ← open_heap_file file_name
      made ← (λ s. names_of (
          (do
            on_scan start_all
            done ← make_runs (scan_cursor fuel) key max_items generate_run fuel
            on_scan close_scan
            pure done)
            (record { names = []; scan = record { hf = h; sys = s } })))
      elim made [ none ↦ pure none | some names ↦ start_scans names >>= λ runs. pure (some runs) ]

  -- The constructor.
  unfoldable pub construct :
      ((SortRec → SortRec → Sign) → List SortRec → List SortRec)
      → (List ℕ → List ℕ → Sign)
      → ℕ
      → List ℕ
      → ℤ
      → ℤ
      → Datatype
      → ℤ
      → M (Sys P) (Option (List (Run HeapFile)))
  construct qsort float_sign fuel file_name (negsuc o) len type max_items = fail bad_sort_parm
  construct qsort float_sign fuel file_name (pos o) (negsuc l) type max_items = fail bad_sort_parm
  construct qsort float_sign fuel file_name (pos o) (pos l) type (negsuc m) =
      if l == 0 || not (size_fits type l) then fail bad_sort_parm else fail insuf_mem
  construct qsort float_sign fuel file_name (pos o) (pos l) type (pos m) =
      if l == 0 || not (size_fits type l)
      then fail bad_sort_parm
      else if ltb m 2
      then fail insuf_mem
      else sort_file qsort float_sign (record { offset = o; len = l; type = type }) file_name fuel m

  abbrev forgotten : Res (Unit {0}) × Session P → Sys P
  forgotten (r, s) = s.sys

  -- The destructor: every scan is closed and its file removed, whatever the status.
  unfoldable pub close : List (Run HeapFile) → M (Sys P) (Unit {0})
  close [] s = (ok tt, s)
  close (run ∷ runs) s =
      let closed = forgotten (close_scan (record { hf = run.in_file; sys = s })) in
      (ignore (destroy_file run.name) >> close runs) closed
