-- ===== src/Sort/Merge.antt =====
-- sort.cpp: next, setMark, gotoMark, on any kind of scan.
use database_management_syst.Common.{
  ℕ, zero, suc, Bool, true, false, Option, none, some, List, [], ◌∷◌, if◌then◌else◌, pos, minus_one,
  ltb_ℤ,
}
use database_management_syst.Status.{Res, ok, err, undefined, file_eof}
use database_management_syst.Monad.{M}
use database_management_syst.Platform.{Platform}
use database_management_syst.Page.{Rid}
use database_management_syst.System.{Sys}
use database_management_syst.HeapFile.{HeapFile, Session}
use database_management_syst.HeapFile.Match.{Sign}
use database_management_syst.HeapFile.Cursor.{Cursor, heap_cursor, Rows, row_cursor}
use database_management_syst.Catalog.{is_eof}
use database_management_syst.Sort.{Key, Run, Sorted, is_behind}

abbrev pub at_end : Rid → Bool
at_end rid = ltb_ℤ rid.page_no (pos 0)

-- The record of the run that is the smallest so far, with the number of the run.
abbrev pub Best : Type 0
Best = Option (ℕ × List ℕ)

-- The run's record takes the place of the smallest one so far.
abbrev pub challenge : Bool → ℕ → List ℕ → ℕ × List ℕ → Best
challenge true i rec b = some (i, rec)
challenge false i rec b = some b

abbrev pub against : (List ℕ → List ℕ → Bool) → ℕ → List ℕ → Best → Best
against behind i rec none = some (i, rec)
against behind i rec (some b) = challenge (behind b.1 rec) i rec b

abbrev pub smallest : {F : Type 0} → (List ℕ → List ℕ → Bool) → ℕ → Run F → Best → Best
smallest behind i run best = if at_end run.rid then best else against behind i run.rec best

-- `smallest->valid = false`
abbrev pub invalidate : {F : Type 0} → ℕ → List (Run F) → List (Run F)
invalidate i [] = []
invalidate zero (r ∷ rs) = record r { valid = false } ∷ rs
invalidate (suc i) (r ∷ rs) = r ∷ invalidate i rs

module _ {F G : Type 0} (c : Cursor (F × G)) where
  abbrev loaded : Run F → Res (List ℕ) × (F × G) → Res (Option (Unit {0})) × (Run F × G)
  loaded run (ok rec, (f, g)) =
      (ok (some tt), (record run { in_file = f; rec = rec; valid = true }, g))
  loaded run (err e, (f, g)) = (err e, (record run { in_file = f }, g))
  loaded run (undefined, (f, g)) = (undefined, (record run { in_file = f }, g))

  abbrev pub behind_end : Run F → Run F
  behind_end run = record run { rid = record run.rid { page_no = minus_one }; valid = true }

  abbrev advanced : Run F → Res (Option Rid) × (F × G) → Res (Option (Unit {0})) × (Run F × G)
  advanced run (ok (some rid), s) = loaded (record run { rid = rid }) (c.fetch s)
  advanced run (ok none, (f, g)) = (ok none, (record run { in_file = f }, g))
  advanced run (err e, (f, g)) =
      let run' = record run { in_file = f } in
      if is_eof e then (ok (some tt), (behind_end run', g)) else (err e, (run', g))
  advanced run (undefined, (f, g)) = (undefined, (record run { in_file = f }, g))

  -- The next record of a run is fetched if it is not in memory.
  unfoldable pub refresh : M (Run F × G) (Option (Unit {0}))
  refresh (run, g) =
      if run.valid then (ok (some tt), (run, g)) else advanced run (c.next (run.in_file, g))

  abbrev pub kept :
      {A : Type 0}
      → Run F
      → Res (Option A) × (List (Run F) × G)
      → Res (Option A) × (List (Run F) × G)
  kept run (r, (runs, g)) = (r, (run ∷ runs, g))

  -- The loops over the runs stop at a run that fails.
  abbrev pub go_on :
      {A : Type 0}
      → (Run F → G → Res (Option A) × (List (Run F) × G))
      → List (Run F)
      → Res (Option (Unit {0})) × (Run F × G)
      → Res (Option A) × (List (Run F) × G)
  go_on k runs (ok (some _), (run, g)) = k run g
  go_on k runs (ok none, (run, g)) = (ok none, (run ∷ runs, g))
  go_on k runs (err e, (run, g)) = (err e, (run ∷ runs, g))
  go_on k runs (undefined, (run, g)) = (undefined, (run ∷ runs, g))

  module _ (behind : List ℕ → List ℕ → Bool) where
    -- The loop of next.
    unfoldable pub find_smallest :
        ℕ → Best → List (Run F) → G → Res (Option Best) × (List (Run F) × G)
    find_smallest i best [] g = (ok (some best), ([], g))
    find_smallest i best (run ∷ runs) g =
        go_on (λ run' g'. kept run' (find_smallest (suc i) (smallest behind i run' best) runs g'))
          runs (refresh (run, g))

    -- The record is given to the caller, and its run must fetch the next one.
    abbrev pub given : Res (Option Best) × (List (Run F) × G) → Res (Option (List ℕ)) × Sorted F G
    given (ok none, (runs, g)) = (ok none, record { runs = runs; shared = g })
    given (ok (some none), (runs, g)) = (err file_eof, record { runs = runs; shared = g })
    given (ok (some (some b)), (runs, g)) =
        (ok (some b.1), record { runs = invalidate b.0 runs; shared = g })
    given (err e, (runs, g)) = (err e, record { runs = runs; shared = g })
    given (undefined, (runs, g)) = (undefined, record { runs = runs; shared = g })

    -- No run at all gives no smallest one, and the same status.
    unfoldable pub next : M (Sorted F G) (Option (List ℕ))
    next s = elim s.runs [
      | [] ↦ (err file_eof, s)
      | run ∷ runs ↦ given (find_smallest 0 none (run ∷ runs) s.shared)
    ]

  -- setMark, with what markScan does to a scan.
  unfoldable pub set_mark : (F → F) → List (Run F) → List (Run F)
  set_mark mark_of [] = []
  set_mark mark_of (run ∷ runs) =
      record run { in_file = mark_of run.in_file; mark = some run.rid } ∷ set_mark mark_of runs

  abbrev reset_to : Rid → Run F → Res (Unit {0}) × (F × G) → Res (Option (Unit {0})) × (Run F × G)
  reset_to mark run (ok _, (f, g)) =
      let run' = record run { in_file = f; rid = mark } in
      if at_end mark
      then (ok (some tt), (record run' { valid = true }, g))
      else loaded run' (c.fetch (f, g))
  reset_to mark run (err e, (f, g)) = (err e, (record run { in_file = f }, g))
  reset_to mark run (undefined, (f, g)) = (undefined, (record run { in_file = f }, g))

  -- The body of gotoMark's loop, with resetScan. A mark that has not been set is read all the same.
  unfoldable pub goto_run : M (F × G) (Unit {0}) → M (Run F × G) (Option (Unit {0}))
  goto_run reset (run, g) = elim run.mark [
    | none ↦ (undefined, (run, g))
    | some mark ↦ reset_to mark run (reset (run.in_file, g))
  ]

  unfoldable pub goto_mark :
      M (F × G) (Unit {0}) → List (Run F) → G → Res (Option (Unit {0})) × (List (Run F) × G)
  goto_mark reset [] g = (ok (some tt), ([], g))
  goto_mark reset (run ∷ runs) g =
      go_on (λ run' g'. kept run' (goto_mark reset runs g')) runs (goto_run reset (run, g))

-- The scans of a pool, and lists of records.
module _ {P : Platform} where
  abbrev unpaired : {A : Type 0} → Res A × Session P → Res A × (HeapFile × Sys P)
  unpaired (r, s) = (r, (s.hf, s.sys))

  abbrev pub on_pair : {A : Type 0} → M (Session P) A → M (HeapFile × Sys P) A
  on_pair m (h, s) = unpaired (m (record { hf = h; sys = s }))

  abbrev pub file_cursor : (List ℕ → List ℕ → Sign) → ℕ → Cursor (HeapFile × Sys P)
  file_cursor float_sign fuel =
      let c = heap_cursor {P = P} float_sign fuel in
      record {
        next = on_pair c.next;
        fetch = on_pair c.fetch;
        delete = on_pair c.delete;
        stop = on_pair c.stop;
      }

  abbrev pub next_of_file :
      (List ℕ → List ℕ → Sign) → ℕ → Key → M (Sorted HeapFile (Sys P)) (Option (List ℕ))
  next_of_file float_sign fuel key = next (file_cursor float_sign fuel) (is_behind float_sign key)

abbrev with_unit : {A : Type 0} → Res A × Rows → Res A × (Rows × Unit {0})
with_unit (r, s) = (r, (s, tt))

abbrev pub list_cursor : Cursor (Rows × Unit {0})
list_cursor = record {
  next = λ s. with_unit (row_cursor.next s.0);
  fetch = λ s. with_unit (row_cursor.fetch s.0);
  delete = λ s. with_unit (row_cursor.delete s.0);
  stop = λ s. with_unit (row_cursor.stop s.0);
}
