-- ===== src/Partition.antt =====
-- partition.h and partition.cpp: a heap file split into the partitions of a hash function.
pub mod Split
use database_management_syst.Common.{
  ℕ, zero, suc, ◌+◌, Bool, true, false, Option, none, some, List, [], ◌∷◌, ◌++◌, if◌then◌else◌,
  get_elem?, set, ℤ, pos,
}
use database_management_syst.Status.{Status, Res, ok, err, undefined}
use database_management_syst.Monad.{
  M, ◌>>=◌, ◌>>◌, and_then, pure, fail, attempt, caught, of_res, ignore, forget,
}
use database_management_syst.Platform.{Platform}
use database_management_syst.Page.{Rid}
use database_management_syst.System.{Sys}
use database_management_syst.Db.{destroy_file}
use database_management_syst.HeapFile.{HeapFile, Session, integer, eq}
use database_management_syst.HeapFile.Match.{Sign}
use database_management_syst.HeapFile.Scan.{end_scan}
use database_management_syst.HeapFile.Insert.{open_insert, insert_record, close_insert_file}
use database_management_syst.HeapFile.Cursor.{Cursor, heap_cursor, start}
use database_management_syst.Catalog.{is_eof}
use database_management_syst.Sort.Build.{digits}

module _ {S : Type 0} (c : Cursor S) (hashfcn : List ℕ → ℕ)
    (insert_at : ℕ → List ℕ → M S (Unit {0})) where
  -- The loop over the file: each record goes to the partition of its hash value.
  unfoldable pub split : ℕ → M S (Option (Unit {0}))
  split zero = pure none
  split (suc fuel) = do
    r ← attempt c.next
    elim r [
      | ok none ↦ pure none
      | err e ↦ if is_eof e then pure (some tt) else fail e
      | undefined ↦ of_res undefined
      | ok (some _) ↦ do rec ← c.fetch; insert_at (hashfcn rec) rec; split fuel
    ]

-- `"/tmp/" << fileName << '.' << p << ends`
unfoldable pub part_name : List ℕ → ℕ → List ℕ
part_name file_name p =
    (47 ∷ 116 ∷ 109 ∷ 112 ∷ 47 ∷ []) ++ file_name ++ 46 ∷ digits (suc p) p ++ 0 ∷ []

-- partName, with `left` names from the number `p` on.
unfoldable pub part_names : List ℕ → ℕ → ℕ → List (List ℕ)
part_names file_name p zero = []
part_names file_name p (suc left) = part_name file_name p ∷ part_names file_name (p + 1) left

-- The file that is split, and its partitions that are open.
pub record Splitting (P : Platform) : Type 0 where
  pub rel : HeapFile
  pub parts : List HeapFile
  pub sys : Sys P

module _ {P : Platform} where
  -- The constructors of InsertFileScan open the files and do not create them.
  unfoldable pub open_parts : List (List ℕ) → M (Sys P) (List HeapFile)
  open_parts [] = pure []
  open_parts (name ∷ names) = do
    part ← open_insert name
    parts ← open_parts names
    pure (part ∷ parts)

  abbrev part_done : Splitting P → ℕ → Res Rid × Session P → Res (Unit {0}) × Splitting P
  part_done t p (ok _, s) = (ok tt, record t { parts = set t.parts p s.hf; sys = s.sys })
  part_done t p (err e, s) = (err e, record t { parts = set t.parts p s.hf; sys = s.sys })
  part_done t p (undefined, s) = (undefined, record t { parts = set t.parts p s.hf; sys = s.sys })

  -- `part[p]->insertRecord(rec, rid)`
  unfoldable pub insert_part : ℕ → List ℕ → M (Splitting P) (Unit {0})
  insert_part p rec t = elim (get_elem? t.parts p) [
    | none ↦ (undefined, t)
    | some h ↦ part_done t p (insert_record rec (record { hf = h; sys = t.sys }))
  ]

  abbrev closed_sys : Res (Unit {0}) × Session P → Sys P
  closed_sys (r, s) = s.sys

  -- The destructors of the partitions' objects, whose status nobody reads.
  unfoldable pub close_parts : List HeapFile → Sys P → Sys P
  close_parts [] s = s
  close_parts (h ∷ hs) s =
      close_parts hs (closed_sys (close_insert_file (record { hf = h; sys = s })))

  abbrev rel_done : {A : Type 0} → Splitting P → Res A × Session P → Res A × Splitting P
  rel_done t (r, s) = (r, record t { rel = s.hf; sys = s.sys })

  abbrev on_rel : {A : Type 0} → M (Session P) A → M (Splitting P) A
  on_rel m t = rel_done t (m (record { hf = t.rel; sys = t.sys }))

  abbrev session_of : {A : Type 0} → Res A × Splitting P → Res A × Session P
  session_of (r, t) = (r, record { hf = t.rel; sys = t.sys })

  abbrev parts_opened :
      (List HeapFile → M (Splitting P) (Option (Unit {0})))
      → Session P
      → Res (List HeapFile) × Sys P
      → Res (Option (Unit {0})) × Session P
  parts_opened body s (ok parts, sys) =
      session_of (body parts (record { rel = s.hf; parts = parts; sys = sys }))
  parts_opened body s (err e, sys) = (err e, record s { sys = sys })
  parts_opened body s (undefined, sys) = (undefined, record s { sys = sys })

  module _ (float_sign : List ℕ → List ℕ → Sign) (fuel : ℕ) (hashfcn : List ℕ → ℕ) where
    abbrev rel_cursor : Cursor (Splitting P)
    rel_cursor =
        let c = heap_cursor {P = P} float_sign fuel in
        record {
          next = on_rel c.next;
          fetch = on_rel c.fetch;
          delete = on_rel c.delete;
          stop = on_rel c.stop;
        }

    -- The constructor behind the opening of the partitions. An error leaves them open.
    unfoldable pub split_open : List HeapFile → M (Splitting P) (Option (Unit {0}))
    split_open parts = do
      on_rel (start (pos 0) (pos 4) integer none eq)
      done ← split rel_cursor hashfcn insert_part fuel
      λ t. (ok tt, record t { parts = []; sys = close_parts t.parts t.sys })
      on_rel end_scan
      pure done

    -- The constructor, on the scan of its caller; the names are `part_names file_name 0 count`.
    unfoldable pub construct : List ℕ → ℕ → M (Session P) (Option (Unit {0}))
    construct file_name count s =
        parts_opened split_open s (open_parts (part_names file_name 0 count) s.sys)

  -- The destructor.
  unfoldable pub destroy_parts : List (List ℕ) → M (Sys P) (Unit {0})
  destroy_parts [] = pure tt
  destroy_parts (name ∷ names) = ignore (destroy_file name) >> destroy_parts names
