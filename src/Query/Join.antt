-- ===== src/Query/Join.antt =====
-- join.cpp: QU_NL_Join and QU_Join. The sort-merge join and the hash join only test their
-- parameters in the source.
--
-- The objects of QU_NL_Join stand on its stack: their destructors run at every return. A failed
-- ASSERT ends the program, which is `undefined` here.
use database_management_syst.Common.{
  ℕ, zero, suc, Option, none, some, List, [], ◌∷◌, take, drop, if◌then◌else◌, to_int32,
}
use database_management_syst.Status.{Res, ok, err, undefined, attr_type_mismatch, bad_scan_parm}
use database_management_syst.Monad.{M, ◌>>=◌, ◌>>◌, pure, fail, attempt, of_res, ignore}
use database_management_syst.Platform.{Platform}
use database_management_syst.System.{Sys}
use database_management_syst.HeapFile.{HeapFile, Session, Operator, eq, open_heap_file, unchecked}
use database_management_syst.HeapFile.Match.{Sign}
use database_management_syst.HeapFile.Scan.{close_scan}
use database_management_syst.HeapFile.Insert.{open_insert, insert_record, close_insert_file}
use database_management_syst.HeapFile.Cursor.{Cursor, heap_cursor, start, start_all}
use database_management_syst.Catalog.{AttrDesc, AttrInfo, attr_bytes, c_string}
use database_management_syst.Catalog.Attributes
use database_management_syst.Query.{
  JoinType, nl_join, sm_join, hash_join, to_datatype, turned, mismatch, project, record_length,
}

-- ASSERT(status == OK)
abbrev asserted : {S A : Type 0} → Res A × S → Res A × S
asserted (ok a, s) = (ok a, s)
asserted (err e, s) = (undefined, s)
asserted (undefined, s) = (undefined, s)

abbrev pub assert : {S A : Type 0} → M S A → M S A
assert m s = asserted (m s)

-- A call and then a destructor, whatever the status.
abbrev pub finally : {S A : Type 0} → M S A → M S (Unit {0}) → M S A
finally m destructor = do r ← attempt m; ignore destructor; of_res r

module _ {S : Type 0} (outer inner : Cursor S) (open_inner : List ℕ → M S (Unit {0}))
    (close_inner : M S (Unit {0})) (insert : List ℕ → M S (Unit {0}))
    (combine : List ℕ → List ℕ → List ℕ) where
  -- The scan of the inner relation for one outer record. Any error of scanNext ends the loop.
  unfoldable pub inner_loop : List ℕ → ℕ → M S (Option (Unit {0}))
  inner_loop outer_rec zero = pure none
  inner_loop outer_rec (suc fuel) = do
    r ← attempt inner.next
    elim r [
      | ok none ↦ pure none
      | err e ↦ pure (some tt)
      | undefined ↦ of_res undefined
      | ok (some _) ↦ do
        inner_rec ← assert inner.fetch
        assert (insert (combine outer_rec inner_rec))
        inner_loop outer_rec fuel
    ]

  -- The scan of the outer relation.
  unfoldable pub outer_loop : ℕ → ℕ → M S (Option (Unit {0}))
  outer_loop inner_fuel zero = pure none
  outer_loop inner_fuel (suc fuel) = do
    r ← attempt outer.next
    elim r [
      | ok none ↦ pure none
      | err e ↦ pure (some tt)
      | undefined ↦ of_res undefined
      | ok (some _) ↦ do
        outer_rec ← assert outer.fetch
        open_inner outer_rec
        done ← finally (inner_loop outer_rec inner_fuel) close_inner
        elim done [ none ↦ pure none | some _ ↦ outer_loop inner_fuel fuel ]
    ]

abbrev pub both : Option AttrDesc → Option (List AttrDesc) → Option (List AttrDesc)
both none ds = none
both (some d) none = none
both (some d) (some ds) = some (d ∷ ds)

abbrev pub all_found :
    Option (List AttrDesc)
    → Option AttrDesc
    → Option AttrDesc
    → Option (List AttrDesc × (AttrDesc × AttrDesc))
all_found (some ds) (some d1) (some d2) = some (ds, (d1, d2))
all_found _ _ _ = none

-- The three files of a join that are open.
pub record Joining (P : Platform) : Type 0 where
  pub result : HeapFile
  pub outer : HeapFile
  pub inner : Option HeapFile
  pub sys : Sys P

module _ {P : Platform} where
  abbrev result_done : {A : Type 0} → Joining P → Res A × Session P → Res A × Joining P
  result_done t (r, s) = (r, record t { result = s.hf; sys = s.sys })

  abbrev on_result : {A : Type 0} → M (Session P) A → M (Joining P) A
  on_result m t = result_done t (m (record { hf = t.result; sys = t.sys }))

  abbrev outer_done : {A : Type 0} → Joining P → Res A × Session P → Res A × Joining P
  outer_done t (r, s) = (r, record t { outer = s.hf; sys = s.sys })

  abbrev on_outer : {A : Type 0} → M (Session P) A → M (Joining P) A
  on_outer m t = outer_done t (m (record { hf = t.outer; sys = t.sys }))

  abbrev inner_done : {A : Type 0} → Joining P → Res A × Session P → Res A × Joining P
  inner_done t (r, s) = (r, record t { inner = some s.hf; sys = s.sys })

  abbrev on_inner : {A : Type 0} → M (Session P) A → M (Joining P) A
  on_inner m t = elim t.inner [
    | none ↦ (undefined, t)
    | some h ↦ inner_done t (m (record { hf = h; sys = t.sys }))
  ]

  abbrev inner_opened : Joining P → Res HeapFile × Sys P → Res (Unit {0}) × Joining P
  inner_opened t (ok h, sys) = (ok tt, record t { inner = some h; sys = sys })
  inner_opened t (err e, sys) = (err e, record t { sys = sys })
  inner_opened t (undefined, sys) = (undefined, record t { sys = sys })

  abbrev sys_of : {A : Type 0} → Res A × Joining P → Res A × Sys P
  sys_of (r, t) = (r, t.sys)

  module _ (float_sign : List ℕ → List ℕ → Sign) (fuel : ℕ) where
    abbrev pub outer_cursor : Cursor (Joining P)
    outer_cursor =
        let c = heap_cursor {P = P} float_sign fuel in
        record {
          next = on_outer c.next;
          fetch = on_outer c.fetch;
          delete = on_outer c.delete;
          stop = on_outer c.stop;
        }

    abbrev pub inner_cursor : Cursor (Joining P)
    inner_cursor =
        let c = heap_cursor {P = P} float_sign fuel in
        record {
          next = on_inner c.next;
          fetch = on_inner c.fetch;
          delete = on_inner c.delete;
          stop = on_inner c.stop;
        }

    -- A scan of the inner relation for the records that match the outer one. Where the constructor
    -- fails, the destructor reads what it has not set.
    unfoldable pub open_inner_scan :
        AttrDesc → AttrDesc → Operator → List ℕ → M (Joining P) (Unit {0})
    open_inner_scan d1 d2 op outer_rec = do
      λ t. inner_opened t (unchecked (open_heap_file (c_string (attr_bytes d2))) t.sys)
      r ← attempt {A = Unit {0}} (elim (to_datatype d2.attr_type) [
        | none ↦ fail bad_scan_parm
        | some type ↦ on_inner (
            start (to_int32 d2.attr_offset) (to_int32 d2.attr_len) type
              (some (drop d1.attr_offset outer_rec)) op)
      ])
      elim r [
        | ok _ ↦ pure tt
        | err e ↦ ignore (on_inner close_scan) >> fail e
        | undefined ↦ of_res undefined
      ]

    -- The struct of each attribute of the list.
    unfoldable pub look_up : AttrDesc → List AttrInfo → M (Sys P) (Option (List AttrDesc))
    look_up unset [] = pure (some [])
    look_up unset (a ∷ attrs) = do
      d ← Attributes.get_info float_sign fuel (c_string a.rel_name) (c_string a.attr_name) unset
      rest ← elim d [ none ↦ pure none | some _ ↦ look_up unset attrs ]
      pure (both d rest)

    -- The loops with the three files, the outer one first in the order in which they are closed.
    unfoldable pub run_join :
        AttrDesc → AttrDesc → List AttrDesc → Operator → M (Joining P) (Option (Unit {0}))
    run_join d1 d2 ds op =
        finally
          (finally
            (on_outer start_all
              >> outer_loop outer_cursor inner_cursor (open_inner_scan d1 d2 (turned op))
                  (on_inner close_scan) (λ rec. on_result (insert_record rec) >>= λ rid. pure tt)
                  (λ outer_rec inner_rec.
                    take (record_length ds) (project d1 ds outer_rec inner_rec))
                  fuel fuel)
            (on_outer close_scan))
          (on_result close_insert_file)

    -- `unset` is what the local structs hold at first.
    unfoldable pub nested_loops_join :
        AttrDesc
        → List ℕ
        → List AttrInfo
        → AttrInfo
        → Operator
        → AttrInfo
        → M (Sys P) (Option (Unit {0}))
    nested_loops_join unset result attrs attr1 op attr2 =
        if mismatch attr1 attr2 then fail attr_type_mismatch else do
          found ← look_up unset attrs
          found1 ←
              Attributes.get_info float_sign fuel (c_string attr1.rel_name)
                (c_string attr1.attr_name) unset
          found2 ←
              Attributes.get_info float_sign fuel (c_string attr2.rel_name)
                (c_string attr2.attr_name) unset
          elim (all_found found found1 found2) [
            | none ↦ pure none
            | some (ds, (d1, d2)) ↦ do
              result_file ← open_insert result
              outer_file ← unchecked (open_heap_file (c_string (attr_bytes d1)))
              λ s. sys_of (
                  run_join d1 d2 ds op
                    (record { result = result_file; outer = outer_file; inner = none; sys = s }))
          ]

    -- The bodies of the other two joins.
    unfoldable pub unwritten_join : AttrInfo → AttrInfo → M (Sys P) (Option (Unit {0}))
    unwritten_join attr1 attr2 =
        if mismatch attr1 attr2 then fail attr_type_mismatch else pure (some tt)

    unfoldable pub join :
        JoinType
        → AttrDesc
        → List ℕ
        → List AttrInfo
        → AttrInfo
        → Operator
        → AttrInfo
        → M (Sys P) (Option (Unit {0}))
    join nl_join unset result attrs attr1 op attr2 =
        nested_loops_join unset result attrs attr1 op attr2
    join sm_join unset result attrs attr1 op attr2 = unwritten_join attr1 attr2
    join hash_join unset result attrs attr1 eq attr2 = unwritten_join attr1 attr2
    join hash_join unset result attrs attr1 op attr2 =
        nested_loops_join unset result attrs attr1 op attr2
