-- ===== src/Query/Table.antt =====
-- The relations of a join as lists of records.
use database_management_syst.Common.{ℕ, Bool, none, List, [], ◌∷◌, ◌++◌, map, if◌then◌else◌}
use database_management_syst.Status.{Res, ok}
use database_management_syst.Monad.{M}
use database_management_syst.HeapFile.Cursor.{Cursor, Rows, row_cursor}
use database_management_syst.Catalog.Loops.{at}

-- A scan of the outer relation, one of the inner relation, the inner relation, and the result.
pub record Tables : Type 0 where
  pub outer : Rows
  pub inner : Rows
  pub table : List (List ℕ)
  pub result : List (List ℕ)

abbrev pub tables : Rows → Rows → List (List ℕ) → List (List ℕ) → Tables
tables o i table result = record { outer = o; inner = i; table = table; result = result }

abbrev outer_moved : {A : Type 0} → Tables → Res A × Rows → Res A × Tables
outer_moved t (r, o) = (r, record t { outer = o })

abbrev pub outer_rows : Cursor Tables
outer_rows = record {
  next = λ t. outer_moved t (row_cursor.next t.outer);
  fetch = λ t. outer_moved t (row_cursor.fetch t.outer);
  delete = λ t. outer_moved t (row_cursor.delete t.outer);
  stop = λ t. outer_moved t (row_cursor.stop t.outer);
}

abbrev inner_moved : {A : Type 0} → Tables → Res A × Rows → Res A × Tables
inner_moved t (r, i) = (r, record t { inner = i })

abbrev pub inner_rows : Cursor Tables
inner_rows = record {
  next = λ t. inner_moved t (row_cursor.next t.inner);
  fetch = λ t. inner_moved t (row_cursor.fetch t.inner);
  delete = λ t. inner_moved t (row_cursor.delete t.inner);
  stop = λ t. inner_moved t (row_cursor.stop t.inner);
}

-- The elements that pass a test.
abbrev pub select : {A : Type 0} → (A → Bool) → List A → List A
select test [] = []
select test (x ∷ xs) = let rest = select test xs in if test x then x ∷ rest else rest

-- A filtered scan gives the records that its filter lets through.
abbrev pub open_rows : (List ℕ → List ℕ → Bool) → List ℕ → M Tables (Unit {0})
open_rows matches outer_rec t =
    (ok tt, record t { inner = at [] none (select (matches outer_rec) t.table) })

abbrev pub close_rows : M Tables (Unit {0})
close_rows t = (ok tt, t)

abbrev pub insert_row : List ℕ → M Tables (Unit {0})
insert_row rec t = (ok tt, record t { result = t.result ++ rec ∷ [] })

-- The join as it is defined: every record of the outer relation with every record of the inner
-- one that matches it.
unfoldable pub joined :
    (List ℕ → List ℕ → Bool)
    → (List ℕ → List ℕ → List ℕ)
    → List (List ℕ)
    → List (List ℕ)
    → List (List ℕ)
joined matches combine [] table = []
joined matches combine (o ∷ os) table =
    map (combine o) (select (matches o) table) ++ joined matches combine os table
