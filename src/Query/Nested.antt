-- ===== src/Query/Nested.antt =====
-- The nested loops on lists of records.
use mathlib.Core.List.{append-nil, append_assoc}
use database_management_syst.Common.{
  ℕ, zero, suc, ◌<◌, ◌≤◌, ◌≡◌, refl, sym, ap, ◌∙◌, inl, inr, Bool, Bool-cases, Option, none, some,
  List, [], ◌∷◌, ◌++◌, map, length, arith,
}
use database_management_syst.Status.{Res, ok}
use database_management_syst.Monad.{M, ◌>>=◌}
use database_management_syst.HeapFile.Cursor.{Rows, leave_current}
use database_management_syst.Catalog.Loops.{at, at_end}
use database_management_syst.Query.Join.{inner_loop, outer_loop}
use database_management_syst.Query.Table.{
  Tables, tables, outer_rows, inner_rows, select, open_rows, close_rows, insert_row, joined,
}

length-select : {A : Type 0} (test : A → Bool) (xs : List A) → length (select test xs) ≤ length xs
length-select test [] = omega arith
length-select test (x ∷ xs) = elim (Bool-cases (test x)) [
  | inl h ↦ rw h (omega (arith, length-select test xs))
  | inr h ↦ rw h (omega (arith, length-select test xs))
]

module _ (matches : List ℕ → List ℕ → Bool) (combine : List ℕ → List ℕ → List ℕ) where
  -- The two loops on lists.
  abbrev pub inner_on_rows : List ℕ → ℕ → M Tables (Option (Unit {0}))
  inner_on_rows = inner_loop outer_rows inner_rows (open_rows matches) close_rows insert_row combine

  abbrev pub outer_on_rows : ℕ → ℕ → M Tables (Option (Unit {0}))
  outer_on_rows = outer_loop outer_rows inner_rows (open_rows matches) close_rows insert_row combine

  inner_loop-map :
      (rec : List ℕ) (fuel : ℕ) (o : Rows) (p : List (List ℕ)) (cur : Option (List ℕ))
      (xs table result : List (List ℕ))
      → length xs < fuel
      → inner_on_rows rec fuel (tables o (at p cur xs) table result) ≡ (
        ok (some tt),
        tables o
            (at_end (leave_current (at p cur []) ++ xs))
            table
            (result ++ map (combine rec) xs),
      )
  unfolding inner_loop ◌>>=◌
  inner_loop-map rec zero o p cur xs table result h = absurd (omega arith)
  inner_loop-map rec (suc fuel) o p cur [] table result h =
      rw (append-nil result) (rw (append-nil (leave_current (at p cur []))) refl)
  inner_loop-map rec (suc fuel) o p cur (x ∷ xs) table result h =
      let q = leave_current (at p cur []) in
      inner_loop-map rec fuel o q (some x) xs table (result ++ combine rec x ∷ []) (omega arith)
      ∙ ap (λ r. (ok (some tt), tables o (at_end (q ++ x ∷ [] ++ xs)) table r))
          (append_assoc result (combine rec x ∷ []) (map (combine rec) xs))
      ∙ ap (λ z. (ok (some tt), tables o (at_end z) table (result ++ map (combine rec) (x ∷ xs))))
          (append_assoc q (x ∷ []) xs)

  outer_loop-cons :
      (fi fo : ℕ) (p : List (List ℕ)) (cur : Option (List ℕ)) (rec : List ℕ) (os : List (List ℕ))
      (i : Rows) (table result : List (List ℕ))
      → length table < fi
      → outer_on_rows fi (suc fo) (tables (at p cur (rec ∷ os)) i table result)
        ≡ outer_on_rows fi fo (
            tables
              (at (leave_current (at p cur [])) (some rec) os)
              (at_end (select (matches rec) table))
              table
              (result ++ map (combine rec) (select (matches rec) table)))
  unfolding outer_loop ◌>>=◌
  outer_loop-cons fi fo p cur rec os i table result h =
      let xs = select (matches rec) table in
      rw
        (inner_loop-map rec fi (at (leave_current (at p cur [])) (some rec) os) [] none xs table
          result (omega (arith, length-select (matches rec) table)))
        refl

  abbrev pub shown : Res (Option (Unit {0})) × Tables → Res (Option (Unit {0})) × List (List ℕ)
  shown (r, t) = (r, t.result)

  outer_loop-nil :
      (fi fo : ℕ) (p : List (List ℕ)) (cur : Option (List ℕ)) (i : Rows)
      (table result : List (List ℕ))
      → shown (outer_on_rows fi (suc fo) (tables (at p cur []) i table result))
        ≡ (ok (some tt), result)
  unfolding outer_loop ◌>>=◌
  outer_loop-nil fi fo p cur i table result = refl

  joined-nil : (table : List (List ℕ)) → joined matches combine [] table ≡ []
  unfolding joined
  joined-nil table = refl

  joined-cons :
      (rec : List ℕ) (os table : List (List ℕ))
      → joined matches combine (rec ∷ os) table
        ≡ map (combine rec) (select (matches rec) table) ++ joined matches combine os table
  unfolding joined
  joined-cons rec os table = refl

  outer_loop-from :
      (fi fo : ℕ) (p : List (List ℕ)) (cur : Option (List ℕ)) (os : List (List ℕ)) (i : Rows)
      (table result : List (List ℕ))
      → length table < fi
      → length os < fo
      → shown (outer_on_rows fi fo (tables (at p cur os) i table result))
        ≡ (ok (some tt), result ++ joined matches combine os table)
  outer_loop-from fi zero p cur os i table result h k = absurd (omega arith)
  outer_loop-from fi (suc fo) p cur [] i table result h k =
      outer_loop-nil fi fo p cur i table result
      ∙ ap (λ r. (ok (some tt), r))
          (sym (append-nil result) ∙ ap (λ z. result ++ z) (sym (joined-nil table)))
  outer_loop-from fi (suc fo) p cur (rec ∷ os) i table result h k =
      let xs = select (matches rec) table in
      let ys = map (combine rec) xs in
      ap shown (outer_loop-cons fi fo p cur rec os i table result h)
      ∙ outer_loop-from fi fo (leave_current (at p cur [])) (some rec) os (at_end xs) table
          (result ++ ys) h (omega arith)
      ∙ ap (λ r. (ok (some tt), r))
          (append_assoc result ys (joined matches combine os table)
            ∙ ap (λ z. result ++ z) (sym (joined-cons rec os table)))

  -- The loops of QU_NL_Join on relations that are lists of records, with any filter of the inner
  -- scan and any way to combine two records, and with more fuel than records: they end with OK,
  -- and behind what the result held they have put, for each outer record in turn, its combination
  -- with each inner record that the filter lets through, in the order of the inner relation.
  pub outer_loop-joined :
      (inner_fuel outer_fuel : ℕ) (os : List (List ℕ)) (i : Rows) (table result : List (List ℕ))
      → length table < inner_fuel
      → length os < outer_fuel
      → shown (outer_on_rows inner_fuel outer_fuel (tables (at [] none os) i table result))
        ≡ (ok (some tt), result ++ joined matches combine os table)
  outer_loop-joined inner_fuel outer_fuel os i table result h k =
      outer_loop-from inner_fuel outer_fuel [] none os i table result h k
