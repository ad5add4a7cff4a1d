-- ===== src/Sort/Drain.antt =====
-- next on runs that are lists of records: one call, and all calls until FILEEOF.
use mathlib.Core.List.{Perm, flatten}
use database_management_syst.Common.{
  ℕ, zero, suc, ◌+◌, ◌<◌, ◌≡◌, refl, ap, inl, inr, Bool, Option, none, some, List, [], ◌∷◌, map,
  length, length-append, if◌then◌else◌, arith,
}
use database_management_syst.Status.{Res, ok, err, undefined, file_eof}
use database_management_syst.HeapFile.Cursor.{Rows}
use database_management_syst.Catalog.{is_eof}
use database_management_syst.Sort.{Run, Sorted}
use database_management_syst.Sort.Merge.{Best, next, given, list_cursor}
use database_management_syst.Sort.Least.{
  IsOrder, IsSorted, AllSorted, AllEmpty, BelowHeads, TakeOut, Drained, Drained-Perm,
  Drained-IsSorted,
}
use database_management_syst.Sort.Pick.{champion, Chosen, champion-Chosen}
use database_management_syst.Sort.Refresh.{
  fresh, remains, remains-fresh, find_smallest-champion, remains-invalidate,
}

-- A call of next as its caller sees it: on some lists, an outcome and the lists that are left.
pub data Stepped (behind : List ℕ → List ℕ → Bool) (ls : List (List (List ℕ)))
    : Res (Option (List ℕ)) × List (List (List ℕ)) → Type 0 where
  ended : AllEmpty ls → Stepped behind ls (err file_eof, ls)
  gave :
      {x : List ℕ} {rest : List (List (List ℕ))}
      → TakeOut x ls rest
      → BelowHeads behind x ls
      → Stepped behind ls (ok (some x), rest)

abbrev pub with_remains :
    {A : Type 0} → Res A × Sorted Rows (Unit {0}) → Res A × List (List (List ℕ))
with_remains (r, s) = (r, remains s.runs)

-- A SortedFile whose runs are lists of records.
abbrev pub sorted_lists : List (Run Rows) → Sorted Rows (Unit {0})
sorted_lists runs = record { runs = runs; shared = tt }

module _ (behind : List ℕ → List ℕ → Bool) (o : IsOrder behind) where
  Stepped-given :
      (runs : List (Run Rows)) (best : Best)
      → Chosen behind o 0 (remains runs) best
      → Stepped behind
          (remains runs)
          (with_remains (given list_cursor behind (ok (some best), (map fresh runs, tt))))
  unfolding Chosen
  Stepped-given runs best (inl (same, empty)) =
      rw same (rw (remains-fresh runs) (Stepped.ended empty))
  Stepped-given runs best (inr f) =
      let place : f.place + 0 ≡ f.place = omega arith in
      rw f.chosen
        (rw place (rw (remains-invalidate f.place runs f.at_place) (Stepped.gave f.out f.smallest)))

  next-given :
      (run : Run Rows) (runs : List (Run Rows))
      → next list_cursor behind (sorted_lists (run ∷ runs))
        ≡ given list_cursor behind (
          ok (some (champion behind 0 none (remains (run ∷ runs)))),
          (map fresh (run ∷ runs), tt),
        )
  unfolding next
  next-given run runs =
      ap (given list_cursor behind) (find_smallest-champion behind 0 none (run ∷ runs))

  next-nil : with_remains (next list_cursor behind (sorted_lists [])) ≡ (err file_eof, [])
  unfolding next
  next-nil = refl

  -- next on runs that are lists of records, with a comparison that is a strict weak order: if no
  -- run has a record left, the outcome is FILEEOF and none has one afterwards. Else it gives the
  -- first record of one of the runs, which need not come behind the first record of any run, and
  -- takes just that record away.
  pub next-Stepped :
      (runs : List (Run Rows))
      → Stepped behind (remains runs) (with_remains (next list_cursor behind (sorted_lists runs)))
  next-Stepped [] = rw next-nil (Stepped.ended tt)
  next-Stepped (run ∷ runs) =
      rw (next-given run runs)
        (Stepped-given (run ∷ runs) _ (champion-Chosen behind o 0 (remains (run ∷ runs))))

abbrev prepend : List ℕ → Option (List (List ℕ)) → Option (List (List ℕ))
prepend x none = none
prepend x (some xs) = some (x ∷ xs)

abbrev pub after :
    (Sorted Rows (Unit {0}) → Option (List (List ℕ)))
    → Res (Option (List ℕ)) × Sorted Rows (Unit {0})
    → Option (List (List ℕ))
after more (ok (some x), s) = prepend x (more s)
after more (ok none, s) = none
after more (err e, s) = if is_eof e then some [] else none
after more (undefined, s) = none

-- A caller that calls next until FILEEOF, and what it is given. It has fuel for its calls.
unfoldable pub drain :
    (List ℕ → List ℕ → Bool) → ℕ → Sorted Rows (Unit {0}) → Option (List (List ℕ))
drain behind zero s = none
drain behind (suc fuel) s = after (drain behind fuel) (next list_cursor behind s)

length-TakeOut :
    {x : List ℕ} {ls rest : List (List (List ℕ))}
    → TakeOut x ls rest
    → length (flatten ls) ≡ suc (length (flatten rest))
unfolding flatten
length-TakeOut TakeOut.first = refl
length-TakeOut (TakeOut.later {l} {ls} {rest} t) =
    omega (arith, length-TakeOut t, length-append l (flatten ls), length-append l (flatten rest))

module _ (behind : List ℕ → List ℕ → Bool) (o : IsOrder behind) where
  abbrev Drains : ℕ → List (List (List ℕ)) → Option (List (List ℕ)) → Type 0
  Drains fuel ls result = (out : List (List ℕ)) × (result ≡ some out) × Drained behind ls out

  Drains-after :
      (fuel : ℕ) (ls : List (List (List ℕ))) (step : Res (Option (List ℕ)) × Sorted Rows (Unit {0}))
      → Stepped behind ls (with_remains step)
      → length (flatten ls) < suc fuel
      → ((s : Sorted Rows (Unit {0}))
          → length (flatten (remains s.runs)) < fuel
          → Drains fuel (remains s.runs) (drain behind fuel s))
      → Drains fuel ls (after (drain behind fuel) step)
  Drains-after fuel ls (ok (some x), s) (Stepped.gave t b) h ih =
      let (out, e, d) = ih s (omega (arith, length-TakeOut t, h)) in
      (x ∷ out, ap (prepend x) e, Drained.taken t b d)
  Drains-after fuel ls (ok none, s) st h ih = elim st [ ]
  Drains-after fuel ls (undefined, s) st h ih = elim st [ ]
  Drains-after fuel ls (err e, s) (Stepped.ended empty) h ih = ([], refl, Drained.finished empty)

  drain-Drains :
      (fuel : ℕ) (s : Sorted Rows (Unit {0}))
      → length (flatten (remains s.runs)) < fuel
      → Drains fuel (remains s.runs) (drain behind fuel s)
  unfolding drain
  drain-Drains zero s h = absurd (omega arith)
  drain-Drains (suc fuel) s h =
      Drains-after fuel (remains s.runs) (next list_cursor behind s) (next-Stepped behind o s.runs)
        h (drain-Drains fuel)

  -- All calls of next on runs that are lists of records, each in order, with a comparison that is a
  -- strict weak order, and with more calls allowed than there are records: FILEEOF comes, and the
  -- records that were given are in order and are all records of the runs.
  pub drain-IsSorted :
      (fuel : ℕ) (runs : List (Run Rows))
      → AllSorted behind (remains runs)
      → length (flatten (remains runs)) < fuel
      → (out : List (List ℕ)) × (drain behind fuel (sorted_lists runs) ≡ some out)
        × IsSorted behind out
        × Perm (flatten (remains runs)) out
  drain-IsSorted fuel runs sorted h =
      let (out, e, d) = drain-Drains fuel (sorted_lists runs) h in
      (out, e, Drained-IsSorted behind o d sorted, Drained-Perm behind d)
