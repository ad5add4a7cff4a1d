-- ===== src/Sort/Refresh.antt =====
-- The runs of lists of records: what is left of them, and what the loop of next does to them.
use mathlib.Core.Path.{ap₂}
use database_management_syst.Common.{
  ℕ, zero, suc, ◌≡◌, refl, sym, ap, ◌∙◌, inl, inr, Bool, true, false, Bool-cases, none, some, List,
  [], ◌∷◌, map, minus_one, if◌then◌else◌, arith,
}
use database_management_syst.Status.{ok}
use database_management_syst.HeapFile.Cursor.{Rows, leave_current, row_rid}
use database_management_syst.Sort.{Run}
use database_management_syst.Sort.Merge.{
  Best, at_end, smallest, refresh, find_smallest, kept, list_cursor, invalidate,
}
use database_management_syst.Sort.Pick.{champion, against_head, nth, behead}

-- The records of a run that are still to be given: the one in memory and those ahead.
abbrev pub left_of : Bool → Bool → List ℕ → List (List ℕ) → List (List ℕ)
left_of true true rec ahead = []
left_of true false rec ahead = rec ∷ ahead
left_of false ended rec ahead = ahead

unfoldable pub remaining : Run Rows → List (List ℕ)
remaining run = left_of run.valid (at_end run.rid) run.rec run.in_file.ahead

-- A run after the first part of the loop's body.
abbrev fetched : Run Rows → List (List ℕ) → Run Rows
fetched run [] = record run {
  in_file = record { passed = leave_current run.in_file; current = none; ahead = [] };
  rid = record run.rid { page_no = minus_one };
  valid = true;
}
fetched run (x ∷ xs) = record run {
  in_file = record { passed = leave_current run.in_file; current = some x; ahead = xs };
  rec = x;
  rid = row_rid run.in_file;
  valid = true;
}

unfoldable pub fresh : Run Rows → Run Rows
fresh run = if run.valid then run else fetched run run.in_file.ahead

module _ (run : Run Rows) where
  fresh-valid : run.valid ≡ true → fresh run ≡ run
  unfolding fresh
  fresh-valid h = rw h refl

  fresh-invalid : run.valid ≡ false → fresh run ≡ fetched run run.in_file.ahead
  unfolding fresh
  fresh-invalid h = rw h refl

  refresh-invalid :
      (xs : List (List ℕ))
      → run.valid ≡ false
      → run.in_file.ahead ≡ xs
      → refresh list_cursor (run, tt) ≡ (ok (some tt), (fetched run xs, tt))
  unfolding refresh
  refresh-invalid [] h e = rw h (rw e refl)
  refresh-invalid (x ∷ xs) h e = rw h (rw e refl)

  refresh-valid : run.valid ≡ true → refresh list_cursor (run, tt) ≡ (ok (some tt), (run, tt))
  unfolding refresh
  refresh-valid h = rw h refl

  pub refresh-fresh : refresh list_cursor (run, tt) ≡ (ok (some tt), (fresh run, tt))
  refresh-fresh = elim (Bool-cases run.valid) [
    | inl h ↦ refresh-valid h ∙ ap (λ r. (ok (some tt), (r, tt))) (sym (fresh-valid h))
    | inr h ↦
        refresh-invalid run.in_file.ahead h refl
        ∙ ap (λ r. (ok (some tt), (r, tt))) (sym (fresh-invalid h))
  ]

  fetched-left : (xs : List (List ℕ)) → remaining (fetched run xs) ≡ xs
  unfolding remaining
  fetched-left [] = refl
  fetched-left (x ∷ xs) = refl

  remaining-invalid : run.valid ≡ false → remaining run ≡ run.in_file.ahead
  unfolding remaining
  remaining-invalid h = rw h refl

  fetched-IsValid : (xs : List (List ℕ)) → (fetched run xs).valid ≡ true
  fetched-IsValid [] = refl
  fetched-IsValid (x ∷ xs) = refl

  -- The run has the same records left, and the next one is in memory.
  remaining-fresh : remaining (fresh run) ≡ remaining run
  remaining-fresh = elim (Bool-cases run.valid) [
    | inl h ↦ ap remaining (fresh-valid h)
    | inr h ↦
        ap remaining (fresh-invalid h) ∙ fetched-left run.in_file.ahead ∙ sym (remaining-invalid h)
  ]

  fresh-IsValid : (fresh run).valid ≡ true
  fresh-IsValid = elim (Bool-cases run.valid) [
    | inl h ↦ ap (λ r. r.valid) (fresh-valid h) ∙ h
    | inr h ↦ ap (λ r. r.valid) (fresh-invalid h) ∙ fetched-IsValid run.in_file.ahead
  ]

remaining-valid :
    (run : Run Rows)
    → run.valid ≡ true
    → remaining run ≡ left_of true (at_end run.rid) run.rec run.in_file.ahead
unfolding remaining
remaining-valid run h = rw h refl

-- Once the record in memory is given away, the records ahead are left.
left_of-given :
    (ended : Bool) (rec : List ℕ) (ahead : List (List ℕ)) {x : List ℕ} {xs : List (List ℕ)}
    → left_of true ended rec ahead ≡ x ∷ xs
    → ahead ≡ xs
left_of-given true rec ahead e = absurd (ground arith)
left_of-given false rec ahead e = ground (arith, e)

pub ahead-fresh :
    (run : Run Rows) {x : List ℕ} {xs : List (List ℕ)}
    → remaining run ≡ x ∷ xs
    → (fresh run).in_file.ahead ≡ xs
ahead-fresh run e =
    left_of-given (at_end (fresh run).rid) (fresh run).rec (fresh run).in_file.ahead
      (sym (remaining-valid (fresh run) (fresh-IsValid run)) ∙ remaining-fresh run ∙ e)

module _ (behind : List ℕ → List ℕ → Bool) (i : ℕ) (best : Best) where
  smallest-left :
      (run : Run Rows) (ended : Bool)
      → at_end run.rid ≡ ended
      → smallest behind i run best
        ≡ against_head behind i best (left_of true ended run.rec run.in_file.ahead)
  smallest-left run true e = rw e refl
  smallest-left run false e = rw e refl

  smallest-fresh :
      (run : Run Rows)
      → smallest behind i (fresh run) best ≡ against_head behind i best (remaining run)
  smallest-fresh run =
      smallest-left (fresh run) (at_end (fresh run).rid) refl
      ∙ ap (against_head behind i best)
          (sym (remaining-valid (fresh run) (fresh-IsValid run)) ∙ remaining-fresh run)

abbrev pub remains : List (Run Rows) → List (List (List ℕ))
remains [] = []
remains (run ∷ runs) = remaining run ∷ remains runs

pub remains-fresh : (runs : List (Run Rows)) → remains (map fresh runs) ≡ remains runs
remains-fresh [] = refl
remains-fresh (run ∷ runs) = ap₂ ◌∷◌ (remaining-fresh run) (remains-fresh runs)

-- The loop of next chooses among the heads of what the runs have left.
pub find_smallest-champion :
    (behind : List ℕ → List ℕ → Bool) (i : ℕ) (best : Best) (runs : List (Run Rows))
    → find_smallest list_cursor behind i best runs tt
      ≡ (ok (some (champion behind i best (remains runs))), (map fresh runs, tt))
unfolding find_smallest champion
find_smallest-champion behind i best [] = refl
find_smallest-champion behind i best (run ∷ runs) = rw (refresh-fresh run) (
    rw (smallest-fresh behind i best run) (
      ap (kept list_cursor (fresh run))
        (find_smallest-champion behind (suc i) (against_head behind i best (remaining run)) runs)))

remaining-given : (run : Run Rows) → remaining (record run { valid = false }) ≡ run.in_file.ahead
unfolding remaining
remaining-given run = refl

pub remains-invalidate :
    (k : ℕ) (runs : List (Run Rows)) {x : List ℕ} {xs : List (List ℕ)}
    → nth k (remains runs) ≡ x ∷ xs
    → remains (invalidate k (map fresh runs)) ≡ behead k (remains runs)
remains-invalidate k [] e = refl
remains-invalidate zero (run ∷ runs) e =
    ap₂ ◌∷◌ (remaining-given (fresh run) ∙ ahead-fresh run e) (remains-fresh runs)
    ∙ sym (ap (λ l. behead 0 (l ∷ remains runs)) e)
remains-invalidate (suc k) (run ∷ runs) e =
    ap₂ ◌∷◌ (remaining-fresh run) (remains-invalidate k runs e)
