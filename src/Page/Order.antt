-- ===== src/Page/Order.antt =====
-- The order in which `first_record` and `next_record` visit the records of a page.
use database_management_syst.Common.{
  ℕ, zero, suc, ◌+◌, ◌≤◌, ◌<◌, ◌≡◌, refl, Option, none, some, List, [], ◌∷◌, arith, ◌⊎◌, inl, inr,
  length, ℤ, pos,
}
use database_management_syst.Status.{Status, Res, ok, err, no_records, end_of_page}
use database_management_syst.Page.{
  Page, Rid, Slot, hole, used, extent, later, find_used, rid_or, first_record, next_record,
  null_rid,
}

-- No slot from k on and below n holds a record.
abbrev pub Empty : List Slot → ℕ → ℕ → Type 0
Empty s k n = (j : ℕ) → k ≤ j → j < n → extent s j ≡ none

Empty-skip : (x : Slot) (s : List Slot) (k n : ℕ) → Empty s k n → Empty (x ∷ s) (suc k) (suc n)
unfolding extent
Empty-skip x s k n f zero h lt = absurd (omega arith)
Empty-skip hole s k n f (suc j) h lt = f j (omega arith) (omega arith)
Empty-skip (used o l) s k n f (suc j) h lt = f j (omega arith) (omega arith)

Empty-hole : (s : List Slot) (n : ℕ) → Empty s 0 n → Empty (hole ∷ s) 0 (suc n)
unfolding extent
Empty-hole s n f zero h lt = refl
Empty-hole s n f (suc j) h lt = f j (omega arith) (omega arith)

-- The outcome of a search from slot k on: the first slot with a record, or none from k on.
abbrev pub Finds : List Slot → ℕ → Option ℕ → Type 0
Finds s k none = Empty s k (length s)
Finds s k (some i) = (k ≤ i) × ((e : ℕ × ℕ) × (extent s i ≡ some e)) × Empty s k i

Finds-skip :
    (x : Slot) (s : List Slot) (k : ℕ) (r : Option ℕ)
    → Finds s k r
    → Finds (x ∷ s) (suc k) (later r)
unfolding extent
Finds-skip x s k none f = Empty-skip x s k (length s) f
Finds-skip hole s k (some i) f = (omega arith, f.1, Empty-skip hole s k i f.2)
Finds-skip (used o l) s k (some i) f = (omega arith, f.1, Empty-skip (used o l) s k i f.2)

Finds-hole : (s : List Slot) (r : Option ℕ) → Finds s 0 r → Finds (hole ∷ s) 0 (later r)
unfolding extent
Finds-hole s none f = Empty-hole s (length s) f
Finds-hole s (some i) f = (omega arith, f.1, Empty-hole s i f.2)

find_used-Finds : (s : List Slot) (k : ℕ) → Finds s k (find_used s k)
unfolding find_used extent
find_used-Finds [] k = λ j h lt. refl
find_used-Finds (hole ∷ s) (suc k) = Finds-skip hole s k (find_used s k) (find_used-Finds s k)
find_used-Finds (used o l ∷ s) (suc k) =
    Finds-skip (used o l) s k (find_used s k) (find_used-Finds s k)
find_used-Finds (used o l ∷ s) zero = (omega arith, ((o, l), refl), λ j h lt. absurd (omega arith))
find_used-Finds (hole ∷ s) zero = Finds-hole s (find_used s 0) (find_used-Finds s 0)

-- A scan step from slot k on, with the error of a page that has no record there.
abbrev pub Visits : Page → ℕ → Status → Res Rid → Type 0
Visits p k e r =
    ((i : ℕ) × (r ≡ ok (record { page_no = p.cur_page; slot_no = pos i }))
      × (k ≤ i)
      × ((x : ℕ × ℕ) × (extent p.slots i ≡ some x))
      × Empty p.slots k i)
    ⊎ ((r ≡ err e) × Empty p.slots k (length p.slots))

rid_or-Visits :
    (p : Page) (k : ℕ) (e : Status) (r : Option ℕ)
    → Finds p.slots k r
    → Visits p k e (rid_or p r (err e))
unfolding rid_or
rid_or-Visits p k e none f = inr (refl, f)
rid_or-Visits p k e (some i) f = inl (i, refl, f.0, f.1, f.2)

-- firstRecord returns the first slot in use; nextRecord returns the first slot in use behind any
-- slot, and the first of all for the null record id. What they pass are holes, and they fail, with
-- NORECORDS and ENDOFPAGE, exactly if there is no such slot.
pub scan-Visits :
    (p : Page) (page_no : ℤ) (k : ℕ)
    → Visits p 0 no_records (first_record p)
      × Visits p (k + 1) end_of_page (next_record (record { page_no = page_no; slot_no = pos k }) p)
      × Visits p 0 end_of_page (next_record null_rid p)
unfolding first_record next_record
scan-Visits p page_no k = (
  rid_or-Visits p 0 no_records _ (find_used-Finds p.slots 0),
  rid_or-Visits p (k + 1) end_of_page _ (find_used-Finds p.slots (k + 1)),
  rid_or-Visits p 0 end_of_page _ (find_used-Finds p.slots 0),
)
