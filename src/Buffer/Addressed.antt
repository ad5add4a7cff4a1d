-- ===== src/Buffer/Addressed.antt =====
-- When allocBuf does nothing that is undefined with the frame that it takes.
use database_management_syst.Common.{
  ℕ, zero, suc, ◌≡◌, ◌≢◌, sym, ◌∙◌, true, arith, ==_iff, page_key,
}
use mathlib.Core.Bool.{false≢true}
use database_management_syst.Status.{undefined}
use database_management_syst.Platform.{Platform}
use database_management_syst.System.{Sys}
use database_management_syst.BufHash
use database_management_syst.FileIo.{write_page, int_write}
use database_management_syst.Buffer.Clock.{Kept, resume_cases}
use database_management_syst.Buffer.{
  evicted, Sweep, advance_clock, drop_entry, visit_frame, sweep, write_back, take_frame,
}

module _ {P : Platform} where
  -- Nothing that allocBuf does with the frame is undefined: the index of the page that a valid frame
  -- holds lies in the array, and the file of a changed frame is not NULL.
  abbrev pub IsAddressed : Sys P → ℕ → Type 0
  IsAddressed s i =
      ((s.desc i).valid ≡ true
        → BufHash.in_array s.ht_size ((s.desc i).file, (s.desc i).page_no) ≡ true)
      × ((s.desc i).dirty ≡ true → (s.desc i).file ≢ 0)

  pub Addressed-Kept : (s t : Sys P) (i : ℕ) → Kept s t → IsAddressed s i → IsAddressed t i
  Addressed-Kept s t i k (listed, opened) = (
    λ held. rw (k.ht_size, k.file i, k.page_no i) (listed (sym (k.valid i) ∙ held)),
    λ changed. rw (k.file i) (opened (sym (k.dirty i) ∙ changed)),
  )

  pub take_frame-defined :
      (w : Sweep) (t : Sys P)
      → (w.found ≡ true → (t.desc t.clock_hand).valid ≡ true)
      → IsAddressed t t.clock_hand
      → (take_frame w t).0 ≢ undefined
  unfolding take_frame write_back write_page int_write
  take_frame-defined w t held (listed, opened) = ground (arith, ==_iff (t.desc t.clock_hand).file 0)

  visit_frame-evicted_valid :
      (s : Sys P)
      → (visit_frame s).0 ≡ evicted
      → ((visit_frame s).1.desc (visit_frame s).1.clock_hand).valid ≡ true
  unfolding visit_frame drop_entry
  visit_frame-evicted_valid s e = ground arith

  -- The loop says `found` at a valid frame only.
  pub sweep-found_valid :
      (k : ℕ) (s : Sys P)
      → (sweep k s).0.found ≡ true
      → ((sweep k s).1.desc (sweep k s).1.clock_hand).valid ≡ true
  unfolding sweep
  sweep-found_valid zero s e = absurd (false≢true e)
  sweep-found_valid (suc k) s found =
      let (v, t) = visit_frame (advance_clock s) in
      resume_cases (λ r. r.0.found ≡ true → (r.1.desc r.1.clock_hand).valid ≡ true) v k t
        (sweep k t) (λ _ e. absurd (false≢true e))
        (λ e _. visit_frame-evicted_valid (advance_clock s) e) (λ _. sweep-found_valid k t) found
