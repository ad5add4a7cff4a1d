-- ===== src/Buffer/Rounds.antt =====
-- The two rounds of the clock of allocBuf: which frame it gives away, and when it finds none.
use database_management_syst.Common.{
  ℕ, ◌*◌, ◌<◌, ◌↔◌, ◌≡◌, refl, sym, ap, ◌∙◌, ◌≢◌, inl, inr, not, ◌&&◌, arith, ◌==◌, Bool-cases,
}
use database_management_syst.Monad.{and_then}
use database_management_syst.Status.{Res, ok, err, undefined, buffer_exceeded}
use database_management_syst.Platform.{Platform}
use database_management_syst.System.{Sys}
use database_management_syst.FileIo.{write_page, int_write}
use database_management_syst.Buffer.Clock.{Kept, IsIdle, sweep-Kept, sweep-Ends}
use database_management_syst.Buffer.Addressed.{
  IsAddressed, Addressed-Kept, take_frame-defined, sweep-found_valid,
}
use database_management_syst.Buffer.{Sweep, sweep, write_back, finish_alloc, take_frame, alloc_buf}
use database_management_syst.Buffer.Laps.{IsBusy, sweep-Exhausted, Lap-IsBusy, sweep-lt}

module _ {P : Platform} where
  pub take_frame-ne : (w : Sweep) (s t : Sys P) → take_frame w s ≡ (err buffer_exceeded, t) → ⊥
  unfolding take_frame write_back write_page int_write
  take_frame-ne w s t e = ground arith

  -- Every frame busy, and no others, is what makes allocBuf fail with BUFFEREXCEEDED. Otherwise
  -- it returns an idle frame, unless the write of that frame's old page fails.
  abbrev pub Allocates : Sys P → Res ℕ → Type 0
  Allocates s (ok i) = (i < s.num_bufs) × IsIdle s i
  Allocates s (err e) = (e ≡ buffer_exceeded) ↔ ((i : ℕ) → i < s.num_bufs → IsBusy s i)
  Allocates s undefined = ⊥

  take_frame-hand : (w : Sweep) (s : Sys P) → (take_frame w s).1.clock_hand ≡ s.clock_hand
  unfolding take_frame write_back write_page int_write
  take_frame-hand w s = ground arith

  Idle-back : {s t : Sys P} (i : ℕ) → Kept s t → IsIdle t i → IsIdle s i
  Idle-back i k idle = ground (arith, k.valid i, k.pin_cnt i)

  pub Idle-not_busy : (s : Sys P) (i : ℕ) → IsIdle s i → IsBusy s i → ⊥
  Idle-not_busy s i idle busy = ground arith

  -- The end of allocBuf at an idle frame.
  taken :
      (s t : Sys P) (r : Res (Unit {0}) × Sys P)
      → Kept s t
      → IsIdle t t.clock_hand
      → t.clock_hand < t.num_bufs
      → r.1.clock_hand ≡ t.clock_hand
      → ((u : Sys P) → r ≡ (err buffer_exceeded, u) → ⊥)
      → r.0 ≢ undefined
      → Allocates s (and_then (λ _ u. (ok u.clock_hand, u)) r).0
  taken s t (ok _, u) k idle lt hand ne nu =
      (omega (arith, k.num_bufs), rw hand (Idle-back t.clock_hand k idle))
  taken s t (err e, u) k idle lt hand ne nu = (
    λ eq. absurd (ne u (ap (λ x. (err x, u)) eq)),
    λ busy. absurd (
        Idle-not_busy s t.clock_hand (Idle-back t.clock_hand k idle)
          (busy t.clock_hand (omega (arith, k.num_bufs)))),
  )
  taken s t (undefined, u) k idle lt hand ne nu = absurd (nu refl)

  taken_defined :
      (r : Res (Unit {0}) × Sys P)
      → (and_then (λ _ (u : Sys P). (ok u.clock_hand, u)) r).0 ≢ undefined
      → r.0 ≢ undefined
  taken_defined (ok _, u) d e = absurd (ground arith)
  taken_defined (err x, u) d e = absurd (ground arith)
  taken_defined (undefined, u) d e = d refl

  -- The result of a call that is defined.
  pub alloc_buf-if_defined :
      (s : Sys P)
      → s.clock_hand < s.num_bufs
      → (alloc_buf s).0 ≢ undefined
      → Allocates s (alloc_buf s).0
  unfolding alloc_buf finish_alloc
  alloc_buf-if_defined s h defined =
      let n = 2 * s.num_bufs in
      let w = (sweep n s).0 in
      let t = (sweep n s).1 in
      let kept = sweep-Kept n s in
      elim (Bool-cases (not w.found && (w.left == 0))) [
        | inl out ↦
            let lap =
              sweep-Exhausted n s (omega arith) (omega arith)
                (λ d a b. (λ lt. absurd (omega arith), λ lt. absurd (omega arith))) (ground arith)
                (ground arith) in
            rw out (
              λ _ i lt.
                  let busy = Lap-IsBusy t i (sweep-lt n s h) (omega (arith, kept.num_bufs)) lap in
                  (sym (kept.valid i) ∙ busy.0, omega (arith, kept.pin_cnt i)),
              λ _. refl,
            )
        | inr stopped ↦ rw stopped (elim (sweep-Ends n s (omega arith)) [
          | inl run_out ↦ absurd (ground arith)
          | inr (idle, lt) ↦
              taken s t (take_frame w t) kept idle lt (take_frame-hand w t) (take_frame-ne w t)
                (taken_defined (take_frame w t) (rw stopped at defined))
        ])
      ]

  defined_taken :
      (r : Res (Unit {0}) × Sys P)
      → r.0 ≢ undefined
      → (and_then (λ _ (u : Sys P). (ok u.clock_hand, u)) r).0 ≢ undefined
  defined_taken (ok _, u) d e = absurd (ground arith)
  defined_taken (err x, u) d e = absurd (ground arith)
  defined_taken (undefined, u) d e = d refl

  pub alloc_buf-defined :
      (s : Sys P)
      → s.clock_hand < s.num_bufs
      → ((i : ℕ) → i < s.num_bufs → IsAddressed s i)
      → (alloc_buf s).0 ≢ undefined
  unfolding alloc_buf finish_alloc
  alloc_buf-defined s h addressed =
      let n = 2 * s.num_bufs in
      let w = (sweep n s).0 in
      let t = (sweep n s).1 in
      let kept = sweep-Kept n s in
      let lt = sweep-lt n s h in
      elim (Bool-cases (not w.found && (w.left == 0))) [
        | inl out ↦ rw out (λ e. absurd (ground arith))
        | inr stopped ↦ rw stopped (
            defined_taken (take_frame w t) (
              take_frame-defined w t (sweep-found_valid n s) (
                Addressed-Kept s t t.clock_hand kept
                  (addressed t.clock_hand (omega (arith, kept.num_bufs))))))
      ]

  -- If the clock hand is in the pool, and for the frames of the pool the index of the page of a
  -- valid one lies in the array of the hash table and the file of a changed one is not NULL: a frame
  -- that is given is a frame of the pool that was invalid or unpinned before the call. A call that
  -- fails does so with BUFFEREXCEEDED exactly if every frame was valid and pinned. No call is
  -- undefined.
  pub alloc_buf-Allocates :
      (s : Sys P)
      → s.clock_hand < s.num_bufs
      → ((i : ℕ) → i < s.num_bufs → IsAddressed s i)
      → Allocates s (alloc_buf s).0
  alloc_buf-Allocates s h addressed = alloc_buf-if_defined s h (alloc_buf-defined s h addressed)
