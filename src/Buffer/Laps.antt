-- ===== src/Buffer/Laps.antt =====
-- A full turn of the clock of allocBuf that finds no frame: every frame was valid and pinned.
use database_management_syst.Common.{
  ℕ, zero, suc, ◌+◌, ◌*◌, ◌%◌, ◌<◌, ◌-◌, ◌≡◌, refl, sym, ap, ◌∙◌, ◌≤◌, true, false, arith,
}
use mathlib.Core.Bool.{false≢true}
use native.Mathlib.Decide.{dec_lt}
use native.Mathlib.Nat.{mod-add-mod, add-mod_right, mod-eq_of_lt, mod-lt}
use database_management_syst.Platform.{Platform}
use database_management_syst.System.{Sys}
use database_management_syst.Buffer.Clock.{
  Kept, Kept-trans, advance_clock-Kept, visit_frame-Kept, visit_frame-hand, resume_cases,
  advance_clock-lt,
}
use database_management_syst.Buffer.{
  unused, passed, Sweep, advance_clock, drop_entry, visit_frame, sweep,
}

module _ {P : Platform} where
  -- What is known of frame i, at distance d ahead of the clock, with k scans left: one that was
  -- visited once is in use and not referenced, and one that was visited twice is pinned.
  abbrev pub Seen : ℕ → Sys P → ℕ → ℕ → Type 0
  Seen k s d i =
      (k < s.num_bufs + d → ((s.desc i).valid ≡ true) × ((s.desc i).refbit ≡ false))
      × (k < d → 0 < (s.desc i).pin_cnt)

  abbrev pub Lap : ℕ → Sys P → Type 0
  Lap k s = (d : ℕ) → 0 < d → d ≤ s.num_bufs → Seen k s d ((s.clock_hand + d) % s.num_bufs)

  -- A visit that passes leaves the frame in use and not referenced; a frame that was not
  -- referenced is pinned.
  visit_frame-passed :
      (s : Sys P)
      → (visit_frame s).0 ≡ passed
      → let t = (visit_frame s).1 in
        ((t.desc s.clock_hand).valid ≡ true)
        × ((t.desc s.clock_hand).refbit ≡ false)
        × ((s.desc s.clock_hand).refbit ≡ false → 0 < (s.desc s.clock_hand).pin_cnt)
  unfolding visit_frame drop_entry
  visit_frame-passed s e = ground arith

  visit_frame-refbit :
      (s : Sys P) (i : ℕ) → (s.desc i).refbit ≡ false → ((visit_frame s).1.desc i).refbit ≡ false
  unfolding visit_frame drop_entry
  visit_frame-refbit s i e = ground arith

  advance_clock-hand : (s : Sys P) → (advance_clock s).clock_hand ≡ (s.clock_hand + 1) % s.num_bufs
  unfolding advance_clock
  advance_clock-hand s = refl

  advance_clock-desc : (s : Sys P) → (advance_clock s).desc ≡ s.desc
  unfolding advance_clock
  advance_clock-desc s = refl

  visit_frame-unused :
      (s : Sys P) → (visit_frame s).0 ≡ unused → (s.desc s.clock_hand).valid ≡ false
  unfolding visit_frame drop_entry
  visit_frame-unused s e = ground arith

  in_use :
      (s : Sys P)
      → (s.desc ((s.clock_hand + 1) % s.num_bufs)).valid ≡ true
      → ((advance_clock s).desc (advance_clock s).clock_hand).valid ≡ true
  unfolding advance_clock
  in_use s e = e

  module _ (k : ℕ) (s : Sys P) (h : 0 < s.num_bufs) (lap : Lap (suc k) s)
      (e : (visit_frame (advance_clock s)).0 ≡ passed) where
    abbrev a : Sys P
    a = advance_clock s

    abbrev t : Sys P
    t = (visit_frame (advance_clock s)).1

    kept : Kept s t
    kept = Kept-trans (advance_clock-Kept s) (visit_frame-Kept a)

    hand : t.clock_hand ≡ (s.clock_hand + 1) % s.num_bufs
    hand = visit_frame-hand a ∙ advance_clock-hand s

    -- A frame that is not under the clock was one further away.
    Seen-other : (d i : ℕ) → Seen (suc k) s (d + 1) i → Seen k t d i
    Seen-other d i seen = (
      λ lt. (
        kept.valid i ∙ (seen.0 (omega (arith, kept.num_bufs))).0,
        visit_frame-refbit a i (
            ap (λ f. (f i).refbit) (advance_clock-desc s)
            ∙ (seen.0 (omega (arith, kept.num_bufs))).1),
      ),
      λ lt. omega (arith, kept.pin_cnt i, seen.1 (omega arith)),
    )

    -- The frame under the clock is now a whole round away.
    Seen-hand : Seen k t s.num_bufs ((s.clock_hand + 1) % s.num_bufs)
    unfolding advance_clock
    Seen-hand =
        let (v, r, p) = visit_frame-passed a e in
        let old = lap 1 (omega arith) (omega arith) in
        (
          λ lt. (v, r),
          λ lt.
              omega
                (arith, kept.pin_cnt ((s.clock_hand + 1) % s.num_bufs), p (old.0 (omega arith)).1),
        )

    ahead_of : (d : ℕ) → (t.clock_hand + d) % t.num_bufs ≡ (s.clock_hand + (d + 1)) % s.num_bufs
    ahead_of d =
        rw (hand, kept.num_bufs)
          (mod-add-mod (s.clock_hand + 1) s.num_bufs d
            ∙ ap (λ (x : ℕ). x % s.num_bufs) (omega arith))

    a_round : (t.clock_hand + s.num_bufs) % t.num_bufs ≡ (s.clock_hand + 1) % s.num_bufs
    a_round = rw (kept.num_bufs, hand) (add-mod_right _ s.num_bufs ∙ mod-eq_of_lt (mod-lt _ h))

    Lap-step : Lap k t
    Lap-step d pos_d d_le = elim (dec_lt d s.num_bufs) [
      | yes before ↦ rw (ahead_of d) (Seen-other d _ (lap (d + 1) (omega arith) (omega arith)))
      | no last ↦
          let full : d ≡ s.num_bufs = omega (arith, kept.num_bufs) in rw (full, a_round) Seen-hand
    ]

  -- The loop ran out, and every frame was seen twice.
  abbrev pub Exhausted : Sweep × Sys P → Type 0
  Exhausted (w, t) = (w.found ≡ false) → (w.left ≡ 0) → Lap 0 t

  pub sweep-Exhausted :
      (k : ℕ) (s : Sys P) → 0 < s.num_bufs → k ≤ 2 * s.num_bufs → Lap k s → Exhausted (sweep k s)
  unfolding sweep
  sweep-Exhausted zero s h le lap = λ f l. lap
  sweep-Exhausted (suc k) s h le lap =
      let (v, t) = visit_frame (advance_clock s) in
      let kept = Kept-trans (advance_clock-Kept s) (visit_frame-Kept (advance_clock s)) in
      resume_cases Exhausted v k t (sweep k t)
        (λ e f l.
          let seen = lap 1 (omega arith) (omega arith) in
          let free = visit_frame-unused (advance_clock s) e in
          absurd (false≢true (sym free ∙ in_use s (seen.0 (omega arith)).0)))
        (λ e f l. absurd (false≢true (sym f)))
        (λ e.
          sweep-Exhausted k t (omega (arith, kept.num_bufs)) (omega (arith, kept.num_bufs))
            (Lap-step k s h lap e))

  -- A frame that cannot be given away.
  abbrev pub IsBusy : Sys P → ℕ → Type 0
  IsBusy s i = ((s.desc i).valid ≡ true) × (0 < (s.desc i).pin_cnt)

  -- The distance from the clock to a frame.
  distance :
      (s : Sys P) (i : ℕ)
      → s.clock_hand < s.num_bufs
      → i < s.num_bufs
      → (d : ℕ) × (0 < d) × (d ≤ s.num_bufs) × ((s.clock_hand + d) % s.num_bufs ≡ i)
  distance s i h lt = elim (dec_lt s.clock_hand i) [
    | yes after ↦ (
      i - s.clock_hand,
      omega arith,
      omega arith,
      ap (λ (x : ℕ). x % s.num_bufs) (omega arith) ∙ mod-eq_of_lt lt,
    )
    | no before ↦ (
      i + s.num_bufs - s.clock_hand,
      omega arith,
      omega arith,
      ap (λ (x : ℕ). x % s.num_bufs) (omega arith) ∙ add-mod_right i s.num_bufs ∙ mod-eq_of_lt lt,
    )
  ]

  pub Lap-IsBusy :
      (s : Sys P) (i : ℕ) → s.clock_hand < s.num_bufs → i < s.num_bufs → Lap 0 s → IsBusy s i
  Lap-IsBusy s i h lt lap =
      let (d, pos_d, d_le, at) = distance s i h lt in
      let seen = lap d pos_d d_le in
      rw at at (
        let x : IsBusy s ((s.clock_hand + d) % s.num_bufs) =
          ((seen.0 (omega arith)).0, seen.1 (omega arith)) in
        x)

  pub sweep-lt :
      (k : ℕ) (s : Sys P)
      → s.clock_hand < s.num_bufs
      → (sweep k s).1.clock_hand < (sweep k s).1.num_bufs
  unfolding sweep
  sweep-lt zero s h = h
  sweep-lt (suc k) s h =
      let (v, t) = visit_frame (advance_clock s) in
      let kept = Kept-trans (advance_clock-Kept s) (visit_frame-Kept (advance_clock s)) in
      let low : t.clock_hand < t.num_bufs =
        omega (arith, visit_frame-hand (advance_clock s), advance_clock-lt s, kept.num_bufs) in
      resume_cases (λ r. r.1.clock_hand < r.1.num_bufs) v k t (sweep k t) (λ _. low) (λ _. low)
        (λ _. sweep-lt k t low)
