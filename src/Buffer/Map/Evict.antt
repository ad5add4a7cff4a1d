-- ===== src/Buffer/Map/Evict.antt =====
-- Which entry of the hash table the clock of allocBuf takes away.
use database_management_syst.Common.{
  ℕ, zero, suc, ◌≡◌, refl, sym, ◌∙◌, ◌⊎◌, inl, inr, true, false, arith, ℤ,
}
use database_management_syst.Platform.{Platform}
use database_management_syst.System.{Sys}
use database_management_syst.BufHash
use database_management_syst.BufHash.{FrameTable}
use database_management_syst.Buffer.{
  unused, evicted, Sweep, removed, drop_entry, visit_frame, advance_clock, sweep,
}
use database_management_syst.Buffer.Clock.{
  Kept, Kept-trans, advance_clock-Kept, visit_frame-Kept, resume_cases,
}
use database_management_syst.Buffer.Sound.{
  visit_frame-evicted, visit_frame-passed_table, visit_frame-unused_same,
}

module _ {P : Platform} where
  -- The page of a frame, by its descriptor.
  abbrev pub key_of : Sys P → ℕ → ℕ × ℤ
  key_of s i = ((s.desc i).file, (s.desc i).page_no)

  -- The clock stands at a frame without a page and no entry is gone, or at a frame that nobody has
  -- pinned and the entry of its page is gone.
  abbrev pub Ousts : Sys P → Sys P → Type 0
  Ousts s t =
      (((s.desc t.clock_hand).valid ≡ false) × (t.frame_table ≡ s.frame_table))
      ⊎ (((s.desc t.clock_hand).valid ≡ true)
          × ((s.desc t.clock_hand).pin_cnt ≡ 0)
          × (t.frame_table ≡ (drop_entry (key_of s t.clock_hand) s).frame_table))

  -- The loop ran out and no entry is gone, or it stopped at such a frame.
  abbrev pub Leaves : Sys P → Sweep × Sys P → Type 0
  Leaves s (w, t) = ((w.found ≡ false) × (w.left ≡ 0) × (t.frame_table ≡ s.frame_table)) ⊎ Ousts s t

  pub drop_entry-table :
      (k q : ℕ × ℤ) (s t : Sys P)
      → t.ht_size ≡ s.ht_size
      → t.frame_table ≡ s.frame_table
      → k ≡ q
      → (drop_entry k t).frame_table ≡ (drop_entry q s).frame_table
  unfolding drop_entry
  drop_entry-table k q s t h e same = λ i. removed (e i) (BufHash.remove (h i) (same i) (e i))

  visit_frame-evicted_idle :
      (s : Sys P)
      → (visit_frame s).0 ≡ evicted
      → ((s.desc s.clock_hand).valid ≡ true) × ((s.desc s.clock_hand).pin_cnt ≡ 0)
  unfolding visit_frame
  visit_frame-evicted_idle s e = ground arith

  advance_clock-table : (s : Sys P) → (advance_clock s).frame_table ≡ s.frame_table
  unfolding advance_clock
  advance_clock-table s = refl

  key_of-Kept : {s t : Sys P} (i : ℕ) → Kept s t → key_of t i ≡ key_of s i
  key_of-Kept i k = λ j. (k.file i j, k.page_no i j)

  -- Frames that were passed before change nothing of this.
  Ousts-Kept : (s t u : Sys P) → Kept s t → t.frame_table ≡ s.frame_table → Ousts t u → Ousts s u
  Ousts-Kept s t u k e (inl (free, same)) = inl (sym (k.valid u.clock_hand) ∙ free, same ∙ e)
  Ousts-Kept s t u k e (inr (held, idle, gone)) = inr (
    sym (k.valid u.clock_hand) ∙ held,
    sym (k.pin_cnt u.clock_hand) ∙ idle,
    gone ∙ drop_entry-table _ _ s t k.ht_size e (key_of-Kept u.clock_hand k),
  )

  Leaves-Kept :
      (s t : Sys P) (r : Sweep × Sys P)
      → Kept s t
      → t.frame_table ≡ s.frame_table
      → Leaves t r
      → Leaves s r
  Leaves-Kept s t (w, u) k e (inl (f, l, same)) = inl (f, l, same ∙ e)
  Leaves-Kept s t (w, u) k e (inr ousts) = inr (Ousts-Kept s t u k e ousts)

  stop_unused : (s : Sys P) → (visit_frame s).0 ≡ unused → Ousts s (visit_frame s).1
  stop_unused s e = let (same, free) = visit_frame-unused_same s e in rw same (inl (free, refl))

  stop_evicted : (s : Sys P) → (visit_frame s).0 ≡ evicted → Ousts s (visit_frame s).1
  unfolding drop_entry
  stop_evicted s e =
      let (held, idle) = visit_frame-evicted_idle s e in
      rw (visit_frame-evicted s e) (inr (held, idle, refl))

  pub sweep-Leaves : (k : ℕ) (s : Sys P) → Leaves s (sweep k s)
  unfolding sweep
  sweep-Leaves zero s = inl (refl, refl, refl)
  sweep-Leaves (suc k) s =
      let a = advance_clock s in
      let (v, t) = visit_frame a in
      let start = advance_clock-Kept s in
      let table = advance_clock-table s in
      resume_cases (Leaves s) v k t (sweep k t)
        (λ e. inr (Ousts-Kept s a t start table (stop_unused a e)))
        (λ e. inr (Ousts-Kept s a t start table (stop_evicted a e)))
        (λ e.
          Leaves-Kept s t (sweep k t) (Kept-trans start (visit_frame-Kept a))
            (visit_frame-passed_table a e ∙ table) (sweep-Leaves k t))

  visit_frame-fs : (s : Sys P) → (visit_frame s).1.fs ≡ s.fs
  unfolding visit_frame drop_entry
  visit_frame-fs s = ground arith

  advance_clock-fs : (s : Sys P) → (advance_clock s).fs ≡ s.fs
  unfolding advance_clock
  advance_clock-fs s = refl

  pub sweep-fs : (k : ℕ) (s : Sys P) → (sweep k s).1.fs ≡ s.fs
  unfolding sweep
  sweep-fs zero s = refl
  sweep-fs (suc k) s =
      let (v, t) = visit_frame (advance_clock s) in
      let e : t.fs ≡ s.fs = visit_frame-fs (advance_clock s) ∙ advance_clock-fs s in
      resume_cases (λ r. r.1.fs ≡ s.fs) v k t (sweep k t) (λ _. e) (λ _. e) (λ _. sweep-fs k t ∙ e)
