-- ===== src/Buffer/Clock.antt =====
-- The clock of allocBuf: what one round of its loop does, and what the loop leaves alone.
use database_management_syst.Common.{
  ℕ, zero, suc, ◌<◌, ◌≡◌, refl, ◌∙◌, ◌≢◌, ◌⊎◌, inl, inr, true, false, arith,
}
use database_management_syst.Platform.{Platform}
use database_management_syst.System.{Sys}
use database_management_syst.Buffer.{
  Visit, unused, evicted, passed, Sweep, resume, advance_clock, drop_entry, visit_frame, sweep,
}

pub Visit-cases : (v : Visit) → (v ≡ unused) ⊎ (v ≡ evicted) ⊎ (v ≡ passed)
Visit-cases unused = inl refl
Visit-cases evicted = inr (inl refl)
Visit-cases passed = inr (inr refl)

module _ {P : Platform} where
  -- What the clock does not touch: all of a frame but its reference bit, the pool and the files.
  pub record Kept (s t : Sys P) : Type 0 where
    pub pin_cnt : (i : ℕ) → (t.desc i).pin_cnt ≡ (s.desc i).pin_cnt
    pub valid : (i : ℕ) → (t.desc i).valid ≡ (s.desc i).valid
    pub dirty : (i : ℕ) → (t.desc i).dirty ≡ (s.desc i).dirty
    pub file : (i : ℕ) → (t.desc i).file ≡ (s.desc i).file
    pub page_no : (i : ℕ) → (t.desc i).page_no ≡ (s.desc i).page_no
    pub num_bufs : t.num_bufs ≡ s.num_bufs
    pub ht_size : t.ht_size ≡ s.ht_size
    pub pool : t.pool ≡ s.pool
    pub files : t.files ≡ s.files

  pub Kept-refl : (s : Sys P) → Kept s s
  Kept-refl s = record {
    pin_cnt = λ i. refl;
    valid = λ i. refl;
    dirty = λ i. refl;
    file = λ i. refl;
    page_no = λ i. refl;
    num_bufs = refl;
    ht_size = refl;
    pool = refl;
    files = refl;
  }

  pub Kept-trans : {s t u : Sys P} → Kept s t → Kept t u → Kept s u
  Kept-trans a b = record {
    pin_cnt = λ i. b.pin_cnt i ∙ a.pin_cnt i;
    valid = λ i. b.valid i ∙ a.valid i;
    dirty = λ i. b.dirty i ∙ a.dirty i;
    file = λ i. b.file i ∙ a.file i;
    page_no = λ i. b.page_no i ∙ a.page_no i;
    num_bufs = b.num_bufs ∙ a.num_bufs;
    ht_size = b.ht_size ∙ a.ht_size;
    pool = b.pool ∙ a.pool;
    files = b.files ∙ a.files;
  }

  -- A frame that nobody uses: it holds no page, or one that is not pinned.
  abbrev pub IsIdle : Sys P → ℕ → Type 0
  IsIdle s i = ((s.desc i).valid ≡ false) ⊎ ((s.desc i).pin_cnt ≡ 0)

  pub advance_clock-Kept : (s : Sys P) → Kept s (advance_clock s)
  unfolding advance_clock
  advance_clock-Kept s = record {
    pin_cnt = λ i. refl;
    valid = λ i. refl;
    dirty = λ i. refl;
    file = λ i. refl;
    page_no = λ i. refl;
    num_bufs = refl;
    ht_size = refl;
    pool = refl;
    files = refl;
  }

  pub visit_frame-Kept : (s : Sys P) → Kept s (visit_frame s).1
  unfolding visit_frame drop_entry
  visit_frame-Kept s = record {
    pin_cnt = λ i. ground arith;
    valid = λ i. ground arith;
    dirty = λ i. ground arith;
    file = λ i. ground arith;
    page_no = λ i. ground arith;
    num_bufs = ground arith;
    ht_size = ground arith;
    pool = ground arith;
    files = ground arith;
  }

  -- The clock stays at the frame, and stops at an idle one only.
  pub visit_frame-hand : (s : Sys P) → (visit_frame s).1.clock_hand ≡ s.clock_hand
  unfolding visit_frame drop_entry
  visit_frame-hand s = ground arith

  visit_frame-IsIdle :
      (s : Sys P) → ((visit_frame s).0 ≡ passed) ⊎ IsIdle (visit_frame s).1 s.clock_hand
  unfolding visit_frame drop_entry
  visit_frame-IsIdle s = ground arith

  -- The loop ran out, or the clock stands at an idle frame of the pool.
  abbrev pub Ends : Sweep × Sys P → Type 0
  Ends (w, t) =
      ((w.found ≡ false) × (w.left ≡ 0)) ⊎ (IsIdle t t.clock_hand × (t.clock_hand < t.num_bufs))

  -- One round of the loop, by the outcome of the visit.
  pub resume_cases {ℓ} :
      (Q : Sweep × Sys P → Type ℓ) (v : Visit) (k : ℕ) (t : Sys P) (rest : Sweep × Sys P)
      → (v ≡ unused → Q (record { found = false; left = k }, t))
      → (v ≡ evicted → Q (record { found = true; left = k }, t))
      → (v ≡ passed → Q rest)
      → Q (resume v k t rest)
  resume_cases Q unused k t rest a b c = a refl
  resume_cases Q evicted k t rest a b c = b refl
  resume_cases Q passed k t rest a b c = c refl

  pub sweep-Kept : (k : ℕ) (s : Sys P) → Kept s (sweep k s).1
  unfolding sweep
  sweep-Kept zero s = Kept-refl s
  sweep-Kept (suc k) s =
      let (v, t) = visit_frame (advance_clock s) in
      let a = Kept-trans (advance_clock-Kept s) (visit_frame-Kept (advance_clock s)) in
      resume_cases (λ r. Kept s r.1) v k t (sweep k t) (λ _. a) (λ _. a)
        (λ _. Kept-trans a (sweep-Kept k t))

  pub advance_clock-lt : (s : Sys P) → 0 < s.num_bufs → (advance_clock s).clock_hand < s.num_bufs
  unfolding advance_clock
  advance_clock-lt s h = ground arith

  -- Where the loop stops after a visit.
  stop_idle :
      (s : Sys P) (w : Sweep)
      → 0 < s.num_bufs
      → (visit_frame (advance_clock s)).0 ≢ passed
      → Ends (w, (visit_frame (advance_clock s)).1)
  stop_idle s w h ne =
      let a = advance_clock s in
      let kept = Kept-trans (advance_clock-Kept s) (visit_frame-Kept a) in
      inr (
        rw (visit_frame-hand a)
            (elim (visit_frame-IsIdle a) [ inl e ↦ absurd (ne e) | inr idle ↦ idle ]),
        omega (arith, visit_frame-hand a, advance_clock-lt s h, kept.num_bufs),
      )

  pub sweep-Ends : (k : ℕ) (s : Sys P) → 0 < s.num_bufs → Ends (sweep k s)
  unfolding sweep
  sweep-Ends zero s h = inl (refl, refl)
  sweep-Ends (suc k) s h =
      let (v, t) = visit_frame (advance_clock s) in
      let kept = Kept-trans (advance_clock-Kept s) (visit_frame-Kept (advance_clock s)) in
      resume_cases Ends v k t (sweep k t) (λ e. stop_idle s _ h (λ e'. cc))
        (λ e. stop_idle s _ h (λ e'. cc)) (λ _. sweep-Ends k t (omega (arith, kept.num_bufs)))
