-- ===== src/Buffer/Map/Taken.antt =====
-- The frame that allocBuf gives away: what has happened to its entry and its page.
use database_management_syst.Common.{
  ℕ, ◌*◌, ◌<◌, ◌≡◌, refl, sym, ap, subst, ◌∙◌, ◌⊎◌, inl, inr, true, false, not, ◌&&◌, none, arith,
  ◌==◌, Bool-cases, ℤ, page_key, page_key_eq, page_key_eq_iff,
}
use database_management_syst.Status.{Res, ok}
use database_management_syst.Monad.{guarded-ok, and_then, and_then-ok}
use database_management_syst.Platform.{Platform}
use database_management_syst.System.{Sys, BufDesc}
use database_management_syst.Buffer.{
  take_frame, Sweep, sweep, write_back, finish_alloc, alloc_buf, drop_entry,
}
use database_management_syst.Buffer.Clock.{Kept, Kept-trans, sweep-Kept}
use database_management_syst.Buffer.Same.{Same}
use database_management_syst.Buffer.Sound.{
  frame_of, frame_of-eq, IsSound, IsUnlisted, drop_entry-frame_of,
}
use database_management_syst.Buffer.Calls.{take_frame-Same, IsPool, Gives, alloc_buf-Gives}
use database_management_syst.Buffer.Map.Disk.{Wrote, write_page-Wrote}
use database_management_syst.Buffer.Map.Evict.{key_of, Ousts, Leaves, sweep-Leaves, sweep-fs}

module _ {P : Platform} where
  -- The entry of a page is as it was, or the page is the one of the idle frame i and has none.
  abbrev pub Gone : Sys P → Sys P → ℕ → ℕ × ℤ → Type 0
  Gone s u i q =
      (frame_of u q ≡ frame_of s q)
      ⊎ ((q ≡ key_of s i)
          × (frame_of u q ≡ none)
          × ((s.desc i).valid ≡ true)
          × ((s.desc i).pin_cnt ≡ 0))

  -- The page of frame i is written if it was changed, and nothing else is.
  abbrev pub Saved : Sys P → Sys P → ℕ → Type 0
  Saved s u i =
      (((s.desc i).dirty ≡ true) × Wrote (key_of s i) (s.pool i) s u)
      ⊎ (((s.desc i).dirty ≡ false) × (u.fs ≡ s.fs))

  -- What allocBuf has done when it gives frame i away.
  pub record Takes (s u : Sys P) (i : ℕ) : Type 0 where
    pub kept : Kept s u
    pub gone : (q : ℕ × ℤ) → Gone s u i q
    pub saved : Saved s u i
    pub pool : IsPool u
    pub lt : i < u.num_bufs
    pub unlisted : IsUnlisted u i

  pub Same-Kept : {s t : Sys P} → Same s t → Kept s t
  Same-Kept e = record {
    pin_cnt = λ i. ap (λ (d : ℕ → BufDesc). (d i).pin_cnt) e.desc;
    valid = λ i. ap (λ (d : ℕ → BufDesc). (d i).valid) e.desc;
    dirty = λ i. ap (λ (d : ℕ → BufDesc). (d i).dirty) e.desc;
    file = λ i. ap (λ (d : ℕ → BufDesc). (d i).file) e.desc;
    page_no = λ i. ap (λ (d : ℕ → BufDesc). (d i).page_no) e.desc;
    num_bufs = e.num_bufs;
    ht_size = e.ht_size;
    pool = e.pool;
    files = e.files;
  }

  write_back-Saved : (s u : Sys P) → write_back s ≡ (ok tt, u) → Saved s u s.clock_hand
  unfolding write_back
  write_back-Saved s u e = elim (Bool-cases (s.desc s.clock_hand).dirty) [
    | inl changed ↦ inl (
      changed,
      write_page-Wrote (key_of s s.clock_hand) (s.pool s.clock_hand) _ u
          ((guarded-ok (not ((s.desc s.clock_hand).file == 0)) _ (rw changed at e)).1),
    )
    | inr clean ↦
        let same : s ≡ u = ap (λ (y : Res (Unit {0}) × Sys P). y.1) (rw clean at e) in
        inr (clean, rw same refl)
  ]

  take_frame-Saved :
      (w : Sweep) (s u : Sys P) → take_frame w s ≡ (ok tt, u) → Saved s u s.clock_hand
  unfolding take_frame
  take_frame-Saved w s u e = elim (Bool-cases w.found) [
    | inl gone ↦ write_back-Saved s u (guarded-ok _ write_back (rw gone at e)).1
    | inr free ↦ write_back-Saved s u (rw free at e)
  ]

  Wrote-back :
      (k q : ℕ × ℤ) (r x : P.Raw) (s t u : Sys P)
      → t.files ≡ s.files
      → t.fs ≡ s.fs
      → k ≡ q
      → r ≡ x
      → Wrote k r t u
      → Wrote q x s u
  Wrote-back k q r x s t u files at same block wrote = rw (← same, ← block, ← files, ← at) wrote

  Saved-Kept : (s t u : Sys P) (i : ℕ) → Kept s t → t.fs ≡ s.fs → Saved t u i → Saved s u i
  Saved-Kept s t u i k at (inl (changed, wrote)) = inl (
    sym (k.dirty i) ∙ changed,
    Wrote-back _ _ _ _ s t u k.files at (λ j. (k.file i j, k.page_no i j))
        (ap (λ (pool : ℕ → P.Raw). pool i) k.pool) wrote,
  )
  Saved-Kept s t u i k at (inr (clean, same)) = inr (sym (k.dirty i) ∙ clean, same ∙ at)

  Ousts-Gone :
      (s t u : Sys P)
      → IsSound s
      → Kept s t
      → Same t u
      → Ousts s t
      → (q : ℕ × ℤ) → Gone s u t.clock_hand q
  unfolding drop_entry
  Ousts-Gone s t u sound k e (inl (free, same)) q =
      inl (frame_of-eq s u q (e.ht_size ∙ k.ht_size) (e.frame_table ∙ same))
  Ousts-Gone s t u sound k e (inr (held, idle, gone)) q =
      let key = key_of s t.clock_hand in
      let (_, v) = drop_entry-frame_of key s sound.0 in
      let at : frame_of u q ≡ frame_of (drop_entry key s) q =
        frame_of-eq (drop_entry key s) u q (e.ht_size ∙ k.ht_size) (e.frame_table ∙ gone) in
      elim (Bool-cases (page_key_eq q key)) [
        | inl hit ↦ inr ((page_key_eq_iff q key).0 hit, at ∙ v q ∙ ground (arith, hit), held, idle)
        | inr miss ↦ inl (at ∙ v q ∙ ground (arith, miss))
      ]

  -- The three facts of `Takes` that allocBuf's own steps give.
  abbrev Freed : Sys P → Sys P → ℕ → Type 0
  Freed s u i = Kept s u × ((q : ℕ × ℤ) → Gone s u i q) × Saved s u i

  -- The loop stopped at a frame, and its page was written.
  stopped-Freed :
      (s t u : Sys P) (w : Sweep)
      → IsSound s
      → Kept s t
      → t.fs ≡ s.fs
      → Leaves s (w, t)
      → (w.found ≡ false → w.left ≡ 0 → ⊥)
      → take_frame w t ≡ (ok tt, u)
      → Freed s u u.clock_hand
  stopped-Freed s t u w sound kept at (inl (a, b, c)) stopped written = absurd (stopped a b)
  stopped-Freed s t u w sound kept at (inr ousts) stopped written =
      let same : Same t u =
        subst (λ (r : Res (Unit {0}) × Sys P). Same t r.1) written (take_frame-Same w t) in
      subst (λ (n : ℕ). Freed s u n) (sym same.clock_hand)
        (
          Kept-trans kept (Same-Kept same),
          Ousts-Gone s t u sound kept same ousts,
          Saved-Kept s t u t.clock_hand kept at (take_frame-Saved w t u written),
        )

  -- The end of allocBuf.
  taken-Freed :
      (s u v : Sys P) (i : ℕ)
      → Freed s u u.clock_hand
      → and_then (λ _ x. (ok x.clock_hand, x)) (ok (tt {0}), u) ≡ (ok i, v)
      → Freed s v i
  taken-Freed s u v i freed e =
      let end : u ≡ v = ap (λ (r : Res ℕ × Sys P). r.1) e in
      let hand : u.clock_hand ≡ i = ground arith in
      subst (λ (x : Sys P × ℕ). Freed s x.0 x.1) (λ j. (end j, hand j)) freed

  -- An allocBuf that succeeds.
  pub alloc_buf-Takes : (s u : Sys P) (i : ℕ) → IsPool s → alloc_buf s ≡ (ok i, u) → Takes s u i
  unfolding alloc_buf finish_alloc
  alloc_buf-Takes s u i v e =
      let n = 2 * s.num_bufs in
      let w = (sweep n s).0 in
      let t = (sweep n s).1 in
      let (pool, lt, unlisted) = subst (λ (r : Res ℕ × Sys P). Gives r) e (alloc_buf-Gives s v) in
      elim (Bool-cases (not w.found && (w.left == 0))) [
        | inl out ↦ absurd {A = Takes s u i} (ground arith)
        | inr stopped ↦
            let (_, u', written, given) = and_then-ok _ (take_frame w t) (rw stopped at e) in
            let freed =
              stopped-Freed s t u' w v.sound (sweep-Kept n s) (sweep-fs n s) (sweep-Leaves n s)
                (λ a b. ground arith) written in
            let (kept, gone, saved) = taken-Freed s u' u i freed given in
            record {
              kept = kept;
              gone = gone;
              saved = saved;
              pool = pool;
              lt = lt;
              unlisted = unlisted;
            }
      ]
