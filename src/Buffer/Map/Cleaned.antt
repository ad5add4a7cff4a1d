-- ===== src/Buffer/Map/Cleaned.antt =====
-- The turn of one frame in flushFile of buf.cpp: its page goes to the disk and out of the pool.
use database_management_syst.Common.{
  ℕ, not, ◌<◌, ◌≡◌, ◌≢◌, refl, sym, ap, subst, ◌∙◌, inl, inr, true, false, ◌&&◌, ltb, arith, ◌==◌,
  ==_iff, Bool-cases, ℤ, page_key,
}
use mathlib.Core.Bool.{false≢true}
use database_management_syst.Status.{Res, ok}
use database_management_syst.Monad.{guarded-ok, and_then-ok}
use database_management_syst.Platform.{Platform, ReadsBack}
use database_management_syst.System.{Sys, BufDesc, update}
use database_management_syst.FileIo.{write_page}
use database_management_syst.Buffer.{
  empty_frame, through, set_frame, drop_entry, write_dirty, release_frame, flush_frame,
}
use database_management_syst.Buffer.Same.{Same, Same-refl, write_page-DiskOnly}
use database_management_syst.Buffer.Calls.{IsPool}
use database_management_syst.Buffer.Map.Disk.{write_page-Wrote}
use database_management_syst.Buffer.Map.Evict.{key_of, drop_entry-table}
use database_management_syst.Buffer.Map.View.{Pages, ShowsPages}
use database_management_syst.Buffer.Map.Emptied.{Cleans, Cleans-ShowsPages, dropped-Takes}
use database_management_syst.Buffer.Map.Taken.{Saved}
use database_management_syst.Buffer.Map.Evicted.{Takes-ShowsBut}

module _ {P : Platform} where
  -- The write of a changed frame: the disk has its page, and the frame counts as clean.
  abbrev pub Written : ℕ → Sys P → Sys P → Type 0
  Written i s t =
      (w : Sys P) × Same s w
      × Saved s w i
      × Cleans i w t
      × ((t.desc i).page_no ≡ (s.desc i).page_no)

  marked-Cleans :
      (i : ℕ) (w : Sys P) → Cleans i w (set_frame i (record (w.desc i) { dirty = false }) w)
  marked-Cleans i w = record {
    table = refl;
    ht_size = refl;
    num_bufs = refl;
    pool = refl;
    files = refl;
    fs = refl;
    others = λ j ne. ground (arith, ==_iff j i);
    clean = ground (arith, ==_iff i i);
  }

  Cleans-refl : (i : ℕ) (s : Sys P) → (s.desc i).dirty ≡ false → Cleans i s s
  Cleans-refl i s clean = record {
    table = refl;
    ht_size = refl;
    num_bufs = refl;
    pool = refl;
    files = refl;
    fs = refl;
    others = λ j ne. refl;
    clean = clean;
  }

  marked-Written :
      (i : ℕ) (s w t : Sys P)
      → Same s w
      → Saved s w i
      → set_frame i (record (w.desc i) { dirty = false }) w ≡ t
      → Written i s t
  marked-Written i s w t same saved e =
      let page : (update w.desc i (record (w.desc i) { dirty = false }) i).page_no
          ≡ (w.desc i).page_no =
        ground (arith, ==_iff i i) in
      subst (λ u. Written i s u) e
        (
          w,
          same,
          saved,
          marked-Cleans i w,
          page ∙ ap (λ (d : ℕ → BufDesc). (d i).page_no) same.desc,
        )

  pub write_dirty-Written : (i : ℕ) (s t : Sys P) → write_dirty i s ≡ (ok tt, t) → Written i s t
  unfolding write_dirty
  write_dirty-Written i s t e = elim (Bool-cases (s.desc i).dirty) [
    | inl changed ↦
        let write = write_page (s.desc i).file (s.desc i).page_no (s.pool i) in
        let (_, w, wrote, e1) = and_then-ok _ (through (s.desc i).file write s) (rw changed at e) in
        let (_, written) = guarded-ok (not ((s.desc i).file == 0)) write wrote in
        marked-Written i s w t
          (subst (λ (r : Res (Unit {0}) × Sys P). Same s r.1) written
            (write_page-DiskOnly (s.desc i).file (s.desc i).page_no (s.pool i) s))
          (inl (changed, write_page-Wrote (key_of s i) (s.pool i) s w written))
          (ap (λ (r : Res (Unit {0}) × Sys P). r.1) e1)
    | inr clean ↦
        let at : s ≡ t = ap (λ (r : Res (Unit {0}) × Sys P). r.1) (rw clean at e) in
        subst (λ u. Written i s u) at
          (s, Same-refl s, inr (clean, refl), Cleans-refl i s clean, refl)
  ]

  release_frame-Cleans :
      (file i : ℕ) (k : ℕ × ℤ) (w t : Sys P)
      → Cleans i w t
      → (file, (t.desc i).page_no) ≡ k
      → Cleans i (drop_entry k w) (release_frame file i t)
        × (((release_frame file i t).desc i).valid ≡ false)
  unfolding release_frame drop_entry
  release_frame-Cleans file i k w t c key = (
    record {
      table = drop_entry-table (file, (t.desc i).page_no) k w t c.ht_size c.table key;
      ht_size = c.ht_size;
      num_bufs = c.num_bufs;
      pool = c.pool;
      files = c.files;
      fs = c.fs;
      others = λ j ne. ground (arith, ==_iff j i, c.others j ne);
      clean = ground (arith, ==_iff i i, c.clean);
    },
    ground (arith, ==_iff i i),
  )

  -- What a frame's turn does in a flush of the file that succeeds.
  abbrev pub Turned : ℕ → ℕ → Sys P → Sys P → Type 0
  Turned file i s t =
      ((j : ℕ) → j ≢ i → t.desc j ≡ s.desc j)
      × ((t.desc i).valid ≡ true → (t.desc i).file ≢ file)
      × (t.num_bufs ≡ s.num_bufs)

  drop_entry-desc : (k : ℕ × ℤ) (s : Sys P) (j : ℕ) → (drop_entry k s).desc j ≡ s.desc j
  unfolding drop_entry
  drop_entry-desc k s j = refl

  released :
      (file i : ℕ) (s w t : Sys P) (a : Pages P)
      → ReadsBack P
      → ShowsPages s a
      → i < s.num_bufs
      → (s.desc i).valid ≡ true
      → (s.desc i).file ≡ file
      → (s.desc i).pin_cnt ≡ 0
      → IsPool (release_frame file i t)
      → Same s w
      → Saved s w i
      → Cleans i w t
      → (t.desc i).page_no ≡ (s.desc i).page_no
      → ShowsPages (release_frame file i t) a × Turned file i s (release_frame file i t)
  released file i s w t a back v lt held mine idle pool same saved cleans page =
      let takes = dropped-Takes i s w v.pool lt held idle same saved in
      let (c, empty) =
        release_frame-Cleans file i (key_of s i) w t cleans (λ x. (sym mine x, page x)) in
      let u = drop_entry (key_of s i) w in
      (
        Cleans-ShowsPages i u (release_frame file i t) a (Takes-ShowsBut back s u a i v takes)
            takes.unlisted c empty pool,
        (
          λ j ne.
              c.others j ne
              ∙ drop_entry-desc (key_of s i) w j
              ∙ ap (λ (d : ℕ → BufDesc). d j) same.desc,
          λ held'. absurd (false≢true (sym empty ∙ held')),
          c.num_bufs ∙ takes.kept.num_bufs,
        ),
      )

  pub flush_frame-Turned :
      (file i : ℕ) (s t : Sys P) (a : Pages P)
      → ReadsBack P
      → ShowsPages s a
      → i < s.num_bufs
      → IsPool t
      → flush_frame file i s ≡ (ok tt, t)
      → ShowsPages t a × Turned file i s t
  unfolding flush_frame empty_frame
  flush_frame-Turned file i s t a back v lt pool e =
      elim (Bool-cases ((s.desc i).valid && ((s.desc i).file == file))) [
        | inl mine ↦ elim (Bool-cases (ltb 0 (s.desc i).pin_cnt)) [
          | inl pinned ↦ absurd (ground arith)
          | inr idle ↦
              let (_, u, cleaned, e0) = and_then-ok _ (write_dirty i s) (rw (mine, idle) at e) in
              let (_, e1) = guarded-ok _ (λ x. (ok (tt {0}), release_frame file i x)) e0 in
              let (w, same, saved, cleans, page) = write_dirty-Written i s u cleaned in
              let at : release_frame file i u ≡ t = ap (λ (r : Res (Unit {0}) × Sys P). r.1) e1 in
              subst (λ x. ShowsPages x a × Turned file i s x) at
                (released file i s w u a back v lt (ground arith)
                  (ground (arith, ==_iff (s.desc i).file file)) (ground arith)
                  (subst (λ x. IsPool x) (sym at) pool) same saved cleans page)
        ]
        | inr other ↦ elim (Bool-cases (not (s.desc i).valid && ((s.desc i).file == file))) [
          | inl stale ↦ absurd (ground arith)
          | inr keep ↦
              let at : s ≡ t = ap (λ (r : Res (Unit {0}) × Sys P). r.1) (rw (other, keep) at e) in
              subst (λ x. ShowsPages x a × Turned file i s x) at
                (
                  v,
                  (
                    (λ j ne. refl),
                    (λ held mine. ground (arith, ==_iff (s.desc i).file file)),
                    refl,
                  ),
                )
        ]
      ]
