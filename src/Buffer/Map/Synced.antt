-- ===== src/Buffer/Map/Synced.antt =====
-- flushFile of buf.cpp: every page of the file is on the disk afterwards.
use database_management_syst.Common.{
  ℕ, zero, suc, ◌+◌, ◌<◌, ◌≤◌, ◌≡◌, ◌≢◌, refl, sym, ap, subst, ◌∙◌, ◌⊎◌, inl, inr, not, ◌&&◌, ltb,
  true, some, Option-cases, arith, ◌==◌, ==_iff, Bool-cases, ℤ, page_key,
}
use database_management_syst.Status.{Res, ok, err, undefined, page_pinned}
use database_management_syst.Monad.{guarded-err, M, ◌>>=◌, and_then, and_then-ok}
use database_management_syst.BufHash
use database_management_syst.Platform.{Platform, ReadsBack}
use database_management_syst.System.{Sys}
use database_management_syst.FileIo.{write_page, int_write}
use database_management_syst.Buffer.{
  release_frame, empty_frame, write_dirty, flush_frame, flush_from, flush_file,
}
use database_management_syst.Buffer.Sound.{frame_of}
use database_management_syst.Buffer.Calls.{IsPool}
use database_management_syst.Buffer.Flush.{flush_frame-Preserves}
use database_management_syst.Buffer.Map.Disk.{OnDisk}
use database_management_syst.Buffer.Map.View.{Pages, ShowsPages}
use database_management_syst.Buffer.Map.Cleaned.{Turned, flush_frame-Turned}

module _ {P : Platform} where
  -- The frames from i on, k of them, are without pages of the file, and those before i are as
  -- they were.
  abbrev Flushed : ℕ → ℕ → ℕ → Sys P → Sys P → Type 0
  Flushed file k i s t =
      ((j : ℕ) → j < i → t.desc j ≡ s.desc j)
      × ((j : ℕ) → i ≤ j → j < i + k → (t.desc j).valid ≡ true → (t.desc j).file ≢ file)
      × (t.num_bufs ≡ s.num_bufs)

  Turned-Flushed :
      (file k i : ℕ) (s u t : Sys P)
      → Turned file i s u
      → Flushed file k (i + 1) u t
      → Flushed file (suc k) i s t
  Turned-Flushed file k i s u t (others, gone, n) (before, after, n') = (
    λ j lt. before j (omega arith) ∙ others j (λ e. absurd (omega (arith, e))),
    λ j le lt held. elim (Bool-cases (j == i)) [
      | inl hit ↦
          let same : j ≡ i = (==_iff j i).0 hit in
          let d = before i (omega arith) in
          rw (same, d)
            (gone (ap (λ x. x.valid) (sym d) ∙ ap (λ n. (t.desc n).valid) (sym same) ∙ held))
      | inr miss ↦
          let there : j ≢ i = ground (arith, ==_iff j i) in after j (omega arith) (omega arith) held
    ],
    n' ∙ n,
  )

  flush_from-Flushed :
      (file k i : ℕ) (s t : Sys P) (a : Pages P)
      → ReadsBack P
      → ShowsPages s a
      → i + k ≤ s.num_bufs
      → flush_from file k i s ≡ (ok tt, t)
      → ShowsPages t a × Flushed file k i s t
  unfolding flush_from ◌>>=◌
  flush_from-Flushed file zero i s t a back v le e =
      let at : s ≡ t = ap (λ (r : Res (Unit {0}) × Sys P). r.1) e in
      subst (λ x. ShowsPages x a × Flushed file 0 i s x) at
        (v, ((λ j lt. refl), (λ j le lt. absurd (omega arith)), refl))
  flush_from-Flushed file (suc k) i s t a back v le e =
      let (_, u, turned, e1) = and_then-ok _ (flush_frame file i s) e in
      let pool =
        subst (λ (r : Res (Unit {0}) × Sys P). IsPool r.1) turned
          (flush_frame-Preserves file i s v.pool) in
      let (v', step) = flush_frame-Turned file i s u a back v (omega arith) pool turned in
      let (_, _, n) = step in
      let (v'', rest) = flush_from-Flushed file k (i + 1) u t a back v' (omega (arith, n)) e1 in
      (v'', Turned-Flushed file k i s u t step rest)

  -- A flush of a file that succeeds leaves the map of pages as it is.
  pub flush_file-ShowsPages :
      (file : ℕ) (s t : Sys P) (a : Pages P)
      → ReadsBack P
      → ShowsPages s a
      → flush_file file s ≡ (ok tt, t)
      → ShowsPages t a × Flushed file s.num_bufs 0 s t
  unfolding flush_file
  flush_file-ShowsPages file s t a back v e =
      flush_from-Flushed file s.num_bufs 0 s t a back v (omega arith) e

  -- Every page of the file that the clients know is on the disk then.
  pub flush_file-OnDisk :
      (s t : Sys P) (a : Pages P) (k : ℕ × ℤ) (r : P.Raw)
      → ReadsBack P
      → ShowsPages s a
      → flush_file k.0 s ≡ (ok tt, t)
      → a.content k ≡ some r
      → OnDisk t k r
  flush_file-OnDisk s t a k r back v e known =
      let (v', (_, gone, n)) = flush_file-ShowsPages k.0 s t a back v e in
      let (_, (_, out)) = v'.pages k r known in
      elim (Option-cases (frame_of t k)) [
        | inl absent ↦ out absent
        | inr (i, at) ↦
            let (lt, held, mine, _) = v'.pool.sound.1 k i at in
            absurd (gone i (omega arith) (omega (arith, n)) held mine)
      ]

  and_then-pinned :
      {A B : Type 0} (f : A → M (Sys P) B) (r : Res A × Sys P) (t : Sys P)
      → and_then f r ≡ (err page_pinned, t)
      → (r ≡ (err page_pinned, t))
        ⊎ ((a : A) × (u : Sys P) × (r ≡ (ok a, u)) × (f a u ≡ (err page_pinned, t)))
  and_then-pinned f (ok a, u) t e = inr (a, u, refl, e)
  and_then-pinned {A} {B} f (err x, u) t e =
      let same : x ≡ page_pinned = ground arith in
      inl (λ i. (err (same i), ap (λ (y : Res B × Sys P). y.1) e i))
  and_then-pinned f (undefined, u) t e = absurd (ground arith)

  write_dirty-ne : (i : ℕ) (s : Sys P) → (write_dirty i s).0 ≡ err page_pinned → ⊥
  unfolding write_dirty write_page int_write
  write_dirty-ne i s e = ground arith

  flush_frame-pinned :
      (file i : ℕ) (s t : Sys P) → flush_frame file i s ≡ (err page_pinned, t) → s ≡ t
  unfolding flush_frame empty_frame
  flush_frame-pinned file i s t e =
      elim (Bool-cases ((s.desc i).valid && ((s.desc i).file == file))) [
        | inr other ↦ elim (Bool-cases (not (s.desc i).valid && ((s.desc i).file == file))) [
          | inl stale ↦ absurd (ground arith)
          | inr keep ↦ absurd (ground arith)
        ]
        | inl mine ↦ elim (Bool-cases (ltb 0 (s.desc i).pin_cnt)) [
          | inl pinned ↦
              let e' = rw (mine, pinned) at e in ap (λ (y : Res (Unit {0}) × Sys P). y.1) e'
          | inr idle ↦ elim (and_then-pinned _ (write_dirty i s) t (rw (mine, idle) at e)) [
            | inl failed ↦
                absurd (write_dirty-ne i s (ap (λ (y : Res (Unit {0}) × Sys P). y.0) failed))
            | inr (_, u, _, e') ↦
                let (_, e2) =
                  guarded-err (BufHash.in_array u.ht_size (file, (u.desc i).page_no))
                    (λ x. (ok (tt {0}), release_frame file i x)) e' in
                absurd (ground (arith, e2))
          ]
        ]
      ]

  flush_from-pinned :
      (file k i : ℕ) (s t : Sys P) (a : Pages P)
      → ReadsBack P
      → ShowsPages s a
      → i + k ≤ s.num_bufs
      → flush_from file k i s ≡ (err page_pinned, t)
      → ShowsPages t a
  unfolding flush_from ◌>>=◌
  flush_from-pinned file zero i s t a back v le e = absurd (ground arith)
  flush_from-pinned file (suc k) i s t a back v le e =
      elim (and_then-pinned _ (flush_frame file i s) t e) [
        | inl stopped ↦ subst (λ x. ShowsPages x a) (flush_frame-pinned file i s t stopped) v
        | inr (_, u, turned, e') ↦
            let pool =
              subst (λ (r : Res (Unit {0}) × Sys P). IsPool r.1) turned
                (flush_frame-Preserves file i s v.pool) in
            let (v', step) = flush_frame-Turned file i s u a back v (omega arith) pool turned in
            let (_, _, n) = step in
            flush_from-pinned file k (i + 1) u t a back v' (omega (arith, n)) e'
      ]

  -- A flushFile that stops at a page that is pinned.
  pub flush_refused-ShowsPages :
      (file : ℕ) (s t : Sys P) (a : Pages P)
      → ReadsBack P
      → ShowsPages s a
      → flush_file file s ≡ (err page_pinned, t)
      → ShowsPages t a
  unfolding flush_file
  flush_refused-ShowsPages file s t a back v e =
      flush_from-pinned file s.num_bufs 0 s t a back v (omega arith) e
