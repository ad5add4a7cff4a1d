-- ===== src/Buffer/Map/Refused.antt =====
-- readPage and allocPage of buf.cpp when there is no frame to give.
use database_management_syst.Common.{
  ◌≢◌, ℕ, not, ◌&&◌, ◌*◌, ◌<◌, ◌≡◌, refl, ap, subst, ◌∙◌, inl, inr, arith, ◌==◌, Bool-cases, ℤ,
  page_key,
}
use database_management_syst.Status.{Status, Res, ok, err, undefined, buffer_exceeded}
use database_management_syst.Monad.{M, ◌>>=◌, ◌>>◌, and_then, pure}
use database_management_syst.Platform.{Platform, ReadsBack}
use database_management_syst.System.{Sys}
use database_management_syst.BufHash
use database_management_syst.HashTable
use database_management_syst.FileIo.{allocate_page, read_page_into, int_read_into}
use database_management_syst.Buffer.{
  take_frame, sweep, finish_alloc, alloc_buf, fill_frame, enter_frame, load_page, pin_frame,
  on_lookup, read_page, alloc_page,
}
use database_management_syst.Buffer.Clock.{Kept, sweep-Kept}
use database_management_syst.Buffer.Laps.{IsBusy, sweep-lt}
use database_management_syst.Buffer.Rounds.{Allocates, alloc_buf-if_defined, take_frame-ne}
use database_management_syst.Buffer.Calls.{IsPool, read_page-Preserves, alloc_page-Preserves}
use database_management_syst.Buffer.Map.Evict.{Leaves, sweep-Leaves, sweep-fs}
use database_management_syst.Buffer.Map.Disk.{guarded_page, OnDisk-eq, IsOpened}
use database_management_syst.Buffer.Map.View.{Pages, ShowsPages}
use database_management_syst.Buffer.Map.Spared.{allocate_page-Spares}
use database_management_syst.Buffer.Map.Allotted.{forgotten, Spares-ShowsPages}
use database_management_syst.Buffer.Same.{Same, allocate_page-DiskOnly}
use database_management_syst.Buffer.Map.Unmoved.{unmoved-ShowsPages}

module _ {P : Platform} where
  -- Only the reference bits, the clock hand and the statistics are changed.
  abbrev Turns : Sys P → Sys P → Type 0
  Turns s t = Kept s t × (t.frame_table ≡ s.frame_table) × (t.fs ≡ s.fs)

  -- The loop without a frame to give.
  sweep-Turns :
      (n : ℕ) (s : Sys P)
      → s.clock_hand < s.num_bufs
      → ((i : ℕ) → i < s.num_bufs → IsBusy s i)
      → Leaves s (sweep n s)
      → Turns s (sweep n s).1
  sweep-Turns n s h busy (inl (_, _, table)) = (sweep-Kept n s, table, sweep-fs n s)
  sweep-Turns n s h busy (inr (inl (_, table))) = (sweep-Kept n s, table, sweep-fs n s)
  sweep-Turns n s h busy (inr (inr (_, idle, _))) =
      let t = (sweep n s).1 in
      let lt : t.clock_hand < s.num_bufs =
        omega (arith, sweep-lt n s h, (sweep-Kept n s).num_bufs) in
      absurd (omega (arith, (busy t.clock_hand lt).1))

  handed-err :
      (r : Res (Unit {0}) × Sys P) (t : Sys P) (e : Status)
      → and_then (λ _ u. (ok u.clock_hand, u)) r ≡ (err e, t)
      → r ≡ (err e, t)
  handed-err (ok _, u) t e eq = absurd (ground arith)
  handed-err (err x, u) t e eq =
      λ i. (err ((let same : x ≡ e = ground arith in same i)), ap (λ (y : Res ℕ × Sys P). y.1) eq i)
  handed-err (undefined, u) t e eq = absurd (ground arith)

  alloc_buf-Turns :
      (s t : Sys P) → s.clock_hand < s.num_bufs → alloc_buf s ≡ (err buffer_exceeded, t) → Turns s t
  unfolding alloc_buf finish_alloc
  alloc_buf-Turns s t h e =
      let n = 2 * s.num_bufs in
      let w = (sweep n s).0 in
      let u = (sweep n s).1 in
      let all =
        subst (λ (r : Res ℕ × Sys P). r.0 ≢ undefined → Allocates s r.0) e
          (alloc_buf-if_defined s h) (λ e'. absurd (ground arith)) in
      elim (Bool-cases (not w.found && (w.left == 0))) [
        | inl out ↦
            let at : u ≡ t = ap (λ (r : Res ℕ × Sys P). r.1) (rw out at e) in
            subst (λ x. Turns s x) at (sweep-Turns n s h (all.0 refl) (sweep-Leaves n s))
        | inr stopped ↦
            absurd {A = Turns s t} (
              take_frame-ne w u t (handed-err (take_frame w u) t buffer_exceeded (rw stopped at e)))
      ]

  -- What follows allocBuf fails with other codes.
  fill_frame-ne :
      (file : ℕ) (p : ℤ) (i : ℕ) (s : Sys P) → (fill_frame file p i s).0 ≡ err buffer_exceeded → ⊥
  unfolding fill_frame read_page_into int_read_into
  fill_frame-ne file p i s e = ground arith

  enter_frame-ne :
      (file : ℕ) (p : ℤ) (i : ℕ) (s : Sys P) → (enter_frame file p i s).0 ≡ err buffer_exceeded → ⊥
  unfolding enter_frame BufHash.insert HashTable.insert
  enter_frame-ne file p i s e = ground arith

  and_then-ne :
      {A B : Type 0} (f : A → M (Sys P) B) (r : Res A × Sys P) (x : Status)
      → (r.0 ≡ err x → ⊥)
      → ((a : A) (u : Sys P) → (f a u).0 ≡ err x → ⊥)
      → (and_then f r).0 ≡ err x
      → ⊥
  and_then-ne f (ok a, u) x n m e = m a u e
  and_then-ne f (err y, u) x n m e = n (ground arith)
  and_then-ne f (undefined, u) x n m e = absurd (ground arith)

  given-Turns :
      (file : ℕ) (p : ℤ) (s t : Sys P) (r : Res ℕ × Sys P)
      → s.clock_hand < s.num_bufs
      → alloc_buf s ≡ r
      → and_then (λ i. fill_frame file p i >> (enter_frame file p i >> pure i)) r
        ≡ (err buffer_exceeded, t)
      → Turns s t
  unfolding ◌>>=◌
  given-Turns file p s t (ok i, u) h given e = absurd (
      and_then-ne _ (fill_frame file p i u) buffer_exceeded (fill_frame-ne file p i u)
        (λ _ v.
          and_then-ne _ (enter_frame file p i v) buffer_exceeded (enter_frame-ne file p i v)
            (λ _ w e'. absurd (ground arith)))
        (ap (λ (y : Res ℕ × Sys P). y.0) e))
  given-Turns file p s t (err x, u) h given e = alloc_buf-Turns s t h (
      given ∙ λ i. (
        err ((let same : x ≡ buffer_exceeded = ground arith in same i)),
        ap (λ (y : Res ℕ × Sys P). y.1) e i,
      ))
  given-Turns file p s t (undefined, u) h given e = absurd (ground arith)

  looked-Turns :
      (k : ℕ × ℤ) (s t : Sys P) (r : Res ℕ)
      → s.clock_hand < s.num_bufs
      → on_lookup r (λ frame u. (ok frame, pin_frame frame u)) (λ e. load_page k.0 k.1) s
        ≡ (err buffer_exceeded, t)
      → Turns s t
  unfolding load_page ◌>>=◌
  looked-Turns k s t (ok i) h e = absurd (ground arith)
  looked-Turns k s t (err x) h e = given-Turns k.0 k.1 s t (alloc_buf s) h refl e
  looked-Turns k s t undefined h e = absurd (ground arith)

  stays-ShowsPages :
      (s t : Sys P) (a : Pages P) → ShowsPages s a → Turns s t → IsPool t → ShowsPages t a
  stays-ShowsPages s t a v (kept, table, fs) pool =
      unmoved-ShowsPages s t a a v kept table
        (record {
          known = λ q r at. at;
          disk = λ q r at o on. OnDisk-eq s t q r kept.files fs on;
          clean = λ q r at un. un;
          changed = λ q c. c;
        })
        pool

  -- A readPage that fails with BUFFEREXCEEDED.
  pub refused-ShowsPages :
      (k : ℕ × ℤ) (s t : Sys P) (a : Pages P)
      → ShowsPages s a
      → read_page k.0 k.1 s ≡ (err buffer_exceeded, t)
      → ShowsPages t a
  unfolding read_page
  refused-ShowsPages k s t a v e =
      stays-ShowsPages s t a v
        (looked-Turns k s t (BufHash.lookup s.ht_size k s.frame_table) v.pool.hand e)
        (subst (λ (y : Res ℕ × Sys P). IsPool y.1) e (read_page-Preserves k.0 k.1 s v.pool))

  -- An allocPage that finds no frame to give, behind the file's allocatePage.
  refused_rest-Turns :
      (file : ℕ) (p : ℤ) (s t : Sys P) (r : Res ℕ × Sys P)
      → s.clock_hand < s.num_bufs
      → alloc_buf s ≡ r
      → and_then {B = ℤ × ℕ} (λ i. enter_frame file p i >> pure (p, i)) r ≡ (err buffer_exceeded, t)
      → Turns s t
  unfolding ◌>>=◌
  refused_rest-Turns file p s t (ok i, u) h given e = absurd (
      and_then-ne _ (enter_frame file p i u) buffer_exceeded (enter_frame-ne file p i u)
        (λ _ w e'. absurd (ground arith)) (ap (λ (y : Res (ℤ × ℕ) × Sys P). y.0) e))
  refused_rest-Turns file p s t (err x, u) h given e = alloc_buf-Turns s t h (
      given ∙ λ i. (
        err ((let same : x ≡ buffer_exceeded = ground arith in same i)),
        ap (λ (y : Res (ℤ × ℕ) × Sys P). y.1) e i,
      ))
  refused_rest-Turns file p s t (undefined, u) h given e = absurd (ground arith)

  pub alloc_refused-ShowsPages :
      (file : ℕ) (p : ℤ) (s u t : Sys P) (a : Pages P)
      → ReadsBack P
      → ShowsPages s a
      → IsOpened s file
      → allocate_page file s ≡ (ok p, u)
      → alloc_page file s ≡ (err buffer_exceeded, t)
      → ShowsPages t (forgotten (file, p) a)
  unfolding alloc_page ◌>>=◌
  alloc_refused-ShowsPages file p s u t a back v o allotted e =
      let same =
        subst (λ (y : Res ℤ × Sys P). Same s y.1) allotted (allocate_page-DiskOnly file s) in
      let spares = allocate_page-Spares back file s u p v.apart o allotted in
      let v1 = Spares-ShowsPages (file, p) s u a v same spares in
      let pool =
        subst (λ (y : Res (ℤ × ℕ) × Sys P). IsPool y.1) e (alloc_page-Preserves file s v.pool) in
      let rest = rw (guarded_page file o.0, allotted) at e in
      stays-ShowsPages u t (forgotten (file, p) a) v1
        (refused_rest-Turns file p u t (alloc_buf u) v1.pool.hand refl rest) pool
