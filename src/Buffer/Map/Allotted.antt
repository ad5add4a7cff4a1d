-- ===== src/Buffer/Map/Allotted.antt =====
-- allocPage of buf.cpp: the clients lose what they knew of the page and of the header page only.
use database_management_syst.Common.{
  ◌==◌, not, ℕ, ◌≡◌, ◌≢◌, ◌||◌, refl, ap, subst, ◌∙◌, false, none, some, arith, if◌then◌else◌, ℤ,
  pos, page_key, page_key_eq, page_key_eq_iff,
}
use database_management_syst.Status.{Res, ok}
use database_management_syst.Monad.{guarded-ok, ◌>>=◌, ◌>>◌, pure, and_then, and_then-ok}
use database_management_syst.Platform.{Platform, ReadsBack}
use database_management_syst.System.{Sys}
use database_management_syst.FileIo.{allocate_page}
use database_management_syst.Buffer.{through, alloc_buf, enter_frame, alloc_page}
use database_management_syst.Buffer.Same.{Same, allocate_page-DiskOnly}
use database_management_syst.Buffer.Calls.{IsPool, IsPool-Same, alloc_page-Preserves}
use database_management_syst.Buffer.Map.Disk.{IsOpened-files, IsOpened}
use database_management_syst.Buffer.Map.View.{Pages, ShowsPages}
use database_management_syst.Buffer.Map.Unmoved.{Loses, unmoved-ShowsPages}
use database_management_syst.Buffer.Map.Taken.{Same-Kept, Takes, alloc_buf-Takes}
use database_management_syst.Buffer.Map.Evicted.{Takes-ShowsBut}
use database_management_syst.Buffer.Map.Loaded.{Loads, Enters, enter_frame-Enters}
use database_management_syst.Buffer.Map.Entered.{Loads-ShowsPages}
use database_management_syst.Buffer.Map.Spared.{Spares, allocate_page-Spares}

module _ {P : Platform} where
  -- The map without a page and without the header page of its file. No change of the page is due.
  abbrev pub forgotten : ℕ × ℤ → Pages P → Pages P
  forgotten k a = record {
    content = λ q. if page_key_eq q k || page_key_eq q (k.0, pos 0) then none else a.content q;
    changed = λ q. if page_key_eq q k then false else a.changed q;
  }

  pub known_before :
      (k q : ℕ × ℤ) (r : P.Raw) (a : Pages P)
      → (forgotten k a).content q ≡ some r
      → (q ≢ k) × (q ≢ (k.0, pos 0)) × (a.content q ≡ some r)
  known_before k q r a at = (
    λ e. absurd (ground (arith, page_key_eq_iff q k)),
    λ e. absurd (ground (arith, page_key_eq_iff q (k.0, pos 0))),
    ground arith,
  )

  -- A call that changes the two pages on the disk, and nothing else.
  module _ (k : ℕ × ℤ) (s t : Sys P) (a : Pages P) (v : ShowsPages s a) (same : Same s t)
      (spares : Spares k.0 k.1 s t) where
    forgotten-Loses : Loses s t a (forgotten k a)
    forgotten-Loses = record {
      known = λ q r at. let (_, _, known) = known_before k q r a at in known;
      disk = λ q r at o on. let (ne, ne', _) = known_before k q r a at in spares.1 q r ne ne' o on;
      clean = λ q r at un.
          let (ne, _, _) = known_before k q r a at in ground (arith, page_key_eq_iff q k);
      changed = λ q un. ground arith;
    }

    pub Spares-ShowsPages : ShowsPages t (forgotten k a)
    Spares-ShowsPages =
        unmoved-ShowsPages s t a (forgotten k a) v (Same-Kept same) same.frame_table forgotten-Loses
          (IsPool-Same v.pool same)

  entered-Loads : (k : ℕ × ℤ) (i : ℕ) (u w : Sys P) → Enters k i u w → Loads k i u w
  entered-Loads k i u w (t, absent, at, table) = rw at (record {
    files = refl;
    fs = refl;
    num_bufs = refl;
    desc = λ j. refl;
    others = λ j ne. refl;
    absent = absent;
    table = rw at at table;
  })

  allot_rest :
      (file : ℕ) (p : ℤ) (s t : Sys P) (n : ℤ) (i : ℕ)
      → IsPool s
      → and_then {B = ℤ × ℕ} (λ frame. enter_frame file p frame >> pure (p, frame)) (alloc_buf s)
        ≡ (ok (n, i), t)
      → (p ≡ n) × ((u : Sys P) × Takes s u i × Loads (file, p) i u t)
  unfolding ◌>>=◌
  allot_rest file p s t n i pool e =
      let (frame, u, given, e1) = and_then-ok _ (alloc_buf s) e in
      let (_, w, entered, e2) = and_then-ok _ (enter_frame file p frame u) e1 in
      let end : w ≡ t = ap (λ (y : Res (ℤ × ℕ) × Sys P). y.1) e2 in
      let here : frame ≡ i = ground arith in
      let takes = alloc_buf-Takes s u frame pool given in
      let loads =
        entered-Loads (file, p) frame u w
          (enter_frame-Enters (file, p) frame u w takes.pool.sound.0 entered) in
      (
        ground arith,
        (
          u,
          subst (λ (n : ℕ). Takes s u n) here takes,
          subst (λ (x : Sys P × ℕ). Loads (file, p) x.1 u x.0) (λ j. (end j, here j)) loads,
        ),
      )

  -- An allocPage that succeeds.
  pub alloc_page-ShowsPages :
      (file : ℕ) (p : ℤ) (i : ℕ) (s t : Sys P) (a : Pages P)
      → ReadsBack P
      → ShowsPages s a
      → IsOpened s file
      → alloc_page file s ≡ (ok (p, i), t)
      → ShowsPages t (forgotten (file, p) a)
  unfolding alloc_page ◌>>=◌
  alloc_page-ShowsPages file p i s t a back v o e =
      let (n, s1, allots, e1) = and_then-ok _ (through file (allocate_page file) s) e in
      let (_, allotted) = guarded-ok (not (file == 0)) (allocate_page file) allots in
      let same =
        subst (λ (y : Res ℤ × Sys P). Same s y.1) allotted (allocate_page-DiskOnly file s) in
      let spares = allocate_page-Spares back file s s1 n v.apart o allotted in
      let v1 = Spares-ShowsPages (file, n) s s1 a v same spares in
      let (number, (u, takes, loads)) = allot_rest file n s1 t p i v1.pool e1 in
      let opens : IsOpened u file = IsOpened-files file (takes.kept.files ∙ spares.0) o in
      let pool =
        subst (λ (y : Res (ℤ × ℕ) × Sys P). IsPool y.1) e (alloc_page-Preserves file s v.pool) in
      subst (λ m. ShowsPages t (forgotten (file, m) a)) number
        (Loads-ShowsPages (file, n) i u t (forgotten (file, n) a)
          (Takes-ShowsBut back s1 u (forgotten (file, n) a) i v1 takes) takes.unlisted loads
          (λ r known on. absurd ((known_before (file, n) (file, n) r a known).0 refl)) opens pool)
