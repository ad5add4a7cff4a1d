-- ===== src/Buffer/Map/Evicted.antt =====
-- No page is lost when allocBuf gives a frame away.
use database_management_syst.Common.{
  ℕ, ◌<◌, ◌≡◌, ◌≢◌, sym, ap, ◌∙◌, inl, inr, true, false, some, arith, Bool-cases, ℤ, page_key,
}
use database_management_syst.Platform.{Platform, ReadsBack}
use database_management_syst.System.{Sys}
use database_management_syst.Buffer.Sound.{frame_of}
use database_management_syst.Buffer.Map.Disk.{
  IsOpened-files, OnDisk, IsOpened, Wrote-OnDisk, Wrote-other, OnDisk-eq,
}
use database_management_syst.Buffer.Map.Evict.{key_of}
use database_management_syst.Buffer.Map.Taken.{Gone, Takes}
use database_management_syst.Buffer.Map.View.{Pages, Shows, ShowsBut, ShowsPages}

module _ {P : Platform} where
  module _ (reads : ReadsBack P) (s u : Sys P) (a : Pages P) (i : ℕ) (v : ShowsPages s a)
      (t : Takes s u i) where
    in_pool : i < s.num_bufs
    in_pool = omega (arith, t.lt, t.kept.num_bufs)

    opened : (f : ℕ) → IsOpened s f → IsOpened u f
    opened f = IsOpened-files f t.kept.files

    -- A page whose entry is as it was is not the one that was written.
    kept-OnDisk :
        (q : ℕ × ℤ) (r : P.Raw)
        → frame_of u q ≡ frame_of s q
        → IsOpened s q.0
        → OnDisk s q r
        → OnDisk u q r
    kept-OnDisk q r same o on = elim t.saved [
      | inr (clean, at) ↦ OnDisk-eq s u q r t.kept.files at on
      | inl (changed, wrote) ↦ elim (Bool-cases (s.desc i).valid) [
        | inl held ↦
            let (listed, o') = v.listed i (λ x. x) in_pool held in
            let other : key_of s i ≢ q = λ e. t.unlisted q (same ∙ rw (← e) listed) in
            Wrote-other (key_of s i) q (s.pool i) r s u reads v.apart o' o other wrote on
        | inr free ↦ absurd (ground (arith, v.unused i (λ x. x) in_pool free))
      ]
    ]

    kept-Shows :
        (q : ℕ × ℤ) (r : P.Raw)
        → frame_of u q ≡ frame_of s q
        → IsOpened s q.0
        → Shows s a q r
        → Shows u a q r
    kept-Shows q r same o (within, out) = (
      λ j at.
          let (block, on) = within j (sym same ∙ at) in
          (
            ap (λ (pool : ℕ → P.Raw). pool j) t.kept.pool ∙ block,
            λ clean un. kept-OnDisk q r same o (on (sym (t.kept.dirty j) ∙ clean) un),
          ),
      λ absent. kept-OnDisk q r same o (out (sym same ∙ absent)),
    )

    -- The page of the frame that is given away is on the disk now.
    gone-OnDisk :
        (r : P.Raw)
        → (s.desc i).valid ≡ true
        → (s.desc i).pin_cnt ≡ 0
        → Shows s a (key_of s i) r
        → OnDisk u (key_of s i) r
    gone-OnDisk r held idle (within, out) =
        let (listed, o) = v.listed i (λ x. x) in_pool held in
        let (block, on) = within i listed in
        elim t.saved [
          | inl (changed, wrote) ↦
              rw (← block) (Wrote-OnDisk (key_of s i) (s.pool i) s u reads wrote)
          | inr (clean, at) ↦
              let un : a.changed (key_of s i) ≡ false =
                ground (arith, v.pinned (key_of s i) i listed) in
              OnDisk-eq s u (key_of s i) r t.kept.files at (on clean un)
        ]

    Gone-Shows :
        (q : ℕ × ℤ) (r : P.Raw) → Gone s u i q → IsOpened s q.0 → Shows s a q r → Shows u a q r
    Gone-Shows q r (inl same) o shows = kept-Shows q r same o shows
    Gone-Shows q r (inr (key, absent, held, idle)) o shows =
        (λ j at. absurd (ground arith), λ _. rw key (gone-OnDisk r held idle (rw key at shows)))

    kept-frame_of :
        (q : ℕ × ℤ) (j : ℕ) → j ≢ i → frame_of s q ≡ some j → Gone s u i q → frame_of u q ≡ some j
    kept-frame_of q j ne at (inl same) = same ∙ at
    kept-frame_of q j ne at (inr (key, absent, held, idle)) =
        let (listed, _) = v.listed i (λ x. x) in_pool held in
        absurd (ne (ground (arith, rw key at at)))

    Gone-frame_of :
        (q : ℕ × ℤ) (j : ℕ) → Gone s u i q → frame_of u q ≡ some j → frame_of s q ≡ some j
    Gone-frame_of q j (inl same) at = sym same ∙ at
    Gone-frame_of q j (inr (key, absent, held, idle)) at = absurd (ground arith)

    -- No page is lost.
    pub Takes-ShowsBut : ShowsBut (λ j. j ≡ i) u a
    Takes-ShowsBut = record {
      pool = t.pool;
      apart = rw t.kept.files v.apart;
      listed = λ j ne lt held.
          let (listed, o) =
            v.listed j (λ x. x) (omega (arith, t.kept.num_bufs)) (sym (t.kept.valid j) ∙ held) in
          let key : key_of s j ≡ key_of u j =
            λ x. (sym (t.kept.file j) x, sym (t.kept.page_no j) x) in
          (
            rw (← key) (kept-frame_of (key_of s j) j ne listed (t.gone (key_of s j))),
            opened (u.desc j).file (rw (t.kept.file j) o),
          );
      unused = λ j ne lt free.
          t.kept.dirty j
          ∙ v.unused j (λ x. x) (omega (arith, t.kept.num_bufs)) (sym (t.kept.valid j) ∙ free);
      pinned = λ k j at changed.
          omega (arith, t.kept.pin_cnt j, v.pinned k j (Gone-frame_of k j (t.gone k) at) changed);
      pages = λ k r at.
          let (o, shows) = v.pages k r at in (opened k.0 o, Gone-Shows k r (t.gone k) o shows);
    }
