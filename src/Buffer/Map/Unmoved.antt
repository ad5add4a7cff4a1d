-- ===== src/Buffer/Map/Unmoved.antt =====
-- A call that leaves the pages in their frames.
use database_management_syst.Common.{ℕ, ◌≡◌, sym, ap, ◌∙◌, true, false, some, arith, ℤ, page_key}
use database_management_syst.Platform.{Platform}
use database_management_syst.System.{Sys}
use database_management_syst.Buffer.Clock.{Kept}
use database_management_syst.Buffer.Sound.{frame_of, frame_of-eq}
use database_management_syst.Buffer.Calls.{IsPool}
use database_management_syst.Buffer.Map.Disk.{IsOpened-files, OnDisk, IsOpened}
use database_management_syst.Buffer.Map.Evict.{key_of}
use database_management_syst.Buffer.Map.View.{Pages, Shows, ShowsPages}

module _ {P : Platform} where
  -- The map b has no page that a does not have, and these are on the disk as they were.
  pub record Loses (s t : Sys P) (a b : Pages P) : Type 0 where
    pub known : (q : ℕ × ℤ) (r : P.Raw) → b.content q ≡ some r → a.content q ≡ some r
    pub disk :
        (q : ℕ × ℤ) (r : P.Raw)
        → b.content q ≡ some r
        → IsOpened s q.0
        → OnDisk s q r
        → OnDisk t q r
    pub clean :
        (q : ℕ × ℤ) (r : P.Raw) → b.content q ≡ some r → b.changed q ≡ false → a.changed q ≡ false
    pub changed : (q : ℕ × ℤ) → b.changed q ≡ true → a.changed q ≡ true

  module _ (s t : Sys P) (a b : Pages P) (v : ShowsPages s a) (kept : Kept s t)
      (table : t.frame_table ≡ s.frame_table) (loses : Loses s t a b) where
    same_frame : (q : ℕ × ℤ) → frame_of t q ≡ frame_of s q
    same_frame q = frame_of-eq s t q kept.ht_size table

    opened : (f : ℕ) → IsOpened s f → IsOpened t f
    opened f = IsOpened-files f kept.files

    unmoved-Shows :
        (q : ℕ × ℤ) (r : P.Raw)
        → b.content q ≡ some r
        → IsOpened s q.0
        → Shows s a q r
        → Shows t b q r
    unmoved-Shows q r known o (within, out) = (
      λ i at.
          let (block, on) = within i (sym (same_frame q) ∙ at) in
          (
            ap (λ (x : ℕ → P.Raw). x i) kept.pool ∙ block,
            λ clean un.
                loses.disk q r known o (on (sym (kept.dirty i) ∙ clean) (loses.clean q r known un)),
          ),
      λ absent. loses.disk q r known o (out (sym (same_frame q) ∙ absent)),
    )

    pub unmoved-ShowsPages : IsPool t → ShowsPages t b
    unmoved-ShowsPages pool = record {
      pool = pool;
      apart = rw kept.files v.apart;
      listed = λ i free lt held.
          let (at, o) =
            v.listed i free (omega (arith, kept.num_bufs)) (sym (kept.valid i) ∙ held) in
          let key : key_of s i ≡ key_of t i = λ j. (sym (kept.file i) j, sym (kept.page_no i) j) in
          (rw (← key) (same_frame (key_of s i) ∙ at), opened (t.desc i).file (rw (kept.file i) o));
      unused = λ i free lt idle.
          kept.dirty i ∙ v.unused i free (omega (arith, kept.num_bufs)) (sym (kept.valid i) ∙ idle);
      pinned = λ q i at changed.
          omega (
            arith,
            kept.pin_cnt i,
            v.pinned q i (sym (same_frame q) ∙ at) (loses.changed q changed),
          );
      pages = λ q r known.
          let (o, shows) = v.pages q r (loses.known q r known) in
          (opened q.0 o, unmoved-Shows q r known o shows);
    }
