-- ===== src/Buffer/Map/Disk.antt =====
-- The pages on the disk, as the buffer manager's writes leave them.
use database_management_syst.Common.{
  not, subst, ℕ, ◌<◌, ◌≡◌, ◌≢◌, refl, sym, ap, ◌∙◌, inl, inr, Bool, true, false, arith, Bool-cases,
  ◌==◌, ==_iff, ℤ, pos, ltb_ℤ, page_key,
}
use database_management_syst.Status.{Res, ok}
use database_management_syst.Platform.{Platform, ReadsBack}
use database_management_syst.System.{Sys, FileObj}
use database_management_syst.FileIo.{write_page, int_write, unix_status}

-- An object that is not NULL, and open.
abbrev pub OpenedIn : (ℕ → FileObj) → ℕ → Type 0
OpenedIn files f = (f ≢ 0) × (0 < (files f).open_cnt)

pub IsOpened-files : {g h : ℕ → FileObj} (f : ℕ) → h ≡ g → OpenedIn g f → OpenedIn h f
IsOpened-files f e o = subst (λ (g : ℕ → FileObj). OpenedIn g f) (sym e) o

-- A call through the pointer to an object that is there.
pub guarded_page : (file : ℕ) → file ≢ 0 → not (file == 0) ≡ true
guarded_page file ne = ground (arith, ==_iff file 0)

module _ {P : Platform} where
  -- A read of the page gives the block, whatever the memory held that it is read into.
  abbrev pub OnDisk : Sys P → ℕ × ℤ → P.Raw → Type 0
  OnDisk s k r = (old : P.Raw) → P.pread (s.files k.0).unix_file k.1 s.fs old ≡ (true, r)

  abbrev pub IsOpened : Sys P → ℕ → Type 0
  IsOpened s f = OpenedIn s.files f

  -- What POSIX says of two descriptors of different files: a write through one of them leaves what
  -- the other reads. The File objects that are open are of different files.
  abbrev pub Apart : Sys P → Type 0
  Apart s =
      (f g : ℕ)
      → IsOpened s f
      → IsOpened s g
      → f ≢ g
      → (p q : ℤ) (r old : P.Raw) (fs : P.Fs) → (P.pwrite (s.files f).unix_file p r fs).0 ≡ true
      → (P.pread (s.files g).unix_file q fs old).0 ≡ true
      → P.pread (s.files g).unix_file q (P.pwrite (s.files f).unix_file p r fs).1 old
        ≡ P.pread (s.files g).unix_file q fs old

  pub unix_status-ok :
      (s t : Sys P) (r : Bool × P.Fs)
      → unix_status s r ≡ (ok tt, t)
      → (r.0 ≡ true) × (t ≡ record s { fs = r.1 })
  unix_status-ok s t (true, fs) e = (refl, sym (ap (λ (y : Res (Unit {0}) × Sys P). y.1) e))
  unix_status-ok s t (false, fs) e = absurd (ground arith)

  -- A write of a page that succeeds.
  abbrev pub Wrote : ℕ × ℤ → P.Raw → Sys P → Sys P → Type 0
  Wrote k r s t =
      ((P.pwrite (s.files k.0).unix_file k.1 r s.fs).0 ≡ true)
      × (t.files ≡ s.files)
      × (t.fs ≡ (P.pwrite (s.files k.0).unix_file k.1 r s.fs).1)

  pub write_page-Wrote :
      (k : ℕ × ℤ) (r : P.Raw) (s t : Sys P) → write_page k.0 k.1 r s ≡ (ok tt, t) → Wrote k r s t
  unfolding write_page int_write
  write_page-Wrote k r s t e = elim (Bool-cases (ltb_ℤ k.1 (pos 1))) [
    | inl low ↦ absurd (ground arith)
    | inr high ↦ let (done, at) = unix_status-ok s t _ (rw high at e) in rw at (done, refl, refl)
  ]

  pub Wrote-OnDisk :
      (k : ℕ × ℤ) (r : P.Raw) (s t : Sys P) → ReadsBack P → Wrote k r s t → OnDisk t k r
  Wrote-OnDisk k r s t reads (done, files, at) old =
      rw (files, at) (reads.read_written (s.files k.0).unix_file k.1 r old s.fs done)

  read_after :
      (k q : ℕ × ℤ) (r x old : P.Raw) (s : Sys P)
      → ReadsBack P
      → Apart s
      → IsOpened s k.0
      → IsOpened s q.0
      → k ≢ q
      → (P.pwrite (s.files k.0).unix_file k.1 r s.fs).0 ≡ true
      → OnDisk s q x
      → P.pread (s.files q.0).unix_file q.1 (P.pwrite (s.files k.0).unix_file k.1 r s.fs).1 old
        ≡ (true, x)
  read_after k q r x old s reads apart o o' ne done on = elim (Bool-cases (k.0 == q.0)) [
    | inl hit ↦
        let same : k.0 ≡ q.0 = (==_iff k.0 q.0).0 hit in
        let other : k.1 ≢ q.1 = λ e. ne (λ i. (same i, e i)) in
        let fd = ap (λ f. (s.files f).unix_file) same in
        rw fd (
          reads.read_other (s.files q.0).unix_file k.1 q.1 r old s.fs (rw fd at done) other
            (ap (λ (y : Bool × P.Raw). y.0) (on old))
          ∙ on old)
    | inr miss ↦
        let other : k.0 ≢ q.0 = ground (arith, ==_iff k.0 q.0) in
        apart k.0 q.0 o o' other k.1 q.1 r old s.fs done (ap (λ (y : Bool × P.Raw). y.0) (on old))
        ∙ on old
  ]

  -- Another page is as it was on the disk.
  pub Wrote-other :
      (k q : ℕ × ℤ) (r x : P.Raw) (s t : Sys P)
      → ReadsBack P
      → Apart s
      → IsOpened s k.0
      → IsOpened s q.0
      → k ≢ q
      → Wrote k r s t
      → OnDisk s q x
      → OnDisk t q x
  Wrote-other k q r x s t reads apart o o' ne (done, files, at) on old =
      rw (files, at) (read_after k q r x old s reads apart o o' ne done on)

  pub OnDisk-eq :
      (s t : Sys P) (k : ℕ × ℤ) (r : P.Raw)
      → t.files ≡ s.files
      → t.fs ≡ s.fs
      → OnDisk s k r
      → OnDisk t k r
  OnDisk-eq s t k r files at on old = rw (files, at) (on old)
