-- ===== src/Buffer/Map/Spared.antt =====
-- Which pages of the disk the calls of class File in db.cpp change.
use database_management_syst.Common.{
  ℕ, not, ◌||◌, ◌≡◌, ◌≢◌, refl, sym, ap, subst, ◌∙◌, inl, inr, arith, if◌then◌else◌, Bool-cases, ℤ,
  pos, minus_one, eq_ℤ, ltb_ℤ,
}
use database_management_syst.Status.{Res, ok, err, undefined}
use database_management_syst.Monad.{◌>>=◌, ◌>>◌, pure, and_then-ok}
use database_management_syst.Platform.{Platform, DbPage, ReadsBack}
use database_management_syst.System.{Sys}
use database_management_syst.FileIo.{
  int_read_into, int_read, int_write, local_block, take_free, extend_file, allocate_page, free_page,
  dispose_page,
}
use database_management_syst.Buffer.Map.Disk.{
  IsOpened-files, OnDisk, IsOpened, Apart, Wrote, unix_status-ok, Wrote-other,
}

module _ {P : Platform} where
  -- The pages other than page p and the header page of the file are as they were.
  abbrev pub Spares : ℕ → ℤ → Sys P → Sys P → Type 0
  Spares file p s t =
      (t.files ≡ s.files)
      × ((q : ℕ × ℤ) (r : P.Raw)
          → q ≢ (file, p)
          → q ≢ (file, pos 0)
          → IsOpened s q.0
          → OnDisk s q r
          → OnDisk t q r)

  Spares-refl : (file : ℕ) (p : ℤ) (s : Sys P) → Spares file p s s
  Spares-refl file p s = (refl, λ q r ne ne' o on. on)

  Spares-trans :
      (file : ℕ) (p : ℤ) (s t u : Sys P) → Spares file p s t → Spares file p t u → Spares file p s u
  Spares-trans file p s t u (f, keep) (f', keep') =
      (f' ∙ f, λ q r ne ne' o on. keep' q r ne ne' (IsOpened-files q.0 f o) (keep q r ne ne' o on))

  local_block-same :
      (s t : Sys P) (b : P.Raw) (r : Res (Unit {0}) × P.Raw) → local_block r s ≡ (ok b, t) → s ≡ t
  local_block-same s t b (ok _, x) e = ap (λ (y : Res P.Raw × Sys P). y.1) e
  local_block-same s t b (err c, x) e = absurd (ground arith)
  local_block-same s t b (undefined, x) e = absurd (ground arith)

  int_read-same :
      (file : ℕ) (p : ℤ) (s t : Sys P) (b : P.Raw) → int_read file p s ≡ (ok b, t) → s ≡ t
  unfolding int_read
  int_read-same file p s t b e = local_block-same s t b (int_read_into file p P.zeroed s) e

  int_write-Wrote :
      (file : ℕ) (p : ℤ) (b : P.Raw) (s t : Sys P)
      → int_write file p b s ≡ (ok tt, t)
      → Wrote (file, p) b s t
  unfolding int_write
  int_write-Wrote file p b s t e =
      let (done, at) = unix_status-ok s t _ e in rw at (done, refl, refl)

  module _ (back : ReadsBack P) (file : ℕ) where
    -- A write of page p, or of the header page.
    Wrote-Spares :
        (p n : ℤ) (b : P.Raw) (s t : Sys P)
        → Apart s
        → IsOpened s file
        → ((q : ℕ × ℤ) → q ≢ (file, p) → q ≢ (file, pos 0) → (file, n) ≢ q)
        → Wrote (file, n) b s t
        → Spares file p s t
    Wrote-Spares p n b s t apart o other wrote = (
      wrote.1,
      λ q r ne ne' o' on. Wrote-other (file, n) q b r s t back apart o o' (other q ne ne') wrote on,
    )

    take_free-Spares :
        (h : DbPage) (s t : Sys P) (p : ℤ) (h' : DbPage)
        → take_free file h s ≡ (ok (p, h'), t)
        → s ≡ t
    unfolding take_free ◌>>=◌
    take_free-Spares h s t p h' e =
        let (b, u, read, e1) = and_then-ok _ (int_read file h.next_free s) e in
        int_read-same file h.next_free s u b read ∙ ap (λ (y : Res (ℤ × DbPage) × Sys P). y.1) e1

    extend_file-Spares :
        (h : DbPage) (s t : Sys P) (p : ℤ) (h' : DbPage)
        → Apart s
        → IsOpened s file
        → extend_file file h s ≡ (ok (p, h'), t)
        → Spares file p s t
    unfolding extend_file ◌>>=◌
    extend_file-Spares h s t p h' apart o e =
        let (_, u, wrote, e1) = and_then-ok _ (int_write file h.num_pages P.zeroed s) e in
        let at : u ≡ t = ap (λ (y : Res (ℤ × DbPage) × Sys P). y.1) e1 in
        let page : h.num_pages ≡ p = ground arith in
        subst (λ x. Spares file p s x) at
          (Wrote-Spares p h.num_pages P.zeroed s u apart o
            (λ q ne ne' same. ne (sym same ∙ (λ i. (file, page i))))
            (int_write-Wrote file h.num_pages P.zeroed s u wrote))

    header_write-Spares :
        (p : ℤ) (b : P.Raw) (s t : Sys P)
        → Apart s
        → IsOpened s file
        → int_write file (pos 0) b s ≡ (ok tt, t)
        → Spares file p s t
    header_write-Spares p b s t apart o e =
        Wrote-Spares p (pos 0) b s t apart o (λ q ne ne' same. ne' (sym same))
          (int_write-Wrote file (pos 0) b s t e)

    page_write-Spares :
        (p : ℤ) (b : P.Raw) (s t : Sys P)
        → Apart s
        → IsOpened s file
        → int_write file p b s ≡ (ok tt, t)
        → Spares file p s t
    page_write-Spares p b s t apart o e =
        Wrote-Spares p p b s t apart o (λ q ne ne' same. ne (sym same))
          (int_write-Wrote file p b s t e)

    -- A second call, behind one that spares the pages.
    then-Spares :
        (p : ℤ) (s t u : Sys P)
        → Spares file p s t
        → Apart s
        → IsOpened s file
        → (Apart t → IsOpened t file → Spares file p t u)
        → Spares file p s u
    then-Spares p s t u first apart o second =
        Spares-trans file p s t u first (second (rw first.0 apart) (IsOpened-files file first.0 o))

    free_or_new-Spares :
        (h : DbPage) (s t : Sys P) (p : ℤ) (h' : DbPage)
        → Apart s
        → IsOpened s file
        → (if not (eq_ℤ h.next_free minus_one) then take_free file h else extend_file file h) s
          ≡ (ok (p, h'), t)
        → Spares file p s t
    free_or_new-Spares h s t p h' apart o e = elim (Bool-cases (not (eq_ℤ h.next_free minus_one))) [
      | inl free ↦
          subst (λ x. Spares file p s x) (take_free-Spares h s t p h' (rw free at e))
            (Spares-refl file p s)
      | inr new ↦ extend_file-Spares h s t p h' apart o (rw new at e)
    ]

    header_page :
        (b : P.Raw) (q p : ℤ) (s t : Sys P)
        → (int_write file (pos 0) b >> pure q) s ≡ (ok p, t)
        → q ≡ p
    unfolding ◌>>=◌
    header_page b q p s t e =
        let (_, u, wrote, e1) = and_then-ok _ (int_write file (pos 0) b s) e in ground (arith, e1)

    header_written :
        (s t : Sys P) (b : P.Raw) (q p : ℤ)
        → Apart s
        → IsOpened s file
        → (int_write file (pos 0) b >> pure q) s ≡ (ok p, t)
        → Spares file p s t
    unfolding ◌>>=◌
    header_written s t b q p apart o e =
        let (_, u, wrote, e1) = and_then-ok _ (int_write file (pos 0) b s) e in
        subst (λ x. Spares file p s x) (ap (λ (y : Res ℤ × Sys P). y.1) e1)
          (header_write-Spares p b s u apart o wrote)

    -- allocatePage, if it succeeds.
    pub allocate_page-Spares :
        (s t : Sys P) (p : ℤ)
        → Apart s
        → IsOpened s file
        → allocate_page file s ≡ (ok p, t)
        → Spares file p s t
    unfolding allocate_page ◌>>=◌
    allocate_page-Spares s t p apart o e =
        let (b, s1, read, e1) = and_then-ok _ (int_read file (pos 0) s) e in
        let start = int_read-same file (pos 0) s s1 b read in
        let h = P.dbp b in
        let (given, s2, e2, e3) =
          and_then-ok (λ (r : ℤ × DbPage). int_write file (pos 0) (P.set_dbp r.1 b) >> pure r.0)
            ((if not (eq_ℤ h.next_free minus_one) then take_free file h else extend_file file h) s1)
            e1 in
        let first : Spares file given.0 s s2 =
          free_or_new-Spares h s s2 given.0 given.1 apart o (rw start e2) in
        let page : given.0 ≡ p = header_page (P.set_dbp given.1 b) given.0 p s2 t e3 in
        then-Spares p s s2 t (subst (λ q. Spares file q s s2) page first) apart o
          (λ apart' o'. (header_written s2 t (P.set_dbp given.1 b) given.0 p apart' o' e3))

    free_page-Spares :
        (p : ℤ) (b : P.Raw) (s t : Sys P)
        → Apart s
        → IsOpened s file
        → free_page file p b s ≡ (ok tt, t)
        → Spares file p s t
    unfolding free_page ◌>>=◌
    free_page-Spares p b s t apart o e =
        let (_, s1, read, e1) = and_then-ok _ (int_read file p s) e in
        let start = int_read-same file p s s1 _ read in
        let block =
          P.set_dbp (record (P.dbp P.zeroed) { next_free = (P.dbp b).next_free }) P.zeroed in
        let (_, s2, wrote, e2) = and_then-ok _ (int_write file p block s1) e1 in
        then-Spares p s s2 t (page_write-Spares p block s s2 apart o (rw start wrote)) apart o
          (λ apart' o'. header_write-Spares p _ s2 t apart' o' e2)

    -- disposePage, if it succeeds.
    pub dispose_page-Spares :
        (p : ℤ) (s t : Sys P)
        → Apart s
        → IsOpened s file
        → dispose_page file p s ≡ (ok tt, t)
        → Spares file p s t
    unfolding dispose_page ◌>>=◌
    dispose_page-Spares p s t apart o e = elim (Bool-cases (ltb_ℤ p (pos 1))) [
      | inl low ↦ absurd (ground arith)
      | inr high ↦
          let (b, s1, read, e1) = and_then-ok _ (int_read file (pos 0) s) (rw high at e) in
          let start = int_read-same file (pos 0) s s1 b read in
          elim (Bool-cases (eq_ℤ (P.dbp b).first_page p || not (ltb_ℤ p (P.dbp b).num_pages))) [
            | inl bad ↦ absurd (ground arith)
            | inr good ↦ free_page-Spares p b s t apart o (rw (good, ← start) at e1)
          ]
    ]
