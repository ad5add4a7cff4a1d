-- ===== src/FileIo/FreeList.antt =====
-- The free list of a file is a stack: what allocatePage does after disposePage.
use database_management_syst.Common.{
  ◌≡◌, refl, sym, ap, subst, ◌∙◌, Bool, true, false, Bool-cases, arith, ◌⊎◌, inl, inr, ◌||◌, not,
  if◌then◌else◌, ℕ, ℤ, pos, minus_one, eq_ℤ, ltb_ℤ,
}
use database_management_syst.Status.{Status, Res, ok, err, unix_err}
use database_management_syst.Monad.{M, ◌>>=◌, ◌>>◌, and_then, and_then-ok, pure, fail}
use database_management_syst.Platform.{Platform, DbPage, ReadsBack}
use database_management_syst.System.{Sys}
use database_management_syst.FileIo.{
  local_block, unix_status, int_read_into, int_read, int_write, take_free, extend_file,
  allocate_page, free_page, dispose_page,
}

res-inj : {A : Type 0} (a b : A) → ok a ≡ ok b → a ≡ b
res-inj a b e = cc

not_end : (p : ℤ) → ltb_ℤ p (pos 1) ≡ false → not (eq_ℤ p minus_one) ≡ true
not_end p e = ground arith

module _ {P : Platform} where
  -- What the disk holds after a successful disposePage.
  record Disposed (file : ℕ) (p : ℤ) (s t : Sys P) : Type 0 where
    block : P.Raw
    on_disk : P.pread (s.files file).unix_file (pos 0) s.fs P.zeroed ≡ (true, block)
    in_range : ltb_ℤ p (pos 1) ≡ false
    link : P.Raw
    link_next : (P.dbp link).next_free ≡ (P.dbp block).next_free
    linked : (P.pwrite (s.files file).unix_file p link s.fs).0 ≡ true
    top : P.Raw
    top_is : P.dbp top ≡ record (P.dbp block) { next_free = p }
    topped :
        (P.pwrite
          (s.files file).unix_file
          (pos 0)
          top
          (P.pwrite (s.files file).unix_file p link s.fs).1).0
        ≡ true
    rest : t ≡ record s {
      fs =
          (P.pwrite
            (s.files file).unix_file
            (pos 0)
            top
            (P.pwrite (s.files file).unix_file p link s.fs).1).1;
    }

  -- A read in a chain of calls that succeeds: what it read, and the rest of the chain.
  read-ok :
      {B : Type 0} (f : P.Raw → M (Sys P) B) (file : ℕ) (p : ℤ) (s : Sys P) {b : B} {t : Sys P}
      → (int_read file p >>= f) s ≡ (ok b, t)
      → (x : P.Raw) × (P.pread (s.files file).unix_file p s.fs P.zeroed ≡ (true, x))
        × (f x s ≡ (ok b, t))
  unfolding int_read int_read_into ◌>>=◌
  read-ok f file p s {b} {t} e = chain (P.pread (s.files file).unix_file p s.fs P.zeroed) e
    where
      chain :
          (r : Bool × P.Raw)
          → and_then f (local_block (if r.0 then ok tt else err unix_err, r.1) s) ≡ (ok b, t)
          → (x : P.Raw) × (r ≡ (true, x)) × (f x s ≡ (ok b, t))
      chain (true, x) e = (x, refl, e)
      chain (false, x) e = absurd (ground arith)

  -- The same for a write, which leaves the file system that the system call left.
  write-ok :
      {B : Type 0} (m : M (Sys P) B) (file : ℕ) (p : ℤ) (x : P.Raw) (s : Sys P) {b : B} {t : Sys P}
      → (int_write file p x >> m) s ≡ (ok b, t)
      → let r = P.pwrite (s.files file).unix_file p x s.fs in
        (r.0 ≡ true) × (m (record s { fs = r.1 }) ≡ (ok b, t))
  unfolding int_write ◌>>=◌
  write-ok m file p x s {b} {t} e = chain (P.pwrite (s.files file).unix_file p x s.fs) e
    where
      chain :
          (r : Bool × P.Fs)
          → and_then (λ _. m) (unix_status s r) ≡ (ok b, t)
          → (r.0 ≡ true) × (m (record s { fs = r.1 }) ≡ (ok b, t))
      chain (true, fs) e = (refl, e)
      chain (false, fs) e = absurd (ground arith)

  last-ok :
      (file : ℕ) (p : ℤ) (x : P.Raw) (s : Sys P) {t : Sys P}
      → int_write file p x s ≡ (ok tt, t)
      → let r = P.pwrite (s.files file).unix_file p x s.fs in
        (r.0 ≡ true) × (record s { fs = r.1 } ≡ t)
  unfolding int_write
  last-ok file p x s {t} e = chain (P.pwrite (s.files file).unix_file p x s.fs) e
    where
      chain :
          (r : Bool × P.Fs)
          → unix_status s r ≡ (ok tt, t)
          → (r.0 ≡ true) × (record s { fs = r.1 } ≡ t)
      chain (true, fs) e = (refl, ap (λ y. y.1) e)
      chain (false, fs) e = absurd (ground arith)

  -- A guard that is passed.
  guard-ok :
      {A : Type 0} (g : Bool) (x : Status) (m : M (Sys P) A) (s : Sys P) {a : A} {t : Sys P}
      → (if g then fail x else m) s ≡ (ok a, t)
      → (g ≡ false) × (m s ≡ (ok a, t))
  guard-ok true x m s e = absurd (ground arith)
  guard-ok false x m s e = (refl, e)

  dispose_page-Disposed :
      (file : ℕ) (p : ℤ) (s t : Sys P) → dispose_page file p s ≡ (ok tt, t) → Disposed file p s t
  unfolding dispose_page free_page
  dispose_page-Disposed file p s t e =
      let (in_range, e0) = guard-ok (ltb_ℤ p (pos 1)) _ _ s e in
      let (block, on_disk, e1) = read-ok _ file (pos 0) s e0 in
      let allowed =
        guard-ok (eq_ℤ (P.dbp block).first_page p || not (ltb_ℤ p (P.dbp block).num_pages)) _ _ s
          e1 in
      let (_, _, e2) = read-ok _ file p s allowed.1 in
      let (linked, e3) = write-ok _ file p _ s e2 in
      let (topped, rest) = last-ok file (pos 0) _ _ e3 in
      record {
        block = block;
        on_disk = on_disk;
        in_range = in_range;
        link = _;
        link_next = ap (λ (d : DbPage). d.next_free) (P.dbp-set_dbp _ _);
        linked = linked;
        top = _;
        top_is = P.dbp-set_dbp _ _;
        topped = topped;
        rest = sym rest;
      }

  read-step :
      {B : Type 0} (f : P.Raw → M (Sys P) B) (file : ℕ) (p : ℤ) (x : P.Raw) (s : Sys P)
      → P.pread (s.files file).unix_file p s.fs P.zeroed ≡ (true, x)
      → (int_read file p >>= f) s ≡ f x s
  unfolding int_read int_read_into ◌>>=◌
  read-step f file p x s e =
      ap
        (λ (r : Bool × P.Raw).
          and_then f (local_block (if r.0 then ok tt else err unix_err, r.1) s))
        e

  -- The header page of a file as the disk has it.
  abbrev pub header_of : ℕ → Sys P → Res DbPage
  header_of file s = (and_then (λ b. pure (P.dbp b)) (int_read file (pos 0) s)).0

  header_of-ok :
      (file : ℕ) (x : P.Raw) (s : Sys P)
      → P.pread (s.files file).unix_file (pos 0) s.fs P.zeroed ≡ (true, x)
      → header_of file s ≡ ok (P.dbp x)
  unfolding int_read int_read_into
  header_of-ok file x s e =
      ap
        (λ (r : Bool × P.Raw).
          (and_then (λ b u. (ok (P.dbp b), u))
            (local_block (if r.0 then ok tt else err unix_err, r.1) s)).0)
        e

  -- The page p is allocated and the header page is as in s, or the header could not be written.
  abbrev pub Reuses : ℕ → ℤ → Sys P → Res ℤ × Sys P → Type 0
  Reuses file p s r =
      (r.0 ≡ err unix_err) ⊎ ((r.0 ≡ ok p) × (header_of file r.1 ≡ header_of file s))

  -- The two pages that allocatePage reads after disposePage.
  Disposed-reads :
      (file : ℕ) (p : ℤ) (s t : Sys P)
      → ReadsBack P
      → (d : Disposed file p s t)
      → (P.pread (t.files file).unix_file (pos 0) t.fs P.zeroed ≡ (true, d.top))
        × (P.pread (t.files file).unix_file p t.fs P.zeroed ≡ (true, d.link))
  Disposed-reads file p s t back d =
      let fd = (s.files file).unix_file in
      let fs = (P.pwrite fd p d.link s.fs).1 in
      let at_p = back.read_written fd p d.link P.zeroed s.fs d.linked in
      rw d.rest (
        back.read_written fd (pos 0) d.top P.zeroed fs d.topped,
        back.read_other fd (pos 0) p d.top P.zeroed fs d.topped (λ z. ground (arith, d.in_range))
              (ap (λ (r : Bool × P.Raw). r.0) at_p)
            ∙ at_p,
      )

  -- The top of the free list is p, and the header without it is the header before.
  take-step :
      (file : ℕ) (p : ℤ) (s t : Sys P)
      → ReadsBack P
      → (d : Disposed file p s t)
      → (if not (eq_ℤ (P.dbp d.top).next_free minus_one)
            then take_free file (P.dbp d.top)
            else extend_file file (P.dbp d.top))
          t
        ≡ (ok (p, P.dbp d.block), t)
  unfolding take_free
  take-step file p s t back d =
      let (_, link) = Disposed-reads file p s t back d in
      rw (d.top_is, not_end p d.in_range)
        (read-step _ file p d.link t link
          ∙ ap (λ n. (ok (p, record (P.dbp d.block) { next_free = n }), t)) d.link_next)

  allocate-step :
      (file : ℕ) (p : ℤ) (s t : Sys P)
      → ReadsBack P
      → (d : Disposed file p s t)
      → allocate_page file t
        ≡ (int_write file (pos 0) (P.set_dbp (P.dbp d.block) d.top) >> pure p) t
  unfolding allocate_page ◌>>=◌
  allocate-step file p s t back d =
      let (top, _) = Disposed-reads file p s t back d in
      read-step _ file (pos 0) d.top t top
      ∙ ap (and_then (λ (x : ℤ × DbPage). int_write file (pos 0) (P.set_dbp x.1 d.top) >> pure x.0))
          (take-step file p s t back d)

  -- The last write of allocatePage.
  restored :
      (file : ℕ) (p : ℤ) (s t : Sys P) (x : P.Raw)
      → ReadsBack P
      → header_of file s ≡ ok (P.dbp x)
      → Reuses file p s ((int_write file (pos 0) x >> pure p) t)
  unfolding int_write ◌>>=◌
  restored file p s t x back h =
      let fd = (t.files file).unix_file in
      let r = P.pwrite fd (pos 0) x t.fs in
      elim (Bool-cases r.0) [
        | inl done ↦ rw done (
            inr (
              refl,
              header_of-ok file x (record t { fs = r.1 })
                    (back.read_written fd (pos 0) x P.zeroed t.fs done)
                  ∙ sym h,
            ))
        | inr failed ↦ rw failed (inl refl)
      ]

  -- If reads return what was written: after a successful disposePage of a page, allocatePage fails
  -- with UNIXERR, or it returns this page and leaves the header page as it was before disposePage.
  pub dispose_page-allocate_page :
      (file : ℕ) (p : ℤ) (s t : Sys P)
      → ReadsBack P
      → dispose_page file p s ≡ (ok tt, t)
      → Reuses file p s (allocate_page file t)
  dispose_page-allocate_page file p s t back e =
      let d = dispose_page-Disposed file p s t e in
      rw (allocate-step file p s t back d) (
        restored file p s t (P.set_dbp (P.dbp d.block) d.top) back (
          header_of-ok file d.block s d.on_disk
          ∙ ap (λ h. ok h) (sym (P.dbp-set_dbp (P.dbp d.block) d.top))))

  picked :
      (g : Bool) (file : ℕ) (header : DbPage) (u w : Sys P) (x : ℤ × DbPage)
      → g ≡ true
      → (if g then take_free file header else extend_file file header) u ≡ (ok x, w)
      → x.0 ≡ header.next_free
  unfolding take_free
  picked true file header u w x g e =
      let (_, _, e1) = read-ok _ file header.next_free u e in
      ap (λ (y : ℤ × DbPage). y.0) (sym (res-inj _ x (ap (λ y. y.0) e1)))
  picked false file header u w x g e = absurd (ground arith)

  -- allocatePage takes the head of a free list that is not empty.
  allocate_page-head :
      (file : ℕ) (p q : ℤ) (h : DbPage) (u v : Sys P)
      → header_of file u ≡ ok h
      → h.next_free ≡ p
      → not (eq_ℤ p minus_one) ≡ true
      → allocate_page file u ≡ (ok q, v)
      → q ≡ p
  unfolding allocate_page ◌>>=◌
  allocate_page-head file p q h u v at head used e =
      let (block, read, e1) = read-ok _ file (pos 0) u e in
      let same = res-inj (P.dbp block) h (sym (header_of-ok file block u read) ∙ at) in
      let next = ap (λ (d : DbPage). d.next_free) same ∙ head in
      let (x, w, took, e2) = and_then-ok _ _ e1 in
      let (_, e3) = write-ok (pure x.0) file (pos 0) _ w e2 in
      sym (res-inj x.0 q (ap (λ y. y.0) e3))
      ∙ picked _ file (P.dbp block) u w x (ap (λ n. not (eq_ℤ n minus_one)) next ∙ used) took
      ∙ next

  -- If reads return what was written: after a disposePage that succeeds on the page that is the head
  -- of the free list already, two calls of allocatePage that succeed both return this page.
  pub dispose_page-allocate_page_twice :
      (file : ℕ) (p q q' : ℤ) (h : DbPage) (s t u v : Sys P)
      → ReadsBack P
      → header_of file s ≡ ok h
      → h.next_free ≡ p
      → dispose_page file p s ≡ (ok tt, t)
      → allocate_page file t ≡ (ok q, u)
      → allocate_page file u ≡ (ok q', v)
      → (q ≡ p) × (q' ≡ p)
  dispose_page-allocate_page_twice file p q q' h s t u v back at head freed first second =
      let d = dispose_page-Disposed file p s t freed in
      elim (subst (Reuses file p s) first (dispose_page-allocate_page file p s t back freed)) [
        | inl failed ↦ absurd (ground (arith, failed))
        | inr (same, restored) ↦ (
          res-inj q p same,
          allocate_page-head file p q' h u v (restored ∙ at) head (not_end p d.in_range) second,
        )
      ]
