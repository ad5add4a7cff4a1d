-- ===== src/Buffer/Map/Refines.antt =====
-- The buffer manager refines a map from pages to blocks: the calls of class BufMgr in buf.cpp, and
-- the writes of its clients into the frames.
use database_management_syst.Common.{
  ℕ, Bool, ◌<◌, ◌≡◌, refl, false, Option, some, pos, ltb_ℤ, arith, ℤ, page_key,
}
use mathlib.Core.Bool.{false≢true}
use database_management_syst.Status.{Status, ok, err, buffer_exceeded, page_pinned}
use database_management_syst.Platform.{Platform, ReadsBack}
use database_management_syst.System.{Sys}
use database_management_syst.HashTable.{find}
use database_management_syst.HashTable.Laws.{view}
use database_management_syst.FileIo.{allocate_page}
use database_management_syst.Buffer.{
  construct, set_pool, read_page, unpin_page, flush_file, alloc_page, dispose_page, shut_down,
}
use database_management_syst.Buffer.Flush.{construct-IsPool}
use database_management_syst.Buffer.Pins.{IsPinnedAt, read_page-HoldsPage}
use database_management_syst.Buffer.Map.Disk.{OnDisk, IsOpened, Apart}
use database_management_syst.Buffer.Map.View.{Pages, ShowsPages}
use database_management_syst.Buffer.Map.Synced.{
  flush_file-ShowsPages, flush_file-OnDisk, flush_refused-ShowsPages,
}
use database_management_syst.Buffer.Map.Allotted.{forgotten, alloc_page-ShowsPages}
use database_management_syst.Buffer.Map.Disposed.{dispose_page-ShowsPages}
use database_management_syst.Buffer.Map.Refused.{refused-ShowsPages, alloc_refused-ShowsPages}
use database_management_syst.Buffer.Map.Unpinned.{unpin_refused-ShowsPages}
use database_management_syst.Buffer.Map.ShutDown.{Writes, shut_down-OnDisk}
use database_management_syst.Buffer.Map.Clients.{
  edited, reported, MayUnpin, read_page-ShowsPages, unpin_page-ShowsPages, edit-ShowsPages,
}

module _ {P : Platform} where
  -- A step of some client, with the state and the map of pages before and after: a write into the
  -- frame of a page that is pinned, a call that succeeds, a readPage or allocPage that finds no
  -- frame to give, an unPinPage that fails, or a flushFile that stops at a pinned page. Pages are
  -- read, allocated and disposed of in files that are open.
  pub data Step (s : Sys P) (a : Pages P) : Sys P → Pages P → Type 0 where
    reads :
        (k : ℕ × ℤ) (i : ℕ) (t : Sys P)
        → IsOpened s k.0
        → read_page k.0 k.1 s ≡ (ok i, t)
        → Step s a t a
    edits :
        (k : ℕ × ℤ) (i : ℕ) (r : P.Raw)
        → IsPinnedAt k i s
        → Step s a (set_pool i r s) (edited k r a)
    unpins :
        (k : ℕ × ℤ) (dirty : Bool) (t : Sys P)
        → MayUnpin k dirty s a
        → unpin_page k.0 k.1 dirty s ≡ (ok tt, t)
        → Step s a t (reported k dirty a)
    allocates :
        (file : ℕ) (p : ℤ) (i : ℕ) (t : Sys P)
        → IsOpened s file
        → alloc_page file s ≡ (ok (p, i), t)
        → Step s a t (forgotten (file, p) a)
    disposes :
        (k : ℕ × ℤ) (t : Sys P)
        → IsOpened s k.0
        → dispose_page k.0 k.1 s ≡ (ok tt, t)
        → Step s a t (forgotten k a)
    refused :
        (k : ℕ × ℤ) (t : Sys P) → read_page k.0 k.1 s ≡ (err buffer_exceeded, t) → Step s a t a
    alloc_refused :
        (file : ℕ) (p : ℤ) (u t : Sys P)
        → IsOpened s file
        → allocate_page file s ≡ (ok p, u)
        → alloc_page file s ≡ (err buffer_exceeded, t)
        → Step s a t (forgotten (file, p) a)
    unpin_refused :
        (k : ℕ × ℤ) (dirty : Bool) (t : Sys P) (e : Status)
        → unpin_page k.0 k.1 dirty s ≡ (err e, t)
        → Step s a t a
    flush_refused : (file : ℕ) (t : Sys P) → flush_file file s ≡ (err page_pinned, t) → Step s a t a
    flushes : (file : ℕ) (t : Sys P) → flush_file file s ≡ (ok tt, t) → Step s a t a

  -- Steps of any number of clients in any order.
  pub data Steps (s : Sys P) (a : Pages P) : Sys P → Pages P → Type 0 where
    done : Steps s a s a
    next : {t u : Sys P} {b c : Pages P} → Steps s a t b → Step t b u c → Steps s a u c

  Step-ShowsPages :
      (s : Sys P) (a : Pages P) {t : Sys P} {b : Pages P}
      → ReadsBack P
      → Step s a t b
      → ShowsPages s a
      → ShowsPages t b
  Step-ShowsPages s a back (reads k i t o e) v = read_page-ShowsPages k i s t a back v o e
  Step-ShowsPages s a back (edits k i r at) v = edit-ShowsPages k i r s a v at
  Step-ShowsPages s a back (unpins k dirty t may e) v = unpin_page-ShowsPages k dirty s t a v may e
  Step-ShowsPages s a back (allocates file p i t o e) v =
      alloc_page-ShowsPages file p i s t a back v o e
  Step-ShowsPages s a back (disposes k t o e) v = dispose_page-ShowsPages k s t a back v o e
  Step-ShowsPages s a back (refused k t e) v = refused-ShowsPages k s t a v e
  Step-ShowsPages s a back (alloc_refused file p u t o allotted e) v =
      alloc_refused-ShowsPages file p s u t a back v o allotted e
  Step-ShowsPages s a back (unpin_refused k dirty t x e) v =
      unpin_refused-ShowsPages k dirty s t a x v e
  Step-ShowsPages s a back (flush_refused file t e) v = flush_refused-ShowsPages file s t a back v e
  Step-ShowsPages s a back (flushes file t e) v = (flush_file-ShowsPages file s t a back v e).0

  -- Whatever the clients do, the pool shows the pages of the map.
  pub Steps-ShowsPages :
      (s : Sys P) (a : Pages P) {t : Sys P} {b : Pages P}
      → ReadsBack P
      → Steps s a t b
      → ShowsPages s a
      → ShowsPages t b
  Steps-ShowsPages s a back done v = v
  Steps-ShowsPages s a back (next {t} {u} {b} run step) v =
      Step-ShowsPages t b back step (Steps-ShowsPages s a back run v)

  -- What is known of the disk when the buffer manager starts.
  abbrev pub IsKnown : (ℕ × ℤ → Option P.Raw) → Sys P → Type 0
  IsKnown m s = (k : ℕ × ℤ) (r : P.Raw) → m k ≡ some r → IsOpened s k.0 × OnDisk s k r

  abbrev pub unchanged : (ℕ × ℤ → Option P.Raw) → Pages P
  unchanged m = record { content = m; changed = λ k. false }

  pub construct-ShowsPages :
      (bufs : ℕ) (s : Sys P) (m : ℕ × ℤ → Option P.Raw)
      → 0 < bufs
      → Apart s
      → IsKnown m s
      → ShowsPages (construct bufs s) (unchanged m)
  unfolding construct view find
  construct-ShowsPages bufs s m h apart known = record {
    pool = construct-IsPool bufs s h;
    apart = apart;
    listed = λ i _ lt held. absurd (false≢true held);
    unused = λ i _ lt idle. refl;
    pinned = λ k i at changed. absurd (false≢true changed);
    pages =
        λ k r at. let (o, on) = known k r at in (o, (λ i at'. absurd (ground arith), λ absent. on));
  }

  -- What a page shows when it is read.
  pub read_page-Shows :
      (k : ℕ × ℤ) (i : ℕ) (r : P.Raw) (s t : Sys P) (a : Pages P)
      → ReadsBack P
      → ShowsPages s a
      → a.content k ≡ some r
      → read_page k.0 k.1 s ≡ (ok i, t)
      → t.pool i ≡ r
  read_page-Shows k i r s t a back v known e =
      let (o, _) = v.pages k r known in
      let w = read_page-ShowsPages k i s t a back v o e in
      let (_, (within, _)) = w.pages k r known in
      let (_, (at, _)) = read_page-HoldsPage k i s t v.pool e in (within i at).0

  -- A new buffer manager of at least one frame, over a disk that has some known pages of open
  -- files, where a read returns what was written and the open files are apart: after any steps of
  -- the clients, a readPage of a page that is still known and that succeeds returns a frame with the
  -- block that the map has for the page, which is the one last written into it by a client, and
  -- else the one that the disk had.
  pub Steps-read_page :
      (bufs : ℕ) (s t u : Sys P) (m : ℕ × ℤ → Option P.Raw) (b : Pages P) (k : ℕ × ℤ) (i : ℕ)
      (r : P.Raw)
      → ReadsBack P
      → 0 < bufs
      → Apart s
      → IsKnown m s
      → Steps (construct bufs s) (unchanged m) t b
      → b.content k ≡ some r
      → read_page k.0 k.1 t ≡ (ok i, u)
      → u.pool i ≡ r
  Steps-read_page bufs s t u m b k i r back h apart known run at e =
      read_page-Shows k i r t u b back
        (Steps-ShowsPages _ _ back run (construct-ShowsPages bufs s m h apart known)) at e

  -- A new buffer manager of at least one frame, over a disk that has some known pages of open
  -- files, where a read returns what was written and the open files are apart: after any steps of
  -- the clients, a flushFile that succeeds leaves the block that the map has for a page of the file
  -- on the disk.
  pub Steps-flush_file :
      (bufs : ℕ) (s t u : Sys P) (m : ℕ × ℤ → Option P.Raw) (b : Pages P) (k : ℕ × ℤ) (r : P.Raw)
      → ReadsBack P
      → 0 < bufs
      → Apart s
      → IsKnown m s
      → Steps (construct bufs s) (unchanged m) t b
      → b.content k ≡ some r
      → flush_file k.0 t ≡ (ok tt, u)
      → OnDisk u k r
  Steps-flush_file bufs s t u m b k r back h apart known run at e =
      flush_file-OnDisk t u b k r back
        (Steps-ShowsPages _ _ back run (construct-ShowsPages bufs s m h apart known)) e at

  -- A new buffer manager of at least one frame, over a disk that has some known pages of open
  -- files, where a read returns what was written, no write fails and the open files are apart: after
  -- any steps of the clients, the destructor ends with OK and leaves the block that the map has for
  -- a page on the disk, if no change of the page is due and its number is one that class File
  -- writes.
  pub Steps-shut_down :
      (bufs : ℕ) (s t : Sys P) (m : ℕ × ℤ → Option P.Raw) (b : Pages P) (k : ℕ × ℤ) (r : P.Raw)
      → ReadsBack P
      → Writes P
      → 0 < bufs
      → Apart s
      → IsKnown m s
      → Steps (construct bufs s) (unchanged m) t b
      → b.content k ≡ some r
      → ltb_ℤ k.1 (pos 1) ≡ false
      → b.changed k ≡ false
      → ((shut_down t).0 ≡ ok tt) × OnDisk (shut_down t).1 k r
  Steps-shut_down bufs s t m b k r back writes h apart known run at high un =
      let v = Steps-ShowsPages _ _ back run (construct-ShowsPages bufs s m h apart known) in
      shut_down-OnDisk back writes t b v k r at high un
