-- ===== src/HeapFile/Scan.antt =====
-- heapfile.cpp, class HeapFileScan: the scan over the pages of a heap file.
--
-- The loops of scanNext take fuel, for the pages and records that they pass; the result `none`
-- says that it ran out. firstRecord and nextRecord fail with NORECORDS and ENDOFPAGE only.
use database_management_syst.Common.{
  ℕ, zero, suc, Bool, true, false, Option, none, some, List, if◌then◌else◌, ℤ, pos, minus_one, eq_ℤ,
  ltb_ℤ, ◌+ℤ◌,
}
use database_management_syst.Status.{ok, err, undefined, file_eof}
use database_management_syst.Monad.{M, ◌>>=◌, ◌>>◌, pure, fail, get, attempt, of_res, ignore}
use database_management_syst.Platform.{Platform}
use database_management_syst.Page
use database_management_syst.Page.{Page, Rid, null_rid}
use database_management_syst.HeapFile.{
  HeapFile, Session, set_hf, header, edit_header, on_cur_page, edit_cur_page, unpin_cur, read_cur,
  reset_cur, close_heap_file,
}
use database_management_syst.HeapFile.Match.{Sign, match_rec}

unfoldable pub mark_scan : HeapFile → HeapFile
mark_scan h = record h { marked_page_no = h.cur_page_no; marked_rec = h.cur_rec }

unfoldable pub mark_dirty : HeapFile → HeapFile
mark_dirty h = record h { cur_dirty = true }

module _ {P : Platform} where
  -- The page is unpinned and the object reset, whatever the status.
  unfoldable pub end_scan : M (Session P) (Unit {0})
  end_scan s = elim s.hf.cur_page [
    | none ↦ (ok tt, s)
    | some i ↦ let (r, s') = unpin_cur s in (r, record s' { hf = reset_cur s'.hf })
  ]

  unfoldable pub reset_scan : M (Session P) (Unit {0})
  reset_scan s =
      if eq_ℤ s.hf.marked_page_no s.hf.cur_page_no
      then (ok tt, record s { hf = record s.hf { cur_rec = s.hf.marked_rec } })
      else (do
        elim s.hf.cur_page [ none ↦ pure tt | some i ↦ unpin_cur ]
        set_hf (λ h. record h { cur_page_no = h.marked_page_no; cur_rec = h.marked_rec })
        read_cur s.hf.marked_page_no
        set_hf (λ h. record h { cur_dirty = false }))
          s

  -- Away from the current page to the page with this number, which becomes the current page.
  unfoldable pub turn_page : ℤ → M (Session P) (Unit {0})
  turn_page page_no = do
    r ← attempt unpin_cur
    set_hf (λ h. record h { cur_page = none; cur_page_no = minus_one })
    of_res r
    set_hf (λ h. record h { cur_page_no = page_no; cur_dirty = false })
    read_cur page_no

  abbrev pub set_rec : Rid → M (Session P) (Unit {0})
  set_rec rid = set_hf (λ h. record h { cur_rec = rid })

  -- The inner loop: pages are turned until one holds a record.
  unfoldable pub skip_pages : ℕ → M (Session P) (Option (Unit {0}))
  skip_pages zero = pure none
  skip_pages (suc fuel) = do
    page_no ← on_cur_page (λ p. ok (Page.get_next_page p))
    if eq_ℤ page_no minus_one then fail file_eof else do
      turn_page page_no
      r ← attempt (on_cur_page Page.first_record)
      elim r [
        | ok rid ↦ set_rec rid >> pure (some tt)
        | undefined ↦ of_res undefined
        | err e ↦ skip_pages fuel
      ]

  -- The next record of the current page, or the first of a later page.
  unfoldable pub step_record : ℕ → M (Session P) (Option (Unit {0}))
  step_record fuel = do
    s ← get
    r ← attempt (on_cur_page (Page.next_record s.hf.cur_rec))
    elim r [
      | ok rid ↦ set_rec rid >> pure (some tt)
      | undefined ↦ of_res undefined
      | err e ↦ skip_pages fuel
    ]

  module _ (float_sign : List ℕ → List ℕ → Sign) where
    -- Does the current record match?
    unfoldable pub match_cur : M (Session P) Bool
    match_cur = do
      s ← get
      rec ← on_cur_page (Page.get_record s.hf.cur_rec)
      pure (match_rec float_sign s.hf.filter rec)

    -- The loop of scanNext.
    unfoldable pub scan_loop : ℕ → M (Session P) (Option Rid)
    scan_loop zero = pure none
    scan_loop (suc fuel) = do
      more ← step_record fuel
      elim more [
        | none ↦ pure none
        | some _ ↦ do
          hit ← match_cur
          s ← get
          if hit then pure (some s.hf.cur_rec) else scan_loop fuel
      ]

    -- The start of a scan at the first page. If that page holds no record the scan ends there.
    unfoldable pub scan_first : ℕ → M (Session P) (Option Rid)
    scan_first fuel = do
      s ← get
      let first = (header s).first_page
      set_hf (λ h. record h { cur_page_no = first })
      if eq_ℤ first minus_one then fail file_eof else do
        r ← attempt (read_cur first)
        set_hf (λ h. record h { cur_dirty = false; cur_rec = null_rid })
        of_res r
        f ← attempt (on_cur_page Page.first_record)
        elim f [
          | undefined ↦ of_res undefined
          | err e ↦ do
            unpin_cur
            set_hf (λ h. record h { cur_page = none; cur_page_no = minus_one })
            fail file_eof
          | ok rid ↦ do
            set_rec rid
            hit ← match_cur
            if hit then pure (some rid) else scan_loop fuel
        ]

    unfoldable pub scan_next : ℕ → M (Session P) (Option Rid)
    scan_next fuel s =
        if ltb_ℤ s.hf.cur_page_no (pos 0)
        then (err file_eof, s)
        else elim s.hf.cur_page [ none ↦ scan_first fuel s | some i ↦ scan_loop fuel s ]

  -- The record under the scan.
  unfoldable pub get_cur_record : M (Session P) (List ℕ)
  get_cur_record s = on_cur_page (Page.get_record s.hf.cur_rec) s

  -- The count goes down whatever the deletion returns, and that is returned in the end.
  unfoldable pub delete_cur_record : M (Session P) (Unit {0})
  delete_cur_record = do
    s ← get
    r ← attempt (
        edit_cur_page (λ p. elim (Page.delete_record s.hf.cur_rec p) [
          | ok q ↦ ok (tt, q)
          | err e ↦ err e
          | undefined ↦ undefined
        ]))
    set_hf (λ h. record h { cur_dirty = true })
    edit_header (λ h. record h { rec_cnt = h.rec_cnt +ℤ minus_one })
    set_hf (λ h. record h { hdr_dirty = true })
    of_res r

  -- ~HeapFileScan and then ~HeapFile.
  unfoldable pub close_scan : M (Session P) (Unit {0})
  close_scan = ignore end_scan >> close_heap_file
