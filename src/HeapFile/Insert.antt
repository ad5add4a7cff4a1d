-- ===== src/HeapFile/Insert.antt =====
-- heapfile.cpp, class InsertFileScan: insertion at the last page of a heap file.
use database_management_syst.Common.{
  ℕ, true, false, none, some, List, if◌then◌else◌, ltb, length, ℤ, pos, minus_one, eq_ℤ, ◌+ℤ◌,
}
use database_management_syst.Status.{Res, ok, err, undefined, invalid_rec_len}
use database_management_syst.Monad.{
  M, ◌>>=◌, ◌>>◌, pure, fail, get, modify, ignore, attempt, of_res,
}
use database_management_syst.Platform.{Platform}
use database_management_syst.Page
use database_management_syst.Page.{Page, Rid, data_size}
use database_management_syst.System.{Sys}
use database_management_syst.Buffer.{unpin_page, alloc_page}
use database_management_syst.HeapFile.{
  HeapFile, Session, lift, set_hf, header, edit_header, put_frame, edit_cur_page, unpin_cur,
  read_cur, unchecked, open_heap_file, close_heap_file,
}

module _ {P : Platform} where
  -- The constructor goes from the first page to the last; it only prints what fails.
  unfoldable pub go_to_last : M (Session P) (Unit {0})
  go_to_last = do
    s ← get
    let last = (header s).last_page
    if eq_ℤ s.hf.cur_page_no last then pure tt else do
      ignore unpin_cur
      set_hf (λ h. record h { cur_page_no = last })
      ignore (read_cur last)
      set_hf (λ h. record h { cur_dirty = false })

  abbrev pub object : Res (Unit {0}) × Session P → Res HeapFile × Sys P
  object (ok _, s) = (ok s.hf, s.sys)
  object (err e, s) = (err e, s.sys)
  object (undefined, s) = (undefined, s.sys)

  -- The constructors of HeapFile and of InsertFileScan. If openFile fails, the second one reads
  -- fields that the first one has not set.
  unfoldable pub open_insert : List ℕ → M (Sys P) HeapFile
  open_insert name = do
    h ← unchecked (open_heap_file name)
    λ s. object (go_to_last (record { hf = h; sys = s }))

  -- The destructor of the derived class, which runs first.
  unfoldable pub close_insert : M (Session P) (Unit {0})
  close_insert s = elim s.hf.cur_page [
    | none ↦ (ok tt, s)
    | some i ↦
        (do
          ignore (lift (unpin_page s.hf.file_ptr s.hf.cur_page_no true))
          set_hf (λ h. record h { cur_page = none; cur_page_no = pos 0 }))
          s
  ]

  -- The insertion into the current page, which counts the record and marks both pages.
  unfoldable pub insert_here : List ℕ → M (Session P) Rid
  insert_here rec = do
    rid ← edit_cur_page (Page.insert_record rec)
    edit_header (λ h. record h { rec_cnt = h.rec_cnt +ℤ pos 1 })
    set_hf (λ h. record h { hdr_dirty = true; cur_dirty = true })
    pure rid

  -- The unpinning of the full page; if it fails the new page is unpinned as well.
  unfoldable pub leave_full_page : ℤ → M (Session P) (Unit {0})
  leave_full_page new_page_no = do
    s ← get
    r ← attempt (lift (unpin_page s.hf.file_ptr s.hf.cur_page_no true))
    elim r [
      | ok _ ↦ pure tt
      | undefined ↦ of_res undefined
      | err e ↦ do
        set_hf (λ h. record h { cur_page = none; cur_page_no = minus_one; cur_dirty = false })
        ignore (lift (unpin_page s.hf.file_ptr new_page_no true))
        fail e
    ]

  -- A new last page, linked behind the full one, becomes the current page.
  unfoldable pub add_page : M (Session P) (Unit {0})
  add_page = do
    s ← get
    (new_page_no, new_frame) ← lift (alloc_page s.hf.file_ptr)
    modify (λ t.
        let p =
          Page.set_next_page minus_one (Page.init new_page_no (P.page (t.sys.pool new_frame))) in
        record t { sys = put_frame new_frame (P.set_page p (t.sys.pool new_frame)) t.sys })
    edit_header (λ h. record h { last_page = new_page_no; page_cnt = h.page_cnt +ℤ pos 1 })
    set_hf (λ h. record h { hdr_dirty = true })
    edit_cur_page (λ p. ok (tt, Page.set_next_page new_page_no p))
    leave_full_page new_page_no
    set_hf (λ h. record h { cur_page = some new_frame; cur_page_no = new_page_no })

  -- A current page, the last one if there is none.
  unfoldable pub ensure_page : M (Session P) (Unit {0})
  ensure_page s = elim s.hf.cur_page [
    | some i ↦ (ok tt, s)
    | none ↦
        (do
          set_hf (λ h. record h { cur_page_no = (header s).last_page })
          read_cur (header s).last_page)
          s
  ]

  unfoldable pub insert_record : List ℕ → M (Session P) Rid
  insert_record rec = if ltb data_size (length rec) then fail invalid_rec_len else do
    ensure_page
    r ← attempt (insert_here rec)
    elim r [
      | ok rid ↦ pure rid
      | undefined ↦ of_res undefined
      | err e ↦ add_page >>= λ _. insert_here rec
    ]

  -- ~InsertFileScan and then ~HeapFile.
  unfoldable pub close_insert_file : M (Session P) (Unit {0})
  close_insert_file = close_insert >> close_heap_file
