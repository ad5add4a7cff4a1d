-- ===== src/HeapFile.antt =====
-- heapfile.h and heapfile.cpp: class HeapFile, with the fields that HeapFileScan adds.
--
-- A method runs on the object and the system together. A Page* is a frame of the buffer pool, and
-- none where the source has a null pointer; a use of a null or uninitialised pointer is undefined.
pub mod Match
pub mod Compare
pub mod Scan
pub mod Counts
pub mod Cursor
pub mod Insert
use database_management_syst.Common.{
  ℕ, zero, suc, ◌+◌, ◌-◌, Bool, true, false, Option, none, some, List, [], ◌∷◌, if◌then◌else◌, take,
  ℤ, pos, minus_one, eq_ℤ,
}
use database_management_syst.Status.{Status, Res, ok, err, undefined, file_exists}
use database_management_syst.Monad.{
  M, ◌>>=◌, ◌>>◌, and_then, pure, fail, get, modify, ignore, forget, attempt, caught, of_res, when,
}
use database_management_syst.Platform.{Platform, FileHdrPage}
use database_management_syst.Page
use database_management_syst.Page.{Page, Rid, null_rid}
use database_management_syst.System.{Sys, update}
use database_management_syst.FileIo.{get_first_page}
use database_management_syst.Buffer.{read_page, unpin_page, alloc_page, flush_file, set_pool}
use database_management_syst.Db.{open_file, close_file, create_file, destroy_file}

pub data Datatype : Type 0 where
  string integer float : Datatype

pub data Operator : Type 0 where
  lt lte eq gte gt ne : Operator

-- The scan's comparison: a field of the record, and the value and operator that it is held to.
pub record Filter : Type 0 where
  pub offset : ℕ
  pub length : ℕ
  pub type : Datatype
  pub value : List ℕ
  pub op : Operator

pub record HeapFile : Type 0 where
  pub file_ptr : ℕ
  pub header_page : ℕ
  pub header_page_no : ℤ
  pub hdr_dirty : Bool
  pub cur_page : Option ℕ
  pub cur_page_no : ℤ
  pub cur_dirty : Bool
  pub cur_rec : Rid
  pub filter : Option Filter
  pub marked_page_no : ℤ
  pub marked_rec : Rid

pub record Session (P : Platform) : Type 0 where
  pub hf : HeapFile
  pub sys : Sys P

-- MAXNAMESIZE
abbrev pub max_name_size : ℕ
max_name_size = 50

-- A status that the constructor prints, to go on with an uninitialised value.
abbrev pub or_undefined : {S A : Type 0} → Res A × S → Res A × S
or_undefined (ok a, s) = (ok a, s)
or_undefined (err e, s) = (undefined, s)
or_undefined (undefined, s) = (undefined, s)

abbrev pub reset_cur : HeapFile → HeapFile
reset_cur h = record h { cur_page = none; cur_page_no = pos 0; cur_dirty = false }

module _ {P : Platform} where
  abbrev pub lifted : {A : Type 0} → Session P → Res A × Sys P → Res A × Session P
  lifted s (r, sys) = (r, record s { sys = sys })

  -- A call of a lower layer.
  abbrev pub lift : {A : Type 0} → M (Sys P) A → M (Session P) A
  lift m s = lifted s (m s.sys)

  abbrev pub set_hf : (HeapFile → HeapFile) → M (Session P) (Unit {0})
  set_hf f = modify (λ s. record s { hf = f s.hf })

  -- The header page in the pool.
  unfoldable pub header : Session P → FileHdrPage
  header s = P.hdr (s.sys.pool s.hf.header_page)

  abbrev pub put_frame : ℕ → P.Raw → Sys P → Sys P
  put_frame i block sys = record sys { pool = update sys.pool i block }

  unfoldable pub edit_header : (FileHdrPage → FileHdrPage) → M (Session P) (Unit {0})
  edit_header f = modify (λ s. record s {
    sys = put_frame s.hf.header_page (P.set_hdr (f (header s)) (s.sys.pool s.hf.header_page)) s.sys;
  })

  -- A read of the current page, and a change of it.
  unfoldable pub on_cur_page : {A : Type 0} → (Page → Res A) → M (Session P) A
  on_cur_page f s = elim s.hf.cur_page [
    | none ↦ (undefined, s)
    | some i ↦ (f (P.page (s.sys.pool i)), s)
  ]

  abbrev pub edited : {A : Type 0} → ℕ → Session P → Res (A × Page) → Res A × Session P
  edited i s (ok (a, p)) =
      (ok a, record s { sys = put_frame i (P.set_page p (s.sys.pool i)) s.sys })
  edited i s (err e) = (err e, s)
  edited i s undefined = (undefined, s)

  unfoldable pub edit_cur_page : {A : Type 0} → (Page → Res (A × Page)) → M (Session P) A
  edit_cur_page f s = elim s.hf.cur_page [
    | none ↦ (undefined, s)
    | some i ↦ edited i s (f (P.page (s.sys.pool i)))
  ]

  -- Unpinning and reading the page of the object's file.
  unfoldable pub unpin_cur : M (Session P) (Unit {0})
  unpin_cur s = lift (unpin_page s.hf.file_ptr s.hf.cur_page_no s.hf.cur_dirty) s

  unfoldable pub read_cur : ℤ → M (Session P) (Unit {0})
  read_cur page_no = do
    s ← get
    frame ← lift (read_page s.hf.file_ptr page_no)
    set_hf (λ h. record h { cur_page = some frame })

  -- The pages of a new heap file, once the file is open.
  unfoldable pub init_heap_file : List ℕ → ℕ → M (Sys P) (Unit {0})
  init_heap_file name file = do
    (hdr_page_no, hdr_frame) ← alloc_page file
    modify (λ s.
        let h = record (P.hdr (s.pool hdr_frame)) { file_name = take max_name_size name } in
        put_frame hdr_frame (P.set_hdr h (s.pool hdr_frame)) s)
    (new_page_no, new_frame) ← alloc_page file
    modify (λ s.
        let p = Page.set_next_page minus_one (Page.init new_page_no (P.page (s.pool new_frame))) in
        put_frame new_frame (P.set_page p (s.pool new_frame)) s)
    modify (λ s.
        let h = record (P.hdr (s.pool hdr_frame)) {
          rec_cnt = pos 0;
          page_cnt = pos 1;
          first_page = new_page_no;
          last_page = new_page_no;
        } in
        put_frame hdr_frame (P.set_hdr h (s.pool hdr_frame)) s)
    unpin_page file new_page_no true
    unpin_page file hdr_page_no true
    flush_file file
    close_file file

  -- The first call is to fail: a file that can be opened exists already, and stays open.
  unfoldable pub create_heap_file : List ℕ → M (Sys P) (Unit {0})
  create_heap_file name s =
      let (r, s') = open_file name s in
      elim r [
        | ok file ↦ (err file_exists, s')
        | undefined ↦ (undefined, s')
        | err e ↦ (do create_file name; file ← open_file name; init_heap_file name file) s'
      ]

  unfoldable pub destroy_heap_file : List ℕ → M (Sys P) (Unit {0})
  destroy_heap_file name = destroy_file name

  abbrev pub unchecked : {A : Type 0} → M (Sys P) A → M (Sys P) A
  unchecked m s = or_undefined (m s)

  -- The constructor.
  unfoldable pub open_heap_file : List ℕ → M (Sys P) HeapFile
  open_heap_file name = do
    file ← open_file name
    header_page_no ← unchecked (get_first_page file)
    header_frame ← unchecked (read_page file header_page_no)
    s ← get
    let first = (P.hdr (s.pool header_frame)).first_page
    cur_frame ← unchecked (read_page file first)
    pure (record {
      file_ptr = file;
      header_page = header_frame;
      header_page_no = header_page_no;
      hdr_dirty = false;
      cur_page = some cur_frame;
      cur_page_no = first;
      cur_dirty = false;
      cur_rec = null_rid;
      filter = none;
      marked_page_no = minus_one;
      marked_rec = null_rid;
    })

  -- The destructor. No status stops it.
  unfoldable pub close_heap_file : M (Session P) (Unit {0})
  close_heap_file = do
    s ← get
    elim s.hf.cur_page [
      | none ↦ pure tt
      | some i ↦ do
        ignore unpin_cur
        set_hf (λ h. record h { cur_page = none; cur_page_no = pos 0; cur_dirty = false })
    ]
    ignore (lift (unpin_page s.hf.file_ptr s.hf.header_page_no s.hf.hdr_dirty))
    ignore (lift (close_file s.hf.file_ptr))

  unfoldable pub get_rec_cnt : Session P → ℤ
  get_rec_cnt s = (header s).rec_cnt

  -- The record's page is not the current page.
  unfoldable pub fetch_record : Rid → M (Session P) (List ℕ)
  fetch_record rid = do
    read_cur rid.page_no
    set_hf (λ h. record h { cur_page_no = rid.page_no; cur_dirty = false; cur_rec = rid })
    on_cur_page (Page.get_record rid)

  abbrev pub unpinned_or_reset :
      {A : Type 0} → M (Session P) A → Res (Unit {0}) × Session P → Res A × Session P
  unpinned_or_reset next (ok _, s) = next s
  unpinned_or_reset next (err e, s) = (err e, record s { hf = reset_cur s.hf })
  unpinned_or_reset next (undefined, s) = (undefined, s)

  unfoldable pub get_record : Rid → M (Session P) (List ℕ)
  get_record rid s = elim s.hf.cur_page [
    | none ↦ fetch_record rid s
    | some i ↦
        if eq_ℤ rid.page_no s.hf.cur_page_no
        then (
          Page.get_record rid (P.page (s.sys.pool i)),
          record s { hf = record s.hf { cur_rec = rid } },
        )
        else unpinned_or_reset (fetch_record rid) (unpin_cur s)
  ]
