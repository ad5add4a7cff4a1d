-- ===== src/FileIo.antt =====
-- db.cpp, class File: the pages of one file and its free list. Page 0 is the header page.
--
-- A block that the source declares and leaves uninitialised starts as zeroed here: a read
-- overwrites it or makes the call fail. The pagePtr parameters are blocks and so never null.
pub mod FreeList
use database_management_syst.Common.{
  ℕ, zero, suc, ◌≡◌, refl, Bool, true, false, ◌||◌, ◌&&◌, not, none, some, List, if◌then◌else◌, ℤ,
  pos, minus_one, eq_ℤ, ltb_ℤ, ◌+ℤ◌,
}
use database_management_syst.Status.{Res, ok, err, undefined, unix_err, bad_page_no, file_exists}
use database_management_syst.Monad.{M, ◌>>=◌, ◌>>◌, and_then, pure, fail, when}
use database_management_syst.Platform.{
  Platform, DbPage, Creation, created, already_exists, not_created,
}
use database_management_syst.System.{Sys, FileObj, update}

-- The header page of a new file.
abbrev pub empty_header : DbPage
empty_header = record { next_free = minus_one; first_page = minus_one; num_pages = pos 1 }

module _ {P : Platform} where
  -- The status of a system call, and the file system that it leaves.
  abbrev pub unix_status : Sys P → Bool × P.Fs → Res (Unit {0}) × Sys P
  unix_status s (true, fs) = (ok tt, record s { fs = fs })
  unix_status s (false, fs) = (err unix_err, record s { fs = fs })

  -- The block after the read, also of a read that fails.
  unfoldable pub int_read_into : ℕ → ℤ → P.Raw → Sys P → Res (Unit {0}) × P.Raw
  int_read_into file page_no block s =
      let (done, block') = P.pread (s.files file).unix_file page_no s.fs block in
      (if done then ok tt else err unix_err, block')

  abbrev pub local_block : Res (Unit {0}) × P.Raw → Sys P → Res P.Raw × Sys P
  local_block (ok _, block) s = (ok block, s)
  local_block (err e, block) s = (err e, s)
  local_block (undefined, block) s = (undefined, s)

  -- intread into a block of the caller's own.
  unfoldable pub int_read : ℕ → ℤ → M (Sys P) P.Raw
  int_read file page_no s = local_block (int_read_into file page_no P.zeroed s) s

  unfoldable pub int_write : ℕ → ℤ → P.Raw → M (Sys P) (Unit {0})
  int_write file page_no block s =
      unix_status s (P.pwrite (s.files file).unix_file page_no block s.fs)

  unfoldable pub read_page_into : ℕ → ℤ → P.Raw → Sys P → Res (Unit {0}) × P.Raw
  read_page_into file page_no block s =
      if ltb_ℤ page_no (pos 1) then (err bad_page_no, block) else int_read_into file page_no block s

  unfoldable pub write_page : ℕ → ℤ → P.Raw → M (Sys P) (Unit {0})
  write_page file page_no block =
      if ltb_ℤ page_no (pos 1) then fail bad_page_no else int_write file page_no block

  -- A page of the free list: the header without it.
  unfoldable pub take_free : ℕ → DbPage → M (Sys P) (ℤ × DbPage)
  take_free file header = do
    first_free ← int_read file header.next_free
    pure (header.next_free, record header { next_free = (P.dbp first_free).next_free })

  -- A page behind the last one: the header with it.
  unfoldable pub extend_file : ℕ → DbPage → M (Sys P) (ℤ × DbPage)
  extend_file file header = do
    int_write file header.num_pages P.zeroed
    pure (
      header.num_pages,
      record header {
        num_pages = header.num_pages +ℤ pos 1;
        first_page =
            if eq_ℤ header.first_page minus_one then header.num_pages else header.first_page;
      },
    )

  unfoldable pub allocate_page : ℕ → M (Sys P) ℤ
  allocate_page file = do
    block ← int_read file (pos 0)
    let header = P.dbp block
    (page_no, header') ←
        if not (eq_ℤ header.next_free minus_one)
        then take_free file header
        else extend_file file header
    int_write file (pos 0) (P.set_dbp header' block)
    pure page_no

  -- The page becomes the head of the free list.
  unfoldable pub free_page : ℕ → ℤ → P.Raw → M (Sys P) (Unit {0})
  free_page file page_no block = do
    _ ← int_read file page_no
    let header = P.dbp block
    int_write file page_no
        (P.set_dbp (record (P.dbp P.zeroed) { next_free = header.next_free }) P.zeroed)
    int_write file (pos 0) (P.set_dbp (record header { next_free = page_no }) block)

  unfoldable pub dispose_page : ℕ → ℤ → M (Sys P) (Unit {0})
  dispose_page file page_no = if ltb_ℤ page_no (pos 1) then fail bad_page_no else do
    block ← int_read file (pos 0)
    if eq_ℤ (P.dbp block).first_page page_no || not (ltb_ℤ page_no (P.dbp block).num_pages)
        then fail bad_page_no
        else free_page file page_no block

  unfoldable pub get_first_page : ℕ → M (Sys P) ℤ
  get_first_page file = do block ← int_read file (pos 0); pure (P.dbp block).first_page

  abbrev pub write_header : Creation → M (Sys P) (Unit {0})
  write_header already_exists s = (err file_exists, s)
  write_header not_created s = (err unix_err, s)
  write_header (created fd) s =
      and_then (λ _ s'. unix_status s' (P.close_fd fd s'.fs))
        (unix_status s (P.pwrite fd (pos 0) (P.set_dbp empty_header P.zeroed) s.fs))

  unfoldable pub create : List ℕ → M (Sys P) (Unit {0})
  create name s =
      let (creation, fs) = P.creat name s.fs in write_header creation (record s { fs = fs })

  unfoldable pub destroy : List ℕ → M (Sys P) (Unit {0})
  destroy name s = unix_status s (P.unlink name s.fs)
