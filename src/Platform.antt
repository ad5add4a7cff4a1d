-- ===== src/Platform.antt =====
-- What the program takes from outside: the operating system's files, and the views that C++ casts
-- give of a page-sized block of memory.
use database_management_syst.Common.{ℕ, ◌≡◌, ◌≢◌, Bool, true, Option, List, ℤ}
use database_management_syst.Page.{Page}

-- db.h: the header page of a file. Page 0 holds it, and a free page has its `next_free`.
pub record DbPage : Type 0 where
  pub next_free : ℤ
  pub first_page : ℤ
  pub num_pages : ℤ

-- heapfile.h: the header page of a heap file.
pub record FileHdrPage : Type 0 where
  pub file_name : List ℕ
  pub first_page : ℤ
  pub last_page : ℤ
  pub page_cnt : ℤ
  pub rec_cnt : ℤ

-- The outcome of creating a file with O_CREAT | O_EXCL.
pub data Creation : Type 0 where
  created : ℤ → Creation
  already_exists : Creation
  not_created : Creation

pub record Platform : Type 1 where
  -- A block of sizeof(Page) bytes, as memset to 0, and its views: what a cast reads, and what
  -- writing the cast struct's fields leaves.
  pub Raw : Type 0
  pub zeroed : Raw
  pub dbp : Raw → DbPage
  pub set_dbp : DbPage → Raw → Raw
  pub page : Raw → Page
  pub set_page : Page → Raw → Raw
  pub hdr : Raw → FileHdrPage
  pub set_hdr : FileHdrPage → Raw → Raw
  pub dbp-set_dbp : (d : DbPage) (r : Raw) → dbp (set_dbp d r) ≡ d
  pub page-set_page : (p : Page) (r : Raw) → page (set_page p r) ≡ p
  pub hdr-set_hdr : (h : FileHdrPage) (r : Raw) → hdr (set_hdr h r) ≡ h
  -- The file system. `pread` is lseek to a page and read of one page into a block: the block
  -- afterwards, and whether both calls did all they were asked. `pwrite` is lseek and write.
  pub Fs : Type 0
  pub creat : List ℕ → Fs → Creation × Fs
  pub open_fd : List ℕ → Fs → Option ℤ × Fs
  pub close_fd : ℤ → Fs → Bool × Fs
  pub unlink : List ℕ → Fs → Bool × Fs
  pub pread : ℤ → ℤ → Fs → Raw → Bool × Raw
  pub pwrite : ℤ → ℤ → Raw → Fs → Bool × Fs

-- What POSIX says of a read after a write through the same descriptor: it returns what was
-- written, and other pages that could be read are as before.
pub record ReadsBack (P : Platform) : Type 0 where
  pub read_written :
      (fd p : ℤ) (r old : P.Raw) (fs : P.Fs)
      → (P.pwrite fd p r fs).0 ≡ true
      → P.pread fd p (P.pwrite fd p r fs).1 old ≡ (true, r)
  pub read_other :
      (fd p q : ℤ) (r old : P.Raw) (fs : P.Fs)
      → (P.pwrite fd p r fs).0 ≡ true
      → p ≢ q
      → (P.pread fd q fs old).0 ≡ true
      → P.pread fd q (P.pwrite fd p r fs).1 old ≡ P.pread fd q fs old
