-- ===== src/Tests/Ram.antt =====
-- A platform for the tests: files in memory, and blocks that keep their three views apart.
use database_management_syst.Common.{
  ℕ, ◌+◌, refl, Bool, true, false, Option, none, some, List, [], if◌then◌else◌, arith, ℤ, pos,
  minus_one, eq_ℤ, eq_ℤ_iff, bytes_eq,
}
use database_management_syst.Page.{Page}
use database_management_syst.Platform.{
  Platform, DbPage, FileHdrPage, Creation, created, already_exists, ReadsBack,
}
use database_management_syst.System.{Sys}

pub record Block : Type 0 where
  pub db_view : DbPage
  pub page_view : Page
  pub hdr_view : FileHdrPage

pub record Disk : Type 0 where
  pub names : List ℕ → Option ℤ
  pub pages : ℤ → ℤ → Option Block
  pub next_fd : ℕ

abbrev pub no_page : Page
no_page = record {
  bytes = λ k. 0;
  slots = [];
  free_ptr = 0;
  free_space = 0;
  next_page = pos 0;
  cur_page = pos 0;
}

abbrev pub zero_block : Block
zero_block = record {
  db_view = record { next_free = pos 0; first_page = pos 0; num_pages = pos 0 };
  page_view = no_page;
  hdr_view = record {
    file_name = [];
    first_page = pos 0;
    last_page = pos 0;
    page_cnt = pos 0;
    rec_cnt = pos 0;
  };
}

abbrev ram_creat : List ℕ → Disk → Creation × Disk
ram_creat name d = elim (d.names name) [
  | some fd ↦ (already_exists, d)
  | none ↦ (
    created (pos d.next_fd),
    record d {
      names = λ n. if bytes_eq n name then some (pos d.next_fd) else d.names n;
      next_fd = d.next_fd + 1;
    },
  )
]

abbrev ram_pread : ℤ → ℤ → Disk → Block → Bool × Block
ram_pread fd p d old = elim (d.pages fd p) [ none ↦ (false, old) | some b ↦ (true, b) ]

abbrev ram_pwrite : ℤ → ℤ → Block → Disk → Bool × Disk
ram_pwrite fd p b d = (
  true,
  record d {
    pages = λ f q. if eq_ℤ f fd then (if eq_ℤ q p then some b else d.pages f q) else d.pages f q;
  },
)

abbrev pub ram : Platform
ram = record {
  Raw = Block;
  zeroed = zero_block;
  dbp = λ b. b.db_view;
  set_dbp = λ v b. record b { db_view = v };
  page = λ b. b.page_view;
  set_page = λ v b. record b { page_view = v };
  hdr = λ b. b.hdr_view;
  set_hdr = λ v b. record b { hdr_view = v };
  dbp-set_dbp = λ d r. refl;
  page-set_page = λ d r. refl;
  hdr-set_hdr = λ d r. refl;
  Fs = Disk;
  creat = ram_creat;
  open_fd = λ name d. (d.names name, d);
  close_fd = λ fd d. (true, d);
  unlink = λ name d. (true, record d { names = λ n. if bytes_eq n name then none else d.names n });
  pread = ram_pread;
  pwrite = ram_pwrite;
}

-- The files of this platform meet what is asked of the operating system's.
pub ram-ReadsBack : ReadsBack ram
ram-ReadsBack = record {
  read_written = λ fd p r old fs h. ground (arith, eq_ℤ_iff fd fd, eq_ℤ_iff p p);
  read_other = λ fd p q r old fs h ne e. ground (arith, eq_ℤ_iff q p);
}

-- An empty disk, no open file, and a pool of two frames.
abbrev pub start : Sys ram
start = record {
  fs = record { names = λ n. none; pages = λ f p. none; next_fd = 3 };
  files = λ i. record { file_name = []; open_cnt = 0; unix_file = minus_one };
  next_file = 1;
  open_files = λ i. [];
  num_bufs = 0;
  clock_hand = 0;
  ht_size = 0;
  frame_table = λ i. [];
  desc = λ i. record {
    file = 0;
    page_no = pos 0;
    pin_cnt = 0;
    dirty = false;
    valid = false;
    refbit = false;
  };
  pool = λ i. zero_block;
  stats = record { accesses = 0; diskreads = 0; diskwrites = 0 };
}
