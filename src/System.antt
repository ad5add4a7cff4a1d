-- ===== src/System.antt =====
-- The objects that the layers share: the File objects of db.h, the frames and counters of buf.h,
-- and the two hash tables. `db` and `bufMgr` are global variables of the program.
use database_management_syst.Common.{ℕ, Bool, true, false, List, ◌==◌, if◌then◌else◌, ℤ, minus_one}
use database_management_syst.Platform.{Platform}
use database_management_syst.BufHash.{FrameTable}
use database_management_syst.OpenFiles.{FileTable}

-- class File
pub record FileObj : Type 0 where
  pub file_name : List ℕ
  pub open_cnt : ℕ
  pub unix_file : ℤ

-- class BufDesc; a null file pointer is 0
pub record BufDesc : Type 0 where
  pub file : ℕ
  pub page_no : ℤ
  pub pin_cnt : ℕ
  pub dirty : Bool
  pub valid : Bool
  pub refbit : Bool

-- struct BufStats
pub record BufStats : Type 0 where
  pub accesses : ℕ
  pub diskreads : ℕ
  pub diskwrites : ℕ

-- A pointer to a File is its address: a number that `new` has not given before.
pub record Sys (P : Platform) : Type 0 where
  pub fs : P.Fs
  pub files : ℕ → FileObj
  pub next_file : ℕ
  pub open_files : FileTable
  pub num_bufs : ℕ
  pub clock_hand : ℕ
  pub ht_size : ℕ
  pub frame_table : FrameTable
  pub desc : ℕ → BufDesc
  pub pool : ℕ → P.Raw
  pub stats : BufStats

abbrev pub update : {A : Type 0} → (ℕ → A) → ℕ → A → ℕ → A
update f i a j = if j == i then a else f j

-- BufDesc::Clear, which leaves the reference bit
unfoldable pub clear : BufDesc → BufDesc
clear d = record d { pin_cnt = 0; file = 0; page_no = minus_one; dirty = false; valid = false }

-- BufDesc::Set
unfoldable pub set_desc : ℕ → ℤ → BufDesc
set_desc file page_no = record {
  file = file;
  page_no = page_no;
  pin_cnt = 1;
  dirty = false;
  valid = true;
  refbit = true;
}
