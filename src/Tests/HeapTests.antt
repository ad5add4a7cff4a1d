-- ===== src/Tests/HeapTests.antt =====
-- A scan whose current record has been deleted already, on a pool whose frames are empty pages.
use database_management_syst.Common.{◌≡◌, ◌≢◌, refl, false, none, some, arith, pos, minus_one}
use database_management_syst.Status.{err, undefined, invalid_slot_no}
use database_management_syst.Page
use database_management_syst.Page.{Page, valid_slot, extent}
use database_management_syst.HeapFile.{Session}
use database_management_syst.HeapFile.Scan.{delete_cur_record}
use database_management_syst.HeapFile.Counts.{Counts, delete_cur_record-Counts}
use database_management_syst.Tests.Ram.{ram, start, no_page}

abbrev scan : Session ram
scan = record {
  hf = record {
    file_ptr = 1;
    header_page = 0;
    header_page_no = pos 1;
    hdr_dirty = false;
    cur_page = some 1;
    cur_page_no = pos 2;
    cur_dirty = false;
    cur_rec = record { page_no = pos 2; slot_no = pos 0 };
    filter = none;
    marked_page_no = minus_one;
    marked_rec = record { page_no = minus_one; slot_no = minus_one };
  };
  sys = start;
}

deletion_fails : Page.delete_record scan.hf.cur_rec no_page ≡ err invalid_slot_no
unfolding Page.delete_record valid_slot extent
deletion_fails = refl

deletion_defined : Page.delete_record scan.hf.cur_rec no_page ≢ undefined
deletion_defined = rw deletion_fails (λ e. ground arith)

delete_cur_record-Counts_example :
    Counts scan (Page.delete_record scan.hf.cur_rec no_page) (delete_cur_record scan)
delete_cur_record-Counts_example =
    delete_cur_record-Counts scan 1 refl (λ e. ground arith) deletion_defined
