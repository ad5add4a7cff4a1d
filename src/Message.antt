-- ===== src/Message.antt =====
-- error.cpp: the text that Error::print writes for a status.
use database_management_syst.Common.{ℕ, List, [], ◌∷◌, ◌++◌, Option, none, some, codes}
use database_management_syst.Status.{
  Status, bad_file_ptr, bad_file, file_tab_full, file_open, file_not_open, unix_err, bad_page_ptr,
  bad_page_no, file_exists, hash_tbl_error, hash_not_found, buffer_exceeded, page_not_pinned,
  bad_buffer, page_pinned, no_space, no_records, end_of_page, invalid_slot_no, invalid_rec_len,
  bad_rid, bad_rec_ptr, bad_scan_parm, scan_tab_full, file_eof, file_hdr_full, bad_index_parm,
  rec_not_found, bucket_full, dir_overflow, non_unique_entry, no_more_recs, bad_sort_parm,
  insuf_mem, bad_cat_parm, rel_not_found, attr_not_found, name_too_long, attr_too_long, dupl_attr,
  rel_exists, no_index, attr_type_mismatch, index_exists, tmp_res_exists, bad_scan_id,
}

-- The cases of the switch. BADSCANID, of number -975, is the default.
unfoldable pub message : Status → List ℕ
message bad_file_ptr = codes "bad file pointer"
message bad_file = codes "bad filename"
message file_tab_full = codes "open file table full"
message file_open = codes "file open"
message file_not_open = codes "file not open"
message unix_err = codes "Unix error"
message bad_page_ptr = codes "bad page pointer"
message bad_page_no = codes "bad page number"
message file_exists = codes "file exists already"
message hash_tbl_error = codes "hash table error"
message hash_not_found = codes "hash entry not found"
message buffer_exceeded = codes "buffer pool full"
message page_not_pinned = codes "page not pinned"
message bad_buffer = codes "buffer pool corrupted"
message page_pinned = codes "page still pinned"
message no_space = codes "no space on page for record"
message no_records = codes "page is empty - no records"
message end_of_page = codes "last record on page"
message invalid_slot_no = codes "invalid slot number"
message invalid_rec_len = codes "specified record length <= 0"
message bad_rid = codes "bad record id"
message bad_rec_ptr = codes "bad record pointer"
message bad_scan_parm = codes "bad scan parameter"
message scan_tab_full = codes "scan table full"
message file_eof = codes "end of file encountered"
message file_hdr_full = codes "heapfile hdear page is full"
message bad_index_parm = codes "bad index parameter"
message rec_not_found = codes "no such record"
message bucket_full = codes "bucket full"
message dir_overflow = codes "directory is full"
message non_unique_entry = codes "nonunique entry"
message no_more_recs = codes "no more records"
message bad_sort_parm = codes "bad sort parameter"
message insuf_mem = codes "insufficient memory"
message bad_cat_parm = codes "bad catalog parameter"
message rel_not_found = codes "relation not in catalog"
message attr_not_found = codes "attribute not in catalog"
message name_too_long = codes "name too long"
message attr_too_long = codes "attributes too long"
message dupl_attr = codes "duplicate attribute names"
message rel_exists = codes "relation exists already"
message no_index = codes "no index exists"
message attr_type_mismatch = codes "attribute type mismatch"
message index_exists = codes "index exists already"
message tmp_res_exists = codes "temp result already exists"
message bad_scan_id = codes "undefined error status: -975"

-- Error::print; OK is `none`.
unfoldable pub error_line : Option Status → List ℕ
error_line none = codes "Error: no error" ++ 10 ∷ []
error_line (some e) = codes "Error: " ++ (message e ++ 10 ∷ [])
