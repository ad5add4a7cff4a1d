-- ===== src/Status.antt =====
-- error.h: the codes of `enum Status`, and the result of a call that returns one of them.

-- `OK` is the constructor `ok` of `Res`; the two unused codes are left out.
pub data Status : Type 0 where
  bad_file_ptr bad_file file_tab_full file_open file_not_open : Status
  unix_err bad_page_ptr bad_page_no file_exists : Status
  hash_tbl_error hash_not_found buffer_exceeded page_not_pinned bad_buffer page_pinned : Status
  no_space no_records end_of_page invalid_slot_no invalid_rec_len : Status
  bad_rid bad_rec_ptr bad_scan_parm bad_scan_id scan_tab_full file_eof file_hdr_full : Status
  bad_index_parm rec_not_found bucket_full dir_overflow non_unique_entry no_more_recs : Status
  bad_sort_parm insuf_mem : Status
  bad_cat_parm rel_not_found attr_not_found name_too_long dupl_attr rel_exists no_index : Status
  index_exists attr_too_long attr_type_mismatch tmp_res_exists : Status

-- A returned status with the values of the output parameters. `undefined` stands for an access
-- outside an array, after which C++ promises nothing.
pub data Res {ℓ} (A : Type ℓ) : Type ℓ where
  ok : A → Res A
  err : Status → Res A
  undefined : Res A
