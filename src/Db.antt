-- ===== src/Db.antt =====
-- db.cpp: opening and closing a File, and class DB, which keeps the File objects of open files.
--
-- `new File` gives the next unused address. `delete` leaves the object's fields, which nobody may
-- read afterwards. The buffer manager is taken to exist, as it does after the start of the program.
pub mod Sessions
use database_management_syst.Common.{
  ℕ, zero, suc, ◌+◌, ◌-◌, Bool, true, false, Option, none, some, List, [], ◌∷◌, ◌==◌, if◌then◌else◌,
  ℤ, minus_one,
}
use database_management_syst.Status.{
  Status, Res, ok, err, undefined, unix_err, file_not_open, file_open, file_exists, bad_file,
  bad_file_ptr,
}
use database_management_syst.Monad.{
  M, ◌>>=◌, ◌>>◌, and_then, pure, fail, ignore, forget, modify, of_res,
}
use database_management_syst.Platform.{Platform}
use database_management_syst.System.{Sys, FileObj, update}
use database_management_syst.OpenFiles
use database_management_syst.OpenFiles.{FileTable}
use database_management_syst.FileIo
use database_management_syst.FileIo.{unix_status}
use database_management_syst.Buffer.{flush_file}

abbrev pub is_empty : List ℕ → Bool
is_empty [] = true
is_empty (c ∷ name) = false

module _ {P : Platform} where
  abbrev pub set_file : ℕ → FileObj → Sys P → Sys P
  set_file file f s = record s { files = update s.files file f }

  -- The object after ::open: the descriptor, or -1 and an error.
  abbrev pub opened : ℕ → FileObj → Sys P → Option ℤ → Res (Unit {0}) × Sys P
  opened file f s none = (err unix_err, set_file file (record f { unix_file = minus_one }) s)
  opened file f s (some fd) = (ok tt, set_file file (record f { unix_file = fd; open_cnt = 1 }) s)

  unfoldable pub open_object : ℕ → M (Sys P) (Unit {0})
  open_object file s =
      let f = s.files file in
      if f.open_cnt == 0
      then (let (fd, fs) = P.open_fd f.file_name s.fs in opened file f (record s { fs = fs }) fd)
      else (ok tt, set_file file (record f { open_cnt = f.open_cnt + 1 }) s)

  abbrev pub close_unix : ℕ → M (Sys P) (Unit {0})
  close_unix file s = unix_status s (P.close_fd (s.files file).unix_file s.fs)

  unfoldable pub close_object : ℕ → M (Sys P) (Unit {0})
  close_object file s =
      let f = s.files file in
      let s' = set_file file (record f { open_cnt = f.open_cnt - 1 }) s in
      if f.open_cnt == 0
      then (err file_not_open, s)
      else if f.open_cnt == 1
      then and_then (λ _ s''. close_unix file s'') (ignore (flush_file file) s')
      else (ok tt, s')

  -- ~File, which closes a file that is still open.
  unfoldable pub delete_file : ℕ → M (Sys P) (Unit {0})
  delete_file file s =
      let f = s.files file in
      if f.open_cnt == 0
      then (ok tt, s)
      else ignore (close_object file) (set_file file (record f { open_cnt = 1 }) s)

  unfoldable pub create_file : List ℕ → M (Sys P) (Unit {0})
  create_file name s =
      if is_empty name then (err bad_file, s) else elim (OpenFiles.find name s.open_files) [
        | ok file ↦ (err file_exists, s)
        | err e ↦ FileIo.create name s
        | undefined ↦ (undefined, s)
      ]

  unfoldable pub destroy_file : List ℕ → M (Sys P) (Unit {0})
  destroy_file name s =
      if is_empty name then (err bad_file, s) else elim (OpenFiles.find name s.open_files) [
        | ok file ↦ (err file_open, s)
        | err e ↦ FileIo.destroy name s
        | undefined ↦ (undefined, s)
      ]

  abbrev pub enter_file : Res FileTable → M (Sys P) (Unit {0})
  enter_file (ok t) s = (ok tt, record s { open_files = t })
  enter_file (err e) s = (err e, s)
  enter_file undefined s = (undefined, s)

  -- new File(name)
  unfoldable pub new_file : List ℕ → Sys P → Sys P
  new_file name s =
      set_file s.next_file (record { file_name = name; open_cnt = 0; unix_file = minus_one })
        (record s { next_file = s.next_file + 1 })

  unfoldable pub open_new : List ℕ → M (Sys P) ℕ
  open_new name s =
      let file = s.next_file in
      and_then
        (λ _ s'.
          and_then (λ _ s''. (ok file, s''))
            (enter_file (OpenFiles.insert name file s'.open_files) s'))
        (open_object file (new_file name s))

  unfoldable pub open_file : List ℕ → M (Sys P) ℕ
  open_file name s =
      if is_empty name then (err bad_file, s) else elim (OpenFiles.find name s.open_files) [
        | ok file ↦ and_then (λ _ s'. (ok file, s')) (open_object file s)
        | err e ↦ open_new name s
        | undefined ↦ (undefined, s)
      ]

  -- The end of closeFile, where nobody refers to the file any more.
  unfoldable pub forget_file : ℕ → M (Sys P) (Unit {0})
  forget_file file s = elim (OpenFiles.erase (s.files file).file_name s.open_files) [
    | ok t ↦ delete_file file (record s { open_files = t })
    | err e ↦ (err bad_file_ptr, s)
    | undefined ↦ (undefined, s)
  ]

  unfoldable pub close_file : ℕ → M (Sys P) (Unit {0})
  close_file file s =
      if file == 0
      then (err bad_file_ptr, s)
      else and_then
          (λ _ s'. if (s'.files file).open_cnt == 0 then forget_file file s' else (ok tt, s'))
          (ignore (close_object file) s)
