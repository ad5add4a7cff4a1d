-- ===== src/Tests/PoolTests.antt =====
-- A pool of two frames over a file of three pages, whose last page is given back and taken again.
use database_management_syst.Common.{
  ◌%◌, ◌^◌, ◌+◌, ℕ, ◌<◌, ◌≡◌, refl, true, List, [], ◌∷◌, some, arith, if◌then◌else◌, ℤ, pos,
  minus_one, eq_ℤ, page_key,
}
use database_management_syst.Status.{ok}
use database_management_syst.Monad.{◌>>=◌}
use database_management_syst.Platform.{DbPage}
use database_management_syst.System.{clear, Sys, set_desc}
use database_management_syst.HashTable.{Buckets, find}
use database_management_syst.HashTable.Laws.{
  IsUnique, Inserts, Removes, insert-Inserts, remove-Removes,
}
use database_management_syst.HashTable
use database_management_syst.BufHash
use database_management_syst.BufHash.{table_size, hash-lt-table_size}
use database_management_syst.OpenFiles
use database_management_syst.OpenFiles.{htsize, hash-lt}
use database_management_syst.FileIo
use database_management_syst.FileIo.{
  write_page, read_page_into, int_read_into, int_read, int_write, take_free, extend_file,
  allocate_page, free_page,
}
use database_management_syst.FileIo.FreeList.{
  Reuses, header_of, dispose_page-allocate_page_twice, dispose_page-allocate_page,
}
use database_management_syst.Buffer.{
  clear_page, release_frame, empty_frame, write_dirty, flush_frame, flush_from, flush_file,
  drop_entry, unpin_frame, unpin_page, take_frame, construct, alloc_buf, read_page, load_page,
  finish_alloc, sweep, visit_frame, advance_clock, write_back, fill_frame, enter_frame, pin_frame,
  alloc_page,
}
use database_management_syst.Buffer.Sound.{IsSound, HoldsPage}
use database_management_syst.Buffer.Calls.{IsPool}
use database_management_syst.Buffer.Pins.{IsPinnedAt, read_page-HoldsPage}
use mathlib.Core.Bool.{false≢true}
use database_management_syst.Buffer
use database_management_syst.Buffer.Addressed.{IsAddressed}
use database_management_syst.Buffer.Rounds.{Allocates, alloc_buf-Allocates}
use database_management_syst.Buffer.Flush.{
  call, Call, reads, unpins, allocates, disposes, flushes, run, construct-IsPool,
  run-construct-IsSound, construct-IsPool,
}
use database_management_syst.Db.{open_object, new_file, open_new, open_file}
use database_management_syst.Db.Sessions.{IsOpen, open_file-IsOpen}
use database_management_syst.Tests.Ram.{ram, ram-ReadsBack, start, zero_block}

-- File 1 is open as descriptor 3: a header page and two pages.
abbrev three_pages : Sys ram
three_pages = record start {
  fs = record start.fs {
    names = λ n. some (pos 3);
    pages = λ fd p.
        if eq_ℤ p (pos 0)
        then some (record zero_block {
          db_view = record { next_free = minus_one; first_page = pos 1; num_pages = pos 3 };
        })
        else some zero_block;
  };
  files = λ i. record { file_name = 65 ∷ []; open_cnt = 1; unix_file = pos 3 };
}

two_frames : Sys ram
two_frames = construct 2 three_pages

ready : two_frames.clock_hand < two_frames.num_bufs
unfolding two_frames construct
ready = omega arith

new_frames-IsAddressed : (i : ℕ) → i < two_frames.num_bufs → IsAddressed two_frames i
unfolding two_frames construct
new_frames-IsAddressed i lt = (λ held. absurd (false≢true held), λ dirty. absurd (false≢true dirty))

alloc_buf-Allocates_example : Allocates two_frames (alloc_buf two_frames).0
alloc_buf-Allocates_example = alloc_buf-Allocates two_frames ready new_frames-IsAddressed

abbrev calls : List Call
calls =
    reads 1 (pos 1)
    ∷ allocates 1
    ∷ reads 1 (pos 2)
    ∷ unpins 1 (pos 1) true
    ∷ flushes 1
    ∷ disposes 1 (pos 2)
    ∷ []

call_program : Unit {0}
unfolding construct read_page load_page alloc_buf finish_alloc take_frame sweep visit_frame
    advance_clock write_back fill_frame enter_frame pin_frame unpin_page unpin_frame drop_entry
    flush_file flush_from flush_frame write_dirty empty_frame release_frame clear_page
    Buffer.dispose_page alloc_page call run read_page_into write_page int_read_into int_read
    int_write take_free extend_file allocate_page free_page FileIo.dispose_page set_desc clear
    BufHash.lookup BufHash.insert BufHash.remove BufHash.hash BufHash.in_array table_size
    HashTable.lookup HashTable.insert HashTable.remove HashTable.find HashTable.unlink ◌>>=◌
call_program = tt

abbrev after_calls : Sys ram
after_calls = (run {P = ram} calls (construct 2 three_pages)).1

calls-ok : run calls (construct 2 three_pages) ≡ (ok tt, after_calls)
unfolding call_program
calls-ok = refl

run-construct-IsSound_example : IsSound after_calls
run-construct-IsSound_example =
    run-construct-IsSound 2 three_pages after_calls calls (omega arith) calls-ok

abbrev empty : Buckets (ℕ × ℤ) ℕ
empty i = []

empty-IsUnique : IsUnique (BufHash.hash 3) empty
empty-IsUnique i = tt

insert-Inserts_example :
    Inserts
      (BufHash.hash 3)
      (1, pos 5)
      0
      empty
      (HashTable.insert (BufHash.hash 3) (1, pos 5) 0 empty)
insert-Inserts_example = insert-Inserts (BufHash.hash 3) (1, pos 5) 0 empty empty-IsUnique

abbrev entry : Buckets (ℕ × ℤ) ℕ
entry i = if eq_ℤ i (pos 0) then ((1, pos 5), 0) ∷ [] else []

entry-IsUnique : IsUnique (BufHash.hash 3) entry
unfolding find
entry-IsUnique i = ground arith

remove-Removes_example :
    Removes (BufHash.hash 3) (1, pos 5) entry (HashTable.remove (BufHash.hash 3) (1, pos 5) entry)
remove-Removes_example = remove-Removes (BufHash.hash 3) (1, pos 5) entry entry-IsUnique

program : Unit {0}
unfolding FileIo.dispose_page int_read_into int_read int_write take_free extend_file allocate_page
    free_page ◌>>=◌
program = tt

abbrev after_dispose : Sys ram
after_dispose = (FileIo.dispose_page {P = ram} 1 (pos 2) three_pages).1

dispose-ok : FileIo.dispose_page 1 (pos 2) three_pages ≡ (ok tt, after_dispose)
unfolding program
dispose-ok = refl

dispose_page-allocate_page_example : Reuses 1 (pos 2) three_pages (allocate_page 1 after_dispose)
dispose_page-allocate_page_example =
    dispose_page-allocate_page 1 (pos 2) three_pages after_dispose ram-ReadsBack dispose-ok

abbrev after_open : Sys ram
after_open = (open_file {P = ram} (66 ∷ []) three_pages).1

opened_as : open_file (66 ∷ []) three_pages ≡ (ok 1, after_open)
unfolding open_file open_new open_object new_file OpenFiles.find OpenFiles.insert OpenFiles.hash
    OpenFiles.hash_loop HashTable.lookup HashTable.insert HashTable.find
opened_as = refl

open_file-IsOpen_example : IsOpen (66 ∷ []) 1 after_open
open_file-IsOpen_example = open_file-IsOpen (66 ∷ []) 1 three_pages after_open opened_as

hash-lt_example : (i : ℕ) × (OpenFiles.hash (200 ∷ 3 ∷ []) ≡ pos i) × (i < htsize)
hash-lt_example = hash-lt (200 ∷ 3 ∷ [])

hash-lt-table_size_example :
    (BufHash.hash (table_size 10) (4096, pos 9) ≡ pos ((4096 % 2 ^ 32 + 9) % table_size 10))
    × (BufHash.in_array (table_size 10) (4096, pos 9) ≡ true)
hash-lt-table_size_example = hash-lt-table_size 10 4096 9 (omega arith)

pool_program : Unit {0}
unfolding two_frames construct read_page load_page alloc_buf finish_alloc sweep visit_frame
    advance_clock write_back fill_frame enter_frame pin_frame read_page_into set_desc BufHash.lookup
    BufHash.insert BufHash.hash BufHash.in_array table_size HashTable.lookup HashTable.insert
    HashTable.find take_frame alloc_page program
pool_program = tt

holding : Sys ram
holding = (read_page {P = ram} 1 (pos 1) two_frames).1

read-ok : read_page 1 (pos 1) two_frames ≡ (ok 0, holding)
unfolding pool_program holding
read-ok = refl

two_frames-IsPool : IsPool two_frames
unfolding two_frames
two_frames-IsPool = construct-IsPool 2 three_pages (omega arith)

read_page-HoldsPage_example : HoldsPage holding (1, pos 1) 0 × IsPinnedAt (1, pos 1) 0 holding
read_page-HoldsPage_example =
    read_page-HoldsPage (1, pos 1) 0 two_frames holding two_frames-IsPool read-ok

abbrev again : Sys ram
again = (FileIo.dispose_page {P = ram} 1 (pos 2) after_dispose).1

abbrev first_given : Sys ram
first_given = (allocate_page {P = ram} 1 again).1

abbrev second_given : Sys ram
second_given = (allocate_page {P = ram} 1 first_given).1

again-ok : FileIo.dispose_page 1 (pos 2) after_dispose ≡ (ok tt, again)
unfolding program
again-ok = refl

first-ok : allocate_page 1 again ≡ (ok (pos 2), first_given)
unfolding program
first-ok = refl

second-ok : allocate_page 1 first_given ≡ (ok (pos 2), second_given)
unfolding program
second-ok = refl

abbrev head_header : DbPage
head_header = record { next_free = pos 2; first_page = pos 1; num_pages = pos 3 }

head-ok : header_of 1 after_dispose ≡ ok head_header
unfolding program
head-ok = refl

dispose_page-allocate_page_twice_example : (pos 2 ≡ pos 2) × (pos 2 ≡ pos 2)
dispose_page-allocate_page_twice_example =
    dispose_page-allocate_page_twice 1 (pos 2) (pos 2) (pos 2) head_header after_dispose again
      first_given second_given ram-ReadsBack head-ok refl again-ok first-ok second-ok
