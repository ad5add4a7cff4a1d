-- ===== src/Tests/MapTests.antt =====
-- A pool of one frame over a file of two pages: a page is changed, evicted and read again.
use database_management_syst.Common.{
  ◌≢◌, true, ℕ, ◌<◌, ◌≡◌, ◌==◌, ==_iff, refl, true, false, Option, [], ◌∷◌, none, some, arith,
  if◌then◌else◌, ℤ, pos, minus_one, Bool-cases, inl, inr, sym, page_key, page_key_eq,
  page_key_eq_iff,
}
use mathlib.Core.Bool.{false≢true}
use database_management_syst.Status.{undefined, ok}
use database_management_syst.System.{Sys, set_desc}
use database_management_syst.Monad.{◌>>=◌}
use database_management_syst.HashTable
use database_management_syst.HashTable.Laws.{view}
use database_management_syst.BufHash
use database_management_syst.BufHash.{table_size}
use database_management_syst.FileIo.{read_page_into, write_page, int_read_into, int_write}
use database_management_syst.Buffer.{
  empty_frame, take_frame, construct, alloc_buf, read_page, load_page, finish_alloc, sweep,
  visit_frame, advance_clock, write_back, fill_frame, enter_frame, pin_frame, unpin_page,
  unpin_frame, set_pool, drop_entry, flush_file, flush_from, flush_frame, write_dirty,
  release_frame, shut_down,
}
use database_management_syst.Buffer.Sound.{frame_of}
use database_management_syst.Buffer.Map.Disk.{OnDisk, IsOpened, Apart}
use database_management_syst.Buffer.Map.View.{Pages}
use database_management_syst.Buffer.Map.Clients.{edited, reported}
use database_management_syst.Buffer.Map.Defined.{Steps-defined}
use database_management_syst.Buffer.Map.Refines.{
  Steps, done, next, reads, edits, unpins, IsKnown, unchanged, Steps-read_page, Steps-flush_file,
  Steps-shut_down,
}
use database_management_syst.Buffer.Map.ShutDown.{Writes}
use database_management_syst.Tests.Ram.{ram, ram-ReadsBack, Block, start, zero_block}

-- File 1 is open as descriptor 3, and no other file is.
abbrev two_pages : Sys ram
two_pages = record start {
  fs = record start.fs { pages = λ fd p. some zero_block };
  files = λ i. record {
    file_name = 65 ∷ [];
    open_cnt = if i == 1 then 1 else 0;
    unix_file = if i == 1 then pos 3 else minus_one;
  };
}

abbrev new_block : Block
new_block = record zero_block {
  db_view = record { next_free = pos 7; first_page = pos 7; num_pages = pos 7 };
}

abbrev first_known : ℕ × ℤ → Option Block
first_known k = if page_key_eq k (1, pos 1) then some zero_block else none

map_program : Unit {0}
unfolding construct read_page load_page alloc_buf finish_alloc sweep visit_frame advance_clock
    take_frame empty_frame BufHash.in_array write_back fill_frame enter_frame pin_frame unpin_page
    unpin_frame drop_entry flush_file flush_from flush_frame write_dirty release_frame
    read_page_into write_page int_read_into int_write set_desc BufHash.lookup BufHash.insert
    BufHash.remove BufHash.hash table_size HashTable.lookup HashTable.insert HashTable.remove
    HashTable.find HashTable.unlink view ◌>>=◌
map_program = tt

abbrev one_frame : Sys ram
one_frame = construct 1 two_pages

first_read : Sys ram
first_read = (read_page {P = ram} 1 (pos 1) one_frame).1

abbrev first_changed : Sys ram
first_changed = set_pool 0 new_block first_read

first_unpinned : Sys ram
first_unpinned = (unpin_page {P = ram} 1 (pos 1) true first_changed).1

second_read : Sys ram
second_read = (read_page {P = ram} 1 (pos 2) first_unpinned).1

second_unpinned : Sys ram
second_unpinned = (unpin_page {P = ram} 1 (pos 2) false second_read).1

first_again : Sys ram
first_again = (read_page {P = ram} 1 (pos 1) second_unpinned).1

states : Unit {0}
unfolding map_program first_read first_unpinned second_read second_unpinned first_again
states = tt

first-ok : read_page 1 (pos 1) one_frame ≡ (ok 0, first_read)
unfolding states
first-ok = refl

first-pinned : (frame_of first_read (1, pos 1) ≡ some 0) × (0 < (first_read.desc 0).pin_cnt)
unfolding states
first-pinned = (refl, omega arith)

unpin-ok : unpin_page 1 (pos 1) true first_changed ≡ (ok tt, first_unpinned)
unfolding states
unpin-ok = refl

second-ok : read_page 1 (pos 2) first_unpinned ≡ (ok 0, second_read)
unfolding states
second-ok = refl

second_unpin-ok : unpin_page 1 (pos 2) false second_read ≡ (ok tt, second_unpinned)
unfolding states
second_unpin-ok = refl

again-ok : read_page 1 (pos 1) second_unpinned ≡ (ok 0, first_again)
unfolding states
again-ok = refl

abbrev p1 : ℕ × ℤ
p1 = (1, pos 1)

abbrev last_map : Pages ram
last_map =
    reported (1, pos 2) false (reported p1 true (edited p1 new_block (unchanged first_known)))

one_open : (f : ℕ) → IsOpened two_pages f → f ≡ 1
one_open f o = ground (arith, ==_iff f 1)

two_pages-Apart : Apart two_pages
two_pages-Apart f g o o' ne = ground (arith, one_open f o, one_open g o')

two_pages-IsKnown : IsKnown first_known two_pages
two_pages-IsKnown k r known = elim (Bool-cases (page_key_eq k p1)) [
  | inl hit ↦
      let here : k ≡ p1 = (page_key_eq_iff k p1).0 hit in
      let block : zero_block ≡ r = ground arith in
      rw here ((omega arith, omega arith), λ old i. (true, block i))
  | inr miss ↦ absurd (ground arith)
]

one_frame-open : IsOpened one_frame 1
unfolding states
one_frame-open = (omega arith, omega arith)

first_unpinned-open : IsOpened first_unpinned 1
unfolding states
first_unpinned-open = (omega arith, omega arith)

abbrev changed_map : Pages ram
changed_map = reported p1 true (edited p1 new_block (unchanged first_known))

change-steps : Steps one_frame (unchanged first_known) first_unpinned changed_map
change-steps =
    next
      (next (next done (reads p1 0 first_read one_frame-open first-ok))
        (edits p1 0 new_block first-pinned))
      (unpins p1 true first_unpinned (λ e. absurd (false≢true (sym e))) unpin-ok)

run-steps : Steps one_frame (unchanged first_known) second_unpinned last_map
run-steps =
    next (next change-steps (reads (1, pos 2) 0 second_read first_unpinned-open second-ok))
      (unpins (1, pos 2) false second_unpinned (λ _ e. absurd (false≢true e)) second_unpin-ok)

Steps-read_page_example : first_again.pool 0 ≡ new_block
Steps-read_page_example =
    Steps-read_page 1 two_pages second_unpinned first_again first_known last_map p1 0 new_block
      ram-ReadsBack (omega arith) two_pages-Apart two_pages-IsKnown run-steps refl again-ok

second_unpinned-in_array : BufHash.in_array second_unpinned.ht_size p1 ≡ true
unfolding states
second_unpinned-in_array = refl

Steps-defined_example :
    ((read_page 1 (pos 1) second_unpinned).0 ≢ undefined)
    × ((unpin_page 1 (pos 1) true second_unpinned).0 ≢ undefined)
    × ((flush_file 1 second_unpinned).0 ≢ undefined)
Steps-defined_example =
    Steps-defined 1 two_pages second_unpinned first_known last_map p1 true 1 ram-ReadsBack
      (omega arith) two_pages-Apart two_pages-IsKnown run-steps (omega arith)
      second_unpinned-in_array

flushed : Sys ram
flushed = (flush_file {P = ram} 1 first_unpinned).1

flush-ok : flush_file 1 first_unpinned ≡ (ok tt, flushed)
unfolding states flushed
flush-ok = refl

Steps-flush_file_example : OnDisk flushed p1 new_block
Steps-flush_file_example =
    Steps-flush_file 1 two_pages first_unpinned flushed first_known changed_map p1 new_block
      ram-ReadsBack (omega arith) two_pages-Apart two_pages-IsKnown change-steps refl flush-ok

ram-Writes : Writes ram
ram-Writes fd p r fs = refl

Steps-shut_down_example :
    ((shut_down first_unpinned).0 ≡ ok tt) × OnDisk (shut_down first_unpinned).1 p1 new_block
Steps-shut_down_example =
    Steps-shut_down 1 two_pages first_unpinned first_known changed_map p1 new_block ram-ReadsBack
      ram-Writes (omega arith) two_pages-Apart two_pages-IsKnown change-steps refl refl refl
