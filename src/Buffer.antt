-- ===== src/Buffer.antt =====
-- buf.cpp, class BufMgr: the buffer pool with the clock replacement.
--
-- A Page* into the pool is the number of its frame. `found` and `numScanned` of allocBuf are the
-- two parts of a `Sweep`: the scans that are left stand for 2 * numBufs - numScanned.
pub mod Clock
pub mod Addressed
pub mod Laps
pub mod Rounds
pub mod Same
pub mod Sound
pub mod Calls
pub mod Flush
pub mod Pins
pub mod Frames
pub mod Map
use database_management_syst.Common.{
  ℕ, zero, suc, ◌+◌, ◌*◌, ◌-◌, ◌%◌, Bool, true, false, ◌&&◌, not, [], ◌==◌, ltb, if◌then◌else◌, ℤ,
  pos, minus_one,
}
use database_management_syst.Status.{
  Status, Res, ok, err, undefined, buffer_exceeded, page_not_pinned, page_pinned, bad_buffer,
}
use database_management_syst.Monad.{
  M, ◌>>=◌, ◌>>◌, and_then, pure, fail, get, modify, ignore, forget, attempt, caught, of_res, when,
  guarded,
}
use database_management_syst.Platform.{Platform}
use database_management_syst.System.{Sys, BufDesc, BufStats, update, clear, set_desc}
use database_management_syst.BufHash
use database_management_syst.BufHash.{FrameTable}
use database_management_syst.FileIo.{read_page_into, write_page, allocate_page}
use database_management_syst.FileIo

-- How a scan of one frame ends.
pub data Visit : Type 0 where
  unused evicted passed : Visit

pub record Sweep : Type 0 where
  pub found : Bool
  pub left : ℕ

-- A table after a call of `remove` whose status nobody reads. A call at an index outside the array
-- makes the call of BufMgr around it `undefined`, by a `within`: that of take_frame for the loop of
-- allocBuf, whose last turn it is, of empty_frame for flushFile, and of dispose_page.
abbrev pub removed : FrameTable → Res FrameTable → FrameTable
removed old (ok new) = new
removed old (err e) = old
removed old undefined = old

module _ {P : Platform} where
  -- The constructor's state over the objects that the rest of the program has.
  unfoldable pub construct : ℕ → Sys P → Sys P
  construct bufs s = record s {
    num_bufs = bufs;
    clock_hand = bufs - 1;
    ht_size = BufHash.table_size bufs;
    frame_table = λ i. [];
    desc = λ i. record {
      file = 0;
      page_no = pos 0;
      pin_cnt = 0;
      dirty = false;
      valid = false;
      refbit = false;
    };
    pool = λ i. P.zeroed;
    stats = record { accesses = 0; diskreads = 0; diskwrites = 0 };
  }

  -- A call of a File object's member through a pointer, which is undefined through NULL.
  abbrev pub through : {A : Type 0} → ℕ → M (Sys P) A → M (Sys P) A
  through file m s = guarded (not (file == 0)) m s

  -- Calls of the hash table for a page, which are undefined at an index outside the array.
  abbrev pub within : {A : Type 0} → ℕ × ℤ → M (Sys P) A → M (Sys P) A
  within k m s = guarded (BufHash.in_array s.ht_size k) m s

  unfoldable pub advance_clock : Sys P → Sys P
  advance_clock s = record s { clock_hand = (s.clock_hand + 1) % s.num_bufs }

  abbrev pub set_frame : ℕ → BufDesc → Sys P → Sys P
  set_frame i d s = record s { desc = update s.desc i d }

  unfoldable pub drop_entry : ℕ × ℤ → Sys P → Sys P
  drop_entry k s = record s {
    frame_table = removed s.frame_table (BufHash.remove s.ht_size k s.frame_table);
  }

  -- The body of the loop of allocBuf at the frame under the clock hand.
  unfoldable pub visit_frame : Sys P → Visit × Sys P
  visit_frame s =
      let d = s.desc s.clock_hand in
      if not d.valid
      then (unused, s)
      else if not d.refbit
      then (if d.pin_cnt == 0 then (evicted, drop_entry (d.file, d.page_no) s) else (passed, s))
      else (
        passed,
        set_frame s.clock_hand (record d { refbit = false })
            (record s { stats = record s.stats { accesses = s.stats.accesses + 1 } }),
      )

  -- The loop ends at a frame that can be used, and else goes on.
  abbrev pub resume : Visit → ℕ → Sys P → Sweep × Sys P → Sweep × Sys P
  resume unused k s rest = (record { found = false; left = k }, s)
  resume evicted k s rest = (record { found = true; left = k }, s)
  resume passed k s rest = rest

  -- The loop, by the scans that are left.
  unfoldable pub sweep : ℕ → Sys P → Sweep × Sys P
  sweep zero s = (record { found = false; left = 0 }, s)
  sweep (suc k) s =
      let (v, s') = visit_frame (advance_clock s) in let rest = sweep k s' in resume v k s' rest

  -- The write of a changed page before its frame is given away.
  unfoldable pub write_back : M (Sys P) (Unit {0})
  write_back s =
      let d = s.desc s.clock_hand in
      if d.dirty
      then through d.file (write_page d.file d.page_no (s.pool s.clock_hand))
          (record s { stats = record s.stats { diskwrites = s.stats.diskwrites + 1 } })
      else (ok tt, s)

  -- What follows the loop at the frame under the clock hand. The entry of its page is gone if the
  -- loop found the frame by evicting the page.
  unfoldable pub take_frame : Sweep → M (Sys P) (Unit {0})
  take_frame w s =
      let d = s.desc s.clock_hand in
      if w.found then within (d.file, d.page_no) write_back s else write_back s

  unfoldable pub finish_alloc : Sweep → M (Sys P) ℕ
  finish_alloc w s =
      if not w.found && (w.left == 0)
      then (err buffer_exceeded, s)
      else and_then (λ _ s'. (ok s'.clock_hand, s')) (take_frame w s)

  unfoldable pub alloc_buf : M (Sys P) ℕ
  alloc_buf s = let (w, s') = sweep (2 * s.num_bufs) s in finish_alloc w s'

  abbrev pub set_pool : ℕ → P.Raw → Sys P → Sys P
  set_pool i block s = record s { pool = update s.pool i block }

  -- file->readPage into a frame of the pool.
  unfoldable pub fill_frame : ℕ → ℤ → ℕ → M (Sys P) (Unit {0})
  fill_frame file page_no frame = through file λ s.
      let (r, block) = read_page_into file page_no (s.pool frame) s in
      (
        r,
        set_pool frame block
            (record s { stats = record s.stats { diskreads = s.stats.diskreads + 1 } }),
      )

  abbrev pub store_table : Sys P → Res FrameTable → Res (Unit {0}) × Sys P
  store_table s (ok t) = (ok tt, record s { frame_table = t })
  store_table s (err e) = (err e, s)
  store_table s undefined = (undefined, s)

  -- The frame's new descriptor and its entry in the hash table.
  unfoldable pub enter_frame : ℕ → ℤ → ℕ → M (Sys P) (Unit {0})
  enter_frame file page_no frame s =
      store_table (set_frame frame (set_desc file page_no) s)
        (BufHash.insert s.ht_size (file, page_no) frame s.frame_table)

  -- The page is not in the pool.
  unfoldable pub load_page : ℕ → ℤ → M (Sys P) ℕ
  load_page file page_no = do
    frame ← alloc_buf
    fill_frame file page_no frame
    enter_frame file page_no frame
    pure frame

  unfoldable pub pin_frame : ℕ → Sys P → Sys P
  pin_frame frame s =
      set_frame frame
        (record (s.desc frame) { refbit = true; pin_cnt = (s.desc frame).pin_cnt + 1 }) s

  -- What follows a lookup: with the frame, or with the error.
  abbrev pub on_lookup :
      {A : Type 0} → Res ℕ → (ℕ → M (Sys P) A) → (Status → M (Sys P) A) → M (Sys P) A
  on_lookup (ok frame) hit miss s = hit frame s
  on_lookup (err e) hit miss s = miss e s
  on_lookup undefined hit miss s = (undefined, s)

  unfoldable pub read_page : ℕ → ℤ → M (Sys P) ℕ
  read_page file page_no s =
      on_lookup (BufHash.lookup s.ht_size (file, page_no) s.frame_table)
        (λ frame t. (ok frame, pin_frame frame t)) (λ e. load_page file page_no) s

  unfoldable pub unpin_frame : Bool → ℕ → M (Sys P) (Unit {0})
  unpin_frame dirty frame s =
      let d = s.desc frame in
      let d' = if dirty then record d { dirty = true } else d in
      if d'.pin_cnt == 0
      then (err page_not_pinned, set_frame frame d' s)
      else (ok tt, set_frame frame (record d' { pin_cnt = d'.pin_cnt - 1 }) s)

  unfoldable pub unpin_page : ℕ → ℤ → Bool → M (Sys P) (Unit {0})
  unpin_page file page_no dirty s =
      on_lookup (BufHash.lookup s.ht_size (file, page_no) s.frame_table) (unpin_frame dirty) fail s

  -- The write of flushFile, which marks the frame clean if it succeeds.
  unfoldable pub write_dirty : ℕ → M (Sys P) (Unit {0})
  write_dirty i s =
      let d = s.desc i in
      if d.dirty
      then and_then (λ _ s'. (ok tt, set_frame i (record (s'.desc i) { dirty = false }) s'))
          (through d.file (write_page d.file d.page_no (s.pool i)) s)
      else (ok tt, s)

  unfoldable pub release_frame : ℕ → ℕ → Sys P → Sys P
  release_frame file i s =
      let s' = drop_entry (file, (s.desc i).page_no) s in
      set_frame i (record (s'.desc i) { file = 0; page_no = minus_one; valid = false }) s'

  -- The end of flushFile's work on a frame: the entry of its page goes, and the frame is empty.
  unfoldable pub empty_frame : ℕ → ℕ → M (Sys P) (Unit {0})
  empty_frame file i s = within (file, (s.desc i).page_no) (λ t. (ok tt, release_frame file i t)) s

  unfoldable pub flush_frame : ℕ → ℕ → M (Sys P) (Unit {0})
  flush_frame file i s =
      let d = s.desc i in
      if d.valid && (d.file == file)
      then (if ltb 0 d.pin_cnt
          then (err page_pinned, s)
          else and_then (λ _. empty_frame file i) (write_dirty i s))
      else if not d.valid && (d.file == file)
      then (err bad_buffer, s)
      else (ok tt, s)

  -- The loop over the frames from i on, k of them.
  unfoldable pub flush_from : ℕ → ℕ → ℕ → M (Sys P) (Unit {0})
  flush_from file zero i = pure tt
  flush_from file (suc k) i = flush_frame file i >>= λ _. flush_from file k (i + 1)

  unfoldable pub flush_file : ℕ → M (Sys P) (Unit {0})
  flush_file file s = flush_from file s.num_bufs 0 s

  -- The frame of a page that is to go, without its page.
  unfoldable pub clear_page : Res ℕ → Sys P → Sys P
  clear_page (ok frame) s = set_frame frame (clear (s.desc frame)) s
  clear_page (err e) s = s
  clear_page undefined s = s

  unfoldable pub dispose_page : ℕ → ℤ → M (Sys P) (Unit {0})
  dispose_page file page_no =
      within (file, page_no)
        λ s.
          let s' = clear_page (BufHash.lookup s.ht_size (file, page_no) s.frame_table) s in
          through file (FileIo.dispose_page file page_no) (drop_entry (file, page_no) s')

  unfoldable pub alloc_page : ℕ → M (Sys P) (ℤ × ℕ)
  alloc_page file = do
    page_no ← through file (allocate_page file)
    frame ← alloc_buf
    enter_frame file page_no frame
    pure (page_no, frame)

  -- The destructor's loop: every changed page is written, whatever the writes return.
  unfoldable pub shut_down_from : ℕ → ℕ → M (Sys P) (Unit {0})
  shut_down_from zero i = pure tt
  shut_down_from (suc k) i =
      (λ s.
        let d = s.desc i in
        when (d.valid && d.dirty) (ignore (through d.file (write_page d.file d.page_no (s.pool i))))
          s)
      >>= λ _. shut_down_from k (i + 1)

  unfoldable pub shut_down : M (Sys P) (Unit {0})
  shut_down s = shut_down_from s.num_bufs 0 s
