-- ===== src/Buffer/Calls.antt =====
-- Every call of BufMgr keeps the buffer pool sound, on every branch, errors included.
use database_management_syst.Common.{
  ℕ, ◌+◌, ◌*◌, ◌<◌, ◌≡◌, ◌≢◌, refl, sym, ap, ◌∙◌, inl, inr, Bool, true, false, not, ◌&&◌, some,
  arith, ◌==◌, if◌then◌else◌, Bool-cases, ℤ, page_key, page_key_eq, page_key_eq_iff,
}
use database_management_syst.Status.{Status, Res, ok, err, undefined}
use database_management_syst.Monad.{M, ◌>>=◌, ◌>>◌, and_then, pure, guarded-state}
use database_management_syst.Platform.{Platform}
use database_management_syst.System.{Sys, BufDesc, set_desc}
use database_management_syst.BufHash
use database_management_syst.BufHash.{FrameTable}
use database_management_syst.HashTable.Laws.{insert-Inserts}
use database_management_syst.Buffer.{
  Sweep, through, take_frame, set_frame, sweep, write_back, finish_alloc, alloc_buf, fill_frame,
  enter_frame, store_table, load_page, pin_frame, on_lookup, read_page, unpin_frame, unpin_page,
  alloc_page,
}
use database_management_syst.Buffer.Laps.{sweep-lt}
use database_management_syst.Buffer.Same.{
  Same, Same-refl, write_page-DiskOnly, allocate_page-DiskOnly,
}
use database_management_syst.Buffer.Sound.{
  frame_of, frame_of-eq, HoldsPage, IsSound, IsUnlisted, IsSound-less, IsSound-frames, sweep-Swept,
}

module _ {P : Platform} where
  -- The invariant of the buffer pool: a sound table, and the clock at a frame.
  pub record IsPool (s : Sys P) : Type 0 where
    pub sound : IsSound s
    pub hand : s.clock_hand < s.num_bufs

  abbrev pub Preserves : {A : Type 0} → M (Sys P) A → Type 0
  Preserves m = (s : Sys P) → IsPool s → IsPool (m s).1

  pub and_then-IsPool :
      {A B : Type 0} (f : A → M (Sys P) B) (r : Res A × Sys P)
      → IsPool r.1
      → ((a : A) → Preserves (f a))
      → IsPool (and_then f r).1
  and_then-IsPool f (ok a, t) h k = k a t h
  and_then-IsPool f (err e, t) h k = h
  and_then-IsPool f (undefined, t) h k = h

  pub Preserves->>= :
      {A B : Type 0} (m : M (Sys P) A) (f : A → M (Sys P) B)
      → Preserves m
      → ((a : A) → Preserves (f a))
      → Preserves (m >>= f)
  unfolding ◌>>=◌
  Preserves->>= m f h k s v = and_then-IsPool f (m s) (h s v) k

  pub IsPool-Same : {s t : Sys P} → IsPool s → Same s t → IsPool t
  IsPool-Same {s} {t} v e = record {
    sound = IsSound-frames s t v.sound e.num_bufs e.ht_size e.frame_table λ i.
        let d = ap (λ f. f i) e.desc in
        (ap (λ x. x.valid) d, ap (λ x. x.file) d, ap (λ x. x.page_no) d);
    hand = rw (e.clock_hand, e.num_bufs) v.hand;
  }

  IsUnlisted-Same : {s t : Sys P} (i : ℕ) → IsUnlisted s i → Same s t → IsUnlisted t i
  IsUnlisted-Same {s} {t} i u e k at = u k (sym (frame_of-eq s t k e.ht_size e.frame_table) ∙ at)

  -- What allocBuf returns is a frame of the pool that no entry names.
  abbrev pub Gives : Res ℕ × Sys P → Type 0
  Gives (ok i, t) = IsPool t × (i < t.num_bufs) × IsUnlisted t i
  Gives (err e, t) = IsPool t
  Gives (undefined, t) = IsPool t

  -- A call of a file's member, also where the pointer is NULL.
  pub through-Same :
      {A : Type 0} (file : ℕ) (m : M (Sys P) A) (s : Sys P)
      → Same s (m s).1
      → Same s (through file m s).1
  through-Same file m s h = guarded-state (Same s) (not (file == 0)) m (Same-refl s) h

  pub write_back-Same : (s : Sys P) → Same s (write_back s).1
  unfolding write_back
  write_back-Same s = elim (Bool-cases (s.desc s.clock_hand).dirty) [
    | inl changed ↦ rw changed (
        let e = through-Same (s.desc s.clock_hand).file _ _ (
          write_page-DiskOnly (s.desc s.clock_hand).file (s.desc s.clock_hand).page_no
            (s.pool s.clock_hand)
            (record s { stats = record s.stats { diskwrites = s.stats.diskwrites + 1 } })) in
        record {
          desc = e.desc;
          frame_table = e.frame_table;
          ht_size = e.ht_size;
          num_bufs = e.num_bufs;
          clock_hand = e.clock_hand;
          pool = e.pool;
          files = e.files;
          open_files = e.open_files;
        })
    | inr clean ↦ rw clean (Same-refl s)
  ]

  pub take_frame-Same : (w : Sweep) (s : Sys P) → Same s (take_frame w s).1
  unfolding take_frame
  take_frame-Same w s = elim (Bool-cases w.found) [
    | inl gone ↦ rw gone (guarded-state (Same s) _ write_back (Same-refl s) (write_back-Same s))
    | inr free ↦ rw free (write_back-Same s)
  ]

  written_back :
      (t : Sys P) (r : Res (Unit {0}) × Sys P)
      → IsPool t
      → IsUnlisted t t.clock_hand
      → Same t r.1
      → Gives (and_then (λ _ u. (ok u.clock_hand, u)) r)
  written_back t (ok _, u) v n e =
      let v' = IsPool-Same v e in (v', v'.hand, rw e.clock_hand (IsUnlisted-Same t.clock_hand n e))
  written_back t (err x, u) v n e = IsPool-Same v e
  written_back t (undefined, u) v n e = IsPool-Same v e

  pub alloc_buf-Gives : (s : Sys P) → IsPool s → Gives (alloc_buf s)
  unfolding alloc_buf finish_alloc
  alloc_buf-Gives s v =
      let w = (sweep (2 * s.num_bufs) s).0 in
      let t = (sweep (2 * s.num_bufs) s).1 in
      let (sound, stop) = sweep-Swept (2 * s.num_bufs) s v.sound in
      let v' : IsPool t = record { sound = sound; hand = sweep-lt (2 * s.num_bufs) s v.hand } in
      elim (Bool-cases (not w.found && (w.left == 0))) [
        | inl out ↦ rw out v'
        | inr stopped ↦ rw stopped (elim stop [
          | inl run_out ↦ absurd (ground arith)
          | inr unlisted ↦ written_back t (take_frame w t) v' unlisted (take_frame-Same w t)
        ])
      ]

  -- A frame that no entry names can take another page, or none.
  pub set_frame-IsUnlisted :
      (i : ℕ) (d : BufDesc) (s : Sys P) → IsPool s → IsUnlisted s i → IsPool (set_frame i d s)
  set_frame-IsUnlisted i d s v u = record {
    sound = IsSound-less s (set_frame i d s) v.sound refl v.sound.0 λ k j at.
        let other : j ≢ i = λ e. u k (at ∙ ap some e) in
        (at, (ground arith, ground arith, ground arith));
    hand = v.hand;
  }

  entered :
      (file : ℕ) (p : ℤ) (i : ℕ) (s : Sys P)
      → IsPool s
      → i < s.num_bufs
      → IsUnlisted s i
      → (k : ℕ × ℤ) (j : ℕ) → (if page_key_eq k (file, p) then some i else frame_of s k) ≡ some j
      → HoldsPage (set_frame i (set_desc file p) s) k j
  unfolding set_desc
  entered file p i s v lt u k j at = elim (Bool-cases (page_key_eq k (file, p))) [
    | inl hit ↦
        let same = (page_key_eq_iff k (file, p)).0 hit in
        let here : i ≡ j = ground arith in
        rw (← here) (lt, ground arith, ground (arith, same), ground (arith, same))
    | inr miss ↦
        let old : frame_of s k ≡ some j = rw miss at at in
        (set_frame-IsUnlisted i (set_desc file p) s v u).sound.1 k j old
  ]

  enter_frame-IsPool :
      (file : ℕ) (p : ℤ) (i : ℕ) (s : Sys P)
      → IsPool s
      → i < s.num_bufs
      → IsUnlisted s i
      → IsPool (enter_frame file p i s).1
  unfolding enter_frame BufHash.insert
  enter_frame-IsPool file p i s v lt u =
      let w = set_frame-IsUnlisted i (set_desc file p) s v u in
      elim (Bool-cases (BufHash.in_array s.ht_size (file, p))) [
        | inr out ↦ rw (out, store_table) w
        | inl lies ↦
            elim (insert-Inserts (BufHash.hash s.ht_size) (file, p) i s.frame_table v.sound.0) [
              | inr ((old, there), e) ↦ rw (lies, e, store_table) w
              | inl (absent, (t, e, u', look)) ↦
                  rw (lies, e, store_table)
                    (record {
                      sound =
                          (u', λ k j at. entered file p i s v lt u k j (ground (arith, look k)));
                      hand = v.hand;
                    })
            ]
      ]

  -- What follows allocBuf.
  given :
      {A : Type 0} (f : ℕ → M (Sys P) A) (r : Res ℕ × Sys P)
      → Gives r
      → ((i : ℕ) (t : Sys P) → IsPool t → i < t.num_bufs → IsUnlisted t i → IsPool (f i t).1)
      → IsPool (and_then f r).1
  given f (ok i, t) (v, lt, u) k = k i t v lt u
  given f (err e, t) v k = v
  given f (undefined, t) v k = v

  enter_and :
      {A : Type 0} (file : ℕ) (p : ℤ) (i : ℕ) (a : A) (s : Sys P)
      → IsPool s
      → i < s.num_bufs
      → IsUnlisted s i
      → IsPool ((enter_frame file p i >> pure a) s).1
  unfolding ◌>>=◌
  enter_and file p i a s v lt u =
      and_then-IsPool _ (enter_frame file p i s) (enter_frame-IsPool file p i s v lt u) (λ _ t w. w)

  fill_and :
      (file : ℕ) (p : ℤ) (i : ℕ) (r : Res (Unit {0})) (s : Sys P)
      → IsPool s
      → i < s.num_bufs
      → IsUnlisted s i
      → IsPool (and_then (λ _. enter_frame file p i >> pure i) (r, s)).1
  fill_and file p i (ok _) s v lt u = enter_and file p i i s v lt u
  fill_and file p i (err e) s v lt u = v
  fill_and file p i undefined s v lt u = v

  -- Reading a page into a frame leaves the frame as free as it was.
  fill_frame-Free :
      (file : ℕ) (p : ℤ) (i : ℕ) (t : Sys P)
      → IsPool t
      → i < t.num_bufs
      → IsUnlisted t i
      → let u = (fill_frame file p i t).1 in IsPool u × (i < u.num_bufs) × IsUnlisted u i
  unfolding fill_frame
  fill_frame-Free file p i t w lt u =
      guarded-state (λ (x : Sys P). IsPool x × (i < x.num_bufs) × IsUnlisted x i) (not (file == 0))
        _ (w, lt, u) (record { sound = w.sound; hand = w.hand }, lt, u)

  load_page-Preserves : (file : ℕ) (p : ℤ) → Preserves (load_page {P = P} file p)
  unfolding load_page ◌>>=◌
  load_page-Preserves file p s v = given _ (alloc_buf s) (alloc_buf-Gives s v) λ i t w lt u.
      let (w', lt', u') = fill_frame-Free file p i t w lt u in
      fill_and file p i (fill_frame file p i t).0 (fill_frame file p i t).1 w' lt' u'

  -- A change of one descriptor that leaves what the frame holds.
  pub set_frame-IsPool :
      (i : ℕ) (d : BufDesc) (s : Sys P)
      → IsPool s
      → d.valid ≡ (s.desc i).valid
      → d.file ≡ (s.desc i).file
      → d.page_no ≡ (s.desc i).page_no
      → IsPool (set_frame i d s)
  set_frame-IsPool i d s v a b c = record {
    sound =
        IsSound-frames s (set_frame i d s) v.sound refl refl refl
          (λ j. (ground arith, ground arith, ground arith));
    hand = v.hand;
  }

  on_lookup-Preserves :
      {A : Type 0} (r : Res ℕ) (hit : ℕ → M (Sys P) A) (miss : Status → M (Sys P) A)
      → ((i : ℕ) → Preserves (hit i))
      → ((e : Status) → Preserves (miss e))
      → Preserves (on_lookup r hit miss)
  on_lookup-Preserves (ok i) hit miss h k s v = h i s v
  on_lookup-Preserves (err e) hit miss h k s v = k e s v
  on_lookup-Preserves undefined hit miss h k s v = v

  pub if-IsPool :
      {A : Type 0} (b : Bool) (x y : Res A × Sys P)
      → IsPool x.1
      → IsPool y.1
      → IsPool (if b then x else y).1
  if-IsPool true x y h k = h
  if-IsPool false x y h k = k

  pub read_page-Preserves : (file : ℕ) (p : ℤ) → Preserves (read_page {P = P} file p)
  unfolding read_page pin_frame
  read_page-Preserves file p s v =
      on_lookup-Preserves (BufHash.lookup s.ht_size (file, p) s.frame_table) _ _
        (λ i t w.
          set_frame-IsPool i (record (t.desc i) { refbit = true; pin_cnt = (t.desc i).pin_cnt + 1 })
            t w refl refl refl)
        (λ e. load_page-Preserves file p) s v

  unpin_frame-Preserves : (d : Bool) (i : ℕ) → Preserves (unpin_frame {P = P} d i)
  unfolding unpin_frame
  unpin_frame-Preserves true i s v =
      if-IsPool _ _ _ (set_frame-IsPool i _ s v refl refl refl)
        (set_frame-IsPool i _ s v refl refl refl)
  unpin_frame-Preserves false i s v =
      if-IsPool _ _ _ (set_frame-IsPool i _ s v refl refl refl)
        (set_frame-IsPool i _ s v refl refl refl)

  pub unpin_page-Preserves : (file : ℕ) (p : ℤ) (d : Bool) → Preserves (unpin_page {P = P} file p d)
  unfolding unpin_page
  unpin_page-Preserves file p d s v =
      on_lookup-Preserves (BufHash.lookup s.ht_size (file, p) s.frame_table) _ _
        (unpin_frame-Preserves d) (λ e t w. w) s v

  alloc_rest :
      (file : ℕ) (p : ℤ)
      → Preserves {A = ℤ × ℕ} (alloc_buf >>= λ i. enter_frame file p i >> pure (p, i))
  unfolding ◌>>=◌
  alloc_rest file p s v =
      given _ (alloc_buf s) (alloc_buf-Gives s v) λ i t w lt u. enter_and file p i (p, i) t w lt u

  pub alloc_page-Preserves : (file : ℕ) → Preserves (alloc_page {P = P} file)
  unfolding alloc_page
  alloc_page-Preserves file =
      Preserves->>= _ _
        (λ s v. IsPool-Same v (through-Same file _ s (allocate_page-DiskOnly file s)))
        (alloc_rest file)
