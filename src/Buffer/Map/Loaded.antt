-- ===== src/Buffer/Map/Loaded.antt =====
-- The load of a page into the frame that allocBuf gave.
use database_management_syst.Common.{
  not, page_key_eq_iff, ℕ, Bool, ◌+◌, ◌≡◌, ◌≢◌, refl, sym, ap, subst, ◌∙◌, inl, inr, true, none,
  some, arith, if◌then◌else◌, ◌==◌, ==_iff, Bool-cases, ℤ, pos, ltb_ℤ, page_key, page_key_eq,
}
use database_management_syst.Status.{Res, ok}
use database_management_syst.Platform.{Platform}
use database_management_syst.Monad.{guarded-ok, ◌>>=◌, and_then-ok}
use database_management_syst.System.{Sys, set_desc}
use database_management_syst.BufHash
use database_management_syst.BufHash.{FrameTable}
use database_management_syst.HashTable.Laws.{IsUnique, insert-Inserts}
use database_management_syst.FileIo.{read_page_into, int_read_into}
use database_management_syst.Buffer.{
  set_frame, set_pool, alloc_buf, fill_frame, enter_frame, load_page,
}
use database_management_syst.Buffer.Sound.{frame_of}
use database_management_syst.Buffer.Calls.{IsPool}
use database_management_syst.Buffer.Map.Disk.{OnDisk}
use database_management_syst.Buffer.Map.View.{Pages}
use database_management_syst.Buffer.Map.Taken.{Takes, alloc_buf-Takes}

module _ {P : Platform} where
  -- What has happened when the page k is in frame i.
  pub record Loads (k : ℕ × ℤ) (i : ℕ) (u w : Sys P) : Type 0 where
    pub files : w.files ≡ u.files
    pub fs : w.fs ≡ u.fs
    pub num_bufs : w.num_bufs ≡ u.num_bufs
    pub desc : (j : ℕ) → w.desc j ≡ (if j == i then set_desc k.0 k.1 else u.desc j)
    pub others : (j : ℕ) → j ≢ i → w.pool j ≡ u.pool j
    pub absent : frame_of u k ≡ none
    pub table : (q : ℕ × ℤ) → frame_of w q ≡ (if page_key_eq q k then some i else frame_of u q)

  -- The block in the frame is what a read of the page gave.
  abbrev pub ReadInto : ℕ × ℤ → ℕ → Sys P → Sys P → Type 0
  ReadInto k i u w = P.pread (u.files k.0).unix_file k.1 u.fs (u.pool i) ≡ (true, w.pool i)

  -- What the clients know of the page stands in the frame.
  abbrev pub HasBlock : ℕ × ℤ → ℕ → Sys P → Sys P → Pages P → Type 0
  HasBlock k i u w a = (r : P.Raw) → a.content k ≡ some r → OnDisk u k r → w.pool i ≡ r

  pub ReadInto-HasBlock :
      (k : ℕ × ℤ) (i : ℕ) (u w : Sys P) (a : Pages P) → ReadInto k i u w → HasBlock k i u w a
  ReadInto-HasBlock k i u w a read r known on =
      ap (λ (y : Bool × P.Raw). y.1) (sym read ∙ on (u.pool i))

  -- fill_frame, if it succeeds.
  abbrev Fills : ℕ × ℤ → ℕ → Sys P → Sys P → Type 0
  Fills k i u v =
      (b : P.Raw) × (P.pread (u.files k.0).unix_file k.1 u.fs (u.pool i) ≡ (true, b))
      × (v
          ≡ set_pool i b
              (record u { stats = record u.stats { diskreads = u.stats.diskreads + 1 } }))

  fill_frame-Fills :
      (k : ℕ × ℤ) (i : ℕ) (u v : Sys P) → fill_frame k.0 k.1 i u ≡ (ok tt, v) → Fills k i u v
  unfolding fill_frame read_page_into int_read_into
  fill_frame-Fills k i u v filled =
      let (_, e) = guarded-ok (not (k.0 == 0)) _ filled in
      let r = P.pread (u.files k.0).unix_file k.1 u.fs (u.pool i) in
      elim (Bool-cases (ltb_ℤ k.1 (pos 1))) [
        | inl low ↦ absurd (ground arith)
        | inr high ↦
            let e' = rw high at e in
            let state = ap (λ (y : Res (Unit {0}) × Sys P). y.1) e' in
            elim (Bool-cases r.0) [
              | inl done ↦ (r.1, (λ j. (done j, r.1)), sym state)
              | inr failed ↦ absurd (ground arith)
            ]
      ]

  -- enter_frame, if it succeeds.
  abbrev pub Enters : ℕ × ℤ → ℕ → Sys P → Sys P → Type 0
  Enters k i v w =
      (t : FrameTable) × (frame_of v k ≡ none)
      × (w ≡ record (set_frame i (set_desc k.0 k.1) v) { frame_table = t })
      × ((q : ℕ × ℤ) → frame_of w q ≡ (if page_key_eq q k then some i else frame_of v q))

  pub enter_frame-Enters :
      (k : ℕ × ℤ) (i : ℕ) (v w : Sys P)
      → IsUnique (BufHash.hash v.ht_size) v.frame_table
      → enter_frame k.0 k.1 i v ≡ (ok tt, w)
      → Enters k i v w
  unfolding enter_frame BufHash.insert
  enter_frame-Enters k i v w unique e = elim (Bool-cases (BufHash.in_array v.ht_size k)) [
    | inr out ↦ let e'' = rw out at e in absurd (ground arith)
    | inl lies ↦ elim (insert-Inserts (BufHash.hash v.ht_size) k i v.frame_table unique) [
      | inr ((old, there), e') ↦ let e'' = rw (lies, e') at e in absurd (ground arith)
      | inl (absent, (t, e', u', look)) ↦
          let at : record (set_frame i (set_desc k.0 k.1) v) { frame_table = t } ≡ w =
            ap (λ (y : Res (Unit {0}) × Sys P). y.1) (rw (lies, e') at e) in
          (
            t,
            ground (arith, absent),
            sym at,
            rw (← at) (λ q. ground (arith, look q, page_key_eq_iff q k)),
          )
    ]
  ]

  -- The state in which both have succeeded.
  abbrev loaded : ℕ × ℤ → ℕ → P.Raw → FrameTable → Sys P → Sys P
  loaded k i b t u =
      record (set_frame i (set_desc k.0 k.1) (
        set_pool i b (record u { stats = record u.stats { diskreads = u.stats.diskreads + 1 } }))) {
          frame_table = t;
        }

  loaded-Loads :
      (k : ℕ × ℤ) (i : ℕ) (b : P.Raw) (t : FrameTable) (u : Sys P)
      → P.pread (u.files k.0).unix_file k.1 u.fs (u.pool i) ≡ (true, b)
      → frame_of u k ≡ none
      → ((q : ℕ × ℤ)
          → frame_of (loaded k i b t u) q ≡ (if page_key_eq q k then some i else frame_of u q))
      → Loads k i u (loaded k i b t u) × ReadInto k i u (loaded k i b t u)
  loaded-Loads k i b t u read absent table = (
    record {
      files = refl;
      fs = refl;
      num_bufs = refl;
      desc = λ j. refl;
      others = λ j ne. ground (arith, ==_iff j i);
      absent = absent;
      table = table;
    },
    read ∙ ap (λ (x : P.Raw). (true, x)) (ground (arith, ==_iff i i)),
  )

  filled-Loads :
      (k : ℕ × ℤ) (i : ℕ) (u v w : Sys P)
      → IsUnique (BufHash.hash u.ht_size) u.frame_table
      → Fills k i u v
      → enter_frame k.0 k.1 i v ≡ (ok tt, w)
      → Loads k i u w × ReadInto k i u w
  filled-Loads k i u v w unique (b, read, at) e =
      let (t, absent, at', table) = enter_frame-Enters k i _ w unique (rw at at e) in
      rw at' (loaded-Loads k i b t u read absent (rw at' at table))

  pub load_page-Loads :
      (k : ℕ × ℤ) (i : ℕ) (s w : Sys P)
      → IsPool s
      → load_page k.0 k.1 s ≡ (ok i, w)
      → (u : Sys P) × Takes s u i × Loads k i u w × ReadInto k i u w
  unfolding load_page ◌>>=◌
  load_page-Loads k i s w pool e =
      let (frame, u, given, e1) = and_then-ok _ (alloc_buf s) e in
      let (_, v, filled, e2) = and_then-ok _ (fill_frame k.0 k.1 frame u) e1 in
      let (_, w', entered, e3) = and_then-ok _ (enter_frame k.0 k.1 frame v) e2 in
      let end : w' ≡ w = ap (λ (r : Res ℕ × Sys P). r.1) e3 in
      let here : frame ≡ i = ground (arith, e3) in
      let takes = alloc_buf-Takes s u frame pool given in
      let loads =
        filled-Loads k frame u v w' takes.pool.sound.0 (fill_frame-Fills k frame u v filled)
          entered in
      let (loads', read) =
        subst (λ (x : Sys P × ℕ). Loads k x.1 u x.0 × ReadInto k x.1 u x.0) (λ j. (end j, here j))
          loads in
      (u, subst (λ (n : ℕ). Takes s u n) here takes, loads', read)
