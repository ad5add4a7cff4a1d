-- ===== src/Buffer/Map/Clients.antt =====
-- The calls of the buffer manager's clients, and what they make of the map of pages.
use database_management_syst.Common.{
  ℕ, Bool, ◌+◌, ◌-◌, ◌<◌, ◌≡◌, ◌≢◌, refl, sym, ap, subst, ◌∙◌, inl, inr, true, false, ◌&&◌, some,
  arith, if◌then◌else◌, ◌==◌, ==_iff, Bool-cases, ℤ, page_key, page_key_eq, page_key_eq_iff,
}
use database_management_syst.Status.{Res, ok, err, undefined}
use database_management_syst.Monad.{fail}
use database_management_syst.Platform.{Platform, ReadsBack}
use database_management_syst.System.{Sys, BufDesc}
use database_management_syst.BufHash
use database_management_syst.Buffer.{
  set_frame, set_pool, load_page, pin_frame, on_lookup, read_page, unpin_frame, unpin_page,
}
use database_management_syst.Buffer.Sound.{frame_of}
use database_management_syst.Buffer.Calls.{IsPool, read_page-Preserves}
use database_management_syst.Buffer.Pins.{lookup-found, IsPinnedAt}
use database_management_syst.Buffer.Map.Disk.{IsOpened-files, IsOpened}
use database_management_syst.Buffer.Map.View.{Pages, Shows, ShowsPages}
use database_management_syst.Buffer.Map.Evicted.{Takes-ShowsBut}
use database_management_syst.Buffer.Map.Described.{one_page, frame-ShowsPages}
use database_management_syst.Buffer.Map.Loaded.{load_page-Loads, ReadInto-HasBlock}
use database_management_syst.Buffer.Map.Entered.{Loads-ShowsPages}

-- The descriptor with one pin less.
unpinned : Bool → BufDesc → BufDesc
unpinned dirty d = record d { dirty = if dirty then true else d.dirty; pin_cnt = d.pin_cnt - 1 }

module _ {P : Platform} where
  -- A client's change of a page in its frame, and the map afterwards.
  abbrev pub edited : ℕ × ℤ → P.Raw → Pages P → Pages P
  edited k r a = record {
    content = λ q. if page_key_eq q k then some r else a.content q;
    changed = λ q. if page_key_eq q k then true else a.changed q;
  }

  -- An unpin that reports the changes.
  abbrev pub reported : ℕ × ℤ → Bool → Pages P → Pages P
  reported k dirty a = record a {
    changed = λ q. if page_key_eq q k && dirty then false else a.changed q;
  }

  pinned_frame-ShowsPages :
      (k : ℕ × ℤ) (i : ℕ) (s : Sys P) (a : Pages P)
      → ShowsPages s a
      → frame_of s k ≡ some i
      → ShowsPages (pin_frame i s) a
  unfolding pin_frame
  pinned_frame-ShowsPages k i s a v at =
      frame-ShowsPages k i (record (s.desc i) { refbit = true; pin_cnt = (s.desc i).pin_cnt + 1 }) s
        a a v at refl refl refl (λ c. c) (λ q. refl) (λ _ c. c) (λ c. (omega arith, c))
        (λ q ne. refl)

  -- A page that is loaded.
  load_page-ShowsPages :
      (k : ℕ × ℤ) (i : ℕ) (s t : Sys P) (a : Pages P)
      → ReadsBack P
      → ShowsPages s a
      → IsOpened s k.0
      → IsPool t
      → load_page k.0 k.1 s ≡ (ok i, t)
      → ShowsPages t a
  load_page-ShowsPages k i s t a reads v o pool e =
      let (u, takes, loads, read) = load_page-Loads k i s t v.pool e in
      Loads-ShowsPages k i u t a (Takes-ShowsBut reads s u a i v takes) takes.unlisted loads
        (ReadInto-HasBlock k i u t a read) (IsOpened-files k.0 takes.kept.files o) pool

  found_or_loaded :
      (k : ℕ × ℤ) (i : ℕ) (s t : Sys P) (a : Pages P) (r : Res ℕ)
      → ReadsBack P
      → ShowsPages s a
      → IsOpened s k.0
      → IsPool t
      → BufHash.lookup s.ht_size k s.frame_table ≡ r
      → on_lookup r (λ frame u. (ok frame, pin_frame frame u)) (λ e. load_page k.0 k.1) s
        ≡ (ok i, t)
      → ShowsPages t a
  found_or_loaded k i s t a (ok frame) reads v o pool found e =
      subst (λ (y : Res ℕ × Sys P). ShowsPages y.1 a) e
        (pinned_frame-ShowsPages k frame s a v (lookup-found s.ht_size k frame s.frame_table found))
  found_or_loaded k i s t a (err x) reads v o pool found e =
      load_page-ShowsPages k i s t a reads v o pool e
  found_or_loaded k i s t a undefined reads v o pool found e = absurd (ground arith)

  pub read_page-ShowsPages :
      (k : ℕ × ℤ) (i : ℕ) (s t : Sys P) (a : Pages P)
      → ReadsBack P
      → ShowsPages s a
      → IsOpened s k.0
      → read_page k.0 k.1 s ≡ (ok i, t)
      → ShowsPages t a
  unfolding read_page
  read_page-ShowsPages k i s t a reads v o e =
      let pool =
        subst (λ (y : Res ℕ × Sys P). IsPool y.1) e (read_page-Preserves k.0 k.1 s v.pool) in
      found_or_loaded k i s t a _ reads v o pool refl e

  -- What an unpin without the dirty flag asks of the client: no change of the page is due, or
  -- somebody else has the page pinned as well.
  abbrev pub MayUnpin : ℕ × ℤ → Bool → Sys P → Pages P → Type 0
  MayUnpin k dirty s a =
      dirty ≡ false → a.changed k ≡ true → (i : ℕ) → frame_of s k ≡ some i → 1 < (s.desc i).pin_cnt

  unpinned-ShowsPages :
      (k : ℕ × ℤ) (i : ℕ) (dirty : Bool) (s : Sys P) (a : Pages P)
      → ShowsPages s a
      → frame_of s k ≡ some i
      → MayUnpin k dirty s a
      → ShowsPages (set_frame i (unpinned dirty (s.desc i)) s) (reported k dirty a)
  unfolding unpinned
  unpinned-ShowsPages k i true s a v at may =
      frame-ShowsPages k i (unpinned true (s.desc i)) s a (reported k true a) v at refl refl refl
        (λ c. ground arith) (λ q. refl) (λ c _. ground arith)
        (λ c. absurd (ground (arith, page_key_eq_iff k k)))
        (λ q ne. ground (arith, page_key_eq_iff q k))
  unpinned-ShowsPages k i false s a v at may =
      let same : (q : ℕ × ℤ) → (reported k false a).changed q ≡ a.changed q = λ q. ground arith in
      frame-ShowsPages k i (unpinned false (s.desc i)) s a (reported k false a) v at refl refl refl
        (λ c. c) (λ q. refl) (λ _ c. sym (same k) ∙ c)
        (λ c. let c' = sym (same k) ∙ c in let more = may refl c' i at in (omega arith, c'))
        (λ q ne. same q)

  unpin_frame-ok :
      (dirty : Bool) (i : ℕ) (s t : Sys P)
      → unpin_frame dirty i s ≡ (ok tt, t)
      → set_frame i (unpinned dirty (s.desc i)) s ≡ t
  unfolding unpin_frame unpinned
  unpin_frame-ok true i s t e = elim (Bool-cases ((s.desc i).pin_cnt == 0)) [
    | inl none_left ↦ absurd (ground arith)
    | inr some_left ↦ let e' = rw some_left at e in ap (λ (y : Res (Unit {0}) × Sys P). y.1) e'
  ]
  unpin_frame-ok false i s t e = elim (Bool-cases ((s.desc i).pin_cnt == 0)) [
    | inl none_left ↦ absurd (ground arith)
    | inr some_left ↦ let e' = rw some_left at e in ap (λ (y : Res (Unit {0}) × Sys P). y.1) e'
  ]

  unpin_cases :
      (k : ℕ × ℤ) (dirty : Bool) (s t : Sys P) (a : Pages P) (r : Res ℕ)
      → ShowsPages s a
      → MayUnpin k dirty s a
      → BufHash.lookup s.ht_size k s.frame_table ≡ r
      → on_lookup r (unpin_frame dirty) fail s ≡ (ok tt, t)
      → ShowsPages t (reported k dirty a)
  unpin_cases k dirty s t a (ok i) v may found e =
      subst (λ u. ShowsPages u (reported k dirty a)) (unpin_frame-ok dirty i s t e)
        (unpinned-ShowsPages k i dirty s a v (lookup-found s.ht_size k i s.frame_table found) may)
  unpin_cases k dirty s t a (err x) v may found e = absurd (ground arith)
  unpin_cases k dirty s t a undefined v may found e = absurd (ground arith)

  pub unpin_page-ShowsPages :
      (k : ℕ × ℤ) (dirty : Bool) (s t : Sys P) (a : Pages P)
      → ShowsPages s a
      → MayUnpin k dirty s a
      → unpin_page k.0 k.1 dirty s ≡ (ok tt, t)
      → ShowsPages t (reported k dirty a)
  unfolding unpin_page
  unpin_page-ShowsPages k dirty s t a v may e = unpin_cases k dirty s t a _ v may refl e

  edited_elsewhere :
      (k q : ℕ × ℤ) (i : ℕ) (r x : P.Raw) (s : Sys P) (a : Pages P)
      → ShowsPages s a
      → frame_of s k ≡ some i
      → q ≢ k
      → Shows s a q x
      → Shows (set_pool i r s) (edited k r a) q x
  edited_elsewhere k q i r x s a v at ne (within, out) = (
    λ j at'.
        let there : j ≢ i = λ e. ne (one_page k q i s v.pool at (at' ∙ ap some e)) in
        let (block, on) = within j at' in
        (ground (arith, ==_iff j i), λ c un. on c (ground (arith, page_key_eq_iff q k))),
    out,
  )

  edited_here :
      (k : ℕ × ℤ) (i : ℕ) (r : P.Raw) (s : Sys P) (a : Pages P)
      → frame_of s k ≡ some i
      → Shows (set_pool i r s) (edited k r a) k r
  edited_here k i r s a at = (
    λ j at'. (ground (arith, ==_iff j i), λ c un. absurd (ground (arith, page_key_eq_iff k k))),
    λ absent. absurd (ground arith),
  )

  -- A client writes into the frame of a page that is pinned.
  pub edit-ShowsPages :
      (k : ℕ × ℤ) (i : ℕ) (r : P.Raw) (s : Sys P) (a : Pages P)
      → ShowsPages s a
      → IsPinnedAt k i s
      → ShowsPages (set_pool i r s) (edited k r a)
  edit-ShowsPages k i r s a v (at, pin) = record {
    pool = record { sound = v.pool.sound; hand = v.pool.hand };
    apart = v.apart;
    listed = v.listed;
    unused = v.unused;
    pinned = λ q j at' changed. elim (Bool-cases (page_key_eq q k)) [
      | inl hit ↦
          let there : frame_of s k ≡ some j = rw ((page_key_eq_iff q k).0 hit) at at' in
          let same : i ≡ j = ground arith in rw (← same) pin
      | inr miss ↦ v.pinned q j at' (ground arith)
    ];
    pages = λ q x at'. elim (Bool-cases (page_key_eq q k)) [
      | inl hit ↦
          let same = (page_key_eq_iff q k).0 hit in
          let block : r ≡ x = ground arith in
          let (lt, held, file, _) = v.pool.sound.1 k i at in
          let (_, o) = v.listed i (λ y. y) lt held in
          rw (same, ← block) (rw file at o, edited_here k i r s a at)
      | inr miss ↦
          let ne : q ≢ k = λ e. ground (arith, page_key_eq_iff q k) in
          let (o, shows) = v.pages q x (ground arith) in
          (o, edited_elsewhere k q i r x s a v at ne shows)
    ];
  }
