-- ===== src/Buffer/Map/ShutDown.antt =====
-- The destructor of class BufMgr in buf.cpp: the changed pages go to the disk.
use database_management_syst.Common.{
  ℕ, zero, suc, ◌+◌, ◌<◌, ◌≤◌, ◌≡◌, ◌≢◌, ◌⊎◌, refl, sym, ap, subst, ◌∙◌, inl, inr, Bool, true,
  false, ◌&&◌, some, Option-cases, arith, ◌==◌, ==_iff, Bool-cases, ℤ, pos, ltb_ℤ, page_key,
  page_key_eq, page_key_eq_iff,
}
use mathlib.Core.Bool.{false≢true}
use database_management_syst.Status.{Res, ok, err, undefined}
use database_management_syst.Monad.{◌>>=◌, and_then, forget, ignore, when}
use database_management_syst.Platform.{Platform, ReadsBack}
use database_management_syst.System.{Sys, BufDesc}
use database_management_syst.FileIo.{write_page, int_write, unix_status}
use database_management_syst.Buffer.{through, shut_down_from, shut_down}
use database_management_syst.Buffer.Same.{Same, Same-refl, Same-trans, write_page-DiskOnly}
use database_management_syst.Buffer.Sound.{frame_of}
use database_management_syst.Buffer.Map.Disk.{
  guarded_page, IsOpened-files, OnDisk, Wrote, Wrote-OnDisk, Wrote-other,
}
use database_management_syst.Buffer.Map.Evict.{key_of}
use database_management_syst.Buffer.Map.View.{Pages, ShowsPages}

-- No write fails.
abbrev pub Writes : Platform → Type 0
Writes P = (fd p : ℤ) (r : P.Raw) (fs : P.Fs) → (P.pwrite fd p r fs).0 ≡ true

module _ {P : Platform} where
  -- The body of the loop, at frame i.
  turn : ℕ → Sys P → Res (Unit {0}) × Sys P
  turn i s =
      let d = s.desc i in
      when (d.valid && d.dirty) (ignore (through d.file (write_page d.file d.page_no (s.pool i)))) s

  forget-ok : (r : Res (Unit {0}) × Sys P) → (r.0 ≡ undefined → ⊥) → forget r ≡ (ok tt, r.1)
  forget-ok (ok _, s) d = refl
  forget-ok (err e, s) d = refl
  forget-ok (undefined, s) d = absurd (d refl)

  write_page-defined :
      (file : ℕ) (p : ℤ) (r : P.Raw) (s : Sys P) → (write_page file p r s).0 ≡ undefined → ⊥
  unfolding write_page int_write
  write_page-defined file p r s e = ground arith

  unix_status-done :
      (s : Sys P) (r : Bool × P.Fs)
      → r.0 ≡ true
      → ((unix_status s r).1.files ≡ s.files) × ((unix_status s r).1.fs ≡ r.1)
  unix_status-done s (true, fs) e = (refl, refl)
  unix_status-done s (false, fs) e = (refl, refl)

  -- A write of a page of class File either does nothing or succeeds.
  write_page-cases :
      (k : ℕ × ℤ) (r : P.Raw) (s : Sys P)
      → Writes P
      → ((ltb_ℤ k.1 (pos 1) ≡ true) × ((write_page k.0 k.1 r s).1 ≡ s))
        ⊎ Wrote k r s (write_page k.0 k.1 r s).1
  unfolding write_page int_write
  write_page-cases k r s writes = elim (Bool-cases (ltb_ℤ k.1 (pos 1))) [
    | inl low ↦ inl (low, rw low refl)
    | inr high ↦
        let io = P.pwrite (s.files k.0).unix_file k.1 r s.fs in
        let (files, fs) = unix_status-done s io (writes (s.files k.0).unix_file k.1 r s.fs) in
        rw high (inr (writes (s.files k.0).unix_file k.1 r s.fs, files, fs))
  ]

  -- The turn of a frame: nothing is written, or its page is.
  turn-cases :
      (i : ℕ) (s : Sys P)
      → Writes P
      → ((s.desc i).valid ≡ true → (s.desc i).file ≢ 0)
      → ((turn i s).0 ≡ ok tt)
        × Same s (turn i s).1
        × (((turn i s).1 ≡ s)
              × ((s.desc i).valid ≡ true
                  → (s.desc i).dirty ≡ true
                  → ltb_ℤ (s.desc i).page_no (pos 1) ≡ true)
            ⊎ ((s.desc i).valid ≡ true) × Wrote (key_of s i) (s.pool i) s (turn i s).1)
  unfolding turn
  turn-cases i s writes there = elim (Bool-cases ((s.desc i).valid && (s.desc i).dirty)) [
    | inr idle ↦ rw idle (refl, Same-refl s, inl (refl, λ held changed. absurd (ground arith)))
    | inl changed ↦
        let k = key_of s i in
        let w = write_page k.0 k.1 (s.pool i) s in
        let result = forget-ok w (write_page-defined k.0 k.1 (s.pool i) s) in
        let file = guarded_page (s.desc i).file (there (ground arith)) in
        rw (changed, file, result)
          (
            refl,
            write_page-DiskOnly k.0 k.1 (s.pool i) s,
            elim (write_page-cases k (s.pool i) s writes) [
              | inl (low, same) ↦ inl (same, λ _ _. low)
              | inr wrote ↦ inr (ground arith, wrote)
            ],
          )
  ]

  shut_down-step :
      (n i : ℕ) (u : Sys P)
      → (turn i u).0 ≡ ok tt
      → shut_down_from (suc n) i u ≡ shut_down_from n (i + 1) (turn i u).1
  unfolding shut_down_from turn ◌>>=◌
  shut_down-step n i u result =
      λ x. and_then (λ _. shut_down_from n (i + 1)) (result x, (turn i u).1)

  -- From the state s on: the page k of block r, whose changes have all been reported.
  module _ (back : ReadsBack P) (writes : Writes P) (s : Sys P) (a : Pages P) (v : ShowsPages s a)
      (k : ℕ × ℤ) (r : P.Raw) (known : a.content k ≡ some r)
      (high : ltb_ℤ k.1 (pos 1) ≡ false) where
    -- The page is on the disk, or its frame's turn is still to come.
    Due : ℕ → Sys P → Type 0
    Due i u =
        OnDisk u k r ⊎ ((j : ℕ) × (frame_of s k ≡ some j) × ((s.desc j).dirty ≡ true) × (i ≤ j))

    -- The frame of the page.
    its_frame :
        (j : ℕ)
        → frame_of s k ≡ some j
        → (j < s.num_bufs) × ((s.desc j).valid ≡ true) × (key_of s j ≡ k)
    its_frame j at =
        let (lt, held, file, page) = v.pool.sound.1 k j at in (lt, held, λ x. (file x, page x))

    later :
        (i j : ℕ) (u : Sys P)
        → frame_of s k ≡ some j
        → (s.desc j).dirty ≡ true
        → i ≤ j
        → i ≢ j
        → Due (i + 1) u
    unfolding Due
    later i j u at changed le ne = inr (j, at, changed, ground arith)

    skipped :
        (i : ℕ) (u : Sys P)
        → ((s.desc i).valid ≡ true
            → (s.desc i).dirty ≡ true
            → ltb_ℤ (s.desc i).page_no (pos 1) ≡ true)
        → Due i u
        → Due (i + 1) u
    unfolding Due
    skipped i u low (inl on) = inl on
    skipped i u low (inr (j, at, changed, le)) = elim (Bool-cases (i == j)) [
      | inl hit ↦
          let here : i ≡ j = (==_iff i j).0 hit in
          let (_, held, key) = its_frame j at in
          let low' =
            low (ap (λ n. (s.desc n).valid) here ∙ held)
              (ap (λ n. (s.desc n).dirty) here ∙ changed) in
          let page : (s.desc i).page_no ≡ k.1 =
            ap (λ n. (s.desc n).page_no) here ∙ ap (λ (x : ℕ × ℤ). x.1) key in
          absurd (false≢true (sym high ∙ rw page at low'))
      | inr miss ↦ later i j u at changed le (ground (arith, ==_iff i j))
    ]

    written :
        (i : ℕ) (u w : Sys P)
        → Same s u
        → i < s.num_bufs
        → (s.desc i).valid ≡ true
        → Wrote (key_of s i) (s.pool i) u w
        → Due i u
        → Due (i + 1) w
    unfolding Due
    written i u w same lt held wrote due =
        let (listed, o) = v.listed i (λ x. x) lt held in
        let (o', (within, _)) = v.pages k r known in
        let opened = λ (f : ℕ). IsOpened-files f same.files in
        elim (Bool-cases (page_key_eq (key_of s i) k)) [
          | inl hit ↦
              let here = (page_key_eq_iff (key_of s i) k).0 hit in
              let (block, _) = within i (rw here at listed) in
              inl (
                subst (λ q. OnDisk w q r) here
                  (subst (λ x. OnDisk w (key_of s i) x) block
                    (Wrote-OnDisk (key_of s i) (s.pool i) u w back wrote)))
          | inr miss ↦
              let ne : key_of s i ≢ k = λ e. ground (arith, page_key_eq_iff (key_of s i) k) in
              elim due [
                | inl on ↦ inl (
                    Wrote-other (key_of s i) k (s.pool i) r u w back (rw same.files v.apart)
                      (opened (s.desc i).file o) (opened k.0 o') ne wrote on)
                | inr (j, at, changed, le) ↦
                    let (_, _, key) = its_frame j at in
                    later i j w at changed le (λ e. ne (ap (key_of s) e ∙ key))
              ]
        ]

    -- A valid frame holds a page of an object that is there.
    there :
        (i : ℕ) (u : Sys P)
        → Same s u
        → i < s.num_bufs
        → (u.desc i).valid ≡ true
        → (u.desc i).file ≢ 0
    there i u same lt held =
        let d = ap (λ (f : ℕ → BufDesc). f i) same.desc in
        let (_, o) = v.listed i (λ x. x) lt (sym (ap (λ x. x.valid) d) ∙ held) in rw d o.0

    turned : (i : ℕ) (u : Sys P) → Same s u → i < s.num_bufs → Due i u → Due (i + 1) (turn i u).1
    turned i u same lt due =
        let d = ap (λ (f : ℕ → BufDesc). f i) same.desc in
        let (_, _, outcome) = turn-cases i u writes (there i u same lt) in
        elim outcome [
          | inl (stays, low) ↦
              subst (λ x. Due (i + 1) x) (sym stays) (skipped i u (rw d at low) due)
          | inr (held, wrote) ↦
              written i u (turn i u).1 same lt (rw d at held)
                (subst (λ (x : (ℕ × ℤ) × P.Raw). Wrote x.0 x.1 u (turn i u).1)
                  (λ j. (((same.desc j i).file, (same.desc j i).page_no), same.pool j i)) wrote)
                due
        ]

    -- The loop, which never fails.
    rest-Due :
        (n i : ℕ) (u : Sys P)
        → Same s u
        → i + n ≤ s.num_bufs
        → Due i u
        → ((shut_down_from n i u).0 ≡ ok tt)
          × Same s (shut_down_from n i u).1
          × Due (i + n) (shut_down_from n i u).1
    unfolding shut_down_from
    rest-Due zero i u same le due = (refl, same, subst (λ (m : ℕ). Due m u) (omega arith) due)
    rest-Due (suc n) i u same le due =
        let (result, moved, _) = turn-cases i u writes (there i u same (omega arith)) in
        let w = (turn i u).1 in
        let (done, same', due') =
          rest-Due n (i + 1) w (Same-trans same moved) (omega arith)
            (turned i u same (omega arith) due) in
        let e : shut_down_from (suc n) i u ≡ shut_down_from n (i + 1) w =
          shut_down-step n i u result in
        let sum : i + 1 + n ≡ i + suc n = omega arith in rw e (done, same', rw sum at due')

    -- Where the page stands when the loop begins, and when it ends.
    first-Due : a.changed k ≡ false → Due 0 s
    unfolding Due
    first-Due un =
        let (_, (within, out)) = v.pages k r known in
        elim (Option-cases (frame_of s k)) [
          | inl absent ↦ inl (out absent)
          | inr (j, at) ↦ elim (Bool-cases (s.desc j).dirty) [
            | inl changed ↦ inr (j, at, changed, omega arith)
            | inr clean ↦ inl ((within j at).1 clean un)
          ]
        ]

    last-Due : (t : Sys P) → Due s.num_bufs t → OnDisk t k r
    unfolding Due
    last-Due t (inl on) = on
    last-Due t (inr (j, at, changed, le)) =
        let (lt, _, _) = its_frame j at in absurd (omega (arith, lt))

    pub shut_down-OnDisk :
        a.changed k ≡ false → ((shut_down s).0 ≡ ok tt) × OnDisk (shut_down s).1 k r
    unfolding shut_down
    shut_down-OnDisk un =
        let (done, _, due) = rest-Due s.num_bufs 0 s (Same-refl s) (omega arith) (first-Due un) in
        let all : 0 + s.num_bufs ≡ s.num_bufs = omega arith in
        (done, last-Due (shut_down_from s.num_bufs 0 s).1 (rw all at due))
