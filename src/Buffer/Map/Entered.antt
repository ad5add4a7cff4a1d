-- ===== src/Buffer/Map/Entered.antt =====
-- A page that has come into a frame: the pool shows the same pages as before.
use database_management_syst.Common.{
  ℕ, ◌<◌, ◌≡◌, ◌≢◌, sym, ap, ◌∙◌, inl, inr, true, false, some, arith, ◌==◌, ==_iff, Bool-cases, ℤ,
  page_key, page_key_eq, page_key_eq_iff,
}
use database_management_syst.Platform.{Platform}
use database_management_syst.System.{Sys, set_desc}
use database_management_syst.Buffer.Sound.{frame_of, IsUnlisted}
use database_management_syst.Buffer.Calls.{IsPool}
use database_management_syst.Buffer.Map.Disk.{IsOpened-files, OnDisk, IsOpened, OnDisk-eq}
use database_management_syst.Buffer.Map.Evict.{key_of}
use database_management_syst.Buffer.Map.View.{Pages, Shows, ShowsBut, ShowsPages}
use database_management_syst.Buffer.Map.Loaded.{Loads, HasBlock}

module _ {P : Platform} where
  module _ (k : ℕ × ℤ) (i : ℕ) (u w : Sys P) (a : Pages P) (v : ShowsBut (λ j. j ≡ i) u a)
      (free : IsUnlisted u i) (loads : Loads k i u w) (has : HasBlock k i u w a)
      (o : IsOpened u k.0) where
    loaded-opened : (f : ℕ) → IsOpened u f → IsOpened w f
    loaded-opened f = IsOpened-files f loads.files

    loaded-OnDisk : (q : ℕ × ℤ) (r : P.Raw) → OnDisk u q r → OnDisk w q r
    loaded-OnDisk q r on = OnDisk-eq u w q r loads.files loads.fs on

    frame_of-here : frame_of w k ≡ some i
    frame_of-here = loads.table k ∙ ground (arith, page_key_eq_iff k k)

    frame_of-other : (q : ℕ × ℤ) → q ≢ k → frame_of w q ≡ frame_of u q
    frame_of-other q ne = loads.table q ∙ ground (arith, page_key_eq_iff q k)

    desc-here : w.desc i ≡ set_desc k.0 k.1
    desc-here = loads.desc i ∙ ground (arith, ==_iff i i)

    desc-other : (j : ℕ) → j ≢ i → w.desc j ≡ u.desc j
    desc-other j ne = loads.desc j ∙ ground (arith, ==_iff j i)

    -- The page that is loaded.
    here-Shows : (r : P.Raw) → a.content k ≡ some r → Shows u a k r → Shows w a k r
    here-Shows r known (within, out) =
        let on = out loads.absent in
        (
          λ j at.
              let here : i ≡ j = ground (arith, frame_of-here) in
              let block = has r known on in
              (ap w.pool (sym here) ∙ block, λ _ _. loaded-OnDisk k r on),
          λ absent. loaded-OnDisk k r on,
        )

    -- Every other page.
    other-Shows : (q : ℕ × ℤ) (r : P.Raw) → q ≢ k → Shows u a q r → Shows w a q r
    other-Shows q r ne (within, out) = (
      λ j at.
          let old : frame_of u q ≡ some j = sym (frame_of-other q ne) ∙ at in
          let there : j ≢ i = λ e. free q (old ∙ ap some e) in
          let (block, on) = within j old in
          (
            loads.others j there ∙ block,
            λ clean un.
                loaded-OnDisk q r (on (ap (λ d. d.dirty) (sym (desc-other j there)) ∙ clean) un),
          ),
      λ absent. loaded-OnDisk q r (out (sym (frame_of-other q ne) ∙ absent)),
    )

    loaded-listed :
        (j : ℕ)
        → j < w.num_bufs
        → (w.desc j).valid ≡ true
        → (frame_of w (key_of w j) ≡ some j) × IsOpened w (w.desc j).file
    unfolding set_desc
    loaded-listed j lt held = elim (Bool-cases (j == i)) [
      | inl hit ↦
          let here : j ≡ i = (==_iff j i).0 hit in
          rw (here, desc-here) (frame_of-here, loaded-opened k.0 o)
      | inr miss ↦
          let there : j ≢ i = ground (arith, ==_iff j i) in
          let (old, o') =
            v.listed j there (omega (arith, loads.num_bufs))
              (ap (λ d. d.valid) (sym (desc-other j there)) ∙ held) in
          let ne : key_of u j ≢ k = λ e. absurd (ground (arith, loads.absent, rw e at old)) in
          rw (desc-other j there)
            (frame_of-other (key_of u j) ne ∙ old, loaded-opened (u.desc j).file o')
    ]

    loaded-unused : (j : ℕ) → j < w.num_bufs → (w.desc j).valid ≡ false → (w.desc j).dirty ≡ false
    unfolding set_desc
    loaded-unused j lt idle = elim (Bool-cases (j == i)) [
      | inl hit ↦
          ap (λ d. d.dirty) (loads.desc j) ∙ ground (arith, hit, ap (λ d. d.valid) (loads.desc j))
      | inr miss ↦
          let there : j ≢ i = ground (arith, ==_iff j i) in
          let d = desc-other j there in
          ap (λ x. x.dirty) d
          ∙ v.unused j there (omega (arith, loads.num_bufs)) (ap (λ x. x.valid) (sym d) ∙ idle)
    ]

    loaded-pinned :
        (q : ℕ × ℤ) (j : ℕ) → frame_of w q ≡ some j → a.changed q ≡ true → 0 < (w.desc j).pin_cnt
    unfolding set_desc
    loaded-pinned q j at changed = elim (Bool-cases (j == i)) [
      | inl hit ↦ rw ((==_iff j i).0 hit, desc-here) (omega arith)
      | inr miss ↦
          let there : j ≢ i = ground (arith, ==_iff j i) in
          let old : frame_of u q ≡ some j = ground (arith, loads.table q) in
          rw (desc-other j there) (v.pinned q j old changed)
    ]

    pub Loads-ShowsPages : IsPool w → ShowsPages w a
    Loads-ShowsPages pool = record {
      pool = pool;
      apart = rw loads.files v.apart;
      listed = λ j _ lt held. loaded-listed j lt held;
      unused = λ j _ lt idle. loaded-unused j lt idle;
      pinned = loaded-pinned;
      pages = λ q r at.
          let (o', shows) = v.pages q r at in
          elim (Bool-cases (page_key_eq q k)) [
            | inl hit ↦
                let same = (page_key_eq_iff q k).0 hit in
                (loaded-opened q.0 o', rw same (here-Shows r (rw same at at) (rw same at shows)))
            | inr miss ↦ (
              loaded-opened q.0 o',
              other-Shows q r (λ e. ground (arith, page_key_eq_iff q k)) shows,
            )
          ];
    }
