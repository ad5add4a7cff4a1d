-- ===== src/Buffer/Map/Unpinned.antt =====
-- unPinPage of buf.cpp when it fails.
use database_management_syst.Common.{
  ℕ, Bool, ◌≡◌, refl, ap, subst, inl, inr, true, false, some, arith, ◌==◌, if◌then◌else◌,
  Bool-cases, ℤ, page_key,
}
use database_management_syst.Status.{Status, Res, ok, err, undefined}
use database_management_syst.Monad.{fail}
use database_management_syst.Platform.{Platform}
use database_management_syst.System.{Sys, BufDesc}
use database_management_syst.BufHash
use database_management_syst.Buffer.{set_frame, on_lookup, unpin_frame, unpin_page}
use database_management_syst.Buffer.Sound.{frame_of}
use database_management_syst.Buffer.Pins.{lookup-found}
use database_management_syst.Buffer.Map.View.{Pages, ShowsPages}
use database_management_syst.Buffer.Map.Described.{frame-ShowsPages}

-- The descriptor after an unPinPage that fails: it may be marked dirty.
abbrev marked : Bool → BufDesc → BufDesc
marked dirty d = record d { dirty = if dirty then true else d.dirty }

module _ {P : Platform} where
  unpin_frame-err :
      (dirty : Bool) (i : ℕ) (s t : Sys P) (x : Status)
      → unpin_frame dirty i s ≡ (err x, t)
      → (set_frame i (marked dirty (s.desc i)) s ≡ t) × ((s.desc i).pin_cnt ≡ 0)
  unfolding unpin_frame
  unpin_frame-err true i s t x e = elim (Bool-cases ((s.desc i).pin_cnt == 0)) [
    | inl none_left ↦
        let e' = rw none_left at e in (ap (λ (y : Res (Unit {0}) × Sys P). y.1) e', ground arith)
    | inr some_left ↦ absurd (ground arith)
  ]
  unpin_frame-err false i s t x e = elim (Bool-cases ((s.desc i).pin_cnt == 0)) [
    | inl none_left ↦
        let e' = rw none_left at e in (ap (λ (y : Res (Unit {0}) × Sys P). y.1) e', ground arith)
    | inr some_left ↦ absurd (ground arith)
  ]

  marked-ShowsPages :
      (k : ℕ × ℤ) (i : ℕ) (dirty : Bool) (s : Sys P) (a : Pages P)
      → ShowsPages s a
      → frame_of s k ≡ some i
      → (s.desc i).pin_cnt ≡ 0
      → ShowsPages (set_frame i (marked dirty (s.desc i)) s) a
  marked-ShowsPages k i dirty s a v at unpinned =
      frame-ShowsPages k i (marked dirty (s.desc i)) s a a v at refl refl refl
        (λ clean. ground arith) (λ q. refl) (λ _ c. c)
        (λ c. absurd (omega (arith, v.pinned k i at c))) (λ q ne. refl)

  unpin_cases :
      (k : ℕ × ℤ) (dirty : Bool) (s t : Sys P) (a : Pages P) (x : Status) (r : Res ℕ)
      → ShowsPages s a
      → BufHash.lookup s.ht_size k s.frame_table ≡ r
      → on_lookup r (unpin_frame dirty) fail s ≡ (err x, t)
      → ShowsPages t a
  unpin_cases k dirty s t a x (ok i) v found e =
      let (at, unpinned) = unpin_frame-err dirty i s t x e in
      subst (λ u. ShowsPages u a) at
        (marked-ShowsPages k i dirty s a v (lookup-found s.ht_size k i s.frame_table found)
          unpinned)
  unpin_cases k dirty s t a x (err y) v found e =
      subst (λ u. ShowsPages u a) (ap (λ (y : Res (Unit {0}) × Sys P). y.1) e) v
  unpin_cases k dirty s t a x undefined v found e = absurd (ground arith)

  -- An unPinPage that fails.
  pub unpin_refused-ShowsPages :
      (k : ℕ × ℤ) (dirty : Bool) (s t : Sys P) (a : Pages P) (x : Status)
      → ShowsPages s a
      → unpin_page k.0 k.1 dirty s ≡ (err x, t)
      → ShowsPages t a
  unfolding unpin_page
  unpin_refused-ShowsPages k dirty s t a x v e = unpin_cases k dirty s t a x _ v refl e
