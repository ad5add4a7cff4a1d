-- ===== src/Monad.antt =====
-- Calls that change a state and return a status: `if (status != OK) return status` is the bind.
-- A call that fails keeps what it has changed before.
use database_management_syst.Common.{Bool, true, false, ◌≡◌, refl, arith}
use database_management_syst.Status.{Status, Res, ok, err, undefined}

abbrev pub M : Type 0 → Type 0 → Type 0
M S A = S → Res A × S

abbrev pub and_then : {S A B : Type 0} → (A → M S B) → Res A × S → Res B × S
and_then f (ok a, s) = f a s
and_then f (err e, s) = (err e, s)
and_then f (undefined, s) = (undefined, s)

infixl 5 ◌>>=◌ ◌>>◌
unfoldable pub ◌>>=◌ : {S A B : Type 0} → M S A → (A → M S B) → M S B
◌>>=◌ m f s = and_then f (m s)

abbrev pub ◌>>◌ : {S B : Type 0} → M S (Unit {0}) → M S B → M S B
m >> k = m >>= λ _. k

abbrev pub pure : {S A : Type 0} → A → M S A
pure a s = (ok a, s)

abbrev pub fail : {S A : Type 0} → Status → M S A
fail e s = (err e, s)

-- What a bind that succeeds has done.
pub and_then-ok :
    {S A B : Type 0} (f : A → M S B) (r : Res A × S) {b : B} {t : S}
    → and_then f r ≡ (ok b, t)
    → (a : A) × (u : S) × (r ≡ (ok a, u)) × (f a u ≡ (ok b, t))
and_then-ok f (ok a, u) e = (a, u, refl, e)
and_then-ok f (err x, u) e = absurd (ground arith)
and_then-ok f (undefined, u) e = absurd (ground arith)

-- The state, and a change of it.
abbrev pub get : {S : Type 0} → M S S
get s = (ok s, s)

abbrev pub modify : {S : Type 0} → (S → S) → M S (Unit {0})
modify f s = (ok tt, f s)

-- A call whose status the caller ignores, and one whose status the caller inspects.
abbrev pub forget : {S A : Type 0} → Res A × S → Res (Unit {0}) × S
forget (ok a, s) = (ok tt, s)
forget (err e, s) = (ok tt, s)
forget (undefined, s) = (undefined, s)

abbrev pub ignore : {S A : Type 0} → M S A → M S (Unit {0})
ignore m s = forget (m s)

abbrev pub caught : {S A : Type 0} → Res A × S → Res (Res A) × S
caught (ok a, s) = (ok (ok a), s)
caught (err e, s) = (ok (err e), s)
caught (undefined, s) = (undefined, s)

abbrev pub attempt : {S A : Type 0} → M S A → M S (Res A)
attempt m s = caught (m s)

abbrev pub of_res : {S A : Type 0} → Res A → M S A
of_res r s = (r, s)

abbrev pub when : {S : Type 0} → Bool → M S (Unit {0}) → M S (Unit {0})
when true m = m
when false m = pure tt

-- A call that is defined under a condition only: a pointer that is not NULL, an index in an array.
abbrev pub guarded : {S A : Type 0} → Bool → M S A → M S A
guarded true m s = m s
guarded false m s = (undefined, s)

-- What such a call that returns has done, and the state that it leaves.
pub guarded-ok :
    {S A : Type 0} (b : Bool) (m : M S A) {a : A} {s t : S}
    → guarded b m s ≡ (ok a, t)
    → (b ≡ true) × (m s ≡ (ok a, t))
guarded-ok true m e = (refl, e)
guarded-ok false m e = absurd (ground arith)

pub guarded-err :
    {S A : Type 0} (b : Bool) (m : M S A) {x : Status} {s t : S}
    → guarded b m s ≡ (err x, t)
    → (b ≡ true) × (m s ≡ (err x, t))
guarded-err true m e = (refl, e)
guarded-err false m e = absurd (ground arith)

pub guarded-state :
    {S A : Type 0} (R : S → Type 0) (b : Bool) (m : M S A) {s : S}
    → R s
    → R (m s).1
    → R (guarded b m s).1
guarded-state R true m h k = k
guarded-state R false m h k = h
