-- ===== src/Common/Equality.antt =====
-- Boolean equality of the keys of the hash tables, as an interface, and of byte strings.
use Prim.Native.Nat.{ℕ}
use mathlib.Core.Path.{◌≡◌}
use mathlib.Core.Logic.{◌↔◌}
use mathlib.Core.Bool.{Bool, true, false, ◌&&◌}
use mathlib.Core.List.{List, [], ◌∷◌}
use native.Mathlib.Omega.{arith}
use database_management_syst.Common.Tests.{◌==◌}
use database_management_syst.Common.Int.{ℤ, eq_ℤ, eq_ℤ_iff}

pub record Eq {ℓ} (A : Type ℓ) : Type ℓ where
  pub beq : A → A → Bool
  pub beq_iff : (a b : A) → (beq a b ≡ true) ↔ (a ≡ b)

abbrev pub bytes_eq : List ℕ → List ℕ → Bool
bytes_eq [] [] = true
bytes_eq (x ∷ xs) (y ∷ ys) = (x == y) && bytes_eq xs ys
bytes_eq [] (y ∷ ys) = false
bytes_eq (x ∷ xs) [] = false

pub bytes_eq_iff : (xs ys : List ℕ) → (bytes_eq xs ys ≡ true) ↔ (xs ≡ ys)
bytes_eq_iff [] [] = ground arith
bytes_eq_iff (x ∷ xs) (y ∷ ys) = ground (arith, bytes_eq_iff xs ys)
bytes_eq_iff [] (y ∷ ys) = ground arith
bytes_eq_iff (x ∷ xs) [] = ground arith

instance abbrev pub bytes_key : Eq (List ℕ)
bytes_key = record { beq = bytes_eq; beq_iff = bytes_eq_iff }

abbrev pub page_key_eq : ℕ × ℤ → ℕ × ℤ → Bool
page_key_eq (f, p) (g, q) = (f == g) && eq_ℤ p q

pub page_key_eq_iff : (a b : ℕ × ℤ) → (page_key_eq a b ≡ true) ↔ (a ≡ b)
page_key_eq_iff (f, p) (g, q) = ground (arith, eq_ℤ_iff p q)

instance abbrev pub page_key : Eq (ℕ × ℤ)
page_key = record { beq = page_key_eq; beq_iff = page_key_eq_iff }
