-- ===== src/Base/Counts.antt =====
-- How often a pointer occurs in an array: membership and "the same items" as arithmetic.
use Prim.Native.Nat.{ℕ, zero, suc, ◌+◌, ◌≤◌, ◌<◌}
use mathlib.Core.Path.{◌≡◌}
use mathlib.Core.List.{List, [], ◌∷◌, ◌++◌}
use native.Mathlib.Omega.{arith}
use mathlib.Core.Logic.{inl, inr}
use open62541_nodeset_loader.Base.Tests.{◌==◌, if◌then◌else◌, Bool-cases}
use open62541_nodeset_loader.Base.Lists.{length, get_or, take, set}

abbrev pub count : ℕ → List ℕ → ℕ
count p [] = 0
count p (x ∷ xs) = (if p == x then 1 else 0) + count p xs

pub count-append : (p : ℕ) (xs ys : List ℕ) → count p (xs ++ ys) ≡ count p xs + count p ys
count-append p [] ys = omega arith
count-append p (x ∷ xs) ys = omega (arith, count-append p xs ys)

pub count-get_or : (xs : List ℕ) (i : ℕ) → i < length xs → 0 < count (get_or xs i 0) xs
count-get_or [] i h = absurd (omega arith)
count-get_or (x ∷ xs) zero h = ground arith
count-get_or (x ∷ xs) (suc i) h = ground (arith, count-get_or xs i)

-- An item that occurs stands at some index.
pub index_of_count :
    (p : ℕ) (xs : List ℕ) → 0 < count p xs → (i : ℕ) × (i < length xs) × (get_or xs i 0 ≡ p)
index_of_count p [] h = absurd (omega arith)
index_of_count p (x ∷ xs) h = elim (Bool-cases (p == x)) [
  | inl hit ↦ (0, omega arith, ground arith)
  | inr miss ↦ let (i, b, e) = index_of_count p xs (ground arith) in (suc i, omega arith, e)
]

pub count-take-suc :
    (p n : ℕ) (xs : List ℕ)
    → n < length xs
    → count p (take (suc n) xs) ≡ count p (take n xs) + (if p == get_or xs n 0 then 1 else 0)
count-take-suc p n [] h = absurd (omega arith)
count-take-suc p zero (x ∷ xs) h = omega arith
count-take-suc p (suc n) (x ∷ xs) h = omega (arith, count-take-suc p n xs)

-- Overwriting one item of a prefix by its last one and dropping the last removes that item.
pub count-take-set :
    (p n i : ℕ) (xs : List ℕ)
    → i ≤ n
    → n < length xs
    → count p (take n (set xs i (get_or xs n 0))) + (if p == get_or xs i 0 then 1 else 0)
      ≡ count p (take (suc n) xs)
count-take-set p n i [] h b = absurd (omega arith)
count-take-set p zero zero (x ∷ xs) h b = omega arith
count-take-set p zero (suc i) (x ∷ xs) h b = absurd (omega arith)
count-take-set p (suc n) zero (x ∷ xs) h b = omega (arith, count-take-suc p n xs)
count-take-set p (suc n) (suc i) (x ∷ xs) h b = omega (arith, count-take-set p n i xs)
