-- ===== src/Backend/Members/Fill.antt =====
-- An array that is filled from an index on.
use mathlib.Core.List.{append_assoc}
use open62541_nodeset_loader.Base.{
  ℕ, zero, suc, ◌+◌, ◌-◌, ◌≤◌, ◌≡◌, refl, sym, ap, ◌∙◌, arith, List, [], ◌∷◌, ◌++◌, length,
  length-append, set, drop, replicate, map,
}

sub_suc : (k n : ℕ) → k - n ≡ suc k - suc n
sub_suc k n = omega arith

sub_zero : (k : ℕ) → k ≡ k - 0
sub_zero k = omega arith

zero_sub : (n : ℕ) → 0 ≡ 0 - n
zero_sub n = omega arith

abbrev pub set_all {ℓ} : {A : Type ℓ} → ℕ → List A → List A → List A
set_all i [] cells = cells
set_all i (x ∷ xs) cells = set_all (i + 1) xs (set cells i x)

module _ {ℓ} {A : Type ℓ} where
  set_here :
      (before after : List A) (a b : A)
      → set (before ++ a ∷ after) (length before) b ≡ before ++ b ∷ after
  set_here [] after a b = refl
  set_here (x ∷ before) after a b = ap (λ l. x ∷ l) (set_here before after a b)

  pub set_all-append :
      (xs before after : List A) (i : ℕ)
      → i ≡ length before
      → length xs ≤ length after
      → set_all i xs (before ++ after) ≡ before ++ (xs ++ drop (length xs) after)
  set_all-append [] before after i e h = refl
  set_all-append (x ∷ xs) before [] i e h = absurd (omega arith)
  set_all-append (x ∷ xs) before (a ∷ after) i e h =
      ap (λ (k : ℕ). set_all (i + 1) xs (set (before ++ a ∷ after) k x)) e
      ∙ (ap (set_all (i + 1) xs)
            (set_here before after a x ∙ sym (append_assoc before (x ∷ []) after))
          ∙ (set_all-append xs (before ++ x ∷ []) after (i + 1)
                (omega (arith, e, length-append before (x ∷ []))) (omega arith)
              ∙ append_assoc before (x ∷ []) (xs ++ drop (length xs) after)))

  pub drop_all : (n : ℕ) (a : A) (k : ℕ) → drop n (replicate k a) ≡ replicate (k - n) a
  drop_all zero a k = ap (λ (i : ℕ). replicate i a) (sub_zero k)
  drop_all (suc n) a zero = ap (λ (i : ℕ). replicate i a) (zero_sub (suc n))
  drop_all (suc n) a (suc k) = drop_all n a k ∙ ap (λ (i : ℕ). replicate i a) (sub_suc k n)

pub length-map {ℓ κ} :
    {A : Type ℓ} {B : Type κ} (f : A → B) (xs : List A) → length (map f xs) ≡ length xs
length-map f [] = refl
length-map f (x ∷ xs) = ap suc (length-map f xs)
