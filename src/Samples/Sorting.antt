-- ===== src/Samples/Sorting.antt =====
-- Insertion sort meets what the model assumes of `qsort`.
use open62541_nodeset_loader.Base.{
  ℕ, zero, suc, ◌+◌, ◌≤◌, ◌<◌, ◌≡◌, refl, ap, ◌∙◌, ◌≢◌, inl, inr, Bool, true, false, List, [], ◌∷◌,
  length, count, get_or, ◌==◌, if◌then◌else◌, Bool-cases, arith,
}
use open62541_nodeset_loader.Ua.{Order, less, eq, more, flip, Ua}
use open62541_nodeset_loader.Container.{NodePtr, null_ptr}
use open62541_nodeset_loader.Nodeset.Search.Correct.{less_of_not_more}
use open62541_nodeset_loader.Nodeset.Sort.{QSort}

abbrev is_more : Order → Bool
is_more less = false
is_more eq = false
is_more more = true

is_more→eq : (o : Order) → is_more o ≡ true → o ≡ more
is_more→eq less h = cc
is_more→eq eq h = cc
is_more→eq more h = refl

module _ (ua : Ua) (key : NodePtr → ua.NodeId) where
  unfoldable pub insert : NodePtr → List NodePtr → List NodePtr
  insert p [] = p ∷ []
  insert p (x ∷ xs) = if is_more (ua.order (key p) (key x)) then x ∷ insert p xs else p ∷ x ∷ xs

  unfoldable pub insertion_sort : List NodePtr → List NodePtr
  unfolding insert
  insertion_sort [] = []
  insertion_sort (x ∷ xs) = insert x (insertion_sort xs)

  length-insert : (p : NodePtr) (xs : List NodePtr) → length (insert p xs) ≡ suc (length xs)
  unfolding insert
  length-insert p [] = refl
  length-insert p (x ∷ xs) = ground (arith, length-insert p xs)

  count-insert :
      (p x : NodePtr) (xs : List NodePtr)
      → count p (insert x xs) ≡ (if p == x then 1 else 0) + count p xs
  unfolding insert
  count-insert p x [] = refl
  count-insert p x (y ∷ xs) = ground (arith, count-insert p x xs)

  pub length-insertion_sort : (xs : List NodePtr) → length (insertion_sort xs) ≡ length xs
  unfolding insertion_sort
  length-insertion_sort [] = refl
  length-insertion_sort (x ∷ xs) =
      length-insert x (insertion_sort xs) ∙ ap suc (length-insertion_sort xs)

  pub count-insertion_sort :
      (xs : List NodePtr) (p : NodePtr) → count p (insertion_sort xs) ≡ count p xs
  unfolding insertion_sort
  count-insertion_sort [] p = refl
  count-insertion_sort (x ∷ xs) p =
      count-insert p x (insertion_sort xs)
      ∙ ap (◌+◌ (if p == x then 1 else 0)) (count-insertion_sort xs p)

  abbrev NotMore : NodePtr → NodePtr → Type 0
  NotMore p x = ua.order (key p) (key x) ≢ more

  -- No item of the list comes before `p`.
  abbrev Least : NodePtr → List NodePtr → Type 0
  Least p [] = Unit {0}
  Least p (x ∷ xs) = NotMore p x × Least p xs

  abbrev IsSorted : List NodePtr → Type 0
  IsSorted [] = Unit {0}
  IsSorted (x ∷ xs) = Least x xs × IsSorted xs

  NotMore-trans : (a b c : NodePtr) → NotMore a b → NotMore b c → NotMore a c
  NotMore-trans a b c h k m = h (
      ua.order_flip (key b) (key a)
      ∙ ap flip (
          less_of_not_more ua (key b) (key c) (key a) k
            (ua.order_flip (key a) (key c) ∙ ap flip m)))

  NotMore-flip : (a b : NodePtr) → is_more (ua.order (key a) (key b)) ≡ true → NotMore b a
  NotMore-flip a b h m =
      cc (m, ua.order_flip (key a) (key b), ap flip (is_more→eq (ua.order (key a) (key b)) h))

  Least-trans : (a b : NodePtr) (xs : List NodePtr) → NotMore a b → Least b xs → Least a xs
  Least-trans a b [] h l = tt
  Least-trans a b (x ∷ xs) h l = (NotMore-trans a b x h l.0, Least-trans a b xs h l.1)

  Least-insert :
      (a p : NodePtr) (xs : List NodePtr) → NotMore a p → Least a xs → Least a (insert p xs)
  unfolding insert
  Least-insert a p [] h l = (h, tt)
  Least-insert a p (x ∷ xs) h l = elim (Bool-cases (is_more (ua.order (key p) (key x)))) [
    | inl b ↦ rw b (l.0, Least-insert a p xs h l.1)
    | inr b ↦ rw b (h, l)
  ]

  insert-IsSorted : (p : NodePtr) (xs : List NodePtr) → IsSorted xs → IsSorted (insert p xs)
  unfolding insert
  insert-IsSorted p [] s = (tt, tt)
  insert-IsSorted p (x ∷ xs) s = elim (Bool-cases (is_more (ua.order (key p) (key x)))) [
    | inl b ↦ rw b (Least-insert x p xs (NotMore-flip p x b) s.0, insert-IsSorted p xs s.1)
    | inr b ↦
        let h : NotMore p x = λ m. cc (b, ap is_more m) in rw b ((h, Least-trans p x xs h s.0), s)
  ]

  insertion_sort-IsSorted : (xs : List NodePtr) → IsSorted (insertion_sort xs)
  unfolding insertion_sort
  insertion_sort-IsSorted [] = tt
  insertion_sort-IsSorted (x ∷ xs) = insert-IsSorted x _ (insertion_sort-IsSorted xs)

  Least-get_or :
      (p : NodePtr) (xs : List NodePtr) (j : ℕ)
      → Least p xs
      → j < length xs
      → NotMore p (get_or xs j null_ptr)
  Least-get_or p [] j l h = absurd (omega arith)
  Least-get_or p (x ∷ xs) zero l h = l.0
  Least-get_or p (x ∷ xs) (suc j) l h = Least-get_or p xs j l.1 (omega arith)

  IsSorted-get_or :
      (xs : List NodePtr) (i j : ℕ)
      → IsSorted xs
      → i ≤ j
      → j < length xs
      → NotMore (get_or xs i null_ptr) (get_or xs j null_ptr)
  IsSorted-get_or [] i j s h k = absurd (omega arith)
  IsSorted-get_or (x ∷ xs) zero zero s h k = λ m. cc (m, ua.order_refl (key x))
  IsSorted-get_or (x ∷ xs) zero (suc j) s h k = Least-get_or x xs j s.0 (omega arith)
  IsSorted-get_or (x ∷ xs) (suc i) zero s h k = absurd (omega arith)
  IsSorted-get_or (x ∷ xs) (suc i) (suc j) s h k =
      IsSorted-get_or xs i j s.1 (omega arith) (omega arith)

  pub sorted_at :
      (xs : List NodePtr) (i j : ℕ)
      → i ≤ j
      → j < length xs
      → NotMore (get_or (insertion_sort xs) i null_ptr) (get_or (insertion_sort xs) j null_ptr)
  sorted_at xs i j h k =
      IsSorted-get_or (insertion_sort xs) i j (insertion_sort-IsSorted xs) h
        (omega (arith, length-insertion_sort xs))

abbrev pub insertion_qsort : (ua : Ua) → QSort ua
insertion_qsort ua = record {
  qsort = insertion_sort ua;
  qsort_length = length-insertion_sort ua;
  qsort_count = count-insertion_sort ua;
  qsort_sorted = sorted_at ua;
}
