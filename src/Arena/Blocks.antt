-- ===== src/Arena/Blocks.antt =====
-- The bytes of a region: a block that was handed out is written, and the rest is zero.
use open62541_nodeset_loader.Base.{
  ℕ, zero, suc, ◌+◌, ◌-◌, ◌≤◌, ◌≡◌, refl, sym, ap, ◌∙◌, arith, List, [], ◌∷◌, ◌++◌, length, take,
  drop, replicate, le→ltb, ret, ◌>>=◌, length-append, length-take, length-drop, length-replicate,
}
use open62541_nodeset_loader.Arena.{
  Region, region_new, get_region_size, written, copy_to, until_zero, read_string,
}

drop-take_append : (n : ℕ) (xs ys : List ℕ) → n ≤ length xs → drop n (take n xs ++ ys) ≡ ys
drop-take_append zero xs ys h = refl
drop-take_append (suc n) [] ys h = absurd (omega arith)
drop-take_append (suc n) (x ∷ xs) ys h = drop-take_append n xs ys (omega arith)

drop_nil : (n : ℕ) → drop {A = ℕ} n [] ≡ []
drop_nil zero = refl
drop_nil (suc n) = refl

sub_suc : (k n : ℕ) → k - n ≡ suc k - suc n
sub_suc k n = omega arith

sub_sub : (k m n : ℕ) → (k - m) - n ≡ k - (m + n)
sub_sub k m n = omega arith

sub_zero : (k : ℕ) → k ≡ k - 0
sub_zero k = omega arith

zero_sub : (n : ℕ) → 0 ≡ 0 - n
zero_sub n = omega arith

suc_add : (m n : ℕ) → suc m + n ≡ suc (m + n)
suc_add m n = omega arith

pub drop_more : (m n : ℕ) (xs : List ℕ) → drop (m + n) xs ≡ drop n (drop m xs)
drop_more zero n xs = ap (λ k. drop k xs) (omega arith)
drop_more (suc m) n [] = drop_nil (suc m + n) ∙ sym (drop_nil n)
drop_more (suc m) n (x ∷ xs) = ap (λ k. drop k (x ∷ xs)) (suc_add m n) ∙ drop_more m n xs

pub drop-append : (xs ys : List ℕ) → drop (length xs) (xs ++ ys) ≡ ys
drop-append [] ys = refl
drop-append (x ∷ xs) ys = drop-append xs ys

pub drop-replicate : (n k : ℕ) → drop {A = ℕ} n (replicate k 0) ≡ replicate (k - n) 0
drop-replicate zero k = ap (λ i. replicate i 0) (sub_zero k)
drop-replicate (suc n) zero = ap (λ i. replicate i 0) (zero_sub (suc n))
drop-replicate (suc n) (suc k) = drop-replicate n k ∙ ap (λ i. replicate i 0) (sub_suc k n)

-- A text without a zero byte is read up to the zero behind it.
pub read_string-append :
    (text rest : List ℕ) → until_zero text ≡ text → read_string (text ++ 0 ∷ rest) ≡ ret text
unfolding until_zero read_string
read_string-append [] rest h = refl
read_string-append (zero ∷ text) rest h = cc
read_string-append (suc b ∷ text) rest h =
    ap (λ r. r >>= λ t. ret (suc b ∷ t)) (read_string-append text rest (ap (drop 1) h))

-- Zeros of which there is at least one.
pub replicate_pos : (n : ℕ) → 1 ≤ n → replicate {A = ℕ} n 0 ≡ 0 ∷ replicate (n - 1) 0
replicate_pos zero h = absurd (omega arith)
replicate_pos (suc n) h = ap (λ k. 0 ∷ replicate k 0) (sub_zero n ∙ sub_suc n 0)

-- A write that ends within the memory does not fault.
pub copy_to-written :
    (capacity : ℕ) (mem bytes : List ℕ) (at : ℕ)
    → at + length bytes ≤ capacity
    → copy_to capacity mem at bytes ≡ ret (written mem at bytes)
unfolding copy_to
copy_to-written capacity mem bytes at h = rw (le→ltb capacity (at + length bytes) h) refl

-- Nothing was written behind the fill mark.
pub record IsValid (r : Region) : Type 0 where
  pub within : r.size ≤ r.capacity
  pub room : length r.mem ≡ r.capacity
  pub rest : drop r.size r.mem ≡ replicate (r.capacity - r.size) 0

pub region_new-IsValid : (capacity : ℕ) → IsValid (region_new capacity)
unfolding region_new
region_new-IsValid capacity = record {
  within = omega arith;
  room = length-replicate capacity 0;
  rest = ap (λ k. replicate k 0) (omega arith);
}

pub get_region_size_le : (requested initial : ℕ) → requested ≤ get_region_size requested initial
unfolding get_region_size
get_region_size_le requested initial = ground arith

-- What stands behind a text that was copied to an offset.
pub drop-written :
    (mem text : List ℕ) (at : ℕ)
    → at ≤ length mem
    → drop at (written mem at text) ≡ text ++ drop (at + length text) mem
drop-written mem text at h = drop-take_append at mem _ h

pub drop_behind-written :
    (mem text : List ℕ) (at : ℕ)
    → at ≤ length mem
    → drop (at + length text) (written mem at text) ≡ drop (at + length text) mem
drop_behind-written mem text at h =
    drop_more at (length text) (written mem at text)
    ∙ (ap (drop (length text)) (drop-written mem text at h) ∙ drop-append text _)

pub length-written :
    (mem text : List ℕ) (at : ℕ)
    → at + length text ≤ length mem
    → length (written mem at text) ≡ length mem
length-written mem text at h =
    length-append (take at mem) _
    ∙ omega (
      arith,
      length-take at mem,
      length-append text (drop (at + length text) mem),
      length-drop (at + length text) mem,
    )

-- The bytes behind a later mark.
pub rest_from :
    (r : Region) (n : ℕ)
    → IsValid r
    → drop (r.size + n) r.mem ≡ replicate (r.capacity - (r.size + n)) 0
rest_from r n v =
    drop_more r.size n r.mem
    ∙ (ap (drop n) v.rest
        ∙ (drop-replicate n (r.capacity - r.size)
            ∙ ap (λ i. replicate i 0) (sub_sub r.capacity r.size n)))
