-- ===== src/Arena/Growing.antt =====
-- The last block of the arena while it grows: it keeps its text, and zeros follow.
use open62541_nodeset_loader.Base.{
  ℕ, zero, suc, ◌+◌, ◌-◌, ◌≤◌, ◌≡◌, refl, sym, ap, ◌∙◌, arith, List, [], ◌∷◌, ◌++◌, length, take,
  drop, replicate, length-append, length-replicate, ret,
}
use mathlib.Core.List.{append_assoc}
use open62541_nodeset_loader.Arena.{Region, region_new, user_bytes, move_block, written}
use open62541_nodeset_loader.Arena.Blocks.{
  IsValid, drop_more, drop-append, drop-replicate, drop-written, length-written, copy_to-written,
}

drop-take :
    (m n : ℕ) (xs ys : List ℕ)
    → m ≤ length xs
    → drop m (take (m + n) xs ++ ys) ≡ take n (drop m xs) ++ ys
drop-take zero n xs ys h = let e : zero + n ≡ n = omega arith in ap (λ k. take k xs ++ ys) e
drop-take (suc m) n [] ys h = absurd (omega arith)
drop-take (suc m) n (x ∷ xs) ys h =
    let e : suc m + n ≡ suc (m + n) = omega arith in
    ap (λ k. drop (suc m) (take k (x ∷ xs) ++ ys)) e ∙ drop-take m n xs ys (omega arith)

take-replicate : (m k : ℕ) → m ≤ k → take {A = ℕ} m (replicate k 0) ≡ replicate m 0
take-replicate zero k h = refl
take-replicate (suc m) zero h = absurd (omega arith)
take-replicate (suc m) (suc k) h = ap (λ l. 0 ∷ l) (take-replicate m k (omega arith))

take_through :
    (text : List ℕ) (m k : ℕ)
    → m ≤ k
    → take (length text + m) (text ++ replicate k 0) ≡ text ++ replicate m 0
take_through [] m k h =
    let e : zero + m ≡ m = omega arith in ap (λ n. take n (replicate k 0)) e ∙ take-replicate m k h
take_through (b ∷ text) m k h =
    let e : suc (length text) + m ≡ suc (length text + m) = omega arith in
    ap (λ n. take n (b ∷ (text ++ replicate k 0))) e ∙ ap (λ l. b ∷ l) (take_through text m k h)

replicate_add : (m n : ℕ) → replicate m 0 ++ replicate n 0 ≡ replicate {A = ℕ} (m + n) 0
replicate_add zero n = let e : n ≡ zero + n = omega arith in ap (λ k. replicate k 0) e
replicate_add (suc m) n =
    let e : suc (m + n) ≡ suc m + n = omega arith in
    ap (λ l. 0 ∷ l) (replicate_add m n) ∙ ap (λ k. replicate k 0) e

-- The last block begins with the text, and what is behind the text is zero, in the block and after
-- it. There is room in the block for a zero.
pub record Keeps (text : List ℕ) (r : Region) : Type 0 where
  pub within : r.size ≤ r.capacity
  pub room : length r.mem ≡ r.capacity
  pub block : r.user_ptr + r.user_size ≡ r.size
  pub longer : length text + 1 ≤ r.user_size
  pub bytes : drop r.user_ptr r.mem ≡ text ++ replicate (r.capacity - (r.user_ptr + length text)) 0

take_text : (text rest : List ℕ) → take (length text) (text ++ rest) ≡ text
take_text [] rest = refl
take_text (b ∷ text) rest = ap (λ l. b ∷ l) (take_text text rest)

-- The zeros that are left behind more bytes.
zeros_behind :
    (text more : List ℕ) (r : Region)
    → Keeps text r
    → drop ((r.user_ptr + length text) + length more) r.mem
      ≡ replicate (r.capacity - (r.user_ptr + length (text ++ more))) 0
zeros_behind text more r k =
    let at = r.user_ptr + length text in
    let e : (r.capacity - at) - length more ≡ r.capacity - (r.user_ptr + length (text ++ more)) =
      omega (arith, length-append text more) in
    drop_more at (length more) r.mem
    ∙ (ap (drop (length more)) (
          drop_more r.user_ptr (length text) r.mem
          ∙ (ap (drop (length text)) k.bytes ∙ drop-append text _))
        ∙ (drop-replicate (length more) (r.capacity - at) ∙ ap (λ n. replicate n 0) e))

-- More bytes behind the text, within the block.
pub written-Keeps :
    (text more : List ℕ) (r : Region)
    → Keeps text r
    → (length text + length more) + 1 ≤ r.user_size
    → Keeps (text ++ more) (record r { mem = written r.mem (r.user_ptr + length text) more })
written-Keeps text more r k fits =
    let at = r.user_ptr + length text in
    record {
      within = k.within;
      room = length-written r.mem more at (omega (arith, k.within, k.room, k.block)) ∙ k.room;
      block = k.block;
      longer = omega (arith, length-append text more, fits);
      bytes =
          drop-take r.user_ptr (length text) r.mem _ (omega (arith, k.within, k.room, k.block))
          ∙ (ap (λ l. take (length text) l ++ (more ++ drop (at + length more) r.mem)) k.bytes
              ∙ (ap (λ l. l ++ (more ++ drop (at + length more) r.mem)) (take_text text _)
                  ∙ (ap (λ l. text ++ (more ++ l)) (zeros_behind text more r k)
                      ∙ sym (append_assoc text more _))));
    }

-- A longer block in the same region.
pub extended-Keeps :
    (text : List ℕ) (r : Region) (n : ℕ)
    → Keeps text r
    → r.size + n ≤ r.capacity
    → Keeps text (record r { user_size = r.user_size + n; size = r.size + n })
extended-Keeps text r n k h = record {
  within = h;
  room = k.room;
  block = omega (arith, k.block);
  longer = omega (arith, k.longer);
  bytes = k.bytes;
}

-- The block's bytes are the text and zeros.
user_bytes-Keeps :
    (text : List ℕ) (r : Region)
    → Keeps text r
    → user_bytes r ≡ text ++ replicate (r.user_size - length text) 0
unfolding user_bytes
user_bytes-Keeps text r k =
    let e : r.user_size ≡ length text + (r.user_size - length text) = omega (arith, k.longer) in
    ap (take r.user_size) k.bytes
    ∙ (ap (λ n. take n (text ++ replicate (r.capacity - (r.user_ptr + length text)) 0)) e
        ∙ take_through text (r.user_size - length text) _
            (omega (arith, k.longer, k.block, k.within)))

-- A copy of the block at the start of a new region.
abbrev pub moved : Region → ℕ → Region
moved old capacity = record (region_new capacity) {
  mem = written (region_new capacity).mem 0 (user_bytes old);
  size = old.user_size;
  user_size = old.user_size;
}

user_bytes_size : (text : List ℕ) (r : Region) → Keeps text r → length (user_bytes r) ≡ r.user_size
user_bytes_size text r k =
    let zeros = r.user_size - length text in
    ap length (user_bytes-Keeps text r k)
    ∙ omega
        (arith, length-append text (replicate zeros 0), length-replicate {A = ℕ} zeros 0, k.longer)

-- The new region has room for the copy.
pub move_block-moved :
    (text : List ℕ) (r : Region) (capacity : ℕ)
    → Keeps text r
    → r.user_size ≤ capacity
    → move_block r capacity ≡ ret (moved r capacity)
unfolding move_block region_new
move_block-moved text r capacity k h =
    let fits =
      copy_to-written capacity (replicate capacity 0) (user_bytes r) 0
        (omega (arith, user_bytes_size text r k, h)) in
    rw fits refl

pub moved-Keeps :
    (text : List ℕ) (r : Region) (capacity : ℕ)
    → Keeps text r
    → r.user_size ≤ capacity
    → Keeps text (moved r capacity)
unfolding region_new
moved-Keeps text r capacity k h =
    let zeros = r.user_size - length text in
    let size = user_bytes_size text r k in
    let rest = capacity - (0 + length (user_bytes r)) in
    let e : zeros + rest ≡ capacity - (0 + length text) = omega (arith, size, k.longer, h) in
    record {
      within = h;
      room =
          length-written (replicate capacity 0) (user_bytes r) 0
            (omega (arith, size, length-replicate {A = ℕ} capacity 0))
          ∙ length-replicate {A = ℕ} capacity 0;
      block = omega arith;
      longer = k.longer;
      bytes =
          drop-written (replicate capacity 0) (user_bytes r) 0 (omega arith)
          ∙ (ap (λ l. user_bytes r ++ l) (drop-replicate (0 + length (user_bytes r)) capacity)
              ∙ (ap (λ l. l ++ replicate rest 0) (user_bytes-Keeps text r k)
                  ∙ (append_assoc text (replicate zeros 0) (replicate rest 0)
                      ∙ ap (λ l. text ++ l)
                          (replicate_add zeros rest ∙ ap (λ n. replicate n 0) e))));
    }

-- A new block, behind whose start everything is zero.
pub taken-Keeps :
    (r : Region) (n : ℕ)
    → IsValid r
    → r.size + (n + 1) ≤ r.capacity
    → Keeps [] (record r { user_ptr = r.size; size = r.size + (n + 1); user_size = n + 1 })
taken-Keeps r n v h =
    let e : r.capacity - r.size ≡ r.capacity - (r.size + 0) = omega arith in
    record {
      within = h;
      room = v.room;
      block = refl;
      longer = omega arith;
      bytes = v.rest ∙ ap (λ k. replicate k 0) e;
    }
