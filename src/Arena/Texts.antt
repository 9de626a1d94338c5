-- ===== src/Arena/Texts.antt =====
-- Texts that are stored in the arena are read back from there.
use open62541_nodeset_loader.Base.{
  ℕ, suc, ret, take, ◌+◌, ◌-◌, ◌≤◌, ◌≡◌, refl, sym, ap, ◌∙◌, subst, arith, Bool-cases, inl, inr,
  true, List, [], ◌∷◌, ◌++◌, some, length, drop, replicate, ltb, if◌then◌else◌, le→ltb, ltb→le,
}
use open62541_nodeset_loader.Arena.{
  CharArenaAllocator, Region, region_new, get_region_size, push_region, user_ptr, take_block,
  malloc, written, write_user, region_at, until_zero, c_string, read_string, user_bytes,
}
use open62541_nodeset_loader.Arena.Blocks.{
  IsValid, region_new-IsValid, get_region_size_le, read_string-append, replicate_pos,
  copy_to-written, drop-written, drop_behind-written, length-written, rest_from, drop_more,
}

pub region_here : (r : Region) (rs : List Region) → region_at (r ∷ rs) (length rs) ≡ some r
unfolding region_at
region_here r rs = rw (le→ltb (length rs) (length rs) (omega arith)) refl

take_terminated : (text rest : List ℕ) → take (length text + 1) (text ++ 0 ∷ rest) ≡ text ++ 0 ∷ []
take_terminated [] rest = refl
take_terminated (b ∷ text) rest =
    let e : length (b ∷ text) + 1 ≡ suc (length text + 1) = omega arith in
    ap (λ n. take n (b ∷ (text ++ 0 ∷ rest))) e ∙ ap (λ l. b ∷ l) (take_terminated text rest)

-- A text that was written to the start of a new block, in a region that has room for it.
module _ (arena : CharArenaAllocator) (text : List ℕ) (valid : IsValid arena.current)
    (room : arena.current.size + (length text + 1) ≤ arena.current.capacity) where
  abbrev at : ℕ
  at = arena.current.size + 0

  abbrev block : CharArenaAllocator
  block = take_block arena (length text + 1)

  abbrev pub stored : CharArenaAllocator
  stored = record block {
    current = record (block.current) { mem = written arena.current.mem at text };
  }

  at_le : at ≤ length arena.current.mem
  at_le = omega (arith, valid.within, valid.room)

  at_size : arena.current.size ≡ at
  at_size = omega arith

  -- Zeros follow the text.
  behind :
      drop (at + length text) arena.current.mem
      ≡ replicate (arena.current.capacity - (at + length text)) 0
  behind =
      subst
        (λ a.
          drop (a + length text) arena.current.mem
          ≡ replicate (arena.current.capacity - (a + length text)) 0)
        at_size (rest_from arena.current (length text) valid)

  mark : arena.current.size + (length text + 1) ≡ (at + length text) + 1
  mark = omega arith

  -- The write ends within the region.
  pub write_user-stored : write_user block 0 text ≡ ret stored
  unfolding write_user take_block
  write_user-stored =
      let fits =
        copy_to-written arena.current.capacity arena.current.mem text at
          (omega (arith, valid.within, valid.room)) in
      rw fits refl

  zeros : ℕ
  zeros = arena.current.capacity - (at + length text)

  zero_behind : replicate {A = ℕ} zeros 0 ≡ 0 ∷ replicate (zeros - 1) 0
  zero_behind = replicate_pos zeros (unfold zeros in omega arith)

  stored_bytes :
      drop arena.current.size (written arena.current.mem at text)
      ≡ text ++ 0 ∷ replicate (zeros - 1) 0
  unfolding zeros
  stored_bytes =
      ap (λ n. drop n (written arena.current.mem at text)) at_size
      ∙ (drop-written arena.current.mem text at at_le ∙ ap (λ l. text ++ l) (behind ∙ zero_behind))

  pub block_text : until_zero text ≡ text → c_string stored (user_ptr block) ≡ ret text
  unfolding c_string region_at user_ptr take_block
  block_text h =
      rw (region_here stored.current stored.older)
        (ap read_string stored_bytes ∙ read_string-append text (replicate (zeros - 1) 0) h)

  -- The block has the text and the terminating zero, and nothing else.
  pub block_bytes : user_bytes stored.current ≡ text ++ 0 ∷ []
  unfolding user_bytes take_block
  block_bytes =
      ap (take (length text + 1)) stored_bytes ∙ take_terminated text (replicate (zeros - 1) 0)

  pub block-IsValid : IsValid stored.current
  unfolding take_block
  block-IsValid = record {
    within = room;
    room = length-written arena.current.mem text at (omega (arith, valid.room)) ∙ valid.room;
    rest =
        ap (λ n. drop n (written arena.current.mem at text)) mark
        ∙ (drop_more (at + length text) 1 (written arena.current.mem at text)
            ∙ (ap (drop 1) (drop_behind-written arena.current.mem text at at_le)
                ∙ (sym (drop_more (at + length text) 1 arena.current.mem)
                    ∙ (ap (λ n. drop n arena.current.mem) (sym mark)
                        ∙ rest_from arena.current (length text + 1) valid))));
  }

-- A region with room for a block of `size` bytes, the current one or a new one.
abbrev pub region_for : CharArenaAllocator → ℕ → CharArenaAllocator
region_for arena size =
    if ltb arena.current.capacity (arena.current.size + size)
    then push_region arena (region_new (get_region_size size arena.initial_size))
    else arena

pub malloc-region_for :
    (arena : CharArenaAllocator) (size : ℕ)
    → malloc true arena size ≡ (
      take_block (region_for arena size) size,
      some (user_ptr (take_block (region_for arena size) size)),
    )
unfolding malloc
malloc-region_for arena size =
    elim (Bool-cases (ltb arena.current.capacity (arena.current.size + size))) [
      | inl h ↦ rw h refl
      | inr h ↦ rw h refl
    ]

pub region_for-IsValid :
    (arena : CharArenaAllocator) (size : ℕ)
    → IsValid arena.current
    → IsValid (region_for arena size).current
      × ((region_for arena size).current.size + size ≤ (region_for arena size).current.capacity)
unfolding push_region region_new
region_for-IsValid arena size v =
    elim (Bool-cases (ltb arena.current.capacity (arena.current.size + size))) [
      | inl h ↦
          rw h (region_new-IsValid _, omega (arith, get_region_size_le size arena.initial_size))
      | inr h ↦ rw h (v, ltb→le _ _ h)
    ]
