-- ===== src/Backend/Dimensions/Split.antt =====
-- The array dimensions of a text are the numbers of its parts between commas.
use open62541_nodeset_loader.Base.{
  ℕ, ◌+◌, ◌-◌, ◌*◌, ◌≡◌, ◌≢◌, refl, sym, ap, ◌∙◌, arith, true, false, List, [], ◌∷◌, ◌==◌,
  Bool-cases, inl, inr, Exec, ret, ◌>>=◌,
}
use open62541_nodeset_loader.Ua.{Text}
use open62541_nodeset_loader.Build.Fields.{atoi, skip_spaces, signed, digits, is_space, is_digit}
use open62541_nodeset_loader.Backend.Dimensions.{atoi_u32, dimensions_behind, get_array_dimensions}

-- The parts of a text between commas, the first one apart.
unfoldable pub first_part : Text → Text
first_part [] = []
first_part (c ∷ s) = elim (c == 44) [ true ↦ [] | false ↦ c ∷ first_part s ]

unfoldable pub other_parts : Text → List Text
unfolding first_part
other_parts [] = []
other_parts (c ∷ s) = elim (c == 44) [ true ↦ first_part s ∷ other_parts s | false ↦ other_parts s ]

abbrev pub numbers : List Text → Exec (List ℕ)
numbers [] = ret []
numbers (part ∷ parts) = atoi_u32 part >>= λ n. (numbers parts >>= λ rest. ret (n ∷ rest))

comma_no_digit : (c : ℕ) → (c == 44) ≡ true → is_digit c ≡ false
comma_no_digit c h = ground arith

comma_no_space : (c : ℕ) → (c == 44) ≡ true → is_space c ≡ false
comma_no_space c h = ground arith

comma_no_sign : (c : ℕ) → (c == 44) ≡ true → ((c == 45) ≡ false) × ((c == 43) ≡ false)
comma_no_sign c h = ground arith

first_part_comma : (c : ℕ) (s : Text) → (c == 44) ≡ true → first_part (c ∷ s) ≡ []
unfolding first_part
first_part_comma c s e = rw (e, first_part) refl

first_part_other : (c : ℕ) (s : Text) → (c == 44) ≡ false → first_part (c ∷ s) ≡ c ∷ first_part s
unfolding first_part
first_part_other c s e = rw (e, first_part) refl

first_part_nil : first_part [] ≡ []
unfolding first_part
first_part_nil = refl

digits-first_part : (read : ℕ) (s : Text) → digits read (first_part s) ≡ digits read s
unfolding digits
digits-first_part read [] = rw first_part_nil refl
digits-first_part read (c ∷ s) = elim (Bool-cases (c == 44)) [
  | inl e ↦ rw (first_part_comma c s e) (rw (comma_no_digit c e) refl)
  | inr e ↦ rw (first_part_other c s e) (rw (digits-first_part (read * 10 + (c - 48)) s) refl)
]

skip_spaces-first_part : (s : Text) → skip_spaces (first_part s) ≡ first_part (skip_spaces s)
unfolding skip_spaces
skip_spaces-first_part [] = rw first_part_nil refl
skip_spaces-first_part (c ∷ s) = elim (Bool-cases (c == 44)) [
  | inl e ↦ rw (first_part_comma c s e) (rw (comma_no_space c e) (sym (first_part_comma c s e)))
  | inr e ↦ rw (first_part_other c s e) (elim (Bool-cases (is_space c)) [
    | inl b ↦ rw b (skip_spaces-first_part s)
    | inr b ↦ rw b (sym (first_part_other c s e))
  ])
]

no_digits : (c : ℕ) (s : Text) → (c == 44) ≡ true → digits 0 (c ∷ s) ≡ 0
unfolding digits
no_digits c s e = rw (comma_no_digit c e) refl

signed-first_part : (s : Text) → signed (first_part s) ≡ signed s
unfolding signed
signed-first_part [] = rw first_part_nil refl
signed-first_part (c ∷ s) = elim (Bool-cases (c == 44)) [
  | inl e ↦
      rw (first_part_comma c s e)
        (rw ((comma_no_sign c e).0) (rw ((comma_no_sign c e).1) (rw (no_digits c s e) refl)))
  | inr e ↦ rw (first_part_other c s e) (
      rw (digits-first_part 0 s)
        (rw (sym (ap (digits 0) (first_part_other c s e))) (rw (digits-first_part 0 (c ∷ s)) refl)))
]

atoi_u32-first_part : (s : Text) → atoi_u32 (first_part s) ≡ atoi_u32 s
unfolding atoi_u32 atoi
atoi_u32-first_part s = rw (skip_spaces-first_part s) (rw (signed-first_part (skip_spaces s)) refl)

behind_comma :
    (c : ℕ) (s : Text)
    → (c == 44) ≡ true
    → dimensions_behind (c ∷ s)
      ≡ (atoi_u32 s >>= λ n. (dimensions_behind s >>= λ rest. ret (n ∷ rest)))
unfolding dimensions_behind
behind_comma c s e = rw (e, dimensions_behind) refl

behind_other :
    (c : ℕ) (s : Text) → (c == 44) ≡ false → dimensions_behind (c ∷ s) ≡ dimensions_behind s
unfolding dimensions_behind
behind_other c s e = rw (e, dimensions_behind) refl

parts_comma :
    (c : ℕ) (s : Text) → (c == 44) ≡ true → other_parts (c ∷ s) ≡ first_part s ∷ other_parts s
unfolding other_parts
parts_comma c s e = rw (e, other_parts) refl

parts_other : (c : ℕ) (s : Text) → (c == 44) ≡ false → other_parts (c ∷ s) ≡ other_parts s
unfolding other_parts
parts_other c s e = rw (e, other_parts) refl

behind_nil : dimensions_behind [] ≡ numbers (other_parts [])
unfolding dimensions_behind other_parts
behind_nil = refl

dimensions_behind-other_parts : (s : Text) → dimensions_behind s ≡ numbers (other_parts s)
dimensions_behind-other_parts [] = behind_nil
dimensions_behind-other_parts (c ∷ s) = elim (Bool-cases (c == 44)) [
  | inl e ↦ rw (behind_comma c s e) (
      rw (parts_comma c s e)
        (rw (atoi_u32-first_part s) (rw (dimensions_behind-other_parts s) refl)))
  | inr e ↦
      behind_other c s e ∙ (dimensions_behind-other_parts s ∙ ap numbers (sym (parts_other c s e)))
]

-- A text that is not empty gives the numbers of its parts between commas, in order, and a fault if
-- one of them does not fit into an `int`.
pub get_array_dimensions-numbers :
    (s : Text) → s ≢ [] → get_array_dimensions s ≡ numbers (first_part s ∷ other_parts s)
unfolding get_array_dimensions
get_array_dimensions-numbers [] h = absurd (h refl)
get_array_dimensions-numbers (c ∷ s) h =
    rw (atoi_u32-first_part (c ∷ s)) (rw (dimensions_behind-other_parts (c ∷ s)) refl)
