-- ===== src/Backend/Dimensions.antt =====
-- `getArrayDimensions` of backends/open62541/src/import.c, and the casts of `atoi`'s result.
pub mod Split
use open62541_nodeset_loader.Base.{
  ℕ, zero, suc, ◌+◌, ◌-◌, ◌%◌, ◌^◌, Bool, true, false, List, [], ◌∷◌, length, ltb, ◌==◌, ◌&&◌, not,
  if◌then◌else◌, Exec, ret, ◌>>=◌,
}
use open62541_nodeset_loader.Ua.{Text}
use open62541_nodeset_loader.Node.{CInt}
use open62541_nodeset_loader.Build.Fields.{atoi}

-- A cast of an `int` to an unsigned type of `w` bits.
unfoldable pub to_unsigned : ℕ → CInt → ℕ
to_unsigned w n = if n.negative then (2 ^ w - n.magnitude % 2 ^ w) % 2 ^ w else n.magnitude % 2 ^ w

-- `(UA_UInt32)atoi(s)` and `(UA_Byte)atoi(s)`
unfoldable pub atoi_u32 : Text → Exec ℕ
unfolding to_unsigned
atoi_u32 s = atoi s >>= λ n. ret (to_unsigned 32 n)

unfoldable pub atoi_byte : Text → Exec ℕ
unfolding to_unsigned
atoi_byte s = atoi s >>= λ n. ret (to_unsigned 8 n)

-- The loop: `strchr` finds the next comma, and the number behind it is appended.
unfoldable pub dimensions_behind : Text → Exec (List ℕ)
unfolding atoi_u32
dimensions_behind [] = ret []
dimensions_behind (c ∷ s) = elim (c == 44) [
  | true ↦ atoi_u32 s >>= λ n. (dimensions_behind s >>= λ rest. ret (n ∷ rest))
  | false ↦ dimensions_behind s
]

-- No dimensions, and so a NULL pointer, for an empty text.
unfoldable pub get_array_dimensions : Text → Exec (List ℕ)
unfolding dimensions_behind
get_array_dimensions [] = ret []
get_array_dimensions (c ∷ s) =
    atoi_u32 (c ∷ s) >>= λ n. (dimensions_behind (c ∷ s) >>= λ rest. ret (n ∷ rest))
