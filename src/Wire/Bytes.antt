-- ===== src/Wire/Bytes.antt =====
-- The helpers at the end of mongo/operations.go: int32s in little-endian order and strings that
-- end with a zero byte. An int32 is its bit pattern, below 2 ^ 32.
pub mod RoundTrip
use Prim.Native.Nat.{◌^◌}
use mongobouncer.Base.Lists.{All}
use mongobouncer.Base.{
  ℕ, ◌+◌, ◌*◌, ◌/◌, ◌%◌, ◌<◌, ◌≢◌, ◌==◌, Option, none, some, List, [], ◌∷◌, ◌++◌, if◌then◌else◌,
}

abbrev pub Bytes : Type 0
Bytes = List ℕ

-- Bytes that can stand in a string that ends with a zero byte.
abbrev pub HasNoZero : Bytes → Type 0
HasNoZero = All (λ b. b ≢ 0)

unfoldable pub append_i32 : Bytes → ℕ → Bytes
append_i32 dst w =
    dst ++ (w % 256 ∷ (w / 256) % 256 ∷ (w / 65_536) % 256 ∷ (w / 16_777_216) % 256 ∷ [])

unfoldable pub append_cstring : Bytes → Bytes → Bytes
append_cstring b str = (b ++ str) ++ (0 ∷ [])

-- The shifted bytes have no bit in common, so that `|` is `+`.
unfoldable pub read_i32 : Bytes → Option (ℕ × Bytes)
read_i32 (a ∷ b ∷ c ∷ d ∷ rest) = some ((a + b * 256 + c * 65_536 + d * 16_777_216) % 2 ^ 32, rest)
read_i32 src = none

unfoldable pub read_cstring : Bytes → Option (Bytes × Bytes)
read_cstring [] = none
read_cstring (b ∷ src) =
    if b == 0
    then some ([], src)
    else elim (read_cstring src) [ some (str, rest) ↦ some (b ∷ str, rest) | none ↦ none ]
