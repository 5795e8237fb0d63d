-- ===== src/Wire/Bytes/RoundTrip.antt =====
-- The int32s and strings of mongo/operations.go, read back.
use mathlib.Core.List.{append_assoc}
use mongobouncer.Base.Lists.{length}
use mongobouncer.Base.{
  ℕ, ◌+◌, ◌^◌, ◌<◌, ◌≡◌, refl, some, [], ◌∷◌, ◌++◌, arith, Option-cases, inl, inr, ap,
}
use mongobouncer.Wire.Bytes.{Bytes, HasNoZero, append_i32, append_cstring, read_i32, read_cstring}

pub append_i32-split : (dst : Bytes) (w : ℕ) → append_i32 dst w ≡ dst ++ append_i32 [] w
unfolding append_i32
append_i32-split dst w = refl

pub append_cstring-split : (b str : Bytes) → append_cstring b str ≡ b ++ append_cstring [] str
unfolding append_cstring
append_cstring-split b str = append_assoc b str (0 ∷ [])

pub read-append_i32 :
    (w : ℕ) (rest : Bytes) → w < 2 ^ 32 → read_i32 (append_i32 [] w ++ rest) ≡ some (w, rest)
unfolding read_i32 append_i32
read-append_i32 w rest h = ap (λ n. some (n, rest)) (omega arith)

pub read_i32-length :
    (src : Bytes) (w : ℕ) (rest : Bytes)
    → read_i32 src ≡ some (w, rest)
    → length rest + 4 ≡ length src
unfolding read_i32
read_i32-length (a ∷ b ∷ c ∷ d ∷ src) w rest e = ground arith
read_i32-length (a ∷ b ∷ c ∷ []) w rest e = ground arith
read_i32-length (a ∷ b ∷ []) w rest e = ground arith
read_i32-length (a ∷ []) w rest e = ground arith
read_i32-length [] w rest e = ground arith

pub read-append_cstring :
    (str rest : Bytes)
    → HasNoZero str
    → read_cstring (append_cstring [] str ++ rest) ≡ some (str, rest)
unfolding read_cstring append_cstring
read-append_cstring [] rest h = refl
read-append_cstring (b ∷ str) rest h = ground (arith, read-append_cstring str rest h.1)

pub read_cstring-length :
    (src str rest : Bytes)
    → read_cstring src ≡ some (str, rest)
    → length rest + length str + 1 ≡ length src
unfolding read_cstring
read_cstring-length [] str rest e = ground arith
read_cstring-length (b ∷ src) str rest e = elim (Option-cases (read_cstring src)) [
  | inl missing ↦ ground arith
  | inr ((found, left), read) ↦ ground (arith, read_cstring-length src found left read)
]
