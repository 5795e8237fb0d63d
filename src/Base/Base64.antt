-- ===== src/Base/Base64.antt =====
-- encoding/base64, standard alphabet with padding, as the session and transaction keys use it.
use mathlib.Core.Path.{◌≡◌, refl}
use mathlib.Core.Logic.{◌≢◌}
use Prim.Native.Nat.{ℕ, ◌+◌, ◌-◌, ◌*◌, ◌/◌, ◌%◌, ◌<◌}
use mathlib.Core.List.{[], ◌∷◌}
use native.Mathlib.Omega.{arith}
use mongobouncer.Base.Lists.{All}
use mongobouncer.Base.Tests.{ltb, ◌==◌, if◌then◌else◌}
use mongobouncer.Base.Text.{Text}

symbol : ℕ → ℕ
symbol n =
    if ltb n 26
    then n + b'A'
    else if ltb n 52
    then n - 26 + b'a'
    else if ltb n 62
    then n - 52 + b'0'
    else if n == 62
    then b'+'
    else b'/'

unfoldable pub encode : Text → Text
unfolding symbol
encode [] = []
encode (a ∷ []) = symbol (a / 4) ∷ symbol (a % 4 * 16) ∷ b'=' ∷ b'=' ∷ []
encode (a ∷ b ∷ []) =
    symbol (a / 4) ∷ symbol (a % 4 * 16 + b / 16) ∷ symbol (b % 16 * 4) ∷ b'=' ∷ []
encode (a ∷ b ∷ c ∷ s) =
    symbol (a / 4)
    ∷ symbol (a % 4 * 16 + b / 16)
    ∷ symbol (b % 16 * 4 + c / 64)
    ∷ symbol (c % 64)
    ∷ encode s

abbrev pub IsBytes : Text → Type 0
IsBytes = All (λ c. c < 256)

symbol-injective : (m n : ℕ) → m < 64 → n < 64 → symbol m ≡ symbol n → m ≡ n
unfolding symbol
symbol-injective m n h k e = ground arith

symbol-ne_pad : (m : ℕ) → m < 64 → symbol m ≢ b'='
unfolding symbol
symbol-ne_pad m h e = ground arith

group_one :
    (a a' : ℕ)
    → a < 256
    → a' < 256
    → symbol (a / 4) ≡ symbol (a' / 4)
    → symbol (a % 4 * 16) ≡ symbol (a' % 4 * 16)
    → a ≡ a'
group_one a a' h h' p q = omega (
  arith,
  symbol-injective (a / 4) (a' / 4) (omega arith) (omega arith) p,
  symbol-injective (a % 4 * 16) (a' % 4 * 16) (omega arith) (omega arith) q,
)

group_two :
    (a b a' b' : ℕ)
    → a < 256
    → a' < 256
    → b < 256
    → b' < 256
    → symbol (a / 4) ≡ symbol (a' / 4)
    → symbol (a % 4 * 16 + b / 16) ≡ symbol (a' % 4 * 16 + b' / 16)
    → symbol (b % 16 * 4) ≡ symbol (b' % 16 * 4)
    → (a ≡ a') × (b ≡ b')
group_two a b a' b' h h' k k' p q r =
    let p' = symbol-injective (a / 4) (a' / 4) (omega arith) (omega arith) p in
    let q' =
      symbol-injective (a % 4 * 16 + b / 16) (a' % 4 * 16 + b' / 16) (omega arith) (omega arith)
        q in
    let r' = symbol-injective (b % 16 * 4) (b' % 16 * 4) (omega arith) (omega arith) r in
    (omega arith, omega arith)

group_three :
    (a b c a' b' c' : ℕ)
    → a < 256
    → a' < 256
    → b < 256
    → b' < 256
    → c < 256
    → c' < 256
    → symbol (a / 4) ≡ symbol (a' / 4)
    → symbol (a % 4 * 16 + b / 16) ≡ symbol (a' % 4 * 16 + b' / 16)
    → symbol (b % 16 * 4 + c / 64) ≡ symbol (b' % 16 * 4 + c' / 64)
    → symbol (c % 64) ≡ symbol (c' % 64)
    → (a ≡ a') × (b ≡ b') × (c ≡ c')
group_three a b c a' b' c' h h' k k' l l' p q r t =
    let p' = symbol-injective (a / 4) (a' / 4) (omega arith) (omega arith) p in
    let q' =
      symbol-injective (a % 4 * 16 + b / 16) (a' % 4 * 16 + b' / 16) (omega arith) (omega arith)
        q in
    let r' =
      symbol-injective (b % 16 * 4 + c / 64) (b' % 16 * 4 + c' / 64) (omega arith) (omega arith)
        r in
    let t' = symbol-injective (c % 64) (c' % 64) (omega arith) (omega arith) t in
    (omega arith, omega arith, omega arith)

-- Two byte strings with one encoding are the same.
pub encode-injective : (s t : Text) → IsBytes s → IsBytes t → encode s ≡ encode t → s ≡ t
unfolding encode
encode-injective [] [] v w e = refl
encode-injective [] (b ∷ []) v w e = cc
encode-injective [] (b ∷ c ∷ []) v w e = cc
encode-injective [] (b ∷ c ∷ d ∷ t) v w e = cc
encode-injective (a ∷ []) [] v w e = cc
encode-injective (a ∷ []) (a' ∷ []) v w e = ground (arith, group_one a a')
encode-injective (a ∷ []) (a' ∷ b' ∷ []) v w e =
    absurd (ground (arith, symbol-ne_pad (b' % 16 * 4)))
encode-injective (a ∷ []) (a' ∷ b' ∷ c' ∷ t) v w e =
    absurd (ground (arith, symbol-ne_pad (c' % 64)))
encode-injective (a ∷ b ∷ []) [] v w e = cc
encode-injective (a ∷ b ∷ []) (a' ∷ []) v w e = absurd (ground (arith, symbol-ne_pad (b % 16 * 4)))
encode-injective (a ∷ b ∷ []) (a' ∷ b' ∷ []) v w e = ground (arith, group_two a b a' b')
encode-injective (a ∷ b ∷ []) (a' ∷ b' ∷ c' ∷ t) v w e =
    absurd (ground (arith, symbol-ne_pad (c' % 64)))
encode-injective (a ∷ b ∷ c ∷ s) [] v w e = cc
encode-injective (a ∷ b ∷ c ∷ s) (a' ∷ []) v w e = absurd (ground (arith, symbol-ne_pad (c % 64)))
encode-injective (a ∷ b ∷ c ∷ s) (a' ∷ b' ∷ []) v w e =
    absurd (ground (arith, symbol-ne_pad (c % 64)))
encode-injective (a ∷ b ∷ c ∷ s) (a' ∷ b' ∷ c' ∷ t) v w e =
    ground (arith, group_three a b c a' b' c', encode-injective s t)
