-- ===== src/Base/Decimal.antt =====
-- The decimal text of a number, as fmt.Sprintf("%d", n) prints it.
use mathlib.Core.Path.{◌≡◌, refl}
use mongobouncer.Base.Text.{Text}
use Prim.Native.Nat.{ℕ, zero, suc, ◌+◌, ◌-◌, ◌*◌, ◌/◌, ◌%◌, ◌≤◌}
use mathlib.Core.List.{[], ◌∷◌, ◌++◌}
use native.Mathlib.Omega.{arith}
use mongobouncer.Base.Tests.{ltb, if◌then◌else◌}

abbrev pub digits : ℕ → ℕ → Text
digits zero n = (48 + n) ∷ []
digits (suc fuel) n =
    let rest = digits fuel (n / 10) in
    if ltb n 10 then (48 + n) ∷ [] else rest ++ (48 + n % 10) ∷ []

unfoldable pub decimal : ℕ → Text
decimal n = digits n n

-- The number that a text of digits stands for, read after `n`.
abbrev pub value : ℕ → Text → ℕ
value n [] = n
value n (c ∷ s) = value (n * 10 + (c - 48)) s

value-append : (n : ℕ) (s t : Text) → value n (s ++ t) ≡ value (value n s) t
value-append n [] t = refl
value-append n (c ∷ s) t = value-append (n * 10 + (c - 48)) s t

value-digits : (fuel n : ℕ) → n ≤ fuel → value 0 (digits fuel n) ≡ n
value-digits zero n h = omega arith
value-digits (suc fuel) n h =
    ground (
      arith,
      value-append 0 (digits fuel (n / 10)) ((48 + n % 10) ∷ []),
      value-digits fuel (n / 10),
    )

-- The text of a number reads back as the number.
pub value-decimal : (n : ℕ) → value 0 (decimal n) ≡ n
unfolding decimal
value-decimal n = value-digits n n (omega arith)
