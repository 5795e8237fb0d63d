-- ===== src/Base/Text.antt =====
-- Go's strings as lists of code points, and what the program uses of the package `strings`.
use Prim.Native.Nat.{ℕ, ◌+◌, ◌-◌}
use Prim.Native.Char.{code}
use Prim.Native.String.{String}
use mathlib.Core.Path.{◌≡◌, refl, ap₂}
use mathlib.Core.Logic.{ite}
use mathlib.Core.Bool.{Bool, true, false, ◌&&◌, ◌||◌}
use mathlib.Core.List.{List, [], ◌∷◌, reverse}
use native.Mathlib.Decide.{ℕ_discrete}
use native.Mathlib.Omega.{arith}
use mongobouncer.Base.Tests.{leb, ◌==◌, if◌then◌else◌}
use mongobouncer.Base.Lists.{length, drop}

abbrev pub Text : Type 0
Text = List ℕ

-- The code points of a literal.
abbrev pub codes : String → Text
codes String.[] = []
codes (String.◌∷◌ c s) = code c ∷ codes s

text_discrete_proof : Discrete Text
unfolding ℕ_discrete
text_discrete_proof = hlevel ℕ_discrete

unfoldable pub text_discrete : Discrete Text
unfolding text_discrete_proof
text_discrete = text_discrete_proof

abbrev pub text_eq : Text → Text → Bool
text_eq a b = ite (text_discrete a b) true false

-- strings.HasPrefix
unfoldable pub has_prefix : Text → Text → Bool
has_prefix s [] = true
has_prefix [] (p ∷ ps) = false
has_prefix (c ∷ s) (p ∷ ps) = (c == p) && has_prefix s ps

-- strings.HasSuffix
unfoldable pub has_suffix : Text → Text → Bool
has_suffix s p = leb (length p) (length s) && text_eq (drop (length s - length p) s) p

-- strings.Contains
unfoldable pub contains : Text → Text → Bool
unfolding has_prefix
contains [] p = has_prefix [] p
contains (c ∷ s) p = has_prefix (c ∷ s) p || contains s p

-- strings.TrimLeft with a cutset of one code point
unfoldable pub trim_left : ℕ → Text → Text
trim_left c [] = []
trim_left c (d ∷ s) = let rest = trim_left c s in if d == c then rest else d ∷ s

-- strings.Trim with a cutset of one code point
unfoldable pub trim : ℕ → Text → Text
unfolding trim_left
trim c s = reverse (trim_left c (reverse (trim_left c s)))

-- strings.TrimPrefix with a prefix of one code point
unfoldable pub trim_prefix : ℕ → Text → Text
trim_prefix c [] = []
trim_prefix c (d ∷ s) = if d == c then s else d ∷ s

-- strings.TrimSuffix with a suffix of one code point
unfoldable pub trim_suffix : ℕ → Text → Text
trim_suffix c [] = []
trim_suffix c (d ∷ []) = if d == c then [] else d ∷ []
trim_suffix c (d ∷ e ∷ s) = d ∷ trim_suffix c (e ∷ s)

-- strings.ToLower; `unicode_lower` is the standard table beyond ASCII.
module _ (unicode_lower : ℕ → ℕ) where
  unfoldable pub lower_rune : ℕ → ℕ
  lower_rune c =
      if leb 128 c then unicode_lower c else if leb b'A' c && leb c b'Z' then c + 32 else c

  unfoldable pub to_lower : Text → Text
  unfolding lower_rune
  to_lower [] = []
  to_lower (c ∷ s) = lower_rune c ∷ to_lower s

  module _ (settled : (c : ℕ) → lower_rune (unicode_lower c) ≡ unicode_lower c) where
    lower_rune-lower_rune : (c : ℕ) → lower_rune (lower_rune c) ≡ lower_rune c
    unfolding lower_rune
    lower_rune-lower_rune c = ground (arith, settled c)

    -- Lowering a text twice is lowering it once.
    pub to_lower-to_lower : (s : Text) → to_lower (to_lower s) ≡ to_lower s
    unfolding to_lower
    to_lower-to_lower [] = refl
    to_lower-to_lower (c ∷ s) = ap₂ (◌∷◌) (lower_rune-lower_rune c) (to_lower-to_lower s)
