-- ===== src/Router/Patterns.antt =====
-- The patterns of proxy/router.go: a star at the front, at the end or at both.
use mongobouncer.Base.Affixes.{
  Free, has_suffix_one, has_suffix_free, has_suffix-cons, contains-append, trim_prefix-cons,
  trim_suffix-append, trim_around,
}
use mongobouncer.Base.Lists.{length, length-append}
use mongobouncer.Base.Text.{Text, text_eq, text_discrete, has_prefix, has_suffix, contains}
use mongobouncer.Base.{
  ℕ, ◌<◌, if_neg, ◌≡◌, refl, ap, Bool, true, false, Option, [], ◌∷◌, ◌++◌, arith,
}
use mongobouncer.Router.{
  PatternType, prefix_match, suffix_match, contains_match, star, is_star, classify, matches_pattern,
  display,
}

-- The patterns that a text with no star makes with a star at either end.
pub data Shape : Type 0 where
  ends starts around : Shape

unfoldable pub glob : Shape → Text → Text
glob ends s = s ++ star ∷ []
glob starts s = star ∷ s
glob around s = star ∷ s ++ star ∷ []

-- What such a pattern asks of a name.
unfoldable pub accepts : Shape → Text → Text → Bool
accepts ends s name = has_prefix name s
accepts starts s name = has_suffix name s
accepts around s name = contains name s

abbrev type_of : Shape → PatternType
type_of ends = prefix_match
type_of starts = suffix_match
type_of around = contains_match

pub contains-glob : (shape : Shape) (s : Text) → contains (glob shape s) (star ∷ []) ≡ true
unfolding glob
contains-glob ends s = contains-append star s []
contains-glob starts s = contains-append star [] s
contains-glob around s = contains-append star [] (s ++ star ∷ [])

-- It is not the lone star.
pub is_star-glob : (shape : Shape) (c : ℕ) (s : Text) → is_star (glob shape (c ∷ s)) ≡ false
unfolding glob
is_star-glob ends c [] = ground arith
is_star-glob ends c (d ∷ s) = ground arith
is_star-glob starts c s = ground arith
is_star-glob around c s = ground arith

longer-ne : (s t : Text) → length s < length t → text_eq s t ≡ false
longer-ne s t h = elim (text_discrete s t) [
  | yes e ↦ let same = ap length e in absurd (omega arith)
  | no n ↦ if_neg (text_discrete s t) n true false
]

-- What is stored for it is another text.
pub glob-ne : (shape : Shape) (s : Text) → text_eq s (glob shape s) ≡ false
unfolding glob
glob-ne ends s = longer-ne s (s ++ star ∷ []) (omega (arith, length-append s (star ∷ [])))
glob-ne starts s = longer-ne s (star ∷ s) (omega arith)
glob-ne around s = longer-ne s (star ∷ s ++ star ∷ []) (omega (arith, length-append s (star ∷ [])))

module _ {R : Type 0} where
  -- How such a pattern is stored: by what stands between the stars.
  pub classify-glob :
      (shape : Shape) (c : ℕ) (s : Text) (config : R)
      → Free star (c ∷ s)
      → classify (glob shape (c ∷ s)) config
        ≡ record { pattern = c ∷ s; pattern_type = type_of shape; route_config = config }
  unfolding classify glob has_prefix
  classify-glob ends c s config f =
      ground (arith, has_suffix_one (c ∷ s) star star, trim_suffix-append star (c ∷ s))
  classify-glob starts c s config f = ground (
    arith,
    has_suffix-cons star star c s,
    has_suffix_free star (c ∷ s) f,
    trim_prefix-cons star (c ∷ s),
  )
  classify-glob around c s config f =
      ground (arith, has_suffix_one (star ∷ c ∷ s) star star, trim_around star (c ∷ s) f)

  -- A pattern with its stars at the ends is listed as it was given, in lower case.
  pub display-classify :
      (shape : Shape) (c : ℕ) (s : Text) (config : R)
      → Free star (c ∷ s)
      → display (classify (glob shape (c ∷ s)) config) ≡ glob shape (c ∷ s)
  unfolding display glob
  display-classify ends c s config f = rw (classify-glob ends c s config f) refl
  display-classify starts c s config f = rw (classify-glob starts c s config f) refl
  display-classify around c s config f = rw (classify-glob around c s config f) refl

  -- A pattern with its stars at the ends matches the names that begin with, end with or contain
  -- what stands beside the stars.
  pub matches_pattern-classify :
      (match_regexp : Text → Text → Option Bool) (shape : Shape) (c : ℕ) (s name : Text)
      (config : R)
      → Free star (c ∷ s)
      → matches_pattern match_regexp name (classify (glob shape (c ∷ s)) config)
        ≡ accepts shape (c ∷ s) name
  unfolding matches_pattern glob accepts
  matches_pattern-classify m ends c s name config f = rw (classify-glob ends c s config f) refl
  matches_pattern-classify m starts c s name config f = rw (classify-glob starts c s config f) refl
  matches_pattern-classify m around c s name config f = rw (classify-glob around c s config f) refl
