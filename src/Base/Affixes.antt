-- ===== src/Base/Affixes.antt =====
-- Laws of the prefixes, suffixes and trims of Base/Text.
use mathlib.Core.Path.{◌≡◌, refl, ap, ◌∙◌}
use mathlib.Core.Logic.{◌≢◌}
use mathlib.Core.Bool.{true, false}
use mathlib.Core.List.{[], ◌∷◌, ◌++◌, reverse, reverse-append, reverse-reverse, reverse-cons}
use Prim.Native.Nat.{ℕ, suc, ◌-◌}
use native.Mathlib.Omega.{arith}
use mongobouncer.Base.Lists.{length, drop, length-append, All}
use mongobouncer.Base.Tests.{◌==◌}
use mongobouncer.Base.Text.{
  Text, has_prefix, has_suffix, contains, trim_left, trim, trim_prefix, trim_suffix,
}

-- The text has no code point `c`.
abbrev pub Free : ℕ → Text → Type 0
Free c = All (λ d. d ≢ c)

pub has_prefix_self : (s t : Text) → has_prefix (s ++ t) s ≡ true
unfolding has_prefix
has_prefix_self [] t = refl
has_prefix_self (c ∷ s) t = ground (arith, has_prefix_self s t)

drop-append : (s t : Text) → drop (length s) (s ++ t) ≡ t
drop-append [] t = refl
drop-append (c ∷ s) t = drop-append s t

pub has_suffix_one : (s : Text) (d c : ℕ) → has_suffix (s ++ d ∷ []) (c ∷ []) ≡ (d == c)
unfolding has_suffix
has_suffix_one s d c =
    let size = length-append s (d ∷ []) in
    let e : length (s ++ d ∷ []) - 1 ≡ length s = omega arith in
    rw (e, drop-append s (d ∷ [])) (ground arith)

pub contains-append : (c : ℕ) (s t : Text) → contains (s ++ c ∷ t) (c ∷ []) ≡ true
unfolding contains has_prefix
contains-append c [] t = ground arith
contains-append c (d ∷ s) t = ground (arith, contains-append c s t)

pub contains_free : (c : ℕ) (s : Text) → Free c s → contains s (c ∷ []) ≡ false
unfolding contains has_prefix
contains_free c [] f = refl
contains_free c (d ∷ s) f = ground (arith, contains_free c s f.1)

-- A text with no `c` does not end in one.
pub has_suffix_free : (c : ℕ) (s : Text) → Free c s → has_suffix s (c ∷ []) ≡ false
unfolding has_suffix
has_suffix_free c [] f = refl
has_suffix_free c (d ∷ []) f = ground arith
has_suffix_free c (d ∷ e ∷ s) f = ground (arith, has_suffix_free c (e ∷ s) f.1)

pub has_suffix-cons :
    (c d e : ℕ) (s : Text) → has_suffix (d ∷ e ∷ s) (c ∷ []) ≡ has_suffix (e ∷ s) (c ∷ [])
unfolding has_suffix
has_suffix-cons c d e s =
    let longer : suc (suc (length s)) - 1 ≡ suc (length s) = omega arith in
    let shorter : suc (length s) - 1 ≡ length s = omega arith in rw (longer, shorter) (ground arith)

trim_left_free : (c : ℕ) (s : Text) → Free c s → trim_left c s ≡ s
unfolding trim_left
trim_left_free c [] f = refl
trim_left_free c (d ∷ s) f = ground arith

Free-append : (c : ℕ) (s t : Text) → Free c s → Free c t → Free c (s ++ t)
Free-append c [] t f g = g
Free-append c (d ∷ s) t f g = (f.0, Free-append c s t f.1 g)

Free-reverse : (c : ℕ) (s : Text) → Free c s → Free c (reverse s)
Free-reverse c [] f = tt
Free-reverse c (d ∷ s) f =
    rw (reverse-cons d s) (Free-append c (reverse s) (d ∷ []) (Free-reverse c s f.1) (f.0, tt))

pub trim_prefix-cons : (c : ℕ) (s : Text) → trim_prefix c (c ∷ s) ≡ s
unfolding trim_prefix
trim_prefix-cons c s = ground arith

pub trim_suffix-append : (c : ℕ) (s : Text) → trim_suffix c (s ++ c ∷ []) ≡ s
unfolding trim_suffix
trim_suffix-append c [] = ground arith
trim_suffix-append c (d ∷ []) = ground arith
trim_suffix-append c (d ∷ e ∷ s) = ap (◌∷◌ d) (trim_suffix-append c (e ∷ s))

trim_left-cons : (c : ℕ) (s : Text) → trim_left c (c ∷ s) ≡ trim_left c s
unfolding trim_left
trim_left-cons c s = ground arith

trim_left_stop : (c d : ℕ) (s : Text) → d ≢ c → trim_left c (c ∷ d ∷ s) ≡ d ∷ s
unfolding trim_left
trim_left_stop c d s h = ground arith

pub trim_around : (c : ℕ) (s : Text) → Free c s → trim c (c ∷ s ++ c ∷ []) ≡ s
unfolding trim trim_left
trim_around c [] f = ground arith
trim_around c (d ∷ s) f =
    let first = trim_left_stop c d (s ++ c ∷ []) f.0 in
    let second = reverse-append (d ∷ s) (c ∷ []) in
    let third = trim_left_free c (reverse (d ∷ s)) (Free-reverse c (d ∷ s) f) in
    ap reverse (ap (trim_left c) (ap reverse first ∙ second) ∙ trim_left-cons c _ ∙ third)
    ∙ reverse-reverse (d ∷ s)
