-- ===== src/Parsing/Split.antt =====
-- What the splits of util/parsing.go give for a text that was put together from parts.
use mongobouncer.Base.Affixes.{Free}
use mongobouncer.Base.Text.{Text, codes, has_prefix}
use mongobouncer.Base.{ℕ, ◌≡◌, refl, none, some, [], ◌∷◌, ◌++◌, arith}
use mongobouncer.Parsing.{push, split, cut, cut_text}

pub Free-append : (c : ℕ) (s t : Text) → Free c s → Free c t → Free c (s ++ t)
Free-append c [] t f g = g
Free-append c (d ∷ s) t f g = (f.0, Free-append c s t f.1 g)

pub split_free : (c : ℕ) (s : Text) → Free c s → split c s ≡ s ∷ []
unfolding split push
split_free c [] f = refl
split_free c (d ∷ s) f = ground (arith, split_free c s f.1, f.0)

pub split-append : (c : ℕ) (s t : Text) → Free c s → split c (s ++ c ∷ t) ≡ s ∷ split c t
unfolding split push
split-append c [] t f = ground arith
split-append c (d ∷ s) t f = ground (arith, split-append c s t f.1, f.0)

pub cut_free : (c : ℕ) (s : Text) → Free c s → cut c s ≡ (s, none)
unfolding cut
cut_free c [] f = refl
cut_free c (d ∷ s) f = ground (arith, cut_free c s f.1, f.0)

pub cut-append : (c : ℕ) (s t : Text) → Free c s → cut c (s ++ c ∷ t) ≡ (s, some t)
unfolding cut
cut-append c [] t f = ground arith
cut-append c (d ∷ s) t f = ground (arith, cut-append c s t f.1, f.0)

pub cut_text-append :
    (s t : Text) → Free b':' s → cut_text (codes "://") (s ++ codes "://" ++ t) ≡ (s, some t)
unfolding cut_text has_prefix
cut_text-append [] t f = refl
cut_text-append (d ∷ s) t f = ground (arith, cut_text-append s t f.1, f.0)

-- A text with no slash has no "://" in it.
pub cut_text_free : (s : Text) → Free b'/' s → cut_text (codes "://") s ≡ (s, none)
unfolding cut_text has_prefix
cut_text_free [] f = refl
cut_text_free (d ∷ []) f = ground arith
cut_text_free (d ∷ e ∷ s) f = ground (arith, cut_text_free (e ∷ s) f.1, f.1.0)
