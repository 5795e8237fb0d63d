-- ===== src/Caches/Keys.antt =====
-- The keys of mongo/cursor_cache.go: each cursor of each collection has its own.
use mongobouncer.Base.Affixes.{Free}
use mongobouncer.Base.Decimal.{digits, decimal, value, value-decimal}
use mongobouncer.Base.Lists.{drop}
use mongobouncer.Base.Text.{Text}
use mongobouncer.Base.{
  ℕ, zero, suc, ◌+◌, ◌%◌, ◌/◌, ◌≡◌, sym, ap, ◌∙◌, ◌≢◌, some, [], ◌∷◌, ◌++◌, ltb, arith, Bool-cases,
  inl, inr,
}
use mongobouncer.Caches.{signed, build_key}
use mongobouncer.Command.Bson.{ℤ, pos, negsuc}
use mongobouncer.Parsing.{cut}
use mongobouncer.Parsing.Split.{Free-append, cut-append}

Free-digits : (fuel n : ℕ) → Free b'-' (digits fuel n)
Free-digits zero n = (λ e. omega arith, tt)
Free-digits (suc fuel) n = elim (Bool-cases (ltb n 10)) [
  | inl h ↦ rw h (λ e. omega arith, tt)
  | inr h ↦ rw h (
      Free-append b'-' (digits fuel (n / 10)) ((48 + n % 10) ∷ []) (Free-digits fuel (n / 10))
        (λ e. omega arith, tt))
]

Free-decimal : (n : ℕ) → Free b'-' (decimal n)
unfolding decimal
Free-decimal n = Free-digits n n

decimal-injective : (m n : ℕ) → decimal m ≡ decimal n → m ≡ n
decimal-injective m n h = sym (value-decimal m) ∙ ap (value 0) h ∙ value-decimal n

parts : (m n : ℕ) (c d : Text) → decimal m ++ b'-' ∷ c ≡ decimal n ++ b'-' ∷ d → (m ≡ n) × (c ≡ d)
parts m n c d h =
    let left = cut-append b'-' (decimal m) c (Free-decimal m) in
    let right = cut-append b'-' (decimal n) d (Free-decimal n) in
    let same : (decimal m, some c) ≡ (decimal n, some d) = sym left ∙ ap (cut b'-') h ∙ right in
    (decimal-injective m n (ap (λ x. x.0) same), ground arith)

snoc_ne : (s : Text) (c : ℕ) → s ++ c ∷ [] ≢ []
snoc_ne [] c h = cc
snoc_ne (d ∷ s) c h = cc

digits_ne : (fuel n : ℕ) → digits fuel n ≢ []
digits_ne zero n h = ground arith
digits_ne (suc fuel) n h = ground (arith, snoc_ne (digits fuel (n / 10)) (48 + n % 10))

decimal_front : (n : ℕ) (c d : Text) → decimal n ++ b'-' ∷ c ≢ b'-' ∷ d
unfolding cut decimal
decimal_front n c d h =
    let left = cut-append b'-' (decimal n) c (Free-decimal n) in
    let same : (decimal n, some c) ≡ ([], some d) = sym left ∙ ap (cut b'-') h in
    digits_ne n n (ap (λ x. x.0) same)

-- Two cursors with one key are the same cursor of the same collection.
pub build_key-injective : (i j : ℤ) (c d : Text) → build_key i c ≡ build_key j d → (i ≡ j) × (c ≡ d)
unfolding build_key signed
build_key-injective (pos m) (pos n) c d h = let (e, f) = parts m n c d h in (ap pos e, f)
build_key-injective (pos m) (negsuc n) c d h =
    absurd (decimal_front m c (decimal (suc n) ++ b'-' ∷ d) h)
build_key-injective (negsuc m) (pos n) c d h =
    absurd (decimal_front n d (decimal (suc m) ++ b'-' ∷ c) (sym h))
build_key-injective (negsuc m) (negsuc n) c d h =
    let (e, f) = parts (suc m) (suc n) c d (ap (drop 1) h) in (ground arith, f)
