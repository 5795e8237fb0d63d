-- ===== src/Errors/Capitals.antt =====
-- A pattern with a capital letter is not found in a lowered text.
use mongobouncer.Base.Text.{Text, codes, contains, has_prefix, to_lower, lower_rune}
use mongobouncer.Base.{ℕ, ◌<◌, ◌≤◌, ◌≡◌, refl, ◌≢◌, ◌⊎◌, false, some, List, [], ◌∷◌, ◌++◌, arith}
use mongobouncer.Errors.{
  load_balanced, retryable_before_eof, contains_any, is_retryable_error, get_topology,
}

-- What the standard table gives beyond ASCII is no capital of ASCII.
pub record IsLowering (unicode_lower : ℕ → ℕ) : Type 0 where
  pub lowered : (c : ℕ) → 128 ≤ c → (unicode_lower c < b'A') ⊎ (b'Z' < unicode_lower c)

module _ (unicode_lower : ℕ → ℕ) (l : IsLowering unicode_lower) where
  lower_rune_small : (c d : ℕ) → b'A' ≤ d → d ≤ b'Z' → lower_rune unicode_lower c ≢ d
  unfolding lower_rune
  lower_rune_small c d lo hi e = ground (arith, l.lowered c)

  contains-to_lower :
      (s p : Text) (d : ℕ)
      → b'A' ≤ d
      → d ≤ b'Z'
      → contains (to_lower unicode_lower s) (d ∷ p) ≡ false
  unfolding contains has_prefix to_lower
  contains-to_lower [] p d lo hi = refl
  contains-to_lower (c ∷ s) p d lo hi =
      ground (arith, contains-to_lower s p d lo hi, lower_rune_small c d lo hi)

  contains_any-append :
      (s p : Text) (ps qs : List Text)
      → contains s p ≡ false
      → contains_any s (ps ++ p ∷ qs) ≡ contains_any s (ps ++ qs)
  unfolding contains_any
  contains_any-append s p [] qs h = ground arith
  contains_any-append s p (x ∷ ps) qs h = ground (arith, contains_any-append s p ps qs h)

  -- Where lowering gives no capital letter of ASCII, the pattern "EOF" never makes an error
  -- retryable: the message that is searched is in lower case, so that an error is retryable
  -- exactly if it contains one of the other patterns.
  pub is_retryable_error-no_eof :
      (message : Text)
      → is_retryable_error unicode_lower (some message)
        ≡ contains_any
            (to_lower unicode_lower message)
            (retryable_before_eof ++ codes "socket was unexpectedly closed" ∷ [])
  unfolding is_retryable_error
  is_retryable_error-no_eof message =
      contains_any-append (to_lower unicode_lower message) (codes "EOF") retryable_before_eof
        (codes "socket was unexpectedly closed" ∷ [])
        (contains-to_lower message (codes "OF") b'E' (omega arith) (omega arith))

  lower_ne :
      (s t : Text) (d : ℕ) (rest : Text)
      → b'A' ≤ d
      → d ≤ b'Z'
      → to_lower unicode_lower s ≢ t ++ d ∷ rest
  unfolding to_lower
  lower_ne [] [] d rest lo hi e = cc
  lower_ne [] (x ∷ t) d rest lo hi e = cc
  lower_ne (c ∷ s) [] d rest lo hi e = ground (arith, lower_rune_small c d lo hi)
  lower_ne (c ∷ s) (x ∷ t) d rest lo hi e = ground (arith, lower_ne s t d rest lo hi)

  -- Where lowering gives no capital letter of ASCII, no name gives the load-balanced topology:
  -- the name is lowered before it is compared.
  pub get_topology_not_balanced :
      (topology : Text) → get_topology unicode_lower topology ≢ some load_balanced
  unfolding get_topology
  get_topology_not_balanced topology e =
      ground
        (arith, lower_ne topology (codes "load") b'B' (codes "alanced") (omega arith) (omega arith))
