-- ===== src/Errors/Tests.antt =====
-- The decisions on texts of mongo/mongo.go and util/helpers.go at concrete texts.
use mongobouncer.Base.Text.{codes, to_lower}
use mongobouncer.Base.{ℕ, ◌≡◌, inr, some, [], ◌∷◌, ◌++◌, arith}
use mongobouncer.Errors.Capitals.{IsLowering, is_retryable_error-no_eof}
use mongobouncer.Errors.{retryable_before_eof, contains_any, is_retryable_error}

abbrev keep_rune : ℕ → ℕ
keep_rune c = c

abbrev keeps : IsLowering keep_rune
keeps = record { lowered = λ c h. inr (omega arith) }

is_retryable_error-no_eof_example :
    is_retryable_error keep_rune (some (codes "unexpected EOF"))
    ≡ contains_any
        (to_lower keep_rune (codes "unexpected EOF"))
        (retryable_before_eof ++ codes "socket was unexpectedly closed" ∷ [])
is_retryable_error-no_eof_example =
    is_retryable_error-no_eof keep_rune keeps (codes "unexpected EOF")
