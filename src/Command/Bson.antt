-- ===== src/Command/Bson.antt =====
-- What mongo/command.go asks of the BSON library about the value under a key of a document.
use mongobouncer.Base.Text.{Text}
use mongobouncer.Base.{ℕ, ◌≡◌, Bool, true, Option, some}

-- Numbers with a sign; `negsuc n` is -1 - n.
pub data ℤ : Type 0 where
  pos negsuc : ℕ → ℤ

-- The lookups: a string, any value, an int32, a boolean.
pub record Document (D : Type 0) : Type 0 where
  pub string_at : D → Text → Option Text
  pub present_at : D → Text → Bool
  pub int32_at : D → Text → Option ℤ
  pub boolean_at : D → Text → Option Bool

-- A string is a value.
pub record IsTyped {D : Type 0} (doc : Document D) : Type 0 where
  pub string_present :
      (d : D) (key s : Text) → doc.string_at d key ≡ some s → doc.present_at d key ≡ true
