-- ===== src/Connection/Tracking.antt =====
-- The database that proxy/connection.go tracks over repeated looks at one operation.
use mongobouncer.Base.Text.{Text, codes}
use mongobouncer.Base.{ℕ, ◌≡◌, refl, ap, Bool, true, false, [], ◌∷◌, if◌then◌else◌}
use mongobouncer.Connection.Names.{
  or_else, operation_database, fallback_database, extract_database_name,
}
use mongobouncer.Connection.State.{Connection, Request}
use mongobouncer.Parsing.{normalize_database_name}

or_else-or_else : (s t : Text) → or_else (or_else s t) t ≡ or_else s t
unfolding or_else
or_else-or_else [] [] = refl
or_else-or_else [] (c ∷ t) = refl
or_else-or_else (c ∷ s) t = refl

-- The name that is found, with the name that is fallen back on, is found again.
settled :
    (found intended default : Text) (b : Bool)
    → or_else found (
        if b
        then codes "admin"
        else or_else
            (or_else found (if b then codes "admin" else or_else intended default))
            default)
      ≡ or_else found (if b then codes "admin" else or_else intended default)
unfolding or_else
settled (c ∷ s) intended default b = refl
settled [] intended default true = refl
settled [] intended default false = or_else-or_else intended default

module _ {E : Type 0} (unicode_lower : ℕ → ℕ) (find_string : Text → Text → Text) where
  -- Looking for the database of an operation a second time, as the handler of a message and the round
  -- trip do, finds the same name and leaves the connection as the first look left it.
  pub extract-extract :
      (c : Connection) (request : Request E)
      → extract_database_name unicode_lower find_string
          (extract_database_name unicode_lower find_string c request).0
          request
        ≡ extract_database_name unicode_lower find_string c request
  unfolding extract_database_name fallback_database
  extract-extract c request =
      ap
        (λ name. (
          record c { database_used = name; intended_database = name },
          normalize_database_name unicode_lower name,
        ))
        (settled (operation_database unicode_lower find_string request) c.intended_database
          (codes "default") request.methods.is_is_master)
