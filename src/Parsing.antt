-- ===== src/Parsing.antt =====
-- util/parsing.go: collection names, connection strings and app names. `unicode_lower` is the table
-- that `strings.ToLower` uses beyond ASCII.
pub mod Split
pub mod Formats
mod Tests
use mongobouncer.Base.Lists.{length, drop}
use mongobouncer.Base.Text.{Text, text_eq, codes, has_prefix, to_lower}
use mongobouncer.Base.{ℕ, Bool, true, false, Option, none, some, List, [], ◌∷◌, ◌==◌, if◌then◌else◌}

pub record CollectionInfo : Type 0 where
  pub database : Text
  pub collection : Text
  pub full_name : Text

pub record ConnectionStringInfo : Type 0 where
  pub scheme : Text
  pub username : Text
  pub password : Text
  pub host : Text
  pub database : Text
  pub options : Text

pub record AppNameInfo : Type 0 where
  pub database : Text
  pub username : Text
  pub password : Text
  pub auth_source : Text

unfoldable pub push : ℕ → List Text → List Text
push c [] = (c ∷ []) ∷ []
push c (t ∷ ts) = (c ∷ t) ∷ ts

-- `strings.Split(s, c)`, for a separator of one character
unfoldable pub split : ℕ → Text → List Text
split c [] = [] ∷ []
split c (d ∷ s) = let rest = split c s in if d == c then [] ∷ rest else push d rest

-- `strings.SplitN(s, c, 2)`: the part before the first separator, and the part after it
unfoldable pub cut : ℕ → Text → Text × Option Text
cut c [] = ([], none)
cut c (d ∷ s) =
    let (before, after) = cut c s in if d == c then ([], some s) else (d ∷ before, after)

-- The same for a longer separator.
unfoldable pub cut_text : Text → Text → Text × Option Text
cut_text sep [] = ([], none)
cut_text sep (d ∷ s) =
    let (before, after) = cut_text sep s in
    if has_prefix (d ∷ s) sep then ([], some (drop (length sep) (d ∷ s))) else (d ∷ before, after)

unfoldable pub no_connection_info : ConnectionStringInfo
no_connection_info = record {
  scheme = [];
  username = [];
  password = [];
  host = [];
  database = [];
  options = [];
}

-- The user's name and password.
unfoldable pub with_user : ConnectionStringInfo → Text → ConnectionStringInfo
with_user info user_info = elim (split b':' user_info) [
  | [] ↦ info
  | u ∷ [] ↦ info
  | u ∷ p ∷ [] ↦ record info { username = u; password = p }
  | u ∷ p ∷ x ∷ rest ↦ info
]

module _ (unicode_lower : ℕ → ℕ) where
  unfoldable pub normalize_database_name : Text → Text
  normalize_database_name = to_lower unicode_lower

  unfoldable pub parse_collection_name : Text → CollectionInfo
  parse_collection_name full = elim (cut b'.' full).1 [
    | some collection ↦ record {
      database = normalize_database_name (cut b'.' full).0;
      collection = collection;
      full_name = full;
    }
    | none ↦ record { database = []; collection = (cut b'.' full).0; full_name = full }
  ]

  -- The host, the database and the options.
  pub with_host : ConnectionStringInfo → Text → ConnectionStringInfo
  with_host info host_part = elim (cut b'/' host_part).1 [
    | none ↦ record info { host = host_part }
    | some rest ↦ elim (cut b'?' rest).1 [
      | none ↦ record info {
        host = (cut b'/' host_part).0;
        database = normalize_database_name (cut b'?' rest).0;
      }
      | some options ↦ record info {
        host = (cut b'/' host_part).0;
        database = normalize_database_name (cut b'?' rest).0;
        options = options;
      }
    ]
  ]

  -- `none` is a panic: the element 1 of what has one element.
  pub with_parts : Text → Text → Option ConnectionStringInfo
  with_parts user_part host_part = elim (cut_text (codes "://") user_part).1 [
    | none ↦ none
    | some rest ↦
        some (with_host (with_user no_connection_info (cut_text (codes "://") rest).0) host_part)
  ]

  pub parse_connection_string : Text → Option ConnectionStringInfo
  parse_connection_string s = elim (split b'@' s) [
    | [] ↦ some no_connection_info
    | u ∷ [] ↦ some no_connection_info
    | u ∷ h ∷ [] ↦ with_parts u h
    | u ∷ h ∷ x ∷ rest ↦ some no_connection_info
  ]

  unfoldable pub parse_app_name : Text → AppNameInfo
  parse_app_name s = elim (split b':' s) [
    | d ∷ u ∷ p ∷ a ∷ [] ↦ record {
      database = normalize_database_name d;
      username = u;
      password = p;
      auth_source = if text_eq a (codes "use_db") then normalize_database_name d else a;
    }
    | d ∷ u ∷ p ∷ [] ↦ record {
      database = normalize_database_name d;
      username = u;
      password = p;
      auth_source = codes "admin";
    }
    | _ ↦ record { database = []; username = []; password = []; auth_source = [] }
  ]
