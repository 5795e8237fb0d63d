-- ===== src/Parsing/Formats.antt =====
-- The formats that util/parsing.go reads: a text in the format gives back its parts.
use mongobouncer.Base.Affixes.{Free}
use mongobouncer.Base.Text.{Text, text_eq, codes, to_lower}
use mongobouncer.Base.{ℕ, ◌≡◌, refl, ap, ◌∙◌, none, some, [], ◌∷◌, ◌++◌, if◌then◌else◌, arith}
use mongobouncer.Parsing.{
  split, no_connection_info, with_user, with_host, with_parts, parse_collection_name,
  parse_connection_string, parse_app_name, normalize_database_name,
}
use mongobouncer.Parsing.Split.{
  Free-append, split_free, split-append, cut_free, cut-append, cut_text-append, cut_text_free,
}

three :
    (a b c : Text)
    → Free b':' a
    → Free b':' b
    → Free b':' c
    → split b':' (a ++ b':' ∷ (b ++ b':' ∷ c)) ≡ a ∷ b ∷ c ∷ []
three a b c fa fb fc =
    ground (
      arith,
      split-append b':' a (b ++ b':' ∷ c) fa,
      split-append b':' b c fb,
      split_free b':' c fc,
    )

four :
    (a b c d : Text)
    → Free b':' a
    → Free b':' b
    → Free b':' c
    → Free b':' d
    → split b':' (a ++ b':' ∷ (b ++ b':' ∷ (c ++ b':' ∷ d))) ≡ a ∷ b ∷ c ∷ d ∷ []
four a b c d fa fb fc fd =
    split-append b':' a (b ++ b':' ∷ (c ++ b':' ∷ d)) fa ∙ ap (λ l. a ∷ l) (three b c d fb fc fd)

separator_free : Free b'@' (codes "://")
separator_free = (λ e. omega arith, (λ e. omega arith, (λ e. omega arith, tt)))

module _ (unicode_lower : ℕ → ℕ) where
  -- What a name says: up to its first dot the database, in lower case, and after it the
  -- collection, dots included; a name with no dot is a collection in no database.
  pub parse_collection_name-parts :
      (database collection : Text)
      → Free b'.' database
      → (parse_collection_name unicode_lower (database ++ b'.' ∷ collection) ≡ record {
        database = to_lower unicode_lower database;
        collection = collection;
        full_name = database ++ b'.' ∷ collection;
      })
        × (parse_collection_name unicode_lower database
            ≡ record { database = []; collection = database; full_name = database })
  unfolding parse_collection_name normalize_database_name
  parse_collection_name-parts database collection f = (
    rw (cut-append b'.' database collection f, parse_collection_name)
        (ground (arith, cut-append b'.' database collection f)),
    rw (cut_free b'.' database f, parse_collection_name) (ground (arith, cut_free b'.' database f)),
  )

  -- An app name of four parts with no colons in them gives back its parts, the database in lower
  -- case, which "use_db" also takes as the source of the credentials; with three parts the source
  -- is "admin".
  pub parse_app_name-parts :
      (database username password source : Text)
      → Free b':' database
      → Free b':' username
      → Free b':' password
      → Free b':' source
      → (parse_app_name unicode_lower
            (database ++ b':' ∷ (username ++ b':' ∷ (password ++ b':' ∷ source)))
          ≡ record {
            database = to_lower unicode_lower database;
            username = username;
            password = password;
            auth_source =
                if text_eq source (codes "use_db") then to_lower unicode_lower database else source;
          })
        × (parse_app_name unicode_lower (database ++ b':' ∷ (username ++ b':' ∷ password))
            ≡ record {
              database = to_lower unicode_lower database;
              username = username;
              password = password;
              auth_source = codes "admin";
            })
  unfolding parse_app_name normalize_database_name
  parse_app_name-parts d u p a fd fu fp fa = (
    rw (four d u p a fd fu fp fa, parse_app_name) refl,
    rw (three d u p fd fu fp, parse_app_name) refl,
  )

  -- A connection string with a user, a password, a host, a database and options gives them back,
  -- the database in lower case, if none of them contains a separator that ends it or "@", and the
  -- user and the password contain no slash. The scheme is not kept.
  pub parse_connection_string-parts :
      (scheme username password host database options : Text)
      → Free b':' scheme × Free b'@' scheme
      → Free b':' username × Free b'/' username × Free b'@' username
      → Free b':' password × Free b'/' password × Free b'@' password
      → Free b'/' host × Free b'@' host
      → Free b'?' database × Free b'@' database
      → Free b'@' options
      → parse_connection_string unicode_lower (
          (scheme ++ codes "://" ++ (username ++ b':' ∷ password))
          ++ b'@' ∷ (host ++ b'/' ∷ (database ++ b'?' ∷ options)))
        ≡ some (record {
          scheme = [];
          username = username;
          password = password;
          host = host;
          database = to_lower unicode_lower database;
          options = options;
        })
  unfolding parse_connection_string with_parts with_host with_user no_connection_info
      normalize_database_name
  parse_connection_string-parts s u p h d o fs fu fp fh fd fo =
      let user_info = u ++ b':' ∷ p in
      let user_part = s ++ codes "://" ++ user_info in
      let host_part = h ++ b'/' ∷ (d ++ b'?' ∷ o) in
      let scheme_free =
        Free-append b'@' (s ++ codes "://") user_info
          (Free-append b'@' s (codes "://") fs.1 separator_free)
          (Free-append b'@' u (b':' ∷ p) fu.2 (λ e. omega arith, fp.2)) in
      let host_free =
        Free-append b'@' h (b'/' ∷ (d ++ b'?' ∷ o)) fh.1
          (λ e. omega arith, Free-append b'@' d (b'?' ∷ o) fd.1 (λ e. omega arith, fo)) in
      let parts : split b'@' (user_part ++ b'@' ∷ host_part) ≡ user_part ∷ host_part ∷ [] =
        split-append b'@' user_part host_part scheme_free
        ∙ ap (λ l. user_part ∷ l) (split_free b'@' host_part host_free) in
      let after_scheme = cut_text-append s user_info fs.0 in
      let no_more =
        cut_text_free user_info (Free-append b'/' u (b':' ∷ p) fu.1 (λ e. omega arith, fp.1)) in
      let two : split b':' user_info ≡ u ∷ p ∷ [] =
        split-append b':' u p fu.0 ∙ ap (λ l. u ∷ l) (split_free b':' p fp.0) in
      rw (parts, parse_connection_string)
        (ground (
          arith,
          after_scheme,
          no_more,
          two,
          cut-append b'/' h (d ++ b'?' ∷ o) fh.0,
          cut-append b'?' d o fd.0,
        ))

  -- A connection string with one "@" whose part before it has no slash, and so no scheme, makes
  -- the parser panic.
  pub parse_connection_string_panics :
      (user host : Text)
      → Free b'/' user
      → Free b'@' user
      → Free b'@' host
      → parse_connection_string unicode_lower (user ++ b'@' ∷ host) ≡ none
  unfolding parse_connection_string with_parts
  parse_connection_string_panics user host f g h =
      ground (arith, split-append b'@' user host g, split_free b'@' host h, cut_text_free user f)
