-- ===== src/Connection/Hosts.antt =====
-- The host and the port of a connection string, as proxy/connection.go takes them out.
use mongobouncer.Base.Affixes.{Free, has_prefix_self}
use mongobouncer.Base.Text.{Text, codes, has_prefix}
use mongobouncer.Base.{
  ℕ, ◌≡◌, ◌≢◌, refl, ap, ◌∙◌, true, false, none, some, [], ◌∷◌, ◌++◌, ◌==◌, arith,
}
use mongobouncer.Connection.Names.{
  cut_last, extract_host_and_port, behind_credentials, skip, extract_host, extract_host_from_route,
}
use mongobouncer.Connection.State.{RouteConfig}
use mongobouncer.Parsing.Split.{cut-append}
use mongobouncer.Parsing.{cut}

cut_last_free : (c : ℕ) (s : Text) → Free c s → cut_last c s ≡ none
unfolding cut_last
cut_last_free c [] f = refl
cut_last_free c (d ∷ s) f = ground (arith, cut_last_free c s f.1, f.0)

cut_last-append : (c : ℕ) (s t : Text) → Free c t → cut_last c (s ++ c ∷ t) ≡ some (s, t)
unfolding cut_last
cut_last-append c [] t f = ground (arith, cut_last_free c t f)
cut_last-append c (d ∷ s) t f = rw (cut_last, cut_last-append c s t f) refl

Free-append : (c d : ℕ) (s t : Text) → Free c s → d ≢ c → Free c t → Free c (s ++ d ∷ t)
Free-append c d [] t f n g = (n, g)
Free-append c d (e ∷ s) t f n g = (f.0, Free-append c d s t f.1 n g)

skip-append : (p s : Text) → skip p (p ++ s) ≡ s
unfolding skip
skip-append [] s = refl
skip-append (c ∷ p) s = skip-append p s

extract_host_and_port-append :
    (d : ℕ) (host port : Text)
    → (d == b'[') ≡ false
    → Free b':' port
    → extract_host_and_port (d ∷ host ++ b':' ∷ port) ≡ (d ∷ host, port)
unfolding extract_host_and_port
extract_host_and_port-append d host port n f =
    ground (arith, cut_last-append b':' (d ∷ host) port f, n)

extract_host_behind :
    (s rest : Text)
    → has_prefix s (codes "mongodb://") ≡ true
    → behind_credentials (skip (codes "mongodb://") s) ≡ rest
    → extract_host s ≡ extract_host_and_port (cut b'/' rest).0
unfolding extract_host
extract_host_behind s rest p q = rw (extract_host, p, q) refl

-- A connection string with credentials, a host, a port and a database.
abbrev written : Text → Text → Text → Text → Text
written user host port database =
    codes "mongodb://" ++ (user ++ (b'@' ∷ ((host ++ (b':' ∷ port)) ++ (b'/' ∷ database))))

module _ (user host port database : Text) (d : ℕ) where
  behind_credentials-append :
      (rest : Text) → Free b'@' user → behind_credentials (user ++ b'@' ∷ rest) ≡ rest
  unfolding behind_credentials
  behind_credentials-append rest f = ground (arith, cut-append b'@' user rest f)

  extract_host-append :
      Free b'@' user
      → (d == b'[') ≡ false
      → Free b'/' (d ∷ host)
      → Free b'/' port
      → Free b':' port
      → extract_host (written user (d ∷ host) port database) ≡ (d ∷ host, port)
  extract_host-append free n g h k =
      let rest = ((d ∷ host) ++ (b':' ∷ port)) ++ (b'/' ∷ database) in
      let text = user ++ (b'@' ∷ rest) in
      let scheme = codes "mongodb://" in
      extract_host_behind (scheme ++ text) rest (has_prefix_self scheme text)
        (ap behind_credentials (skip-append scheme text) ∙ behind_credentials-append rest free)
      ∙ ap (λ parts. extract_host_and_port parts.0)
          (cut-append b'/' ((d ∷ host) ++ (b':' ∷ port)) database
            (Free-append b'/' b':' (d ∷ host) port g (ground arith) h))
      ∙ extract_host_and_port-append d host port n k

  -- The host and the port that a connection string is written with are those that are taken out of
  -- it, when there is no at sign in the credentials, no slash in the host and the port, no colon in
  -- the port, and no bracket at the front of the host.
  pub extract_host_from_route-parts :
      (route : RouteConfig)
      → route.connection_string ≡ written user (d ∷ host) port database
      → Free b'@' user
      → (d == b'[') ≡ false
      → Free b'/' (d ∷ host)
      → Free b'/' port
      → Free b':' port
      → extract_host_from_route route ≡ (d ∷ host, port)
  unfolding extract_host_from_route
  extract_host_from_route-parts route e free n g h k =
      ap extract_host e ∙ extract_host-append free n g h k
