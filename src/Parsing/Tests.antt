-- ===== src/Parsing/Tests.antt =====
-- util/parsing.go at concrete texts.
use mongobouncer.Base.Text.{codes, to_lower}
use mongobouncer.Base.{ℕ, ◌≡◌, none, some, [], arith}
use mongobouncer.Parsing.{parse_connection_string}
use mongobouncer.Parsing.Formats.{parse_connection_string-parts, parse_connection_string_panics}

abbrev ascii : ℕ → ℕ
ascii c = c

parse_connection_string-parts_example :
    parse_connection_string ascii (codes "m://u:p@h/D?o")
    ≡ some (record {
      scheme = [];
      username = codes "u";
      password = codes "p";
      host = codes "h";
      database = to_lower ascii (codes "D");
      options = codes "o";
    })
parse_connection_string-parts_example =
    parse_connection_string-parts ascii (codes "m") (codes "u") (codes "p") (codes "h") (codes "D")
      (codes "o") ((λ e. omega arith, tt), (λ e. omega arith, tt))
      ((λ e. omega arith, tt), (λ e. omega arith, tt), (λ e. omega arith, tt))
      ((λ e. omega arith, tt), (λ e. omega arith, tt), (λ e. omega arith, tt))
      ((λ e. omega arith, tt), (λ e. omega arith, tt))
      ((λ e. omega arith, tt), (λ e. omega arith, tt)) (λ e. omega arith, tt)

parse_connection_string_panics_example : parse_connection_string ascii (codes "u@h") ≡ none
parse_connection_string_panics_example =
    parse_connection_string_panics ascii (codes "u") (codes "h") (λ e. omega arith, tt)
      (λ e. omega arith, tt) (λ e. omega arith, tt)
