-- ===== src/Command/Tests.antt =====
-- mongo/command.go at a concrete document.
use mongobouncer.Base.Lists.{All}
use mongobouncer.Base.Text.{Text, codes, text_eq, text_discrete}
use mongobouncer.Base.{◌≡◌, refl, ◌⊎◌, ◌≢◌, true, false, none, some, [], arith, if◌then◌else◌}
use mongobouncer.Command.Bson.{Document, IsTyped}
use mongobouncer.Command.Found.{command_and_collection-cases}
use mongobouncer.Command.{
  Command, unknown, abort_transaction, aggregate, commit_transaction, count, create_indexes,
  deletes, distinct, drops, drop_database, drop_indexes, end_sessions, finds, find_and_modify,
  get_more, inserts, is_master, ismaster, list_collections, list_indexes, list_databases,
  map_reduce, updates, build_info, atlas_version, get_parameter, text_of, collection_commands,
  int32_commands, int64_commands, array_commands, command_and_collection,
}

-- Documents with one string, under a command's name.
abbrev one_string : Document (Text × Text)
one_string = record {
  string_at = λ d key. if text_eq key d.0 then some d.1 else none;
  present_at = λ d key. text_eq key d.0;
  int32_at = λ d key. none;
  boolean_at = λ d key. none;
}

one_string-IsTyped : IsTyped one_string
one_string-IsTyped = record { string_present = λ d key s h. ground arith }

abbrev doc : Text × Text
doc = (text_of finds, codes "users")

command_and_collection-cases_example :
    ((command_and_collection one_string doc ≡ (unknown, []))
      × All (λ c. one_string.string_at doc (text_of c) ≡ none) collection_commands
      × All (λ c. one_string.present_at doc (text_of c) ≡ false) int32_commands
      × All (λ c. one_string.present_at doc (text_of c) ≡ false) int64_commands
      × All (λ c. one_string.present_at doc (text_of c) ≡ false) array_commands)
    ⊎ (one_string.present_at doc (text_of (command_and_collection one_string doc).0) ≡ true)
command_and_collection-cases_example =
    command_and_collection-cases one_string doc one_string-IsTyped

others : (k : Command) → k ≢ finds → one_string.string_at doc (text_of k) ≡ none
unfolding text_of text_discrete
others unknown n = refl
others abort_transaction n = refl
others aggregate n = refl
others commit_transaction n = refl
others count n = refl
others create_indexes n = refl
others deletes n = refl
others distinct n = refl
others drops n = refl
others drop_database n = refl
others drop_indexes n = refl
others end_sessions n = refl
others finds n = absurd (n refl)
others find_and_modify n = refl
others get_more n = refl
others inserts n = refl
others is_master n = refl
others ismaster n = refl
others list_collections n = refl
others list_indexes n = refl
others list_databases n = refl
others map_reduce n = refl
others updates n = refl
others build_info n = refl
others atlas_version n = refl
others get_parameter n = refl
