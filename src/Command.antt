-- ===== src/Command.antt =====
-- mongo/command.go: which command a message carries, and on which collection.
pub mod Bson
pub mod Found
mod Tests
use Bson.{Document, ℤ, pos, negsuc}
use mongobouncer.Base.Text.{Text, codes}
use mongobouncer.Base.{
  ℕ, Bool, true, false, ◌&&◌, ◌||◌, Option, none, some, List, [], ◌∷◌, ltb, if◌then◌else◌,
}

pub data Command : Type 0 where
  unknown abort_transaction aggregate commit_transaction count create_indexes : Command
  deletes distinct drops drop_database drop_indexes end_sessions finds : Command
  find_and_modify get_more inserts is_master ismaster list_collections list_indexes : Command
  list_databases map_reduce updates build_info atlas_version get_parameter : Command

-- The string that the constant stands for.
unfoldable pub text_of : Command → Text
text_of unknown = codes "unknown"
text_of abort_transaction = codes "abortTransaction"
text_of aggregate = codes "aggregate"
text_of commit_transaction = codes "commitTransaction"
text_of count = codes "count"
text_of create_indexes = codes "createIndexes"
text_of deletes = codes "delete"
text_of distinct = codes "distinct"
text_of drops = codes "drop"
text_of drop_database = codes "dropDatabase"
text_of drop_indexes = codes "dropIndexes"
text_of end_sessions = codes "endSessions"
text_of finds = codes "find"
text_of find_and_modify = codes "findAndModify"
text_of get_more = codes "getMore"
text_of inserts = codes "insert"
text_of is_master = codes "isMaster"
text_of ismaster = codes "ismaster"
text_of list_collections = codes "listCollections"
text_of list_indexes = codes "listIndexes"
text_of list_databases = codes "listDatabases"
text_of map_reduce = codes "mapReduce"
text_of updates = codes "update"
text_of build_info = codes "buildInfo"
text_of atlas_version = codes "atlasVersion"
text_of get_parameter = codes "getParameter"

abbrev pub collection_commands : List Command
collection_commands =
    aggregate ∷ count ∷ create_indexes ∷ deletes ∷ distinct ∷ drops ∷ drop_indexes ∷ finds
    ∷ find_and_modify ∷ inserts ∷ list_indexes ∷ map_reduce ∷ updates ∷ []

abbrev pub int32_commands : List Command
int32_commands =
    abort_transaction ∷ aggregate ∷ commit_transaction ∷ drop_database ∷ is_master ∷ ismaster
    ∷ list_collections ∷ list_databases ∷ build_info ∷ atlas_version ∷ get_parameter ∷ []

abbrev pub int64_commands : List Command
int64_commands = get_more ∷ []

abbrev pub array_commands : List Command
array_commands = end_sessions ∷ []

unfoldable pub is_write : Command → Bool
is_write commit_transaction = true
is_write create_indexes = true
is_write deletes = true
is_write drops = true
is_write drop_indexes = true
is_write drop_database = true
is_write find_and_modify = true
is_write inserts = true
is_write updates = true
is_write _ = false

module _ {D : Type 0} (doc : Document D) where
  -- The first command of a list under whose name a string stands, with that string.
  pub first_string : D → List Command → Option (Command × Text)
  first_string d [] = none
  first_string d (c ∷ cs) = elim (doc.string_at d (text_of c)) [
    | some coll ↦ some (c, coll)
    | none ↦ first_string d cs
  ]

  -- The first command of a list under whose name any value stands.
  pub first_present : D → List Command → Option Command
  first_present d [] = none
  first_present d (c ∷ cs) = elim (doc.present_at d (text_of c)) [
    | true ↦ some c
    | false ↦ first_present d cs
  ]

  pub collection_of : D → Text
  collection_of d = elim (doc.string_at d (codes "collection")) [ some coll ↦ coll | none ↦ [] ]

  pub command_and_collection : D → Command × Text
  command_and_collection d = elim (first_string d collection_commands) [
    | some found ↦ found
    | none ↦ elim (first_present d int32_commands) [
      | some c ↦ (c, [])
      | none ↦ elim (first_present d int64_commands) [
        | some c ↦ (c, collection_of d)
        | none ↦ elim (first_present d array_commands) [ some c ↦ (c, []) | none ↦ (unknown, []) ]
      ]
    ]
  ]

  -- `Int32OK` gives 0 for a value that is not an int32, and `BooleanOK` gives false.
  pub truthy_at : D → Text → Bool
  truthy_at d key = elim (doc.int32_at d key) [
    | some (pos n) ↦ ltb 0 n
    | some (negsuc n) ↦ false
    | none ↦ elim (doc.boolean_at d key) [ some b ↦ b | none ↦ false ]
  ]

  pub is_is_master_doc : D → Bool
  is_is_master_doc d =
      truthy_at d (text_of is_master)
      || truthy_at d (text_of ismaster)
      || truthy_at d (text_of build_info)
