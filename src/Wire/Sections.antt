-- ===== src/Wire/Sections.antt =====
-- The methods of the sections of an OP_MSG in mongo/operations.go, and the loops over them. A
-- cursor id with ok = false is `none`. The text of a name is its bytes.
pub mod Details
use mongobouncer.Base.Lists.{length}
use mongobouncer.Base.Text.{Text, codes, text_eq}
use mongobouncer.Base.{
  ℕ, ◌==◌, ◌&&◌, Bool, true, false, Option, none, some, List, [], ◌∷◌, if◌then◌else◌,
}
use mongobouncer.Command.{
  Command, unknown, finds, get_more, updates, inserts, deletes, text_of, is_is_master_doc,
}
use mongobouncer.Command
use mongobouncer.Parsing.{parse_collection_name}
use mongobouncer.Wire.Bytes.{Bytes}
use mongobouncer.Wire.Encode.{
  has_flag, encode_query, encode_msg, encode_reply, encode_get_more, encode_update, encode_insert,
  encode_delete, encode_kill_cursors,
}
use mongobouncer.Wire.Operations.{
  TransactionDetails, OpUnknown, OpQuery, OpMsgSection, single, sequence, OpMsg, OpReply, OpGetMore,
  OpUpdate, OpInsert, OpDelete, OpKillCursors, Operation, unknown_op, query_op, msg_op, reply_op,
  get_more_op, update_op, insert_op, delete_op, kill_cursors_op,
}
use mongobouncer.Wire.Package.{
  OpCode, op_query, op_msg, op_reply, op_get_more, op_update, op_insert, op_delete, op_kill_cursors,
  Package, Lookups,
}

module _ {E : Type 0} (look : Lookups E) where
  -- The methods of a section.
  pub section_cursor_id : OpMsgSection → Option ℕ
  section_cursor_id (single msg) = elim (look.int64_at msg (codes "getMore" ∷ [])) [
    | some id ↦ some id
    | none ↦ look.int64_at msg (codes "cursor" ∷ codes "id" ∷ [])
  ]
  section_cursor_id (sequence identifier msgs) = none

  pub section_is_is_master : OpMsgSection → Bool
  section_is_is_master (single msg) = elim (look.document.string_at msg (codes "$db")) [
    | some db ↦ text_eq db (codes "admin") && is_is_master_doc look.document msg
    | none ↦ false
  ]
  section_is_is_master (sequence identifier msgs) = false

  pub section_command : OpMsgSection → Command × Text
  section_command (single msg) = Command.command_and_collection look.document msg
  section_command (sequence identifier msgs) = (unknown, [])

  -- The loops over the sections.
  pub any_is_master : List OpMsgSection → Bool
  any_is_master [] = false
  any_is_master (s ∷ ss) = elim (section_is_is_master s) [ true ↦ true | false ↦ any_is_master ss ]

  pub first_cursor_id : List OpMsgSection → Option ℕ
  first_cursor_id [] = none
  first_cursor_id (s ∷ ss) = elim (section_cursor_id s) [
    | some id ↦ some id
    | none ↦ first_cursor_id ss
  ]

  unfoldable pub first_error : List OpMsgSection → Option E
  first_error [] = none
  first_error (single msg ∷ ss) = look.extract_error msg
  first_error (sequence identifier msgs ∷ ss) = none

  pub first_command : List OpMsgSection → Command × Text
  first_command [] = (unknown, [])
  first_command (s ∷ ss) = elim (text_eq (text_of (section_command s).0) (text_of unknown)) [
    | true ↦ first_command ss
    | false ↦ section_command s
  ]

  -- What one document says of its transaction, if it has all that a transaction needs.
  unfoldable pub details_of : Bytes → Option TransactionDetails
  details_of msg = elim (look.binary_at msg (codes "lsid" ∷ codes "id" ∷ [])) [
    | none ↦ none
    | some ls_id ↦ elim (look.int64_at msg (codes "txnNumber" ∷ [])) [
      | none ↦ none
      | some txn_number ↦ elim (look.document.boolean_at msg (codes "autocommit")) [
        | none ↦ none
        | some autocommit ↦ some (record {
          ls_id = ls_id;
          txn_number = txn_number;
          is_start_transaction = elim (look.document.boolean_at msg (codes "startTransaction")) [
            | some start ↦ start
            | none ↦ false
          ];
          autocommit = autocommit;
        })
      ]
    ]
  ]

  pub first_details : List OpMsgSection → Option TransactionDetails
  first_details [] = none
  first_details (single msg ∷ ss) = elim (details_of msg) [
    | some details ↦ some details
    | none ↦ first_details ss
  ]
  first_details (sequence identifier msgs ∷ ss) = first_details ss

  pub first_database : List OpMsgSection → Text
  first_database [] = []
  first_database (single msg ∷ ss) = elim (look.document.string_at msg (codes "$db")) [
    | some db ↦ db
    | none ↦ first_database ss
  ]
  first_database (sequence identifier msgs ∷ ss) = first_database ss
