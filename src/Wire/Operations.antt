-- ===== src/Wire/Operations.antt =====
-- The operations of mongo/operations.go, one record for each struct. An absent document is the
-- empty slice; names are the bytes of a Go string.
use mongobouncer.Base.{ℕ, Bool, List}
use mongobouncer.Wire.Bytes.{Bytes}
use mongobouncer.Wire.Package.{OpCode}

-- What a message says of its transaction.
pub record TransactionDetails : Type 0 where
  pub ls_id : Bytes
  pub txn_number : ℕ
  pub is_start_transaction : Bool
  pub autocommit : Bool

pub record OpUnknown : Type 0 where
  pub op_code : OpCode
  pub req_id : ℕ
  pub wm : Bytes

pub record OpQuery : Type 0 where
  pub req_id : ℕ
  pub flags : ℕ
  pub full_collection_name : Bytes
  pub number_to_skip : ℕ
  pub number_to_return : ℕ
  pub query : Bytes
  pub return_fields_selector : Bytes

-- A section of an OP_MSG: one document, or a sequence with its identifier.
pub data OpMsgSection : Type 0 where
  single : Bytes → OpMsgSection
  sequence : Bytes → List Bytes → OpMsgSection

pub record OpMsg : Type 0 where
  pub req_id : ℕ
  pub flags : ℕ
  pub sections : List OpMsgSection
  pub checksum : ℕ

pub record OpReply : Type 0 where
  pub req_id : ℕ
  pub flags : ℕ
  pub cursor_id : ℕ
  pub starting_from : ℕ
  pub num_returned : ℕ
  pub documents : List Bytes

pub record OpGetMore : Type 0 where
  pub req_id : ℕ
  pub full_collection_name : Bytes
  pub number_to_return : ℕ
  pub cursor_id : ℕ

pub record OpUpdate : Type 0 where
  pub req_id : ℕ
  pub full_collection_name : Bytes
  pub flags : ℕ
  pub selector : Bytes
  pub update : Bytes

pub record OpInsert : Type 0 where
  pub req_id : ℕ
  pub flags : ℕ
  pub full_collection_name : Bytes
  pub documents : List Bytes

pub record OpDelete : Type 0 where
  pub req_id : ℕ
  pub full_collection_name : Bytes
  pub flags : ℕ
  pub selector : Bytes

pub record OpKillCursors : Type 0 where
  pub req_id : ℕ
  pub cursor_ids : List ℕ

pub data Operation : Type 0 where
  unknown_op : OpUnknown → Operation
  query_op : OpQuery → Operation
  msg_op : OpMsg → Operation
  reply_op : OpReply → Operation
  get_more_op : OpGetMore → Operation
  update_op : OpUpdate → Operation
  insert_op : OpInsert → Operation
  delete_op : OpDelete → Operation
  kill_cursors_op : OpKillCursors → Operation
