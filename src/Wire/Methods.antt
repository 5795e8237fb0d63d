-- ===== src/Wire/Methods.antt =====
-- The methods of the operations of mongo/operations.go, a record for each struct, as the interface
-- Operation has them. A cursor id with ok = false is `none`. The text of a name is its bytes.
pub mod Headers
use mongobouncer.Base.Lists.{length}
use mongobouncer.Base.Text.{Text, codes, text_eq}
use mongobouncer.Base.{
  ℕ, ◌==◌, ◌&&◌, Bool, true, false, Option, none, some, List, [], ◌∷◌, if◌then◌else◌,
}
use mongobouncer.Command.{
  Command, unknown, finds, get_more, updates, inserts, deletes, text_of, is_is_master_doc,
}
use mongobouncer.Command
use mongobouncer.Parsing.{parse_collection_name}
use mongobouncer.Wire.Bytes.{Bytes}
use mongobouncer.Wire.Encode.{
  has_flag, encode_query, encode_msg, encode_reply, encode_get_more, encode_update, encode_insert,
  encode_delete, encode_kill_cursors,
}
use mongobouncer.Wire.Operations.{
  TransactionDetails, OpUnknown, OpQuery, OpMsgSection, single, sequence, OpMsg, OpReply, OpGetMore,
  OpUpdate, OpInsert, OpDelete, OpKillCursors, Operation, unknown_op, query_op, msg_op, reply_op,
  get_more_op, update_op, insert_op, delete_op, kill_cursors_op,
}
use mongobouncer.Wire.Package.{
  OpCode, op_query, op_msg, op_reply, op_get_more, op_update, op_insert, op_delete, op_kill_cursors,
  Package, Lookups,
}
use mongobouncer.Wire.Sections.{
  any_is_master, first_cursor_id, first_error, first_command, first_details, first_database,
}

pub record Methods (E : Type 0) : Type 0 where
  pub op_code : OpCode
  pub encode : ℕ → Bytes
  pub is_is_master : Bool
  pub cursor_id : Option ℕ
  pub request_id : ℕ
  pub error : Option E
  pub unacknowledged : Bool
  pub command_and_collection : Command × Text
  pub transaction_details : Option TransactionDetails
  pub database_name : Text

pub unknown_methods : {E : Type 0} → OpUnknown → Methods E
unknown_methods o = record {
  op_code = o.op_code;
  encode = λ response_to. o.wm;
  is_is_master = false;
  cursor_id = none;
  request_id = o.req_id;
  error = none;
  unacknowledged = false;
  command_and_collection = (unknown, []);
  transaction_details = none;
  database_name = [];
}

-- `Error` of an OP_REPLY: what its first document carries.
pub reply_error : {E : Type 0} → Lookups E → List Bytes → Option E
reply_error look [] = none
reply_error look (d ∷ ds) = look.extract_error d

module _ {E : Type 0} (pkg : Package) (look : Lookups E) (unicode_lower : ℕ → ℕ) where
  -- `util.ParseCollectionName(name).Database`
  pub database_of : Bytes → Text
  database_of name = (parse_collection_name unicode_lower name).database

  pub query_methods : OpQuery → Methods E
  query_methods q = record {
    op_code = op_query;
    encode = encode_query pkg q;
    is_is_master =
        text_eq q.full_collection_name (codes "admin.$cmd")
        && is_is_master_doc look.document q.query;
    cursor_id = look.int64_at q.query (codes "getMore" ∷ []);
    request_id = q.req_id;
    error = none;
    unacknowledged = false;
    command_and_collection = (finds, q.full_collection_name);
    transaction_details = none;
    database_name = database_of q.full_collection_name;
  }

  unfoldable pub msg_methods : OpMsg → Methods E
  msg_methods m = record {
    op_code = op_msg;
    encode = encode_msg pkg m;
    is_is_master = any_is_master look m.sections;
    cursor_id = first_cursor_id look m.sections;
    request_id = m.req_id;
    error = first_error look m.sections;
    unacknowledged = has_flag m.flags pkg.more_to_come;
    command_and_collection = first_command look m.sections;
    transaction_details = first_details look m.sections;
    database_name = first_database look m.sections;
  }

  pub reply_methods : OpReply → Methods E
  reply_methods r = record {
    op_code = op_reply;
    encode = encode_reply pkg r;
    is_is_master = false;
    cursor_id = some r.cursor_id;
    request_id = r.req_id;
    error = reply_error look r.documents;
    unacknowledged = false;
    command_and_collection = (finds, []);
    transaction_details = none;
    database_name = [];
  }

  pub get_more_methods : OpGetMore → Methods E
  get_more_methods g = record {
    op_code = op_get_more;
    encode = encode_get_more pkg g;
    is_is_master = false;
    cursor_id = some g.cursor_id;
    request_id = g.req_id;
    error = none;
    unacknowledged = false;
    command_and_collection = (get_more, g.full_collection_name);
    transaction_details = none;
    database_name = database_of g.full_collection_name;
  }

  pub update_methods : OpUpdate → Methods E
  update_methods u = record {
    op_code = op_update;
    encode = encode_update pkg u;
    is_is_master = false;
    cursor_id = none;
    request_id = u.req_id;
    error = none;
    unacknowledged = false;
    command_and_collection = (updates, u.full_collection_name);
    transaction_details = none;
    database_name = database_of u.full_collection_name;
  }

  pub insert_methods : OpInsert → Methods E
  insert_methods i = record {
    op_code = op_insert;
    encode = encode_insert pkg i;
    is_is_master = false;
    cursor_id = none;
    request_id = i.req_id;
    error = none;
    unacknowledged = false;
    command_and_collection = (inserts, i.full_collection_name);
    transaction_details = none;
    database_name = database_of i.full_collection_name;
  }

  pub delete_methods : OpDelete → Methods E
  delete_methods d = record {
    op_code = op_delete;
    encode = encode_delete pkg d;
    is_is_master = false;
    cursor_id = none;
    request_id = d.req_id;
    error = none;
    unacknowledged = false;
    command_and_collection = (deletes, d.full_collection_name);
    transaction_details = none;
    database_name = database_of d.full_collection_name;
  }

  pub kill_cursors_methods : OpKillCursors → Methods E
  kill_cursors_methods k = record {
    op_code = op_kill_cursors;
    encode = encode_kill_cursors pkg k;
    is_is_master = false;
    cursor_id = none;
    request_id = k.req_id;
    error = none;
    unacknowledged = false;
    command_and_collection = (unknown, []);
    transaction_details = none;
    database_name = [];
  }

  -- The methods that a call on the interface finds.
  unfoldable pub methods_of : Operation → Methods E
  methods_of (unknown_op o) = unknown_methods o
  methods_of (query_op q) = query_methods q
  methods_of (msg_op m) = msg_methods m
  methods_of (reply_op r) = reply_methods r
  methods_of (get_more_op g) = get_more_methods g
  methods_of (update_op u) = update_methods u
  methods_of (insert_op i) = insert_methods i
  methods_of (delete_op d) = delete_methods d
  methods_of (kill_cursors_op k) = kill_cursors_methods k
