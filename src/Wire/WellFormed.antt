-- ===== src/Wire/WellFormed.antt =====
-- The operations that mongo/operations.go can send and read again: values in their ranges, whole
-- documents, names without a zero byte.
use mongobouncer.Base.Lists.{length, All}
use mongobouncer.Base.{ℕ, ◌+◌, ◌^◌, ◌<◌, ◌≡◌, ◌⊎◌, true, false, some, []}
use mongobouncer.Wire.Bytes.{Bytes, HasNoZero}
use mongobouncer.Wire.Decode.{is_longer}
use mongobouncer.Wire.Encode.{has_flag}
use mongobouncer.Wire.Operations.{
  OpUnknown, OpQuery, OpMsgSection, single, sequence, OpMsg, OpReply, OpGetMore, OpUpdate, OpInsert,
  OpDelete, OpKillCursors, Operation, unknown_op, query_op, msg_op, reply_op, get_more_op,
  update_op, insert_op, delete_op, kill_cursors_op,
}
use mongobouncer.Wire.Package.Laws.{IsI32, IsI64, IsBson, concat}
use mongobouncer.Wire.Package.{other_code, Header, Package}

abbrev pub IsWireQuery : OpQuery → Type 0
IsWireQuery q =
    IsI32 q.flags
    × HasNoZero q.full_collection_name
    × IsI32 q.number_to_skip
    × IsI32 q.number_to_return
    × IsBson q.query
    × ((q.return_fields_selector ≡ []) ⊎ IsBson q.return_fields_selector)

abbrev pub IsWireSection : OpMsgSection → Type 0
IsWireSection (single msg) = IsBson msg
IsWireSection (sequence identifier msgs) =
    HasNoZero identifier × All IsBson msgs × (length identifier + 5 + length (concat msgs) < 2 ^ 31)

-- A message without the checksum flag has the checksum 0, which is not sent.
abbrev pub IsWireMsg : Package → OpMsg → Type 0
IsWireMsg pkg m =
    IsI32 m.flags
    × All IsWireSection m.sections
    × IsI32 m.checksum
    × ((has_flag m.flags pkg.checksum_present ≡ true) ⊎ (m.checksum ≡ 0))

abbrev pub IsWireReply : OpReply → Type 0
IsWireReply r =
    IsI32 r.flags
    × IsI64 r.cursor_id
    × IsI32 r.starting_from
    × IsI32 r.num_returned
    × All IsBson r.documents

abbrev pub IsWireGetMore : OpGetMore → Type 0
IsWireGetMore g = HasNoZero g.full_collection_name × IsI32 g.number_to_return × IsI64 g.cursor_id

abbrev pub IsWireUpdate : OpUpdate → Type 0
IsWireUpdate u =
    HasNoZero u.full_collection_name × IsI32 u.flags × IsBson u.selector × IsBson u.update

abbrev pub IsWireInsert : OpInsert → Type 0
IsWireInsert i = IsI32 i.flags × HasNoZero i.full_collection_name × All IsBson i.documents

abbrev pub IsWireDelete : OpDelete → Type 0
IsWireDelete d = HasNoZero d.full_collection_name × IsI32 d.flags × IsBson d.selector

abbrev pub IsWireKillCursors : OpKillCursors → Type 0
IsWireKillCursors k = All IsI64 k.cursor_ids × (length k.cursor_ids < 2 ^ 31)

-- An unknown operation carries a whole message, of which it has the opcode and the request id.
abbrev pub IsWireUnknown : Package → OpUnknown → Type 0
IsWireUnknown pkg o =
    (n : ℕ) × (h : Header) × (body : Bytes) × (pkg.read_header o.wm ≡ some (h, body))
    × (is_longer h.length (length o.wm) ≡ false)
    × (h.op_code ≡ other_code n)
    × (o ≡ record { op_code = other_code n; req_id = h.request_id; wm = o.wm })

-- All but OP_DELETE, which is not read back.
abbrev pub IsWire : Package → Operation → Type 0
IsWire pkg (unknown_op o) = IsWireUnknown pkg o
IsWire pkg (query_op q) = IsWireQuery q
IsWire pkg (msg_op m) = IsWireMsg pkg m
IsWire pkg (reply_op r) = IsWireReply r
IsWire pkg (get_more_op g) = IsWireGetMore g
IsWire pkg (update_op u) = IsWireUpdate u
IsWire pkg (insert_op i) = IsWireInsert i
IsWire pkg (delete_op d) = ⊥
IsWire pkg (kill_cursors_op k) = IsWireKillCursors k

-- The operation with the request id that Encode writes, which is 0; the bytes of an unknown
-- operation are sent as they came.
unfoldable pub as_sent : Operation → Operation
as_sent (unknown_op o) = unknown_op o
as_sent (query_op q) = query_op (record q { req_id = 0 })
as_sent (msg_op m) = msg_op (record m { req_id = 0 })
as_sent (reply_op r) = reply_op (record r { req_id = 0 })
as_sent (get_more_op g) = get_more_op (record g { req_id = 0 })
as_sent (update_op u) = update_op (record u { req_id = 0 })
as_sent (insert_op i) = insert_op (record i { req_id = 0 })
as_sent (delete_op d) = delete_op (record d { req_id = 0 })
as_sent (kill_cursors_op k) = kill_cursors_op (record k { req_id = 0 })
