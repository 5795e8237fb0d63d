-- ===== src/Wire/Encode.antt =====
-- The Encode methods of mongo/operations.go. Each fills in its header's length at the end; the
-- request id that it writes is 0.
use Prim.Native.Nat.{bit_and}
use mongobouncer.Base.Lists.{length}
use mongobouncer.Base.{ℕ, ◌+◌, ◌%◌, ◌^◌, ◌==◌, Bool, List, [], ◌∷◌, ◌++◌, if◌then◌else◌}
use mongobouncer.Base.Lists.{drop}
use mongobouncer.Wire.Bytes.{Bytes, append_i32, append_cstring}
use mongobouncer.Wire.Operations.{
  OpQuery, OpMsgSection, single, sequence, OpMsg, OpReply, OpGetMore, OpUpdate, OpInsert, OpDelete,
  OpKillCursors, Operation, unknown_op, query_op, msg_op, reply_op, get_more_op, update_op,
  insert_op, delete_op, kill_cursors_op,
}
use mongobouncer.Wire.Package.{
  OpCode, op_query, op_msg, op_reply, op_get_more, op_update, op_insert, op_delete, op_kill_cursors,
  single_document, document_sequence, Package,
}

-- `int32(n)` of a length.
unfoldable pub to_i32 : ℕ → ℕ
to_i32 n = n % 2 ^ 32

unfoldable pub has_flag : ℕ → ℕ → Bool
has_flag flags flag = bit_and flags flag == flag

-- The loop that appends documents.
unfoldable pub append_documents : Bytes → List Bytes → Bytes
append_documents buffer [] = buffer
append_documents buffer (d ∷ ds) = append_documents (buffer ++ d) ds

-- The loop that adds up their lengths, on int32s.
unfoldable pub add_lengths : ℕ → List Bytes → ℕ
unfolding to_i32
add_lengths n [] = n
add_lengths n (d ∷ ds) = add_lengths (to_i32 (n + to_i32 (length d))) ds

module _ (pkg : Package) where
  -- The header around a body: AppendHeaderStart on an empty buffer, then UpdateLength.
  unfoldable pub framed : ℕ → OpCode → (Bytes → Bytes) → Bytes
  unfolding to_i32
  framed response_to code body =
      let start = pkg.header_start [] 0 response_to code in
      let buffer = body start.1 in
      pkg.update_length buffer start.0 (to_i32 (length (drop start.0 buffer)))

  unfoldable pub query_body : OpQuery → Bytes → Bytes
  query_body q buffer =
      let flagged = pkg.query_flags.append buffer q.flags in
      let named = pkg.query_full_collection_name.append flagged q.full_collection_name in
      let skipped = pkg.query_number_to_skip.append named q.number_to_skip in
      let numbered = pkg.query_number_to_return.append skipped q.number_to_return in
      let queried = numbered ++ q.query in
      if length q.return_fields_selector == 0 then queried else queried ++ q.return_fields_selector

  unfoldable pub encode_query : OpQuery → ℕ → Bytes
  unfolding framed query_body
  encode_query q response_to = framed response_to op_query (query_body q)

  unfoldable pub append_section : Bytes → OpMsgSection → Bytes
  unfolding to_i32 add_lengths append_documents
  append_section buffer (single msg) = pkg.msg_section_type.append buffer single_document ++ msg
  append_section buffer (sequence identifier msgs) =
      let typed = pkg.msg_section_type.append buffer document_sequence in
      let sized = append_i32 typed (add_lengths (to_i32 (length identifier + 5)) msgs) in
      append_documents (append_cstring sized identifier) msgs

  unfoldable pub append_sections : Bytes → List OpMsgSection → Bytes
  unfolding append_section
  append_sections buffer [] = buffer
  append_sections buffer (s ∷ ss) = append_sections (append_section buffer s) ss

  unfoldable pub msg_body : OpMsg → Bytes → Bytes
  unfolding append_sections has_flag
  msg_body m buffer =
      let filled = append_sections (pkg.msg_flags.append buffer m.flags) m.sections in
      if has_flag m.flags pkg.checksum_present then append_i32 filled m.checksum else filled

  unfoldable pub encode_msg : OpMsg → ℕ → Bytes
  unfolding framed msg_body
  encode_msg m response_to = framed response_to op_msg (msg_body m)

  unfoldable pub reply_body : OpReply → Bytes → Bytes
  unfolding append_documents
  reply_body r buffer =
      let flagged = pkg.reply_flags.append buffer r.flags in
      let identified = pkg.reply_cursor_id.append flagged r.cursor_id in
      let started = pkg.reply_starting_from.append identified r.starting_from in
      append_documents (pkg.reply_number_returned.append started r.num_returned) r.documents

  unfoldable pub encode_reply : OpReply → ℕ → Bytes
  unfolding framed reply_body
  encode_reply r response_to = framed response_to op_reply (reply_body r)

  unfoldable pub get_more_body : OpGetMore → Bytes → Bytes
  get_more_body g buffer =
      let named =
        pkg.append_get_more_full_collection_name (pkg.append_get_more_zero buffer)
          g.full_collection_name in
      let numbered = pkg.append_get_more_number_to_return named g.number_to_return in
      pkg.append_get_more_cursor_id numbered g.cursor_id

  unfoldable pub encode_get_more : OpGetMore → ℕ → Bytes
  unfolding framed get_more_body
  encode_get_more g response_to = framed response_to op_get_more (get_more_body g)

  unfoldable pub update_body : OpUpdate → Bytes → Bytes
  update_body u buffer =
      let flagged = append_i32 (append_cstring buffer u.full_collection_name) u.flags in
      (flagged ++ u.selector) ++ u.update

  unfoldable pub encode_update : OpUpdate → ℕ → Bytes
  unfolding framed update_body
  encode_update u response_to = framed response_to op_update (update_body u)

  unfoldable pub insert_body : OpInsert → Bytes → Bytes
  unfolding append_documents
  insert_body i buffer =
      append_documents (append_cstring (append_i32 buffer i.flags) i.full_collection_name)
        i.documents

  unfoldable pub encode_insert : OpInsert → ℕ → Bytes
  unfolding framed insert_body
  encode_insert i response_to = framed response_to op_insert (insert_body i)

  unfoldable pub delete_body : OpDelete → Bytes → Bytes
  delete_body d buffer =
      append_i32 (append_cstring buffer d.full_collection_name) d.flags ++ d.selector

  unfoldable pub encode_delete : OpDelete → ℕ → Bytes
  unfolding framed delete_body
  encode_delete d response_to = framed response_to op_delete (delete_body d)

  unfoldable pub kill_cursors_body : OpKillCursors → Bytes → Bytes
  unfolding to_i32
  kill_cursors_body k buffer =
      let counted =
        pkg.kill_cursors_number_ids.append (pkg.append_kill_cursors_zero buffer)
          (to_i32 (length k.cursor_ids)) in
      pkg.append_kill_cursors_cursor_ids counted k.cursor_ids

  unfoldable pub encode_kill_cursors : OpKillCursors → ℕ → Bytes
  unfolding framed kill_cursors_body
  encode_kill_cursors k response_to = framed response_to op_kill_cursors (kill_cursors_body k)

  unfoldable pub encode : Operation → ℕ → Bytes
  unfolding encode_query encode_msg encode_reply encode_get_more encode_update encode_insert
      encode_delete encode_kill_cursors
  encode (unknown_op o) response_to = o.wm
  encode (query_op q) response_to = encode_query q response_to
  encode (msg_op m) response_to = encode_msg m response_to
  encode (reply_op r) response_to = encode_reply r response_to
  encode (get_more_op g) response_to = encode_get_more g response_to
  encode (update_op u) response_to = encode_update u response_to
  encode (insert_op i) response_to = encode_insert i response_to
  encode (delete_op d) response_to = encode_delete d response_to
  encode (kill_cursors_op k) response_to = encode_kill_cursors k response_to
