-- ===== src/Wire/Decode.antt =====
-- Decode of mongo/operations.go and the decoders of the operations. The loop over the sections of
-- an OP_MSG runs on fuel.
use mongobouncer.Base.Lists.{length}
use mongobouncer.Base.Text.{Text, codes}
use mongobouncer.Base.{
  ℕ, zero, suc, ◌^◌, ◌==◌, ◌&&◌, Bool, true, false, Option, none, some, [], ◌∷◌, ◌++◌, ltb,
  if◌then◌else◌,
}
use mongobouncer.Wire.Bytes.{Bytes, read_i32, read_cstring}
use mongobouncer.Wire.Encode.{has_flag}
use mongobouncer.Wire.Operations.{
  OpQuery, OpMsgSection, single, sequence, OpMsg, OpReply, OpGetMore, OpUpdate, OpInsert, OpDelete,
  OpKillCursors, Operation, unknown_op, query_op, msg_op, reply_op, get_more_op, update_op,
  insert_op, delete_op, kill_cursors_op,
}
use mongobouncer.Wire.Package.{
  OpCode, op_query, op_msg, op_reply, op_get_more, op_update, op_insert, op_delete, op_kill_cursors,
  other_code, SectionType, single_document, document_sequence, other_section, Package,
}

-- A value or an error; `unfinished` is a loop whose fuel ran out.
pub data Decoded (A : Type 0) : Type 0 where
  decoded : A → Decoded A
  malformed : Text → Decoded A
  unfinished : Decoded A

module _ {A B : Type 0} where
  unfoldable pub map_decoded : (A → B) → Decoded A → Decoded B
  map_decoded f (decoded a) = decoded (f a)
  map_decoded f (malformed message) = malformed message
  map_decoded f unfinished = unfinished

  -- `if err != nil { return nil, err }`
  unfoldable pub and_then : Decoded A → (A → Decoded B) → Decoded B
  and_then (decoded a) next = next a
  and_then (malformed message) next = malformed message
  and_then unfinished next = unfinished

  -- `v, wm, ok = read(wm); if !ok { return nil, errors.New(message) }`, and what follows.
  unfoldable pub required : Option (B × Bytes) → Text → (B → Bytes → Decoded A) → Decoded A
  required none message next = malformed message
  required (some (v, rest)) message next = next v rest

-- `int(length) > wmLength`: a pattern from 2 ^ 31 stands for a negative number.
unfoldable pub is_longer : ℕ → ℕ → Bool
is_longer declared n = ltb declared (2 ^ 31) && ltb n declared

module _ (pkg : Package) where
  unfoldable pub decode_query : ℕ → Bytes → Decoded OpQuery
  decode_query req_id wm =
      required (pkg.query_flags.read wm) (codes "malformed query message: missing OP_QUERY flags")
        λ flags wm1.
          required (pkg.query_full_collection_name.read wm1)
            (codes "malformed query message: full collection name")
            λ name wm2.
              required (pkg.query_number_to_skip.read wm2)
                (codes "malformed query message: number to skip")
                λ to_skip wm3.
                  required (pkg.query_number_to_return.read wm3)
                    (codes "malformed query message: number to return")
                    λ to_return wm4.
                      required (pkg.read_query_query wm4)
                        (codes "malformed query message: query document")
                        λ query wm5.
                          let plain : OpQuery = record {
                            req_id = req_id;
                            flags = flags;
                            full_collection_name = name;
                            number_to_skip = to_skip;
                            number_to_return = to_return;
                            query = query;
                            return_fields_selector = [];
                          } in
                          if ltb 0 (length wm5)
                          then required (pkg.read_query_return_fields_selector wm5)
                              (codes "malformed query message: return fields selector")
                              (λ selector wm6.
                                decoded (record plain { return_fields_selector = selector }))
                          else decoded plain

  -- The switch on the section's type: a section and what is left.
  unfoldable pub section_of : SectionType → Bytes → Decoded (OpMsgSection × Bytes)
  section_of single_document wm =
      required (pkg.read_single_document wm)
        (codes "malformed wire message: insufficient bytes to read single document")
        λ msg rest. decoded (single msg, rest)
  section_of document_sequence wm =
      required (pkg.read_document_sequence wm)
        (codes "malformed wire message: insufficient bytes to read document sequence")
        λ found rest. decoded (sequence found.0 found.1, rest)
  section_of (other_section n) wm = malformed (
      codes "malformed wire message: unknown section type "
      ++ pkg.format_section_type (other_section n))

  -- One turn of the loop of decodeMsg, after the checksum's case.
  unfoldable pub decode_section : Bytes → Decoded (OpMsgSection × Bytes)
  decode_section wm =
      required (pkg.msg_section_type.read wm)
        (codes "malformed wire message: insufficient bytes to read section type") section_of

  -- The loop, with the message so far.
  unfoldable pub decode_sections : ℕ → Bool → OpMsg → Bytes → Decoded OpMsg
  decode_sections fuel checksum_present m [] = decoded m
  decode_sections zero checksum_present m (b ∷ wm) = unfinished
  decode_sections (suc fuel) checksum_present m (b ∷ wm) =
      elim (checksum_present && (length (b ∷ wm) == 4)) [
        | true ↦
            required (pkg.read_msg_checksum (b ∷ wm))
              (codes "malformed wire message: insufficient bytes to read checksum")
              λ read rest. decode_sections fuel checksum_present (record m { checksum = read }) rest
        | false ↦ and_then (decode_section (b ∷ wm)) λ found.
            decode_sections fuel checksum_present
              (record m { sections = m.sections ++ (found.0 ∷ []) }) found.1
      ]

  -- The fuel is the number of bytes.
  unfoldable pub decode_msg : ℕ → Bytes → Decoded OpMsg
  unfolding decode_sections has_flag
  decode_msg req_id wm =
      required (pkg.msg_flags.read wm) (codes "malformed wire message: missing OP_MSG flags")
        λ flags wm1.
          decode_sections (length wm1) (has_flag flags pkg.checksum_present)
            (record { req_id = req_id; flags = flags; sections = []; checksum = 0 }) wm1

  unfoldable pub decode_reply : ℕ → Bytes → Decoded OpReply
  decode_reply req_id wm =
      required (pkg.reply_flags.read wm) (codes "malformed reply message: missing OP_REPLY flags")
        λ flags wm1.
          required (pkg.reply_cursor_id.read wm1) (codes "malformed reply message: cursor id")
            λ cursor_id wm2.
              required (pkg.reply_starting_from.read wm2)
                (codes "malformed reply message: starting from")
                λ starting_from wm3.
                  required (pkg.reply_number_returned.read wm3)
                    (codes "malformed reply message: number returned")
                    λ num_returned wm4.
                      required (pkg.read_reply_documents wm4)
                        (codes "malformed reply message: could not read documents from reply")
                        λ documents wm5. decoded (record {
                          req_id = req_id;
                          flags = flags;
                          cursor_id = cursor_id;
                          starting_from = starting_from;
                          num_returned = num_returned;
                          documents = documents;
                        })

  unfoldable pub decode_get_more : ℕ → Bytes → Decoded OpGetMore
  decode_get_more req_id wm =
      required (pkg.read_kill_cursors_zero wm) (codes "malformed get_more message: missing zero")
        λ _ wm1.
          required (pkg.query_full_collection_name.read wm1)
            (codes "malformed get_more message: missing full collection name")
            λ name wm2.
              required (pkg.query_number_to_return.read wm2)
                (codes "malformed get_more message: missing number to return")
                λ to_return wm3.
                  required (pkg.reply_cursor_id.read wm3)
                    (codes "malformed get_more message: missing cursorID")
                    λ cursor_id wm4. decoded (record {
                      req_id = req_id;
                      full_collection_name = name;
                      number_to_return = to_return;
                      cursor_id = cursor_id;
                    })

  unfoldable pub decode_update : ℕ → Bytes → Decoded OpUpdate
  decode_update req_id wm =
      required (read_cstring wm) (codes "malformed update message: full collection name")
        λ name wm1.
          required (read_i32 wm1) (codes "malformed update message: missing OP_UPDATE flags")
            λ flags wm2.
              required (pkg.read_document wm2) (codes "malformed update message: selector document")
                λ selector wm3.
                  required (pkg.read_document wm3)
                    (codes "malformed update message: update document")
                    λ update wm4. decoded (record {
                      req_id = req_id;
                      full_collection_name = name;
                      flags = flags;
                      selector = selector;
                      update = update;
                    })

  unfoldable pub decode_insert : ℕ → Bytes → Decoded OpInsert
  decode_insert req_id wm =
      required (read_i32 wm) (codes "malformed insert message: missing OP_INSERT flags")
        λ flags wm1.
          required (read_cstring wm1) (codes "malformed insert message: full collection name")
            λ name wm2.
              required (pkg.read_reply_documents wm2)
                (codes "malformed insert message: could not read documents")
                λ documents wm3. decoded (record {
                  req_id = req_id;
                  flags = flags;
                  full_collection_name = name;
                  documents = documents;
                })

  unfoldable pub decode_delete : ℕ → Bytes → Decoded OpDelete
  decode_delete req_id wm =
      required (read_i32 wm) (codes "malformed delete message: missing zero") λ _ wm1.
        required (read_cstring wm1) (codes "malformed delete message: full collection name")
          λ name wm2.
            required (read_i32 wm2) (codes "malformed delete message: missing OP_DELETE flags")
              λ flags wm3.
                required (pkg.read_document wm3)
                  (codes "malformed delete message: selector document")
                  λ selector wm4. decoded (record {
                    req_id = req_id;
                    full_collection_name = name;
                    flags = flags;
                    selector = selector;
                  })

  unfoldable pub decode_kill_cursors : ℕ → Bytes → Decoded OpKillCursors
  decode_kill_cursors req_id wm =
      required (pkg.read_kill_cursors_zero wm)
        (codes "malformed kill_cursors message: missing zero")
        λ _ wm1.
          required (pkg.kill_cursors_number_ids.read wm1)
            (codes "malformed kill_cursors message: missing number of cursor IDs")
            λ num_ids wm2.
              required (pkg.read_kill_cursors_cursor_ids wm2 num_ids)
                (codes "malformed kill_cursors message: missing cursor IDs")
                λ cursor_ids wm3. decoded (record { req_id = req_id; cursor_ids = cursor_ids })

  unfoldable pub decode_body : OpCode → ℕ → Bytes → Bytes → Decoded Operation
  unfolding map_decoded decode_query decode_msg decode_reply decode_get_more decode_update
      decode_insert decode_delete decode_kill_cursors
  decode_body op_query req_id body wm = map_decoded query_op (decode_query req_id body)
  decode_body op_msg req_id body wm = map_decoded msg_op (decode_msg req_id body)
  decode_body op_reply req_id body wm = map_decoded reply_op (decode_reply req_id body)
  decode_body op_get_more req_id body wm = map_decoded get_more_op (decode_get_more req_id body)
  decode_body op_update req_id body wm = map_decoded update_op (decode_update req_id body)
  decode_body op_insert req_id body wm = map_decoded insert_op (decode_insert req_id body)
  decode_body op_delete req_id body wm = map_decoded delete_op (decode_delete req_id body)
  decode_body op_kill_cursors req_id body wm =
      map_decoded kill_cursors_op (decode_kill_cursors req_id body)
  decode_body (other_code n) req_id body wm =
      decoded (unknown_op (record { op_code = other_code n; req_id = req_id; wm = wm }))

  unfoldable pub decode : Bytes → Decoded Operation
  unfolding decode_body is_longer
  decode wm = elim (pkg.read_header wm) [
    | some (header, body) ↦
        if is_longer header.length (length wm)
        then malformed (codes "malformed wire message: insufficient bytes")
        else decode_body header.op_code header.request_id body wm
    | none ↦ malformed (codes "malformed wire message: insufficient bytes")
  ]
