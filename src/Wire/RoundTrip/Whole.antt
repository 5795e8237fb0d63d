-- ===== src/Wire/RoundTrip/Whole.antt =====
-- Decode of mongo/operations.go on whole encoded messages.
use mongobouncer.Base.{ℕ, ◌≡◌, refl, sym, ◌∙◌, ap, ◌++◌}
use mongobouncer.Wire.Bytes.{Bytes}
use mongobouncer.Wire.Decode.{Decoded, decoded, map_decoded, decode, decode_body}
use mongobouncer.Wire.Encode.{encode, framed}
use mongobouncer.Wire.Operations.{
  Operation, unknown_op, query_op, msg_op, reply_op, get_more_op, update_op, insert_op, delete_op,
  kill_cursors_op,
}
use mongobouncer.Wire.Package.Laws.{IsPackage, IsI32, IsNamedOp}
use mongobouncer.Wire.Package.{
  OpCode, op_query, op_msg, op_reply, op_get_more, op_update, op_insert, op_kill_cursors, Package,
}
use mongobouncer.Wire.RoundTrip.Framing.{decode-framed, decode-read_header}
use mongobouncer.Wire.RoundTrip.Legacy.{
  update_body-layout, decode_update-layout, insert_body-layout, decode_insert-layout,
  get_more_body-layout, decode_get_more-layout,
}
use mongobouncer.Wire.RoundTrip.Messages.{msg_body-layout, decode_msg-layout}
use mongobouncer.Wire.RoundTrip.Queries.{
  reply_body-layout, decode_reply-layout, kill_cursors_body-layout, decode_kill_cursors-layout,
  query_body-layout, decode_query-layout,
}
use mongobouncer.Wire.WellFormed.{IsWire, as_sent}

module _ {pkg : Package} (law : IsPackage pkg) (response_to : ℕ) (h : IsI32 response_to) where
  -- A framed body whose layout the decoder of its opcode reads.
  pub framed_read :
      {A : Type 0} (code : OpCode) (body : Bytes → Bytes) (rest : Bytes) (tag : A → Operation)
      (read : Decoded A) (a : A)
      → IsNamedOp code
      → ((b : Bytes) → body b ≡ b ++ rest)
      → decode_body pkg code 0 rest (framed pkg response_to code body) ≡ map_decoded tag read
      → read ≡ decoded a
      → decode pkg (framed pkg response_to code body) ≡ decoded (tag a)
  unfolding map_decoded
  framed_read code body rest tag read a named split chosen result =
      decode-framed law response_to code body rest named h split
      ∙ (chosen ∙ ap (map_decoded tag) result)

  -- With a driver that reads what it appends, decoding an encoded operation other than OP_DELETE gives it back, with the request id 0 in place of its own, if its fields fit their types, its documents are whole, its names have no zero byte and the id that it answers is an int32.
  pub decode-encode :
      (op : Operation)
      → IsWire pkg op
      → decode pkg (encode pkg op response_to) ≡ decoded (as_sent op)
  unfolding encode as_sent decode_body
  decode-encode (query_op q) w =
      framed_read op_query _ _ query_op _ _ tt (query_body-layout law q) refl
        (decode_query-layout law 0 q w)
  decode-encode (msg_op m) w =
      framed_read op_msg _ _ msg_op _ _ tt (msg_body-layout law m) refl
        (decode_msg-layout law 0 m w)
  decode-encode (reply_op r) w =
      framed_read op_reply _ _ reply_op _ _ tt (reply_body-layout law r) refl
        (decode_reply-layout law 0 r w)
  decode-encode (get_more_op g) w =
      framed_read op_get_more _ _ get_more_op _ _ tt (get_more_body-layout law g) refl
        (decode_get_more-layout law 0 g w)
  decode-encode (update_op u) w =
      framed_read op_update _ _ update_op _ _ tt (update_body-layout law u) refl
        (decode_update-layout law 0 u w)
  decode-encode (insert_op i) w =
      framed_read op_insert _ _ insert_op _ _ tt (insert_body-layout law i) refl
        (decode_insert-layout law 0 i w)
  decode-encode (kill_cursors_op k) w =
      framed_read op_kill_cursors _ _ kill_cursors_op _ _ tt (kill_cursors_body-layout law k) refl
        (decode_kill_cursors-layout law 0 k w)
  decode-encode (unknown_op o) (n, header, body, read, fits, code, same) =
      decode-read_header law o.wm body header read fits
      ∙ rw (code) (ap (λ x. decoded (unknown_op x)) (sym same))
  decode-encode (delete_op d) w = elim w [ ]
