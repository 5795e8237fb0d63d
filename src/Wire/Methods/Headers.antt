-- ===== src/Wire/Methods/Headers.antt =====
-- The opcode and the request id of what Decode of mongo/operations.go gives.
use mongobouncer.Base.Lists.{length}
use mongobouncer.Base.{
  ℕ, zero, suc, ◌≡◌, refl, ◌==◌, ◌&&◌, Bool, some, [], ◌∷◌, Bool-cases, inl, inr,
}
use mongobouncer.Wire.Bytes.{Bytes}
use mongobouncer.Wire.Decode.{
  decoded, decode_sections, decode_msg, decode_query, decode_reply, decode_get_more, decode_update,
  decode_insert, decode_delete, decode_kill_cursors, decode_body, decode,
}
use mongobouncer.Wire.Methods.{
  methods_of, query_methods, msg_methods, reply_methods, get_more_methods, update_methods,
  insert_methods, delete_methods, kill_cursors_methods, unknown_methods,
}
use mongobouncer.Wire.Operations.{
  OpQuery, OpMsg, OpReply, OpGetMore, OpUpdate, OpInsert, OpDelete, OpKillCursors, Operation,
}
use mongobouncer.Wire.Package.{
  OpCode, op_query, op_msg, op_reply, op_get_more, op_update, op_insert, op_delete, op_kill_cursors,
  other_code, Header, Package, Lookups,
}
use mongobouncer.Wire.Results.{
  Gives, decoded-Gives, required-Gives, map_decoded-Gives, and_then-Gives, if-Gives,
  malformed-Gives, unfinished-Gives,
}

module _ (pkg : Package) where
  decode_query-Gives : (r : ℕ) (wm : Bytes) → Gives (λ q. q.req_id ≡ r) (decode_query pkg r wm)
  unfolding decode_query
  decode_query-Gives r wm =
      let P : OpQuery → Type 0 = λ q. q.req_id ≡ r in
      required-Gives P _ _ _ λ flags wm1 _. required-Gives P _ _ _ λ name wm2 _.
        required-Gives P _ _ _ λ skip wm3 _. required-Gives P _ _ _ λ return wm4 _.
          required-Gives P _ _ _ λ query wm5 _.
            if-Gives P _ _ _ (required-Gives P _ _ _ (λ selector wm6 _. decoded-Gives P _ refl))
              (decoded-Gives P _ refl)

  decode_sections-Gives :
      (fuel : ℕ) (present : Bool) (m : OpMsg) (r : ℕ) (wm : Bytes)
      → m.req_id ≡ r
      → Gives (λ x. x.req_id ≡ r) (decode_sections pkg fuel present m wm)
  unfolding decode_sections
  decode_sections-Gives zero present m r [] h = decoded-Gives (λ (x : OpMsg). x.req_id ≡ r) m h
  decode_sections-Gives (suc fuel) present m r [] h =
      decoded-Gives (λ (x : OpMsg). x.req_id ≡ r) m h
  decode_sections-Gives zero present m r (b ∷ wm) h = unfinished-Gives (λ (x : OpMsg). x.req_id ≡ r)
  decode_sections-Gives (suc fuel) present m r (b ∷ wm) h =
      let P : OpMsg → Type 0 = λ x. x.req_id ≡ r in
      elim (Bool-cases (present && (length (b ∷ wm) == 4))) [
        | inl last ↦
            rw (last, decode_sections)
              (required-Gives P _ _ _ λ c rest read.
                decode_sections-Gives fuel present (record m { checksum = c }) r rest h)
        | inr other ↦
            rw (other, decode_sections)
              (and_then-Gives P _ _ λ found. decode_sections-Gives fuel present _ r found.1 h)
      ]

  decode_msg-Gives : (r : ℕ) (wm : Bytes) → Gives (λ m. m.req_id ≡ r) (decode_msg pkg r wm)
  unfolding decode_msg
  decode_msg-Gives r wm =
      required-Gives (λ (x : OpMsg). x.req_id ≡ r) _ _ _
        λ flags wm1 _. decode_sections-Gives _ _ _ r wm1 refl

  decode_reply-Gives : (r : ℕ) (wm : Bytes) → Gives (λ x. x.req_id ≡ r) (decode_reply pkg r wm)
  unfolding decode_reply
  decode_reply-Gives r wm =
      let P : OpReply → Type 0 = λ x. x.req_id ≡ r in
      required-Gives P _ _ _ λ flags wm1 _. required-Gives P _ _ _ λ cursor wm2 _.
        required-Gives P _ _ _ λ start wm3 _.
          required-Gives P _ _ _
            λ returned wm4 _. required-Gives P _ _ _ λ documents wm5 _. decoded-Gives P _ refl

  decode_get_more-Gives :
      (r : ℕ) (wm : Bytes) → Gives (λ x. x.req_id ≡ r) (decode_get_more pkg r wm)
  unfolding decode_get_more
  decode_get_more-Gives r wm =
      let P : OpGetMore → Type 0 = λ x. x.req_id ≡ r in
      required-Gives P _ _ _ λ z wm1 _. required-Gives P _ _ _ λ name wm2 _.
        required-Gives P _ _ _
          λ return wm3 _. required-Gives P _ _ _ λ cursor wm4 _. decoded-Gives P _ refl

  decode_update-Gives : (r : ℕ) (wm : Bytes) → Gives (λ x. x.req_id ≡ r) (decode_update pkg r wm)
  unfolding decode_update
  decode_update-Gives r wm =
      let P : OpUpdate → Type 0 = λ x. x.req_id ≡ r in
      required-Gives P _ _ _ λ name wm1 _. required-Gives P _ _ _ λ flags wm2 _.
        required-Gives P _ _ _
          λ selector wm3 _. required-Gives P _ _ _ λ update wm4 _. decoded-Gives P _ refl

  decode_insert-Gives : (r : ℕ) (wm : Bytes) → Gives (λ x. x.req_id ≡ r) (decode_insert pkg r wm)
  unfolding decode_insert
  decode_insert-Gives r wm =
      let P : OpInsert → Type 0 = λ x. x.req_id ≡ r in
      required-Gives P _ _ _ λ flags wm1 _.
        required-Gives P _ _ _
          λ name wm2 _. required-Gives P _ _ _ λ documents wm3 _. decoded-Gives P _ refl

  decode_delete-Gives : (r : ℕ) (wm : Bytes) → Gives (λ x. x.req_id ≡ r) (decode_delete pkg r wm)
  unfolding decode_delete
  decode_delete-Gives r wm =
      let P : OpDelete → Type 0 = λ x. x.req_id ≡ r in
      required-Gives P _ _ _ λ z wm1 _. required-Gives P _ _ _ λ name wm2 _.
        required-Gives P _ _ _
          λ flags wm3 _. required-Gives P _ _ _ λ selector wm4 _. decoded-Gives P _ refl

  decode_kill_cursors-Gives :
      (r : ℕ) (wm : Bytes) → Gives (λ x. x.req_id ≡ r) (decode_kill_cursors pkg r wm)
  unfolding decode_kill_cursors
  decode_kill_cursors-Gives r wm =
      let P : OpKillCursors → Type 0 = λ x. x.req_id ≡ r in
      required-Gives P _ _ _ λ z wm1 _.
        required-Gives P _ _ _ λ n wm2 _. required-Gives P _ _ _ λ ids wm3 _. decoded-Gives P _ refl

module _ {E : Type 0} (pkg : Package) (look : Lookups E) (unicode_lower : ℕ → ℕ) where
  abbrev Carries : OpCode → ℕ → Operation → Type 0
  Carries code r op =
      let methods = methods_of pkg look unicode_lower op in
      (methods.op_code ≡ code) × (methods.request_id ≡ r)

  decode_body-Gives :
      (code : OpCode) (r : ℕ) (body wm : Bytes)
      → Gives (Carries code r) (decode_body pkg code r body wm)
  unfolding decode_body methods_of query_methods msg_methods reply_methods get_more_methods
      update_methods insert_methods delete_methods kill_cursors_methods unknown_methods
  decode_body-Gives op_query r body wm =
      map_decoded-Gives (λ x. x.req_id ≡ r) (Carries op_query r) _ _ (decode_query-Gives pkg r body)
        (λ a h. (refl, h))
  decode_body-Gives op_msg r body wm =
      map_decoded-Gives (λ x. x.req_id ≡ r) (Carries op_msg r) _ _ (decode_msg-Gives pkg r body)
        (λ a h. (refl, h))
  decode_body-Gives op_reply r body wm =
      map_decoded-Gives (λ x. x.req_id ≡ r) (Carries op_reply r) _ _ (decode_reply-Gives pkg r body)
        (λ a h. (refl, h))
  decode_body-Gives op_get_more r body wm =
      map_decoded-Gives (λ x. x.req_id ≡ r) (Carries op_get_more r) _ _
        (decode_get_more-Gives pkg r body) (λ a h. (refl, h))
  decode_body-Gives op_update r body wm =
      map_decoded-Gives (λ x. x.req_id ≡ r) (Carries op_update r) _ _
        (decode_update-Gives pkg r body) (λ a h. (refl, h))
  decode_body-Gives op_insert r body wm =
      map_decoded-Gives (λ x. x.req_id ≡ r) (Carries op_insert r) _ _
        (decode_insert-Gives pkg r body) (λ a h. (refl, h))
  decode_body-Gives op_delete r body wm =
      map_decoded-Gives (λ x. x.req_id ≡ r) (Carries op_delete r) _ _
        (decode_delete-Gives pkg r body) (λ a h. (refl, h))
  decode_body-Gives op_kill_cursors r body wm =
      map_decoded-Gives (λ x. x.req_id ≡ r) (Carries op_kill_cursors r) _ _
        (decode_kill_cursors-Gives pkg r body) (λ a h. (refl, h))
  decode_body-Gives (other_code n) r body wm =
      decoded-Gives (Carries (other_code n) r) _ (refl, refl)

  -- An operation that Decode gives has the opcode and the request id of the message's header, as its methods OpCode and RequestID answer.
  decode-header :
      (wm body : Bytes) (h : Header) (op : Operation)
      → pkg.read_header wm ≡ some (h, body)
      → decode pkg wm ≡ decoded op
      → ((methods_of pkg look unicode_lower op).op_code ≡ h.op_code)
        × ((methods_of pkg look unicode_lower op).request_id ≡ h.request_id)
  unfolding decode
  decode-header wm body h op read e =
      let P = Carries h.op_code h.request_id in
      let given : Gives P (decode pkg wm) =
        rw (read, decode)
          (if-Gives P _ _ _ (malformed-Gives P _)
            (decode_body-Gives h.op_code h.request_id body wm)) in
      given op e
