-- ===== src/Wire/Termination.antt =====
-- Decode of mongo/operations.go ends: the loop over the sections of an OP_MSG needs no more turns
-- than the message has bytes.
use mongobouncer.Base.Lists.{length}
use mongobouncer.Base.{
  ℕ, zero, suc, ◌<◌, ◌≤◌, ◌≡◌, ◌≢◌, ◌==◌, ◌&&◌, Bool, [], ◌∷◌, arith, Option-cases, Bool-cases, inl,
  inr,
}
use mongobouncer.Wire.Bytes.{Bytes}
use mongobouncer.Wire.Decode.{
  decoded, unfinished, required, section_of, decode_section, decode_sections, decode_msg,
  decode_query, decode_reply, decode_get_more, decode_update, decode_insert, decode_delete,
  decode_kill_cursors, decode_body, decode,
}
use mongobouncer.Wire.Operations.{OpMsgSection, OpMsg}
use mongobouncer.Wire.Results.{
  Ends, decoded-Ends, malformed-Ends, required-Ends, map_decoded-Ends, and_then-Ends, if-Ends,
}
use mongobouncer.Wire.Package.Laws.{Consumes}
use mongobouncer.Wire.Package.{
  SectionType, OpCode, op_query, op_msg, op_reply, op_get_more, op_update, op_insert, op_delete,
  op_kill_cursors, other_code, single_document, document_sequence, other_section, Package,
}

module _ {pkg : Package} (law : Consumes pkg) where
  section_of-length :
      (stype : SectionType) (wm rest : Bytes) (s : OpMsgSection)
      → section_of pkg stype wm ≡ decoded (s, rest)
      → length rest ≤ length wm
  unfolding section_of required
  section_of-length single_document wm rest s e =
      elim (Option-cases (pkg.read_single_document wm)) [
        | inl missing ↦ ground arith
        | inr ((msg, left), read) ↦ ground (arith, law.single_document wm msg left read)
      ]
  section_of-length document_sequence wm rest s e =
      elim (Option-cases (pkg.read_document_sequence wm)) [
        | inl missing ↦ ground arith
        | inr ((found, left), read) ↦ ground (arith, law.document_sequence wm found left read)
      ]
  section_of-length (other_section n) wm rest s e = ground arith

  -- A section that is read leaves fewer bytes.
  decode_section-length :
      (wm rest : Bytes) (s : OpMsgSection)
      → decode_section pkg wm ≡ decoded (s, rest)
      → length rest < length wm
  unfolding decode_section required
  decode_section-length wm rest s e = elim (Option-cases (pkg.msg_section_type.read wm)) [
    | inl missing ↦ ground arith
    | inr ((stype, wm1), read) ↦
        let shorter = law.section_type wm stype wm1 read in
        ground (arith, section_of-length stype wm1 rest s)
  ]

  section_of-Ends : (stype : SectionType) (wm : Bytes) → Ends (section_of pkg stype wm)
  unfolding section_of
  section_of-Ends single_document wm = required-Ends _ _ _ (λ msg rest _. decoded-Ends _)
  section_of-Ends document_sequence wm = required-Ends _ _ _ (λ found rest _. decoded-Ends _)
  section_of-Ends (other_section n) wm = ground arith

  decode_section-Ends : (wm : Bytes) → Ends (decode_section pkg wm)
  unfolding decode_section
  decode_section-Ends wm = required-Ends _ _ _ (λ stype wm1 _. section_of-Ends stype wm1)

  -- Fuel for every byte is enough for the loop.
  decode_sections-Ends :
      (fuel : ℕ) (present : Bool) (m : OpMsg) (wm : Bytes)
      → length wm ≤ fuel
      → Ends (decode_sections pkg fuel present m wm)
  unfolding decode_sections
  decode_sections-Ends zero present m [] h = ground arith
  decode_sections-Ends (suc fuel) present m [] h = ground arith
  decode_sections-Ends zero present m (b ∷ wm) h = absurd (omega arith)
  decode_sections-Ends (suc fuel) present m (b ∷ wm) h =
      elim (Bool-cases (present && (length (b ∷ wm) == 4))) [
        | inl last ↦
            rw (last, decode_sections)
              (required-Ends _ _ _ λ c rest read.
                let shorter = law.msg_checksum (b ∷ wm) c rest read in
                decode_sections-Ends fuel present (record m { checksum = c }) rest (omega arith))
        | inr other ↦
            rw (other, decode_sections)
              (and_then-Ends _ _ (decode_section-Ends (b ∷ wm)) λ found read.
                let shorter = decode_section-length (b ∷ wm) found.1 found.0 read in
                decode_sections-Ends fuel present _ found.1 (omega arith))
      ]

  decode_msg-Ends : (r : ℕ) (wm : Bytes) → Ends (decode_msg pkg r wm)
  unfolding decode_msg
  decode_msg-Ends r wm =
      required-Ends _ _ _ λ flags wm1 _. decode_sections-Ends (length wm1) _ _ wm1 (omega arith)

module _ (pkg : Package) where
  decode_query-Ends : (r : ℕ) (wm : Bytes) → Ends (decode_query pkg r wm)
  unfolding decode_query
  decode_query-Ends r wm = required-Ends _ _ _ λ flags wm1 _. required-Ends _ _ _ λ name wm2 _.
      required-Ends _ _ _ λ skip wm3 _. required-Ends _ _ _ λ return wm4 _.
        required-Ends _ _ _ λ query wm5 _.
          if-Ends _ _ _ (required-Ends _ _ _ (λ selector wm6 _. decoded-Ends _)) (decoded-Ends _)

  decode_reply-Ends : (r : ℕ) (wm : Bytes) → Ends (decode_reply pkg r wm)
  unfolding decode_reply
  decode_reply-Ends r wm = required-Ends _ _ _ λ flags wm1 _. required-Ends _ _ _ λ cursor wm2 _.
      required-Ends _ _ _ λ start wm3 _.
        required-Ends _ _ _ λ returned wm4 _. required-Ends _ _ _ λ documents wm5 _. decoded-Ends _

  decode_get_more-Ends : (r : ℕ) (wm : Bytes) → Ends (decode_get_more pkg r wm)
  unfolding decode_get_more
  decode_get_more-Ends r wm = required-Ends _ _ _ λ z wm1 _. required-Ends _ _ _ λ name wm2 _.
      required-Ends _ _ _ λ return wm3 _. required-Ends _ _ _ λ cursor wm4 _. decoded-Ends _

  decode_update-Ends : (r : ℕ) (wm : Bytes) → Ends (decode_update pkg r wm)
  unfolding decode_update
  decode_update-Ends r wm = required-Ends _ _ _ λ name wm1 _. required-Ends _ _ _ λ flags wm2 _.
      required-Ends _ _ _ λ selector wm3 _. required-Ends _ _ _ λ update wm4 _. decoded-Ends _

  decode_insert-Ends : (r : ℕ) (wm : Bytes) → Ends (decode_insert pkg r wm)
  unfolding decode_insert
  decode_insert-Ends r wm = required-Ends _ _ _ λ flags wm1 _.
      required-Ends _ _ _ λ name wm2 _. required-Ends _ _ _ λ documents wm3 _. decoded-Ends _

  decode_delete-Ends : (r : ℕ) (wm : Bytes) → Ends (decode_delete pkg r wm)
  unfolding decode_delete
  decode_delete-Ends r wm = required-Ends _ _ _ λ z wm1 _. required-Ends _ _ _ λ name wm2 _.
      required-Ends _ _ _ λ flags wm3 _. required-Ends _ _ _ λ selector wm4 _. decoded-Ends _

  decode_kill_cursors-Ends : (r : ℕ) (wm : Bytes) → Ends (decode_kill_cursors pkg r wm)
  unfolding decode_kill_cursors
  decode_kill_cursors-Ends r wm =
      required-Ends _ _ _
        λ z wm1 _. required-Ends _ _ _ λ n wm2 _. required-Ends _ _ _ λ ids wm3 _. decoded-Ends _

module _ {pkg : Package} (law : Consumes pkg) where
  decode_body-Ends :
      (code : OpCode) (r : ℕ) (body wm : Bytes) → Ends (decode_body pkg code r body wm)
  unfolding decode_body
  decode_body-Ends op_query r body wm = map_decoded-Ends _ _ (decode_query-Ends pkg r body)
  decode_body-Ends op_msg r body wm = map_decoded-Ends _ _ (decode_msg-Ends law r body)
  decode_body-Ends op_reply r body wm = map_decoded-Ends _ _ (decode_reply-Ends pkg r body)
  decode_body-Ends op_get_more r body wm = map_decoded-Ends _ _ (decode_get_more-Ends pkg r body)
  decode_body-Ends op_update r body wm = map_decoded-Ends _ _ (decode_update-Ends pkg r body)
  decode_body-Ends op_insert r body wm = map_decoded-Ends _ _ (decode_insert-Ends pkg r body)
  decode_body-Ends op_delete r body wm = map_decoded-Ends _ _ (decode_delete-Ends pkg r body)
  decode_body-Ends op_kill_cursors r body wm =
      map_decoded-Ends _ _ (decode_kill_cursors-Ends pkg r body)
  decode_body-Ends (other_code n) r body wm = decoded-Ends _

  -- Decode gives an operation or an error on every message: its loop over the sections of an OP_MSG ends within as many turns as the message has bytes, if the driver's readers of a section's type and of a checksum consume a byte and its readers of documents add none.
  pub decode_ends : (wm : Bytes) → decode pkg wm ≢ unfinished
  unfolding decode
  decode_ends wm = elim (Option-cases (pkg.read_header wm)) [
    | inl missing ↦ rw (missing, decode) (malformed-Ends _)
    | inr ((header, body), read) ↦
        rw (read, decode)
          (if-Ends _ _ _ (malformed-Ends _)
            (decode_body-Ends header.op_code header.request_id body wm))
  ]
