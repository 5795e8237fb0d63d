-- ===== src/Wire/RoundTrip/Queries.antt =====
-- OP_QUERY, OP_REPLY and OP_KILL_CURSORS of mongo/operations.go, read back from their encoded
-- bodies.
use mathlib.Core.List.{append-nil}
use mongobouncer.Base.Lists.{length}
use mongobouncer.Base.Text.{Text}
use mongobouncer.Base.{
  ℕ, ◌%◌, ◌^◌, ◌≡◌, refl, sym, ◌⊎◌, inl, inr, ◌==◌, [], ◌∷◌, ◌++◌, arith, ltb, if◌then◌else◌,
}
use mongobouncer.Wire.Bytes.{Bytes}
use mongobouncer.Wire.Decode.{decoded, required, decode_query, decode_reply, decode_kill_cursors}
use mongobouncer.Wire.Encode.{to_i32, query_body, reply_body, kill_cursors_body}
use mongobouncer.Wire.Operations.{OpQuery, OpReply, OpKillCursors}
use mongobouncer.Wire.Package.Laws.{IsPackage, concat, IsBson}
use mongobouncer.Wire.Package.{Package}
use mongobouncer.Wire.RoundTrip.Framing.{joined, append_documents-concat, document_alone}
use mongobouncer.Wire.WellFormed.{IsWireQuery, IsWireReply, IsWireKillCursors}

module _ {pkg : Package} (law : IsPackage pkg) where
  abbrev pub reply_layout : OpReply → Bytes
  reply_layout r =
      pkg.reply_flags.append [] r.flags
      ++ (pkg.reply_cursor_id.append [] r.cursor_id
          ++ (pkg.reply_starting_from.append [] r.starting_from
              ++ (pkg.reply_number_returned.append [] r.num_returned ++ concat r.documents)))

  pub reply_body-layout : (r : OpReply) (b : Bytes) → reply_body pkg r b ≡ b ++ reply_layout r
  unfolding reply_body
  reply_body-layout r =
      joined (λ b. law.reply_flags.split b r.flags)
        (joined (λ b. law.reply_cursor_id.split b r.cursor_id)
          (joined (λ b. law.reply_starting_from.split b r.starting_from)
            (joined (λ b. law.reply_number_returned.split b r.num_returned)
              (append_documents-concat r.documents))))

  pub decode_reply-layout :
      (n : ℕ) (r : OpReply)
      → IsWireReply r
      → decode_reply pkg n (reply_layout r) ≡ decoded (record r { req_id = n })
  unfolding decode_reply required
  decode_reply-layout n r (flags, cursor, from, returned, documents) =
      let counted = pkg.reply_number_returned.append [] r.num_returned ++ concat r.documents in
      let started = pkg.reply_starting_from.append [] r.starting_from ++ counted in
      rw (
        law.reply_flags.back r.flags (pkg.reply_cursor_id.append [] r.cursor_id ++ started) flags,
        law.reply_cursor_id.back r.cursor_id started cursor,
        law.reply_starting_from.back r.starting_from counted from,
        law.reply_number_returned.back r.num_returned (concat r.documents) returned,
        law.reply_documents r.documents documents,
      )

  abbrev pub kill_cursors_layout : OpKillCursors → Bytes
  kill_cursors_layout k =
      pkg.append_kill_cursors_zero []
      ++ (pkg.kill_cursors_number_ids.append [] (length k.cursor_ids % 2 ^ 32)
          ++ pkg.append_kill_cursors_cursor_ids [] k.cursor_ids)

  pub kill_cursors_body-layout :
      (k : OpKillCursors) (b : Bytes) → kill_cursors_body pkg k b ≡ b ++ kill_cursors_layout k
  unfolding kill_cursors_body to_i32
  kill_cursors_body-layout k = joined law.kill_cursors_zero_split (
      joined (λ b. law.kill_cursors_number_ids.split b (length k.cursor_ids % 2 ^ 32))
        (λ b. law.kill_cursors_cursor_ids_split b k.cursor_ids))

  pub decode_kill_cursors-layout :
      (r : ℕ) (k : OpKillCursors)
      → IsWireKillCursors k
      → decode_kill_cursors pkg r (kill_cursors_layout k) ≡ decoded (record k { req_id = r })
  unfolding decode_kill_cursors required
  decode_kill_cursors-layout r k (ids, small) =
      let e : length k.cursor_ids % 2 ^ 32 ≡ length k.cursor_ids = omega arith in
      let written = pkg.append_kill_cursors_cursor_ids [] k.cursor_ids in
      rw (
        e,
        law.kill_cursors_zero_back
            (pkg.kill_cursors_number_ids.append [] (length k.cursor_ids) ++ written),
        law.kill_cursors_number_ids.back (length k.cursor_ids) written (omega arith),
        ← append-nil written,
        law.kill_cursors_cursor_ids_back k.cursor_ids [] ids small,
      )

  abbrev pub query_layout : OpQuery → Bytes
  query_layout q =
      pkg.query_flags.append [] q.flags
      ++ (pkg.query_full_collection_name.append [] q.full_collection_name
          ++ (pkg.query_number_to_skip.append [] q.number_to_skip
              ++ (pkg.query_number_to_return.append [] q.number_to_return
                  ++ (q.query ++ q.return_fields_selector))))

  append_selector-layout : (s b : Bytes) → (if length s == 0 then b else b ++ s) ≡ b ++ s
  append_selector-layout [] b = sym (append-nil b)
  append_selector-layout (x ∷ s) b = ground arith

  pub query_body-layout : (q : OpQuery) (b : Bytes) → query_body pkg q b ≡ b ++ query_layout q
  unfolding query_body
  query_body-layout q =
      joined (λ b. law.query_flags.split b q.flags)
        (joined (λ b. law.query_full_collection_name.split b q.full_collection_name)
          (joined (λ b. law.query_number_to_skip.split b q.number_to_skip)
            (joined (λ b. law.query_number_to_return.split b q.number_to_return)
              (joined (λ b. refl) (append_selector-layout q.return_fields_selector)))))

  selector_read :
      (q : OpQuery) (n : ℕ) (message : Text) (s : Bytes)
      → (s ≡ []) ⊎ IsBson s
      → let plain : OpQuery = record q { req_id = n; return_fields_selector = [] } in
        (if ltb 0 (length s)
          then required
              (pkg.read_query_return_fields_selector s)
              message
              (λ selector rest. decoded (record plain { return_fields_selector = selector }))
          else decoded plain)
        ≡ decoded (record q { req_id = n; return_fields_selector = s })
  unfolding required
  selector_read q n message [] h = refl
  selector_read q n message (x ∷ s) (inl e) = ground arith
  selector_read q n message (x ∷ s) (inr bson) =
      rw
        (document_alone pkg.read_query_return_fields_selector law.query_return_fields_selector
          (x ∷ s) bson)
        (ground arith)

  pub decode_query-layout :
      (n : ℕ) (q : OpQuery)
      → IsWireQuery q
      → decode_query pkg n (query_layout q) ≡ decoded (record q { req_id = n })
  unfolding decode_query required
  decode_query-layout n q (flags, name, skip, return, query, selector) =
      let queried = q.query ++ q.return_fields_selector in
      let returned = pkg.query_number_to_return.append [] q.number_to_return ++ queried in
      let skipped = pkg.query_number_to_skip.append [] q.number_to_skip ++ returned in
      rw
        (
          law.query_flags.back q.flags
              (pkg.query_full_collection_name.append [] q.full_collection_name ++ skipped) flags,
          law.query_full_collection_name.back q.full_collection_name skipped name,
          law.query_number_to_skip.back q.number_to_skip returned skip,
          law.query_number_to_return.back q.number_to_return queried return,
          law.query_query q.query q.return_fields_selector query,
        )
        (selector_read q n _ q.return_fields_selector selector)
