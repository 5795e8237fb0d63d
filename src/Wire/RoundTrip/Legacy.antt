-- ===== src/Wire/RoundTrip/Legacy.antt =====
-- OP_UPDATE, OP_INSERT and OP_GET_MORE of
-- mongo/operations.go, read back from their encoded bodies.
use mathlib.Core.List.{append-nil}
use mongobouncer.Base.{ℕ, ◌≡◌, refl, [], ◌++◌}
use mongobouncer.Wire.Bytes.RoundTrip.{
  append_i32-split, append_cstring-split, read-append_i32, read-append_cstring,
}
use mongobouncer.Wire.Bytes.{Bytes, append_i32, append_cstring}
use mongobouncer.Wire.Decode.{decoded, required, decode_get_more, decode_update, decode_insert}
use mongobouncer.Wire.Encode.{get_more_body, update_body, insert_body}
use mongobouncer.Wire.Operations.{OpGetMore, OpUpdate, OpInsert}
use mongobouncer.Wire.Package.Laws.{IsPackage, concat}
use mongobouncer.Wire.Package.{Package}
use mongobouncer.Wire.RoundTrip.Framing.{joined, append_documents-concat, document_alone}
use mongobouncer.Wire.WellFormed.{IsWireGetMore, IsWireUpdate, IsWireInsert}

module _ {pkg : Package} (law : IsPackage pkg) where
  abbrev pub update_layout : OpUpdate → Bytes
  update_layout u =
      append_cstring [] u.full_collection_name
      ++ (append_i32 [] u.flags ++ (u.selector ++ u.update))

  pub update_body-layout : (u : OpUpdate) (b : Bytes) → update_body pkg u b ≡ b ++ update_layout u
  unfolding update_body
  update_body-layout u =
      joined (λ b. append_cstring-split b u.full_collection_name)
        (joined (λ b. append_i32-split b u.flags) (joined (λ b. refl) (λ b. refl)))

  pub decode_update-layout :
      (r : ℕ) (u : OpUpdate)
      → IsWireUpdate u
      → decode_update pkg r (update_layout u) ≡ decoded (record u { req_id = r })
  unfolding decode_update required
  decode_update-layout r u (name, flags, selector, update) = rw (
    read-append_cstring u.full_collection_name (append_i32 [] u.flags ++ (u.selector ++ u.update))
        name,
    read-append_i32 u.flags (u.selector ++ u.update) flags,
    law.document u.selector u.update selector,
    document_alone pkg.read_document law.document u.update update,
  )

  abbrev pub insert_layout : OpInsert → Bytes
  insert_layout i =
      append_i32 [] i.flags ++ (append_cstring [] i.full_collection_name ++ concat i.documents)

  pub insert_body-layout : (i : OpInsert) (b : Bytes) → insert_body pkg i b ≡ b ++ insert_layout i
  unfolding insert_body
  insert_body-layout i =
      joined (λ b. append_i32-split b i.flags)
        (joined (λ b. append_cstring-split b i.full_collection_name)
          (append_documents-concat i.documents))

  pub decode_insert-layout :
      (r : ℕ) (i : OpInsert)
      → IsWireInsert i
      → decode_insert pkg r (insert_layout i) ≡ decoded (record i { req_id = r })
  unfolding decode_insert required
  decode_insert-layout r i (flags, name, documents) = rw (
    read-append_i32 i.flags (append_cstring [] i.full_collection_name ++ concat i.documents) flags,
    read-append_cstring i.full_collection_name (concat i.documents) name,
    law.reply_documents i.documents documents,
  )

  abbrev pub get_more_layout : OpGetMore → Bytes
  get_more_layout g =
      pkg.append_get_more_zero []
      ++ (pkg.append_get_more_full_collection_name [] g.full_collection_name
          ++ (pkg.append_get_more_number_to_return [] g.number_to_return
              ++ pkg.append_get_more_cursor_id [] g.cursor_id))

  pub get_more_body-layout :
      (g : OpGetMore) (b : Bytes) → get_more_body pkg g b ≡ b ++ get_more_layout g
  unfolding get_more_body
  get_more_body-layout g = joined law.get_more_zero_split (
      joined (λ b. law.get_more_full_collection_name.split b g.full_collection_name)
        (joined (λ b. law.get_more_number_to_return.split b g.number_to_return)
          (λ b. law.get_more_cursor_id.split b g.cursor_id)))

  pub decode_get_more-layout :
      (r : ℕ) (g : OpGetMore)
      → IsWireGetMore g
      → decode_get_more pkg r (get_more_layout g) ≡ decoded (record g { req_id = r })
  unfolding decode_get_more required
  decode_get_more-layout r g (name, to_return, cursor) =
      let numbered = pkg.append_get_more_number_to_return [] g.number_to_return in
      let identified = pkg.append_get_more_cursor_id [] g.cursor_id in
      rw (
        law.get_more_zero_back (
            pkg.append_get_more_full_collection_name [] g.full_collection_name
            ++ (numbered ++ identified)),
        law.get_more_full_collection_name.back g.full_collection_name (numbered ++ identified) name,
        law.get_more_number_to_return.back g.number_to_return identified to_return,
        ← append-nil identified,
        law.get_more_cursor_id.back g.cursor_id [] cursor,
      )
