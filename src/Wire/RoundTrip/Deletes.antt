-- ===== src/Wire/RoundTrip/Deletes.antt =====
-- OP_DELETE and OP_UPDATE of mongo/operations.go, whose code leaves out the zero int32 that the
-- protocol has before the collection's name: the first in Encode, the second in the decoder.
use mongobouncer.Base.Lists.{length, drop}
use mongobouncer.Base.{ℕ, ◌≤◌, ◌≡◌, ◌≢◌, refl, some, [], ◌∷◌, ◌++◌, arith}
use mongobouncer.Wire.Bytes.RoundTrip.{
  append_i32-split, append_cstring-split, read-append_i32, read-append_cstring,
}
use mongobouncer.Wire.Bytes.{Bytes, HasNoZero, append_i32, append_cstring, read_i32, read_cstring}
use mongobouncer.Wire.Decode.{decoded, required, decode, decode_body, decode_delete, decode_update}
use mongobouncer.Wire.Encode.{encode, delete_body}
use mongobouncer.Wire.Operations.{OpUpdate, OpDelete, delete_op}
use mongobouncer.Wire.Package.Laws.{IsPackage, IsI32}
use mongobouncer.Wire.Package.{op_delete, Package}
use mongobouncer.Wire.RoundTrip.Framing.{joined, document_alone}
use mongobouncer.Wire.RoundTrip.Whole.{framed_read}
use mongobouncer.Wire.Results.{Gives, decoded-Gives, required-Gives}
use mongobouncer.Wire.WellFormed.{IsWireDelete}

module _ {pkg : Package} (law : IsPackage pkg) where
  abbrev delete_layout : OpDelete → Bytes
  delete_layout d =
      append_cstring [] d.full_collection_name ++ (append_i32 [] d.flags ++ d.selector)

  delete_body-layout : (d : OpDelete) (b : Bytes) → delete_body pkg d b ≡ b ++ delete_layout d
  unfolding delete_body
  delete_body-layout d =
      joined (λ b. append_cstring-split b d.full_collection_name)
        (joined (λ b. append_i32-split b d.flags) (λ b. refl))

  -- Four bytes of the name are read as the zero.
  read_name :
      (name rest : Bytes)
      → 4 ≤ length name
      → HasNoZero name
      → (n : ℕ) × (read_i32 (append_cstring [] name ++ rest)
          ≡ some (n, append_cstring [] (drop 4 name) ++ rest))
        × HasNoZero (drop 4 name)
  unfolding read_i32 append_cstring
  read_name (a ∷ b ∷ c ∷ d ∷ name) rest long ok = (_, refl, ok.1.1.1.1)
  read_name (a ∷ b ∷ c ∷ []) rest long ok = absurd (omega arith)
  read_name (a ∷ b ∷ []) rest long ok = absurd (omega arith)
  read_name (a ∷ []) rest long ok = absurd (omega arith)
  read_name [] rest long ok = absurd (omega arith)

  decode_delete-layout :
      (r : ℕ) (d : OpDelete)
      → IsWireDelete d
      → 4 ≤ length d.full_collection_name
      → decode_delete pkg r (delete_layout d)
        ≡ decoded (record d { req_id = r; full_collection_name = drop 4 d.full_collection_name })
  unfolding decode_delete required
  decode_delete-layout r d (name, flags, selector) long =
      let rest = append_i32 [] d.flags ++ d.selector in
      let cut = read_name d.full_collection_name rest long name in
      rw (
        cut.1,
        read-append_cstring (drop 4 d.full_collection_name) rest cut.2,
        read-append_i32 d.flags d.selector flags,
        document_alone pkg.read_document law.document d.selector selector,
      )

  -- With a driver that reads what it appends, an encoded OP_DELETE whose collection name has at least four bytes is decoded to one whose name has lost its first four bytes, with the request id 0, if the delete's fields fit their types, its document is whole and its name has no zero byte.
  pub decode-encode_delete :
      (response_to : ℕ) (d : OpDelete)
      → IsI32 response_to
      → IsWireDelete d
      → 4 ≤ length d.full_collection_name
      → decode pkg (encode pkg (delete_op d) response_to)
        ≡ decoded (
            delete_op
              (record d { req_id = 0; full_collection_name = drop 4 d.full_collection_name }))
  unfolding encode decode_body
  decode-encode_delete response_to d h w long =
      framed_read law response_to h op_delete _ _ delete_op _ _ tt (delete_body-layout d) refl
        (decode_delete-layout 0 d w long)

empty_name :
    (rest name left : Bytes)
    → read_cstring (append_i32 [] 0 ++ rest) ≡ some (name, left)
    → name ≡ []
unfolding append_i32 read_cstring
empty_name rest name left e = ground arith

-- No OP_UPDATE that begins with the zero int32 of the wire protocol is decoded to an update of a collection with a name.
pub decode_update_zero :
    (pkg : Package) (r : ℕ) (rest : Bytes) (u : OpUpdate)
    → u.full_collection_name ≢ []
    → decode_update pkg r (append_i32 [] 0 ++ rest) ≢ decoded u
unfolding decode_update
decode_update_zero pkg r rest u named e =
    let P : OpUpdate → Type 0 = λ x. x.full_collection_name ≡ [] in
    let given : Gives P (decode_update pkg r (append_i32 [] 0 ++ rest)) =
      required-Gives P _ _ _ λ name wm1 read. required-Gives P _ _ _ λ flags wm2 _.
        required-Gives P _ _ _ λ selector wm3 _.
          required-Gives P _ _ _
            λ update wm4 _. decoded-Gives P _ (empty_name rest name wm1 read) in
    named (given u e)
