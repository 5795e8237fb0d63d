-- ===== src/Wire/Tests.antt =====
-- The operations of mongo/operations.go with the driver of Wire/Plain.
use mongobouncer.Base.Lists.{All}
use mongobouncer.Base.Text.{codes}
use mongobouncer.Base.{
  ℕ, ◌≡◌, refl, ◌≢◌, ◌⊎◌, inl, Bool, true, false, not, ◌==◌, ◌&&◌, if◌then◌else◌, none, some, List,
  [], ◌∷◌, ◌++◌, arith,
}
use mongobouncer.Wire.Bytes.{Bytes, HasNoZero, append_i32, append_cstring, read_i32}
use mongobouncer.Wire.Decode.{decoded, unfinished, decode, decode_update}
use mongobouncer.Wire.Encode.{encode, has_flag}
use mongobouncer.Wire.Operations.{
  TransactionDetails, OpMsgSection, single, sequence, OpMsg, OpUpdate, OpDelete, Operation, msg_op,
  delete_op,
}
use mongobouncer.Wire.Package.Laws.{IsBson}
use mongobouncer.Wire.Package.{Lookups}
use mongobouncer.Wire.Plain.Laws.{plain-IsPackage, plain-Consumes}
use mongobouncer.Wire.Plain.{plain}
use mongobouncer.Wire.RoundTrip.Deletes.{decode-encode_delete, decode_update_zero}
use mongobouncer.Wire.RoundTrip.Whole.{decode-encode}
use mongobouncer.Wire.Sections.Details.{FirstDetails, HasNoDetails, first_details-cases}
use mongobouncer.Wire.Sections.{first_details}
use mongobouncer.Wire.Termination.{decode_ends}
use mongobouncer.Wire.WellFormed.{IsWire, as_sent}

abbrev empty_document : Bytes
empty_document = 5 ∷ 0 ∷ 0 ∷ 0 ∷ 0 ∷ []

empty_document-IsBson : IsBson empty_document
unfolding read_i32
empty_document-IsBson = (omega arith, omega arith, (0 ∷ [], refl))

-- A message with a document, a sequence of two and a checksum.
abbrev message : OpMsg
message = record {
  req_id = 9;
  flags = 1;
  sections =
      single empty_document
      ∷ sequence (codes "documents") (empty_document ∷ empty_document ∷ [])
      ∷ [];
  checksum = 77;
}

zero_free : Bytes → Bool
zero_free [] = true
zero_free (b ∷ s) = not (b == 0) && zero_free s

zero_free-HasNoZero : (s : Bytes) → zero_free s ≡ true → HasNoZero s
unfolding zero_free
zero_free-HasNoZero [] e = tt
zero_free-HasNoZero (b ∷ s) e = ((λ z. ground arith), zero_free-HasNoZero s (ground arith))

message-IsWire : IsWire plain (msg_op message)
unfolding has_flag zero_free
message-IsWire = (
  omega arith,
  (
    empty_document-IsBson,
    (
      (
        zero_free-HasNoZero (codes "documents") refl,
        (empty_document-IsBson, (empty_document-IsBson, tt)),
        omega arith,
      ),
      tt,
    ),
  ),
  omega arith,
  inl refl,
)

decode-encode_example :
    decode plain (encode plain (msg_op message) 3) ≡ decoded (as_sent (msg_op message))
decode-encode_example =
    decode-encode plain-IsPackage 3 (omega arith) (msg_op message) message-IsWire

abbrev removal : OpDelete
removal = record {
  req_id = 4;
  full_collection_name = codes "shop.items";
  flags = 1;
  selector = empty_document;
}

decode-encode_delete_example :
    decode plain (encode plain (delete_op removal) 3)
    ≡ decoded (delete_op (record removal { req_id = 0; full_collection_name = codes ".items" }))
unfolding zero_free
decode-encode_delete_example =
    decode-encode_delete plain-IsPackage 3 removal (omega arith)
      (zero_free-HasNoZero (codes "shop.items") refl, omega arith, empty_document-IsBson)
      (omega arith)

abbrev change : OpUpdate
change = record {
  req_id = 4;
  full_collection_name = codes "shop.items";
  flags = 0;
  selector = empty_document;
  update = empty_document;
}

-- What the protocol has behind the zero of an OP_UPDATE: the name, the flags and two documents.
abbrev behind_zero : Bytes
behind_zero =
    append_cstring [] change.full_collection_name
    ++ (append_i32 [] change.flags ++ (change.selector ++ change.update))

decode_update_zero_example : decode_update plain 4 (append_i32 [] 0 ++ behind_zero) ≢ decoded change
decode_update_zero_example = decode_update_zero plain 4 behind_zero change (λ e. ground arith)

decode_ends_example : decode plain (1 ∷ 2 ∷ 3 ∷ []) ≢ unfinished
decode_ends_example = decode_ends plain-Consumes (1 ∷ 2 ∷ 3 ∷ [])

-- A driver's lookups under which only the document that begins with 1 is in a transaction.
abbrev look : Lookups ℕ
look = record {
  document = record {
    string_at = λ d key. none;
    present_at = λ d key. false;
    int32_at = λ d key. none;
    boolean_at = λ d key. some false;
  };
  int64_at = λ d path. some 12;
  binary_at = λ d path. elim d [ [] ↦ none | b ∷ rest ↦ if b == 1 then some rest else none ];
  extract_error = λ d. none;
}

abbrev sections : List OpMsgSection
sections =
    single (5 ∷ [])
    ∷ sequence (codes "documents") []
    ∷ single (1 ∷ 8 ∷ [])
    ∷ single (1 ∷ 9 ∷ [])
    ∷ []

first_details-cases_example :
    ((first_details look sections ≡ none) × All (HasNoDetails look) sections)
    ⊎ ((details : TransactionDetails) × (first_details look sections ≡ some details)
        × FirstDetails look sections details)
first_details-cases_example = first_details-cases look sections

-- The bytes of an OP_MSG without sections: a header and the flags.
abbrev bytes : Bytes
bytes =
    append_i32 [] 20
    ++ (append_i32 [] 6 ++ (append_i32 [] 0 ++ (append_i32 [] 2013 ++ append_i32 [] 0)))

abbrev read_back : Operation
read_back = msg_op (record { req_id = 6; flags = 0; sections = []; checksum = 0 })
