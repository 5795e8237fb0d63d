-- ===== src/Wire/Plain.antt =====
-- A driver as the documents of the wire protocol have it, with which the operations of
-- mongo/operations.go run.
pub mod Documents
pub mod Laws
use mongobouncer.Base.Lists.{length, take, drop}
use mongobouncer.Base.{
  ℕ, zero, suc, ◌+◌, ◌-◌, ◌*◌, ◌/◌, ◌%◌, ◌^◌, ◌==◌, ◌&&◌, Bool, Option, none, some, List, [], ◌∷◌,
  ◌++◌, leb, if◌then◌else◌,
}
use mongobouncer.Wire.Bytes.{Bytes, append_i32, append_cstring, read_i32, read_cstring}
use mongobouncer.Wire.Package.{
  OpCode, op_query, op_msg, op_reply, op_get_more, op_update, op_insert, op_delete, op_kill_cursors,
  other_code, SectionType, single_document, document_sequence, other_section, Header, Field,
  Package,
}

unfoldable pub op_number : OpCode → ℕ
op_number op_reply = 1
op_number op_update = 2001
op_number op_insert = 2002
op_number op_query = 2004
op_number op_get_more = 2005
op_number op_delete = 2006
op_number op_kill_cursors = 2007
op_number op_msg = 2013
op_number (other_code n) = n

unfoldable pub op_of : ℕ → OpCode
op_of n =
    if n == 1
    then op_reply
    else if n == 2001
    then op_update
    else if n == 2002
    then op_insert
    else if n == 2004
    then op_query
    else if n == 2005
    then op_get_more
    else if n == 2006
    then op_delete
    else if n == 2007
    then op_kill_cursors
    else if n == 2013
    then op_msg
    else other_code n

unfoldable pub header_start : Bytes → ℕ → ℕ → OpCode → ℕ × Bytes
header_start b r t code =
    (length b, append_i32 (append_i32 (append_i32 (append_i32 b 0) r) t) (op_number code))

unfoldable pub update_length : Bytes → ℕ → ℕ → Bytes
update_length b i n = take i b ++ (append_i32 [] n ++ drop (i + 4) b)

unfoldable pub read_header : Bytes → Option (Header × Bytes)
read_header wm = elim (read_i32 wm) [
  | none ↦ none
  | some (n, wm1) ↦ elim (read_i32 wm1) [
    | none ↦ none
    | some (r, wm2) ↦ elim (read_i32 wm2) [
      | none ↦ none
      | some (t, wm3) ↦ elim (read_i32 wm3) [
        | none ↦ none
        | some (code, body) ↦
            some
              (record { length = n; request_id = r; response_to = t; op_code = op_of code }, body)
      ]
    ]
  ]
]

unfoldable pub append_i64 : Bytes → ℕ → Bytes
append_i64 b n = append_i32 (append_i32 b (n % 2 ^ 32)) (n / 2 ^ 32)

unfoldable pub read_i64 : Bytes → Option (ℕ × Bytes)
read_i64 wm = elim (read_i32 wm) [
  | none ↦ none
  | some (low, wm1) ↦ elim (read_i32 wm1) [
    | none ↦ none
    | some (high, rest) ↦ some (low + high * 2 ^ 32, rest)
  ]
]

unfoldable pub append_section_type : Bytes → SectionType → Bytes
append_section_type b single_document = b ++ (0 ∷ [])
append_section_type b document_sequence = b ++ (1 ∷ [])
append_section_type b (other_section n) = b ++ (n ∷ [])

unfoldable pub read_section_type : Bytes → Option (SectionType × Bytes)
read_section_type [] = none
read_section_type (n ∷ rest) = some (
  if n == 0 then single_document else if n == 1 then document_sequence else other_section n,
  rest,
)

unfoldable pub read_document : Bytes → Option (Bytes × Bytes)
read_document wm = elim (read_i32 wm) [
  | none ↦ none
  | some (n, rest) ↦ if leb 5 n && leb n (length wm) then some (take n wm, drop n wm) else none
]

unfoldable pub read_documents : ℕ → Bytes → Option (List Bytes × Bytes)
read_documents fuel [] = some ([], [])
read_documents zero (b ∷ wm) = none
read_documents (suc fuel) (b ∷ wm) = elim (read_document (b ∷ wm)) [
  | none ↦ none
  | some (d, rest) ↦ elim (read_documents fuel rest) [
    | none ↦ none
    | some (ds, left) ↦ some (d ∷ ds, left)
  ]
]

unfoldable pub read_sequence : Bytes → Option ((Bytes × List Bytes) × Bytes)
read_sequence wm = elim (read_i32 wm) [
  | none ↦ none
  | some (n, wm1) ↦ elim (read_cstring (take (n - 4) wm1)) [
    | none ↦ none
    | some (identifier, region) ↦ elim (read_documents (length region) region) [
      | none ↦ none
      | some (docs, left) ↦ some ((identifier, docs), drop (n - 4) wm1)
    ]
  ]
]

unfoldable pub append_ids : Bytes → List ℕ → Bytes
append_ids b [] = b
append_ids b (id ∷ ids) = append_ids (append_i64 b id) ids

unfoldable pub read_ids : Bytes → ℕ → Option (List ℕ × Bytes)
read_ids wm zero = some ([], wm)
read_ids wm (suc n) = elim (read_i64 wm) [
  | none ↦ none
  | some (id, rest) ↦ elim (read_ids rest n) [
    | none ↦ none
    | some (ids, left) ↦ some (id ∷ ids, left)
  ]
]

abbrev pub i32_field : Field ℕ
i32_field = record { append = append_i32; read = read_i32 }

abbrev pub i64_field : Field ℕ
i64_field = record { append = append_i64; read = read_i64 }

abbrev pub cstring_field : Field Bytes
cstring_field = record { append = append_cstring; read = read_cstring }

abbrev pub plain : Package
plain = record {
  header_start = header_start;
  update_length = update_length;
  read_header = read_header;
  query_flags = i32_field;
  query_full_collection_name = cstring_field;
  query_number_to_skip = i32_field;
  query_number_to_return = i32_field;
  read_query_query = read_document;
  read_query_return_fields_selector = read_document;
  msg_flags = i32_field;
  checksum_present = 1;
  more_to_come = 2;
  read_msg_checksum = read_i32;
  msg_section_type = record { append = append_section_type; read = read_section_type };
  format_section_type = λ stype. [];
  read_single_document = read_document;
  read_document_sequence = read_sequence;
  reply_flags = i32_field;
  reply_cursor_id = i64_field;
  reply_starting_from = i32_field;
  reply_number_returned = i32_field;
  read_reply_documents = λ wm. read_documents (length wm) wm;
  append_get_more_zero = λ b. append_i32 b 0;
  append_get_more_full_collection_name = append_cstring;
  append_get_more_number_to_return = append_i32;
  append_get_more_cursor_id = append_i64;
  append_kill_cursors_zero = λ b. append_i32 b 0;
  read_kill_cursors_zero = read_i32;
  kill_cursors_number_ids = i32_field;
  append_kill_cursors_cursor_ids = append_ids;
  read_kill_cursors_cursor_ids = read_ids;
  read_document = read_document;
}
