-- ===== src/Wire/Plain/Laws.antt =====
-- The driver of Wire/Plain reads what it appends.
use mathlib.Core.List.{append_assoc, append-nil}
use mongobouncer.Base.Lists.{length, All}
use mongobouncer.Base.{
  ℕ, ◌+◌, ◌*◌, ◌/◌, ◌%◌, ◌^◌, ◌≡◌, refl, sym, ◌∙◌, ap, some, List, [], ◌∷◌, ◌++◌, arith,
}
use mongobouncer.Wire.Bytes.RoundTrip.{
  append_i32-split, append_cstring-split, read-append_i32, read-append_cstring, read_i32-length,
}
use mongobouncer.Wire.Bytes.{Bytes, HasNoZero, append_i32, read_i32}
use mongobouncer.Wire.Package.Laws.{
  Reads, IsI32, IsI64, IsNamed, IsNamedOp, concat, IsPackage, Consumes, Shrinks,
}
use mongobouncer.Wire.Package.{
  OpCode, op_query, op_msg, op_reply, op_get_more, op_update, op_insert, op_delete, op_kill_cursors,
  other_code, SectionType, single_document, document_sequence, other_section,
}
use mongobouncer.Wire.Plain.{
  plain, i32_field, i64_field, cstring_field, op_number, op_of, header_start, update_length,
  read_header, append_i64, read_i64, append_section_type, read_section_type, append_ids, read_ids,
}
use mongobouncer.Wire.Plain.Documents.{
  document_reads, read_documents-concat, sequence_reads, document-NeverGrows, sequence-NeverGrows,
}

IsI32-Reads : Reads IsI32 i32_field
IsI32-Reads = record { split = append_i32-split; back = read-append_i32 }

cstring-Reads : Reads HasNoZero cstring_field
cstring-Reads = record { split = append_cstring-split; back = read-append_cstring }

append_i64-split : (b : Bytes) (n : ℕ) → append_i64 b n ≡ b ++ append_i64 [] n
unfolding append_i64 append_i32
append_i64-split b n = append_assoc b _ _

read_i64-parts :
    (wm mid rest : Bytes) (low high : ℕ)
    → read_i32 wm ≡ some (low, mid)
    → read_i32 mid ≡ some (high, rest)
    → read_i64 wm ≡ some (low + high * 2 ^ 32, rest)
unfolding read_i64
read_i64-parts wm mid rest low high e f = rw (e, f, read_i64)

read-append_i64 :
    (n : ℕ) (rest : Bytes) → IsI64 n → read_i64 (append_i64 [] n ++ rest) ≡ some (n, rest)
unfolding append_i64 append_i32
read-append_i64 n rest h =
    read_i64-parts (append_i64 [] n ++ rest) (append_i32 [] (n / 2 ^ 32) ++ rest) rest (n % 2 ^ 32)
      (n / 2 ^ 32) (read-append_i32 (n % 2 ^ 32) (append_i32 [] (n / 2 ^ 32) ++ rest) (omega arith))
      (read-append_i32 (n / 2 ^ 32) rest (omega arith))
    ∙ ap (λ m. some (m, rest)) (omega arith)

IsI64-Reads : Reads IsI64 i64_field
IsI64-Reads = record { split = append_i64-split; back = read-append_i64 }

small_number : (code : OpCode) → IsNamedOp code → IsI32 (op_number code)
unfolding op_number
small_number op_query h = omega arith
small_number op_msg h = omega arith
small_number op_reply h = omega arith
small_number op_get_more h = omega arith
small_number op_update h = omega arith
small_number op_insert h = omega arith
small_number op_delete h = omega arith
small_number op_kill_cursors h = omega arith
small_number (other_code n) h = elim h [ ]

op_of_number : (code : OpCode) → IsNamedOp code → op_of (op_number code) ≡ code
unfolding op_of op_number
op_of_number op_query h = refl
op_of_number op_msg h = refl
op_of_number op_reply h = refl
op_of_number op_get_more h = refl
op_of_number op_update h = refl
op_of_number op_insert h = refl
op_of_number op_delete h = refl
op_of_number op_kill_cursors h = refl
op_of_number (other_code n) h = elim h [ ]

read_header-parts :
    (wm w1 w2 w3 body : Bytes) (n r t code : ℕ)
    → read_i32 wm ≡ some (n, w1)
    → read_i32 w1 ≡ some (r, w2)
    → read_i32 w2 ≡ some (t, w3)
    → read_i32 w3 ≡ some (code, body)
    → read_header wm
      ≡ some (record { length = n; request_id = r; response_to = t; op_code = op_of code }, body)
unfolding read_header
read_header-parts wm w1 w2 w3 body n r t code e1 e2 e3 e4 = rw (e1, e2, e3, e4, read_header)

header_back :
    (r t n : ℕ) (code : OpCode) (body : Bytes)
    → IsNamedOp code
    → IsI32 r
    → IsI32 t
    → IsI32 n
    → read_header (update_length ((header_start [] r t code).1 ++ body) 0 n)
      ≡ some (record { length = n; request_id = r; response_to = t; op_code = code }, body)
unfolding update_length header_start append_i32
header_back r t n code body named hr ht hn =
    let coded = append_i32 [] (op_number code) ++ body in
    let answered = append_i32 [] t ++ coded in
    read_header-parts (append_i32 [] n ++ (append_i32 [] r ++ answered))
      (append_i32 [] r ++ answered) answered coded body n r t (op_number code)
      (read-append_i32 n (append_i32 [] r ++ answered) hn) (read-append_i32 r answered hr)
      (read-append_i32 t coded ht) (read-append_i32 (op_number code) body (small_number code named))
    ∙ ap (λ c. some (record { length = n; request_id = r; response_to = t; op_code = c }, body))
        (op_of_number code named)

append_ids-split : (ids : List ℕ) (b : Bytes) → append_ids b ids ≡ b ++ append_ids [] ids
unfolding append_ids
append_ids-split [] b = sym (append-nil b)
append_ids-split (id ∷ ids) b =
    rw
      (
        append_ids-split ids (append_i64 b id),
        append_ids-split ids (append_i64 [] id),
        append_i64-split b id,
      )
      (append_assoc b (append_i64 [] id) (append_ids [] ids))

ids_back :
    (ids : List ℕ) (rest : Bytes)
    → All IsI64 ids
    → read_ids (append_ids [] ids ++ rest) (length ids) ≡ some (ids, rest)
unfolding read_ids append_ids
ids_back [] rest h = refl
ids_back (id ∷ ids) rest h = rw (
  append_ids-split ids (append_i64 [] id),
  append_assoc (append_i64 [] id) (append_ids [] ids) rest,
  read-append_i64 id (append_ids [] ids ++ rest) h.0,
  ids_back ids rest h.1,
  read_ids,
)

named_section :
    (s : SectionType) (rest : Bytes)
    → IsNamed s
    → read_section_type (append_section_type [] s ++ rest) ≡ some (s, rest)
unfolding read_section_type append_section_type
named_section single_document rest h = refl
named_section document_sequence rest h = refl
named_section (other_section n) rest h = elim h [ ]

append_section_type-split :
    (b : Bytes) (s : SectionType) → append_section_type b s ≡ b ++ append_section_type [] s
unfolding append_section_type
append_section_type-split b single_document = refl
append_section_type-split b document_sequence = refl
append_section_type-split b (other_section n) = refl

section_type_length : (s : SectionType) → length (append_section_type [] s) ≡ 1
unfolding append_section_type
section_type_length single_document = refl
section_type_length document_sequence = refl
section_type_length (other_section n) = refl

length_kept :
    (r t n : ℕ) (code : OpCode) (body : Bytes)
    → let buffer = (header_start [] r t code).1 ++ body in
      length (update_length buffer 0 n) ≡ length buffer
unfolding header_start update_length append_i32
length_kept r t n code body = refl

pub plain-IsPackage : IsPackage plain
unfolding header_start append_i32
plain-IsPackage = record {
  header_index = λ r t code. refl;
  header_back = header_back;
  length_kept = length_kept;
  query_flags = IsI32-Reads;
  query_full_collection_name = cstring-Reads;
  query_number_to_skip = IsI32-Reads;
  query_number_to_return = IsI32-Reads;
  query_query = document_reads;
  query_return_fields_selector = document_reads;
  msg_flags = IsI32-Reads;
  msg_checksum = IsI32-Reads;
  msg_section_type = record { split = append_section_type-split; back = named_section };
  section_type_length = section_type_length;
  msg_single_document = document_reads;
  msg_document_sequence = sequence_reads;
  reply_flags = IsI32-Reads;
  reply_cursor_id = IsI64-Reads;
  reply_starting_from = IsI32-Reads;
  reply_number_returned = IsI32-Reads;
  reply_documents = λ docs h. read_documents-concat docs (length (concat docs)) h (omega arith);
  get_more_zero_split = λ b. refl;
  get_more_zero_back = λ rest. read-append_i32 0 rest (omega arith);
  get_more_full_collection_name = cstring-Reads;
  get_more_number_to_return = IsI32-Reads;
  get_more_cursor_id = IsI64-Reads;
  kill_cursors_zero_split = λ b. refl;
  kill_cursors_zero_back = λ rest. read-append_i32 0 rest (omega arith);
  kill_cursors_number_ids = IsI32-Reads;
  kill_cursors_cursor_ids_split = λ b ids. append_ids-split ids b;
  kill_cursors_cursor_ids_back = λ ids rest h small. ids_back ids rest h;
  document = document_reads;
}

section_type-Shrinks : Shrinks read_section_type
unfolding read_section_type
section_type-Shrinks [] s rest e = ground arith
section_type-Shrinks (n ∷ wm) s rest e = ground arith

checksum-Shrinks : Shrinks read_i32
checksum-Shrinks wm n rest e = omega (arith, read_i32-length wm n rest e)

pub plain-Consumes : Consumes plain
plain-Consumes = record {
  section_type = section_type-Shrinks;
  msg_checksum = checksum-Shrinks;
  single_document = document-NeverGrows;
  document_sequence = sequence-NeverGrows;
}
