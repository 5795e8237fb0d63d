-- ===== src/Wire/Package/Laws.antt =====
-- What mongo/operations.go relies on in the driver: that a value which the driver appends can be
-- read back by it, and where the bytes of a header, a document and a sequence end.
use mongobouncer.Base.Lists.{length, All}
use mongobouncer.Base.{ℕ, ◌+◌, ◌^◌, ◌<◌, ◌≤◌, ◌≡◌, Option, some, List, [], ◌∷◌, ◌++◌}
use mongobouncer.Wire.Bytes.{Bytes, HasNoZero, append_i32, append_cstring, read_i32}
use mongobouncer.Wire.Package.{
  OpCode, other_code, SectionType, single_document, document_sequence, other_section, Field,
  Package,
}

abbrev pub IsI32 : ℕ → Type 0
IsI32 w = w < 2 ^ 32

abbrev pub IsI64 : ℕ → Type 0
IsI64 w = w < 2 ^ 64

abbrev pub IsNamed : SectionType → Type 0
IsNamed single_document = Unit
IsNamed document_sequence = Unit
IsNamed (other_section n) = ⊥

abbrev pub IsNamedOp : OpCode → Type 0
IsNamedOp (other_code n) = ⊥
IsNamedOp _ = Unit

-- A document begins with its own length, as an int32, and is at least as long as the empty one.
abbrev pub IsBson : Bytes → Type 0
IsBson d = (5 ≤ length d) × (length d < 2 ^ 31) × ((r : Bytes) × (read_i32 d ≡ some (length d, r)))

-- The documents, one after another.
abbrev pub concat : List Bytes → Bytes
concat [] = []
concat (d ∷ ds) = d ++ concat ds

-- A value is appended behind the buffer, and what was appended can be read.
pub record Reads {V : Type 0} (Ok : V → Type 0) (f : Field V) : Type 0 where
  pub split : (buffer : Bytes) (v : V) → f.append buffer v ≡ buffer ++ f.append [] v
  pub back : (v : V) (rest : Bytes) → Ok v → f.read (f.append [] v ++ rest) ≡ some (v, rest)

-- Two functions that the driver gives for different messages.
abbrev pub across : {V : Type 0} → (Bytes → V → Bytes) → (Bytes → Option (V × Bytes)) → Field V
across append read = record { append = append; read = read }

-- A document is read whole from the front of a slice.
abbrev pub ReadsDocument : (Bytes → Option (Bytes × Bytes)) → Type 0
ReadsDocument read = (d rest : Bytes) → IsBson d → read (d ++ rest) ≡ some (d, rest)

pub record IsPackage (pkg : Package) : Type 0 where
  pub header_index : (r t : ℕ) (code : OpCode) → (pkg.header_start [] r t code).0 ≡ 0
  pub header_back :
      (r t n : ℕ) (code : OpCode) (body : Bytes)
      → IsNamedOp code
      → IsI32 r
      → IsI32 t
      → IsI32 n
      → pkg.read_header (pkg.update_length ((pkg.header_start [] r t code).1 ++ body) 0 n)
        ≡ some (record { length = n; request_id = r; response_to = t; op_code = code }, body)
  pub length_kept :
      (r t n : ℕ) (code : OpCode) (body : Bytes)
      → let buffer = (pkg.header_start [] r t code).1 ++ body in
        length (pkg.update_length buffer 0 n) ≡ length buffer
  pub query_flags : Reads IsI32 pkg.query_flags
  pub query_full_collection_name : Reads HasNoZero pkg.query_full_collection_name
  pub query_number_to_skip : Reads IsI32 pkg.query_number_to_skip
  pub query_number_to_return : Reads IsI32 pkg.query_number_to_return
  pub query_query : ReadsDocument pkg.read_query_query
  pub query_return_fields_selector : ReadsDocument pkg.read_query_return_fields_selector
  pub msg_flags : Reads IsI32 pkg.msg_flags
  pub msg_checksum : Reads IsI32 (across append_i32 pkg.read_msg_checksum)
  pub msg_section_type : Reads IsNamed pkg.msg_section_type
  pub section_type_length : (s : SectionType) → length (pkg.msg_section_type.append [] s) ≡ 1
  pub msg_single_document : ReadsDocument pkg.read_single_document
  pub msg_document_sequence :
      (identifier rest : Bytes) (docs : List Bytes)
      → HasNoZero identifier
      → All IsBson docs
      → length identifier + 5 + length (concat docs) < 2 ^ 31
      → pkg.read_document_sequence (
          append_i32 [] (length identifier + 5 + length (concat docs))
          ++ (append_cstring [] identifier ++ (concat docs ++ rest)))
        ≡ some ((identifier, docs), rest)
  pub reply_flags : Reads IsI32 pkg.reply_flags
  pub reply_cursor_id : Reads IsI64 pkg.reply_cursor_id
  pub reply_starting_from : Reads IsI32 pkg.reply_starting_from
  pub reply_number_returned : Reads IsI32 pkg.reply_number_returned
  pub reply_documents :
      (docs : List Bytes)
      → All IsBson docs
      → pkg.read_reply_documents (concat docs) ≡ some (docs, [])
  pub get_more_zero_split :
      (buffer : Bytes) → pkg.append_get_more_zero buffer ≡ buffer ++ pkg.append_get_more_zero []
  pub get_more_zero_back :
      (rest : Bytes)
      → pkg.read_kill_cursors_zero (pkg.append_get_more_zero [] ++ rest) ≡ some (0, rest)
  pub get_more_full_collection_name :
      Reads HasNoZero
        (across pkg.append_get_more_full_collection_name pkg.query_full_collection_name.read)
  pub get_more_number_to_return :
      Reads IsI32 (across pkg.append_get_more_number_to_return pkg.query_number_to_return.read)
  pub get_more_cursor_id :
      Reads IsI64 (across pkg.append_get_more_cursor_id pkg.reply_cursor_id.read)
  pub kill_cursors_zero_split :
      (buffer : Bytes)
      → pkg.append_kill_cursors_zero buffer ≡ buffer ++ pkg.append_kill_cursors_zero []
  pub kill_cursors_zero_back :
      (rest : Bytes)
      → pkg.read_kill_cursors_zero (pkg.append_kill_cursors_zero [] ++ rest) ≡ some (0, rest)
  pub kill_cursors_number_ids : Reads IsI32 pkg.kill_cursors_number_ids
  pub kill_cursors_cursor_ids_split :
      (buffer : Bytes) (ids : List ℕ)
      → pkg.append_kill_cursors_cursor_ids buffer ids
        ≡ buffer ++ pkg.append_kill_cursors_cursor_ids [] ids
  pub kill_cursors_cursor_ids_back :
      (ids : List ℕ) (rest : Bytes)
      → All IsI64 ids
      → length ids < 2 ^ 31
      → pkg.read_kill_cursors_cursor_ids
          (pkg.append_kill_cursors_cursor_ids [] ids ++ rest)
          (length ids)
        ≡ some (ids, rest)
  pub document : ReadsDocument pkg.read_document

-- Readers that leave fewer bytes, or at least no more than they were given.
abbrev pub Shrinks : {V : Type 0} → (Bytes → Option (V × Bytes)) → Type 0
Shrinks {V} read =
    (wm : Bytes) (v : V) (rest : Bytes) → read wm ≡ some (v, rest) → length rest < length wm

abbrev pub NeverGrows : {V : Type 0} → (Bytes → Option (V × Bytes)) → Type 0
NeverGrows {V} read =
    (wm : Bytes) (v : V) (rest : Bytes) → read wm ≡ some (v, rest) → length rest ≤ length wm

pub record Consumes (pkg : Package) : Type 0 where
  pub section_type : Shrinks pkg.msg_section_type.read
  pub msg_checksum : Shrinks pkg.read_msg_checksum
  pub single_document : NeverGrows pkg.read_single_document
  pub document_sequence : NeverGrows pkg.read_document_sequence
