-- ===== src/Wire/Package.antt =====
-- What mongo/operations.go uses of the MongoDB driver (packages wiremessage, bsoncore and driver).
-- int32s, int64s and flags are bit patterns.
pub mod Laws
use mongobouncer.Base.Lists.{length, All}
use mongobouncer.Base.Text.{Text}
use mongobouncer.Base.{ℕ, ◌+◌, ◌^◌, ◌<◌, ◌≤◌, ◌≡◌, Bool, ◌==◌, Option, some, List, [], ◌∷◌, ◌++◌}
use mongobouncer.Command.Bson.{Document}
use mongobouncer.Wire.Bytes.{Bytes, HasNoZero, append_i32, append_cstring}

-- The constants of wiremessage that the code names; the last constructor stands for the other numbers.
pub data OpCode : Type 0 where
  op_query op_msg op_reply op_get_more op_update op_insert op_delete op_kill_cursors : OpCode
  other_code : ℕ → OpCode

pub data SectionType : Type 0 where
  single_document document_sequence : SectionType
  other_section : ℕ → SectionType

pub record Header : Type 0 where
  pub length : ℕ
  pub request_id : ℕ
  pub response_to : ℕ
  pub op_code : OpCode

-- A pair of functions that append a value to a buffer and read one from the front of a slice.
pub record Field (V : Type 0) : Type 0 where
  pub append : Bytes → V → Bytes
  pub read : Bytes → Option (V × Bytes)

pub record Package : Type 0 where
  pub header_start : Bytes → ℕ → ℕ → OpCode → ℕ × Bytes
  pub update_length : Bytes → ℕ → ℕ → Bytes
  pub read_header : Bytes → Option (Header × Bytes)
  pub query_flags : Field ℕ
  pub query_full_collection_name : Field Bytes
  pub query_number_to_skip : Field ℕ
  pub query_number_to_return : Field ℕ
  pub read_query_query : Bytes → Option (Bytes × Bytes)
  pub read_query_return_fields_selector : Bytes → Option (Bytes × Bytes)
  pub msg_flags : Field ℕ
  pub checksum_present : ℕ
  pub more_to_come : ℕ
  pub read_msg_checksum : Bytes → Option (ℕ × Bytes)
  pub msg_section_type : Field SectionType
  pub format_section_type : SectionType → Text
  pub read_single_document : Bytes → Option (Bytes × Bytes)
  pub read_document_sequence : Bytes → Option ((Bytes × List Bytes) × Bytes)
  pub reply_flags : Field ℕ
  pub reply_cursor_id : Field ℕ
  pub reply_starting_from : Field ℕ
  pub reply_number_returned : Field ℕ
  pub read_reply_documents : Bytes → Option (List Bytes × Bytes)
  pub append_get_more_zero : Bytes → Bytes
  pub append_get_more_full_collection_name : Bytes → Bytes → Bytes
  pub append_get_more_number_to_return : Bytes → ℕ → Bytes
  pub append_get_more_cursor_id : Bytes → ℕ → Bytes
  pub append_kill_cursors_zero : Bytes → Bytes
  pub read_kill_cursors_zero : Bytes → Option (ℕ × Bytes)
  pub kill_cursors_number_ids : Field ℕ
  pub append_kill_cursors_cursor_ids : Bytes → List ℕ → Bytes
  pub read_kill_cursors_cursor_ids : Bytes → ℕ → Option (List ℕ × Bytes)
  pub read_document : Bytes → Option (Bytes × Bytes)

-- What it asks of a BSON document: `Lookup` with a path of keys, and the error that a server's
-- answer carries.
pub record Lookups (E : Type 0) : Type 0 where
  pub document : Document Bytes
  pub int64_at : Bytes → List Text → Option ℕ
  pub binary_at : Bytes → List Text → Option Bytes
  pub extract_error : Bytes → Option E
