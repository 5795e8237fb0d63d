-- ===== src/Wire/RoundTrip/Sections.antt =====
-- The sections of an OP_MSG of mongo/operations.go, read back from their encoded bytes.
use mathlib.Core.List.{append_assoc, append-nil}
use mongobouncer.Base.Lists.{length, length-append}
use mongobouncer.Base.{ℕ, ◌+◌, ◌%◌, ◌^◌, ◌<◌, ◌≡◌, refl, sym, List, [], ◌∷◌, ◌++◌, arith}
use mongobouncer.Wire.Bytes.RoundTrip.{append_i32-split, append_cstring-split}
use mongobouncer.Wire.Bytes.{Bytes, append_i32, append_cstring}
use mongobouncer.Wire.Decode.{decoded, required, decode_section, section_of}
use mongobouncer.Wire.Encode.{to_i32, add_lengths, append_section, append_sections}
use mongobouncer.Wire.Operations.{OpMsgSection, single, sequence}
use mongobouncer.Wire.Package.Laws.{IsPackage, concat}
use mongobouncer.Wire.Package.{Package, single_document, document_sequence}
use mongobouncer.Wire.RoundTrip.Framing.{joined, append_documents-concat}
use mongobouncer.Wire.WellFormed.{IsWireSection}

-- The int32 that the loop adds up is the length of the documents, where that is an int32.
add_lengths-concat :
    (ds : List Bytes) (n : ℕ)
    → n + length (concat ds) < 2 ^ 31
    → add_lengths n ds ≡ n + length (concat ds)
unfolding add_lengths to_i32
add_lengths-concat [] n h = omega arith
add_lengths-concat (d ∷ ds) n h =
    let e : (n + length d % 2 ^ 32) % 2 ^ 32 ≡ n + length d =
      omega (arith, length-append d (concat ds)) in
    rw e (
      omega (
        arith,
        length-append d (concat ds),
        add_lengths-concat ds (n + length d) (omega (arith, length-append d (concat ds))),
      ))

module _ {pkg : Package} (law : IsPackage pkg) where
  abbrev pub section_layout : OpMsgSection → Bytes
  section_layout (single msg) = pkg.msg_section_type.append [] single_document ++ msg
  section_layout (sequence identifier msgs) =
      pkg.msg_section_type.append [] document_sequence
      ++ (append_i32 [] (add_lengths ((length identifier + 5) % 2 ^ 32) msgs)
          ++ (append_cstring [] identifier ++ concat msgs))

  append_section-layout :
      (s : OpMsgSection) (b : Bytes) → append_section pkg b s ≡ b ++ section_layout s
  unfolding append_section to_i32
  append_section-layout (single msg) =
      joined (λ b. law.msg_section_type.split b single_document) (λ b. refl)
  append_section-layout (sequence identifier msgs) =
      joined (λ b. law.msg_section_type.split b document_sequence)
        (joined (λ b. append_i32-split b (add_lengths ((length identifier + 5) % 2 ^ 32) msgs))
          (joined (λ b. append_cstring-split b identifier) (append_documents-concat msgs)))

  abbrev pub sections_layout : List OpMsgSection → Bytes
  sections_layout [] = []
  sections_layout (s ∷ ss) = section_layout s ++ sections_layout ss

  pub append_sections-layout :
      (ss : List OpMsgSection) (b : Bytes) → append_sections pkg b ss ≡ b ++ sections_layout ss
  unfolding append_sections
  append_sections-layout [] b = sym (append-nil b)
  append_sections-layout (s ∷ ss) b = joined (append_section-layout s) (append_sections-layout ss) b

  -- A section has a byte for its type, and more.
  pub section_layout-length : (s : OpMsgSection) → 0 < length (section_layout s)
  section_layout-length (single msg) = omega (
    arith,
    law.section_type_length single_document,
    length-append (pkg.msg_section_type.append [] single_document) msg,
  )
  section_layout-length (sequence identifier msgs) =
      let sized =
        append_i32 [] (add_lengths ((length identifier + 5) % 2 ^ 32) msgs)
        ++ (append_cstring [] identifier ++ concat msgs) in
      omega (
        arith,
        law.section_type_length document_sequence,
        length-append (pkg.msg_section_type.append [] document_sequence) sized,
      )

  pub decode_section-layout :
      (s : OpMsgSection) (rest : Bytes)
      → IsWireSection s
      → decode_section pkg (section_layout s ++ rest) ≡ decoded (s, rest)
  unfolding decode_section section_of required
  decode_section-layout (single msg) rest bson = rw (
    append_assoc (pkg.msg_section_type.append [] single_document) msg rest,
    law.msg_section_type.back single_document (msg ++ rest) tt,
    law.msg_single_document msg rest bson,
  )
  decode_section-layout (sequence identifier msgs) rest (name, documents, small) =
      let named = append_cstring [] identifier in
      let n = length identifier + 5 + length (concat msgs) in
      let e : add_lengths ((length identifier + 5) % 2 ^ 32) msgs ≡ n =
        omega (arith, add_lengths-concat msgs ((length identifier + 5) % 2 ^ 32) (omega arith)) in
      rw (
        e,
        append_assoc (pkg.msg_section_type.append [] document_sequence)
            (append_i32 [] n ++ (named ++ concat msgs)) rest,
        append_assoc (append_i32 [] n) (named ++ concat msgs) rest,
        append_assoc named (concat msgs) rest,
        law.msg_section_type.back document_sequence
            (append_i32 [] n ++ (named ++ (concat msgs ++ rest))) tt,
        law.msg_document_sequence identifier rest msgs name documents small,
      )
