-- ===== src/Wire/Plain/Documents.antt =====
-- The documents and the document sequences that the driver of Wire/Plain reads.
use mathlib.Core.List.{append_assoc}
use mongobouncer.Base.Lists.{length, take, drop, All, length-append}
use mongobouncer.Base.{
  ℕ, zero, suc, ◌+◌, ◌-◌, ◌^◌, ◌<◌, ◌≤◌, ◌≡◌, refl, ◌∙◌, ap, ◌&&◌, true, some, List, [], ◌∷◌, ◌++◌,
  leb, arith, Option-cases, inl, inr,
}
use mongobouncer.Wire.Bytes.RoundTrip.{read-append_i32, read-append_cstring, read_i32-length}
use mongobouncer.Wire.Bytes.{Bytes, HasNoZero, append_i32, append_cstring, read_i32, read_cstring}
use mongobouncer.Wire.Package.Laws.{IsBson, ReadsDocument, concat, NeverGrows}
use mongobouncer.Wire.Plain.{read_document, read_documents, read_sequence}

cstring_length : (s : Bytes) → length (append_cstring [] s) ≡ length s + 1
unfolding append_cstring
cstring_length s = length-append s (0 ∷ [])

take-append : (xs ys : Bytes) → take (length xs) (xs ++ ys) ≡ xs
take-append [] ys = refl
take-append (x ∷ xs) ys = ap (λ l. x ∷ l) (take-append xs ys)

drop-append : (xs ys : Bytes) → drop (length xs) (xs ++ ys) ≡ ys
drop-append [] ys = refl
drop-append (x ∷ xs) ys = drop-append xs ys

length-drop-le : (n : ℕ) (xs : Bytes) → length (drop n xs) ≤ length xs
length-drop-le zero xs = omega arith
length-drop-le (suc n) [] = omega arith
length-drop-le (suc n) (x ∷ xs) = omega (arith, length-drop-le n xs)

read_i32-append :
    (d rest r : Bytes) (n : ℕ)
    → read_i32 d ≡ some (n, r)
    → (left : Bytes) × (read_i32 (d ++ rest) ≡ some (n, left))
unfolding read_i32
read_i32-append (a ∷ b ∷ c ∷ e ∷ d) rest r n read = (d ++ rest, ground arith)
read_i32-append (a ∷ b ∷ c ∷ []) rest r n read = ground arith
read_i32-append (a ∷ b ∷ []) rest r n read = ground arith
read_i32-append (a ∷ []) rest r n read = ground arith
read_i32-append [] rest r n read = ground arith

pub document_reads : ReadsDocument read_document
unfolding read_document
document_reads d rest (long, short, (r, read)) =
    let found = read_i32-append d rest r (length d) read in
    let fits : (leb 5 (length d) && leb (length d) (length (d ++ rest))) ≡ true =
      ground (arith, length-append d rest) in
    rw (found.1, read_document) (rw (fits, take-append d rest, drop-append d rest) refl)

pub read_documents-concat :
    (ds : List Bytes) (fuel : ℕ)
    → All IsBson ds
    → length (concat ds) ≤ fuel
    → read_documents fuel (concat ds) ≡ some (ds, [])
unfolding read_documents
read_documents-concat [] zero h enough = refl
read_documents-concat [] (suc fuel) h enough = refl
read_documents-concat ([] ∷ ds) fuel h enough = absurd (omega (arith, h.0.0))
read_documents-concat ((b ∷ d) ∷ ds) zero h enough = absurd (omega arith)
read_documents-concat ((b ∷ d) ∷ ds) (suc fuel) h enough =
    let shorter : length (concat ds) ≤ fuel = omega (arith, length-append d (concat ds)) in
    rw (
      document_reads (b ∷ d) (concat ds) h.0,
      read_documents-concat ds fuel h.1 shorter,
      read_documents,
    )

read_sequence-parts :
    (wm wm1 region left last identifier : Bytes) (docs : List Bytes) (n : ℕ)
    → read_i32 wm ≡ some (n, wm1)
    → take (n - 4) wm1 ≡ region
    → read_cstring region ≡ some (identifier, left)
    → read_documents (length left) left ≡ some (docs, last)
    → read_sequence wm ≡ some ((identifier, docs), drop (n - 4) wm1)
unfolding read_sequence
read_sequence-parts wm wm1 region left last identifier docs n e f g h =
    rw (e, f, g, read_sequence) (rw h refl)

-- The bytes behind the length, cut where the documents end.
cut :
    (identifier rest : Bytes) (docs : List Bytes)
    → let n = length identifier + 5 + length (concat docs) in
      let region = append_cstring [] identifier ++ concat docs in
      let behind = append_cstring [] identifier ++ (concat docs ++ rest) in
      (take (n - 4) behind ≡ region) × (drop (n - 4) behind ≡ rest)
cut identifier rest docs =
    let region = append_cstring [] identifier ++ concat docs in
    let sized : length identifier + 5 + length (concat docs) - 4 ≡ length region = omega (
      arith,
      length-append (append_cstring [] identifier) (concat docs),
      cstring_length identifier,
    ) in
    let split = append_assoc (append_cstring [] identifier) (concat docs) rest in
    (rw (sized, ← split) (take-append region rest), rw (sized, ← split) (drop-append region rest))

pub sequence_reads :
    (identifier rest : Bytes) (docs : List Bytes)
    → HasNoZero identifier
    → All IsBson docs
    → length identifier + 5 + length (concat docs) < 2 ^ 31
    → read_sequence (
        append_i32 [] (length identifier + 5 + length (concat docs))
        ++ (append_cstring [] identifier ++ (concat docs ++ rest)))
      ≡ some ((identifier, docs), rest)
sequence_reads identifier rest docs named whole short =
    let n = length identifier + 5 + length (concat docs) in
    let behind = append_cstring [] identifier ++ (concat docs ++ rest) in
    read_sequence-parts (append_i32 [] n ++ behind) behind
      (append_cstring [] identifier ++ concat docs) (concat docs) [] identifier docs n
      (read-append_i32 n behind (omega arith)) (cut identifier rest docs).0
      (read-append_cstring identifier (concat docs) named)
      (read_documents-concat docs (length (concat docs)) whole (omega arith))
    ∙ ap (λ left. some ((identifier, docs), left)) (cut identifier rest docs).1

pub document-NeverGrows : NeverGrows read_document
unfolding read_document
document-NeverGrows wm d rest e = elim (Option-cases (read_i32 wm)) [
  | inl missing ↦ ground arith
  | inr ((n, left), read) ↦ ground (arith, length-drop-le n wm)
]

pub sequence-NeverGrows : NeverGrows read_sequence
unfolding read_sequence
sequence-NeverGrows wm found rest e = elim (Option-cases (read_i32 wm)) [
  | inl missing ↦ ground arith
  | inr ((n, left), read) ↦ elim (Option-cases (read_cstring (take (n - 4) left))) [
    | inl missing ↦ ground arith
    | inr ((identifier, region), named) ↦
        elim (Option-cases (read_documents (length region) region)) [
          | inl missing ↦ ground arith
          | inr ((docs, last), all) ↦
              ground (arith, length-drop-le (n - 4) left, read_i32-length wm n left read)
        ]
  ]
]
