-- ===== src/Wire/RoundTrip/Framing.antt =====
-- How the bodies that mongo/operations.go encodes are laid out, and the header around them.
use mathlib.Core.List.{append_assoc, append-nil}
use mongobouncer.Base.Lists.{length}
use mongobouncer.Base.{
  ℕ, ◌%◌, ◌^◌, ◌≡◌, refl, ◌∙◌, sym, ap, subst, false, Option, some, List, [], ◌∷◌, ◌++◌, arith,
}
use mongobouncer.Wire.Bytes.{Bytes}
use mongobouncer.Wire.Decode.{decode, decode_body, is_longer}
use mongobouncer.Wire.Encode.{append_documents, framed}
use mongobouncer.Wire.Package.Laws.{IsPackage, IsI32, IsNamedOp, concat, IsBson, ReadsDocument}
use mongobouncer.Wire.Package.{OpCode, Header, Package}

-- Two writers, one after the other.
pub joined :
    {g h : Bytes → Bytes} {x y : Bytes}
    → ((b : Bytes) → g b ≡ b ++ x)
    → ((b : Bytes) → h b ≡ b ++ y)
    → (b : Bytes) → h (g b) ≡ b ++ (x ++ y)
joined {g} {h} {x} {y} first second b =
    second (g b) ∙ (ap (λ c. c ++ y) (first b) ∙ append_assoc b x y)

pub append_documents-concat : (ds : List Bytes) (b : Bytes) → append_documents b ds ≡ b ++ concat ds
unfolding append_documents
append_documents-concat [] b = sym (append-nil b)
append_documents-concat (d ∷ ds) b =
    append_documents-concat ds (b ++ d) ∙ append_assoc b d (concat ds)

is_longer_wrapped : (n : ℕ) → is_longer (n % 2 ^ 32) n ≡ false
unfolding is_longer
is_longer_wrapped n = ground arith

-- A document with nothing behind it.
pub document_alone :
    (read : Bytes → Option (Bytes × Bytes))
    → ReadsDocument read
    → (d : Bytes) → IsBson d
    → read d ≡ some (d, [])
document_alone read reads d h = subst (λ x. read x ≡ some (d, [])) (append-nil d) (reads d [] h)

module _ {pkg : Package} (law : IsPackage pkg) where
  pub decode-read_header :
      (wm rest : Bytes) (h : Header)
      → pkg.read_header wm ≡ some (h, rest)
      → is_longer h.length (length wm) ≡ false
      → decode pkg wm ≡ decode_body pkg h.op_code h.request_id rest wm
  unfolding decode
  decode-read_header wm rest h read fits = rw (read, decode) (rw (fits) refl)

  whole : ℕ → OpCode → Bytes → Bytes
  whole response_to code rest =
      let buffer = (pkg.header_start [] 0 response_to code).1 ++ rest in
      pkg.update_length buffer 0 (length buffer % 2 ^ 32)

  framed-whole :
      (response_to : ℕ) (code : OpCode) (body : Bytes → Bytes) (rest : Bytes)
      → ((b : Bytes) → body b ≡ b ++ rest)
      → framed pkg response_to code body ≡ whole response_to code rest
  unfolding framed whole
  framed-whole response_to code body rest split = rw (
    law.header_index 0 response_to code,
    split (pkg.header_start [] 0 response_to code).1,
    framed,
    whole,
  )

  -- What Decode does with a framed body.
  pub decode-framed :
      (response_to : ℕ) (code : OpCode) (body : Bytes → Bytes) (rest : Bytes)
      → IsNamedOp code
      → IsI32 response_to
      → ((b : Bytes) → body b ≡ b ++ rest)
      → decode pkg (framed pkg response_to code body)
        ≡ decode_body pkg code 0 rest (framed pkg response_to code body)
  unfolding whole
  decode-framed response_to code body rest named h split =
      let buffer = (pkg.header_start [] 0 response_to code).1 ++ rest in
      let n = length buffer % 2 ^ 32 in
      rw (framed-whole response_to code body rest split) (
        decode-read_header (whole response_to code rest) rest _
          (law.header_back 0 response_to n code rest named (omega arith) h (omega arith))
          (rw (law.length_kept 0 response_to n code rest) (is_longer_wrapped (length buffer))))
