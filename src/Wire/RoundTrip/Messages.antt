-- ===== src/Wire/RoundTrip/Messages.antt =====
-- OP_MSG of mongo/operations.go, read back from its encoded body.
use mathlib.Core.List.{append_assoc, append-nil}
use mongobouncer.Base.Lists.{length, All, length-append}
use mongobouncer.Base.{
  ℕ, zero, suc, ◌^◌, ◌<◌, ◌≤◌, ◌≡◌, refl, sym, ◌⊎◌, inl, inr, ◌==◌, Bool, true, false, List, [],
  ◌∷◌, ◌++◌, arith, if◌then◌else◌,
}
use mongobouncer.Wire.Bytes.RoundTrip.{append_i32-split}
use mongobouncer.Wire.Bytes.{Bytes, append_i32}
use mongobouncer.Wire.Decode.{
  decoded, and_then, required, decode_section, decode_sections, decode_msg,
}
use mongobouncer.Wire.Encode.{has_flag, msg_body}
use mongobouncer.Wire.Operations.{OpMsgSection, OpMsg}
use mongobouncer.Wire.Package.Laws.{IsPackage}
use mongobouncer.Wire.Package.{Package}
use mongobouncer.Wire.RoundTrip.Framing.{joined}
use mongobouncer.Wire.RoundTrip.Sections.{
  sections_layout, section_layout, append_sections-layout, section_layout-length,
  decode_section-layout,
}
use mongobouncer.Wire.WellFormed.{IsWireSection, IsWireMsg}

abbrev pub checksum_layout : Bool → ℕ → Bytes
checksum_layout true c = append_i32 [] c
checksum_layout false c = []

checksum_length : (c : ℕ) → length (checksum_layout true c) ≡ 4
unfolding append_i32
checksum_length c = refl

abbrev kept_checksum : Bool → ℕ → ℕ → ℕ
kept_checksum true c old = c
kept_checksum false c old = old

-- Behind a section stand the four bytes of the checksum, so that more than four bytes are left.
more :
    (present : Bool) (c : ℕ) (s ss : Bytes)
    → 0 < length s
    → (present ≡ false) ⊎ (4 < length (s ++ (ss ++ checksum_layout present c)))
more false c s ss h = inl refl
more true c s ss h = inr (
    omega (
      arith,
      length-append s (ss ++ checksum_layout true c),
      length-append ss (checksum_layout true c),
      checksum_length c,
    ))

module _ {pkg : Package} (law : IsPackage pkg) where
  -- A turn of the loop that reads a section.
  turn :
      (f : ℕ) (present : Bool) (m : OpMsg) (wm rest : Bytes) (s : OpMsgSection)
      → decode_section pkg wm ≡ decoded (s, rest)
      → 0 < length wm
      → (present ≡ false) ⊎ (4 < length wm)
      → decode_sections pkg (suc f) present m wm
        ≡ decode_sections pkg f present (record m { sections = m.sections ++ (s ∷ []) }) rest
  unfolding decode_sections and_then
  turn f present m [] rest s read some_bytes more = absurd (omega arith)
  turn f false m (b ∷ wm) rest s read some_bytes more = rw (read, decode_sections) refl
  turn f true m (b ∷ wm) rest s read some_bytes (inl e) = ground arith
  turn f true m (b ∷ wm) rest s read some_bytes (inr more) =
      let e : (length (b ∷ wm) == 4) ≡ false = ground arith in rw (e, read, decode_sections) refl

  done : (f : ℕ) (present : Bool) (m : OpMsg) → decode_sections pkg f present m [] ≡ decoded m
  unfolding decode_sections
  done zero present m = refl
  done (suc f) present m = refl

  read_checksum :
      (f : ℕ) (m : OpMsg) (c : ℕ)
      → c < 2 ^ 32
      → decode_sections pkg (suc f) true m (append_i32 [] c) ≡ decoded (record m { checksum = c })
  unfolding decode_sections append_i32 required
  read_checksum f m c h =
      rw (law.msg_checksum.back c [] h) (done f true (record m { checksum = c }))

  -- The loop reads the sections and the checksum behind them, if its fuel is their length.
  decode_sections-layout :
      (ss : List OpMsgSection) (f : ℕ) (present : Bool) (m : OpMsg) (c : ℕ)
      → All IsWireSection ss
      → c < 2 ^ 32
      → length (sections_layout law ss ++ checksum_layout present c) ≤ f
      → decode_sections pkg f present m (sections_layout law ss ++ checksum_layout present c)
        ≡ decoded (record m {
          sections = m.sections ++ ss;
          checksum = kept_checksum present c m.checksum;
        })
  decode_sections-layout [] f false m c hs h enough = rw (append-nil m.sections) (done f false m)
  decode_sections-layout [] zero true m c hs h enough = absurd (omega (arith, checksum_length c))
  decode_sections-layout [] (suc f) true m c hs h enough =
      rw (append-nil m.sections) (read_checksum f m c h)
  decode_sections-layout (s ∷ ss) zero present m c hs h enough = absurd (
      omega (
        arith,
        section_layout-length law s,
        length-append (section_layout law s ++ sections_layout law ss) (checksum_layout present c),
        length-append (section_layout law s) (sections_layout law ss),
      ))
  decode_sections-layout (s ∷ ss) (suc f) present m c hs h enough =
      let rest = sections_layout law ss ++ checksum_layout present c in
      let e =
        append_assoc (section_layout law s) (sections_layout law ss) (checksum_layout present c) in
      let sized = length-append (section_layout law s) rest in
      let positive = section_layout-length law s in
      let shorter : length (section_layout law s ++ rest) ≤ suc f = rw (← e) enough in
      rw (
        e,
        turn f present m (section_layout law s ++ rest) rest s
            (decode_section-layout law s rest hs.0) (omega arith)
            (more present c (section_layout law s) (sections_layout law ss) positive),
        decode_sections-layout ss f present (record m { sections = m.sections ++ (s ∷ []) }) c hs.1
            h (omega arith),
        append_assoc m.sections (s ∷ []) ss,
      )

  abbrev pub msg_layout : OpMsg → Bytes
  msg_layout m =
      pkg.msg_flags.append [] m.flags
      ++ (sections_layout law m.sections
          ++ checksum_layout (has_flag m.flags pkg.checksum_present) m.checksum)

  append_checksum-layout :
      (present : Bool) (c : ℕ) (b : Bytes)
      → (if present then append_i32 b c else b) ≡ b ++ checksum_layout present c
  append_checksum-layout true c b = append_i32-split b c
  append_checksum-layout false c b = sym (append-nil b)

  pub msg_body-layout : (m : OpMsg) (b : Bytes) → msg_body pkg m b ≡ b ++ msg_layout m
  unfolding msg_body
  msg_body-layout m =
      joined (λ b. law.msg_flags.split b m.flags)
        (joined (append_sections-layout law m.sections)
          (append_checksum-layout (has_flag m.flags pkg.checksum_present) m.checksum))

  same_checksum :
      (present : Bool) (c : ℕ) → (present ≡ true) ⊎ (c ≡ 0) → kept_checksum present c 0 ≡ c
  same_checksum true c h = refl
  same_checksum false c h = ground arith

  pub decode_msg-layout :
      (r : ℕ) (m : OpMsg)
      → IsWireMsg pkg m
      → decode_msg pkg r (msg_layout m) ≡ decoded (record m { req_id = r })
  unfolding decode_msg required
  decode_msg-layout r m (flags, sections, checksum, sent) =
      let present = has_flag m.flags pkg.checksum_present in
      let rest = sections_layout law m.sections ++ checksum_layout present m.checksum in
      rw (
        law.msg_flags.back m.flags rest flags,
        decode_sections-layout m.sections (length rest) present
            (record { req_id = r; flags = m.flags; sections = []; checksum = 0 }) m.checksum
            sections checksum (omega arith),
        same_checksum present m.checksum sent,
        decode_msg,
      )
