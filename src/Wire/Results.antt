-- ===== src/Wire/Results.antt =====
-- Results of the decoders of mongo/operations.go: that a loop has not run out of fuel, and what
-- every value that is given has.
use mongobouncer.Base.Text.{Text}
use mongobouncer.Base.{
  ◌≡◌, ◌≢◌, refl, ap, subst, Bool, true, false, Option, none, some, arith, if◌then◌else◌,
}
use mongobouncer.Wire.Bytes.{Bytes}
use mongobouncer.Wire.Decode.{
  Decoded, decoded, malformed, unfinished, map_decoded, and_then, required,
}

abbrev pub Ends : {A : Type 0} → Decoded A → Type 0
Ends {A} r = r ≢ unfinished

pub decoded-Ends : {A : Type 0} (a : A) → Ends (decoded a)
decoded-Ends a = ground arith

pub malformed-Ends : {A : Type 0} (message : Text) → Ends {A = A} (malformed message)
malformed-Ends message = ground arith

pub required-Ends :
    {A B : Type 0} (o : Option (B × Bytes)) (message : Text) (next : B → Bytes → Decoded A)
    → ((v : B) (rest : Bytes) → o ≡ some (v, rest) → Ends (next v rest))
    → Ends (required o message next)
unfolding required
required-Ends none message next h = ground arith
required-Ends (some (v, rest)) message next h = h v rest refl

pub map_decoded-Ends : {A B : Type 0} (f : A → B) (r : Decoded A) → Ends r → Ends (map_decoded f r)
unfolding map_decoded
map_decoded-Ends f (decoded a) h = ground arith
map_decoded-Ends f (malformed message) h = ground arith
map_decoded-Ends f unfinished h = absurd (h refl)

pub and_then-Ends :
    {A B : Type 0} (r : Decoded A) (next : A → Decoded B)
    → Ends r
    → ((a : A) → r ≡ decoded a → Ends (next a))
    → Ends (and_then r next)
unfolding and_then
and_then-Ends (decoded a) next h more = more a refl
and_then-Ends (malformed message) next h more = ground arith
and_then-Ends unfinished next h more = absurd (h refl)

pub if-Ends :
    {A : Type 0} (b : Bool) (x y : Decoded A) → Ends x → Ends y → Ends (if b then x else y)
if-Ends true x y h k = h
if-Ends false x y h k = k

-- What every value has that a result holds.
abbrev pub Gives : {A : Type 0} → (A → Type 0) → Decoded A → Type 0
Gives {A} P result = (a : A) → result ≡ decoded a → P a

pub decoded-Gives : {A : Type 0} (P : A → Type 0) (a : A) → P a → Gives P (decoded a)
decoded-Gives {A} P a h b e =
    let value : Decoded A → A =
      λ r. elim r [ decoded x ↦ x | malformed message ↦ a | unfinished ↦ a ] in
    subst P (ap value e) h

pub required-Gives :
    {A B : Type 0} (P : A → Type 0) (o : Option (B × Bytes)) (message : Text)
    (next : B → Bytes → Decoded A)
    → ((v : B) (rest : Bytes) → o ≡ some (v, rest) → Gives P (next v rest))
    → Gives P (required o message next)
unfolding required
required-Gives P none message next h a e = ground arith
required-Gives P (some (v, rest)) message next h a e = h v rest refl a e

pub malformed-Gives : {A : Type 0} (P : A → Type 0) (message : Text) → Gives P (malformed message)
malformed-Gives P message a e = ground arith

pub unfinished-Gives : {A : Type 0} (P : A → Type 0) → Gives P unfinished
unfinished-Gives P a e = ground arith

pub map_decoded-Gives :
    {A B : Type 0} (P : A → Type 0) (Q : B → Type 0) (f : A → B) (r : Decoded A)
    → Gives P r
    → ((a : A) → P a → Q (f a))
    → Gives Q (map_decoded f r)
unfolding map_decoded
map_decoded-Gives P Q f (decoded a) h k = decoded-Gives Q (f a) (k a (h a refl))
map_decoded-Gives P Q f (malformed message) h k = malformed-Gives Q message
map_decoded-Gives P Q f unfinished h k = unfinished-Gives Q

pub and_then-Gives :
    {A B : Type 0} (P : B → Type 0) (r : Decoded A) (next : A → Decoded B)
    → ((a : A) → Gives P (next a))
    → Gives P (and_then r next)
unfolding and_then
and_then-Gives P (decoded a) next h = h a
and_then-Gives P (malformed message) next h = malformed-Gives P message
and_then-Gives P unfinished next h = unfinished-Gives P

pub if-Gives :
    {A : Type 0} (P : A → Type 0) (b : Bool) (x y : Decoded A)
    → Gives P x
    → Gives P y
    → Gives P (if b then x else y)
if-Gives P true x y h k = h
if-Gives P false x y h k = k
