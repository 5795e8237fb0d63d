-- ===== src/Command/Found.antt =====
-- What the search of mongo/command.go finds.
use mongobouncer.Base.Lists.{All}
use mongobouncer.Base.Text.{Text}
use mongobouncer.Base.{
  ◌≡◌, refl, sym, ap, ◌≢◌, ◌⊎◌, inl, inr, true, false, none, some, List, [], ◌∷◌, arith, Bool-cases,
  Option-cases,
}
use mongobouncer.Command.Bson.{Document, IsTyped}
use mongobouncer.Command.{
  Command, unknown, text_of, collection_commands, int32_commands, int64_commands, array_commands,
  first_string, first_present, command_and_collection,
}

command_discrete : Discrete Command
command_discrete = hlevel

-- A command of a list.
abbrev pub In : Command → List Command → Type 0
In c [] = ⊥
In c (x ∷ xs) = (c ≡ x) ⊎ In c xs

module _ {D : Type 0} (doc : Document D) (d : D) where
  first_string-none :
      (cs : List Command)
      → first_string doc d cs ≡ none
      → All (λ c. doc.string_at d (text_of c) ≡ none) cs
  unfolding first_string
  first_string-none [] h = tt
  first_string-none (c ∷ cs) h = (ground arith, first_string-none cs (ground arith))

  none-first_string :
      (cs : List Command)
      → All (λ c. doc.string_at d (text_of c) ≡ none) cs
      → first_string doc d cs ≡ none
  unfolding first_string
  none-first_string [] a = refl
  none-first_string (c ∷ cs) a = ground (arith, a.0, none-first_string cs a.1)

  first_present-none :
      (cs : List Command)
      → first_present doc d cs ≡ none
      → All (λ c. doc.present_at d (text_of c) ≡ false) cs
  unfolding first_present
  first_present-none [] h = tt
  first_present-none (c ∷ cs) h = (ground arith, first_present-none cs (ground arith))

  none-first_present :
      (cs : List Command)
      → All (λ c. doc.present_at d (text_of c) ≡ false) cs
      → first_present doc d cs ≡ none
  unfolding first_present
  none-first_present [] a = refl
  none-first_present (c ∷ cs) a = ground (arith, a.0, none-first_present cs a.1)

  first_string-In :
      (cs : List Command) (c : Command) (s : Text)
      → first_string doc d cs ≡ some (c, s)
      → In c cs × (doc.string_at d (text_of c) ≡ some s)
  unfolding first_string
  first_string-In [] c s h = absurd (ground arith)
  first_string-In (x ∷ cs) c s h = elim (Option-cases (doc.string_at d (text_of x))) [
    | inl e ↦ let rest = first_string-In cs c s (ground arith) in (inr rest.0, rest.1)
    | inr (t, e) ↦ let same : c ≡ x = ground arith in (inl same, ground arith)
  ]

  first_present-In :
      (cs : List Command) (c : Command)
      → first_present doc d cs ≡ some c
      → In c cs × (doc.present_at d (text_of c) ≡ true)
  unfolding first_present
  first_present-In [] c h = absurd (ground arith)
  first_present-In (x ∷ cs) c h = elim (Bool-cases (doc.present_at d (text_of x))) [
    | inr e ↦ let rest = first_present-In cs c (ground arith) in (inr rest.0, rest.1)
    | inl e ↦ let same : c ≡ x = ground arith in (inl same, ground arith)
  ]

  first_string-only :
      (cs : List Command) (c : Command) (s : Text)
      → In c cs
      → doc.string_at d (text_of c) ≡ some s
      → ((k : Command) → k ≢ c → doc.string_at d (text_of k) ≡ none)
      → first_string doc d cs ≡ some (c, s)
  unfolding first_string
  first_string-only [] c s i h o = absurd i
  first_string-only (x ∷ cs) c s i h o = elim (command_discrete x c) [
    | yes e ↦ let here = ap (λ k. doc.string_at d (text_of k)) e in ground arith
    | no n ↦ elim i [
      | inl e ↦ absurd (n (sym e))
      | inr j ↦ ground (arith, o x n, first_string-only cs c s j h o)
    ]
  ]

  -- The command of a document with a string under the name of one collection command, and no
  -- string under the name of any other command, is that command, on the collection that the
  -- string names.
  pub command_and_collection-only :
      (c : Command) (s : Text)
      → In c collection_commands
      → doc.string_at d (text_of c) ≡ some s
      → ((k : Command) → k ≢ c → doc.string_at d (text_of k) ≡ none)
      → command_and_collection doc d ≡ (c, s)
  unfolding command_and_collection
  command_and_collection-only c s i h o =
      rw (first_string-only collection_commands c s i h o, command_and_collection) refl

  -- Where a string counts as a value, either a document's command is unknown, and no name of a
  -- collection command leads to a string and no other name of a command to any value; or its
  -- command's name leads to a value.
  pub command_and_collection-cases :
      IsTyped doc
      → ((command_and_collection doc d ≡ (unknown, []))
          × All (λ c. doc.string_at d (text_of c) ≡ none) collection_commands
          × All (λ c. doc.present_at d (text_of c) ≡ false) int32_commands
          × All (λ c. doc.present_at d (text_of c) ≡ false) int64_commands
          × All (λ c. doc.present_at d (text_of c) ≡ false) array_commands)
        ⊎ (doc.present_at d (text_of (command_and_collection doc d).0) ≡ true)
  unfolding command_and_collection
  command_and_collection-cases v = elim (Option-cases (first_string doc d collection_commands)) [
    | inr ((c, s), e) ↦
        let (_, found) = first_string-In collection_commands c s e in
        inr (rw (e, command_and_collection) (v.string_present d (text_of c) s found))
    | inl e ↦ elim (Option-cases (first_present doc d int32_commands)) [
      | inr (c, f) ↦
          inr (rw (e, command_and_collection) (rw f (first_present-In int32_commands c f).1))
      | inl f ↦ elim (Option-cases (first_present doc d int64_commands)) [
        | inr (c, g) ↦
            inr (rw (e, command_and_collection) (rw (f, g) (first_present-In int64_commands c g).1))
        | inl g ↦ elim (Option-cases (first_present doc d array_commands)) [
          | inr (c, h) ↦ inr (
              rw (e, command_and_collection) (rw (f, g, h) (first_present-In array_commands c h).1))
          | inl h ↦ inl (
            rw (e, command_and_collection) (rw (f, g, h) refl),
            first_string-none collection_commands e,
            first_present-none int32_commands f,
            first_present-none int64_commands g,
            first_present-none array_commands h,
          )
        ]
      ]
    ]
  ]
