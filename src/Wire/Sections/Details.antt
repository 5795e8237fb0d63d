-- ===== src/Wire/Sections/Details.antt =====
-- TransactionDetails of an OP_MSG in mongo/operations.go.
use mongobouncer.Base.Lists.{All}
use mongobouncer.Base.Text.{codes}
use mongobouncer.Base.{
  ◌≡◌, refl, ap, ◌⊎◌, inl, inr, false, none, some, List, [], ◌∷◌, ◌++◌, Option-cases,
}
use mongobouncer.Wire.Bytes.{Bytes}
use mongobouncer.Wire.Operations.{TransactionDetails, OpMsgSection, single, sequence}
use mongobouncer.Wire.Package.{Lookups}
use mongobouncer.Wire.Sections.{details_of, first_details}

module _ {E : Type 0} (look : Lookups E) where
  -- What a document says of its transaction, as the driver's specification names the fields:
  -- startTransaction may be left out.
  pub record Carries (msg : Bytes) (details : TransactionDetails) : Type 0 where
    pub session : look.binary_at msg (codes "lsid" ∷ codes "id" ∷ []) ≡ some details.ls_id
    pub number : look.int64_at msg (codes "txnNumber" ∷ []) ≡ some details.txn_number
    pub commits : look.document.boolean_at msg (codes "autocommit") ≡ some details.autocommit
    pub starts :
        (look.document.boolean_at msg (codes "startTransaction")
          ≡ some details.is_start_transaction)
        ⊎ ((look.document.boolean_at msg (codes "startTransaction") ≡ none)
            × (details.is_start_transaction ≡ false))

  -- One of the three fields is missing, or is of another type.
  abbrev pub Lacks : Bytes → Type 0
  Lacks msg =
      (look.binary_at msg (codes "lsid" ∷ codes "id" ∷ []) ≡ none)
      ⊎ ((look.int64_at msg (codes "txnNumber" ∷ []) ≡ none)
          ⊎ (look.document.boolean_at msg (codes "autocommit") ≡ none))

  -- A section that says nothing of a transaction, or not all of it.
  abbrev pub HasNoDetails : OpMsgSection → Type 0
  HasNoDetails (single msg) = Lacks msg
  HasNoDetails (sequence identifier msgs) = Unit

  abbrev pub FirstDetails : List OpMsgSection → TransactionDetails → Type 0
  FirstDetails ss details =
      (before : List OpMsgSection) × (msg : Bytes) × (after : List OpMsgSection) × (ss
        ≡ before ++ (single msg ∷ after))
      × All HasNoDetails before
      × Carries msg details

  details_of-cases :
      (msg : Bytes)
      → ((details_of look msg ≡ none) × Lacks msg)
        ⊎ ((details : TransactionDetails) × (details_of look msg ≡ some details)
            × Carries msg details)
  unfolding details_of
  details_of-cases msg = elim (Option-cases (look.binary_at msg (codes "lsid" ∷ codes "id" ∷ []))) [
    | inl e ↦ inl (rw (e, details_of) refl, inl e)
    | inr (ls_id, e) ↦ elim (Option-cases (look.int64_at msg (codes "txnNumber" ∷ []))) [
      | inl k ↦ inl (rw (e, k, details_of) refl, inr (inl k))
      | inr (txn_number, k) ↦
          elim (Option-cases (look.document.boolean_at msg (codes "autocommit"))) [
            | inl l ↦ inl (rw (e, k, l, details_of) refl, inr (inr l))
            | inr (autocommit, l) ↦
                elim (Option-cases (look.document.boolean_at msg (codes "startTransaction"))) [
                  | inl s ↦ inr (
                    record {
                      ls_id = ls_id;
                      txn_number = txn_number;
                      is_start_transaction = false;
                      autocommit = autocommit;
                    },
                    rw (e, k, l, s, details_of) refl,
                    record { session = e; number = k; commits = l; starts = inr (s, refl) },
                  )
                  | inr (start, s) ↦ inr (
                    record {
                      ls_id = ls_id;
                      txn_number = txn_number;
                      is_start_transaction = start;
                      autocommit = autocommit;
                    },
                    rw (e, k, l, s, details_of) refl,
                    record { session = e; number = k; commits = l; starts = inl s },
                  )
                ]
          ]
    ]
  ]

  -- A message has no transaction details exactly when every document among the sections of the OP_MSG lacks lsid.id, txnNumber or autocommit; otherwise they are what the first document that has the three says in these fields, and it starts a transaction when its startTransaction is true.
  pub first_details-cases :
      (ss : List OpMsgSection)
      → ((first_details look ss ≡ none) × All HasNoDetails ss)
        ⊎ ((details : TransactionDetails) × (first_details look ss ≡ some details)
            × FirstDetails ss details)
  unfolding first_details
  first_details-cases [] = inl (refl, tt)
  first_details-cases (single msg ∷ ss) = elim (details_of-cases msg) [
    | inr (details, e, has) ↦
        inr (details, rw (e, first_details) refl, ([], msg, ss, refl, tt, has))
    | inl (e, lacks) ↦ elim (first_details-cases ss) [
      | inl (nothing, all) ↦ inl (rw (e, first_details) nothing, (lacks, all))
      | inr (details, found, (before, doc, after, same, all, has)) ↦ inr (
        details,
        rw (e, first_details) found,
        (single msg ∷ before, doc, after, ap (λ l. single msg ∷ l) same, (lacks, all), has),
      )
    ]
  ]
  first_details-cases (sequence identifier msgs ∷ ss) = elim (first_details-cases ss) [
    | inl (nothing, all) ↦ inl (nothing, (tt, all))
    | inr (details, found, (before, doc, after, same, all, has)) ↦ inr (
      details,
      found,
      (
        sequence identifier msgs ∷ before,
        doc,
        after,
        ap (λ l. sequence identifier msgs ∷ l) same,
        (tt, all),
        has,
      ),
    )
  ]
