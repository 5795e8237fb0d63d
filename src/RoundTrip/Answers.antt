-- ===== src/RoundTrip/Answers.antt =====
-- What RoundTrip of mongo/mongo.go keeps of an answer: the cursor that it names and the server of the
-- transaction.
use mongobouncer.RoundTrip.State.{Mongo, Services, processed, Run, signed64, note}
use mongobouncer.Base.Text.{Text, codes, text_eq}
use mongobouncer.Base.{ℕ, Bool, true, false, not, ◌&&◌, none, some, [], if◌then◌else◌}
use mongobouncer.Caches.{add_cursor, remove_cursor, add_transaction, remove_transaction}
use mongobouncer.Command.Bson.{ℤ, pos}
use mongobouncer.Command.{Command}
use mongobouncer.Parsing.{parse_collection_name}
use mongobouncer.Selection.{is_zero}
use mongobouncer.Wire.Methods.{Methods, methods_of}
use mongobouncer.Wire.Operations.{Operation}

module _ {D E : Type 0} (services : Services D E) where
  open services use {store, shared_cursors, shared_transactions, pkg, look, unicode_lower}

  -- `cursorID, _ := op.CursorID()`
  unfoldable pub cursor_of : Methods E → ℤ
  cursor_of request = elim request.cursor_id [ some w ↦ signed64 w | none ↦ pos 0 ]

  -- The database that is kept with a cursor.
  unfoldable pub cursor_database : Mongo D → Text → Text
  cursor_database g collection =
      let parsed = (parse_collection_name unicode_lower collection).database in
      let name =
        if not (text_eq collection []) && not (text_eq parsed [])
        then parsed
        else codes "default" in
      if text_eq name (codes "default")
        && (not (text_eq g.database_name (codes "dynamic"))
            && not (text_eq g.database_name (codes "default")))
      then g.database_name
      else name

  -- The cursor that the answer names, kept or forgotten.
  unfoldable pub remember_cursor : Methods E → Operation → ℕ → ℕ → Mongo D → Mongo D
  remember_cursor request op server now g =
      let collection = (request.command_and_collection).1 in
      elim (methods_of pkg look unicode_lower op).cursor_id [
        | none ↦ g
        | some w ↦
            if is_zero (signed64 w)
            then if is_zero (cursor_of request) then g else record g {
              cursors = remove_cursor shared_cursors g.cursors (cursor_of request) collection;
            }
            else record g {
              cursors =
                  add_cursor shared_cursors g.cursors (signed64 w) collection (some server)
                    (cursor_database g collection) now;
            }
      ]

  unfoldable pub is_commit_or_abort : Command → Bool
  is_commit_or_abort Command.commit_transaction = true
  is_commit_or_abort Command.abort_transaction = true
  is_commit_or_abort _ = false

  unfoldable pub remember_transaction : Methods E → ℕ → ℕ → Mongo D → Mongo D
  remember_transaction request server now g = elim request.transaction_details [
    | none ↦ g
    | some t ↦
        if t.is_start_transaction
        then record g {
          transactions =
              add_transaction shared_transactions g.transactions t.ls_id (some server) now;
        }
        else if is_commit_or_abort (request.command_and_collection).0
        then record g {
          transactions = remove_transaction shared_transactions g.transactions t.ls_id;
        }
        else g
  ]

  -- The answer is decoded; an error in it is processed and passed on.
  unfoldable pub accept : Methods E → Operation → ℕ → ℕ → ℕ → Run D → Run D
  accept request op server connection now run =
      let told : Run D = elim (methods_of pkg look unicode_lower op).error [
        | some e ↦ note (processed connection) run
        | none ↦ run
      ] in
      record told {
        mongo =
            remember_transaction request server now
              (remember_cursor request op server now told.mongo);
      }
