-- ===== src/Institution/Rights.antt =====
-- The methods on institutional rights of packages/institution/src/ledger.ts.
use ultratokenizer.Base.{
  Text, text_eq, Bool, false, not, ◌&&◌, ◌||◌, List, [], ◌∷◌, Option, none, some, ok, err, ltb,
  ◌==◌, length, find, filter, ◌>>=◌, ◌>>◌, throw_if, rethrow, map_result,
}
use ultratokenizer.Domain.Value.{Value, arr, obj, object_prototype, items, texts, get}
use ultratokenizer.Domain.Viem.{Viem}
use ultratokenizer.Domain.Claim.{get_claim_usage_id}
use ultratokenizer.Institution.Errors.{
  LedgerResult, invalid_input, storage_unavailable, right_conflict, let_through,
}
use ultratokenizer.Institution.Fields.{record_of, hash, address, integer, reference, max_amount}
use ultratokenizer.Institution.Types.{InstitutionRight, RegisterRightInput, RightRow, Store}
use ultratokenizer.Institution.Store.{has_record, shares_identifier, insert_right}
use ultratokenizer.Institution.Snapshots.{right_row, right_snapshot}
use ultratokenizer.Institution.Transaction.{Action, Method, transaction, reads, with_input}

-- `{ sourceId, claimId }`
abbrev pub claim_identity : Text → Text → Value
claim_identity source_id claim_id =
    obj object_prototype (texts (("sourceId", source_id) ∷ ("claimId", claim_id) ∷ []))

-- All seven columns are those of the input.
abbrev pub is_exact : RightRow → RightRow → Bool
is_exact new row =
    text_eq row.right_id new.right_id
    && text_eq row.source_id new.source_id
    && text_eq row.record_reference new.record_reference
    && text_eq row.claim_id new.claim_id
    && text_eq row.claim_usage_id new.claim_usage_id
    && text_eq row.holder new.holder
    && text_eq row.milligrams new.milligrams

abbrev pub registered_row : Text → Text → Text → RegisterRightInput → RightRow
registered_row right_id claim_id claim_usage_id input = record {
  right_id = right_id;
  source_id = input.source_id;
  record_reference = input.record_reference;
  claim_id = claim_id;
  claim_usage_id = claim_usage_id;
  holder = input.holder;
  milligrams = input.milligrams;
}

module _ (viem : Viem) where
  unfoldable pub import_input : Value → LedgerResult RightRow
  import_input value = do
    es ←
        record_of
          ("rightId" ∷ "sourceId" ∷ "recordReference" ∷ "claimId" ∷ "holder" ∷ "milligrams" ∷ [])
          value
    source_id ← hash (get "sourceId" es)
    claim_id ← hash (get "claimId" es)
    right_id ← hash (get "rightId" es)
    record_reference ← reference (get "recordReference" es)
    claim_usage_id ← let_through (get_claim_usage_id viem (claim_identity source_id claim_id))
    holder ← address viem (get "holder" es)
    milligrams ← integer (get "milligrams" es) max_amount false
    ok (record {
      right_id = right_id;
      source_id = source_id;
      record_reference = record_reference;
      claim_id = claim_id;
      claim_usage_id = claim_usage_id;
      holder = holder;
      milligrams = milligrams;
    })

  unfoldable pub import_inputs : Value → LedgerResult (List RightRow)
  unfolding import_input
  import_inputs (arr values) = do
    throw_if (length (items values) == 0 || ltb 1000 (length (items values))) invalid_input
    map_result import_input (items values)
  import_inputs _ = err invalid_input

  -- `if (matches.length) …`, by the rows that share an identifier with the input.
  unfoldable pub import_match : RightRow → List RightRow → Action InstitutionRight
  import_match input [] store = do
    store' ← insert_right input store
    row ← right_row input.right_id store'
    right ← right_snapshot viem row store'
    ok (right, store')
  import_match input (row ∷ rest) store = do
    throw_if (not (length rest == 0) || not (is_exact input row)) right_conflict
    right ← right_snapshot viem row store
    ok (right, store)

  unfoldable pub import_one : RightRow → Action InstitutionRight
  unfolding import_match
  import_one input store = import_match input (filter (shares_identifier input) store.rights) store

  unfoldable pub import_all : List RightRow → Action (List InstitutionRight)
  unfolding import_one
  import_all [] store = ok ([], store)
  import_all (input ∷ inputs) store = do
    (right, store') ← import_one input store
    (rights, store'') ← import_all inputs store'
    ok (right ∷ rights, store'')

  unfoldable pub import_available_rights : Value → Method (List InstitutionRight)
  unfolding import_inputs import_all
  import_available_rights values =
      with_input (import_inputs values) λ inputs. transaction (import_all inputs)

  unfoldable pub register_input : Value → LedgerResult RegisterRightInput
  register_input value = do
    es ← record_of ("sourceId" ∷ "recordReference" ∷ "holder" ∷ "milligrams" ∷ []) value
    source_id ← hash (get "sourceId" es)
    record_reference ← reference (get "recordReference" es)
    holder ← address viem (get "holder" es)
    milligrams ← integer (get "milligrams" es) max_amount false
    ok (record {
      source_id = source_id;
      record_reference = record_reference;
      holder = holder;
      milligrams = milligrams;
    })

  -- `existing` is the row of the same record; the two new identifiers are those that `opaqueId`
  -- draws, each 32 random bytes that are not all zero.
  unfoldable pub register_with :
      Text → Text → RegisterRightInput → Option RightRow → Action InstitutionRight
  register_with new_right_id new_claim_id input (some row) store = do
    throw_if
        (not (text_eq row.holder input.holder) || not (text_eq row.milligrams input.milligrams))
        right_conflict
    right ← right_snapshot viem row store
    ok (right, store)
  register_with new_right_id new_claim_id input none store = do
    claim_usage_id ←
        rethrow (get_claim_usage_id viem (claim_identity input.source_id new_claim_id))
          storage_unavailable
    store' ← insert_right (registered_row new_right_id new_claim_id claim_usage_id input) store
    row ← right_row new_right_id store'
    right ← right_snapshot viem row store'
    ok (right, store')

  unfoldable pub register_action : Text → Text → RegisterRightInput → Action InstitutionRight
  unfolding register_with
  register_action new_right_id new_claim_id input store =
      register_with new_right_id new_claim_id input
        (find (has_record input.source_id input.record_reference) store.rights) store

  unfoldable pub register_right : Text → Text → Value → Method InstitutionRight
  unfolding register_input register_action
  register_right new_right_id new_claim_id value =
      with_input (register_input value)
        λ input. transaction (register_action new_right_id new_claim_id input)

  abbrev pub optional_snapshot : Store → Option RightRow → LedgerResult (Option InstitutionRight)
  optional_snapshot store none = ok none
  optional_snapshot store (some row) = do right ← right_snapshot viem row store; ok (some right)

  unfoldable pub find_input : Value → LedgerResult (Text × Text)
  find_input value = do
    es ← record_of ("sourceId" ∷ "recordReference" ∷ []) value
    source_id ← hash (get "sourceId" es)
    record_reference ← reference (get "recordReference" es)
    ok (source_id, record_reference)

  unfoldable pub find_right : Value → Method (Option InstitutionRight)
  unfolding find_input
  find_right value = with_input (find_input value) λ (source_id, record_reference). transaction (
      reads λ store.
        optional_snapshot store (find (has_record source_id record_reference) store.rights))

  unfoldable pub get_right : Value → Method InstitutionRight
  get_right value = with_input (hash value) λ right_id.
      transaction (reads λ store. do row ← right_row right_id store; right_snapshot viem row store)

-- The pair of private identifiers; `toJSON` of the class always throws `private_identity`.
pub record PrivateIdentity : Type 0 where
  pub source_id : Text
  pub claim_id : Text

unfoldable pub private_claim_identity : Value → Method PrivateIdentity
private_claim_identity value = with_input (hash value) λ right_id. transaction (
    reads λ store. do
      row ← right_row right_id store
      source_id ← hash (Value.str row.source_id)
      claim_id ← hash (Value.str row.claim_id)
      ok (record { source_id = source_id; claim_id = claim_id }))
