-- ===== src/Csv/Rows.antt =====
-- What a file's rows become.
use kasas.Csv.{Libraries, Mapping}
use kasas.Prelude.{
  Bool-cases, List, Option, [], arith, false, inl, inr, keep, length, none, not, refl, some, suc,
  ◌&&◌, ◌+◌, ◌∷◌, ◌≡◌, ◌⊎◌,
}
use kasas.Prelude.Text.{Text}
use kasas.Poller.Batch.{ImportTxn}
use kasas.Csv.Records.{Parsed, add_row, is_blank_row, parse_rows, row_to_txn}
use kasas.Csv.Columns.{MappingError, ResolvedMapping, and_then, checked, is_absent, resolve_mapping}

module _ (lib : Libraries) where
  add_row-count :
      (profile : Text) (t : Option ImportTxn) (p : Parsed lib)
      → length (add_row lib profile t p).txns + (add_row lib profile t p).skipped
        ≡ suc (length p.txns + p.skipped)
  add_row-count profile none p = omega arith
  add_row-count profile (some t) p = omega arith

  -- Every row that is not blank becomes a transaction or is counted as skipped.
  parse_rows-count :
      (profile : Text) (rm : ResolvedMapping) (rows : List (List Text))
      → length (parse_rows lib profile rm rows).txns + (parse_rows lib profile rm rows).skipped
        ≡ length (keep (λ row. not (is_blank_row row)) rows)
  unfolding parse_rows
  parse_rows-count profile rm [] = refl
  parse_rows-count profile rm (row ∷ rest) = elim (Bool-cases (is_blank_row row)) [
    | inl e ↦ rw e (parse_rows-count profile rm rest)
    | inr e ↦ rw e (
        omega (
          arith,
          parse_rows-count profile rm rest,
          add_row-count profile (row_to_txn lib row rm) (parse_rows lib profile rm rest),
        ))
  ]

  -- What holds of a result, if there is one.
  record Gives {B : Type 0} (P : B → Type 0) (o : MappingError ⊎ B) : Type 0 where
    at : (b : B) → o ≡ inr b → P b

  Gives-and_then :
      {A B : Type 0} (P : B → Type 0) (o : MappingError ⊎ A) (f : A → MappingError ⊎ B)
      → ((a : A) → Gives P (f a))
      → Gives P (and_then o f)
  unfolding and_then
  Gives-and_then P (inl e) f k = record { at = λ b h. cc }
  Gives-and_then P (inr a) f k = k a

  -- A column for the date, and one for the amount or for a side of it.
  abbrev pub HasColumns : ResolvedMapping → Type 0
  HasColumns rm =
      (is_absent rm.date ≡ false)
      × ((is_absent rm.amount && (is_absent rm.debit && is_absent rm.credit)) ≡ false)

  checked-inr : (m rm : ResolvedMapping) → checked m ≡ inr rm → HasColumns rm
  unfolding checked
  checked-inr m rm h = elim (Bool-cases (is_absent m.date)) [
    | inl e ↦ absurd (cc (rw e at h))
    | inr e ↦ elim (Bool-cases (is_absent m.amount && (is_absent m.debit && is_absent m.credit))) [
      | inl f ↦ absurd (cc (rw (e, f) at h))
      | inr f ↦ let same : m ≡ rm = cc (rw (e, f) at h) in rw (← same) (e, f)
    ]
  ]

  resolve_mapping-Gives :
      (m : Mapping) (header : List Text) → Gives HasColumns (resolve_mapping lib m header)
  unfolding resolve_mapping
  resolve_mapping-Gives m header = Gives-and_then HasColumns _ _ (λ date.
      Gives-and_then HasColumns _ _ (λ amount. Gives-and_then HasColumns _ _ (λ debit.
        Gives-and_then HasColumns _ _ (λ credit. Gives-and_then HasColumns _ _ (λ description.
          Gives-and_then HasColumns _ _
            (λ payee. Gives-and_then HasColumns _ _ (λ memo. record { at = checked-inr _ })))))))

  -- A mapping that is accepted has a column for the date, and one for the amount or for a side of it.
  resolve_mapping-columns :
      (m : Mapping) (header : List Text) (rm : ResolvedMapping)
      → resolve_mapping lib m header ≡ inr rm
      → HasColumns rm
  resolve_mapping-columns m header rm h = (resolve_mapping-Gives m header).at rm h
