-- ===== src/Csv/Records.antt =====
-- From the records of a file to transactions: `parseCSV` and `rowToTxn`.
use kasas.Csv.Clean.{clean_amount}
use kasas.Prelude.{
  Bool, List, Option, [], false, if◌then◌else◌, inl, inr, none, not, some, suc, true, zero, ℕ, ◌&&◌,
  ◌++◌, ◌∷◌, ◌⊎◌,
}
use kasas.Prelude.Text.{Text, codes, text_eq}
use kasas.Poller.Batch.{ImportTxn}
use kasas.Prelude.Int.{ℤ}
use kasas.Prelude.Trim.{trim_space}
use kasas.Csv.{Folder, Libraries}
use kasas.Csv.Columns.{MappingError, ResolvedMapping, is_absent, resolve_mapping}

abbrev pub date_layouts : List Text
date_layouts =
    codes "2006-01-02"
    ∷ codes "2006-01-02T15:04:05Z07:00"
    ∷ codes "2006/01/02"
    ∷ codes "01/02/2006"
    ∷ codes "1/2/2006"
    ∷ codes "01-02-2006"
    ∷ codes "02 Jan 2006"
    ∷ codes "Jan 2, 2006"
    ∷ codes "2006-01-02 15:04:05"
    ∷ []

-- strings.TrimSpace(f) == "" for every field
unfoldable pub is_blank_row : List Text → Bool
is_blank_row [] = true
is_blank_row (f ∷ rest) = if text_eq (trim_space f) [] then is_blank_row rest else false

module _ (lib : Libraries) where
  -- the function `get` of `rowToTxn`
  abbrev pub nth_field : List Text → ℕ → Text
  nth_field [] i = []
  nth_field (f ∷ rest) zero = trim_space f
  nth_field (f ∷ rest) (suc i) = nth_field rest i

  abbrev pub field_at : List Text → Option ℕ → Text
  field_at row none = []
  field_at row (some i) = nth_field row i

  abbrev pub first_layout : Text → List Text → Option ℤ
  first_layout value [] = none
  first_layout value (l ∷ rest) = elim (lib.parse_time l value) [
    | none ↦ first_layout value rest
    | some t ↦ some t
  ]

  unfoldable pub parse_date : Text → Text → Option ℤ
  parse_date value layout =
      let v = trim_space value in
      if text_eq v []
      then none
      else if text_eq layout []
      then first_layout v date_layouts
      else lib.parse_time layout v

  abbrev pub float_of_clean : Option Text → Option lib.Float
  float_of_clean none = none
  float_of_clean (some t) = lib.parse_float t

  unfoldable pub clean_amount_value : Text → Option lib.Float
  unfolding clean_amount
  clean_amount_value s = float_of_clean (clean_amount s)

  -- formatAmount(cr - dr), where a missing side is zero
  abbrev pub net : Option lib.Float → Option lib.Float → Option Text
  net none none = none
  net (some c) none = some (lib.format_float (lib.sub c lib.zero_float))
  net none (some d) = some (lib.format_float (lib.sub lib.zero_float d))
  net (some c) (some d) = some (lib.format_float (lib.sub c d))

  unfoldable pub resolve_amount : Text → Text → Text → ResolvedMapping → Option Text
  unfolding clean_amount_value
  resolve_amount amount debit credit rm =
      if not (is_absent rm.amount) && not (text_eq amount [])
      then clean_amount amount
      else net (clean_amount_value credit) (clean_amount_value debit)

  -- the transaction without its id, which is pending in no CSV file
  abbrev pub txn_of : List Text → ResolvedMapping → Option ℤ → Option Text → Option ImportTxn
  txn_of row rm none amount = none
  txn_of row rm (some date) none = none
  txn_of row rm (some date) (some amount) = some (record {
    external_id = [];
    amount = amount;
    date = date;
    description = field_at row rm.description;
    payee = field_at row rm.payee;
    memo = field_at row rm.memo;
    pending = false;
  })

  unfoldable pub row_to_txn : List Text → ResolvedMapping → Option ImportTxn
  unfolding parse_date resolve_amount
  row_to_txn row rm =
      txn_of row rm (parse_date (field_at row rm.date) rm.date_format) (
        resolve_amount (field_at row rm.amount) (field_at row rm.debit) (field_at row rm.credit) rm)

  abbrev nul : Text
  nul = 0 ∷ []

  unfoldable pub content_hash : Text → ImportTxn → Text
  content_hash profile t =
      codes "csv:"
      ++ lib.sha256_hex (
          profile
          ++ (nul
              ++ (lib.format_int t.date
                  ++ (nul
                      ++ (t.amount
                          ++ (nul ++ (t.description ++ (nul ++ (t.payee ++ (nul ++ t.memo))))))))))

  pub record Parsed : Type 0 where
    pub txns : List ImportTxn
    pub skipped : ℕ

  abbrev pub add_row : Text → Option ImportTxn → Parsed → Parsed
  add_row profile none p = record p { skipped = suc p.skipped }
  add_row profile (some t) p = record p {
    txns = record t { external_id = content_hash profile t } ∷ p.txns;
  }

  -- the loop over the rows
  unfoldable pub parse_rows : Text → ResolvedMapping → List (List Text) → Parsed
  unfolding is_blank_row row_to_txn content_hash
  parse_rows profile rm [] = record { txns = []; skipped = 0 }
  parse_rows profile rm (row ∷ rest) =
      let others = parse_rows profile rm rest in
      if is_blank_row row then others else add_row profile (row_to_txn row rm) others

  abbrev pub parse_with :
      Text → List (List Text) → MappingError ⊎ ResolvedMapping → MappingError ⊎ Parsed
  parse_with profile rows (inl e) = inl e
  parse_with profile rows (inr rm) = inr (parse_rows profile rm rows)

  abbrev pub has_header_of : Option Bool → Bool
  has_header_of none = true
  has_header_of (some b) = b

  -- `parseCSV` on the records that encoding/csv has read
  unfoldable pub parse_csv : Folder → List (List Text) → MappingError ⊎ Parsed
  unfolding resolve_mapping parse_rows
  parse_csv f [] = inr (record { txns = []; skipped = 0 })
  parse_csv f (first ∷ rest) =
      if has_header_of f.mapping.has_header
      then parse_with f.name rest (resolve_mapping lib f.mapping first)
      else parse_with f.name (first ∷ rest) (resolve_mapping lib f.mapping [])
