-- ===== src/Csv/Columns.antt =====
-- Which columns of a file hold what: `resolveMapping` and what it calls.
use kasas.Prelude.{
  Bool, List, Option, [], false, if◌then◌else◌, inl, inr, none, some, suc, true, ℕ, ◌&&◌, ◌∷◌, ◌⊎◌,
}
use kasas.Prelude.Dict.{Dict, get, put}
use kasas.Prelude.Text.{Text, codes, text_eq, to_lower}
use kasas.Prelude.Int.{negsuc, pos, ℤ}
use kasas.Prelude.Trim.{trim_space}
use kasas.Csv.{Libraries, Mapping}

pub record ResolvedMapping : Type 0 where
  pub date : Option ℕ
  pub amount : Option ℕ
  pub debit : Option ℕ
  pub credit : Option ℕ
  pub description : Option ℕ
  pub payee : Option ℕ
  pub memo : Option ℕ
  pub date_format : Text

pub data Field : Type 0 where
  date_field amount_field debit_field credit_field : Field
  description_field payee_field memo_field : Field

-- A configured column that cannot be resolved, or none for the date or for the amount.
pub data MappingError : Type 0 where
  bad_column : Field → MappingError
  no_date_column no_amount_column : MappingError

unfoldable pub header_aliases : Field → List Text
header_aliases date_field =
    codes "date"
    ∷ codes "transaction date"
    ∷ codes "posted date"
    ∷ codes "posting date"
    ∷ codes "trans date"
    ∷ []
header_aliases amount_field = codes "amount" ∷ codes "value" ∷ []
header_aliases debit_field =
    codes "debit"
    ∷ codes "withdrawal"
    ∷ codes "withdrawals"
    ∷ codes "money out"
    ∷ codes "paid out"
    ∷ []
header_aliases credit_field =
    codes "credit" ∷ codes "deposit" ∷ codes "deposits" ∷ codes "money in" ∷ codes "paid in" ∷ []
header_aliases description_field =
    codes "description"
    ∷ codes "name"
    ∷ codes "details"
    ∷ codes "narrative"
    ∷ codes "transaction"
    ∷ []
header_aliases payee_field = codes "payee" ∷ codes "merchant" ∷ codes "to/from" ∷ []
header_aliases memo_field =
    codes "memo" ∷ codes "notes" ∷ codes "note" ∷ codes "reference" ∷ codes "extended details" ∷ []

unfoldable pub and_then {ℓ} :
    {A B : Type ℓ} → MappingError ⊎ A → (A → MappingError ⊎ B) → MappingError ⊎ B
and_then (inl e) f = inl e
and_then (inr a) f = f a

abbrev pub is_absent : Option ℕ → Bool
is_absent none = true
is_absent (some i) = false

unfoldable pub checked : ResolvedMapping → MappingError ⊎ ResolvedMapping
checked rm =
    if is_absent rm.date
    then inl no_date_column
    else if is_absent rm.amount && (is_absent rm.debit && is_absent rm.credit)
    then inl no_amount_column
    else inr rm

module _ (lib : Libraries) where
  -- `headerIndex` from the i-th column on; a later column of the same name wins
  unfoldable pub header_index : ℕ → List Text → Dict ℕ → Dict ℕ
  header_index i [] idx = idx
  header_index i (h ∷ rest) idx =
      header_index (suc i) rest (put (to_lower lib.case_table (trim_space h)) i idx)

  abbrev pub by_name : Field → List Text → Option ℕ → MappingError ⊎ Option ℕ
  by_name field header none = inl (bad_column field)
  by_name field [] (some i) = inl (bad_column field)
  by_name field (h ∷ rest) (some i) = inr (some i)

  abbrev pub by_number : Field → Text → Dict ℕ → List Text → Option ℤ → MappingError ⊎ Option ℕ
  by_number field spec idx header none =
      by_name field header (get (to_lower lib.case_table spec) idx)
  by_number field spec idx header (some (pos n)) = inr (some n)
  by_number field spec idx header (some (negsuc n)) = inl (bad_column field)

  unfoldable pub resolve_column : Field → Text → Dict ℕ → List Text → MappingError ⊎ Option ℕ
  resolve_column field spec idx header =
      by_number field (trim_space spec) idx header (lib.atoi (trim_space spec))

  abbrev pub first_found : Dict ℕ → List Text → Option ℕ
  first_found idx [] = none
  first_found idx (a ∷ rest) = elim (get a idx) [ none ↦ first_found idx rest | some i ↦ some i ]

  unfoldable pub auto_detect : Field → Dict ℕ → Option ℕ
  unfolding header_aliases
  auto_detect field idx = first_found idx (header_aliases field)

  -- the function `resolve` of `resolveMapping`
  unfoldable pub resolve : Dict ℕ → List Text → Field → Text → MappingError ⊎ Option ℕ
  unfolding resolve_column auto_detect
  resolve idx header field spec =
      if text_eq (trim_space spec) []
      then inr (auto_detect field idx)
      else resolve_column field spec idx header

  unfoldable pub resolve_mapping : Mapping → List Text → MappingError ⊎ ResolvedMapping
  unfolding header_index resolve
  resolve_mapping m header =
      let idx = header_index 0 header [] in
      and_then (resolve idx header date_field m.date_column) (λ date.
        and_then (resolve idx header amount_field m.amount_column) (λ amount.
          and_then (resolve idx header debit_field m.debit_column) (λ debit.
            and_then (resolve idx header credit_field m.credit_column) (λ credit.
              and_then (resolve idx header description_field m.description_column) (λ description.
                and_then (resolve idx header payee_field m.payee_column) (λ payee.
                  and_then (resolve idx header memo_field m.memo_column) (λ memo. checked (record {
                    date = date;
                    amount = amount;
                    debit = debit;
                    credit = credit;
                    description = description;
                    payee = payee;
                    memo = memo;
                    date_format = m.date_format;
                  }))))))))
