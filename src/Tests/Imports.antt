-- ===== src/Tests/Imports.antt =====
-- A CSV file, and the history of a transaction, at concrete inputs.
use kasas.Prelude.Trim.{trim, trim_right, trim_left, is_space}
use kasas.Prelude.Dict.{get, put, has, keys, mem, Dict, KeysDistinct}
use kasas.Prelude.Text.{to_lower, lower_rune, text_eq, text_lt, Text, ascii_case, codes}
use kasas.Prelude.Sort.{sort, insert_sorted}
use kasas.Csv.{Libraries, Mapping}
use kasas.Prelude.{List, [], false, inr, length, none, refl, some, ℕ, ◌++◌, ◌-◌, ◌∷◌, ◌≡◌}
use kasas.Prelude.Int.{pos}
use kasas.Events.Diff.{
  Renderer, diff_maps, diff_new, diff_removed, diff_snapshots, fmt_diff_time, same_text,
  stringify_ext,
}
use kasas.Provenance.{arrow, sorted_parts, summarize, summary_parts}
use kasas.Events.Codec.{TransactionPayload}
use kasas.Csv.Amounts.{IsAmountText, clean_amount-IsAmountText, clean_amount_idem}
use kasas.Events.Diff.Keys.{TellsAt, diff_maps-TellsAt}
use kasas.Csv.Clean.{clean_amount, clean_digits}
use kasas.Csv.Records.{
  clean_amount_value, content_hash, is_blank_row, parse_date, parse_rows, resolve_amount,
  row_to_txn,
}
use kasas.Csv.Columns.{
  ResolvedMapping, and_then, auto_detect, checked, header_aliases, header_index, resolve,
  resolve_column, resolve_mapping,
}
use kasas.Store.Tables.{labeled}

abbrev stub_libraries : Libraries
stub_libraries = record {
  Float = ℕ;
  parse_float = λ t. some (length t);
  sub = λ a b. a - b;
  zero_float = 0;
  format_float = λ f. codes "0";
  parse_time = λ layout value. some (pos 7);
  atoi = λ t. none;
  format_int = λ n. codes "7";
  sha256_hex = λ t. t;
  case_table = ascii_case;
}

abbrev plain_mapping : Mapping
plain_mapping = record {
  has_header = none;
  delimiter = [];
  date_column = [];
  amount_column = codes "Sum";
  debit_column = [];
  credit_column = [];
  description_column = [];
  payee_column = [];
  memo_column = [];
  date_format = [];
}

abbrev the_header : List Text
the_header = codes "Date" ∷ codes "Sum" ∷ codes "Name" ∷ []

abbrev the_columns : ResolvedMapping
the_columns = record {
  date = some 0;
  amount = some 1;
  debit = none;
  credit = none;
  description = some 2;
  payee = none;
  memo = none;
  date_format = [];
}

the_columns-resolve : resolve_mapping stub_libraries plain_mapping the_header ≡ inr the_columns
unfolding resolve_mapping header_index resolve resolve_column auto_detect header_aliases checked
    and_then to_lower lower_rune trim trim_right trim_left is_space get put text_eq
the_columns-resolve = refl

abbrev sale : List Text
sale = codes "2026-01-02" ∷ codes "($1,234.50)" ∷ codes "Sale" ∷ []

abbrev no_amount : List Text
no_amount = codes "2026-01-03" ∷ codes "n/a" ∷ []

-- The second row has no amount and is skipped, the third is blank.
sale_test :
    parse_rows stub_libraries (codes "p") the_columns (sale ∷ no_amount ∷ (codes " " ∷ []) ∷ [])
    ≡ record {
      txns =
          record {
            external_id =
                codes "csv:p"
                ++ (0 ∷ codes "7")
                ++ (0 ∷ codes "-1234.50")
                ++ (0 ∷ codes "Sale")
                ++ (0 ∷ [])
                ++ (0 ∷ []);
            amount = codes "-1234.50";
            date = pos 7;
            description = codes "Sale";
            payee = [];
            memo = [];
            pending = false;
          }
          ∷ [];
      skipped = 1;
    }
unfolding parse_rows is_blank_row row_to_txn parse_date resolve_amount clean_amount clean_digits
    clean_amount_value content_hash trim trim_right trim_left is_space text_eq
sale_test = refl

cleaned : clean_amount (codes " -$1,2.5.0") ≡ some (codes "-12.5.0")
unfolding clean_amount clean_digits trim trim_right trim_left is_space text_eq
cleaned = refl

clean_amount-IsAmountText_example : IsAmountText (codes "-12.5.0")
clean_amount-IsAmountText_example =
    clean_amount-IsAmountText (codes " -$1,2.5.0") (codes "-12.5.0") cleaned

clean_amount_idem_example : clean_amount (codes "-12.5.0") ≡ some (codes "-12.5.0")
clean_amount_idem_example = clean_amount_idem (codes " -$1,2.5.0") (codes "-12.5.0") cleaned

abbrev stub_renderer : Renderer Text
stub_renderer = record {
  as_string = λ v. some v;
  marshal_value = λ v. none;
  format = λ t. codes "a day";
}

abbrev old_labels : Dict Text
old_labels = (codes "food", codes "1") ∷ (codes "trip", []) ∷ []

abbrev new_labels : Dict Text
new_labels = (codes "food", codes "2") ∷ (codes "home", []) ∷ []

new_labels-KeysDistinct : KeysDistinct new_labels
unfolding has keys mem text_eq
new_labels-KeysDistinct = (refl, (refl, tt))

diff_maps-TellsAt_example :
    TellsAt same_text
      (codes "food")
      (get (codes "food") old_labels)
      (get (codes "food") new_labels)
      (diff_maps same_text old_labels new_labels)
diff_maps-TellsAt_example =
    diff_maps-TellsAt same_text (codes "food") old_labels new_labels new_labels-KeysDistinct

abbrev version_of : Dict Text → TransactionPayload Text
version_of labels = record {
  id = codes "t1";
  account_id = codes "a1";
  amount = codes "1.00";
  pending = false;
  date = pos 5;
  description = codes "x";
  payee = [];
  memo = [];
  labels = labels;
  extensions = [];
}

summarize_test :
    summarize
      (codes "csv")
      labeled
      (diff_snapshots stub_renderer (version_of old_labels) (version_of new_labels))
    ≡ codes "+home:; ~food:1" ++ (arrow ++ codes "2; -trip:")
unfolding summarize summary_parts sorted_parts diff_snapshots diff_maps diff_new diff_removed
    stringify_ext fmt_diff_time get put has keys mem text_eq text_lt sort insert_sorted
summarize_test = refl
