-- ===== src/Csv.antt =====
-- internal/sources/csv/parse.go: how the rows of a CSV file become transactions; here the configuration
-- (csv.go) and the libraries. A column that is -1 in the source is `none`. encoding/csv, time.Parse, strconv and SHA-256 are not under this repository.
pub mod Columns
pub mod Clean
pub mod Records
pub mod Amounts
pub mod Rows
use kasas.Prelude.Dict.{Dict, get, put}
use kasas.Prelude.Text.{CaseTable, Text, codes, text_eq, to_lower}
use kasas.Prelude.{
  Bool, List, Option, [], any, false, if◌then◌else◌, inl, inr, keep, leb, none, not, some, suc,
  true, zero, ℕ, ◌&&◌, ◌++◌, ◌==◌, ◌||◌, ◌∷◌, ◌⊎◌,
}
use kasas.Prelude.Int.{negsuc, pos, ℤ}
use kasas.Prelude.Trim.{trim_space}

pub record Mapping : Type 0 where
  pub date_column : Text
  pub amount_column : Text
  pub debit_column : Text
  pub credit_column : Text
  pub description_column : Text
  pub payee_column : Text
  pub memo_column : Text
  pub date_format : Text
  pub has_header : Option Bool
  pub delimiter : Text

pub record Folder : Type 0 where
  pub name : Text
  pub mapping : Mapping

pub record Libraries : Type 1 where
  pub Float : Type 0
  pub parse_float : Text → Option Float
  pub sub : Float → Float → Float
  pub zero_float : Float
  pub format_float : Float → Text
  pub parse_time : Text → Text → Option ℤ
  pub atoi : Text → Option ℤ
  pub format_int : ℤ → Text
  pub sha256_hex : Text → Text
  pub case_table : CaseTable
