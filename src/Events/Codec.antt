-- ===== src/Events/Codec.antt =====
-- encoding/json, which the program does not implement, and the columns and payloads that pass
-- through it: `Decode` and `Encode` of labels.go, extensions.go and relationships.go, payload.go.
use kasas.Relationships.{Relationship}
use kasas.Prelude.Dict.{Dict}
use kasas.Prelude.Text.{Text, codes, text_eq}
use kasas.Prelude.{Bool, List, Option, [], if◌then◌else◌, none, not, some, ◌==◌, ◌≡◌}
use kasas.Prelude.Int.{ℤ}
use kasas.Store.Tables.{Account, Transaction}

pub record LabelPayload : Type 0 where
  pub transaction_id : Text
  pub label_key : Text
  pub label_value : Text

pub record ExtensionPayload : Type 0 where
  pub transaction_id : Text
  pub extension_key : Text
  pub extension_value : Text

pub record RelationshipPayload : Type 0 where
  pub transaction_id : Text
  pub edge_kind : Text
  pub edge_target : Text

pub record AccountPayload : Type 0 where
  pub id : Text
  pub org_id : Text
  pub name : Text
  pub currency : Text
  pub balance : Text
  pub balance_date : ℤ
  pub source : Text

-- `V` is Go's `any`, a decoded JSON value.
pub record TransactionPayload (V : Type 0) : Type 0 where
  pub id : Text
  pub account_id : Text
  pub amount : Text
  pub pending : Bool
  pub date : ℤ
  pub description : Text
  pub payee : Text
  pub memo : Text
  pub labels : Dict Text
  pub extensions : Dict V

pub data Payload (V : Type 0) : Type 0 where
  of_transaction : TransactionPayload V → Payload V
  of_account : AccountPayload → Payload V
  of_label : LabelPayload → Payload V
  of_extension : ExtensionPayload → Payload V
  of_relationship : RelationshipPayload → Payload V

-- json.Marshal and json.Unmarshal at the types that the program uses; `none` is an error, or the nil
-- that the text `null` gives. A json.RawMessage is its text. `valid` and `compact` are json.Valid and
-- json.Compact.
pub record Codec : Type 1 where
  pub Value : Type 0
  pub marshal : Payload Value → Option Text
  pub marshal_labels : Dict Text → Option Text
  pub unmarshal_labels : Text → Option (Dict Text)
  pub marshal_extensions : Dict Text → Option Text
  pub unmarshal_extensions : Text → Option (Dict Text)
  pub unmarshal_values : Text → Option (Dict Value)
  pub marshal_relationships : List Relationship → Option Text
  pub unmarshal_relationships : Text → Option (List Relationship)
  pub valid : Text → Bool
  pub compact : Text → Option Text

-- What was marshalled is unmarshalled to the value that it was, and "[]" is the empty array.
pub record RoundTrips (c : Codec) : Type 0 where
  pub relationships :
      (es : List Relationship) (t : Text)
      → c.marshal_relationships es ≡ some t
      → c.unmarshal_relationships t ≡ some es
  pub no_relationships : c.unmarshal_relationships (codes "[]") ≡ some []

abbrev pub or_empty {ℓ} : {A : Type ℓ} → Option (List A) → List A
or_empty none = []
or_empty (some xs) = xs

-- the empty text, a text that does not parse and `null` are all taken for the empty collection
abbrev pub decode_with {ℓ} : {A : Type ℓ} → (Text → Option (List A)) → Text → List A
decode_with unmarshal stored = if text_eq stored [] then [] else or_empty (unmarshal stored)

module _ (c : Codec) where
  unfoldable pub decode_labels : Text → Dict Text
  decode_labels = decode_with c.unmarshal_labels

  unfoldable pub decode_extensions : Text → Dict Text
  decode_extensions = decode_with c.unmarshal_extensions

  unfoldable pub extension_values : Text → Dict c.Value
  extension_values = decode_with c.unmarshal_values

  unfoldable pub decode_relationships : Text → List Relationship
  decode_relationships = decode_with c.unmarshal_relationships

  unfoldable pub transaction_snapshot : Transaction → TransactionPayload c.Value
  transaction_snapshot t = record {
    id = t.id;
    account_id = t.account_id;
    amount = t.amount;
    pending = not (t.pending == 0);
    date = t.date;
    description = t.description;
    payee = t.payee;
    memo = t.memo;
    labels = decode_labels t.labels;
    extensions = extension_values t.extensions;
  }

unfoldable pub account_snapshot : Account → AccountPayload
account_snapshot a = record {
  id = a.id;
  org_id = a.org_id;
  name = a.name;
  currency = a.currency;
  balance = a.balance;
  balance_date = a.balance_date;
  source = a.source;
}
