-- ===== src/Rules.antt =====
-- internal/rules/rules.go: applying the labels and the extensions of the rules that match a
-- transaction, and undoing it. The two pairs of functions differ in which pairs of a rule they read
-- and in how the result is normalised; here `pairs` says which, and `normalized` is the result.
pub mod Applied
pub mod Effects
pub mod Pairs
pub mod Stored
use kasas.Labels
use kasas.Extensions
use kasas.Labels.{value_of}
use kasas.Search.Outcome.{ok, Outcome, failed, out_of_fuel}
use kasas.Prelude.Dict.{Dict, get, put, remove}
use kasas.Prelude.{
  Bool, List, Option, [], any, false, if◌then◌else◌, length, none, not, some, true, ◌&&◌, ◌==◌, ◌∷◌,
}
use kasas.Events.Codec.{Codec, decode_extensions, decode_labels}
use kasas.Search.Query.{Query, matches, parse}
use kasas.Search.Std.{SearchRecord, Std}
use kasas.Prelude.Text.{Text, text_eq}
use kasas.Store.Tables.{Rule}

module _ (s : Std) where
  -- `Compiled`: what a rule sets, and its query
  pub record Compiled : Type 0 where
    pub rule_labels : Dict Text
    pub rule_extensions : Dict Text
    pub query : Query s

  -- `NewRule` and `Compile`: none for a query that does not parse
  abbrev pub compiled_of : Dict Text → Dict Text → Outcome (Query s) → Option Compiled
  compiled_of ls xs (ok q) = some (record { rule_labels = ls; rule_extensions = xs; query = q })
  compiled_of ls xs (failed p) = none
  compiled_of ls xs out_of_fuel = none

  unfoldable pub compile : Codec → Rule → Option Compiled
  compile c row =
      compiled_of (decode_labels c row.labels) (decode_extensions c row.extensions)
        (parse s row.query)

  -- `for k, v := range c.Rule.Labels { merged[k] = v }`
  unfoldable pub set_pairs : Dict Text → Dict Text → Dict Text
  set_pairs [] merged = merged
  set_pairs ((k, v) ∷ rest) merged = set_pairs rest (put k v merged)

  -- `if reduced[k] == v { delete(reduced, k) }`, for each pair of the rule
  unfoldable pub remove_pairs : Dict Text → Dict Text → Dict Text
  remove_pairs [] reduced = reduced
  remove_pairs ((k, v) ∷ rest) reduced =
      remove_pairs rest (if text_eq (value_of reduced k) v then remove k reduced else reduced)

  module _ (pairs : Compiled → Dict Text) where
    -- the loop of `Apply` over the rules
    unfoldable pub merge : List Compiled → SearchRecord s → Dict Text → Dict Text
    unfolding set_pairs
    merge [] r merged = merged
    merge (c ∷ rest) r merged =
        merge rest r (if matches s c.query r then set_pairs (pairs c) merged else merged)

    -- the loop of `Unapply` over the rules
    unfoldable pub reduce : List Compiled → SearchRecord s → Dict Text → Dict Text
    unfolding remove_pairs
    reduce [] r reduced = reduced
    reduce (c ∷ rest) r reduced =
        reduce rest r (if matches s c.query r then remove_pairs (pairs c) reduced else reduced)

  abbrev pub is_value : Text → Option Text → Bool
  is_value v none = false
  is_value v (some w) = text_eq v w

  -- maps.Equal, maps.EqualFunc with bytes.Equal
  unfoldable pub same_pairs : Dict Text → Dict Text → Bool
  same_pairs a b = length a == length b && not (any (λ p. not (is_value p.1 (get p.0 b))) a)

  abbrev pub settle : Dict Text → Dict Text → Dict Text × Bool
  settle normalized current =
      if same_pairs normalized current then (current, false) else (normalized, true)

  abbrev pub labels_of : Compiled → Dict Text
  labels_of c = c.rule_labels

  abbrev pub extensions_of : Compiled → Dict Text
  extensions_of c = c.rule_extensions

  unfoldable pub apply : List Compiled → SearchRecord s → Dict Text → Dict Text × Bool
  unfolding same_pairs merge
  apply compiled r current =
      settle (Labels.normalize s.case_table (merge labels_of compiled r current)) current

  unfoldable pub apply_extensions :
      Codec → List Compiled → SearchRecord s → Dict Text → Dict Text × Bool
  unfolding same_pairs merge
  apply_extensions c compiled r current =
      settle (Extensions.normalize c (merge extensions_of compiled r current)) current

  unfoldable pub unapply : List Compiled → SearchRecord s → Dict Text → Dict Text × Bool
  unfolding same_pairs reduce
  unapply compiled r current =
      settle (Labels.normalize s.case_table (reduce labels_of compiled r current)) current

  unfoldable pub unapply_extensions :
      Codec → List Compiled → SearchRecord s → Dict Text → Dict Text × Bool
  unfolding same_pairs reduce
  unapply_extensions c compiled r current =
      settle (Extensions.normalize c (reduce extensions_of compiled r current)) current
