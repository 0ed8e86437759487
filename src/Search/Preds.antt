-- ===== src/Search/Preds.antt =====
-- The predicate builders of search.go. A leaf of the AST is the closure that `predNode` wraps.
pub mod Ranges
pub mod Keys
use kasas.Search.Values.{
  CmpOp, Period, cmp_float, date_test, op_contains, op_eq, op_ne, parse_amount, parse_period,
  split_op, split_range,
}
use kasas.Prelude.{
  Bool, List, Option, [], any, false, if◌then◌else◌, none, not, some, true, ◌&&◌, ◌++◌, ◌||◌, ◌∷◌,
}
use kasas.Search.Outcome.{
  Outcome, empty_key, empty_range, empty_value, failed, invalid_pending, ok, ◌>>=◌,
}
use kasas.Search.Std.{Direction, SearchRecord, Std, inbound, outbound}
use kasas.Prelude.Text.{Text, codes, contains, cut, text_eq, to_lower}
use kasas.Prelude.Dict.{Dict, get, has}
use kasas.Search.Lexer.{Term, dequote}
use kasas.Prelude.Trim.{trim_space}
use kasas.Relationships.{key}

module _ (s : Std) where
  abbrev pub Pred : Type 0
  Pred = SearchRecord s → Bool

  abbrev pub lower : Text → Text
  lower = to_lower s.case_table

  unfoldable pub normalize_key : Text → Text
  normalize_key t = lower (trim_space t)

  unfoldable pub text_pred : Text → (SearchRecord s → Text) → Outcome Pred
  text_pred raw field =
      let needle = lower (trim_space (dequote raw)) in
      if text_eq needle [] then failed empty_value else ok (λ r. contains (lower (field r)) needle)

  -- a case of the switch in `pendingPred`
  abbrev pub one_of : List Text → Text → Bool
  one_of ws t = any (text_eq t) ws

  unfoldable pub pending_pred : Text → Outcome Pred
  pending_pred raw =
      let t = lower (trim_space (dequote raw)) in
      if one_of (codes "true" ∷ codes "yes" ∷ codes "y" ∷ codes "t" ∷ codes "1" ∷ []) t
      then ok (λ r. r.pending)
      else if one_of (codes "false" ∷ codes "no" ∷ codes "n" ∷ codes "f" ∷ codes "0" ∷ []) t
      then ok (λ r. not r.pending)
      else failed invalid_pending

  abbrev pub bound {ℓ} : {A : Type ℓ} → (Text → Outcome A) → Text → Outcome (Option A)
  bound reader [] = ok none
  bound reader (c ∷ cs) = reader (c ∷ cs) >>= λ a. ok (some a)

  -- A limit that is not there lets everything through.
  abbrev pub under {ℓ} : {A : Type ℓ} → (A → Bool) → Option A → Bool
  under test none = true
  under test (some a) = test a

  -- `if hasLo && hasHi && l > h { l, h = h, l }`
  abbrev pub ordered_limits : Option s.Amount → Option s.Amount → Option s.Amount × Option s.Amount
  ordered_limits (some l) (some h) = if s.lt h l then (some h, some l) else (some l, some h)
  ordered_limits lo hi = (lo, hi)

  unfoldable pub in_amounts : Option s.Amount × Option s.Amount → s.Amount → Bool
  in_amounts (lo, hi) a = under (λ l. not (s.lt a l)) lo && under (λ h. not (s.lt h a)) hi

  unfoldable pub amount_range : Text → Text → Outcome Pred
  unfolding in_amounts
  amount_range lo hi = if text_eq lo [] && text_eq hi [] then failed empty_range else (do
    l ← bound (parse_amount s) lo
    h ← bound (parse_amount s) hi
    ok (λ r. in_amounts (ordered_limits l h) r.amount))

  unfoldable pub amount_cmp : CmpOp × Text → Outcome Pred
  amount_cmp (op, rest) = do num ← parse_amount s rest; ok (λ r. cmp_float s r.amount num op)

  abbrev pub ranged :
      (Text → Text → Outcome Pred) → Outcome Pred → Option (Text × Text) → Outcome Pred
  ranged range single none = single
  ranged range single (some (lo, hi)) = range lo hi

  unfoldable pub amount_pred : Text → Outcome Pred
  unfolding amount_range amount_cmp
  amount_pred raw =
      let val = trim_space raw in
      if text_eq val []
      then failed empty_value
      else ranged amount_range (amount_cmp (split_op val)) (split_range val)

  unfoldable pub in_dates : Option (Period s) → Option (Period s) → s.Time → Bool
  in_dates lo hi d =
      under (λ (p : Period s). not (s.before d p.0)) lo
      && under (λ (p : Period s). s.before d p.1) hi

  unfoldable pub date_range : (SearchRecord s → s.Time) → Text → Text → Outcome Pred
  unfolding in_dates
  date_range time_of lo hi = if text_eq lo [] && text_eq hi [] then failed empty_range else (do
    start ← bound (parse_period s) lo
    end ← bound (parse_period s) hi
    ok (λ r. in_dates start end (time_of r)))

  unfoldable pub date_cmp : (SearchRecord s → s.Time) → CmpOp × Text → Outcome Pred
  date_cmp time_of (op, rest) = do p ← parse_period s rest; ok (λ r. date_test s op p (time_of r))

  unfoldable pub date_pred : Text → (SearchRecord s → s.Time) → Outcome Pred
  unfolding date_range date_cmp
  date_pred raw time_of =
      let val = trim_space raw in
      if text_eq val []
      then failed empty_value
      else ranged (date_range time_of) (date_cmp time_of (split_op val)) (split_range val)

  -- `labelEqPred` and `extEqPred` behind the lookup: a missing key is not equal
  unfoldable pub value_test : CmpOp → Text → Option Text → Bool
  value_test op_ne want none = true
  value_test _ want none = false
  value_test op_eq want (some cur) = text_eq (lower cur) want
  value_test op_ne want (some cur) = not (text_eq (lower cur) want)
  value_test op_contains want (some cur) = contains (lower cur) want
  value_test _ want (some cur) = false

  module _ (dict_of : SearchRecord s → Dict Text) where
    -- `labelEqPred`, `extEqPred`
    unfoldable pub key_eq_pred : Text → Text → CmpOp → Pred
    key_eq_pred key value op r = value_test op (lower value) (get key (dict_of r))

    -- `labelLeaf`, `extLeaf`
    unfoldable pub key_leaf : Text → Text → CmpOp → Outcome Pred
    unfolding key_eq_pred normalize_key
    key_leaf raw_key raw_val op =
        let key = normalize_key (dequote (trim_space raw_key)) in
        let v = trim_space (dequote (trim_space raw_val)) in
        if text_eq key []
        then failed empty_key
        else if text_eq v []
        then failed empty_value
        else ok (key_eq_pred key v op)

    abbrev pub leaf_or : CmpOp → Outcome Pred → Option (Text × Text) → Outcome Pred
    leaf_or op other none = other
    leaf_or op other (some (k, v)) = key_leaf k v op

    unfoldable pub presence : Text → Outcome Pred
    unfolding normalize_key
    presence raw =
        let key = normalize_key (dequote (trim_space raw)) in
        if text_eq key [] then failed empty_key else ok (λ r. has key (dict_of r))

    -- `labelPred`, `extPred`
    unfoldable pub key_pred : Text → Outcome Pred
    unfolding key_leaf presence
    key_pred raw =
        leaf_or op_ne
          (leaf_or op_contains (leaf_or op_eq (presence raw) (cut (codes "=") raw))
            (cut (codes "~") raw))
          (cut (codes "!=") raw)

  abbrev is_outbound : Direction → Bool
  is_outbound outbound = true
  is_outbound inbound = false

  abbrev pub rel_leaf : Text → Option (Text × Text) → Outcome Pred
  rel_leaf raw (some (k, t)) =
      let kind = normalize_key (dequote (trim_space k)) in
      let target = trim_space (dequote (trim_space t)) in
      if text_eq kind []
      then failed empty_key
      else if text_eq target []
      then failed empty_value
      else ok (λ r.
        any (λ e. is_outbound e.direction && text_eq e.kind kind && text_eq e.target target)
          r.relationships)
  rel_leaf raw none =
      let kind = normalize_key (dequote (trim_space raw)) in
      if text_eq kind []
      then failed empty_key
      else ok (λ r. any (λ e. is_outbound e.direction && text_eq e.kind kind) r.relationships)

  unfoldable pub rel_pred : Text → Outcome Pred
  unfolding normalize_key
  rel_pred raw = rel_leaf raw (cut (codes "=") raw)

  unfoldable pub related_pred : Text → Outcome Pred
  related_pred raw =
      let id = trim_space (dequote (trim_space raw)) in
      if text_eq id []
      then failed empty_value
      else ok (λ r. any (λ e. text_eq e.target id) r.relationships)

  unfoldable pub free_text_match : SearchRecord s → Text → Bool
  free_text_match r needle =
      let hit = λ (t : Text). contains (lower t) needle in
      text_eq needle []
      || any hit (r.description ∷ r.payee ∷ r.memo ∷ r.account_name ∷ r.id ∷ [])
      || any (λ e. hit e.0 || hit e.1 || hit (e.0 ++ (b':' ∷ e.1))) r.labels
      || any (λ e. hit e.0 || hit e.1) r.extensions

  -- an unreserved field: `key:value` is a label
  unfoldable pub shorthand : Text → Text → Outcome Pred
  unfolding key_eq_pred normalize_key
  shorthand field value =
      let v = trim_space (dequote value) in
      if text_eq v []
      then failed empty_value
      else ok (key_eq_pred (λ r. r.labels) (normalize_key field) v op_eq)

  unfoldable pub pred_from_term : Term → Outcome Pred
  unfolding free_text_match shorthand text_pred amount_pred date_pred pending_pred key_pred rel_pred
      related_pred
  pred_from_term t =
      let is = λ (name : Text). text_eq t.field name in
      if is []
      then (let needle = lower t.value in ok (λ r. free_text_match r needle))
      else if is (codes "description")
      then text_pred t.value (λ r. r.description)
      else if is (codes "payee")
      then text_pred t.value (λ r. r.payee)
      else if is (codes "memo")
      then text_pred t.value (λ r. r.memo)
      else if is (codes "account")
      then text_pred t.value (λ r. r.account_name)
      else if is (codes "id")
      then text_pred t.value (λ r. r.id)
      else if is (codes "amount")
      then amount_pred t.value
      else if is (codes "date")
      then date_pred t.value (λ r. r.date)
      else if is (codes "synced")
      then date_pred t.value (λ r. r.synced_at)
      else if is (codes "pending")
      then pending_pred t.value
      else if is (codes "label")
      then key_pred (λ r. r.labels) t.value
      else if is (codes "ext")
      then key_pred (λ r. r.extensions) t.value
      else if is (codes "rel")
      then rel_pred t.value
      else if is (codes "related")
      then related_pred t.value
      else shorthand t.field t.value
