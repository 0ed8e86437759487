-- ===== src/Tests/Stubs.antt =====
-- Stand-ins: whole numbers for the amounts, day numbers for the times, and an encoding of edges.
use kasas.Prelude.{
  List, Option, [], ap, arith, if◌then◌else◌, leb, ltb, none, refl, some, suc, zero, ℕ, ◌&&◌, ◌*◌,
  ◌+◌, ◌-◌, ◌==◌, ◌∷◌, ◌≡◌, true,
}
use kasas.Events.Codec.{Codec, RoundTrips}
use kasas.Prelude.Text.{Text, ascii_case, codes, text_eq}
use kasas.Search.Std.{OrdersAmounts, OrdersTimes, Std}
use kasas.Events.Recorder.{Emitter}
use kasas.Prelude.Int.{pos}
use kasas.Relationships.{Relationship}
use kasas.Ledger.Returns.{Marshals}

abbrev add_digit : ℕ → Option ℕ → Option ℕ
add_digit c none = none
add_digit c (some n) = if leb b'0' c && leb c b'9' then some (n * 10 + (c - b'0')) else none

abbrev read_digits : Text → Option ℕ → Option ℕ
read_digits [] n = n
read_digits (c ∷ cs) n = read_digits cs (add_digit c n)

abbrev read_number : Text → Option ℕ
read_number [] = none
read_number (c ∷ cs) = read_digits (c ∷ cs) (some 0)

abbrev year_start : Option ℕ → Option ℕ
year_start none = none
year_start (some y) = some (y * 372)

-- years of twelve months of 31 days
abbrev pub stub_std : Std
stub_std = record {
  Amount = ℕ;
  parse_float = read_number;
  lt = ltb;
  le = leb;
  eq = ◌==◌;
  Time = ℕ;
  before = ltb;
  new_year = λ t. year_start (read_number t);
  parse_month = λ t. none;
  parse_day = λ t. none;
  next_year = λ t. t + 372;
  next_month = λ t. t + 31;
  next_day = suc;
  case_table = ascii_case;
}

pub stub_std-OrdersAmounts : OrdersAmounts stub_std
stub_std-OrdersAmounts = record {
  le_not_lt = λ a b. ground arith;
  lt_asym = λ a b h. ground arith;
  lt_trans_not = λ a b d h k. ground arith;
  not_lt_eq = λ a b h k. ground arith;
}

pub stub_std-OrdersTimes : OrdersTimes stub_std
stub_std-OrdersTimes = record {
  before_trans = λ a b d h k. ground arith;
  before_next_year = λ t. ground arith;
  before_next_month = λ t. ground arith;
  before_next_day = λ t. ground arith;
}

-- A text is written with a stop behind it, an edge as its two texts.
abbrev write_text : Text → Text → Text
write_text [] rest = 0 ∷ rest
write_text (c ∷ cs) rest = suc c ∷ write_text cs rest

abbrev write_edges : List Relationship → Text
write_edges [] = []
write_edges (r ∷ rs) = write_text r.kind (write_text r.target (write_edges rs))

abbrev pub stub_marshal : List Relationship → Text
stub_marshal [] = codes "[]"
stub_marshal (r ∷ rs) = 0 ∷ write_edges (r ∷ rs)

abbrev push_rune : ℕ → List Text → List Text
push_rune c [] = []
push_rune c (t ∷ ts) = (c ∷ t) ∷ ts

abbrev split_texts : Text → List Text
split_texts [] = []
split_texts (zero ∷ rest) = [] ∷ split_texts rest
split_texts (suc c ∷ rest) = push_rune c (split_texts rest)

abbrev pair_texts : List Text → List Relationship
pair_texts [] = []
pair_texts (k ∷ []) = []
pair_texts (k ∷ t ∷ ts) = record { kind = k; target = t } ∷ pair_texts ts

abbrev stub_unmarshal : Text → Option (List Relationship)
stub_unmarshal (zero ∷ rest) = some (pair_texts (split_texts rest))
stub_unmarshal other = if text_eq other (codes "[]") then some [] else none

abbrev pub stub_codec : Codec
stub_codec = record {
  Value = Text;
  marshal = λ v. some (codes "{}");
  marshal_labels = λ m. some (codes "{}");
  unmarshal_labels = λ t. some [];
  marshal_extensions = λ m. some (codes "{}");
  unmarshal_extensions = λ t. some [];
  unmarshal_values = λ t. some [];
  marshal_relationships = λ es. some (stub_marshal es);
  unmarshal_relationships = stub_unmarshal;
  valid = λ t. true;
  compact = λ t. some t;
}

split-write : (t rest : Text) → split_texts (write_text t rest) ≡ t ∷ split_texts rest
split-write [] rest = refl
split-write (c ∷ cs) rest = rw (split-write cs rest) refl

pair-write : (es : List Relationship) → pair_texts (split_texts (write_edges es)) ≡ es
pair-write [] = refl
pair-write (r ∷ rs) =
    rw
      (
        split-write r.kind (write_text r.target (write_edges rs)),
        split-write r.target (write_edges rs),
        pair-write rs,
      )
      refl

unmarshal-marshal : (es : List Relationship) → stub_unmarshal (stub_marshal es) ≡ some es
unfolding text_eq
unmarshal-marshal [] = refl
unmarshal-marshal (r ∷ rs) = ap some (pair-write (r ∷ rs))

pub stub_codec-RoundTrips : RoundTrips stub_codec
unfolding text_eq
stub_codec-RoundTrips = record {
  relationships =
      λ es t h. let same : stub_marshal es ≡ t = cc in rw (← same) (unmarshal-marshal es);
  no_relationships = refl;
}

pub stub_codec-Marshals : Marshals stub_codec
stub_codec-Marshals = record {
  payload = λ v. (codes "{}", refl);
  edges = λ es. (stub_marshal es, refl);
}

abbrev pub stub_emitter : Emitter
stub_emitter = record { new_id = λ n. n ∷ []; now = λ n. pos 0 }
