-- ===== src/Aggregation.antt =====
-- `Aggregation` of sdk/python/feast/aggregation.py. A window is a count of microseconds.
use feast.Base.{
  ℕ, zero, suc, String, Bool, ◌&&◌, ◌≡◌, refl, Option, none, some, ◌==◌, string_eq, nat_eq,
  option_eq,
}

pub record Aggregation : Type 0 where
  pub column : String
  pub function : String
  pub time_window : Option ℕ
  pub slide_interval : Option ℕ

abbrev pub AggregationProto : Type 0
AggregationProto = Aggregation

-- `if not slide_interval`: a missing interval and one of 0 give way to the time window.
abbrev pub slide_or : Option ℕ → Option ℕ → Option ℕ
slide_or none window = window
slide_or (some zero) window = window
slide_or (some (suc n)) window = some (suc n)

-- `Aggregation.__init__`
unfoldable pub make_aggregation : String → String → Option ℕ → Option ℕ → Aggregation
make_aggregation column function time_window slide_interval = record {
  column = column;
  function = function;
  time_window = time_window;
  slide_interval = slide_or slide_interval time_window;
}

-- `Aggregation.to_proto`: the message has the same fields.
unfoldable pub to_proto : Aggregation → AggregationProto
to_proto a = a

-- A duration that is not set reads as zero.
abbrev pub read_duration : Option ℕ → Option ℕ
read_duration none = some 0
read_duration (some t) = some t

-- `Aggregation.from_proto`
unfoldable pub from_proto : AggregationProto → Aggregation
unfolding make_aggregation
from_proto p =
    make_aggregation p.column p.function (read_duration p.time_window)
      (read_duration p.slide_interval)

-- `Aggregation.__eq__`
unfoldable pub aggregation_eq : Aggregation → Aggregation → Bool
aggregation_eq a b =
    a.column == b.column
    && a.function == b.function
    && a.time_window == b.time_window
    && a.slide_interval == b.slide_interval

-- An aggregation with a time window is read back from its message as it was made, whatever sliding
-- interval it was made with.
pub from_proto-to_proto_aggregation :
    (column function : String) (window : ℕ) (slide : Option ℕ)
    → from_proto (to_proto (make_aggregation column function (some window) slide))
      ≡ make_aggregation column function (some window) slide
unfolding from_proto to_proto
from_proto-to_proto_aggregation column function zero none = refl
from_proto-to_proto_aggregation column function (suc w) none = refl
from_proto-to_proto_aggregation column function zero (some zero) = refl
from_proto-to_proto_aggregation column function (suc w) (some zero) = refl
from_proto-to_proto_aggregation column function w (some (suc n)) = refl
