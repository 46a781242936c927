-- ===== src/Oracle/Prices.antt =====
-- stabilitypool-common/src/price.rs, `price_at_time` of the three oracles. Files, requests, JSON and
-- the parsing of numbers are parameters; an error of the source is `none`.
use Prim.Native.String.{String}
use stabilitypool.Base.{ℕ, Option, none, some, List, [], ◌∷◌}
use stabilitypool.Floats.{Floats}
use stabilitypool.Clock.{Clock}
use stabilitypool.Oracle.{OracleClient, bit_mex_oracle, mock_oracle, file_oracle}

-- What is at a path: nothing that can be opened, a file that cannot be read as text, or a text.
pub data File : Type 0 where
  missing : File
  unreadable : File
  text : (contents : String) → File

-- The filter of a request, before it is written as JSON. The date is that of the time crate.
pub record Filter (Date : Type 0) : Type 0 where
  pub symbol : String
  pub timestamp_hour : ℕ
  pub timestamp_min : ℕ
  pub timestamp_date : Date
  pub timestamp_second : ℕ

-- What the oracles take from the system, from reqwest, serde and the time crate. `parse_f64` is
-- `trim().parse::<f64>()`; `get_price` reads the field `price` of the answer of a mock, and
-- `get_last_price` the field `lastPrice` of the one price in the answer to a query.
pub record Sources (f32 f64 : Floats) (clock : Clock) (Url : Type 0) : Type 1 where
  pub open_file : String → File
  pub parse_f64 : String → Option f64.Float
  pub get_price : Url → Option f32.Float
  pub Date : Type 0
  pub date : clock.Time → Date
  pub hour : clock.Time → ℕ
  pub minute : clock.Time → ℕ
  pub to_json : Filter Date → String
  pub get_last_price : String → List (String × String) → Option f64.Float

module _ {f32 f64 : Floats} {clock : Clock} {Url : Type 0} (s : Sources f32 f64 clock Url) where
  -- `(price * 100.0).floor() as u64`, for the two precisions.
  abbrev cents : Floats.Float f64 → ℕ
  cents price = f64.floor_u64 (f64.mul price (f64.of_int 100))

  abbrev cents_f32 : Floats.Float f32 → ℕ
  cents_f32 price = f32.floor_u64 (f32.mul price (f32.of_int 100))

  abbrev in_cents : Option (Floats.Float f64) → Option ℕ
  in_cents none = none
  in_cents (some price) = some (cents price)

  abbrev in_cents_f32 : Option (Floats.Float f32) → Option ℕ
  in_cents_f32 none = none
  in_cents_f32 (some price) = some (cents_f32 price)

  abbrev file_price : File → Option (Floats.Float f64)
  file_price File.missing = some (f64.of_int 1_000_000)
  file_price File.unreadable = none
  file_price (File.text contents) = s.parse_f64 contents

  abbrev bit_mex_filter : clock.Time → Filter s.Date
  bit_mex_filter datetime = record {
    symbol = ".BXBT";
    timestamp_hour = s.hour datetime;
    timestamp_min = s.minute datetime;
    timestamp_date = s.date datetime;
    timestamp_second = 0;
  }

  unfoldable pub price_at_time : OracleClient Url → clock.Time → Option ℕ
  price_at_time (mock_oracle url) datetime = in_cents_f32 (s.get_price url)
  price_at_time (file_oracle path) datetime = in_cents (file_price (s.open_file path))
  price_at_time bit_mex_oracle datetime = in_cents (
      s.get_last_price "https://www.bitmex.com/api/v1/instrument/compositeIndex" (
        ("symbol", ".BXBT")
        ∷ ("filter", s.to_json (bit_mex_filter datetime))
        ∷ ("columns", "lastPrice,timestamp")
        ∷ []))
