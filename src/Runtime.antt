-- ===== src/Runtime.antt =====
-- What the program uses of Go's runtime and standard library, for every component: float64 values
-- and their comparisons, the values that encoding/json decodes to, and (as parameters) the
-- conversions that are not spelled out here.
pub mod Float
pub mod Json
pub mod Text
use Json.{Value, Fields}
use osscdp.Prelude.{ℕ, ◌≡◌, String, Option}

-- The conversions of strconv, fmt, time and encoding/json that the components call. Nothing is
-- assumed of them but what a theorem names as a hypothesis. An `int64` is its 64-bit pattern.
pub record Runtime : Type 0 where
  -- strconv.ParseFloat(s, 64)
  pub parse_float : String → Option ℕ
  -- fmt.Sprint(v)
  pub sprint : Value → String
  -- float64(n) of an int64
  pub float_of_int : ℕ → ℕ
  -- int(f) of a float64
  pub int_of_float : ℕ → ℕ
  -- time.ParseDuration(s), in nanoseconds
  pub parse_duration : String → Option ℕ
  -- t.Format(time.RFC3339)
  pub format_time : ℕ → String
  -- json.Unmarshal(raw, &m) into a map[string]any
  pub unmarshal : String → Option Fields
