-- ===== src/Collector/Decode.antt =====
-- The attributes of an export request, as internal/collector/decode.go reads them.
mod LastWins
pub mod Spans
mod Flattened
mod Examples
use tracewell.Prelude.{
  ℕ, ◌+◌, ◌-◌, ◌^◌, ◌%◌, ℤ, pos, negsuc, String, Bool, true, false, List, Option, none, some,
  str_eq, ltb, if◌then◌else◌,
}
use tracewell.Value.{
  Value, str, bool, int64, float64, bytes, arr, obj, Values, nil, cons, Fields, end, insert,
}
use tracewell.Trace.{StatusCode, unset, ok, error}

-- The cases that decodeValue tells apart; `unset_value` is the default case, which a missing value falls into.
mutual
  pub data AnyValue : Type 0 where
    string_value : String → AnyValue
    bool_value : Bool → AnyValue
    int_value : ℤ → AnyValue
    double_value : ℕ → AnyValue
    array_value : AnyValues → AnyValue
    kvlist_value : KeyValues → AnyValue
    bytes_value : List ℕ → AnyValue
    unset_value : AnyValue

  pub data AnyValues : Type 0 where
    no_values : AnyValues
    any_value : AnyValue → AnyValues → AnyValues

  pub data KeyValues : Type 0 where
    no_key_values : KeyValues
    key_value : String → AnyValue → KeyValues → KeyValues

-- `if v, ok := decodeValue(...); ok { m[key] = v }`
unfoldable pub assign : String → Option Value → Fields → Fields
assign k none m = m
assign k (some v) m = insert k v m

append_value : Option Value → Values → Values
append_value none vs = vs
append_value (some v) vs = cons v vs

unfoldable mutual
  unfolding append_value

  -- decodeValue; `none` is ok=false
  pub decode_value : AnyValue → Option Value
  decode_value (string_value s) = some (str s)
  decode_value (bool_value b) = some (bool b)
  decode_value (int_value n) = some (int64 n)
  decode_value (double_value x) = some (float64 x)
  decode_value (array_value vs) = some (arr (decode_values vs))
  decode_value (kvlist_value kvs) = some (obj (decode_into kvs end))
  decode_value (bytes_value b) = some (bytes b)
  decode_value unset_value = none

  pub decode_values : AnyValues → Values
  decode_values no_values = nil
  decode_values (any_value v vs) = append_value (decode_value v) (decode_values vs)

  -- the loop of decodeAttributes, on the map so far
  pub decode_into : KeyValues → Fields → Fields
  decode_into no_key_values m = m
  decode_into (key_value k v kvs) m = decode_into kvs (assign k (decode_value v) m)

-- decodeAttributes
unfoldable pub decode_attributes : KeyValues → Fields
decode_attributes kvs = decode_into kvs end

-- GetStringValue: a value of another case reads as ""
unfoldable pub string_of : AnyValue → String
string_of (string_value s) = s
string_of _ = ""

-- projectName
unfoldable pub project_name : KeyValues → String
unfolding string_of
project_name no_key_values = "default"
project_name (key_value k v kvs) =
    let rest = project_name kvs in
    if str_eq k "openinference.project.name"
    then if str_eq (string_of v) "" then rest else string_of v
    else rest

-- int64(n) for a uint64 n
unfoldable pub to_int64 : ℕ → ℤ
to_int64 n = if ltb n (2 ^ 63) then pos n else negsuc (2 ^ 64 - 1 - n)

-- unixNano, as nanoseconds since the epoch
unfoldable pub unix_nano : ℕ → ℤ
unfolding to_int64
unix_nano n = to_int64 n

-- the enumeration's two named cases, and any other
pub data ProtoStatus : Type 0 where
  status_code_ok status_code_error status_code_other : ProtoStatus

-- decodeStatus
unfoldable pub decode_status : ProtoStatus → StatusCode
decode_status status_code_ok = ok
decode_status status_code_error = error
decode_status status_code_other = unset
