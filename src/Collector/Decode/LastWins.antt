-- ===== src/Collector/Decode/LastWins.antt =====
-- Which of several entries of one key decodeAttributes of internal/collector/decode.go keeps.
use tracewell.Prelude.{
  String, Option, none, some, str_eq, if◌then◌else◌, Bool-cases, inl, inr, ◌≡◌, refl, ◌∙◌, ap,
  arith, eq_iff,
}
use tracewell.Value.{Value, Fields, end, lookup, insert}
use tracewell.Value.Laws.{lookup-insert_same, lookup-insert_other}
use tracewell.Collector.Decode.{
  KeyValues, no_key_values, key_value, decode_value, assign, decode_into, decode_attributes,
}

-- the earlier value, where there is no later one
abbrev or_earlier : Option Value → Option Value → Option Value
or_earlier none earlier = earlier
or_earlier (some v) earlier = some v

-- an independent reading of the list: the value of the last entry of the key that has a value
unfoldable pub last_value : String → KeyValues → Option Value
last_value k no_key_values = none
last_value k (key_value j v kvs) =
    let later = last_value k kvs in or_earlier later (if str_eq j k then decode_value v else none)

lookup-assign :
    (j k : String) (v : Option Value) (m : Fields)
    → lookup k (assign j v m) ≡ or_earlier (if str_eq j k then v else none) (lookup k m)
unfolding assign
lookup-assign j k none m = ground arith
lookup-assign j k (some v) m = elim (Bool-cases (str_eq j k)) [
  | inl e ↦
      let same : j ≡ k = (eq_iff j k).0 e in
      let here : lookup k (insert j v m) ≡ some v = rw same (lookup-insert_same k v m) in
      ground (arith, e, here)
  | inr e ↦ ground (arith, e, lookup-insert_other j k v m e)
]

or_earlier_assoc :
    (a b c : Option Value) → or_earlier a (or_earlier b c) ≡ or_earlier (or_earlier a b) c
or_earlier_assoc none b c = refl
or_earlier_assoc (some v) b c = refl

or_earlier-none : (a : Option Value) → or_earlier a none ≡ a
or_earlier-none none = refl
or_earlier-none (some v) = refl

lookup-decode_into :
    (k : String) (kvs : KeyValues) (m : Fields)
    → lookup k (decode_into kvs m) ≡ or_earlier (last_value k kvs) (lookup k m)
unfolding decode_into last_value
lookup-decode_into k no_key_values m = refl
lookup-decode_into k (key_value j v kvs) m =
    lookup-decode_into k kvs (assign j (decode_value v) m)
    ∙ ap (or_earlier (last_value k kvs)) (lookup-assign j k (decode_value v) m)
    ∙ or_earlier_assoc (last_value k kvs) _ _

-- Under every key decodeAttributes keeps the last value that the list gives it and that could be decoded: an
-- entry without a value neither appears nor removes an earlier one.
pub lookup-decode_attributes :
    (kvs : KeyValues) (k : String) → lookup k (decode_attributes kvs) ≡ last_value k kvs
unfolding decode_attributes lookup
lookup-decode_attributes kvs k = lookup-decode_into k kvs end ∙ or_earlier-none (last_value k kvs)
