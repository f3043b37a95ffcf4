-- ===== src/Flow/Examples.antt =====
-- A module found where an entry points, and a form of whole numbers.
use ha_wago.Base.{◌≡◌, refl, true, false, none, some, [], ◌∷◌}
use ha_wago.Base.Int.{pos}
use ha_wago.Base.Text.{codes}
use ha_wago.Base.Dict.{Dict, lookup}
use ha_wago.Python.{FloatText, Float, finite, Value, number, text, to_float, is_integer, to_int}
use ha_wago.Discovery.{FoundModule}
use ha_wago.Entry.{string}
use ha_wago.Flow.{Converted, integer, as_typed, as_integer, convert, as_integers, FlowEntry}
use ha_wago.Flow.Choice.{as_integers-lookup}

abbrev floats : FloatText
floats = record { parse_float = λ t. none; show_float = λ x. codes "1.5" }

abbrev found : FoundModule
found = record { serial_number = codes "000000000ABC"; host = codes "10.0.0.5" }

abbrev waiting : FlowEntry
waiting = record {
  entry_id = codes "1";
  title = codes "WAGO";
  unique_id = none;
  data_of = ("host", string (codes "10.0.0.5")) ∷ [];
  module_serial = none;
  has_listeners = false;
}

abbrev typed_form : Dict Value
typed_form = ("host", text (codes "10.0.0.5")) ∷ ("port", number (finite (pos 1004) 1)) ∷ []

abbrev converted_form : Dict Converted
converted_form = ("host", as_typed (text (codes "10.0.0.5"))) ∷ ("port", integer (pos 502)) ∷ []

form_converted : as_integers floats typed_form ≡ some converted_form
unfolding as_integers convert as_integer to_float is_integer to_int
form_converted = refl

port_typed : lookup "port" typed_form ≡ some (number (finite (pos 1004) 1))
unfolding lookup
port_typed = refl

as_integers-lookup_example :
    (x : Float) × (to_float floats (number (finite (pos 1004) 1)) ≡ some x)
    × (is_integer x ≡ true)
    × (lookup "port" converted_form ≡ some (integer (to_int x)))
as_integers-lookup_example =
    as_integers-lookup floats typed_form converted_form "port" (number (finite (pos 1004) 1))
      form_converted port_typed refl
