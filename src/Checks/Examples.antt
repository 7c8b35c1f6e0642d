-- ===== src/Checks/Examples.antt =====
-- Runs of the checks of src/relprim/_checks.py, and uses of their theorems.
use relprim.Prelude.{◌<◌, ◌≡◌, refl, ◌↔◌, ◌⊎◌, true, false, some, [], ◌∷◌}
use relprim.Prelude.Int.{pos}
use relprim.Values.{finite, nan, bool, int, float, str, scalar, Metadata, lit}
use relprim.Errors.{value_error, type_error}
use relprim.Outcome.{returned, raised}
use relprim.Checks.{check_seconds, freeze_json_scalars, unchecked}
use relprim.Checks.Accepted.{numeric, AllFinite, check_seconds_exact, freeze_json_scalars_exact}

bool_rejected :
    check_seconds "delay" true (scalar (bool true))
    ≡ raised (type_error (lit "delay" ∷ lit " must be an int or float." ∷ []))
unfolding check_seconds
bool_rejected = refl

zero_rejected :
    check_seconds "delay" false (scalar (int (pos 0)))
    ≡ raised (value_error (lit "delay" ∷ lit " must be greater than 0." ∷ []))
unfolding check_seconds
zero_rejected = refl

check_seconds_exact_example :
    (check_seconds "delay" false (scalar (int (pos 2))) ≡ returned 2000000)
    ↔ ((numeric (scalar (int (pos 2))) ≡ some (pos 2000000)) × ((false ≡ true) ⊎ (0 < 2000000)))
check_seconds_exact_example = check_seconds_exact "delay" false (scalar (int (pos 2))) 2000000

abbrev labels : Metadata
labels = ("model", str "small") ∷ ("temperature", float (finite (pos 500000))) ∷ []

freeze_json_scalars_exact_example :
    (freeze_json_scalars "metadata" (unchecked labels) ≡ returned labels)
    ↔ ((unchecked labels ≡ unchecked labels) × AllFinite labels)
freeze_json_scalars_exact_example = freeze_json_scalars_exact "metadata" (unchecked labels) labels

labels_frozen : freeze_json_scalars "metadata" (unchecked labels) ≡ returned labels
unfolding freeze_json_scalars
labels_frozen = refl

nan_rejected :
    freeze_json_scalars "metadata" ((scalar (str "score"), scalar (float nan)) ∷ [])
    ≡ raised (value_error (lit "metadata" ∷ lit " values must be finite." ∷ []))
unfolding freeze_json_scalars
nan_rejected = refl
