-- ===== src/Checks/Accepted.antt =====
-- What the checks of src/relprim/_checks.py accept.
use relprim.Prelude.{
  ◌<◌, String, ◌≡◌, refl, ap, ◌∙◌, ◌↔◌, ◌⊎◌, Bool, true, false, Option, none, some, [], ◌∷◌, arith,
  if◌then◌else◌, All,
}
use relprim.Prelude.Int.{pos}
use relprim.Values.{
  Seconds, Duration, seconds_of_int, finite, infinity, neg_infinity, nan, JsonScalar, null, bool,
  int, float, str, PyObject, scalar, other, Metadata,
}
use relprim.Outcome.{returned, bind_outcome-returned, returned_injective}
use relprim.Checks.{
  check_entry, check_sign, int_overflows, check_seconds, freeze_json_scalars, Mapping, unchecked,
}
use mathlib.Core.Path.{subst}

-- The number of seconds that an object stands for, if it is a finite int or float.
abbrev pub numeric : PyObject → Option Seconds
numeric (scalar (int n)) = if int_overflows n then none else some (seconds_of_int n)
numeric (scalar (float (finite x))) = some x
numeric _ = none

check_sign_lem :
    (name : String) (allow_zero : Bool) (x : Seconds) {d : Duration}
    → check_sign name allow_zero x ≡ returned d
    → (x ≡ pos d) × ((allow_zero ≡ true) ⊎ (0 < d))
unfolding check_sign
check_sign_lem name true x h = ground arith
check_sign_lem name false x h = ground arith

check_sign_accepts :
    (name : String) (allow_zero : Bool) (x : Seconds) {d : Duration}
    → x ≡ pos d
    → (allow_zero ≡ true) ⊎ (0 < d)
    → check_sign name allow_zero x ≡ returned d
unfolding check_sign
check_sign_accepts name true x e h = ground arith
check_sign_accepts name false x e h = ground arith

seconds_accepted :
    (name : String) (allow_zero : Bool) (o : PyObject) {d : Duration}
    → check_seconds name allow_zero o ≡ returned d
    → (numeric o ≡ some (pos d)) × ((allow_zero ≡ true) ⊎ (0 < d))
unfolding check_seconds
seconds_accepted name z (scalar (int n)) h =
    ground (arith, check_sign_lem name z (seconds_of_int n))
seconds_accepted name z (scalar (float (finite x))) h = ground (arith, check_sign_lem name z x)
seconds_accepted name z (scalar (float infinity)) h = cc
seconds_accepted name z (scalar (float neg_infinity)) h = cc
seconds_accepted name z (scalar (float nan)) h = cc
seconds_accepted name z (scalar null) h = cc
seconds_accepted name z (scalar (bool b)) h = cc
seconds_accepted name z (scalar (str s)) h = cc
seconds_accepted name z other h = cc

accepts_seconds :
    (name : String) (allow_zero : Bool) (o : PyObject) {d : Duration}
    → numeric o ≡ some (pos d)
    → (allow_zero ≡ true) ⊎ (0 < d)
    → check_seconds name allow_zero o ≡ returned d
unfolding check_seconds
accepts_seconds name z (scalar (int n)) e h =
    ground (arith, check_sign_accepts name z (seconds_of_int n))
accepts_seconds name z (scalar (float (finite x))) e h = ground (arith, check_sign_accepts name z x)
accepts_seconds name z (scalar (float infinity)) e h = cc
accepts_seconds name z (scalar (float neg_infinity)) e h = cc
accepts_seconds name z (scalar (float nan)) e h = cc
accepts_seconds name z (scalar null) e h = cc
accepts_seconds name z (scalar (bool b)) e h = cc
accepts_seconds name z (scalar (str s)) e h = cc
accepts_seconds name z other e h = cc

-- check_seconds accepts exactly the finite ints and floats, never bools, that are at least 0, and above
-- 0 unless zero is allowed.
pub check_seconds_exact :
    (name : String) (allow_zero : Bool) (o : PyObject) (d : Duration)
    → (check_seconds name allow_zero o ≡ returned d)
      ↔ ((numeric o ≡ some (pos d)) × ((allow_zero ≡ true) ⊎ (0 < d)))
check_seconds_exact name z o d =
    (λ h. seconds_accepted name z o h, λ h. accepts_seconds name z o h.0 h.1)

-- A float of a metadata value is finite.
abbrev pub IsFinite : JsonScalar → Type 0
IsFinite (float (finite x)) = Unit {0}
IsFinite (float _) = ⊥
IsFinite _ = Unit {0}

abbrev pub AllFinite : Metadata → Type 0
AllFinite m = All (λ e. IsFinite e.1) m

entry_accepts :
    (name : String) (key value : PyObject) {e : String × JsonScalar}
    → check_entry name key value ≡ returned e
    → (key ≡ scalar (str e.0)) × (value ≡ scalar e.1) × IsFinite e.1
unfolding check_entry
entry_accepts name key value h = ground arith

check_finite :
    (name : String) (key : String) (value : JsonScalar)
    → IsFinite value
    → check_entry name (scalar (str key)) (scalar value) ≡ returned (key, value)
unfolding check_entry
check_finite name key null h = refl
check_finite name key (bool b) h = refl
check_finite name key (int n) h = refl
check_finite name key (str s) h = refl
check_finite name key (float (finite x)) h = refl
check_finite name key (float infinity) h = elim h [ ]
check_finite name key (float neg_infinity) h = elim h [ ]
check_finite name key (float nan) h = elim h [ ]

frozen :
    (name : String) (m : Metadata)
    → AllFinite m
    → freeze_json_scalars name (unchecked m) ≡ returned m
unfolding freeze_json_scalars
frozen name [] h = refl
frozen name ((key, value) ∷ rest) h = rw (check_finite name key value h.0, frozen name rest h.1)

freezes :
    (name : String) (values : Mapping) {m : Metadata}
    → freeze_json_scalars name values ≡ returned m
    → (values ≡ unchecked m) × AllFinite m
unfolding freeze_json_scalars
freezes name [] {m} h =
    subst (λ m'. ◌≡◌ {A = Mapping} [] (unchecked m') × AllFinite m') (returned_injective h)
      (refl, tt)
freezes name ((key, value) ∷ rest) {m} h =
    let (e, he, h') = bind_outcome-returned (check_entry name key value) _ h in
    let (copied, hc, h'') = bind_outcome-returned (freeze_json_scalars name rest) _ h' in
    let (k, v, finite_value) = entry_accepts name key value he in
    let (r, others) = freezes name rest hc in
    subst (λ m'. ◌≡◌ {A = Mapping} ((key, value) ∷ rest) (unchecked m') × AllFinite m')
      (returned_injective h'') (cc (k, v, r), (finite_value, others))

-- freeze_json_scalars accepts exactly the mappings from texts to scalars whose floats are finite, and
-- returns the very same entries in the same order.
pub freeze_json_scalars_exact :
    (name : String) (values : Mapping) (m : Metadata)
    → (freeze_json_scalars name values ≡ returned m) ↔ ((values ≡ unchecked m) × AllFinite m)
freeze_json_scalars_exact name values m =
    (λ h. freezes name values h, λ h. ap (freeze_json_scalars name) h.0 ∙ frozen name m h.1)
