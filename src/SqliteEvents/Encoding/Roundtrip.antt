-- ===== src/SqliteEvents/Encoding/Roundtrip.antt =====
-- What is written to a row is read back.
use relprim.Prelude.{String, ◌≡◌, refl, inl, inr, true, [], ◌∷◌, Bool-cases, all}
use relprim.Prelude.Text.{codes}
use relprim.Values.{
  finite, infinity, neg_infinity, nan, JsonScalar, null, bool, int, float, str, Metadata,
}
use relprim.Outcome.{returned}
use relprim.Events.{EventType}
use relprim.Checks.Accepted.{IsFinite, AllFinite}
use relprim.SqliteEvents.Encoding.{
  node, json_object, event_value, event_type_from, sort_keys, is_finite, nodes, encode_payload,
  decode_payload, decode_items, decode_value, insert_sorted, text_le,
}
use mathlib.Core.List.{Perm}
use mathlib.Core.List.Perm

pub event_type_from-event_value : (t : EventType) → event_type_from (event_value t) ≡ returned t
unfolding event_type_from
event_type_from-event_value EventType.attempt_started = refl
event_type_from-event_value _ = refl

insert_sorted-perm : (e : String × JsonScalar) (m : Metadata) → Perm (insert_sorted e m) (e ∷ m)
unfolding insert_sorted
insert_sorted-perm e [] = Perm.refl (e ∷ [])
insert_sorted-perm e (f ∷ rest) = elim (Bool-cases (text_le (codes e.0) (codes f.0))) [
  | inl before ↦ rw before (Perm.refl (e ∷ f ∷ rest))
  | inr after ↦ rw after (Perm.trans (Perm.cons f (insert_sorted-perm e rest)) (Perm.swap e f rest))
]

pub sort_keys-perm : (m : Metadata) → Perm (sort_keys m) m
unfolding sort_keys
sort_keys-perm [] = Perm.refl []
sort_keys-perm (e ∷ rest) =
    Perm.trans (insert_sorted-perm e (sort_keys rest)) (Perm.cons e (sort_keys-perm rest))

insert_sorted-AllFinite :
    (e : String × JsonScalar) (m : Metadata)
    → IsFinite e.1
    → AllFinite m
    → AllFinite (insert_sorted e m)
unfolding insert_sorted
insert_sorted-AllFinite e [] h hm = (h, tt)
insert_sorted-AllFinite e (f ∷ rest) h hm = elim (Bool-cases (text_le (codes e.0) (codes f.0))) [
  | inl before ↦ rw before (h, hm)
  | inr after ↦ rw after (hm.0, insert_sorted-AllFinite e rest h hm.1)
]

pub sort_keys-AllFinite : (m : Metadata) → AllFinite m → AllFinite (sort_keys m)
unfolding sort_keys
sort_keys-AllFinite [] h = tt
sort_keys-AllFinite (e ∷ rest) h =
    insert_sorted-AllFinite e (sort_keys rest) h.0 (sort_keys-AllFinite rest h.1)

finite_values : (v : JsonScalar) → IsFinite v → is_finite v ≡ true
finite_values null h = refl
finite_values (bool b) h = refl
finite_values (int n) h = refl
finite_values (str s) h = refl
finite_values (float (finite x)) h = refl
finite_values (float infinity) h = elim h [ ]
finite_values (float neg_infinity) h = elim h [ ]
finite_values (float nan) h = elim h [ ]

finite_payload : (m : Metadata) → AllFinite m → all (λ e. is_finite e.1) m ≡ true
finite_payload [] h = refl
finite_payload (e ∷ rest) h = rw (finite_values e.1 h.0) (finite_payload rest h.1)

pub encode_payload_finite :
    (m : Metadata) → AllFinite m → encode_payload m ≡ returned (json_object (nodes (sort_keys m)))
unfolding encode_payload
encode_payload_finite m h = rw (finite_payload m h) refl

decode_value_finite : (v : JsonScalar) → IsFinite v → decode_value (node v) ≡ returned v
unfolding decode_value
decode_value_finite null h = refl
decode_value_finite (bool b) h = refl
decode_value_finite (int n) h = refl
decode_value_finite (str s) h = refl
decode_value_finite (float (finite x)) h = refl
decode_value_finite (float infinity) h = elim h [ ]
decode_value_finite (float neg_infinity) h = elim h [ ]
decode_value_finite (float nan) h = elim h [ ]

pub decode_nodes :
    (m : Metadata) → AllFinite m → decode_payload (json_object (nodes m)) ≡ returned m
unfolding decode_payload decode_items
decode_nodes [] h = refl
decode_nodes ((key, value) ∷ rest) h =
    rw (decode_value_finite value h.0, decode_nodes rest h.1) refl
