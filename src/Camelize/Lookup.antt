-- ===== src/Camelize/Lookup.antt =====
-- `camelize` of web-dashboard/src/lib/signalr.ts, as a reader of the object sees it.
use aether_lens.Prelude.{
  ◌≡◌, refl, ◌∙◌, ap, Option, none, some, arith, Text, text_eq, text_eq_iff, if◌then◌else◌,
}
use aether_lens.Camelize.{
  Value, Fields, end, field, camelize_key, put, get, camelize, camelize_fields,
}

-- The value of the last entry whose key becomes `key`, or `found`.
pub last_as : Text → Option Value → Fields → Option Value
last_as key found end = found
last_as key found (field k v fs) =
    last_as key (if text_eq (camelize_key k) key then some (camelize v) else found) fs

get-put :
    (key k : Text) (v : Value) (fs : Fields)
    → get key (put k v fs) ≡ (if text_eq k key then some v else get key fs)
unfolding get put
get-put key k v end = refl
get-put key k v (field j w fs) =
    ground (arith, text_eq_iff j k, text_eq_iff j key, text_eq_iff k key, get-put key k v fs)

get-camelize_fields :
    (key : Text) (result fields : Fields)
    → get key (camelize_fields result fields) ≡ last_as key (get key result) fields
unfolding camelize last_as
get-camelize_fields key result end = refl
get-camelize_fields key result (field k v fields) =
    get-camelize_fields key (put (camelize_key k) (camelize v) result) fields
    ∙ ap (λ o. last_as key o fields) (get-put key (camelize_key k) (camelize v) result)

-- A read of `key` in a camelized object gives the camelized value of the last entry of the original
-- whose key becomes `key`, and `undefined` where there is none.
pub get-camelize :
    (key : Text) (fields : Fields) → get key (camelize_fields end fields) ≡ last_as key none fields
unfolding get
get-camelize key fields = get-camelize_fields key end fields
