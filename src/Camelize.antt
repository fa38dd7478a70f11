-- ===== src/Camelize.antt =====
-- web-dashboard/src/lib/signalr.ts, `camelizeKey` and `camelize`: the hub's messages arrive as
-- JavaScript values whose object keys are in PascalCase.
pub mod Idempotent
pub mod Lookup
use aether_lens.Prelude.{
  ℕ, ◌+◌, ◌-◌, ◌≡◌, Bool, true, false, ◌&&◌, Option, none, some, [], ◌∷◌, Text, text_eq, ltb, leb,
  if◌then◌else◌,
}
use aether_lens.Number.{Double}

-- The entries of an object stand in the order of `Object.entries`, which for keys that are no
-- array indices is the order of insertion.
mutual
  pub data Value : Type 0 where
    null : Value
    boolean : Bool → Value
    number : Double → Value
    string : Text → Value
    array : Items → Value
    object : Fields → Value

  pub data Items : Type 0 where
    nil : Items
    cons : Value → Items → Items

  pub data Fields : Type 0 where
    end : Fields
    field : Text → Value → Fields → Fields

-- `toLowerCase` on one character. The keys of the messages begin with an ASCII letter.
unfoldable pub to_lower : ℕ → ℕ
to_lower c = if leb b'A' c && leb c b'Z' then c + 32 else c

unfoldable pub camelize_key : Text → Text
unfolding to_lower
camelize_key [] = []
camelize_key (c ∷ s) = to_lower c ∷ s

-- `result[key] = v`: an old key keeps its place, a new one comes last.
unfoldable pub put : Text → Value → Fields → Fields
put key v end = field key v end
put key v (field k w fs) = if text_eq k key then field k v fs else field k w (put key v fs)

-- `obj[key]`, where `none` is `undefined`.
unfoldable pub get : Text → Fields → Option Value
get key end = none
get key (field k v fs) = if text_eq k key then some v else get key fs

unfoldable mutual
  pub camelize : Value → Value
  camelize (array items) = array (camelize_items items)
  camelize (object fields) = object (camelize_fields end fields)
  camelize null = null
  camelize (boolean b) = boolean b
  camelize (number x) = number x
  camelize (string s) = string s

  pub camelize_items : Items → Items
  camelize_items nil = nil
  camelize_items (cons item items) = cons (camelize item) (camelize_items items)

  -- The loop over the entries, with the object `result` built so far.
  pub camelize_fields : Fields → Fields → Fields
  camelize_fields result end = result
  camelize_fields result (field k v fields) =
      camelize_fields (put (camelize_key k) (camelize v) result) fields
