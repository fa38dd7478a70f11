-- ===== src/Camelize/Idempotent.antt =====
-- `camelize` of web-dashboard/src/lib/signalr.ts on a message that it has already been through.
use aether_lens.Prelude.{
  ◌≡◌, refl, sym, ap, ap₂, ◌∙◌, false, ◌∷◌, [], arith, Text, text_eq, text_eq_iff, Bool-cases, inl,
  inr,
}
use aether_lens.Camelize.{
  Value, null, boolean, number, string, array, object, Items, nil, cons, Fields, end, field,
  camelize_key, put, camelize, camelize_items, camelize_fields,
}

-- No entry has the key.
abbrev pub Lacks : Text → Fields → Type 0
Lacks key end = Unit
Lacks key (field k v fs) = (text_eq k key ≡ false) × Lacks key fs

-- Every key, at any depth, is a camelCase key, and no object has a key twice.
abbrev mutual
  pub IsCamel : Value → Type 0
  IsCamel (array items) = AreCamel items
  IsCamel (object fields) = HasCamelKeys fields
  IsCamel null = Unit
  IsCamel (boolean b) = Unit
  IsCamel (number x) = Unit
  IsCamel (string s) = Unit

  pub AreCamel : Items → Type 0
  AreCamel nil = Unit
  AreCamel (cons v items) = IsCamel v × AreCamel items

  pub HasCamelKeys : Fields → Type 0
  HasCamelKeys end = Unit
  HasCamelKeys (field k v fs) = (camelize_key k ≡ k) × Lacks k fs × IsCamel v × HasCamelKeys fs

camelize_key_idem : (k : Text) → camelize_key (camelize_key k) ≡ camelize_key k
unfolding camelize_key
camelize_key_idem [] = refl
camelize_key_idem (c ∷ s) = ground arith

Lacks-put :
    (j k : Text) (v : Value) (fs : Fields) → text_eq k j ≡ false → Lacks j fs → Lacks j (put k v fs)
unfolding put
Lacks-put j k v end h l = (h, tt)
Lacks-put j k v (field i w fs) h (p, l) = elim (Bool-cases (text_eq i k)) [
  | inl same ↦ rw same (p, l)
  | inr other ↦ rw other (p, Lacks-put j k v fs h l)
]

put-HasCamelKeys :
    (k : Text) (v : Value) (fs : Fields)
    → camelize_key k ≡ k
    → IsCamel v
    → HasCamelKeys fs
    → HasCamelKeys (put k v fs)
unfolding put
put-HasCamelKeys k v end e c h = (e, tt, c, tt)
put-HasCamelKeys k v (field i w fs) e c (fixed, lacks, old, h) = elim (Bool-cases (text_eq i k)) [
  | inl same ↦ rw same (fixed, lacks, c, h)
  | inr other ↦ rw other (
    fixed,
    Lacks-put i k v fs (ground (arith, text_eq_iff i k, text_eq_iff k i)) lacks,
    old,
    put-HasCamelKeys k v fs e c h,
  )
]

mutual
  unfolding camelize

  camelize-IsCamel : (v : Value) → IsCamel (camelize v)
  camelize-IsCamel (array items) = camelize_items-AreCamel items
  camelize-IsCamel (object fields) = camelize_fields-HasCamelKeys end fields tt
  camelize-IsCamel null = tt
  camelize-IsCamel (boolean b) = tt
  camelize-IsCamel (number x) = tt
  camelize-IsCamel (string s) = tt

  camelize_items-AreCamel : (items : Items) → AreCamel (camelize_items items)
  camelize_items-AreCamel nil = tt
  camelize_items-AreCamel (cons v items) = (camelize-IsCamel v, camelize_items-AreCamel items)

  camelize_fields-HasCamelKeys :
      (result fields : Fields) → HasCamelKeys result → HasCamelKeys (camelize_fields result fields)
  camelize_fields-HasCamelKeys result end h = h
  camelize_fields-HasCamelKeys result (field k v fields) h =
      camelize_fields-HasCamelKeys (put (camelize_key k) (camelize v) result) fields (
        put-HasCamelKeys (camelize_key k) (camelize v) result (camelize_key_idem k)
          (camelize-IsCamel v) h)

glue : Fields → Fields → Fields
glue end gs = gs
glue (field k v fs) gs = field k v (glue fs gs)

glue_assoc : (fs gs hs : Fields) → glue (glue fs gs) hs ≡ glue fs (glue gs hs)
unfolding glue
glue_assoc end gs hs = refl
glue_assoc (field k v fs) gs hs = ap (field k v) (glue_assoc fs gs hs)

glue-end : (fs : Fields) → glue fs end ≡ fs
unfolding glue
glue-end end = refl
glue-end (field k v fs) = ap (field k v) (glue-end fs)

-- No key of the second object stands in the first.
abbrev Fresh : Fields → Fields → Type 0
Fresh fs end = Unit
Fresh fs (field k v gs) = Lacks k fs × Fresh fs gs

put-glue : (k : Text) (v : Value) (fs : Fields) → Lacks k fs → put k v fs ≡ glue fs (field k v end)
unfolding put glue
put-glue k v end l = refl
put-glue k v (field j w fs) (p, l) = rw p (ap (field j w) (put-glue k v fs l))

Lacks-glue :
    (j k : Text) (v : Value) (fs : Fields)
    → Lacks j fs
    → text_eq k j ≡ false
    → Lacks j (glue fs (field k v end))
unfolding glue
Lacks-glue j k v end l h = (h, tt)
Lacks-glue j k v (field i w fs) (p, l) h = (p, Lacks-glue j k v fs l h)

Fresh-glue :
    (k : Text) (v : Value) (fs gs : Fields)
    → Lacks k gs
    → Fresh fs gs
    → Fresh (glue fs (field k v end)) gs
Fresh-glue k v fs end l f = tt
Fresh-glue k v fs (field j w gs) (p, l) (q, f) = (
  Lacks-glue j k v fs q (ground (arith, text_eq_iff j k, text_eq_iff k j)),
  Fresh-glue k v fs gs l f,
)

Fresh-end : (gs : Fields) → Fresh end gs
Fresh-end end = tt
Fresh-end (field k v gs) = (tt, Fresh-end gs)

mutual
  unfolding camelize glue

  camelize-eq : (v : Value) → IsCamel v → camelize v ≡ v
  camelize-eq (array items) h = ap array (camelize_items-eq items h)
  camelize-eq (object fields) h = ap object (camelize_fields-eq end fields h (Fresh-end fields))
  camelize-eq null h = refl
  camelize-eq (boolean b) h = refl
  camelize-eq (number x) h = refl
  camelize-eq (string s) h = refl

  camelize_items-eq : (items : Items) → AreCamel items → camelize_items items ≡ items
  camelize_items-eq nil h = refl
  camelize_items-eq (cons v items) (p, h) = ap₂ cons (camelize-eq v p) (camelize_items-eq items h)

  camelize_fields-eq :
      (result fields : Fields)
      → HasCamelKeys fields
      → Fresh result fields
      → camelize_fields result fields ≡ glue result fields
  camelize_fields-eq result end h f = sym (glue-end result)
  camelize_fields-eq result (field k v fields) (fixed, lacks, c, h) (new, f) =
      rw (fixed, camelize-eq v c, put-glue k v result new)
        (camelize_fields-eq (glue result (field k v end)) fields h
            (Fresh-glue k v result fields lacks f)
          ∙ glue_assoc result (field k v end) fields)

-- Camelizing twice is camelizing once, at every depth of the message.
pub camelize_idem : (v : Value) → camelize (camelize v) ≡ camelize v
camelize_idem v = camelize-eq (camelize v) (camelize-IsCamel v)
