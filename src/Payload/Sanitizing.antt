-- ===== src/Payload/Sanitizing.antt =====
-- What `sanitize_for_json` guarantees.
use conversational_copil.Prelude.{◌↔◌}
use conversational_copil.Payload.{
  Float, finite, nan, infinite, Value, null, boolean, integer, text, float, decimal, array, tuple,
  object, other, Items, nil, cons, Fields, end, field, sanitize_for_json, sanitize_items,
  sanitize_fields,
}

abbrev pub IsFinite : Float → Type 0
IsFinite (finite s) = Unit
IsFinite nan = ⊥
IsFinite infinite = ⊥

-- What a JSON writer accepts: no float that is not finite, no `Decimal`, no tuple, no object
-- of another type.
mutual
  pub IsJson : Value → Type 0
  IsJson null = Unit
  IsJson (boolean b) = Unit
  IsJson (integer n) = Unit
  IsJson (text s) = Unit
  IsJson (float f) = IsFinite f
  IsJson (decimal f) = ⊥
  IsJson (array xs) = AreJson xs
  IsJson (tuple xs) = ⊥
  IsJson (object fs) = HaveJson fs
  IsJson (other r) = ⊥

  pub AreJson : Items → Type 0
  AreJson nil = Unit
  AreJson (cons x xs) = IsJson x × AreJson xs

  pub HaveJson : Fields → Type 0
  HaveJson end = Unit
  HaveJson (field k x fs) = IsJson x × HaveJson fs

-- Every `Decimal` in the value is finite as a float, and there is no object of another type in it.
mutual
  pub IsPlain : Value → Type 0
  IsPlain null = Unit
  IsPlain (boolean b) = Unit
  IsPlain (integer n) = Unit
  IsPlain (text s) = Unit
  IsPlain (float f) = Unit
  IsPlain (decimal f) = IsFinite f
  IsPlain (array xs) = ArePlain xs
  IsPlain (tuple xs) = ArePlain xs
  IsPlain (object fs) = HavePlain fs
  IsPlain (other r) = ⊥

  pub ArePlain : Items → Type 0
  ArePlain nil = Unit
  ArePlain (cons x xs) = IsPlain x × ArePlain xs

  pub HavePlain : Fields → Type 0
  HavePlain end = Unit
  HavePlain (field k x fs) = IsPlain x × HavePlain fs

mutual
  unfolding sanitize_for_json IsJson IsPlain

  to_json : (v : Value) → IsPlain v → IsJson (sanitize_for_json v)
  to_json null h = tt
  to_json (boolean b) h = tt
  to_json (integer n) h = tt
  to_json (text s) h = tt
  to_json (float (finite s)) h = tt
  to_json (float nan) h = tt
  to_json (float infinite) h = tt
  to_json (decimal f) h = h
  to_json (array xs) h = items_to_json xs h
  to_json (tuple xs) h = items_to_json xs h
  to_json (object fs) h = fields_to_json fs h
  to_json (other r) h = h

  items_to_json : (xs : Items) → ArePlain xs → AreJson (sanitize_items xs)
  items_to_json nil h = tt
  items_to_json (cons x xs) h = (to_json x h.0, items_to_json xs h.1)

  fields_to_json : (fs : Fields) → HavePlain fs → HaveJson (sanitize_fields fs)
  fields_to_json end h = tt
  fields_to_json (field k x fs) h = (to_json x h.0, fields_to_json fs h.1)

mutual
  unfolding sanitize_for_json IsJson IsPlain

  of_json : (v : Value) → IsJson (sanitize_for_json v) → IsPlain v
  of_json null h = tt
  of_json (boolean b) h = tt
  of_json (integer n) h = tt
  of_json (text s) h = tt
  of_json (float f) h = tt
  of_json (decimal f) h = h
  of_json (array xs) h = items_of_json xs h
  of_json (tuple xs) h = items_of_json xs h
  of_json (object fs) h = fields_of_json fs h
  of_json (other r) h = h

  items_of_json : (xs : Items) → AreJson (sanitize_items xs) → ArePlain xs
  items_of_json nil h = tt
  items_of_json (cons x xs) h = (of_json x h.0, items_of_json xs h.1)

  fields_of_json : (fs : Fields) → HaveJson (sanitize_fields fs) → HavePlain fs
  fields_of_json end h = tt
  fields_of_json (field k x fs) h = (of_json x h.0, fields_of_json fs h.1)

-- There is no object of another type in the value.
mutual
  pub IsKnown : Value → Type 0
  IsKnown (array xs) = AreKnown xs
  IsKnown (tuple xs) = AreKnown xs
  IsKnown (object fs) = HaveKnown fs
  IsKnown (other r) = ⊥
  IsKnown _ = Unit

  pub AreKnown : Items → Type 0
  AreKnown nil = Unit
  AreKnown (cons x xs) = IsKnown x × AreKnown xs

  pub HaveKnown : Fields → Type 0
  HaveKnown end = Unit
  HaveKnown (field k x fs) = IsKnown x × HaveKnown fs

mutual
  unfolding sanitize_for_json IsPlain IsKnown

  once : (v : Value) → IsKnown v → IsPlain (sanitize_for_json v)
  once null h = tt
  once (boolean b) h = tt
  once (integer n) h = tt
  once (text s) h = tt
  once (float (finite s)) h = tt
  once (float nan) h = tt
  once (float infinite) h = tt
  once (decimal f) h = tt
  once (array xs) h = items_once xs h
  once (tuple xs) h = items_once xs h
  once (object fs) h = fields_once fs h
  once (other r) h = h

  items_once : (xs : Items) → AreKnown xs → ArePlain (sanitize_items xs)
  items_once nil h = tt
  items_once (cons x xs) h = (once x h.0, items_once xs h.1)

  fields_once : (fs : Fields) → HaveKnown fs → HavePlain (sanitize_fields fs)
  fields_once end h = tt
  fields_once (field k x fs) h = (once x h.0, fields_once fs h.1)

mutual
  unfolding sanitize_for_json IsPlain IsKnown

  IsKnown-of : (v : Value) → IsPlain (sanitize_for_json v) → IsKnown v
  IsKnown-of null h = tt
  IsKnown-of (boolean b) h = tt
  IsKnown-of (integer n) h = tt
  IsKnown-of (text s) h = tt
  IsKnown-of (float f) h = tt
  IsKnown-of (decimal f) h = tt
  IsKnown-of (array xs) h = items_known xs h
  IsKnown-of (tuple xs) h = items_known xs h
  IsKnown-of (object fs) h = fields_known fs h
  IsKnown-of (other r) h = h

  items_known : (xs : Items) → ArePlain (sanitize_items xs) → AreKnown xs
  items_known nil h = tt
  items_known (cons x xs) h = (IsKnown-of x h.0, items_known xs h.1)

  fields_known : (fs : Fields) → HavePlain (sanitize_fields fs) → HaveKnown fs
  fields_known end h = tt
  fields_known (field k x fs) h = (IsKnown-of x h.0, fields_known fs h.1)

-- One pass makes a value that JSON can hold exactly when each `Decimal` in it is finite as a float (a
-- `Decimal` that is not a number comes through as a float that is not) and it has no object of another
-- type in it, since those come through unchanged. Two passes do exactly when it has no such object.
pub sanitize_exact :
    (v : Value)
    → (IsJson (sanitize_for_json v) ↔ IsPlain v)
      × (IsJson (sanitize_for_json (sanitize_for_json v)) ↔ IsKnown v)
sanitize_exact v = (
  (of_json v, to_json v),
  (
    (λ h. IsKnown-of v (of_json (sanitize_for_json v) h)),
    (λ h. to_json (sanitize_for_json v) (once v h)),
  ),
)
