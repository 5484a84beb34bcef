-- ===== src/Migrate/Snake.antt =====
-- What the conversion of keys does to their letters.
use picoclawnim.Base.{
  ℕ, ◌+◌, ◌≡◌, refl, ap, arith, Bool, true, false, Bool-cases, inl, inr, Option, none, some, [],
  ◌∷◌, Str, str_eq, if◌then◌else◌, All,
}
use picoclawnim.Json.{Value, Items, Fields, null, bool, num, text, arr, obj, nil, cons, end, field}
use picoclawnim.Migrate.Keys.{
  is_upper, starts_word, snake, camel_to_snake, set_field, convert_keys_to_snake, convert_items,
  convert_fields,
}

-- No upper-case letter.
IsSnake : Str → Type 0
IsSnake s = All (λ c. is_upper c ≡ false) s

lowered : (c : ℕ) → is_upper c ≡ true → is_upper (c + 32) ≡ false
unfolding is_upper
lowered c h = ground arith

dash : is_upper 95 ≡ false
unfolding is_upper
dash = refl

opened :
    (b : Bool) (c : ℕ) (s : Str)
    → is_upper c ≡ false
    → IsSnake s
    → IsSnake (if b then 95 ∷ c ∷ s else c ∷ s)
unfolding IsSnake
opened true c s h k = (dash, (h, k))
opened false c s h k = (h, k)

snake-IsSnake : (prev : Option ℕ) (s : Str) → IsSnake (snake prev s)
unfolding IsSnake snake
snake-IsSnake prev [] = tt
snake-IsSnake prev (c ∷ s) = elim (Bool-cases (is_upper c)) [
  | inl e ↦ rw e (
      opened (starts_word prev s) (c + 32) (snake (some c) s) (lowered c e)
        (snake-IsSnake (some c) s))
  | inr e ↦ rw (e) (e, snake-IsSnake (some c) s)
]

snake_same : (prev : Option ℕ) (s : Str) → IsSnake s → snake prev s ≡ s
unfolding IsSnake snake
snake_same prev [] h = refl
snake_same prev (c ∷ s) h = rw h.0 (ap (◌∷◌ c) (snake_same (some c) s h.1))

-- A converted key has no upper-case letter, and to convert it again changes nothing.
pub camel_to_snake-stable :
    (s : Str)
    → All (λ c. is_upper c ≡ false) (camel_to_snake s)
      × (camel_to_snake (camel_to_snake s) ≡ camel_to_snake s)
unfolding camel_to_snake IsSnake
camel_to_snake-stable s =
    (snake-IsSnake none s, snake_same none (snake none s) (snake-IsSnake none s))

-- Every key of every map in a value, at any depth, has no upper-case letter.
mutual
  pub SnakeKeys : Value → Type 0
  SnakeKeys (obj fs) = SnakeFields fs
  SnakeKeys (arr xs) = SnakeItems xs
  SnakeKeys null = Unit
  SnakeKeys (bool b) = Unit
  SnakeKeys (num f) = Unit
  SnakeKeys (text s) = Unit

  SnakeItems : Items → Type 0
  SnakeItems nil = Unit
  SnakeItems (cons v xs) = SnakeKeys v × SnakeItems xs

  SnakeFields : Fields → Type 0
  SnakeFields end = Unit
  SnakeFields (field k v fs) = All (λ c. is_upper c ≡ false) k × SnakeKeys v × SnakeFields fs

set_field-SnakeFields :
    (k : Str) (v : Value) (fs : Fields)
    → All (λ c. is_upper c ≡ false) k
    → SnakeKeys v
    → SnakeFields fs
    → SnakeFields (set_field k v fs)
unfolding SnakeKeys set_field
set_field-SnakeFields k v end hk hv h = (hk, hv, h)
set_field-SnakeFields k v (field j w fs) hk hv h = elim (Bool-cases (str_eq j k)) [
  | inl e ↦ rw e (hk, hv, h.2)
  | inr e ↦ rw e (h.0, h.1, set_field-SnakeFields k v fs hk hv h.2)
]

mutual
  unfolding SnakeKeys convert_keys_to_snake

  convert_value-SnakeKeys : (v : Value) → SnakeKeys (convert_keys_to_snake v)
  convert_value-SnakeKeys (obj fs) = convert_fields-SnakeFields fs end tt
  convert_value-SnakeKeys (arr xs) = convert_items-SnakeItems xs
  convert_value-SnakeKeys null = tt
  convert_value-SnakeKeys (bool b) = tt
  convert_value-SnakeKeys (num f) = tt
  convert_value-SnakeKeys (text s) = tt

  convert_items-SnakeItems : (xs : Items) → SnakeItems (convert_items xs)
  convert_items-SnakeItems nil = tt
  convert_items-SnakeItems (cons v xs) = (convert_value-SnakeKeys v, convert_items-SnakeItems xs)

  convert_fields-SnakeFields :
      (fs made : Fields) → SnakeFields made → SnakeFields (convert_fields fs made)
  convert_fields-SnakeFields end made h = h
  convert_fields-SnakeFields (field k v fs) made h =
      convert_fields-SnakeFields fs (set_field (camel_to_snake k) (convert_keys_to_snake v) made) (
        set_field-SnakeFields (camel_to_snake k) (convert_keys_to_snake v) made
          (camel_to_snake-stable k).0 (convert_value-SnakeKeys v) h)

-- Whatever the value, no key of the converted value has an upper-case letter, at any depth.
pub convert_keys_to_snake-SnakeKeys : (v : Value) → SnakeKeys (convert_keys_to_snake v)
convert_keys_to_snake-SnakeKeys v = convert_value-SnakeKeys v
