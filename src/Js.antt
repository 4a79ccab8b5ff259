-- ===== src/Js.antt =====
-- The values and exceptions of JavaScript that the adapter's code meets: what `JSON.parse`
-- gives, reading a property, truthiness, and the conversion to a string of `${value}`.
-- A number is the text that the language prints for it (which tells all JSON numbers apart but 0
-- and -0, as `===` does).
use llm_stack.Base.{
  ◌≡◌, ◌⊎◌, inl, inr, refl, Bool, true, false, not, List, [], ◌∷◌, Option, none, some, Text, codes,
  is_empty, join, Map, get, has, text_beq, text_eq, if◌then◌else◌,
}

mutual
  pub data Json : Type 0 where
    null : Json
    bool : Bool → Json
    num : Text → Json
    str : Text → Json
    arr : Items → Json
    obj : Fields → Json

  pub data Items : Type 0 where
    nil : Items
    cons : Json → Items → Items

  pub data Fields : Type 0 where
    end : Fields
    field : Text → Json → Fields → Fields

abbrev pub items : Items → List Json
items nil = []
items (cons v vs) = v ∷ items vs

abbrev pub fields : Fields → Map Text Json
fields end = []
fields (field k v fs) = (k, v) ∷ fields fs

-- Code that may throw a TypeError.
pub data Result {ℓ} (A : Type ℓ) : Type ℓ where
  throws : Result A
  ok : A → Result A

infixl 5 ◌>>=◌
abbrev pub ◌>>=◌ {ℓ κ} : {A : Type ℓ} {B : Type κ} → Result A → (A → Result B) → Result B
throws >>= rest = throws
ok a >>= rest = rest a

-- `v.key`, with `none` for undefined. None of the keys that the code reads is a property of the
-- prototypes of strings, numbers, booleans or arrays.
unfoldable pub prop : Text → Json → Result (Option Json)
prop key null = throws
prop key (obj fs) = ok (get key (fields fs))
prop key _ = ok none

-- `v?.key`
abbrev pub prop_within : Text → Option Json → Result (Option Json)
prop_within key none = ok none
prop_within key (some null) = ok none
prop_within key (some v) = prop key v

-- `value === 'literal'`
abbrev pub is_str : Text → Option Json → Bool
is_str t (some (str s)) = text_beq s t
is_str t _ = false

-- `value === true`
abbrev pub is_true : Option Json → Bool
is_true (some (bool true)) = true
is_true _ = false

abbrev pub truthy : Option Json → Bool
truthy none = false
truthy (some null) = false
truthy (some (bool b)) = b
truthy (some (num t)) = not (text_beq t (codes "0"))
truthy (some (str s)) = not (is_empty s)
truthy (some _) = true

abbrev add_text : Result Text → Result (List Text) → Result (List Text)
add_text r rs = do t ← r; ts ← rs; ok (t ∷ ts)

abbrev join_with : Text → Result (List Text) → Result Text
join_with sep r = do ts ← r; ok (join sep ts)

-- `String(value)`: an object whose own `toString` hides the inherited one cannot be converted.
unfoldable mutual
  pub to_text : Json → Result Text
  to_text null = ok (codes "null")
  to_text (bool true) = ok (codes "true")
  to_text (bool false) = ok (codes "false")
  to_text (num t) = ok t
  to_text (str s) = ok s
  to_text (arr xs) = join_with (codes ",") (element_texts xs)
  to_text (obj fs) =
      if has (codes "toString") (fields fs) then throws else ok (codes "[object Object]")

  element_texts : Items → Result (List Text)
  element_texts nil = ok []
  element_texts (cons null vs) = add_text (ok []) (element_texts vs)
  element_texts (cons v vs) = add_text (to_text v) (element_texts vs)

abbrev pub template : Option Json → Result Text
template none = ok (codes "undefined")
template (some v) = to_text v

-- What a bind that does not throw has gone through.
pub bind-eq-ok {ℓ κ} :
    {A : Type ℓ} {B : Type κ} (first : Result A) (rest : A → Result B) {b : B}
    → (first >>= rest) ≡ ok b
    → (a : A) × (first ≡ ok a) × (rest a ≡ ok b)
bind-eq-ok throws rest e = cc
bind-eq-ok (ok a) rest e = (a, refl, e)

pub Result-cases {ℓ} : {A : Type ℓ} (m : Result A) → (m ≡ throws) ⊎ ((a : A) × (m ≡ ok a))
Result-cases (ok a) = inr (a, refl)
Result-cases throws = inl refl

pub ok-injective {ℓ} : {A : Type ℓ} (a b : A) → ok a ≡ ok b → a ≡ b
ok-injective a b e = cc
