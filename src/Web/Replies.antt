-- ===== src/Web/Replies.antt =====
-- pat-service/web/src: what the handlers of the dashboard meet, a response or an error with its
-- message.
use llm_stack.Base.{Bool, Option, none, some, Text}
use llm_stack.Js.{Json, Result, ok, throws, truthy}

pub data Try {ℓ} (A : Type ℓ) : Type ℓ where
  failed : Text → Try A
  done : A → Try A

infixl 5 ◌>>=◌
abbrev pub ◌>>=◌ {ℓ κ} : {A : Type ℓ} {B : Type κ} → Try A → (A → Try B) → Try B
failed message >>= rest = failed message
done a >>= rest = rest a

-- A response: `r.ok`, and what reading its body as text or as JSON gives.
pub record Reply : Type 0 where
  pub is_ok : Bool
  pub text : Try Text
  pub json : Try Json

-- The TypeError of reading a property of null, with its message.
abbrev pub attempt {ℓ} : {A : Type ℓ} → Text → Result A → Try A
attempt message (ok a) = done a
attempt message throws = failed message

-- a || b
abbrev pub or_else : Option Json → Json → Json
or_else none b = b
or_else (some a) b = if_truthy (truthy (some a)) a b
  where
    if_truthy : Bool → Json → Json → Json
    if_truthy Bool.true a b = a
    if_truthy Bool.false a b = b

pub data Notice : Type 0 where
  success error : Text → Notice
