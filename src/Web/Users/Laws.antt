-- ===== src/Web/Users/Laws.antt =====
-- What the list of users shows once no request is in flight.
use llm_stack.Base.{◌≡◌, ◌⊎◌, Bool, true, false, none, ◌∷◌, [], ◌∷◌, some, last}
use llm_stack.Web.Users.{Filter, Reply, answers, fails, Users, Step, replied, mounted}

-- The panel shows the reply: an error is shown in place of a listing.
abbrev pub Shows : Reply → Users → Type 0
Shows (answers l) s = (s.listing ≡ some l) × (s.error ≡ none)
Shows (fails message) s = s.error ≡ some message

abbrev is_answer : Reply → Bool
is_answer (answers _) = true
is_answer (fails _) = false

-- A request fails only while it is the newest: behind an older failure, the error would stay.
abbrev pub IsCalm : {server : Filter → Reply} {s t : Users} → Step server s t → Type 0
IsCalm {server} (replied f rest _ _) = (is_answer (server f) ≡ true) ⊎ (rest ≡ [])
IsCalm _ = Unit

pub data Reachable (server : Filter → Reply) : Users → Type 0 where
  here : Reachable server mounted
  next :
      {s t : Users} → Reachable server s → (st : Step server s t) → IsCalm st → Reachable server t

-- Either the newest request in flight is for the filter, or none is in flight and its reply is shown.
Inv : (Filter → Reply) → Users → Type 0
Inv server s =
    ((last s.requests ≡ some s.filter) × (s.error ≡ none))
    ⊎ ((s.requests ≡ []) × Shows (server s.filter) s)
