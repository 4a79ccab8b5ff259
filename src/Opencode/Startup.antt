-- ===== src/Opencode/Startup.antt =====
-- agent-adapter/opencode.mjs: `call`, and the loop that waits until the server answers.
use llm_stack.Base.{
  ℕ, zero, suc, ◌+◌, ◌≤◌, ◌<◌, ◌≡◌, ◌⊎◌, refl, ap, subst, Bool, true, false, not, ◌++◌, Option,
  none, some, Text, codes, decimal, is_empty, take, ltb, if◌then◌else◌, arith, Bool-cases, inl, inr,
}
use llm_stack.Js.{Json, null}

-- A response: `r.ok`, its status and its text.
pub record Reply : Type 0 where
  pub is_ok : Bool
  pub status : ℕ
  pub text : Text

pub data Called : Type 0 where
  gives : Json → Called
  fails : Text → Called

abbrev parsed : Option Json → Called
parsed none = fails (codes "SyntaxError")
parsed (some v) = gives v

-- `call(method, path, …)`, by the response to its request.
pub call : (Text → Option Json) → Text → Text → Reply → Called
call parse method path r =
    if not r.is_ok
    then fails (
        codes "opencode "
        ++ (method
            ++ (codes " "
                ++ (path ++ (codes ": " ++ (decimal r.status ++ (codes " " ++ take 300 r.text)))))))
    else if is_empty r.text
    then gives null
    else parsed (parse r.text)

-- How the loop ends: at which attempt.
pub data Waited : Type 0 where
  answers gives_up : ℕ → Waited
  no_fuel : Waited

abbrev pub last_attempt : ℕ
last_attempt = 601

-- The loop from attempt `i` on; `up i` says whether attempt `i` is answered.
pub wait : ℕ → (ℕ → Bool) → ℕ → Waited
wait zero up i = no_fuel
wait (suc fuel) up i =
    let rest = wait fuel up (suc i) in
    if up i then answers i else if ltb 600 i then gives_up i else rest

-- From attempt `i` on: the first that is answered ends the loop, or the last one does.
abbrev pub Ends : (ℕ → Bool) → ℕ → Waited → Type 0
Ends up i w =
    ((n : ℕ) × (w ≡ answers n)
      × (up n ≡ true)
      × (n ≤ last_attempt)
      × ((m : ℕ) → i ≤ m → m < n → up m ≡ false))
    ⊎ ((w ≡ gives_up last_attempt) × ((m : ℕ) → i ≤ m → m ≤ last_attempt → up m ≡ false))

answered_at : (up : ℕ → Bool) (i : ℕ) → i ≤ last_attempt → up i ≡ true → Ends up i (answers i)
answered_at up i le is = inl (i, refl, is, le, (λ m a b. absurd (omega (arith, a, b))))

gave_up_at : (up : ℕ → Bool) (i : ℕ) → i ≡ last_attempt → up i ≡ false → Ends up i (gives_up i)
gave_up_at up i e down =
    inr (ap gives_up e, (λ m a b. subst (λ x. up x ≡ false) (omega (arith, e, a, b)) down))

fails_from :
    (up : ℕ → Bool) (i m : ℕ) → up i ≡ false → i ≤ m → (suc i ≤ m → up m ≡ false) → up m ≡ false
fails_from up i m down a later = elim (Bool-cases (ltb i m)) [
  | inl lt ↦ later (ground (arith, lt))
  | inr ge ↦ subst (λ x. up x ≡ false) (ground (arith, a, ge)) down
]

Ends-suc : (up : ℕ → Bool) (i : ℕ) (w : Waited) → up i ≡ false → Ends up (suc i) w → Ends up i w
Ends-suc up i w down (inl (n, e, is, le, before)) =
    inl (n, e, is, le, (λ m a b. fails_from up i m down a (λ c. before m c b)))
Ends-suc up i w down (inr (e, all)) = inr (e, (λ m a b. fails_from up i m down a (λ c. all m c b)))

past : (i : ℕ) → i ≡ last_attempt → ltb 600 i ≡ true
past i e = ground (arith, e)

early : (i n : ℕ) → suc n + i ≡ last_attempt → ltb 600 i ≡ false
early i n e = ground (arith, e)

wait-Ends :
    (fuel : ℕ) (up : ℕ → Bool) (i : ℕ) → fuel + i ≡ last_attempt → Ends up i (wait (suc fuel) up i)
unfolding wait
wait-Ends zero up i e = elim (Bool-cases (up i)) [
  | inl is ↦ rw is (answered_at up i (omega (arith, e)) is)
  | inr down ↦ rw (down, past i (omega (arith, e))) (gave_up_at up i (omega (arith, e)) down)
]
wait-Ends (suc fuel) up i e =
    let more = wait-Ends fuel up (suc i) (omega (arith, e)) in
    elim (Bool-cases (up i)) [
      | inl is ↦ rw is (answered_at up i (omega (arith, e)) is)
      | inr down ↦ rw (down, early i fuel e) (Ends-suc up i (wait (suc fuel) up (suc i)) down more)
    ]

-- With the fuel of 602 attempts the loop always ends. Either it ends at the first attempt that is
-- answered, which is the 602nd at the latest, or it gives up at the 602nd when none of the 602 is.
pub wait_terminates : (up : ℕ → Bool) → Ends up 0 (wait 602 up 0)
wait_terminates up = wait-Ends 601 up 0 refl
