-- ===== src/Web/Dashboard/Laws.antt =====
-- What the handlers of the dashboard keep when a request fails.
use llm_stack.Base.{
  ◌≡◌, ◌≢◌, ◌⊎◌, inl, inr, refl, false, [], none, some, Text, codes, get, put, get-put, sym, ap,
  ◌∙◌, eq_of, eq_refl, ◌==◌, text_eq, if◌then◌else◌, if_ind,
}
use llm_stack.Js.{Json, arr, nil}
use llm_stack.Web.Replies.{◌>>=◌, Try, done, failed, Reply, success, error}
use llm_stack.Web.Dashboard.{
  App, load, created, create, show_created, tokens_of, show_tokens, Connections, save, show_reload,
  show_saved, with_saved, reload, explained,
}

load-keeps :
    (type_error : Text) (answer : Try Reply) (s : App)
    → ((load type_error answer s).new_token ≡ s.new_token)
      × ((load type_error answer s).copied ≡ s.copied)
unfolding load
load-keeps type_error answer s = go (tokens_of type_error answer)
  where
    go :
        (r : Try (Json × Json))
        → ((show_tokens r s).new_token ≡ s.new_token) × ((show_tokens r s).copied ≡ s.copied)
    go (done p) = (refl, refl)
    go (failed message) = (refl, refl)

-- What `create` leaves, by what its request gave.
abbrev pub Created : Try Json → App → App → Type 0
Created r s t =
    (t.creating ≡ false)
    × (((message : Text) × (r ≡ failed message)
          × (t ≡ record s { notice = some (error message); creating = false }))
        ⊎ ((token : Json) × (r ≡ done token) × (t.new_token ≡ some token) × (t.copied ≡ false)))

-- Creating a token ends the same way however its requests end: the form is free again. Either the
-- request failed, and then a notice tells its error and the form, the tokens and the secret that is
-- shown are as before; or it gave a token, and then the secret shown is that token, not yet copied.
pub create_lem :
    (type_error : Text) (answer again : Try Reply) (s : App)
    → Created (created type_error answer) s (create type_error answer again s)
unfolding create load show_created
create_lem type_error answer again s = go (created type_error answer)
  where
    go : (r : Try Json) → Created r s (show_created type_error again r (record s { notice = none }))
    go (failed message) = (refl, inl (message, refl, refl))
    go (done token) =
        let kept = load-keeps type_error again (record s {
          new_token = some token;
          copied = false;
          form_name = [];
          form_days = codes "90";
          notice = some (success (codes "Personal access token created."));
        }) in
        (refl, inr (token, refl, kept.0, kept.1))

-- What a save may do to the drafts.
abbrev pub Drafted : Text → Text → Connections → Connections → Type 0
Drafted connector other s t =
    (other ≢ connector → get other t.drafts ≡ get other s.drafts)
    × ((get connector t.drafts ≡ some []) ⊎ (t.drafts ≡ s.drafts))

cleared :
    (connector other : Text) (s t : Connections)
    → t.drafts ≡ put connector [] s.drafts
    → Drafted connector other s t
cleared connector other s t e = (
  (λ ne.
      ap (get other) e
      ∙ (get-put connector other [] s.drafts
          ∙ if_ind (λ o. o ≡ get other s.drafts) (connector == other) (some []) (get other s.drafts)
              (λ same. absurd (ne (sym (eq_of connector other same)))) (λ _. refl))),
  inl (
      ap (get connector) e
      ∙ (get-put connector connector [] s.drafts ∙ rw (eq_refl connector) refl)),
)

reload-drafts :
    (answer : Try Reply) (s : Connections) → (show_reload s (reload answer s)).drafts ≡ s.drafts
reload-drafts (failed message) s = refl
reload-drafts (done r) s = go (if r.is_ok then r.json else done (arr nil))
  where
    go :
        (found : Try Json)
        → (show_reload s (found >>= (λ body. done (record s { connections = body })))).drafts
          ≡ s.drafts
    go (done body) = refl
    go (failed message) = refl

-- Saving a connection, whatever is answered, changes the draft of no other connector, and clears
-- its own draft or leaves all drafts.
pub save_drafts :
    (connector other : Text) (answer again : Try Reply) (s : Connections)
    → Drafted connector other s (save connector answer again s)
unfolding save
save_drafts connector other answer again s =
    go (explained (codes "Could not save connection") answer)
  where
    go :
        (r : Try Reply)
        → Drafted connector other s (show_saved connector again r (record s { told = none }))
    go (failed message) = ((λ _. refl), inr refl)
    go (done r) =
        let t : Connections = with_saved connector (record s { told = none }) in
        cleared connector other s (show_reload t (reload again t)) (reload-drafts again t)
