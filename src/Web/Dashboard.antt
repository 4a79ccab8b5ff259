-- ===== src/Web/Dashboard.antt =====
-- pat-service/web/src/main.jsx: the handlers of `App`, `AgentKeyPanel` and `ConnectionsPanel`. Each
-- function runs a handler to its end on the answers that its requests get; the state that React
-- would show between two awaits is left out. `type_error` is the message of a TypeError.
pub mod Laws
use llm_stack.Base.{
  Bool, true, false, not, ◌&&◌, List, [], ◌∷◌, ◌++◌, Option, none, some, Text, codes, Map, get, put,
  ◌==◌, text_eq, is_empty, trim, get_or, if◌then◌else◌,
}
use llm_stack.Js.{
  Json, null, str, num, arr, nil, Result, ok, throws, prop, prop_within, truthy, template,
}
use llm_stack.Web.Replies.{
  Try, done, failed, ◌>>=◌, Reply, attempt, or_else, Notice, success, error,
}

pub record App : Type 0 where
  pub tokens : Json
  pub tokens_currency : Json
  pub loading : Bool
  pub creating : Bool
  pub notice : Option Notice
  pub new_token : Option Json
  pub copied : Bool
  pub form_name : Text
  pub form_days : Text
  pub daily : Json
  pub limit : Option Json
  pub usage_loading : Bool

abbrev pub initial : App
initial = record {
  tokens = arr nil;
  tokens_currency = str [];
  loading = true;
  creating = false;
  notice = none;
  new_token = none;
  copied = false;
  form_name = [];
  form_days = codes "90";
  daily = arr nil;
  limit = none;
  usage_loading = true;
}

-- load()
abbrev pub tokens_of : Text → Try Reply → Try (Json × Json)
tokens_of type_error answer = do
  response ← answer
  body ← if response.is_ok then response.json else failed (codes "Could not load tokens")
  tokens ← attempt type_error (prop (codes "tokens") body)
  currency ← attempt type_error (prop (codes "currency") body)
  done (or_else tokens (arr nil), or_else currency (str []))

abbrev pub show_tokens : Try (Json × Json) → App → App
show_tokens (done (found, currency)) s = record s {
  tokens = found;
  tokens_currency = currency;
  loading = false;
}
show_tokens (failed message) s = record s { notice = some (error message); loading = false }

pub load : Text → Try Reply → App → App
load type_error answer s = show_tokens (tokens_of type_error answer) s

-- loadUsage(): a failed answer leaves its panel as it was.
abbrev read_daily : Text → Reply → App → Try App
read_daily type_error r s = if not r.is_ok then done s else (do
  body ← r.json
  days ← attempt type_error (prop (codes "days") body)
  done (record s { daily = or_else days (arr nil) }))

abbrev read_limit : Reply → App → Try App
read_limit r s =
    if not r.is_ok then done s else (do body ← r.json; done (record s { limit = some body }))

abbrev after_daily : Text → Reply → App → Try App → App
after_daily type_error r s (failed message) = s
after_daily type_error r s (done t) = elim (read_limit r t) [ failed message ↦ t | done u ↦ u ]

abbrev usage_answers : Text → Try Reply → Try Reply → App → App
usage_answers type_error (done a) (done b) s =
    after_daily type_error b s (read_daily type_error a s)
usage_answers type_error _ _ s = s

pub load_usage : Text → Try Reply → Try Reply → App → App
load_usage type_error daily_answer limit_answer s =
    record (usage_answers type_error daily_answer limit_answer s) { usage_loading = false }

-- create(event)
abbrev refusal : Text → Json → Try Text
refusal type_error body = do
  found ← attempt type_error (prop (codes "error") body)
  message ← attempt type_error (prop_within (codes "message") found)
  if truthy message
      then attempt type_error (template message)
      else done (codes "Could not create token")

pub created : Text → Try Reply → Try Json
created type_error answer = do
  response ← answer
  body ← response.json
  if response.is_ok then done body else (do message ← refusal type_error body; failed message)

abbrev pub show_created : Text → Try Reply → Try Json → App → App
unfolding load
show_created type_error again (failed message) s = record s {
  notice = some (error message);
  creating = false;
}
show_created type_error again (done body) s =
    record (load type_error again (record s {
      new_token = some body;
      copied = false;
      form_name = [];
      form_days = codes "90";
      notice = some (success (codes "Personal access token created."));
    })) { creating = false }

-- `again` answers the `load` at the end.
pub create : Text → Try Reply → Try Reply → App → App
unfolding created
create type_error answer again s =
    show_created type_error again (created type_error answer) (record s { notice = none })

pub copy_token : Bool → App → App
copy_token allowed s = if allowed then record s { copied = true } else record s {
  notice = some (error (codes "Clipboard access was blocked. Copy the token manually."));
}

-- revoke(token): `confirmed` is what the dialog answers.
abbrev accepted : Text → Try Reply → Try Reply
accepted message answer = do
  response ← answer
  if response.is_ok then done response else failed message

abbrev pub revoked_text : Text → Text
revoked_text name = codes "“" ++ (name ++ codes "” was revoked. It can no longer access inference.")

abbrev show_revoked : Text → Text → Try Reply → Try Reply → App → App
unfolding load
show_revoked type_error name again (failed message) s = record s { notice = some (error message) }
show_revoked type_error name again (done r) s =
    load type_error again (record s { notice = some (success (revoked_text name)) })

pub revoke : Text → Bool → Text → Try Reply → Try Reply → App → App
unfolding load
revoke type_error confirmed name answer again s =
    if not confirmed
    then s
    else show_revoked type_error name again (accepted (codes "Could not revoke token") answer)
        (record s { notice = none })

-- ConnectionsPanel. A draft that was never typed is missing from `drafts`.
pub record Connections : Type 0 where
  pub connections : Json
  pub drafts : Map Text Text
  pub busy : Text
  pub told : Option Notice

-- The `load` of the panel; an error of the request is its caller's.
abbrev pub reload : Try Reply → Connections → Try Connections
reload answer s = do
  response ← answer
  found ← if response.is_ok then response.json else done (arr nil)
  done (record s { connections = found })

abbrev pub or_default : Text → Text → Text
or_default t d = if is_empty t then d else t

-- What an answer that is not ok tells: its text, or a default.
abbrev pub explained : Text → Try Reply → Try Reply
explained message answer = do
  response ← answer
  if response.is_ok
      then done response
      else (do t ← response.text; failed (or_default (trim t) message))

abbrev pub show_reload : Connections → Try Connections → Connections
show_reload s (done t) = record t { busy = [] }
show_reload s (failed message) = record s { told = some (error message); busy = [] }

abbrev pub with_saved : Text → Connections → Connections
with_saved connector s = record s {
  drafts = put connector [] s.drafts;
  told = some (success (codes "Connection saved. Your agents can use it right away."));
}

abbrev pub show_saved : Text → Try Reply → Try Reply → Connections → Connections
show_saved connector again (failed message) s = record s { told = some (error message); busy = [] }
show_saved connector again (done r) s =
    show_reload (with_saved connector s) (reload again (with_saved connector s))

-- save(event, connector): the token that is sent, and the state at the end.
abbrev pub sent_token : Text → Connections → Text
sent_token connector s = get_or (get connector s.drafts) []

pub save : Text → Try Reply → Try Reply → Connections → Connections
save connector answer again s =
    show_saved connector again (explained (codes "Could not save connection") answer)
      (record s { told = none })

abbrev show_disconnected : Try Reply → Try Reply → Connections → Connections
show_disconnected again (failed message) s = record s { told = some (error message); busy = [] }
show_disconnected again (done r) s = show_reload s (reload again s)

pub disconnect : Bool → Try Reply → Try Reply → Connections → Connections
disconnect confirmed answer again s =
    if not confirmed
    then s
    else show_disconnected again (accepted (codes "Could not disconnect") answer) s

-- AgentKeyPanel, `issue`: what it tells, whether it asked for a key, and whether the tokens are
-- loaded again.
pub record Issued : Type 0 where
  pub asked : Bool
  pub issue_notice : Option Notice
  pub reloads : Bool

abbrev issued_text : (Option Json → Text) → Text → Json → Try Text
issued_text date type_error body = do
  expires ← attempt type_error (prop (codes "expires_at") body)
  restarted ← attempt type_error (prop (codes "agent_restarted") body)
  done (
      codes "Agent key issued, valid until "
      ++ (date expires
          ++ (codes "."
              ++ (if truthy restarted then codes " Your running agents were restarted." else []))))

-- `date` prints an instant.
pub issue : (Option Json → Text) → Text → Bool → Bool → Try Reply → Option Notice → Issued
issue date type_error current confirmed answer told =
    if current && not confirmed
    then record { asked = false; issue_notice = told; reloads = false }
    else elim (explained (codes "Could not issue agent key") answer
        >>= (λ r. r.json)
        >>= issued_text date type_error) [
          | failed message ↦ record {
            asked = true;
            issue_notice = some (error message);
            reloads = false;
          }
          | done t ↦ record { asked = true; issue_notice = some (success t); reloads = true }
        ]
