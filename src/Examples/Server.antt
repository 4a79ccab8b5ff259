-- ===== src/Examples/Server.antt =====
-- agent-adapter/server.mjs on small inputs: two calls of one chat, and a turn that asks for a
-- permission. The hash is the text itself, and so are its bytes.
use mathlib.Core.List.{Sublistᴰ}
use llm_stack.Base.{
  ◌≤◌, ◌≡◌, ◌↔◌, refl, true, [], ◌∷◌, map, none, some, Text, codes, get, put, text_eq, text_beq,
  if◌then◌else◌, length, is_empty,
}
use llm_stack.Js.{Json, bool, num, str, obj, field, end}
use llm_stack.Server.Keys.{Node, prompt_hash}
use llm_stack.Server.History.{continues}
use llm_stack.Server.History.Laws.{continues_iff}
use llm_stack.Server.Queue.{
  Queues, Job, serialize, start, move, job, settled, waiting, running, Reachable, here, next,
  called, started, finish, finishes, finished,
}
use llm_stack.Server.Queue.Chain.{AllRetired}
use llm_stack.Server.Queue.Refine.{LineStep, lines, line, queue_refines}
use llm_stack.Server.Queue.Progress.{Runs, remaining, queue_drains}
use llm_stack.Server.Queue.Laws.{active, behind, one_turn_at_a_time, queues_exact, turns_in_order}

-- What the parser makes of any body.
abbrev pub approval : Json
approval = obj (
    field (codes "turn") (str (codes "t1"))
      (field (codes "request") (num (codes "1")) (field (codes "allow") (bool true) end)))

abbrev pub node : Node
node = record {
  sha256_hex = λ s. s;
  utf8 = λ s. s;
  json_parse = λ bytes. if is_empty bytes then none else some approval;
  url_path = λ u. if text_beq u (codes "//") then none else some u;
}

abbrev pub a : Text
a = codes "a"

abbrev pub b : Text
b = codes "b"

continues_iff_example :
    (continues node (a ∷ []) (a ∷ b ∷ []) ≡ true)
    ↔ Sublistᴰ (a ∷ []) (map (prompt_hash node) (a ∷ b ∷ []))
continues_iff_example = continues_iff node (a ∷ []) (a ∷ b ∷ [])

abbrev pub chat : Text
chat = codes "chat"

-- Two calls of a chat, of which the first runs.
abbrev first_runs : Queues
first_runs = record {
  next = 2;
  queues = (chat, 1) ∷ [];
  jobs =
      record { id = 1; key = chat; prev = some 0; status = waiting }
      ∷ record { id = 0; key = chat; prev = none; status = running }
      ∷ [];
}

first_runs-Reachable : Reachable first_runs
unfolding serialize start move job settled get put text_beq
first_runs-Reachable =
    next (next (next here (called chat refl)) (called chat refl)) (started 0 refl)

one_turn_at_a_time_example : length (active chat first_runs.jobs) ≤ 1
one_turn_at_a_time_example = one_turn_at_a_time first_runs chat first_runs-Reachable

queues_exact_example : (get chat first_runs.queues ≡ none) ↔ AllRetired chat first_runs.jobs
queues_exact_example = queues_exact first_runs chat first_runs-Reachable

abbrev first_job : Job
first_job = record { id = 0; key = chat; prev = none; status = running }

first_job-found : job 0 first_runs.jobs ≡ some first_job
unfolding job
first_job-found = refl

turns_in_order_example : AllRetired chat (behind 0 first_runs.jobs)
turns_in_order_example =
    turns_in_order first_runs 0 first_job first_runs-Reachable first_job-found (λ e. cc)

abbrev first_finished : Queues
first_finished = record first_runs {
  jobs =
      record { id = 1; key = chat; prev = some 0; status = waiting }
      ∷ record { id = 0; key = chat; prev = none; status = finished }
      ∷ [];
}

first_finishes : finish 0 first_runs ≡ some first_finished
unfolding finish move
first_finishes = refl

queue_refines_example : LineStep (lines first_runs) (lines first_finished)
queue_refines_example =
    queue_refines first_runs first_finished first_runs-Reachable (finishes 0 first_finishes)

queue_drains_example :
    (t : Queues) × Runs (remaining (line chat first_runs.jobs)) first_runs t
    × (get chat t.queues ≡ none)
queue_drains_example = queue_drains first_runs chat first_runs-Reachable
