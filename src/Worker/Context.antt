-- ===== src/Worker/Context.antt =====
-- app/celery_app.py with app/dispatcher.py and app/alerts.py: what structlog adds to the lines that a
-- task logs.
use monitoring_service.Prelude.{
  ℕ, ◌≡◌, refl, ◌∙◌, ap, Bool, Option, none, some, List, [], ◌∷◌, arith, if◌then◌else◌,
}
use monitoring_service.Prelude.Text.{Text, text, text_eq}
use monitoring_service.Dispatcher.Alerting.{kind}

-- A value that is bound to a name.
pub data Value : Type 0 where
  number : ℕ → Value
  word : Text → Value

-- structlog.contextvars: the variables that are bound, `clear_contextvars`, `bind_contextvars` with
-- one name, and what `merge_contextvars` adds to a line under a name.
pub record ContextVars : Type 1 where
  pub Context : Type 0
  pub clear : Context → Context
  pub bind : Text → Value → Context → Context
  pub merged : Text → Context → Option Value

pub record IsContextVars (vars : ContextVars) : Type 0 where
  pub merged-clear : (k : Text) (c : vars.Context) → vars.merged k (vars.clear c) ≡ none
  pub merged-bind :
      (k j : Text) (v : Value) (c : vars.Context)
      → vars.merged k (vars.bind j v c) ≡ (if text_eq j k then some v else vars.merged k c)

-- The tasks, with the arguments that they bind.
pub data Job : Type 0 where
  perform_check : ℕ → Job
  send_email_alert send_webhook_alert : ℕ → Bool → Job
  dispatch_due_checks purge_old_results : Job

unfoldable pub job_name : Job → Text
job_name (perform_check endpoint_id) = text "app.dispatcher.perform_check"
job_name (send_email_alert endpoint_id is_recovery) = text "app.alerts.send_email_alert"
job_name (send_webhook_alert endpoint_id is_recovery) = text "app.alerts.send_webhook_alert"
job_name dispatch_due_checks = text "app.dispatcher.dispatch_due_checks"
job_name purge_old_results = text "app.dispatcher.purge_old_results"

pub record TaskRun : Type 0 where
  pub task_id : Text
  pub job : Job

-- What a line carries under a name while the task runs, once it has bound its arguments.
unfoldable pub own_value : Job → Text → Option Value
own_value (perform_check endpoint_id) k =
    if text_eq (text "endpoint_id") k then some (number endpoint_id) else none
own_value (send_email_alert endpoint_id is_recovery) k =
    if text_eq (text "kind") k
    then some (word (kind is_recovery))
    else if text_eq (text "endpoint_id") k
    then some (number endpoint_id)
    else none
own_value (send_webhook_alert endpoint_id is_recovery) k =
    if text_eq (text "kind") k
    then some (word (kind is_recovery))
    else if text_eq (text "endpoint_id") k
    then some (number endpoint_id)
    else none
own_value dispatch_due_checks k = none
own_value purge_old_results k = none

abbrev pub or_else : Option Value → Option Value → Option Value
or_else none other = other
or_else (some v) other = some v

unfoldable pub carried : TaskRun → Text → Option Value
carried run k = or_else (own_value run.job k) (
    if text_eq (text "task_name") k
    then some (word (job_name run.job))
    else if text_eq (text "task_id") k
    then some (word run.task_id)
    else none)

module _ (vars : ContextVars) where
  open vars use {Context, clear, bind, merged}

  unfoldable pub bind_task_context : TaskRun → Context → Context
  bind_task_context run c =
      bind (text "task_name") (word (job_name run.job))
        (bind (text "task_id") (word run.task_id) (clear c))

  unfoldable pub clear_task_context : Context → Context
  clear_task_context c = clear c

  -- `bind_contextvars` at the start of a task's body.
  unfoldable pub bind_arguments : Job → Context → Context
  bind_arguments (perform_check endpoint_id) c = bind (text "endpoint_id") (number endpoint_id) c
  bind_arguments (send_email_alert endpoint_id is_recovery) c =
      bind (text "kind") (word (kind is_recovery))
        (bind (text "endpoint_id") (number endpoint_id) c)
  bind_arguments (send_webhook_alert endpoint_id is_recovery) c =
      bind (text "kind") (word (kind is_recovery))
        (bind (text "endpoint_id") (number endpoint_id) c)
  bind_arguments dispatch_due_checks c = c
  bind_arguments purge_old_results c = c

  -- The context of the lines that each task's body logs, and the context that is left.
  unfoldable pub run_tasks : List TaskRun → Context → List Context × Context
  run_tasks [] c = ([], c)
  run_tasks (run ∷ runs) c =
      let lines = bind_arguments run.job (bind_task_context run c) in
      let (rest, left) = run_tasks runs (clear_task_context lines) in (lines ∷ rest, left)

  -- Each task's lines carry its values and no others.
  abbrev pub Carry : List TaskRun → List Context → Type 0
  Carry [] [] = Unit
  Carry (run ∷ runs) (lines ∷ rest) =
      ((k : Text) → merged k lines ≡ carried run k) × Carry runs rest
  Carry _ _ = ⊥

  merged-bind_task_context :
      IsContextVars vars
      → (run : TaskRun) (c : Context) (k : Text)
      → merged k (bind_task_context run c) ≡ (
          if text_eq (text "task_name") k
          then some (word (job_name run.job))
          else if text_eq (text "task_id") k
          then some (word run.task_id)
          else none)
  unfolding bind_task_context
  merged-bind_task_context laws run c k =
      rw (laws.merged-bind, laws.merged-bind, laws.merged-clear) refl

  merged-bind_arguments :
      IsContextVars vars
      → (job : Job) (c : Context) (k : Text)
      → merged k (bind_arguments job c) ≡ or_else (own_value job k) (merged k c)
  unfolding bind_arguments own_value
  merged-bind_arguments laws (perform_check i) c k = rw laws.merged-bind (ground arith)
  merged-bind_arguments laws (send_email_alert i r) c k =
      rw (laws.merged-bind, laws.merged-bind) (ground arith)
  merged-bind_arguments laws (send_webhook_alert i r) c k =
      rw (laws.merged-bind, laws.merged-bind) (ground arith)
  merged-bind_arguments laws dispatch_due_checks c k = refl
  merged-bind_arguments laws purge_old_results c k = refl

  merged-task_lines :
      IsContextVars vars
      → (run : TaskRun) (c : Context) (k : Text)
      → merged k (bind_arguments run.job (bind_task_context run c)) ≡ carried run k
  unfolding carried
  merged-task_lines laws run c k =
      merged-bind_arguments laws run.job (bind_task_context run c) k
      ∙ ap (or_else (own_value run.job k)) (merged-bind_task_context laws run c k)

  -- Whatever was bound when a worker took up its first task, and whatever tasks it runs: the lines of
  -- each task carry the id and the name of that task and the arguments that it binds, and nothing
  -- of a task before it; after the last one nothing stays bound.
  pub run_tasks-Carry :
      IsContextVars vars
      → (run : TaskRun) (runs : List TaskRun) (c : Context)
      → Carry (run ∷ runs) (run_tasks (run ∷ runs) c).0
        × ((k : Text) → merged k (run_tasks (run ∷ runs) c).1 ≡ none)
  unfolding run_tasks clear_task_context
  run_tasks-Carry laws run [] c = ((merged-task_lines laws run c, tt), λ k. laws.merged-clear k _)
  run_tasks-Carry laws run (next ∷ runs) c =
      let after_run = clear_task_context (bind_arguments run.job (bind_task_context run c)) in
      let later = run_tasks-Carry laws next runs after_run in
      ((merged-task_lines laws run c, later.0), later.1)
