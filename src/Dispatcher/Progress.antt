-- ===== src/Dispatcher/Progress.antt =====
-- What a configuration's state row says, without its key: the streak and whether an alert was sent.
-- `handle_rows` moves it by `advance` for the rows it is given, and leaves all others alone.
use mathlib.Core.List.{append-nil}
use monitoring_service.Prelude.{
  ℕ, ◌+◌, ◌≡◌, ◌≢◌, refl, Bool, true, false, not, ◌&&◌, Option, none, some, List, [], ◌∷◌, ◌++◌,
  arith, ◌==◌, Option-cases, if◌then◌else◌, inl, inr, ap, ◌∙◌,
}
use monitoring_service.Prelude.Tables.{select, update_where, select-append}
use monitoring_service.Model.{AlertConfig, AlertState, Database, state_of_config}
use monitoring_service.Model.Int.{ℤ, leb_ℤ}
use monitoring_service.Dispatcher.{World, CheckRun, handle_row, notify, queue_alert}
use monitoring_service.Dispatcher.Alerting.{AlertTask, next_state, state_row, save_state}

abbrev pub progress : ℕ → Database → ℕ × Bool
progress c db = elim (state_of_config c db.states) [
  | none ↦ (0, false)
  | some s ↦ (s.current_streak, s.alert_sent)
]

-- `next_state` on that view.
unfoldable pub advance : Bool → ℤ → ℕ × Bool → (ℕ × Bool) × Option Bool
advance true threshold (streak, sent) = ((0, false), if sent then some true else none)
advance false threshold (streak, sent) =
    if leb_ℤ threshold (streak + 1) && not sent
    then ((streak + 1, true), some false)
    else ((streak + 1, sent), none)

first_where-append_none :
    (c : ℕ) (xs : List AlertState) (s : AlertState)
    → state_of_config c xs ≡ none
    → state_of_config c (xs ++ s ∷ []) ≡ (if s.config_id == c then some s else none)
first_where-append_none c [] s h = refl
first_where-append_none c (x ∷ xs) s h = ground (arith, first_where-append_none c xs s)

first_where-append_some :
    (c : ℕ) (xs : List AlertState) (s t : AlertState)
    → state_of_config c xs ≡ some t
    → state_of_config c (xs ++ s ∷ []) ≡ some t
first_where-append_some c [] s t h = cc
first_where-append_some c (x ∷ xs) s t h = ground (arith, first_where-append_some c xs s t)

state_of_config-update_self :
    (c : ℕ) (xs : List AlertState) (s t : AlertState)
    → s.config_id ≡ c
    → state_of_config c xs ≡ some t
    → state_of_config c (update_where (λ x. x.config_id == c) (λ _. s) xs) ≡ some s
state_of_config-update_self c [] s t e h = cc
state_of_config-update_self c (x ∷ xs) s t e h =
    ground (arith, state_of_config-update_self c xs s t)

state_of_config-update_ne :
    (c d : ℕ) (xs : List AlertState) (s : AlertState)
    → s.config_id ≡ c
    → c ≢ d
    → state_of_config d (update_where (λ x. x.config_id == c) (λ _. s) xs) ≡ state_of_config d xs
state_of_config-update_ne c d [] s e n = refl
state_of_config-update_ne c d (x ∷ xs) s e n = ground (arith, state_of_config-update_ne c d xs s)

config_id-found :
    (c : ℕ) (xs : List AlertState) (t : AlertState)
    → state_of_config c xs ≡ some t
    → t.config_id ≡ c
config_id-found c [] t h = cc
config_id-found c (x ∷ xs) t h = ground (arith, config_id-found c xs t)

pub config_id-next_state :
    (up : Bool) (now : ℕ) (row : AlertConfig) (s : AlertState)
    → (next_state up now row s).0.config_id ≡ s.config_id
unfolding next_state
config_id-next_state up now row s = ground arith

-- What is saved is what is read next, and no other configuration's row changes.
module _ (row : AlertConfig) (s : AlertState) (db : Database) (own : s.config_id ≡ row.id) where
  progress-save_state_self :
      progress row.id (save_state row s db) ≡ (s.current_streak, s.alert_sent)
  unfolding save_state
  progress-save_state_self = elim (Option-cases (state_of_config row.id db.states)) [
    | inl fresh ↦ ground (arith, first_where-append_none row.id db.states s fresh)
    | inr (t, e) ↦ ground (arith, state_of_config-update_self row.id db.states s t own e)
  ]

  progress-save_state_ne : (d : ℕ) → row.id ≢ d → progress d (save_state row s db) ≡ progress d db
  unfolding save_state
  progress-save_state_ne d n = elim (Option-cases (state_of_config row.id db.states)) [
    | inl fresh ↦ elim (Option-cases (state_of_config d db.states)) [
      | inl none_d ↦ ground (arith, first_where-append_none d db.states s none_d)
      | inr (t, e) ↦ ground (arith, first_where-append_some d db.states s t e)
    ]
    | inr (t, e) ↦ ground (arith, state_of_config-update_ne row.id d db.states s own n)
  ]

pub config_id-state_row :
    (row : AlertConfig) (db : Database) → (state_row row db).config_id ≡ row.id
unfolding state_row
config_id-state_row row db = elim (Option-cases (state_of_config row.id db.states)) [
  | inl fresh ↦ rw (fresh, state_row)
  | inr (t, e) ↦ rw (e, state_row) (config_id-found row.id db.states t e)
]

state_row-progress :
    (row : AlertConfig) (db : Database)
    → ((state_row row db).current_streak, (state_row row db).alert_sent) ≡ progress row.id db
unfolding state_row
state_row-progress row db = ground arith

next_state-advance :
    (up : Bool) (now : ℕ) (row : AlertConfig) (s : AlertState)
    → (((next_state up now row s).0.current_streak, (next_state up now row s).0.alert_sent)
        ≡ (advance up row.threshold (s.current_streak, s.alert_sent)).0)
      × ((next_state up now row s).1
          ≡ (advance up row.threshold (s.current_streak, s.alert_sent)).1)
unfolding next_state advance
next_state-advance up now row s = ground arith

pub db-notify :
    (alert : Option Bool) (run : CheckRun) (row : AlertConfig) (w : World)
    → (notify alert run row w).db ≡ w.db
unfolding notify queue_alert
db-notify none run row w = refl
db-notify (some r) run row w = refl

-- The tasks queued for one configuration, in order.
abbrev pub queued_for : ℕ → World → List AlertTask
queued_for c w = select (λ (t : AlertTask). t.config_id == c) w.queued

-- The task that `queue_alert` sends for `row`, if any.
abbrev pub tasks_of : Option Bool → CheckRun → AlertConfig → List AlertTask
tasks_of none run row = []
tasks_of (some is_recovery) run row =
    record {
      channel = row.channel;
      config_id = row.id;
      target = row.target;
      endpoint_id = run.endpoint_id;
      url = run.url;
      timestamp = run.checked_at;
      is_recovery = is_recovery;
    }
    ∷ []

queued_for-notify :
    (c : ℕ) (alert : Option Bool) (run : CheckRun) (row : AlertConfig) (w : World)
    → queued_for c (notify alert run row w)
      ≡ queued_for c w ++ (if row.id == c then tasks_of alert run row else [])
unfolding notify queue_alert
queued_for-notify c none run row w = ground (arith, append-nil (queued_for c w))
queued_for-notify c (some r) run row w =
    select-append (λ (t : AlertTask). t.config_id == c) w.queued (tasks_of (some r) run row)

module _ (up : Bool) (run : CheckRun) (row : AlertConfig) (w : World) where
  abbrev pub reaction : (ℕ × Bool) × Option Bool
  reaction = advance up row.threshold (progress row.id w.db)

  -- the state row that the loop body saves, and its `queue_alert` call
  abbrev body : AlertState × Option Bool
  body = next_state up (run.now row.id) row (state_row row w.db)

  body-config_id : body.0.config_id ≡ row.id
  body-config_id =
      config_id-next_state up (run.now row.id) row (state_row row w.db)
      ∙ config_id-state_row row w.db

  body-reaction : ((body.0.current_streak, body.0.alert_sent) ≡ reaction.0) × (body.1 ≡ reaction.1)
  body-reaction =
      rw (← state_row-progress row w.db)
        (next_state-advance up (run.now row.id) row (state_row row w.db))

  pub progress-handle_row_self : progress row.id (handle_row up run row w).db ≡ reaction.0
  unfolding handle_row
  progress-handle_row_self =
      progress-save_state_self row body.0 (notify body.1 run row w).db body-config_id
      ∙ body-reaction.0

  pub progress-handle_row_ne :
      (d : ℕ) → row.id ≢ d → progress d (handle_row up run row w).db ≡ progress d w.db
  unfolding handle_row
  progress-handle_row_ne d n =
      progress-save_state_ne row body.0 (notify body.1 run row w).db body-config_id d n
      ∙ ap (progress d) (db-notify body.1 run row w)

  pub queued_for-handle_row :
      (d : ℕ)
      → queued_for d (handle_row up run row w)
        ≡ queued_for d w ++ (if row.id == d then tasks_of reaction.1 run row else [])
  unfolding handle_row
  queued_for-handle_row d = rw (← body-reaction.1) (queued_for-notify d body.1 run row w)
