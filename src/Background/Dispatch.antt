-- ===== src/Background/Dispatch.antt =====
-- `handleMessage` of extension/src/background/index.ts, its alarms, the events of the stream, and
-- the work that its handlers start.
use vaultmarks.Shared.{
  ℕ, String, Bool, true, false, not, Option, none, some, List, [], ◌∷◌, ◌||◌, if◌then◌else◌, ltb,
}
use vaultmarks.Sync.Requests.{api_put_server_snapshot}
use vaultmarks.Sync.Action.{done, pure, gets, modify, when, catching, ◌>>=◌, ◌>>◌}
use vaultmarks.Auth.Session.{
  set_session_timeout, is_logged_in, is_locked, get_email, get_active_profile, get_profiles,
  get_session_timeout,
}
use vaultmarks.Background.World.{Env, World, Job, Task, Stream}
use vaultmarks.Background.Messages.{
  Message, login, unlock, change_password, resolve_locked_changes, resolve_import, lock, logout,
  get_status, switch_profile, create_profile, delete_profile, rename_profile,
  set_session_timeout as ask_timeout, sync, recompute_import_diff, export_profile, delete_account,
  Response, status, set_session_timeout_success,
}
use vaultmarks.Background.Steps.{
  remotely, jwt, active_profile_id, start_task, last_seq_id, is_established,
}
use vaultmarks.Background.Syncing.{
  is_expired, sync_from, connect_event_stream, push_pending, refresh_server_snapshot,
}
use vaultmarks.Background.SignOut.{log_out}
use vaultmarks.Background.Handlers.Session.{
  handle_login, handle_unlock, handle_resolve_locked_changes, handle_lock,
}
use vaultmarks.Background.Handlers.Profiles.{
  handle_switch_profile, handle_create_profile, handle_rename_profile, handle_delete_profile,
  handle_export_profile, Command, on_command,
}
use vaultmarks.Background.Handlers.Account.{
  handle_logout, handle_change_password, handle_delete_account, handle_sync, catch_local_changes,
}
use vaultmarks.Background.Handlers.ImportConflict.{
  handle_resolve_import, handle_recompute_import_diff,
}

pub data Alarm : Type 0 where
  sync_poll ws_reconnect : Alarm

-- What the connection of the event stream calls.
pub data StreamEvent : Type 0 where
  new_seq : ℕ → StreamEvent
  dropped : StreamEvent
  reconnect_needed : StreamEvent
  auth_expired : StreamEvent

abbrev pub is_open : Option Stream → Bool
is_open none = false
is_open (some s) = not s.closed

module _ {E : Env} where
  abbrev pub get_status_of : World E → Response
  get_status_of w = status (record {
    is_logged_in = is_logged_in w.auth;
    is_locked = is_locked w.auth;
    email = get_email w.auth;
    profile = get_active_profile w.auth;
    profiles = get_profiles w.auth;
    last_synced = w.last_synced;
    pending_changes = w.pending_changes;
    pending_import = elim w.pending_import [ none ↦ none | some p ↦ some p.diff ];
    session_timeout = get_session_timeout w.auth;
  })

  -- `asked` is what is asked for while a switch is running.
  unfoldable pub handle_message : List (List String) → Message → Job E Response
  handle_message asked (login email auth_key bytes) = handle_login email auth_key bytes
  handle_message asked (unlock bytes) = handle_unlock bytes
  handle_message asked (change_password old new psk) = handle_change_password old new psk
  handle_message asked (resolve_locked_changes apply) = handle_resolve_locked_changes apply
  handle_message asked (resolve_import c o) = handle_resolve_import c o
  handle_message asked lock = handle_lock
  handle_message asked (logout clear) = handle_logout clear
  handle_message asked get_status = gets get_status_of
  handle_message asked (switch_profile p) = handle_switch_profile asked p
  handle_message asked (create_profile name) = handle_create_profile name
  handle_message asked (delete_profile p) = handle_delete_profile p
  handle_message asked (rename_profile p name) = handle_rename_profile p name
  handle_message asked (ask_timeout t) =
      modify (λ w. record w { auth = set_session_timeout t w.auth })
      >> pure set_session_timeout_success
  handle_message asked sync = handle_sync
  handle_message asked (recompute_import_diff p) = handle_recompute_import_diff p
  handle_message asked (export_profile p) = handle_export_profile p
  handle_message asked (delete_account auth_key) = handle_delete_account auth_key

  -- `.catch(…)`: an expired token logs out, another failure is only logged.
  abbrev pub guarded : Job E Unit → Job E Unit
  guarded m = catching (λ e. when (is_expired e) (log_out false)) m

  -- Here every failure is only logged.
  abbrev pub logged : Job E Unit → Job E Unit
  logged m = catching (λ e. pure tt) m

  unfoldable pub perform : Task → Job E Unit
  perform Task.push_task = guarded push_pending
  perform (Task.sync_task p) = guarded (do since ← last_seq_id p; sync_from p since false true)
  perform (Task.merge_task p) = logged (catch_local_changes p)
  perform (Task.refresh_task p seq) = logged (refresh_server_snapshot p seq)
  perform (Task.upload_task p seq blob) =
      logged (do token ← jwt; remotely (api_put_server_snapshot E.fetch token p seq blob))

  unfoldable pub on_alarm : Alarm → Job E Unit
  on_alarm alarm = do
    idle ← gets (λ w. not (is_logged_in w.auth) || (is_locked w.auth || w.flags.sync_paused))
    if idle then pure tt else (do
      opened ← gets (λ w. is_open w.stream)
      elim alarm [
        | ws_reconnect ↦ when (not opened) connect_event_stream
        | sync_poll ↦ do
          profile ← active_profile_id
          when (not opened) connect_event_stream
          established ← is_established
          when established (start_task (Task.merge_task profile))
          start_task (Task.sync_task profile)
          start_task Task.push_task
      ])

  unfoldable pub reconnect : Job E Unit
  reconnect = do
    idle ← gets (λ w. not (is_logged_in w.auth) || is_locked w.auth)
    opened ← gets (λ w. is_open w.stream)
    if idle then pure tt else when (not opened) connect_event_stream

  -- `scheduleReconnect`
  unfoldable pub drop_stream : Option Stream → World E → World E
  drop_stream none w = w
  drop_stream (some s) w = record w {
    stream = some (record s { closed = true });
    reconnect_alarm = true;
  }

  -- The events of a stream's connection; one that was closed has none but `reconnect_needed`.
  unfoldable pub on_stream_event : StreamEvent → Job E Unit
  unfolding reconnect drop_stream
  on_stream_event (new_seq n) = do
    opened ← gets (λ w. w.stream)
    elim opened [
      | none ↦ pure tt
      | some s ↦ do
        last ← last_seq_id s.profile_id
        when (ltb last n) (guarded (sync_from s.profile_id last false true))
    ]
  on_stream_event dropped = modify (λ w. drop_stream w.stream w)
  on_stream_event reconnect_needed = reconnect
  on_stream_event auth_expired = log_out false

  -- The task that was started first is performed.
  unfoldable pub perform_next : Job E Unit
  unfolding perform
  perform_next w = elim w.tasks [ [] ↦ (done tt, w) | t ∷ ts ↦ perform t (record w { tasks = ts }) ]

-- What the worker answers to. Each runs to its end before the next.
pub data WorkerEvent : Type 0 where
  asked_for : List (List String) → Message → WorkerEvent
  alarmed : Alarm → WorkerEvent
  commanded : List (List String) → Command → WorkerEvent
  streamed : StreamEvent → WorkerEvent
  task_run : WorkerEvent

module _ {E : Env} where
  unfoldable pub react : World E → WorkerEvent → World E
  unfolding handle_message on_alarm on_stream_event perform_next
  react w (asked_for asked m) = (handle_message asked m w).1
  react w (alarmed a) = (on_alarm a w).1
  react w (commanded asked c) = (on_command asked c w).1
  react w (streamed e) = (on_stream_event e w).1
  react w task_run = (perform_next w).1

  unfoldable pub react_all : World E → List WorkerEvent → World E
  react_all w [] = w
  react_all w (e ∷ es) = react_all (react w e) es
