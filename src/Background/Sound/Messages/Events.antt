-- ===== src/Background/Sound/Messages/Events.antt =====
-- The worker's flags over all messages, alarms, commands, events of the stream and started work.
use vaultmarks.Shared.{String, true, false, Option, none, some, List, [], ◌∷◌, ◌≡◌, refl, arith}
use vaultmarks.Auth.Store.{Auth}
use vaultmarks.Background.World.{Env, World, Job, Stream, Task}
use vaultmarks.Background.Keeping.{
  Keeps, bind-Keeps, pure-Keeps, gets-Keeps, catching-Keeps, modify-Keeps, when-Keeps, if-Keeps,
  option-Keeps,
}
use vaultmarks.Background.Sound.{
  idle, IsSound, read-Keeps, remotely-Keeps, last_seq_id-Keeps, start_task-Keeps,
}
use vaultmarks.Auth.Store.{SessionTimeout, on_restart, never}
use vaultmarks.Auth.Session.{is_logged_in, set_session_timeout}
use vaultmarks.Background.Messages.{
  Message, login, unlock, change_password, resolve_locked_changes, resolve_import, lock, logout,
  get_status, switch_profile, create_profile, delete_profile, rename_profile,
  set_session_timeout as ask_timeout, sync, recompute_import_diff, export_profile, delete_account,
}
use vaultmarks.Background.Syncing.{is_expired}
use vaultmarks.Background.Dispatch.{
  Alarm, StreamEvent, sync_poll, ws_reconnect, new_seq, dropped, reconnect_needed, auth_expired,
  handle_message, guarded, logged, perform, on_alarm, reconnect, drop_stream, on_stream_event,
  perform_next, WorkerEvent, asked_for, alarmed, commanded, streamed, task_run, react, react_all,
}
use vaultmarks.Background.Sound.Syncs.{
  sync_from-Keeps, connect-Keeps, log_out-Keeps, push_pending-Keeps, refresh-Keeps,
}
use vaultmarks.Background.Sound.Messages.Session.{
  handle_login-Keeps, handle_unlock-Keeps, handle_resolve_locked_changes-Keeps, handle_lock-Keeps,
}
use vaultmarks.Background.Sound.Messages.Conflict.{
  handle_resolve_import-Keeps, handle_recompute-Keeps,
}
use vaultmarks.Background.Sound.Messages.Profiles.{
  handle_switch-Keeps, handle_create-Keeps, handle_rename-Keeps, handle_delete-Keeps,
  handle_export-Keeps, on_command-Keeps,
}
use vaultmarks.Background.Sound.Messages.Account.{
  handle_logout-Keeps, handle_change-Keeps, handle_delete_account-Keeps, handle_sync-Keeps,
  catch_local-Keeps,
}

timeout_in :
    {K : Type 0} (t : SessionTimeout) (a : Auth K)
    → is_logged_in (set_session_timeout t a) ≡ false
    → is_logged_in a ≡ false
unfolding set_session_timeout is_logged_in
timeout_in never a h = h
timeout_in on_restart a h = h

module _ {E : Env} where
  message-Keeps :
      (asked : List (List String)) (x : Message)
      → Keeps (IsSound idle) (handle_message {E = E} asked x)
  unfolding handle_message
  message-Keeps asked (login e a k) = handle_login-Keeps refl e a k
  message-Keeps asked (unlock k) = handle_unlock-Keeps refl k
  message-Keeps asked (change_password o n p) = handle_change-Keeps o n p
  message-Keeps asked (resolve_locked_changes x) = handle_resolve_locked_changes-Keeps refl x
  message-Keeps asked (resolve_import c o) = handle_resolve_import-Keeps refl c o
  message-Keeps asked lock = handle_lock-Keeps refl
  message-Keeps asked (logout c) = handle_logout-Keeps c
  message-Keeps asked get_status = gets-Keeps _
  message-Keeps asked (switch_profile p) = handle_switch-Keeps asked p
  message-Keeps asked (create_profile n) = handle_create-Keeps n
  message-Keeps asked (delete_profile p) = handle_delete-Keeps p
  message-Keeps asked (rename_profile p n) = handle_rename-Keeps p n
  message-Keeps asked (ask_timeout t) =
      bind-Keeps (modify-Keeps _ (λ w i. (i.0, λ h. i.1 (timeout_in t w.auth h))))
        (λ a. pure-Keeps _)
  message-Keeps asked sync = handle_sync-Keeps refl
  message-Keeps asked (recompute_import_diff p) = handle_recompute-Keeps refl p
  message-Keeps asked (export_profile p) = handle_export-Keeps p
  message-Keeps asked (delete_account k) = handle_delete_account-Keeps k

  guarded-Keeps : {f : Job E Unit} → Keeps (IsSound idle) f → Keeps (IsSound idle) (guarded f)
  guarded-Keeps k = catching-Keeps (λ e. when-Keeps (is_expired e) (log_out-Keeps false)) k

  logged-Keeps : {f : Job E Unit} → Keeps (IsSound idle) f → Keeps (IsSound idle) (logged f)
  logged-Keeps k = catching-Keeps (λ e. pure-Keeps _) k

  perform-Keeps : (t : Task) → Keeps (IsSound idle) (perform {E = E} t)
  unfolding perform
  perform-Keeps Task.push_task = guarded-Keeps push_pending-Keeps
  perform-Keeps (Task.sync_task p) =
      guarded-Keeps (bind-Keeps (last_seq_id-Keeps p) (λ n. sync_from-Keeps refl p n false true))
  perform-Keeps (Task.merge_task p) = logged-Keeps (catch_local-Keeps p)
  perform-Keeps (Task.refresh_task p n) = logged-Keeps (refresh-Keeps p n)
  perform-Keeps (Task.upload_task p n b) =
      logged-Keeps (bind-Keeps (read-Keeps _ _) (λ t. remotely-Keeps _))

  reconnect-Keeps : Keeps (IsSound idle) (reconnect {E = E})
  unfolding reconnect
  reconnect-Keeps =
      bind-Keeps (gets-Keeps _) (λ i.
        bind-Keeps (gets-Keeps _) (λ o. if-Keeps i (pure-Keeps _) (when-Keeps _ connect-Keeps)))

  alarm-Keeps : (a : Alarm) → Keeps (IsSound idle) (on_alarm {E = E} a)
  unfolding on_alarm
  alarm-Keeps ws_reconnect =
      bind-Keeps (gets-Keeps _) (λ i.
        if-Keeps i (pure-Keeps _) (bind-Keeps (gets-Keeps _) (λ o. when-Keeps _ connect-Keeps)))
  alarm-Keeps sync_poll = bind-Keeps (gets-Keeps _) (λ i. if-Keeps i (pure-Keeps _) (
      bind-Keeps (gets-Keeps _) (λ o. bind-Keeps (read-Keeps _ _) (λ p.
        bind-Keeps (when-Keeps _ connect-Keeps) (λ b. bind-Keeps (gets-Keeps _) (λ e.
          bind-Keeps (when-Keeps e (start_task-Keeps _))
            (λ c. bind-Keeps (start_task-Keeps _) (λ d. start_task-Keeps _))))))))

  drop_step :
      (o : Option Stream) (w : World E)
      → (is_logged_in w.auth ≡ false → o ≡ none)
      → IsSound idle w
      → IsSound idle (drop_stream o w)
  unfolding drop_stream
  drop_step none w h i = i
  drop_step (some s) w h i = (i.0, λ g. absurd (ground (arith, h g)))

  stream-Keeps : (e : StreamEvent) → Keeps (IsSound idle) (on_stream_event {E = E} e)
  unfolding on_stream_event
  stream-Keeps (new_seq n) = bind-Keeps (gets-Keeps _) (λ o. option-Keeps o (pure-Keeps _) (λ s.
      bind-Keeps (last_seq_id-Keeps _)
        (λ last. when-Keeps _ (guarded-Keeps (sync_from-Keeps refl _ last false true)))))
  stream-Keeps dropped = modify-Keeps _ (λ w i. drop_step w.stream w (λ h. (i.1 h).0) i)
  stream-Keeps reconnect_needed = reconnect-Keeps
  stream-Keeps auth_expired = log_out-Keeps false

  next-Keeps :
      (ts : List Task) (w : World E)
      → w.tasks ≡ ts
      → IsSound idle w
      → IsSound idle (perform_next {E = E} w).1
  unfolding perform_next
  next-Keeps [] w e i = rw (e, perform_next) i
  next-Keeps (t ∷ ts) w e i =
      rw (e, perform_next) ((perform-Keeps t).keeps (record w { tasks = ts }) i)

  react-IsSound : (w : World E) (e : WorkerEvent) → IsSound idle w → IsSound idle (react w e)
  unfolding react
  react-IsSound w (asked_for asked m) i = (message-Keeps asked m).keeps w i
  react-IsSound w (alarmed a) i = (alarm-Keeps a).keeps w i
  react-IsSound w (commanded asked c) i = (on_command-Keeps asked c).keeps w i
  react-IsSound w (streamed e) i = (stream-Keeps e).keeps w i
  react-IsSound w task_run i = next-Keeps w.tasks w refl i

  -- Whatever the worker is asked, whatever the server refuses, whichever write of the database fails
  -- and during whichever sync another request to sync comes: once no sync is in progress, none waits
  -- to be started again, the syncs and pushes are not paused and no switch is in progress, so it is
  -- after any sequence of events; and if before, where nobody is signed in, there was no stream, no
  -- poll alarm and no listener, so it is afterwards.
  pub react_all-IsSound :
      (w : World E) (es : List WorkerEvent) → IsSound idle w → IsSound idle (react_all w es)
  unfolding react_all
  react_all-IsSound w [] i = i
  react_all-IsSound w (e ∷ es) i = react_all-IsSound (react w e) es (react-IsSound w e i)
