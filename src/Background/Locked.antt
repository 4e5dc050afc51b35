-- ===== src/Background/Locked.antt =====
-- What a lock and a logout leave: the worker's state, and what can still reach it.
use vaultmarks.Shared.{String, Bool, true, false, none, List, [], ◌≡◌, ◌⊎◌, inl, inr, refl, arith}
use vaultmarks.Sync.Action.{
  Failure, Result, done, failed, throw, pure, gets, modify, when, ◌>>=◌, ◌>>◌,
}
use vaultmarks.Auth.Store.{Auth, no_local}
use vaultmarks.Auth.Session.{
  is_logged_in, is_locked, lock_session, clear_session, raw_of, get_encryption_key,
}
use vaultmarks.Background.World.{Env, World, Icon}
use vaultmarks.Background.Ending.{After, bind-Ends, write-Ends}
use vaultmarks.Background.Messages.{Response, lock_success, logout_success, switch_error}
use vaultmarks.Background.Steps.{write_failed, detach_bookmark_listeners}
use vaultmarks.Background.Syncing.{stop_realtime_sync}
use vaultmarks.Background.SignOut.{clear_managed_bookmarks, set_icon, forget_account, log_out}
use vaultmarks.Background.Handlers.Session.{handle_lock}
use vaultmarks.Background.Handlers.Profiles.{Command, on_command, handle_switch_profile}
use vaultmarks.Background.Handlers.Account.{handle_logout}
use vaultmarks.Background.Dispatch.{Alarm, on_alarm, reconnect}

module _ {K : Type 0} where
  locked_in : (a : Auth K) → is_locked a ≡ true → is_logged_in a ≡ true
  unfolding is_locked is_logged_in
  locked_in a h = ground (arith, h)

  lock_locks :
      (a : Auth K)
      → is_logged_in a ≡ true
      → (is_locked (lock_session a) ≡ true)
        × (get_encryption_key (lock_session a) ≡ none)
        × (raw_of (lock_session a).session ≡ none)
        × ((lock_session a).ephemeral_key ≡ none)
        × ((lock_session a).local.encryption_key_raw ≡ none)
  unfolding lock_session is_locked is_logged_in get_encryption_key
  lock_locks a h = ground (arith, h)

module _ {E : Env} where
  -- What reaches a worker without a message of the popup, and the messages for a switch.
  abbrev pub IsDeaf : World E → Type 0
  IsDeaf w =
      ((a : Alarm) → (on_alarm a w).1 ≡ w)
      × ((asked : List (List String)) (c : Command) → (on_command asked c w).1 ≡ w)
      × ((reconnect w).1 ≡ w)
      × ((asked : List (List String)) (p : String)
          → handle_switch_profile asked p w
            ≡ (done (switch_error (Failure.message "Session is locked.")), w))

  locked-IsDeaf : (w : World E) → is_locked w.auth ≡ true → IsDeaf w
  unfolding on_alarm on_command reconnect handle_switch_profile ◌>>=◌ gets pure
  locked-IsDeaf w h =
      let g = locked_in w.auth h in
      (
        (λ a. rw (h, g, on_alarm) refl),
        (λ asked c. rw (h, g, on_command) refl),
        rw (h, g, reconnect) refl,
        λ asked p. rw (h, handle_switch_profile) refl,
      )

  -- Once a session is locked, no copy of the key is left, the stream is closed, both alarms are
  -- cleared and the listeners gone, what the database holds is kept; and no alarm, no command, no
  -- timer of a closed stream and no message for a switch changes the worker.
  pub lock_silences :
      (w : World E)
      → is_logged_in w.auth ≡ true
      → let l = (handle_lock w).1 in
        ((handle_lock w).0 ≡ done lock_success)
        × (get_encryption_key l.auth ≡ none)
        × (raw_of l.auth.session ≡ none)
        × (l.auth.ephemeral_key ≡ none)
        × (l.auth.local.encryption_key_raw ≡ none)
        × (l.stream ≡ none)
        × (l.poll_alarm ≡ false)
        × (l.reconnect_alarm ≡ false)
        × (l.listening ≡ false)
        × (l.database ≡ w.database)
        × IsDeaf l
  unfolding handle_lock ◌>>=◌ modify pure stop_realtime_sync detach_bookmark_listeners
  lock_silences w h =
      let (shut, key, raw, ephemeral, stored) = lock_locks w.auth h in
      let l = (handle_lock w).1 in
      (refl, key, raw, ephemeral, stored, refl, refl, refl, refl, refl, locked-IsDeaf l shut)

  -- No session and, of the local store, only the timeout; no stream, no alarm and no listener; and in
  -- memory what waits for the user's decision is as it was.
  abbrev pub IsSignedOut : World E → World E → Type 0
  IsSignedOut w l =
      (l.auth.session ≡ none)
      × (l.auth.local ≡ record no_local { session_timeout = w.auth.local.session_timeout })
      × (l.auth.ephemeral_key ≡ none)
      × (l.stream ≡ none)
      × (l.poll_alarm ≡ false)
      × (l.reconnect_alarm ≡ false)
      × (l.listening ≡ false)
      × (l.stored_import ≡ none)
      × (l.pending_import ≡ w.pending_import)
      × (l.pending_changes ≡ w.pending_changes)
      × (l.pending_unlock ≡ w.pending_unlock)

  -- The queue is empty and nothing else of the database has changed, or the write failed, which the
  -- logout throws, and the database, the bookmarks and the icon are as they were.
  abbrev pub IsForgotten : Bool → World E → Result Response × World E → Type 0
  IsForgotten clear w (r, l) =
      ((r ≡ done logout_success)
        × (l.database ≡ record w.database { queue = [] })
        × (l.icon ≡ Icon.signedout_icon)
        × (clear ≡ false → l.browser ≡ w.browser))
      ⊎ ((r ≡ failed write_failed)
          × (l.database ≡ w.database)
          × (l.browser ≡ w.browser)
          × (l.icon ≡ w.icon))

  -- After a logout there is no session and, of the local store, only the timeout; no stream, no
  -- alarm and no listener; and what waits for the user's decision is kept in memory. Either it
  -- succeeds, with an empty queue, the rest of the database as it was and, unless asked for, the
  -- bookmarks too; or the queue cannot be cleared, which it throws, with the database, the bookmarks
  -- and the icon as they were.
  pub logout_clears :
      (c : Bool) (w : World E)
      → IsSignedOut w (handle_logout c w).1 × IsForgotten c w (handle_logout c w)
  unfolding handle_logout log_out forget_account ◌>>=◌ modify pure throw when stop_realtime_sync
      detach_bookmark_listeners clear_session clear_managed_bookmarks
  logout_clears true w =
      let Q : Result Response → World E → Type 0 =
        λ r l. IsSignedOut w l × IsForgotten true w (r, l) in
      (bind-Ends Q (log_out true) _ w (record {
        ends =
            (bind-Ends (After Q (λ u. pure logout_success)) _
              (λ u. when true clear_managed_bookmarks >> set_icon Icon.signedout_icon) _
              (write-Ends _ _ _
                (record {
                  ends = record {
                    ends = (
                      (refl, refl, refl, refl, refl, refl, refl, refl, refl, refl, refl),
                      inl (refl, refl, refl, λ h. absurd (ground (arith, h))),
                    );
                  };
                })
                (
                  (refl, refl, refl, refl, refl, refl, refl, refl, refl, refl, refl),
                  inr (refl, refl, refl, refl),
                ))).ends;
      })).ends
  logout_clears false w =
      let Q : Result Response → World E → Type 0 =
        λ r l. IsSignedOut w l × IsForgotten false w (r, l) in
      (bind-Ends Q (log_out false) _ w (record {
        ends =
            (bind-Ends (After Q (λ u. pure logout_success)) _
              (λ u. when false clear_managed_bookmarks >> set_icon Icon.signedout_icon) _
              (write-Ends _ _ _
                (record {
                  ends = record {
                    ends = (
                      (refl, refl, refl, refl, refl, refl, refl, refl, refl, refl, refl),
                      inl (refl, refl, refl, λ h. refl),
                    );
                  };
                })
                (
                  (refl, refl, refl, refl, refl, refl, refl, refl, refl, refl, refl),
                  inr (refl, refl, refl, refl),
                ))).ends;
      })).ends
