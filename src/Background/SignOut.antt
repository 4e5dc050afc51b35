-- ===== src/Background/SignOut.antt =====
-- Signing out: `handleLogout` of extension/src/background/index.ts, and `clearManagedBookmarks` of
-- extension/src/bookmarks/bridge.ts.
use vaultmarks.Shared.{Bool, none, List, [], ◌∷◌, or_else, if◌then◌else◌}
use vaultmarks.Bookmarks.Browser.{Browser}
use vaultmarks.Bookmarks.Node.{Tree, node, to_list}
use vaultmarks.Bookmarks.Roots.{Roots, is_any_root_id}
use vaultmarks.Sync.Action.{modify, when, ◌>>◌}
use vaultmarks.Auth.Session.{clear_session}
use vaultmarks.Background.World.{Env, Job, Icon}
use vaultmarks.Background.Steps.{set_database, detach_bookmark_listeners}
use vaultmarks.Background.Syncing.{stop_realtime_sync}

module _ (B : Browser) (r : Roots) where
  -- `removeTree` of each child, where a failure is only logged.
  unfoldable pub remove_children : B.State → List Tree → B.State
  remove_children s [] = s
  remove_children s (node i ts ∷ rest) = remove_children (or_else (B.remove_tree i.id s) s) rest

  unfoldable pub clear_containers : B.State → List Tree → B.State
  unfolding remove_children
  clear_containers s [] = s
  clear_containers s (node i ts ∷ rest) =
      clear_containers (if is_any_root_id r i.id then remove_children s (to_list ts) else s) rest

abbrev children : Tree → List Tree
children (node i ts) = to_list ts

module _ {E : Env} where
  unfoldable pub clear_managed_bookmarks : Job E Unit
  unfolding clear_containers
  clear_managed_bookmarks = modify (λ w. record w {
    browser =
        clear_containers E.browser w.roots w.browser (children (E.browser.get_tree w.browser));
  })

  abbrev pub set_icon : Icon → Job E Unit
  set_icon i = modify (λ w. record w { icon = i })

  abbrev pub set_icon_locked : Bool → Job E Unit
  set_icon_locked locked = set_icon (if locked then Icon.locked_icon else Icon.default_icon)

  -- `clearSession` empties chrome.storage.session as a whole.
  abbrev pub sign_out : Job E Unit
  sign_out = modify (λ w. record w { auth = clear_session w.auth; stored_import = none })

  -- What follows `clearSession` in `handleLogout`: where the queue cannot be cleared, it throws.
  unfoldable pub forget_account : Bool → Job E Unit
  unfolding clear_managed_bookmarks
  forget_account clear_bookmarks = do
    set_database (λ d. record d { queue = [] })
    when clear_bookmarks clear_managed_bookmarks
    set_icon Icon.signedout_icon

  -- `handleLogout`
  unfoldable pub log_out : Bool → Job E Unit
  unfolding stop_realtime_sync forget_account
  log_out clear_bookmarks = do
    stop_realtime_sync
    detach_bookmark_listeners
    sign_out
    forget_account clear_bookmarks
