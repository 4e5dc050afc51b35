-- ===== src/Background/World.antt =====
-- The state of extension/src/background/index.ts and of the modules that it owns, and what stands
-- outside of the repository: the browser, Loro, Web Crypto, the clock and the network.
use vaultmarks.Shared.{ℕ, String, Bool, Option, List}
use vaultmarks.Shared.Dict.{Dict}
use vaultmarks.Crdt.{Loro}
use vaultmarks.Bookmarks.Browser.{Browser}
use vaultmarks.Bookmarks.Roots.{Roots}
use vaultmarks.Bookmarks.Offline.{Bridge, Changes}
use vaultmarks.Bookmarks.Import.{ImportDiff}
use vaultmarks.Sync.Queue.{QueuedDelta}
use vaultmarks.Sync.Requests.{Request, Answer}
use vaultmarks.Sync.Action.{Action}
use vaultmarks.Auth.Store.{Raw, Auth}
use vaultmarks.Background.Exclusive.{Flags}

-- `export_from` of no version is the whole document. `encode_text` is the browser's TextEncoder,
-- `random_key` its generator of random bytes, `key_order` the language's order of a record's keys.
-- `pages` bounds the pages of one pull. `commits` tells whether the next transaction that writes to
-- the database succeeds, and `overlaps` whether another request to sync came while a sync ran; what
-- is outside of the worker is `Remote`.
pub record Env : Type 1 where
  pub Key : Type 0
  pub Remote : Type 0
  pub Version : Type 0
  pub loro : Loro
  pub browser : Browser
  pub export_snapshot : loro.Doc → Raw
  pub import_update : Raw → loro.Doc → loro.Doc
  pub export_from : Option Version → loro.Doc → Raw
  pub current_version : loro.Doc → Version
  pub import_key : Raw → Option Key
  pub encrypt : Key → Raw → String
  pub decrypt : Key → String → Option Raw
  pub encode_text : String → Raw
  pub random_key : Remote → Raw
  pub uuid : ℕ → String
  pub now : Remote → ℕ
  pub trim : String → String
  pub commits : Remote → Bool × Remote
  pub overlaps : Remote → Bool
  pub fetch : Request → Remote → Option Answer × Remote
  pub key_order : List String → List String
  pub pages : ℕ

-- The database of extension/src/storage/db.ts: the store "loro", the three kinds of keys of the
-- store "meta", and the store "deltaQueue".
pub record Database : Type 0 where
  pub snapshots : Dict Raw
  pub id_maps : Dict (List (String × String))
  pub last_seqs : Dict ℕ
  pub last_uploads : Dict ℕ
  pub queue : List QueuedDelta

pub data Icon : Type 0 where
  default_icon locked_icon signedout_icon : Icon

-- `SseConnection`, with the arguments that it was opened with.
pub record Stream : Type 0 where
  pub profile_id : String
  pub token : String
  pub closed : Bool

pub record PendingImport : Type 0 where
  pub profile_id : String
  pub diff : ImportDiff

-- Work that a handler starts without waiting for it.
pub data Task : Type 0 where
  push_task : Task
  sync_task : String → Task
  merge_task : String → Task
  refresh_task : String → ℕ → Task
  upload_task : String → ℕ → String → Task

-- `bridge.doc` is the new document before the first `initDoc`. `roots` is what `initBrowserRoots`
-- found. `stored_import` is the copy of the pending import in chrome.storage.session.
pub record World (E : Env) : Type 0 where
  pub auth : Auth E.Key
  pub database : Database
  pub bridge : Bridge E.loro.Doc
  pub cursor : Option E.Version
  pub listening : Bool
  pub roots : Roots
  pub browser : E.browser.State
  pub remote : E.Remote
  pub flags : Flags
  pub push_paused : Bool
  pub stream : Option Stream
  pub poll_alarm : Bool
  pub reconnect_alarm : Bool
  pub icon : Icon
  pub last_synced : Option ℕ
  pub pending_changes : Option Changes
  pub pending_unlock : Option String
  pub pending_import : Option PendingImport
  pub stored_import : Option PendingImport
  pub pending_switch : Option String
  pub tasks : List Task

-- What a handler is.
abbrev pub Job : Env → Type 0 → Type 0
Job E A = Action (World E) A
