-- ===== src/Tests/Worker.antt =====
-- The theorems on the worker and on a reconcile at a concrete browser, server and session.
use vaultmarks.Shared.{
  ℕ, zero, suc, ◌≤◌, ltb, String, Bool, true, false, Option, none, some, List, [], ◌∷◌, ◌==◌, ◌||◌,
  ◌≡◌, refl, arith, eq_iff, inl, inr, String-cases, or_else, subst, ap,
}
use vaultmarks.Shared.Dict.{Dict, get, KeysDistinct}
use vaultmarks.Bookmarks.Node.{BookmarkNode}
use vaultmarks.Bookmarks.Mapping.{empty, save_mapping}
use vaultmarks.Bookmarks.Roots.{default_roots}
use vaultmarks.Bookmarks.Browser.{Browser, HasFreshIds}
use vaultmarks.Bookmarks.Reconcile.{Reconciling, reconcile}
use vaultmarks.Bookmarks.Reconcile.Settled.{IsSettled, reconcile-IsSettled}
use vaultmarks.Sync.Requests.{no_body}
use vaultmarks.Sync.Action.{done}
use vaultmarks.Auth.Session.{is_logged_in, get_encryption_key, raw_of}
use vaultmarks.Auth.Store.{Raw, Auth, ProfileInfo, initial}
use vaultmarks.Background.Exclusive.{initial_flags, Syncs, Event, requested, switching_set}
use vaultmarks.Background.World.{Env, World, Icon}
use vaultmarks.Background.Messages.{lock_success, logout, sync, switch_profile}
use vaultmarks.Background.Dispatch.{WorkerEvent, asked_for, alarmed, task_run, sync_poll, react_all}
use vaultmarks.Background.Sound.{IsSound, idle}
use vaultmarks.Background.Sound.Messages.Events.{react_all-IsSound}
use vaultmarks.Background.Locked.{IsDeaf, IsSignedOut, IsForgotten, lock_silences, logout_clears}
use vaultmarks.Background.Handlers.Profiles.{
  next_profile, prev_profile, target_of, handle_delete_profile, handle_create_profile,
}
use vaultmarks.Background.Handlers.Session.{handle_lock}
use vaultmarks.Background.Handlers.Account.{handle_logout}
use vaultmarks.Background.Handlers.Profiles.Commands.{target_found, targets_inverse}
use vaultmarks.Background.Handlers.Profiles.Whole.{IsWhole, create_profile-IsWhole}
use vaultmarks.Background.Handlers.Profiles.Gone.{IsGone, delete_profile-IsGone}
use vaultmarks.Background.Handlers.Profiles.Others.{SameData, delete_keeps_others}
use vaultmarks.Tests.Data.{memory, uuid, different, chrome_tree, folder_node, page_node}

-- A browser that only counts the nodes that it made.
abbrev counting : Browser
counting = record {
  State = ℕ;
  get_tree = λ n. chrome_tree;
  get_item = λ n id. none;
  get_children = λ n id. [];
  remove_tree = λ id n. some n;
  create = λ p t u n. some (uuid n, suc n);
  update = λ id t u n. n;
  move = λ id p i n. n;
}

abbrev is_given : ℕ → String → Bool
is_given zero k = false
is_given (suc n) k = (uuid n == k) || is_given n k

not_given : (m n : ℕ) → m ≤ n → is_given m (uuid n) ≡ false
not_given zero n h = refl
not_given (suc m) n h = elim (String-cases (uuid m) (uuid n)) [
  | inl (e, t) ↦ absurd (let both = different m n e in omega arith)
  | inr e ↦ ground (arith, e, not_given m n (omega arith))
]

made :
    (n : ℕ) {id : String} {s' : ℕ}
    → Path (Option (String × ℕ)) (some (uuid n, suc n)) (some (id, s'))
    → Path (String × ℕ) (uuid n, suc n) (id, s')
made n e = ap (λ o. or_else o ("", 0)) e

just_given : (n : ℕ) → is_given (suc n) (uuid n) ≡ true
just_given n = ground (arith, eq_iff (uuid n) (uuid n))

still_given : (n : ℕ) (k : String) → is_given n k ≡ true → is_given (suc n) k ≡ true
still_given n k h = ground (arith, h)

counting-HasFreshIds : HasFreshIds counting
counting-HasFreshIds = record {
  is_used = is_given;
  create-new = λ p t u n {id} {s'} e.
      subst (λ x. is_given n x.0 ≡ false) (made n e) (not_given n n (omega arith));
  create-used =
      λ p t u n {id} {s'} e. subst (λ x. is_given x.1 x.0 ≡ true) (made n e) (just_given n);
  create-keeps =
      λ p t u n {id} {s'} e k h. subst (λ x. is_given x.1 k ≡ true) (made n e) (still_given n k h);
  remove_tree-keeps =
      λ id n {s'} e k h. subst (λ x. is_given x k ≡ true) (ap (λ o. or_else o 0) e) h;
  update-keeps = λ id t u n k h. h;
  move-keeps = λ id p i n k h. h;
}

abbrev in_order : List String → List String
in_order ks = ks

abbrev desired : Dict BookmarkNode
desired = ("f", folder_node) ∷ ("g", page_node) ∷ []

desired-KeysDistinct : KeysDistinct desired
unfolding get
desired-KeysDistinct = (refl, (refl, tt))

-- The folder is mapped, the page is not.
abbrev half_done : Reconciling ℕ
half_done = record {
  browser = 1;
  mapping = record { loro_to_chrome = ("f", "u") ∷ []; chrome_to_loro = ("u", "f") ∷ [] };
  saved = [];
}

half_given : (l c : String) → get (("f", "u") ∷ []) l ≡ some c → (("u" == c) || false) ≡ true
unfolding get
half_given l c h = ground (arith, eq_iff "f" l, eq_iff "u" c, h)

half_done-IsSettled : IsSettled counting default_roots in_order counting-HasFreshIds half_done
unfolding get counting-HasFreshIds
half_done-IsSettled = record {
  tracked = record {
    bijective = record {
      forth = λ l c h. ground (arith, eq_iff "f" l, eq_iff "u" c, h);
      back = λ c l h. ground (arith, eq_iff "f" l, eq_iff "u" c, h);
    };
    distinct = (refl, tt);
  };
  used = λ l c h. half_given l c h;
}

reconcile-IsSettled_example :
    IsSettled counting default_roots in_order counting-HasFreshIds
      (reconcile counting default_roots in_order desired half_done)
    × ((reconcile counting default_roots in_order desired half_done).saved
        ≡ save_mapping (reconcile counting default_roots in_order desired half_done).mapping)
reconcile-IsSettled_example =
    reconcile-IsSettled counting default_roots in_order counting-HasFreshIds desired half_done
      desired-KeysDistinct half_done-IsSettled

abbrev env : Env
env = record {
  Key = Raw;
  Remote = ℕ;
  Version = ℕ;
  loro = memory;
  browser = counting;
  export_snapshot = λ d. [];
  import_update = λ bytes d. d;
  export_from = λ v d. [];
  current_version = λ d. 0;
  import_key = λ raw. some raw;
  encrypt = λ k bytes. "sealed";
  decrypt = λ k blob. some [];
  encode_text = λ text. [];
  random_key = λ n. n ∷ [];
  uuid = uuid;
  now = λ n. n;
  trim = λ text. text;
  commits = λ n. (ltb n 2, suc n);
  overlaps = λ n. ltb n 1;
  fetch = λ q n. (some (record { status = 200; body = no_body }), suc n);
  key_order = in_order;
  pages = 5;
}

abbrev signed_in : Auth Raw
signed_in = record (initial Raw) {
  session = some (record {
    jwt = "token";
    email = "a@b.example";
    encryption_key = some (7 ∷ []);
    encryption_key_raw = some (7 ∷ []);
    protected_symmetric_key = "sealed";
    user_id = "";
    profiles = record { id = "p"; name = "Default" } ∷ record { id = "q"; name = "Work" } ∷ [];
    active_profile_id = "p";
  });
  ephemeral_key = some (7 ∷ []);
}

abbrev world : World env
world = record {
  auth = signed_in;
  database = record {
    snapshots = ("p", []) ∷ ("q", []) ∷ [];
    id_maps = [];
    last_seqs = ("q", 3) ∷ [];
    last_uploads = [];
    queue = [];
  };
  bridge = record { mapping = empty; doc = memory.empty_doc; saved = []; uuids = 0 };
  cursor = none;
  listening = true;
  roots = default_roots;
  browser = 0;
  remote = 0;
  flags = initial_flags;
  push_paused = false;
  stream = some (record { profile_id = "p"; token = "token"; closed = false });
  poll_alarm = true;
  reconnect_alarm = false;
  icon = Icon.default_icon;
  last_synced = none;
  pending_changes = none;
  pending_unlock = none;
  pending_import = none;
  stored_import = none;
  pending_switch = none;
  tasks = [];
}

world-IsSound : IsSound idle world
unfolding is_logged_in
world-IsSound = ((refl, refl, refl, refl, refl), λ h. absurd (ground (arith, h)))

abbrev events : List WorkerEvent
events =
    asked_for [] sync
    ∷ asked_for (("p" ∷ []) ∷ []) (switch_profile "q")
    ∷ alarmed sync_poll
    ∷ task_run
    ∷ asked_for [] (logout true)
    ∷ []

react_all-IsSound_example : IsSound idle (react_all world events)
react_all-IsSound_example = react_all-IsSound world events world-IsSound

lock_silences_example :
    let l = (handle_lock world).1 in
    ((handle_lock world).0 ≡ done lock_success)
    × (get_encryption_key l.auth ≡ none)
    × (raw_of l.auth.session ≡ none)
    × (l.auth.ephemeral_key ≡ none)
    × (l.auth.local.encryption_key_raw ≡ none)
    × (l.stream ≡ none)
    × (l.poll_alarm ≡ false)
    × (l.reconnect_alarm ≡ false)
    × (l.listening ≡ false)
    × (l.database ≡ world.database)
    × IsDeaf l
unfolding is_logged_in
lock_silences_example = lock_silences world refl

logout_clears_example :
    IsSignedOut world (handle_logout true world).1
    × IsForgotten true world (handle_logout true world)
logout_clears_example = logout_clears true world

abbrev two_profiles : List ProfileInfo
two_profiles = record { id = "p"; name = "Default" } ∷ record { id = "q"; name = "Work" } ∷ []

-- No profile of the list is active.
target_found_example : (p : ProfileInfo) × (target_of prev_profile "gone" two_profiles ≡ some p)
target_found_example = target_found prev_profile "gone" two_profiles (omega arith)

targets_inverse_example :
    ((p : ProfileInfo) × (target_of next_profile "q" two_profiles ≡ some p)
      × (target_of prev_profile p.id two_profiles ≡ some (record { id = "q"; name = "Work" })))
    × ((p : ProfileInfo) × (target_of prev_profile "q" two_profiles ≡ some p)
        × (target_of next_profile p.id two_profiles ≡ some (record { id = "q"; name = "Work" })))
targets_inverse_example =
    targets_inverse two_profiles 1 (record { id = "q"; name = "Work" }) ((refl, tt), (tt, tt))
      (omega arith) refl

delete_keeps_others_example :
    SameData "q" world.database (handle_delete_profile "r" world).1.database
delete_keeps_others_example = delete_keeps_others "r" "q" world refl

create_profile-IsWhole_example : IsWhole world (handle_create_profile "Work" world)
create_profile-IsWhole_example = create_profile-IsWhole "Work" world

delete_profile-IsGone_example : IsGone "r" world (handle_delete_profile "r" world)
delete_profile-IsGone_example = delete_profile-IsGone "r" world

-- A sync is running; a switch begins and ends while the request waits.
abbrev running : Syncs
running = record { flags = record initial_flags { sync_in_progress = true }; running = 1 }

abbrev meanwhile : List Event
meanwhile = switching_set true ∷ requested true ∷ switching_set false ∷ []
