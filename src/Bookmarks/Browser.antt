-- ===== src/Bookmarks/Browser.antt =====
-- The browser's interface chrome.bookmarks, which is not part of the repository: a parameter.
use vaultmarks.Shared.{ℕ, String, Bool, true, false, Option, some, List, ◌≡◌}
use vaultmarks.Bookmarks.Node.{Tree, Item}

-- A call that is rejected is `none`, or leaves the state as it is where the code only logs it.
pub record Browser : Type 1 where
  pub State : Type 0
  pub get_tree : State → Tree
  pub get_item : State → String → Option Item
  pub get_children : State → String → List Item
  pub remove_tree : String → State → Option State
  pub create : String → String → Option String → State → Option (String × State)
  pub update : String → String → Option String → State → State
  pub move : String → String → ℕ → State → State

-- The documented behaviour of ids: a new node's id was never given to another node, and a node's id
-- is not given again after the node is gone.
pub record HasFreshIds (B : Browser) : Type 1 where
  pub is_used : B.State → String → Bool
  pub create-new :
      (p t : String) (u : Option String) (s : B.State) {id : String} {s' : B.State}
      → B.create p t u s ≡ some (id, s')
      → is_used s id ≡ false
  pub create-used :
      (p t : String) (u : Option String) (s : B.State) {id : String} {s' : B.State}
      → B.create p t u s ≡ some (id, s')
      → is_used s' id ≡ true
  pub create-keeps :
      (p t : String) (u : Option String) (s : B.State) {id : String} {s' : B.State}
      → B.create p t u s ≡ some (id, s')
      → (k : String) → is_used s k ≡ true
      → is_used s' k ≡ true
  pub remove_tree-keeps :
      (id : String) (s : B.State) {s' : B.State}
      → B.remove_tree id s ≡ some s'
      → (k : String) → is_used s k ≡ true
      → is_used s' k ≡ true
  pub update-keeps :
      (id t : String) (u : Option String) (s : B.State) (k : String)
      → is_used s k ≡ true
      → is_used (B.update id t u s) k ≡ true
  pub move-keeps :
      (id p : String) (i : ℕ) (s : B.State) (k : String)
      → is_used s k ≡ true
      → is_used (B.move id p i s) k ≡ true
