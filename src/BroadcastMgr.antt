-- ===== src/BroadcastMgr.antt =====
-- cylc/flow/broadcast_mgr.py: class BroadcastMgr, settings that override those of tasks at cycle points.
-- A nested dictionary of settings is a Settings; a value is a text or a list of texts. The validation of
-- a setting, the standard form of a point, the order of points and the test for platform conflicts are
-- arguments (Interface). Calls on the data store and the database are recorded as effects.
pub mod Dict
pub mod Overlay
pub mod Operations
pub mod Clear
pub mod Lookup
pub mod Keys
pub mod ExtTriggers
mod Tests
use cylc_flow.Prelude.{
  ℕ, suc, String, Bool, true, false, ◌&&◌, Option, none, some, List, [], ◌∷◌, ◌++◌, any,
  if◌then◌else◌, ◌==◌, string_eq, nat_eq,
}
use cylc_flow.Prelude.Result.{Result, ok, err, ◌>>=◌}

-- A value that is not a dictionary.
pub data Item : Type 0 where
  text : String → Item
  items : List String → Item

-- A dictionary in insertion order. A value of `none` is Python's `None`.
pub data Settings : Type 0 where
  empty : Settings
  leaf : String → Option Item → Settings → Settings
  section : String → Settings → Settings → Settings

pub data BroadcastError : Type 0 where
  key_error type_error attribute_error runtime_error point_error : BroadcastError

-- What a key has.
pub data Found : Type 0 where
  missing : Found
  value : Option Item → Found
  dict : Settings → Found

unfoldable pub find_key : Settings → String → Found
find_key empty key = missing
find_key (leaf k v rest) key = let later = find_key rest key in if key == k then value v else later
find_key (section k s rest) key =
    let later = find_key rest key in if key == k then dict s else later

-- `target[key] = val` for a value that is not a dictionary
unfoldable pub set_leaf : Settings → String → Option Item → Settings
set_leaf empty key val = leaf key val empty
set_leaf (leaf k v rest) key val =
    let later = set_leaf rest key val in if key == k then leaf k val rest else leaf k v later
set_leaf (section k s rest) key val =
    let later = set_leaf rest key val in if key == k then leaf k val rest else section k s later

unfoldable pub set_section : Settings → String → Settings → Settings
set_section empty key d = section key d empty
set_section (leaf k v rest) key d =
    let later = set_section rest key d in if key == k then section k d rest else leaf k v later
set_section (section k s rest) key d =
    let later = set_section rest key d in if key == k then section k d rest else section k s later

-- `addict(target, source)`. A section cannot be added to a value that is not one.
unfoldable pub addict : Settings → Settings → Result BroadcastError Settings
unfolding find_key set_leaf set_section
addict target empty = ok target
addict target (leaf key val rest) = addict (set_leaf target key val) rest
addict target (section key val rest) = elim (find_key target key) [
  | missing ↦ addict empty val >>= λ d. addict (set_section target key d) rest
  | dict d ↦ addict d val >>= λ d'. addict (set_section target key d') rest
  | value v ↦ elim val [
    | empty ↦ addict target rest
    | leaf k w r ↦ err type_error
    | section k s r ↦ err type_error
  ]
]

abbrev pub same_texts : List String → List String → Bool
same_texts [] [] = true
same_texts (s ∷ ss) (t ∷ ts) = s == t && same_texts ss ts
same_texts _ _ = false

abbrev pub same_item : Option Item → Option Item → Bool
same_item none none = true
same_item (some (text s)) (some (text t)) = s == t
same_item (some (items s)) (some (items t)) = same_texts s t
same_item _ _ = false

abbrev pub size : Settings → ℕ
size empty = 0
size (leaf k v rest) = suc (size rest)
size (section k s rest) = suc (size rest)

-- Each key of a dictionary has an equal value in another one.
unfoldable pub is_within : Settings → Settings → Bool
unfolding find_key
is_within empty t = true
is_within (leaf k v rest) t =
    is_within rest t
    && elim (find_key t k) [ missing ↦ false | value w ↦ same_item v w | dict d ↦ false ]
is_within (section k s rest) t = is_within rest t && elim (find_key t k) [
  | missing ↦ false
  | value w ↦ false
  | dict d ↦ size s == size d && is_within s d
]

-- `==` of dictionaries
unfoldable pub same_settings : Settings → Settings → Bool
unfolding is_within
same_settings s t = size s == size t && is_within s t

abbrev pub Keys : Type 0
Keys = List String

-- What a loop with a stack of dictionaries comes to: the values of a dictionary in order, then those of
-- the dictionaries in it, the last first. `keys` are those of the dictionary itself.
abbrev pub both {ℓ} : {A : Type ℓ} → List A × List A → List A
both (nested, own) = own ++ nested

unfoldable pub leaves : Keys → Settings → List (Keys × Option Item) × List (Keys × Option Item)
leaves keys empty = ([], [])
leaves keys (leaf k v rest) =
    let (nested, own) = leaves keys rest in (nested, (keys ++ k ∷ [], v) ∷ own)
leaves keys (section k s rest) =
    let (nested, own) = leaves keys rest in (nested ++ both (leaves (keys ++ k ∷ []) s), own)

unfoldable pub key_lists : List (Keys × Option Item) → List Keys
key_lists [] = []
key_lists ((keys, v) ∷ rows) = keys ∷ key_lists rows

-- `_settings_to_keys_list`
unfoldable pub settings_to_keys_list : List Settings → List Keys
unfolding leaves key_lists
settings_to_keys_list [] = []
settings_to_keys_list (s ∷ ss) = key_lists (both (leaves [] s)) ++ settings_to_keys_list ss

-- `not cancel_keys_list or keys in cancel_keys_list`
abbrev pub is_cancelled : List Keys → Keys → Bool
is_cancelled [] keys = true
is_cancelled (c ∷ cs) keys = any (same_texts keys) (c ∷ cs)

-- The values that are cancelled become `None`.
unfoldable pub cancel : List Keys → Keys → Settings → Settings
cancel cancel_keys keys empty = empty
cancel cancel_keys keys (leaf k v rest) =
    leaf k (if is_cancelled cancel_keys (keys ++ k ∷ []) then none else v)
      (cancel cancel_keys keys rest)
cancel cancel_keys keys (section k s rest) =
    section k (cancel cancel_keys (keys ++ k ∷ []) s) (cancel cancel_keys keys rest)

abbrev pub Prunes : Type 0
Prunes = List Keys × List Keys

-- Deletion of `None` and of empty dictionaries, inner dictionaries first, with the keys that are deleted.
abbrev pub drop_leaf : Keys → String → Option Item → Settings × Prunes → Settings × Prunes
drop_leaf keys k none (rest, (nested, own)) = (rest, (nested, (keys ++ k ∷ []) ∷ own))
drop_leaf keys k (some x) (rest, p) = (leaf k (some x) rest, p)

abbrev pub drop_empty : Keys → String → Settings × Prunes → Settings × Prunes → Settings × Prunes
drop_empty keys k (empty, (n, o)) (rest, (nested, own)) =
    (rest, (nested ++ (n ++ o), (keys ++ k ∷ []) ∷ own))
drop_empty keys k (leaf j v r, (n, o)) (rest, (nested, own)) =
    (section k (leaf j v r) rest, (nested ++ (n ++ o), own))
drop_empty keys k (section j s r, (n, o)) (rest, (nested, own)) =
    (section k (section j s r) rest, (nested ++ (n ++ o), own))

unfoldable pub prune : Keys → Settings → Settings × Prunes
prune keys empty = (empty, ([], []))
prune keys (leaf k v rest) = drop_leaf keys k v (prune keys rest)
prune keys (section k s rest) = drop_empty keys k (prune (keys ++ k ∷ []) s) (prune keys rest)
