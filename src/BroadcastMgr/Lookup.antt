-- ===== src/BroadcastMgr/Lookup.antt =====
-- cylc/flow/broadcast_mgr.py: get_broadcast.
pub mod Order
use cylc_flow.Prelude.{String, List, [], ◌∷◌, ◌++◌, string_eq}
use cylc_flow.Prelude.Assoc.{Assoc, get}
use cylc_flow.Prelude.Result.{Result, ok, err, ◌>>=◌, or_raise}
use cylc_flow.BroadcastMgr.{
  Settings, empty, BroadcastError, key_error, type_error, attribute_error, Found, missing, value,
  dict, find_key, addict,
}
use cylc_flow.Prelude.Result.{fold_result}

abbrev pub reversed {ℓ} : {A : Type ℓ} → List A → List A
reversed [] = []
reversed (x ∷ xs) = reversed xs ++ x ∷ []

-- What a namespace has at a cycle is added.
abbrev pub add_found : Settings → Found → Result BroadcastError Settings
add_found ret missing = ok ret
add_found ret (dict d) = addict ret d
add_found ret (value v) = err attribute_error

abbrev pub add_namespace : Settings → Settings → String → Result BroadcastError Settings
add_namespace t ret namespace = add_found ret (find_key t namespace)

abbrev pub add_at :
    Assoc String (List String) → String → Settings → Found → Result BroadcastError Settings
add_at ancestors task ret missing = ok ret
add_at ancestors task ret (dict t) = or_raise key_error (get ancestors task) >>= λ namespaces.
    fold_result (add_namespace t) ret (reversed namespaces)
add_at ancestors task ret (value v) = err type_error

unfoldable pub add_cycle :
    Settings
    → Assoc String (List String)
    → String
    → Settings
    → String
    → Result BroadcastError Settings
unfolding find_key addict fold_result get
add_cycle broadcasts ancestors task ret cycle =
    add_at ancestors task ret (find_key broadcasts cycle)

-- `get_broadcast` of a task at a cycle
unfoldable pub get_broadcast :
    Settings → Assoc String (List String) → String → String → Result BroadcastError Settings
unfolding add_cycle fold_result
get_broadcast broadcasts ancestors cycle task =
    fold_result (add_cycle broadcasts ancestors task) empty
      ("*" ∷ "all-cycle-points" ∷ "all-cycles" ∷ cycle ∷ [])
