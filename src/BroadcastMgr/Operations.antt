-- ===== src/BroadcastMgr/Operations.antt =====
-- cylc/flow/broadcast_mgr.py: the state of BroadcastMgr and put_broadcast.
pub mod Overrides
pub mod Rows
pub mod Reports
use cylc_flow.Prelude.{
  ℕ, String, Bool, true, false, not, ◌&&◌, Option, none, some, List, [], ◌∷◌, ◌++◌, any, contains,
  if◌then◌else◌, ◌==◌, string_eq,
}
use cylc_flow.Prelude.Assoc.{Assoc, has}
use cylc_flow.Prelude.Result.{Result, ok, err, ◌>>=◌, or_raise}
use cylc_flow.BroadcastMgr.{
  Item, Settings, empty, BroadcastError, key_error, type_error, runtime_error, Found, missing,
  value, dict, find_key, set_section, addict, same_settings, Keys,
}
use cylc_flow.BroadcastMgr.Dict.{has_key}
use cylc_flow.BroadcastMgr.Keys.{change_from}
use cylc_flow.Prelude.Result.{fold_result}

abbrev pub Row : Type 0
Row = String × String × Settings

-- An external trigger, by its message and its identity.
abbrev pub ExtTrigger : Type 0
ExtTrigger = String × Option String

pub data Effect : Type 0 where
  db_put_broadcast : List Row → Bool → Effect
  delta_broadcast : Effect
  delta_task_ext_trigger : Option String → String → Effect

pub record BroadcastMgr : Type 0 where
  pub linearized_ancestors : Assoc String (List String)
  pub broadcasts : Settings
  pub ext_triggers : Assoc ExtTrigger ℕ
  pub effects : List Effect

-- Values stand in sections of namespaces only: one in place of a dictionary of a point or of a namespace is
-- taken to raise.

-- What the manager calls. `validate` is BroadcastConfigValidator().validate, with the coerced settings;
-- `mixes` is whether the coerced settings of a namespace, over its configuration and its existing
-- broadcasts, conflict; `is_before` orders points, or raises, as `none`; `comes_before` orders texts; `value_text` is `listjoin` or `str`.
pub record Interface : Type 0 where
  pub validate : Settings → Option Settings
  pub is_workflow_only : Bool
  pub standardise_point_string : String → Option String
  pub mixes : String → Settings → Settings → Bool
  pub is_before : String → String → Option Bool
  pub comes_before : String → String → Bool
  pub value_text : Option Item → String

pub record BadOptions : Type 0 where
  pub bad_settings : List Settings
  pub bad_point_strings : List String
  pub bad_namespaces : List String
  pub bad_cancel : List Keys
  pub bad_expire : List (Option String)

unfoldable pub uniq_from {ℓ} : {A : Type ℓ} → (A → A → Bool) → List A → List A → List A
uniq_from same ret [] = ret
uniq_from same ret (x ∷ xs) =
    if any (same x) ret then uniq_from same ret xs else uniq_from same (ret ++ x ∷ []) xs

abbrev pub uniq {ℓ} : {A : Type ℓ} → (A → A → Bool) → List A → List A
uniq same = uniq_from same []

abbrev pub same_row : Row → Row → Bool
same_row (p, n, s) (p', n', s') = p == p' && n == n' && same_settings s s'

abbrev insert_sorted : (String → String → Bool) → String → List String → List String
insert_sorted before x [] = x ∷ []
insert_sorted before x (y ∷ ys) = if before y x then y ∷ insert_sorted before x ys else x ∷ y ∷ ys

abbrev pub sorted : (String → String → Bool) → List String → List String
sorted before [] = []
sorted before (x ∷ xs) = insert_sorted before x (sorted before xs)

-- `set.add`
abbrev pub add_once : String → List String → List String
add_once x xs = if contains xs x then xs else xs ++ x ∷ []

-- The variables of `put_broadcast`.
pub record Put : Type 0 where
  pub put_broadcasts : Settings
  pub modified_settings : List Row
  pub refused_settings : List Settings
  pub refused_points : List String
  pub refused_namespaces : List String

abbrev pub refuse : Settings → Put → Put
refuse setting put = record put { refused_settings = put.refused_settings ++ setting ∷ [] }

-- `self.broadcasts[point_string].get(namespace, {})`
abbrev pub existing_of : Found → Result BroadcastError Settings
existing_of missing = ok empty
existing_of (dict d) = ok d
existing_of (value v) = err type_error

abbrev pub existing : Settings → String → Result BroadcastError Settings
existing t namespace = existing_of (find_key t namespace)

unfoldable pub put_settings :
    Interface → Settings → Settings → String → String → Settings → Put → Result BroadcastError Put
unfolding find_key set_section addict
put_settings i setting coerced point namespace t put = existing t namespace >>= λ d.
    if i.mixes namespace d coerced
    then ok (refuse setting put)
    else addict d coerced >>= λ d'. ok record put {
      put_broadcasts = set_section put.put_broadcasts point (set_section t namespace d');
      modified_settings = put.modified_settings ++ (point, namespace, setting) ∷ [];
    }

-- The rest of the round, by what `self.broadcasts` has for the point.
abbrev pub put_found :
    Interface → Settings → Settings → String → String → Put → Found → Result BroadcastError Put
put_found i setting coerced point namespace put missing =
    if i.mixes namespace empty coerced then ok (refuse setting put) else err key_error
put_found i setting coerced point namespace put (dict t) =
    put_settings i setting coerced point namespace t put
put_found i setting coerced point namespace put (value v) = err type_error

unfoldable pub put_namespace :
    Interface
    → Assoc String (List String)
    → Settings
    → Settings
    → String
    → Bool
    → Put
    → String
    → Result BroadcastError Put
unfolding put_settings find_key
put_namespace i ancestors setting coerced point bad_point put namespace =
    if not (has ancestors namespace)
    then ok record put { refused_namespaces = add_once namespace put.refused_namespaces }
    else if bad_point
    then ok put
    else put_found i setting coerced point namespace put (find_key put.put_broadcasts point)

-- The point as it is kept, and whether it is bad.
abbrev pub standard_point : Interface → String → String × Bool
standard_point i point_string = elim (i.standardise_point_string point_string) [
  | none ↦ (point_string, not (point_string == "*"))
  | some point ↦ (point, false)
]

abbrev pub add_point : String → Bool → Put → Put
add_point point true put = record put { refused_points = add_once point put.refused_points }
add_point point false put =
    if has_key put.put_broadcasts point
    then put
    else record put { put_broadcasts = set_section put.put_broadcasts point empty }

unfoldable pub put_point :
    Interface
    → Assoc String (List String)
    → List String
    → Settings
    → Settings
    → Put
    → String
    → Result BroadcastError Put
unfolding has_key set_section put_namespace fold_result
put_point i ancestors namespaces setting coerced put point_string =
    let (point, bad_point) = standard_point i point_string in
    fold_result (put_namespace i ancestors setting coerced point bad_point)
      (add_point point bad_point put) namespaces

-- A setting that the validator refuses, or with its coerced form.
unfoldable pub put_validated :
    Interface
    → Assoc String (List String)
    → List String
    → List String
    → Put
    → Settings
    → Option Settings
    → Result BroadcastError Put
unfolding has_key put_point fold_result
put_validated i ancestors points namespaces put setting none = ok (refuse setting put)
put_validated i ancestors points namespaces put setting (some coerced) =
    if has_key coerced "run mode" && i.is_workflow_only
    then ok (refuse setting put)
    else fold_result (put_point i ancestors namespaces setting coerced) put points

unfoldable pub put_setting :
    Interface
    → Assoc String (List String)
    → List String
    → List String
    → Put
    → Settings
    → Result BroadcastError Put
unfolding put_validated
put_setting i ancestors points namespaces put setting =
    put_validated i ancestors points namespaces put setting (i.validate setting)

abbrev pub delta_if : List Row → List Effect
delta_if [] = []
delta_if (row ∷ rows) = delta_broadcast ∷ []

abbrev pub Changed : Type 0
Changed = BroadcastMgr × List Row × BadOptions

-- `get_broadcast_change_iter`, which raises for a setting that has no first value.
unfoldable pub check_rows : List Row → Result BroadcastError (Unit {0})
unfolding change_from
check_rows [] = ok tt
check_rows ((point, namespace, setting) ∷ rows) =
    or_raise runtime_error (change_from "" setting) >>= λ change. check_rows rows

-- The rows are written once the broadcasts are changed. An exception carries no state.
unfoldable pub finish_put : Interface → BroadcastMgr → Put → Result BroadcastError Changed
unfolding check_rows uniq_from same_settings
finish_put i mgr put = check_rows put.modified_settings >>= λ checked. ok (
  record mgr {
    broadcasts = put.put_broadcasts;
    effects =
        mgr.effects
        ++ db_put_broadcast put.modified_settings false ∷ delta_if put.modified_settings;
  },
  uniq same_row put.modified_settings,
  record {
    bad_settings = uniq same_settings put.refused_settings;
    bad_point_strings = sorted i.comes_before put.refused_points;
    bad_namespaces = sorted i.comes_before put.refused_namespaces;
    bad_cancel = [];
    bad_expire = [];
  },
)

unfoldable pub put_broadcast :
    Interface
    → BroadcastMgr
    → List String
    → List String
    → List Settings
    → Result BroadcastError Changed
unfolding put_setting finish_put fold_result
put_broadcast i mgr points namespaces settings =
    fold_result (put_setting i mgr.linearized_ancestors points namespaces)
      record {
        put_broadcasts = mgr.broadcasts;
        modified_settings = [];
        refused_settings = [];
        refused_points = [];
        refused_namespaces = [];
      }
      settings
    >>= λ put. finish_put i mgr put
