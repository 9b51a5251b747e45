-- ===== src/XtriggerMgr.antt =====
-- cylc/flow/xtrigger_mgr.py: class XtriggerManager, functions outside the workflow on which tasks wait. The context
-- of a function comes with its signature, its interval and, for a clock, its answer (Env); the time, the output of
-- a function and the pool of processes are arguments or effects. Names of triggers are labels.
pub mod Sound
pub mod Active
mod Tests
use cylc_flow.Prelude.{
  ℕ, ◌+◌, String, Bool, true, false, not, ◌&&◌, ◌||◌, Option, none, some, List, [], ◌∷◌, ◌++◌, map,
  contains, if◌then◌else◌, ◌==◌, string_eq, ltb,
}
use cylc_flow.Prelude.Assoc.{Assoc, get, put, has}
use cylc_flow.Prelude.Result.{Result, ok, err, ◌>>=◌, or_raise}
use mathlib.Core.Option
use cylc_flow.BroadcastMgr.{text, Settings, empty, leaf, section, BroadcastError}
use cylc_flow.BroadcastMgr.Operations.{BroadcastMgr, Interface, put_broadcast}
use cylc_flow.Prelude.Result.{fold_result}
use Prim.Native.String.{◌++◌ as ◌<>◌}

pub data XtriggerError : Type 0 where
  key_error value_error : XtriggerError
  broadcast_error : BroadcastError → XtriggerError

pub data Effect : Type 0 where
  delta_xtrigger : String → Effect
  put_xtriggers : String → Effect
  put_command : String → Effect
  delta_task_xtrigger : String → String → Bool → Effect

-- What a function returned, by key.
abbrev pub Results : Type 0
Results = Assoc String String

pub record XtriggerManager : Type 0 where
  pub labels : List String
  pub wall_clock_labels : List String
  pub t_next_call : Assoc String ℕ
  pub sat_xtrig : Assoc String Results
  pub active : List String
  pub do_housekeeping : Bool
  pub effects : List Effect

-- A task proxy's cycle point, name and triggers, with whether each is satisfied.
pub record TaskProxy : Type 0 where
  pub point : String
  pub name : String
  pub xtriggers : Assoc String Bool

-- `signature` is that of `get_xtrig_ctx`, with `none` for a label that is not defined.
pub record Env : Type 0 where
  pub signature : TaskProxy → String → Option String
  pub interval : String → ℕ
  pub wall_clock : String → Bool
  pub now : ℕ

-- `_get_xtrigs`: the labels, with their signatures.
unfoldable pub get_xtrigs :
    Env → TaskProxy → Bool → Assoc String Bool → Result XtriggerError (List (String × String))
get_xtrigs env itask unsat_only [] = ok []
get_xtrigs env itask unsat_only ((label, satisfied) ∷ rest) =
    let later = get_xtrigs env itask unsat_only rest in
    if unsat_only && satisfied
    then later
    else or_raise key_error (env.signature itask label) >>= λ sig.
        later >>= λ more. ok ((label, sig) ∷ more)

-- What `call_xtriggers_async` changes.
pub record Calling : Type 0 where
  pub mgr : XtriggerManager
  pub broadcasts : BroadcastMgr
  pub satisfied : Assoc String Bool

abbrev pub satisfy : String → Calling → Calling
satisfy label c = record c { satisfied = put c.satisfied label true }

-- A clock is read at once.
unfoldable pub call_clock : Env → Calling → String → String → Calling
unfolding has put
call_clock env c label sig =
    if has c.mgr.sat_xtrig sig
    then satisfy label c
    else if env.wall_clock sig
    then record (satisfy label c) {
      mgr = record c.mgr {
        sat_xtrig = put c.mgr.sat_xtrig sig [];
        do_housekeeping = true;
        effects = c.mgr.effects ++ delta_xtrigger sig ∷ put_xtriggers sig ∷ [];
      };
    }
    else c

-- Each result is broadcast, under the label and its key.
unfoldable pub xtrigger_env : String → Results → List Settings
xtrigger_env label [] = []
xtrigger_env label ((key, val) ∷ results) =
    section "environment" (leaf (label <> ("_" <> key)) (some (text val)) empty) empty
    ∷ xtrigger_env label results

abbrev pub lift {ℓ} : {A : Type ℓ} → Result BroadcastError A → Result XtriggerError A
lift (err e) = err (broadcast_error e)
lift (ok a) = ok a

unfoldable pub broadcast_results :
    Interface → TaskProxy → Calling → String → Results → Result XtriggerError Calling
unfolding put_broadcast xtrigger_env
broadcast_results i itask c label [] = ok c
broadcast_results i itask c label (result ∷ results) =
    lift (
      put_broadcast i c.broadcasts (itask.point ∷ []) (itask.name ∷ [])
        (xtrigger_env label (result ∷ results)))
    >>= λ changed. ok record c { broadcasts = changed.0 }

-- `if not itask.state.xtriggers[label]`
unfoldable pub call_satisfied :
    Interface → TaskProxy → Calling → String → Results → Option Bool → Result XtriggerError Calling
unfolding put broadcast_results
call_satisfied i itask c label results none = err key_error
call_satisfied i itask c label results (some true) = ok c
call_satisfied i itask c label results (some false) =
    broadcast_results i itask (satisfy label c) label results

abbrev pub is_too_soon : ℕ → Option ℕ → Bool
is_too_soon now none = false
is_too_soon now (some next_call) = ltb now next_call

unfoldable pub call_function : Env → Calling → String → String → Calling
unfolding get put
call_function env c label sig =
    if contains c.mgr.active sig || is_too_soon env.now (get c.mgr.t_next_call sig)
    then c
    else record c {
      mgr = record c.mgr {
        t_next_call = put c.mgr.t_next_call sig (env.now + env.interval label);
        active = c.mgr.active ++ sig ∷ [];
        effects = c.mgr.effects ++ put_command sig ∷ [];
      };
    }

unfoldable pub call_other :
    Interface
    → Env
    → TaskProxy
    → Calling
    → String
    → String
    → Option Results
    → Result XtriggerError Calling
unfolding get call_satisfied call_function
call_other i env itask c label sig none = ok (call_function env c label sig)
call_other i env itask c label sig (some results) =
    call_satisfied i itask c label results (get c.satisfied label)

unfoldable pub call_one :
    Interface → Env → TaskProxy → Calling → String × String → Result XtriggerError Calling
unfolding get call_clock call_other
call_one i env itask c (label, sig) =
    if contains c.mgr.wall_clock_labels label
    then ok (call_clock env c label sig)
    else call_other i env itask c label sig (get c.mgr.sat_xtrig sig)

unfoldable pub call_xtriggers_async :
    Interface → Env → XtriggerManager → BroadcastMgr → TaskProxy → Result XtriggerError Calling
unfolding get_xtrigs call_one fold_result
call_xtriggers_async i env mgr broadcasts itask =
    get_xtrigs env itask true itask.xtriggers >>= λ xtrigs.
    fold_result (call_one i env itask)
      (record { mgr = mgr; broadcasts = broadcasts; satisfied = itask.xtriggers }) xtrigs

-- `list.remove`
abbrev pub remove : List String → String → Option (List String)
remove [] sig = none
remove (s ∷ active) sig =
    let later = remove active sig in if sig == s then some active else Option.map (λ t. s ∷ t) later

-- The results, when the output of the function can be read and it succeeded.
abbrev pub record_results : XtriggerManager → String → Option (Bool × Results) → XtriggerManager
record_results mgr sig none = mgr
record_results mgr sig (some (false, results)) = mgr
record_results mgr sig (some (true, results)) = record mgr {
  sat_xtrig = put mgr.sat_xtrig sig results;
  do_housekeeping = true;
  effects = mgr.effects ++ delta_xtrigger sig ∷ put_xtriggers sig ∷ [];
}

unfoldable pub callback :
    XtriggerManager → String → Option (Bool × Results) → Result XtriggerError XtriggerManager
unfolding put
callback mgr sig out = or_raise value_error (remove mgr.active sig) >>= λ active.
    ok (record_results (record mgr { active = active }) sig out)

-- The signatures that the tasks wait on.
unfoldable pub all_xtrigs : Env → List TaskProxy → Result XtriggerError (List String)
unfolding get_xtrigs
all_xtrigs env [] = ok []
all_xtrigs env (itask ∷ itasks) = get_xtrigs env itask true itask.xtriggers >>= λ xtrigs.
    all_xtrigs env itasks >>= λ more. ok (map (λ x. x.1) xtrigs ++ more)

abbrev pub drop_unless {ℓ} : {A : Type ℓ} → (String → Bool) → Assoc String A → Assoc String A
drop_unless keep [] = []
drop_unless keep ((sig, a) ∷ rest) =
    let later = drop_unless keep rest in if keep sig then (sig, a) ∷ later else later

unfoldable pub housekeep :
    Env → XtriggerManager → List TaskProxy → Result XtriggerError XtriggerManager
unfolding all_xtrigs has
housekeep env mgr itasks = all_xtrigs env itasks >>= λ sigs. ok record mgr {
  sat_xtrig = drop_unless (contains sigs) mgr.sat_xtrig;
  t_next_call =
      drop_unless (λ sig. contains sigs sig || not (has mgr.sat_xtrig sig)) mgr.t_next_call;
  do_housekeeping = false;
}

unfoldable pub load_xtrigger_for_restart : XtriggerManager → String → Results → XtriggerManager
unfolding put
load_xtrigger_for_restart mgr sig results = record mgr {
  sat_xtrig = put mgr.sat_xtrig sig results;
  effects = mgr.effects ++ delta_xtrigger sig ∷ [];
}

-- All triggers of the task, when only `all` is named.
abbrev pub named_xtrigs : Assoc String Bool → List (String × Bool) → List (String × Bool)
named_xtrigs xtriggers ((label, satisfied) ∷ []) =
    if label == "all" then map (λ x. (x.0, satisfied)) xtriggers else (label, satisfied) ∷ []
named_xtrigs xtriggers xtrigs = xtrigs

abbrev pub same_bool : Bool → Bool → Bool
same_bool true b = b
same_bool false b = not b

-- The triggers of the task, and the calls on the data store.
abbrev pub Forced : Type 0
Forced = Assoc String Bool × List Effect

abbrev pub set_forced : Forced → String → String → Bool → Option Bool → Forced
set_forced (xtriggers, effects) label sig satisfied none = (xtriggers, effects)
set_forced (xtriggers, effects) label sig satisfied (some old) =
    if same_bool old satisfied
    then (xtriggers, effects)
    else (put xtriggers label satisfied, effects ++ delta_task_xtrigger label sig satisfied ∷ [])

unfoldable pub force_one :
    Env → List String → TaskProxy → Forced → String × Bool → Result XtriggerError Forced
unfolding get has put
force_one env labels itask forced (label, satisfied) =
    if not (has forced.0 label)
    then ok forced
    else if not (contains labels label)
    then ok (put forced.0 label satisfied, forced.1)
    else or_raise key_error (env.signature itask label) >>= λ sig.
        ok (set_forced forced label sig satisfied (get forced.0 label))

unfoldable pub force_satisfy :
    Env → XtriggerManager → TaskProxy → List (String × Bool) → Result XtriggerError Forced
unfolding force_one fold_result
force_satisfy env mgr itask xtrigs =
    fold_result (force_one env mgr.labels itask) (itask.xtriggers, [])
      (named_xtrigs itask.xtriggers xtrigs)

unfoldable pub force_satisfy_all : Env → XtriggerManager → TaskProxy → Result XtriggerError Forced
unfolding force_satisfy
force_satisfy_all env mgr itask =
    force_satisfy env mgr itask (map (λ x. (x.0, true)) itask.xtriggers)
