-- ===== src/BroadcastMgr/Clear.antt =====
-- cylc/flow/broadcast_mgr.py: clear_broadcast, _get_bad_options and expire_broadcast.
pub mod Cleared
pub mod Pruned
pub mod Expired
use cylc_flow.Prelude.{
  String, Bool, true, false, not, ◌&&◌, Option, none, some, List, [], ◌∷◌, ◌++◌, any, filter,
  contains, if◌then◌else◌, ◌==◌, string_eq,
}
use cylc_flow.Prelude.Result.{Result, ok, err, ◌>>=◌, or_raise}
use cylc_flow.BroadcastMgr.{
  Item, text, Settings, empty, leaf, section, BroadcastError, attribute_error, point_error,
  same_texts, same_settings, Keys, both, leaves, settings_to_keys_list, is_cancelled, cancel, prune,
}
use cylc_flow.BroadcastMgr.Operations.{
  Row, db_put_broadcast, BroadcastMgr, Interface, BadOptions, uniq_from, uniq, same_row, delta_if,
  Changed,
}

-- `not options or x in options`
abbrev pub is_given : List String → String → Bool
is_given [] x = true
is_given (y ∷ ys) x = contains (y ∷ ys) x

-- `{key: value}`, in a dictionary for each of the other keys
abbrev pub nest : Keys → Option Item → Settings
nest [] v = empty
nest (k ∷ []) v = leaf k v empty
nest (k ∷ j ∷ ks) v = section k (nest (j ∷ ks) v) empty

unfoldable pub cancelled_rows :
    Interface → List Keys → String → String → List (Keys × Option Item) → List Row
cancelled_rows i cancel_keys point namespace [] = []
cancelled_rows i cancel_keys point namespace ((path, v) ∷ rest) =
    let rows = cancelled_rows i cancel_keys point namespace rest in
    if is_cancelled cancel_keys path
    then (point, namespace, nest path (some (text (i.value_text v)))) ∷ rows
    else rows

unfoldable pub clear_namespaces :
    Interface
    → List String
    → List Keys
    → String
    → Settings
    → Result BroadcastError (Settings × List Row)
unfolding leaves cancel cancelled_rows
clear_namespaces i namespaces cancel_keys point empty = ok (empty, [])
clear_namespaces i namespaces cancel_keys point (leaf namespace v rest) =
    if is_given namespaces namespace
    then err attribute_error
    else clear_namespaces i namespaces cancel_keys point rest >>= λ cleared.
        ok (leaf namespace v cleared.0, cleared.1)
clear_namespaces i namespaces cancel_keys point (section namespace d rest) =
    clear_namespaces i namespaces cancel_keys point rest >>= λ cleared. ok (
      if is_given namespaces namespace
      then (
        section namespace (cancel cancel_keys [] d) cleared.0,
        cancelled_rows i cancel_keys point namespace (both (leaves [] d)) ++ cleared.1,
      )
      else (section namespace d cleared.0, cleared.1))

unfoldable pub clear_points :
    Interface
    → List String
    → List String
    → List Keys
    → Settings
    → Result BroadcastError (Settings × List Row)
unfolding clear_namespaces
clear_points i points namespaces cancel_keys empty = ok (empty, [])
clear_points i points namespaces cancel_keys (leaf point v rest) =
    if is_given points point
    then err attribute_error
    else clear_points i points namespaces cancel_keys rest >>= λ cleared.
        ok (leaf point v cleared.0, cleared.1)
clear_points i points namespaces cancel_keys (section point t rest) =
    if is_given points point
    then (clear_namespaces i namespaces cancel_keys point t >>= λ first.
        clear_points i points namespaces cancel_keys rest >>= λ cleared.
        ok (section point first.0 cleared.0, first.1 ++ cleared.1))
    else clear_points i points namespaces cancel_keys rest >>= λ cleared.
        ok (section point t cleared.0, cleared.1)

abbrev pub point_string_in_prune : String → Keys → Bool
point_string_in_prune point [] = false
point_string_in_prune point (p ∷ keys) = point == p

abbrev pub namespace_in_prune : String → Keys → Bool
namespace_in_prune namespace (p ∷ n ∷ keys) = namespace == n
namespace_in_prune namespace _ = false

abbrev pub cancel_keys_in_prune : Keys → Keys → Bool
cancel_keys_in_prune cancel_keys (p ∷ n ∷ k ∷ keys) = same_texts cancel_keys (k ∷ keys)
cancel_keys_in_prune cancel_keys _ = false

-- The options that no prune has.
abbrev pub bad_option {ℓ} :
    {A : Type ℓ} → (A → A → Bool) → (A → Keys → Bool) → List Keys → List A → List A
bad_option same test prunes options =
    filter (λ option. not (any (test option) prunes)) (uniq same options)

abbrev pub get_bad_options : List Keys → List String → List String → List Keys → BadOptions
get_bad_options prunes points namespaces cancel_keys = record {
  bad_settings = [];
  bad_point_strings = bad_option (λ a b. a == b) point_string_in_prune prunes points;
  bad_namespaces = bad_option (λ a b. a == b) namespace_in_prune prunes namespaces;
  bad_cancel = bad_option same_texts cancel_keys_in_prune prunes cancel_keys;
  bad_expire = [];
}

-- Each row nests a value in its keys, so that writing the rows does not raise.
unfoldable pub finish_clear :
    BroadcastMgr → List String → List String → List Keys → Settings × List Row → Changed
unfolding prune same_settings uniq_from
finish_clear mgr points namespaces cancel_keys (cleared, rows) =
    let (pruned, prunes) = prune [] cleared in
    (
      record mgr {
        broadcasts = pruned;
        effects = mgr.effects ++ db_put_broadcast rows true ∷ delta_if rows;
      },
      uniq same_row rows,
      get_bad_options (both prunes) points namespaces cancel_keys,
    )

unfoldable pub clear_broadcast :
    Interface
    → BroadcastMgr
    → List String
    → List String
    → List Settings
    → Result BroadcastError Changed
unfolding clear_points settings_to_keys_list finish_clear
clear_broadcast i mgr points namespaces cancel_settings =
    let cancel_keys = settings_to_keys_list cancel_settings in
    clear_points i points namespaces cancel_keys mgr.broadcasts >>= λ cleared.
    ok (finish_clear mgr points namespaces cancel_keys cleared)

abbrev pub all_cycles : List String
all_cycles = "*" ∷ "all-cycle-points" ∷ "all-cycles" ∷ []

-- `cutoff_point is None or (point_string not in ALL_CYCLE_POINTS_STRS and get_point(point_string) < cutoff_point)`,
-- where the comparison raises for a point that does not parse
abbrev pub is_expired : Interface → Option String → String → Result BroadcastError Bool
is_expired i none point = ok true
is_expired i (some cutoff) point =
    if contains all_cycles point then ok false else or_raise point_error (i.is_before point cutoff)

abbrev pub keep_if : Bool → String → List String → List String
keep_if expired point points = if expired then point ∷ points else points

unfoldable pub expired_points :
    Interface → Option String → Settings → Result BroadcastError (List String)
expired_points i cutoff empty = ok []
expired_points i cutoff (leaf point v rest) = is_expired i cutoff point >>= λ expired.
    expired_points i cutoff rest >>= λ points. ok (keep_if expired point points)
expired_points i cutoff (section point t rest) = is_expired i cutoff point >>= λ expired.
    expired_points i cutoff rest >>= λ points. ok (keep_if expired point points)

-- No settings, with the cutoff as a bad option.
abbrev pub not_expired : Option String → BadOptions
not_expired cutoff = record {
  bad_settings = [];
  bad_point_strings = [];
  bad_namespaces = [];
  bad_cancel = [];
  bad_expire = cutoff ∷ [];
}

-- `clear_broadcast`, or `None` when there are no points.
abbrev pub ExpiredBroadcasts : Type 0
ExpiredBroadcasts = BroadcastMgr × Option (List Row) × BadOptions

unfoldable pub expire_points :
    Interface → BroadcastMgr → Option String → List String → Result BroadcastError ExpiredBroadcasts
unfolding clear_broadcast
expire_points i mgr cutoff [] = ok (mgr, none, not_expired cutoff)
expire_points i mgr cutoff (point ∷ points) =
    clear_broadcast i mgr (point ∷ points) [] [] >>= λ changed.
    ok (changed.0, some changed.1, changed.2)

unfoldable pub expire_broadcast :
    Interface → BroadcastMgr → Option String → Result BroadcastError ExpiredBroadcasts
unfolding expired_points expire_points
expire_broadcast i mgr cutoff =
    expired_points i cutoff mgr.broadcasts >>= λ points. expire_points i mgr cutoff points
