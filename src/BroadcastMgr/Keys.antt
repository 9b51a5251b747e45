-- ===== src/BroadcastMgr/Keys.antt =====
-- cylc/flow/broadcast_report.py: the text of a setting's keys, which get_broadcast_change_iter writes for the
-- database, and BroadcastMgr.load_db_broadcast_states, which reads it.
pub mod Text
pub mod Load
use cylc_flow.Prelude.{
  String, Bool, true, false, ◌||◌, Option, none, some, List, [], ◌∷◌, if◌then◌else◌, ◌==◌,
  string_eq, nat_eq,
}
use cylc_flow.Prelude.Result.{Result, ok, err, ◌>>=◌}
use Prim.Native.Char.{Char, char, code}
use Prim.Native.String.{◌++◌ as ◌<>◌}
use cylc_flow.BroadcastMgr.{
  Item, text, Settings, empty, leaf, section, BroadcastError, type_error, attribute_error, missing,
  value, dict, find_key, set_leaf, set_section,
}

abbrev pub open_bracket : Char
open_bracket = char 91 tt

abbrev pub close_bracket : Char
close_bracket = char 93 tt

abbrev pub is_open : Char → Bool
is_open c = code c == 91

abbrev pub is_close : Char → Bool
is_close c = code c == 93

-- `"]" in s`
unfoldable pub has_close : String → Bool
has_close String.[] = false
has_close (String.◌∷◌ c s) = is_close c || has_close s

abbrev pub is_empty : String → Bool
is_empty String.[] = true
is_empty (String.◌∷◌ c s) = false

-- `"[" + key + "]"`
abbrev pub bracket : String → String
bracket key = String.◌∷◌ open_bracket (key <> String.◌∷◌ close_bracket String.[])

-- The key and the value of a change: those of the setting's first value. There is none in an empty dictionary, in
-- which the code raises.
unfoldable pub change_from : String → Settings → Option (String × Option Item)
change_from keys_str empty = none
change_from keys_str (leaf key v rest) = some (keys_str <> key, v)
change_from keys_str (section key s rest) = change_from (keys_str <> bracket key) s

-- `REC_SECTION.findall`, outside brackets, or inside them with what was read since the first.
unfoldable pub find_sections : Option String → String → List String
find_sections reading String.[] = []
find_sections none (String.◌∷◌ c s) =
    if is_open c then find_sections (some String.[]) s else find_sections none s
find_sections (some read) (String.◌∷◌ c s) =
    let outside = find_sections none s in
    let inside = find_sections (some (read <> String.◌∷◌ c String.[])) s in
    if is_close c then (if is_empty read then outside else read ∷ outside) else inside

-- `s.rsplit("]", 1)[-1]`
unfoldable pub after_last : String → String
unfolding has_close
after_last String.[] = String.[]
after_last (String.◌∷◌ c s) =
    let later = after_last s in
    if has_close s then later else if is_close c then s else String.◌∷◌ c s

-- The sections and the key that a text names.
unfoldable pub parse_key : String → List String × String
unfolding has_close find_sections after_last
parse_key key = if has_close key then (find_sections none key, after_last key) else ([], key)

-- A value is set in a dictionary of the dictionaries that the sections name, which are made when missing.
unfoldable pub set_in :
    List String → String → Option Item → Settings → Result BroadcastError Settings
unfolding find_key set_leaf set_section
set_in [] key v d = ok (set_leaf d key v)
set_in (s ∷ ss) key v d = elim (find_key d s) [
  | missing ↦ set_in ss key v empty >>= λ d'. ok (set_section d s d')
  | dict t ↦ set_in ss key v t >>= λ d'. ok (set_section d s d')
  | value w ↦ err (elim ss [ [] ↦ type_error | ◌∷◌ _ _ ↦ attribute_error ])
]

-- A row of the broadcasts in the database.
unfoldable pub load_db_broadcast_states :
    Settings → String → String → String → String → Result BroadcastError Settings
unfolding parse_key set_in
load_db_broadcast_states broadcasts point namespace key v =
    let (sections, cur_key) = parse_key key in
    set_in (point ∷ namespace ∷ sections) cur_key (some (text v)) broadcasts
