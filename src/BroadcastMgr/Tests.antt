-- ===== src/BroadcastMgr/Tests.antt =====
-- Runs of the broadcast manager at concrete inputs.
use cylc_flow.Prelude.{
  ◌≡◌, refl, subst, inl, inr, String, Bool, true, false, not, ◌&&◌, ◌||◌, Option, none, some, List,
  [], ◌∷◌, All, IsNodup, if◌then◌else◌, ◌==◌, string_eq, nat_eq, String_discrete, ℕ_discrete, arith,
  Bool-cases,
}
use cylc_flow.Prelude.Assoc.{Assoc, keys, get, has}
use cylc_flow.Prelude.Result.{ok, err, ◌>>=◌}
use cylc_flow.Prelude.Int.{int_eq}
use cylc_flow.BroadcastMgr.{
  Item, text, Settings, empty, leaf, section, point_error, runtime_error, Keys,
  settings_to_keys_list,
}
use cylc_flow.BroadcastMgr.Dict.{or_else, find, has_key, Shape, under, HasShape, whole}
use cylc_flow.BroadcastMgr.Operations.{Changed, BroadcastMgr, Interface, put_broadcast}
use cylc_flow.BroadcastMgr.Operations.Rows.{IsReportable}
use cylc_flow.BroadcastMgr.Operations.Overrides.{IsSound, IsPut, put_broadcast-IsPut}
use cylc_flow.BroadcastMgr.Operations.Reports.{In, IsAccepted, IsWritten, put_broadcast-IsWritten}
use cylc_flow.Prelude.{inl, inr}
use cylc_flow.BroadcastMgr.Clear.{clear_broadcast, expire_broadcast}
use cylc_flow.BroadcastMgr.Clear.Cleared.{IsCleared, clear_broadcast-IsCleared}
use cylc_flow.BroadcastMgr.Clear.Expired.{Compares, IsKept, expire_broadcast-IsKept}
use cylc_flow.BroadcastMgr.Lookup.{get_broadcast}
use cylc_flow.BroadcastMgr.Lookup.Order.{first_broadcast, get_broadcast-eq-first_broadcast}
use cylc_flow.BroadcastMgr.Keys.{change_from, load_db_broadcast_states}
use cylc_flow.BroadcastMgr.Keys.Text.{nest_in, IsPrintable}
use cylc_flow.BroadcastMgr.Keys.Load.{load_db_broadcast_states-change_from}
use cylc_flow.BroadcastMgr.ExtTriggers.{check_ext_triggers}
use cylc_flow.BroadcastMgr.ExtTriggers.Conserved.{
  IsCounted, IsChecked, check_ext_triggers-IsChecked,
}
use cylc_flow.Prelude.Result.{Returns}

abbrev shape : Shape
shape [] = true
shape (k ∷ []) = k == "environment"
shape _ = false

unfoldable is_shaped : Shape → Settings → Bool
unfolding has_key
is_shaped sh empty = true
is_shaped sh (leaf k v rest) = not (sh (k ∷ [])) && (not (has_key rest k) && is_shaped sh rest)
is_shaped sh (section k s rest) =
    sh (k ∷ []) && (not (has_key rest k) && (is_shaped (under k sh) s && is_shaped sh rest))

is_shaped-HasShape : (sh : Shape) (s : Settings) → is_shaped sh s ≡ true → HasShape sh s
unfolding is_shaped HasShape
is_shaped-HasShape sh empty h = tt
is_shaped-HasShape sh (leaf k v rest) h =
    (ground arith, ground arith, is_shaped-HasShape sh rest (ground arith))
is_shaped-HasShape sh (section k s rest) h = (
  ground arith,
  ground arith,
  is_shaped-HasShape (under k sh) s (ground arith),
  is_shaped-HasShape sh rest (ground arith),
)

abbrev i : Interface
unfolding is_shaped
i = record {
  validate = λ s. if is_shaped shape s then some s else none;
  is_workflow_only = false;
  standardise_point_string = λ p. if p == "1" || p == "2" then some p else none;
  mixes = λ namespace old new. false;
  is_before = λ p q. if p == "1" || p == "2" then some (p == "1" && q == "2") else none;
  comes_before = λ a b. true;
  value_text = λ v. "text";
}

validate-HasShape :
    (s c : Settings) → (if is_shaped shape s then some s else none) ≡ some c → HasShape shape c
validate-HasShape s c h = elim (Bool-cases (is_shaped shape s)) [
  | inl shaped ↦
      let same : s ≡ c = ground arith in
      subst (HasShape shape) same (is_shaped-HasShape shape s shaped)
  | inr other ↦ absurd (ground arith)
]

i-IsSound : IsSound i shape
unfolding IsSound i is_shaped
i-IsSound = (refl, validate-HasShape)

abbrev word : String → Option Item
word s = some (text s)

abbrev old : Settings
old = section "*" (section "root" (leaf "script" (word "true") empty) empty) (
    section "1"
      (section "foo" (section "environment" (leaf "A" (word "x") (leaf "B" (word "y") empty)) empty)
        empty)
      empty)

abbrev mgr : BroadcastMgr
mgr = record {
  linearized_ancestors = ("root", "root" ∷ []) ∷ ("foo", "foo" ∷ "root" ∷ []) ∷ [];
  broadcasts = old;
  ext_triggers = [];
  effects = [];
}

abbrev given : List Settings
given =
    section "environment" (leaf "A" (word "z") empty) empty
    ∷ leaf "script" (word "false") empty
    ∷ leaf "environment" none empty
    ∷ []

old-HasShape : HasShape (whole shape) old
unfolding is_shaped has_key String_discrete
old-HasShape = is_shaped-HasShape (whole shape) old refl

given-IsReportable : All IsReportable given
unfolding IsReportable
given-IsReportable = (tt, (tt, (tt, tt)))

put_broadcast-IsPut_example :
    Returns
      (IsPut i shape mgr)
      (put_broadcast i mgr ("*" ∷ "1" ∷ "x" ∷ []) ("foo" ∷ "bar" ∷ []) given)
put_broadcast-IsPut_example =
    put_broadcast-IsPut i shape mgr ("*" ∷ "1" ∷ "x" ∷ []) ("foo" ∷ "bar" ∷ []) given i-IsSound
      old-HasShape given-IsReportable

clear_broadcast-IsCleared_example :
    Returns
      (λ changed.
        IsCleared shape ("1" ∷ "2" ∷ []) [] (settings_to_keys_list given) old changed.0.broadcasts)
      (clear_broadcast i mgr ("1" ∷ "2" ∷ []) [] given)
clear_broadcast-IsCleared_example =
    clear_broadcast-IsCleared i shape mgr ("1" ∷ "2" ∷ []) [] given refl old-HasShape

abbrev earlier : String → Bool
earlier p = p == "1"

old-Compares : Compares i (some "2") earlier old
unfolding Compares i has_key is_shaped String_discrete
old-Compares p h k = elim (Bool-cases (p == "1")) [
  | inl e ↦ rw e refl
  | inr e ↦ absurd (ground arith)
]

expire_broadcast-IsKept_example :
    Returns
      (λ expired. IsKept (some "2") earlier old expired.0.broadcasts)
      (expire_broadcast i mgr (some "2"))
expire_broadcast-IsKept_example =
    expire_broadcast-IsKept i shape mgr (some "2") earlier refl old-HasShape old-Compares

-- A point that does not compare with the cutoff: an exception.
unread :
    expire_broadcast i (record mgr { broadcasts = section "x" empty old }) (some "2")
    ≡ err point_error
unfolding expire_broadcast i is_shaped String_discrete
unread = refl

-- A setting with no value: an exception, where the rows are written.
valueless :
    put_broadcast i mgr ("1" ∷ []) ("foo" ∷ []) (section "environment" empty empty ∷ [])
    ≡ err runtime_error
unfolding put_broadcast i is_shaped String_discrete has
valueless = refl

get_broadcast-eq-first_broadcast_example :
    Returns
      (λ ret.
        (q : Keys)
        → find q ret
          ≡ first_broadcast old
              ("1" ∷ "all-cycles" ∷ "all-cycle-points" ∷ "*" ∷ [])
              ("foo" ∷ "root" ∷ [])
              q)
      (get_broadcast old mgr.linearized_ancestors "1" "foo")
unfolding get String_discrete
get_broadcast-eq-first_broadcast_example =
    get_broadcast-eq-first_broadcast shape old mgr.linearized_ancestors "1" "foo"
      ("foo" ∷ "root" ∷ []) refl old-HasShape refl

printable : IsPrintable ("environment" ∷ []) "A"
unfolding IsPrintable ℕ_discrete
printable = (refl, refl, refl)

row-HasShape : HasShape shape (nest_in ("environment" ∷ []) "A" (word "z"))
unfolding HasShape nest_in String_discrete
row-HasShape = (refl, refl, (refl, refl, tt), tt)

load_db_broadcast_states-change_from_example :
    (keys_str : String) × (change_from String.[] (nest_in ("environment" ∷ []) "A" none)
      ≡ some (keys_str, none))
    × Returns
        (λ b'.
          HasShape (whole shape) b'
          × ((p n : String) (q : Keys)
              → find (p ∷ n ∷ q) b' ≡ (
                  if p == "1" && n == "foo"
                  then or_else
                      (find q (nest_in ("environment" ∷ []) "A" (word "z")))
                      (find (p ∷ n ∷ q) old)
                  else find (p ∷ n ∷ q) old)))
        (load_db_broadcast_states old "1" "foo" keys_str "z")
load_db_broadcast_states-change_from_example =
    load_db_broadcast_states-change_from shape old "1" "foo" ("environment" ∷ []) "A" none "z" refl
      old-HasShape row-HasShape printable

-- A setting that is put for "root" at every cycle, behind the task's own at its cycle.
put_then_get :
    (put_broadcast i mgr
        ("*" ∷ "x" ∷ [])
        ("root" ∷ "bar" ∷ [])
        (section "environment" (leaf "A" (word "0") (leaf "C" (word "c") empty)) empty ∷ [])
      >>= λ c. get_broadcast c.0.broadcasts mgr.linearized_ancestors "1" "foo")
    ≡ ok (
        leaf "script" (word "true") (
          section "environment"
            (leaf "A" (word "x") (leaf "C" (word "c") (leaf "B" (word "y") empty)))
            empty))
unfolding put_broadcast get_broadcast i is_shaped String_discrete has
put_then_get = refl

abbrev summary : Changed → Settings × List String
summary (changed, rows, bad) = (changed.broadcasts, bad.bad_namespaces)

cleared :
    (clear_broadcast i mgr [] ("foo" ∷ "bar" ∷ []) given >>= λ c. ok (summary c))
    ≡ ok (
      section "*" (section "root" (leaf "script" (word "true") empty) empty) (
          section "1"
            (section "foo" (section "environment" (leaf "B" (word "y") empty) empty) empty)
            empty),
      "bar" ∷ [],
    )
unfolding clear_broadcast String_discrete
cleared = refl

abbrev waiting : BroadcastMgr
waiting = record mgr { ext_triggers = (("data arrived", some "7"), 1) ∷ [] }

counted : IsCounted waiting.ext_triggers
unfolding IsCounted
counted = (omega arith, tt)

abbrev triggers : Assoc String Bool
triggers = ("started", true) ∷ ("data arrived", false) ∷ []

triggers-IsNodup : IsNodup (keys triggers)
unfolding String_discrete
triggers-IsNodup = (refl, (refl, tt))

check_ext_triggers-IsChecked_example :
    Returns
      (IsChecked shape waiting triggers (("data arrived", some "8") ∷ []))
      (check_ext_triggers i waiting "1" triggers (("data arrived", some "8") ∷ []))
check_ext_triggers-IsChecked_example =
    check_ext_triggers-IsChecked i shape waiting "1" triggers (("data arrived", some "8") ∷ [])
      i-IsSound old-HasShape counted triggers-IsNodup

accepted :
    IsAccepted i mgr.linearized_ancestors
      (leaf "script" (word "false") empty)
      (leaf "script" (word "false") empty)
      "1"
      "1"
      "foo"
unfolding IsAccepted i is_shaped has_key has String_discrete
accepted = (refl, refl, refl, refl, λ d. refl)

a_setting : In (leaf "script" (word "false") empty) given
unfolding In
a_setting = inr (inl refl)

a_point : In {A = String} "1" ("*" ∷ "1" ∷ [])
unfolding In
a_point = inr (inl refl)

a_namespace : In {A = String} "foo" ("foo" ∷ "bar" ∷ [])
unfolding In
a_namespace = inl refl

put_broadcast-IsWritten_example :
    Returns
      (λ changed.
        IsPut i shape mgr changed
        × IsWritten mgr ("1", "foo", leaf "script" (word "false") empty) changed)
      (put_broadcast i mgr ("*" ∷ "1" ∷ []) ("foo" ∷ "bar" ∷ []) given)
put_broadcast-IsWritten_example =
    put_broadcast-IsWritten i shape mgr ("*" ∷ "1" ∷ []) ("foo" ∷ "bar" ∷ []) given
      (leaf "script" (word "false") empty) (leaf "script" (word "false") empty) "1" "1" "foo"
      i-IsSound old-HasShape given-IsReportable accepted a_setting a_point a_namespace
