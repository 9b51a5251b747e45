-- ===== src/BroadcastMgr/Keys/Load.antt =====
-- A broadcast that is written to the database and loaded again.
use cylc_flow.Prelude.{
  ◌≡◌, refl, ◌∙◌, ap, String, true, ◌&&◌, Option, none, some, List, [], ◌∷◌, if◌then◌else◌, ◌==◌,
  string_eq, nat_eq, arith,
}
use cylc_flow.Prelude.Result.{ok, err, ◌>>=◌}
use cylc_flow.Prelude.Int.{int_eq}
use cylc_flow.BroadcastMgr.{
  Item, text, Settings, empty, leaf, section, type_error, attribute_error, Found, missing, value,
  dict, find_key, set_section, addict, Keys,
}
use cylc_flow.BroadcastMgr.Dict.{or_else, find, Shape, under, HasShape, whole}
use cylc_flow.BroadcastMgr.Overlay.{FoundAs, find_key-FoundAs, addict-Adds}
use cylc_flow.BroadcastMgr.Keys.{change_from, set_in, load_db_broadcast_states}
use cylc_flow.BroadcastMgr.Keys.Text.{
  nest_in, keys_text, IsPrintable, change-keys_text, parse_key-keys_text,
}
use cylc_flow.Prelude.Result.{Returns}

-- To set a value in sections is to add a dictionary with that value only.
set_in-addict :
    (shape : Shape) (ss : List String) (key : String) (v : Option Item) (d : Settings)
    → HasShape shape d
    → HasShape shape (nest_in ss key v)
    → set_in ss key v d ≡ addict d (nest_in ss key v)
unfolding set_in addict nest_in HasShape FoundAs
set_in-addict shape [] key v d h k = refl
set_in-addict shape (s ∷ ss) key v d h (a, b, c, e) =
    go (λ t ht. set_in-addict (under s shape) ss key v t ht c) (find_key d s)
      (find_key-FoundAs shape d s h a)
  where
    go :
        ((t : Settings)
          → HasShape (under s shape) t
          → set_in ss key v t ≡ addict t (nest_in ss key v))
        → (f : Found) → FoundAs shape d s f
        → elim f [
          | missing ↦ set_in ss key v empty >>= λ d'. ok (set_section d s d')
          | dict t ↦ set_in ss key v t >>= λ d'. ok (set_section d s d')
          | value w ↦ err (elim ss [ [] ↦ type_error | ◌∷◌ _ _ ↦ attribute_error ])
        ]
          ≡ elim f [
            | missing ↦ addict empty (nest_in ss key v) >>= λ d'. ok (set_section d s d')
            | dict t ↦ addict t (nest_in ss key v) >>= λ d'. ok (set_section d s d')
            | value w ↦ elim (nest_in ss key v) [
              | empty ↦ ok d
              | leaf k w r ↦ err type_error
              | section k s r ↦ err type_error
            ]
          ]
    go inner missing g = ap (λ r. r >>= λ d'. ok (set_section d s d')) (inner empty tt)
    go inner (dict t) (ht, g) = ap (λ r. r >>= λ d'. ok (set_section d s d')) (inner t ht)
    go inner (value w) g = absurd g

find-section :
    (k : String) (d : Settings) (q : String) (qs : Keys)
    → find (q ∷ qs) (section k d empty) ≡ (if q == k then find qs d else none)
unfolding find
find-section k d q qs = refl

find-nested :
    (point namespace : String) (d b : Settings) (p n : String) (q : Keys)
    → or_else
        (find (p ∷ n ∷ q) (section point (section namespace d empty) empty))
        (find (p ∷ n ∷ q) b)
      ≡ (if p == point && n == namespace
          then or_else (find q d) (find (p ∷ n ∷ q) b)
          else find (p ∷ n ∷ q) b)
find-nested point namespace d b p n q =
    ground (
      arith,
      find-section point (section namespace d empty) p (n ∷ q),
      find-section namespace d n q,
    )

-- A dictionary with a single value, in the shape of the configuration, whose keys can be told apart in a text,
-- is written to the database with the text of its keys and that value. When a row with this text and a
-- text of the value is loaded, into broadcasts in the same shape, nothing is raised, the shape is kept, and the text
-- of the value stands at the same keys of the row's point and namespace, with all other settings as they were.
pub load_db_broadcast_states-change_from :
    (shape : Shape) (b : Settings) (point namespace : String) (ss : List String) (key : String)
    (v : Option Item) (t : String)
    → shape [] ≡ true
    → HasShape (whole shape) b
    → HasShape shape (nest_in ss key (some (text t)))
    → IsPrintable ss key
    → (keys_str : String) × (change_from String.[] (nest_in ss key v) ≡ some (keys_str, v))
      × Returns
          (λ b'.
            HasShape (whole shape) b'
            × ((p n : String) (q : Keys)
                → find (p ∷ n ∷ q) b' ≡ (
                    if p == point && n == namespace
                    then or_else (find q (nest_in ss key (some (text t)))) (find (p ∷ n ∷ q) b)
                    else find (p ∷ n ∷ q) b)))
          (load_db_broadcast_states b point namespace keys_str t)
unfolding load_db_broadcast_states HasShape nest_in
load_db_broadcast_states-change_from shape b point namespace ss key v t root hb h printable =
    let x : Option Item = some (text t) in
    let nested : HasShape (whole shape) (nest_in (point ∷ namespace ∷ ss) key x) =
      (refl, refl, (root, refl, h, tt), tt) in
    let (b', added, hb', over) =
      addict-Adds (whole shape) b (nest_in (point ∷ namespace ∷ ss) key x) hb nested in
    (
      keys_text ss key,
      change-keys_text ss key v,
      rw (parse_key-keys_text ss key printable) (
          rw (set_in-addict (whole shape) (point ∷ namespace ∷ ss) key x b hb nested) (
            rw added (
              hb',
              λ p n q. over (p ∷ n ∷ q) ∙ find-nested point namespace (nest_in ss key x) b p n q,
            ))),
    )
