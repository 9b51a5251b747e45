-- ===== src/BroadcastMgr/Dict.antt =====
-- A dictionary of settings as a function of the keys of its values.
use cylc_flow.Prelude.{
  ◌≡◌, refl, String, Bool, true, false, ◌&&◌, ◌||◌, Option, none, some, [], ◌∷◌, if◌then◌else◌,
  ◌==◌, string_eq, nat_eq, arith,
}
use cylc_flow.Prelude.Assoc.{keys}
use cylc_flow.Prelude.Int.{int_eq}
use cylc_flow.BroadcastMgr.{
  Item, Settings, empty, leaf, section, missing, find_key, set_leaf, set_section, Keys,
}

-- `x if x is not None else y`
abbrev pub or_else {ℓ} : {A : Type ℓ} → Option A → Option A → Option A
or_else none y = y
or_else (some x) y = some x

-- Whether the keys are those of a value of the dictionary itself.
abbrev pub is_last : Keys → Bool
is_last [] = true
is_last (k ∷ ks) = false

-- The value at the end of the keys, which may be `None`.
unfoldable pub find : Keys → Settings → Option (Option Item)
find [] s = none
find (q ∷ qs) empty = none
find (q ∷ qs) (leaf k v rest) =
    let later = find (q ∷ qs) rest in
    if q == k then (if is_last qs then some v else none) else later
find (q ∷ qs) (section k s rest) =
    let later = find (q ∷ qs) rest in if q == k then find qs s else later

unfoldable pub has_key : Settings → String → Bool
has_key empty key = false
has_key (leaf k v rest) key = key == k || has_key rest key
has_key (section k s rest) key = key == k || has_key rest key

-- Which keys are those of sections, as the configuration has it. No keys stand for the settings themselves.
abbrev pub Shape : Type 0
Shape = Keys → Bool

abbrev pub under : String → Shape → Shape
under k shape keys = shape (k ∷ keys)

-- Each key stands once, for a section or a value as the shape says.
unfoldable pub HasShape : Shape → Settings → Type 0
unfolding has_key
HasShape shape empty = Unit {0}
HasShape shape (leaf k v rest) =
    (shape (k ∷ []) ≡ false) × (has_key rest k ≡ false) × HasShape shape rest
HasShape shape (section k s rest) =
    (shape (k ∷ []) ≡ true)
    × (has_key rest k ≡ false)
    × HasShape (under k shape) s
    × HasShape shape rest

-- The shape of all broadcasts: sections for points, and in them sections for namespaces.
abbrev pub whole : Shape → Shape
whole shape [] = true
whole shape (point ∷ []) = true
whole shape (point ∷ namespace ∷ keys) = shape keys

pub find-none :
    (q : String) (qs : Keys) (s : Settings) → has_key s q ≡ false → find (q ∷ qs) s ≡ none
unfolding find has_key
find-none q qs empty h = refl
find-none q qs (leaf k v rest) h = ground (arith, find-none q qs rest)
find-none q qs (section k s rest) h = ground (arith, find-none q qs rest)

pub has_key-set_leaf :
    (s : Settings) (k j : String) (v : Option Item)
    → has_key (set_leaf s k v) j ≡ (j == k || has_key s j)
unfolding has_key set_leaf
has_key-set_leaf empty k j v = refl
has_key-set_leaf (leaf i w rest) k j v = ground (arith, has_key-set_leaf rest k j v)
has_key-set_leaf (section i s rest) k j v = ground (arith, has_key-set_leaf rest k j v)

pub has_key-set_section :
    (s : Settings) (k j : String) (d : Settings)
    → has_key (set_section s k d) j ≡ (j == k || has_key s j)
unfolding has_key set_section
has_key-set_section empty k j d = refl
has_key-set_section (leaf i w rest) k j d = ground (arith, has_key-set_section rest k j d)
has_key-set_section (section i s rest) k j d = ground (arith, has_key-set_section rest k j d)

pub find-set_leaf :
    (shape : Shape) (s : Settings) (k : String) (v : Option Item) (q : String) (qs : Keys)
    → HasShape shape s
    → shape (k ∷ []) ≡ false
    → find (q ∷ qs) (set_leaf s k v) ≡ (if q == k && is_last qs then some v else find (q ∷ qs) s)
unfolding HasShape find set_leaf
find-set_leaf shape empty k v q qs h e = ground arith
find-set_leaf shape (leaf i w rest) k v q qs h e =
    ground (arith, find-set_leaf shape rest k v q qs h.2 e)
find-set_leaf shape (section i s rest) k v q qs h e =
    ground (arith, find-set_leaf shape rest k v q qs h.3 e)

pub find-set_section :
    (s : Settings) (k : String) (d : Settings) (q : String) (qs : Keys)
    → find (q ∷ qs) (set_section s k d) ≡ (if q == k then find qs d else find (q ∷ qs) s)
unfolding find set_section
find-set_section empty k d q qs = ground arith
find-set_section (leaf i w rest) k d q qs = ground (arith, find-set_section rest k d q qs)
find-set_section (section i s rest) k d q qs = ground (arith, find-set_section rest k d q qs)

pub find_key-missing : (s : Settings) (k : String) → find_key s k ≡ missing → has_key s k ≡ false
unfolding find_key has_key
find_key-missing empty k h = refl
find_key-missing (leaf j v rest) k h = ground (arith, find_key-missing rest k)
find_key-missing (section j s rest) k h = ground (arith, find_key-missing rest k)
