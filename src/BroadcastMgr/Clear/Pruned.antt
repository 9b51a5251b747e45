-- ===== src/BroadcastMgr/Clear/Pruned.antt =====
-- `_prune` deletes values that are `None` and dictionaries that are empty, and nothing else.
use cylc_flow.Prelude.{
  ◌≡◌, refl, ◌∙◌, ◌≢◌, String, true, false, Option, none, some, [], ◌∷◌, ◌++◌, if◌then◌else◌, ◌==◌,
  string_eq, nat_eq, eq_of_==, arith,
}
use cylc_flow.Prelude.Assoc.{keys}
use cylc_flow.Prelude.Int.{int_eq}
use cylc_flow.BroadcastMgr.{Item, Settings, empty, leaf, section, Keys, prune, Prunes, drop_empty}
use cylc_flow.BroadcastMgr.Dict.{find, has_key, Shape, under, HasShape, find-none}
use cylc_flow.BroadcastMgr.Overlay.{find_empty}

-- A value that is not `None`.
abbrev pub drop_none : Option (Option Item) → Option (Option Item)
drop_none (some (some x)) = some (some x)
drop_none _ = none

-- No value is `None` and no section is empty.
unfoldable pub IsPruned : Settings → Type 0
IsPruned empty = Unit {0}
IsPruned (leaf k none rest) = ⊥
IsPruned (leaf k (some x) rest) = IsPruned rest
IsPruned (section k s rest) = (s ≢ empty) × IsPruned s × IsPruned rest

has_key-drop_empty :
    (keys : Keys) (k j : String) (s : Settings) (p p' : Prunes) (rest : Settings)
    → j == k ≡ false
    → has_key rest j ≡ false
    → has_key (drop_empty keys k (s, p) (rest, p')).0 j ≡ false
unfolding has_key
has_key-drop_empty keys k j empty p p' rest ne h = h
has_key-drop_empty keys k j (leaf i v r) p p' rest ne h = ground arith
has_key-drop_empty keys k j (section i s r) p p' rest ne h = ground arith

has_key-prune :
    (keys : Keys) (s : Settings) (j : String)
    → has_key s j ≡ false
    → has_key (prune keys s).0 j ≡ false
unfolding prune has_key
has_key-prune keys empty j h = refl
has_key-prune keys (leaf k none rest) j h = has_key-prune keys rest j (ground arith)
has_key-prune keys (leaf k (some x) rest) j h = ground (arith, has_key-prune keys rest j)
has_key-prune keys (section k s rest) j h =
    has_key-drop_empty keys k j (prune (keys ++ k ∷ []) s).0 (prune (keys ++ k ∷ []) s).1
      (prune keys rest).1 (prune keys rest).0 (ground arith)
      (has_key-prune keys rest j (ground arith))

HasShape-drop_empty :
    (shape : Shape) (keys : Keys) (k : String) (s : Settings) (p p' : Prunes) (rest : Settings)
    → shape (k ∷ []) ≡ true
    → has_key rest k ≡ false
    → HasShape (under k shape) s
    → HasShape shape rest
    → HasShape shape (drop_empty keys k (s, p) (rest, p')).0
unfolding HasShape
HasShape-drop_empty shape keys k empty p p' rest e f h g = g
HasShape-drop_empty shape keys k (leaf i v r) p p' rest e f h g = (e, f, h, g)
HasShape-drop_empty shape keys k (section i s r) p p' rest e f h g = (e, f, h, g)

pub HasShape-prune :
    (shape : Shape) (keys : Keys) (s : Settings)
    → HasShape shape s
    → HasShape shape (prune keys s).0
unfolding prune HasShape
HasShape-prune shape keys empty h = tt
HasShape-prune shape keys (leaf k none rest) (a, b, c) = HasShape-prune shape keys rest c
HasShape-prune shape keys (leaf k (some x) rest) (a, b, c) =
    (a, has_key-prune keys rest k b, HasShape-prune shape keys rest c)
HasShape-prune shape keys (section k s rest) (a, b, c, d) =
    HasShape-drop_empty shape keys k (prune (keys ++ k ∷ []) s).0 (prune (keys ++ k ∷ []) s).1
      (prune keys rest).1 (prune keys rest).0 a (has_key-prune keys rest k b)
      (HasShape-prune (under k shape) (keys ++ k ∷ []) s c) (HasShape-prune shape keys rest d)

IsPruned-drop_empty :
    (keys : Keys) (k : String) (s : Settings) (p p' : Prunes) (rest : Settings)
    → IsPruned s
    → IsPruned rest
    → IsPruned (drop_empty keys k (s, p) (rest, p')).0
unfolding IsPruned
IsPruned-drop_empty keys k empty p p' rest h g = g
IsPruned-drop_empty keys k (leaf i v r) p p' rest h g = (λ e. cc, h, g)
IsPruned-drop_empty keys k (section i s r) p p' rest h g = (λ e. cc, h, g)

pub prune-IsPruned : (keys : Keys) (s : Settings) → IsPruned (prune keys s).0
unfolding prune IsPruned
prune-IsPruned keys empty = tt
prune-IsPruned keys (leaf k none rest) = prune-IsPruned keys rest
prune-IsPruned keys (leaf k (some x) rest) = prune-IsPruned keys rest
prune-IsPruned keys (section k s rest) =
    IsPruned-drop_empty keys k (prune (keys ++ k ∷ []) s).0 (prune (keys ++ k ∷ []) s).1
      (prune keys rest).1 (prune keys rest).0 (prune-IsPruned (keys ++ k ∷ []) s)
      (prune-IsPruned keys rest)

find-drop_empty :
    (keys : Keys) (k : String) (s : Settings) (p p' : Prunes) (rest : Settings) (q : String)
    (qs : Keys)
    → has_key rest k ≡ false
    → find (q ∷ qs) (drop_empty keys k (s, p) (rest, p')).0
      ≡ (if q == k then find qs s else find (q ∷ qs) rest)
unfolding find
find-drop_empty keys k empty p p' rest q qs h =
    ground (arith, find-none q qs rest, eq_of_== q k, find_empty qs)
find-drop_empty keys k (leaf i v r) p p' rest q qs h = refl
find-drop_empty keys k (section i s r) p p' rest q qs h = refl

pub find-prune :
    (shape : Shape) (keys : Keys) (s : Settings) (q : Keys)
    → HasShape shape s
    → find q (prune keys s).0 ≡ drop_none (find q s)
unfolding prune find HasShape
find-prune shape keys s [] h = refl
find-prune shape keys empty (q ∷ qs) h = refl
find-prune shape keys (leaf k none rest) (q ∷ qs) (a, b, c) =
    ground (arith, find-prune shape keys rest (q ∷ qs) c, find-none q qs rest, eq_of_== q k)
find-prune shape keys (leaf k (some x) rest) (q ∷ qs) (a, b, c) =
    ground (arith, find-prune shape keys rest (q ∷ qs) c)
find-prune shape keys (section k s rest) (q ∷ qs) (a, b, c, d) =
    find-drop_empty keys k (prune (keys ++ k ∷ []) s).0 (prune (keys ++ k ∷ []) s).1
      (prune keys rest).1 (prune keys rest).0 q qs (has_key-prune keys rest k b)
    ∙ ground (
      arith,
      find-prune shape keys rest (q ∷ qs) d,
      find-prune (under k shape) (keys ++ k ∷ []) s qs c,
    )
