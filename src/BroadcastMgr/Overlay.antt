-- ===== src/BroadcastMgr/Overlay.antt =====
-- `addict` lays one dictionary of settings over another.
use cylc_flow.Prelude.{
  ◌≡◌, refl, sym, ◌∙◌, ap, subst, inl, inr, String, true, false, ◌&&◌, Option, none, some, [], ◌∷◌,
  if◌then◌else◌, ◌==◌, string_eq, nat_eq, eq_of_==, arith, Bool-cases,
}
use cylc_flow.Prelude.Result.{Result, ok, err, ◌>>=◌}
use cylc_flow.Prelude.Int.{int_eq}
use cylc_flow.BroadcastMgr.{
  Item, Settings, empty, leaf, section, BroadcastError, type_error, Found, missing, value, dict,
  find_key, set_leaf, set_section, addict, Keys,
}
use cylc_flow.BroadcastMgr.Dict.{
  or_else, is_last, find, has_key, Shape, under, HasShape, find-none, has_key-set_leaf,
  has_key-set_section, find-set_leaf, find-set_section,
}

eq_sym : (a b : String) → (a == b) ≡ false → (b == a) ≡ false
eq_sym a b h = ground arith

HasShape-set_leaf :
    (shape : Shape) (s : Settings) (k : String) (v : Option Item)
    → HasShape shape s
    → shape (k ∷ []) ≡ false
    → HasShape shape (set_leaf s k v)
unfolding HasShape set_leaf has_key
HasShape-set_leaf shape empty k v h e = (e, refl, tt)
HasShape-set_leaf shape (leaf i w rest) k v (a, b, c) e = elim (Bool-cases (k == i)) [
  | inl same ↦ rw (same, set_leaf) (a, b, c)
  | inr other ↦
      rw (other, set_leaf)
        (
          a,
          ground (arith, has_key-set_leaf rest k i v, eq_sym k i other),
          HasShape-set_leaf shape rest k v c e,
        )
]
HasShape-set_leaf shape (section i s rest) k v (a, b, c, d) e = elim (Bool-cases (k == i)) [
  | inl same ↦ absurd (ground (arith, eq_of_== k i same))
  | inr other ↦
      rw (other, set_leaf)
        (
          a,
          ground (arith, has_key-set_leaf rest k i v, eq_sym k i other),
          c,
          HasShape-set_leaf shape rest k v d e,
        )
]

pub HasShape-set_section :
    (shape : Shape) (s : Settings) (k : String) (d : Settings)
    → HasShape shape s
    → shape (k ∷ []) ≡ true
    → HasShape (under k shape) d
    → HasShape shape (set_section s k d)
unfolding HasShape set_section has_key
HasShape-set_section shape empty k d h e f = (e, refl, f, tt)
HasShape-set_section shape (leaf i w rest) k d (a, b, c) e f = elim (Bool-cases (k == i)) [
  | inl same ↦ absurd (ground (arith, eq_of_== k i same))
  | inr other ↦
      rw (other, set_section)
        (
          a,
          ground (arith, has_key-set_section rest k i d, eq_sym k i other),
          HasShape-set_section shape rest k d c e f,
        )
]
HasShape-set_section shape (section i s rest) k d (a, b, c, g) e f = elim (Bool-cases (k == i)) [
  | inl same ↦
      rw (same, set_section)
        (a, b, subst (λ t. HasShape (under t shape) d) (eq_of_== k i same) f, g)
  | inr other ↦
      rw (other, set_section)
        (
          a,
          ground (arith, has_key-set_section rest k i d, eq_sym k i other),
          c,
          HasShape-set_section shape rest k d g e f,
        )
]

-- What stands at the key of a section.
unfoldable pub FoundAs : Shape → Settings → String → Found → Type 0
FoundAs shape s k missing = (qs : Keys) → find (k ∷ qs) s ≡ none
FoundAs shape s k (value v) = ⊥
FoundAs shape s k (dict d) =
    HasShape (under k shape) d × ((qs : Keys) → find (k ∷ qs) s ≡ find qs d)

FoundAs-eq :
    (shape : Shape) (s s' : Settings) (k : String) (f : Found)
    → ((qs : Keys) → find (k ∷ qs) s' ≡ find (k ∷ qs) s)
    → FoundAs shape s k f
    → FoundAs shape s' k f
unfolding FoundAs
FoundAs-eq shape s s' k missing e h = λ qs. e qs ∙ h qs
FoundAs-eq shape s s' k (value v) e h = h
FoundAs-eq shape s s' k (dict d) e (h, g) = (h, λ qs. e qs ∙ g qs)

pub find_key-FoundAs :
    (shape : Shape) (s : Settings) (k : String)
    → HasShape shape s
    → shape (k ∷ []) ≡ true
    → FoundAs shape s k (find_key s k)
unfolding HasShape find_key FoundAs find
find_key-FoundAs shape empty k h e = λ qs. refl
find_key-FoundAs shape (leaf i w rest) k (a, b, c) e = elim (Bool-cases (k == i)) [
  | inl same ↦ absurd (ground (arith, eq_of_== k i same))
  | inr other ↦
      rw (other, find_key)
        (FoundAs-eq shape rest (leaf i w rest) k (find_key rest k) (λ qs. rw (other, find) refl)
          (find_key-FoundAs shape rest k c e))
]
find_key-FoundAs shape (section i s rest) k (a, b, c, d) e = elim (Bool-cases (k == i)) [
  | inl same ↦
      rw (same, find_key)
        (
          subst (λ t. HasShape (under t shape) s) (sym (eq_of_== k i same)) c,
          λ qs. rw (same, find) refl,
        )
  | inr other ↦
      rw (other, find_key)
        (FoundAs-eq shape rest (section i s rest) k (find_key rest k) (λ qs. rw (other, find) refl)
          (find_key-FoundAs shape rest k d e))
]

-- The settings of `source`, and those of `target` where it has none.
abbrev pub IsOver : Settings → Settings → Settings → Type 0
IsOver source target s = (q : Keys) → find q s ≡ or_else (find q source) (find q target)

-- What `addict` returns.
abbrev pub Adds : Shape → Settings → Settings → Result BroadcastError Settings → Type 0
Adds shape target source r = (s : Settings) × (r ≡ ok s) × HasShape shape s × IsOver source target s

IsOver-leaf :
    (k : String) (x : Option Item) (rest target s : Settings)
    → has_key rest k ≡ false
    → ((q : String) (qs : Keys)
        → find (q ∷ qs) s
          ≡ or_else
              (find (q ∷ qs) rest)
              (if q == k && is_last qs then some x else find (q ∷ qs) target))
    → IsOver (leaf k x rest) target s
unfolding find
IsOver-leaf k x rest target s fresh h [] = refl
IsOver-leaf k x rest target s fresh h (q ∷ qs) =
    ground (arith, h q qs, find-none q qs rest, eq_of_== q k)

IsOver-section :
    (k : String) (val d rest target s d' : Settings)
    → has_key rest k ≡ false
    → IsOver val d d'
    → ((qs : Keys) → find (k ∷ qs) target ≡ find qs d)
    → IsOver rest (set_section target k d') s
    → IsOver (section k val rest) target s
unfolding find
IsOver-section k val d rest target s d' fresh inner old h [] = refl
IsOver-section k val d rest target s d' fresh inner old h (q ∷ qs) = ground (
  arith,
  h (q ∷ qs),
  find-none q qs rest,
  eq_of_== q k,
  find-set_section target k d' q qs,
  inner qs,
  old qs,
)

IsOver-empty : (target : Settings) → IsOver empty target target
unfolding find
IsOver-empty target [] = refl
IsOver-empty target (q ∷ qs) = refl

pub find_empty : (qs : Keys) → find qs empty ≡ none
unfolding find
find_empty [] = refl
find_empty (q ∷ qs) = refl

-- A section is added to what stands at its key.
section_step :
    (shape : Shape) (target : Settings) (key : String) (val rest : Settings) (f : Found)
    → FoundAs shape target key f
    → HasShape shape target
    → shape (key ∷ []) ≡ true
    → has_key rest key ≡ false
    → ((d : Settings) → HasShape (under key shape) d → Adds (under key shape) d val (addict d val))
    → ((t : Settings) → HasShape shape t → Adds shape t rest (addict t rest))
    → Adds shape target (section key val rest) (elim f [
      | missing ↦ addict empty val >>= λ d. addict (set_section target key d) rest
      | dict d ↦ addict d val >>= λ d'. addict (set_section target key d') rest
      | value v ↦ elim val [
        | empty ↦ addict target rest
        | leaf k w r ↦ err type_error
        | section k s r ↦ err type_error
      ]
    ])
unfolding FoundAs HasShape
section_step shape target key val rest missing old h a b inner next =
    let (d', e, f, g) = inner empty tt in
    let (s, e', f', g') =
      next (set_section target key d') (HasShape-set_section shape target key d' h a f) in
    (
      s,
      rw e e',
      f',
      IsOver-section key val empty rest target s d' b g (λ qs. old qs ∙ sym (find_empty qs)) g',
    )
section_step shape target key val rest (value v) old h a b inner next = absurd old
section_step shape target key val rest (dict d) (shaped, old) h a b inner next =
    let (d', e, f, g) = inner d shaped in
    let (s, e', f', g') =
      next (set_section target key d') (HasShape-set_section shape target key d' h a f) in
    (s, rw e e', f', IsOver-section key val d rest target s d' b g old g')

pub addict-Adds :
    (shape : Shape) (target source : Settings)
    → HasShape shape target
    → HasShape shape source
    → Adds shape target source (addict target source)
unfolding addict HasShape
addict-Adds shape target empty h k = (target, refl, h, IsOver-empty target)
addict-Adds shape target (leaf key x rest) h (a, b, c) =
    let (s, e, f, g) =
      addict-Adds shape (set_leaf target key x) rest (HasShape-set_leaf shape target key x h a) c in
    (
      s,
      e,
      f,
      IsOver-leaf key x rest target s b (λ q qs.
          g (q ∷ qs)
          ∙ ap (or_else (find (q ∷ qs) rest)) (find-set_leaf shape target key x q qs h a)),
    )
addict-Adds shape target (section key val rest) h (a, b, c, d) =
    section_step shape target key val rest (find_key target key)
      (find_key-FoundAs shape target key h a) h a b (λ t k. addict-Adds (under key shape) t val k c)
      (λ t k. addict-Adds shape t rest k d)
