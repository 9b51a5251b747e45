-- ===== src/BroadcastMgr/Clear/Cleared.antt =====
-- `clear_broadcast` deletes the settings that its options select, and nothing else.
use cylc_flow.Prelude.{
  ◌≡◌, refl, sym, ◌∙◌, ap, inl, inr, String, Bool, true, false, ◌&&◌, Option, none, some, List, [],
  ◌∷◌, ◌++◌, if◌then◌else◌, ◌==◌, string_eq, nat_eq, eq_of_==, arith, Bool-cases,
}
use cylc_flow.Prelude.Assoc.{keys}
use cylc_flow.Prelude.Int.{int_eq}
use cylc_flow.BroadcastMgr.{
  Item, Settings, empty, leaf, section, Keys, is_cancelled, cancel, settings_to_keys_list,
}
use cylc_flow.BroadcastMgr.Dict.{is_last, find, has_key, Shape, under, HasShape, whole}
use cylc_flow.BroadcastMgr.Operations.{Row, BroadcastMgr, Interface}
use cylc_flow.BroadcastMgr.Clear.{
  is_given, clear_namespaces, clear_points, finish_clear, clear_broadcast,
}
use cylc_flow.BroadcastMgr.Clear.Pruned.{
  drop_none, IsPruned, HasShape-prune, prune-IsPruned, find-prune,
}
use cylc_flow.Prelude.Result.{Returns, Returns->>=}

-- A value that is kept becomes `None`.
abbrev blank_if : Bool → Option (Option Item) → Option (Option Item)
blank_if true (some v) = some none
blank_if _ v = v

has_key-cancel :
    (ck : List Keys) (keys : Keys) (s : Settings) (j : String)
    → has_key (cancel ck keys s) j ≡ has_key s j
unfolding cancel has_key
has_key-cancel ck keys empty j = refl
has_key-cancel ck keys (leaf k v rest) j = ground (arith, has_key-cancel ck keys rest j)
has_key-cancel ck keys (section k s rest) j = ground (arith, has_key-cancel ck keys rest j)

HasShape-cancel :
    (shape : Shape) (ck : List Keys) (keys : Keys) (s : Settings)
    → HasShape shape s
    → HasShape shape (cancel ck keys s)
unfolding cancel HasShape
HasShape-cancel shape ck keys empty h = tt
HasShape-cancel shape ck keys (leaf k v rest) (a, b, c) =
    (a, has_key-cancel ck keys rest k ∙ b, HasShape-cancel shape ck keys rest c)
HasShape-cancel shape ck keys (section k s rest) (a, b, c, d) = (
  a,
  has_key-cancel ck keys rest k ∙ b,
  HasShape-cancel (under k shape) ck (keys ++ k ∷ []) s c,
  HasShape-cancel shape ck keys rest d,
)

snoc_append : (keys : Keys) (k : String) (qs : Keys) → (keys ++ k ∷ []) ++ qs ≡ keys ++ k ∷ qs
snoc_append [] k qs = refl
snoc_append (j ∷ keys) k qs = ap (λ t. j ∷ t) (snoc_append keys k qs)

blank_some : (b : Bool) (v : Option Item) → some (if b then none else v) ≡ blank_if b (some v)
blank_some true v = refl
blank_some false v = refl

blank_none : (b : Bool) → blank_if b none ≡ none
blank_none true = refl
blank_none false = refl

find-cancel :
    (ck : List Keys) (keys : Keys) (s : Settings) (q : Keys)
    → find q (cancel ck keys s) ≡ blank_if (is_cancelled ck (keys ++ q)) (find q s)
unfolding cancel find
find-cancel ck keys s [] = sym (blank_none (is_cancelled ck (keys ++ [])))
find-cancel ck keys empty (q ∷ qs) = sym (blank_none (is_cancelled ck (keys ++ q ∷ qs)))
find-cancel ck keys (leaf k v rest) (q ∷ qs) = elim (Bool-cases (q == k)) [
  | inr other ↦ rw (other, find) (find-cancel ck keys rest (q ∷ qs))
  | inl same ↦ rw (same, find) (at_leaf qs (eq_of_== q k same))
]
  where
    at_leaf :
        (qs : Keys)
        → q ≡ k
        → (if is_last qs then some (if is_cancelled ck (keys ++ k ∷ []) then none else v) else none)
          ≡ blank_if (is_cancelled ck (keys ++ q ∷ qs)) (if is_last qs then some v else none)
    at_leaf [] e =
        blank_some (is_cancelled ck (keys ++ k ∷ [])) v
        ∙ ap (λ j. blank_if (is_cancelled ck (keys ++ j ∷ [])) (some v)) (sym e)
    at_leaf (j ∷ js) e = sym (blank_none (is_cancelled ck (keys ++ q ∷ j ∷ js)))
find-cancel ck keys (section k s rest) (q ∷ qs) = elim (Bool-cases (q == k)) [
  | inr other ↦ rw (other, find) (find-cancel ck keys rest (q ∷ qs))
  | inl same ↦
      rw (same, find)
        (find-cancel ck (keys ++ k ∷ []) s qs
          ∙ ap (λ t. blank_if (is_cancelled ck t) (find qs s))
              (snoc_append keys k qs ∙ ap (λ j. keys ++ j ∷ qs) (sym (eq_of_== q k same))))
]

-- A section of sections, in which what an option selects is `None`.
abbrev Blanks : Shape → Settings → (String → Keys → Bool) → Settings → Type 0
Blanks shape s hit c =
    HasShape shape c
    × ((j : String) → has_key c j ≡ has_key s j)
    × ((n : String) (q : Keys) → find (n ∷ q) c ≡ blank_if (hit n q) (find (n ∷ q) s))

Blanks-section :
    (shape : Shape) (hit : String → Keys → Bool) (k : String) (d d' rest rest' : Settings)
    → HasShape shape (section k d rest)
    → HasShape (under k shape) d'
    → ((q : Keys) → find q d' ≡ blank_if (hit k q) (find q d))
    → Blanks shape rest hit rest'
    → Blanks shape (section k d rest) hit (section k d' rest')
unfolding HasShape has_key find
Blanks-section shape hit k d d' rest rest' (a, b, c, e) hd' fd (hr, keyed, fr) = (
  (a, keyed k ∙ b, hd', hr),
  (λ j. ground (arith, keyed j)),
  (λ n q. ground (arith, fr n q, fd q, eq_of_== n k)),
)

module _ (i : Interface) (shape : Shape) (points namespaces : List String) (ck : List Keys) where
  abbrev hits_namespace : String → Keys → Bool
  hits_namespace namespace keys = is_given namespaces namespace && is_cancelled ck keys

  -- The keys, after the point, of what the options select.
  abbrev hits : String → Keys → Bool
  hits point [] = false
  hits point (namespace ∷ keys) = is_given points point && hits_namespace namespace keys

  abbrev ClearsNamespaces : String → Settings → Settings × List Row → Type 0
  ClearsNamespaces point t cleared = Blanks (under point (whole shape)) t hits_namespace cleared.0

  abbrev ClearsPoints : Settings → Settings × List Row → Type 0
  ClearsPoints b cleared = Blanks (whole shape) b hits cleared.0

  clear_namespaces-Blanks :
      (point : String) (t : Settings)
      → shape [] ≡ true
      → HasShape (under point (whole shape)) t
      → Returns (ClearsNamespaces point t) (clear_namespaces i namespaces ck point t)
  unfolding clear_namespaces HasShape find
  clear_namespaces-Blanks point empty root h =
      (tt, λ j. refl, λ n q. sym (blank_none (hits_namespace n q)))
  clear_namespaces-Blanks point (leaf n v rest) root (a, b, c) = absurd (ground arith)
  clear_namespaces-Blanks point (section n d rest) root (a, b, c, e) =
      Returns->>= (ClearsNamespaces point rest) (ClearsNamespaces point (section n d rest)) _ _
        (clear_namespaces-Blanks point rest root e)
        (λ r h. elim (Bool-cases (is_given namespaces n)) [
          | inl given ↦ rw given (
              Blanks-section (under point (whole shape)) hits_namespace n d (cancel ck [] d) rest
                r.0 (a, b, c, e) (HasShape-cancel shape ck [] d c)
                (λ q. rw given (find-cancel ck [] d q)) h)
          | inr not_given ↦ rw not_given (
              Blanks-section (under point (whole shape)) hits_namespace n d d rest r.0 (a, b, c, e)
                c (λ q. rw not_given refl) h)
        ])

  namespaces-at :
      (point : String) (t t' : Settings)
      → is_given points point ≡ true
      → Blanks (under point (whole shape)) t hits_namespace t'
      → (q : Keys) → find q t' ≡ blank_if (hits point q) (find q t)
  unfolding find
  namespaces-at point t t' given h [] = refl
  namespaces-at point t t' given h (n ∷ q) = rw given (h.2 n q)

  hits-none :
      (point : String) (q : Keys) (v : Option (Option Item))
      → is_given points point ≡ false
      → v ≡ blank_if (hits point q) v
  hits-none point [] v e = refl
  hits-none point (n ∷ q) v e = rw e refl

  clear_points-Blanks :
      (b : Settings)
      → shape [] ≡ true
      → HasShape (whole shape) b
      → Returns (ClearsPoints b) (clear_points i points namespaces ck b)
  unfolding clear_points HasShape find
  clear_points-Blanks empty root h = (tt, λ j. refl, λ p q. sym (blank_none (hits p q)))
  clear_points-Blanks (leaf p v rest) root (a, b, c) = absurd (ground arith)
  clear_points-Blanks (section p t rest) root (a, b, c, e) = elim (Bool-cases (is_given points p)) [
    | inl given ↦ rw given (
        Returns->>= (ClearsNamespaces p t) (ClearsPoints (section p t rest)) _ _
          (clear_namespaces-Blanks p t root c)
          (λ f g.
            Returns->>= (ClearsPoints rest) (ClearsPoints (section p t rest)) _ _
              (clear_points-Blanks rest root e)
              (λ r h.
                Blanks-section (whole shape) hits p t f.0 rest r.0 (a, b, c, e) g.0
                  (namespaces-at p t f.0 given g) h)))
    | inr not_given ↦ rw not_given (
        Returns->>= (ClearsPoints rest) (ClearsPoints (section p t rest)) _ _
          (clear_points-Blanks rest root e)
          (λ r h.
            Blanks-section (whole shape) hits p t t rest r.0 (a, b, c, e) c
              (λ q. hits-none p q (find q t) not_given) h))
  ]

drop_blank :
    (b : Bool) (v : Option (Option Item))
    → drop_none (blank_if b v) ≡ (if b then none else drop_none v)
drop_blank true none = refl
drop_blank true (some v) = refl
drop_blank false v = refl

-- What `clear_broadcast` promises.
unfoldable pub IsCleared :
    Shape → List String → List String → List Keys → Settings → Settings → Type 0
unfolding HasShape find IsPruned
IsCleared shape points namespaces cancel_keys before after =
    HasShape (whole shape) after
    × IsPruned after
    × ((p n : String) (q : Keys)
        → find (p ∷ n ∷ q) after ≡ (
            if is_given points p && (is_given namespaces n && is_cancelled cancel_keys q)
            then none
            else drop_none (find (p ∷ n ∷ q) before)))

-- `clear_broadcast` raises nothing on broadcasts in the shape of the configuration, and keeps the shape. A
-- setting is gone afterwards if its point, its namespace and its keys are each among those given, where none
-- given stands for all, and any other is unchanged, but for those that were `None`. Neither a value that
-- is `None` nor an empty dictionary is left.
pub clear_broadcast-IsCleared :
    (i : Interface) (shape : Shape) (mgr : BroadcastMgr) (points namespaces : List String)
    (cancel_settings : List Settings)
    → shape [] ≡ true
    → HasShape (whole shape) mgr.broadcasts
    → Returns
        (λ changed.
          IsCleared shape points namespaces
            (settings_to_keys_list cancel_settings)
            mgr.broadcasts
            changed.0.broadcasts)
        (clear_broadcast i mgr points namespaces cancel_settings)
unfolding clear_broadcast finish_clear IsCleared
clear_broadcast-IsCleared i shape mgr points namespaces cancel_settings root h =
    let ck = settings_to_keys_list cancel_settings in
    Returns->>= (ClearsPoints i shape points namespaces ck mgr.broadcasts) _ _ _
      (clear_points-Blanks i shape points namespaces ck mgr.broadcasts root h)
      (λ c (hc, keyed, seen). (
        HasShape-prune (whole shape) [] c.0 hc,
        prune-IsPruned [] c.0,
        λ p n q.
            find-prune (whole shape) [] c.0 (p ∷ n ∷ q) hc
            ∙ ap drop_none (seen p (n ∷ q))
            ∙ drop_blank (hits i shape points namespaces ck p (n ∷ q))
                (find (p ∷ n ∷ q) mgr.broadcasts),
      ))
