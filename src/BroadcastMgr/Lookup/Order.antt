-- ===== src/BroadcastMgr/Lookup/Order.antt =====
-- `get_broadcast` gives each setting of a task from where it stands first: at the task's own cycle point
-- before all cycles, and at each cycle by the task's ancestors in the order of their linearisation.
use cylc_flow.Prelude.{
  ◌≡◌, refl, sym, ◌∙◌, ap, String, true, Option, none, some, List, [], ◌∷◌, string_eq, nat_eq,
}
use cylc_flow.Prelude.Assoc.{Assoc, keys, get}
use cylc_flow.Prelude.Result.{Result}
use cylc_flow.Prelude.Int.{int_eq}
use cylc_flow.BroadcastMgr.{
  Settings, empty, BroadcastError, Found, missing, value, dict, find_key, Keys, Item,
}
use cylc_flow.BroadcastMgr.Dict.{or_else, find, Shape, under, HasShape, whole}
use cylc_flow.BroadcastMgr.Overlay.{FoundAs, find_key-FoundAs, find_empty, addict-Adds}
use cylc_flow.BroadcastMgr.Lookup.{
  reversed, add_namespace, add_found, add_at, add_cycle, get_broadcast,
}
use cylc_flow.Prelude.Result.{fold_result, Returns, Returns->>=, Returns-mono, fold_result-append}

-- The first of the names that has a value.
unfoldable pub first :
    (String → Keys → Option (Option Item)) → List String → Keys → Option (Option Item)
first values [] keys = none
first values (name ∷ names) keys = or_else (values name keys) (first values names keys)

-- The value of the first of the cycles, and there of the first of the namespaces, that has one.
unfoldable pub first_broadcast : Settings → List String → List String → Keys → Option (Option Item)
unfolding first find
first_broadcast broadcasts cycles namespaces =
    first (λ cycle. first (λ namespace keys. find (cycle ∷ namespace ∷ keys) broadcasts) namespaces)
      cycles

first-eq :
    (f g : String → Keys → Option (Option Item)) (names : List String) (q : Keys)
    → ((n : String) → f n q ≡ g n q)
    → first f names q ≡ first g names q
unfolding first
first-eq f g [] q h = refl
first-eq f g (n ∷ ns) q h = rw (h n, first-eq f g ns q h) refl

first-none :
    (f : String → Keys → Option (Option Item)) (names : List String) (q : Keys)
    → ((n : String) → f n q ≡ none)
    → first f names q ≡ none
unfolding first
first-none f [] q h = refl
first-none f (n ∷ ns) q h = rw (h n, first-none f ns q h) refl

or_else-none : (a : Option (Option Item)) → or_else a none ≡ a
or_else-none none = refl
or_else-none (some x) = refl

or_else_assoc : (a b c : Option (Option Item)) → or_else a (or_else b c) ≡ or_else (or_else a b) c
or_else_assoc none b c = refl
or_else_assoc (some x) b c = refl

-- A dictionary of the shape, with other settings laid over those of `old`.
abbrev Lays : Shape → (Keys → Option (Option Item)) → Settings → Settings → Type 0
Lays shape over old s = HasShape shape s × ((q : Keys) → find q s ≡ or_else (over q) (find q old))

module _ (shape : Shape) (root : shape [] ≡ true) where
  add_namespace-Lays :
      (t ret : Settings) (point namespace : String)
      → HasShape (under point (whole shape)) t
      → HasShape shape ret
      → Returns (Lays shape (λ q. find (namespace ∷ q) t) ret) (add_namespace t ret namespace)
  unfolding FoundAs
  add_namespace-Lays t ret point namespace ht hr =
      go (find_key t namespace) (find_key-FoundAs (under point (whole shape)) t namespace ht root)
    where
      go :
          (f : Found)
          → FoundAs (under point (whole shape)) t namespace f
          → Returns (Lays shape (λ q. find (namespace ∷ q) t) ret) (add_found ret f)
      go missing h = (hr, λ q. ap (λ x. or_else x (find q ret)) (sym (h q)))
      go (dict d) (hd, e) =
          let (s, ok_s, hs, over) = addict-Adds shape ret d hr hd in
          rw ok_s (hs, λ q. over q ∙ ap (λ x. or_else x (find q ret)) (sym (e q)))
      go (value v) h = absurd h

  -- A loop over names, the last one first, where each name lays its settings over.
  fold-Lays :
      (f : Settings → String → Result BroadcastError Settings)
      (over : String → Keys → Option (Option Item))
      → ((s : Settings) (n : String) → HasShape shape s → Returns (Lays shape (over n) s) (f s n))
      → (ret : Settings) (names : List String) → HasShape shape ret
      → Returns (Lays shape (first over names) ret) (fold_result f ret (reversed names))
  unfolding fold_result first
  fold-Lays f over step ret [] hr = (hr, λ q. refl)
  fold-Lays f over step ret (n ∷ ns) hr = rw (fold_result-append f ret (reversed ns) (n ∷ [])) (
      Returns->>= (Lays shape (first over ns) ret) (Lays shape (first over (n ∷ ns)) ret) _ _
        (fold-Lays f over step ret ns hr)
        (λ s (hs, e).
          Returns->>= (Lays shape (over n) s) (Lays shape (first over (n ∷ ns)) ret) _ _
            (step s n hs)
            (λ r (hr', e'). (
              hr',
              λ q.
                  e' q
                  ∙ ap (or_else (over n q)) (e q)
                  ∙ or_else_assoc (over n q) (first over ns q) (find q ret),
            ))))

  add_cycle-Lays :
      (b ret : Settings) (ancestors : Assoc String (List String)) (task cycle : String)
      (namespaces : List String)
      → get ancestors task ≡ some namespaces
      → HasShape (whole shape) b
      → HasShape shape ret
      → Returns
          (Lays shape (first (λ n q. find (cycle ∷ n ∷ q) b) namespaces) ret)
          (add_cycle b ancestors task ret cycle)
  unfolding add_cycle FoundAs
  add_cycle-Lays b ret ancestors task cycle namespaces known hb hr =
      go (find_key b cycle) (find_key-FoundAs (whole shape) b cycle hb refl)
    where
      go :
          (f : Found)
          → FoundAs (whole shape) b cycle f
          → Returns
              (Lays shape (first (λ n q. find (cycle ∷ n ∷ q) b) namespaces) ret)
              (add_at ancestors task ret f)
      go missing h = (
        hr,
        λ q. ap (λ x. or_else x (find q ret)) (sym (first-none _ namespaces q (λ n. h (n ∷ q)))),
      )
      go (dict t) (ht, e) = rw known (
          Returns-mono (Lays shape (first (λ n q. find (n ∷ q) t) namespaces) ret) _ _
            (fold-Lays (add_namespace t) (λ n q. find (n ∷ q) t)
              (λ s n hs. add_namespace-Lays t s cycle n ht hs) ret namespaces hr)
            (λ r (hr', e'). (
              hr',
              λ q.
                  e' q
                  ∙ ap (λ x. or_else x (find q ret))
                      (first-eq _ _ namespaces q (λ n. sym (e (n ∷ q)))),
            )))
      go (value v) h = absurd h

-- For a task whose ancestors are known, and broadcasts in the shape of the configuration, `get_broadcast` raises
-- nothing. A setting of the result is that of the first cycle, of the task's own, "all-cycles", "all-cycle-points"
-- and "*", and there of the first namespace, in the linearised order of the task's ancestors, that broadcasts
-- it, and no other is in it.
pub get_broadcast-eq-first_broadcast :
    (shape : Shape) (broadcasts : Settings) (ancestors : Assoc String (List String))
    (cycle task : String) (namespaces : List String)
    → shape [] ≡ true
    → HasShape (whole shape) broadcasts
    → get ancestors task ≡ some namespaces
    → Returns
        (λ ret.
          (q : Keys)
          → find q ret
            ≡ first_broadcast broadcasts
                (cycle ∷ "all-cycles" ∷ "all-cycle-points" ∷ "*" ∷ [])
                namespaces
                q)
        (get_broadcast broadcasts ancestors cycle task)
unfolding get_broadcast first_broadcast HasShape
get_broadcast-eq-first_broadcast shape b ancestors cycle task namespaces root hb known =
    Returns-mono
      (Lays shape
        (first_broadcast b (cycle ∷ "all-cycles" ∷ "all-cycle-points" ∷ "*" ∷ []) namespaces) empty)
      _ _
      (fold-Lays shape root (add_cycle b ancestors task)
        (λ c. first (λ n q. find (c ∷ n ∷ q) b) namespaces)
        (λ s c hs. add_cycle-Lays shape root b s ancestors task c namespaces known hb hs) empty
        (cycle ∷ "all-cycles" ∷ "all-cycle-points" ∷ "*" ∷ []) tt)
      (λ r (hr, e) q.
        e q
        ∙ ap
            (or_else (
              first_broadcast b (cycle ∷ "all-cycles" ∷ "all-cycle-points" ∷ "*" ∷ []) namespaces
                q))
            (find_empty q)
        ∙ or_else-none _)
