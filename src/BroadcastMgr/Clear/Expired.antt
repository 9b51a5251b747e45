-- ===== src/BroadcastMgr/Clear/Expired.antt =====
-- `expire_broadcast` deletes the broadcasts to points before the cutoff, and nothing else.
use cylc_flow.Prelude.{
  inl, inr, eq_refl, Bool-cases, ◌==◌, ◌||◌, not, ◌≡◌, refl, ◌∙◌, ap, String, Bool, true, false,
  ◌&&◌, Option, none, some, List, [], ◌∷◌, contains, if◌then◌else◌, string_eq, nat_eq, eq_of_==,
  arith,
}
use cylc_flow.Prelude.Int.{int_eq}
use cylc_flow.BroadcastMgr.{Item, Settings, empty, leaf, section, Keys}
use cylc_flow.BroadcastMgr.Dict.{find, has_key, Shape, HasShape, whole, find-none}
use cylc_flow.BroadcastMgr.Operations.{BroadcastMgr, Interface}
use cylc_flow.BroadcastMgr.Clear.{
  all_cycles, keep_if, is_expired, expired_points, expire_points, expire_broadcast,
}
use cylc_flow.BroadcastMgr.Clear.Pruned.{drop_none}
use cylc_flow.BroadcastMgr.Clear.Cleared.{IsCleared, clear_broadcast-IsCleared}
use cylc_flow.Prelude.Result.{ok, Returns, Returns->>=}

-- The name of a point stands for all cycles.
abbrev pub is_all : String → Bool
is_all p = p == "*" || (p == "all-cycle-points" || p == "all-cycles")

-- Whether the broadcasts to a point go, where `earlier` says which points are before the cutoff.
abbrev pub goes : Option String → (String → Bool) → String → Bool
goes none earlier p = true
goes (some cutoff) earlier p = not (is_all p) && earlier p

-- Each point of the broadcasts, but for the names of all cycles, compares with the cutoff.
unfoldable pub Compares : Interface → Option String → (String → Bool) → Settings → Type 0
unfolding has_key
Compares i none earlier b = Unit {0}
Compares i (some cutoff) earlier b =
    (p : String) → has_key b p ≡ true → is_all p ≡ false → i.is_before p cutoff ≡ some (earlier p)

contains-all_cycles : (p : String) → contains all_cycles p ≡ is_all p
contains-all_cycles p = elim (Bool-cases (p == "*")) [
  | inl e ↦ rw e refl
  | inr e ↦ elim (Bool-cases (p == "all-cycle-points")) [
    | inl f ↦ rw (e, f) refl
    | inr f ↦ ground arith
  ]
]

is_expired-ok :
    (i : Interface) (cutoff : Option String) (earlier : String → Bool) (b : Settings) (p : String)
    → Compares i cutoff earlier b
    → has_key b p ≡ true
    → is_expired i cutoff p ≡ ok (goes cutoff earlier p)
unfolding Compares
is_expired-ok i none earlier b p h k = refl
is_expired-ok i (some cutoff) earlier b p h k = elim (Bool-cases (is_all p)) [
  | inl e ↦ rw (contains-all_cycles p, e) refl
  | inr e ↦ rw (contains-all_cycles p, e, h p k e) refl
]

Compares-rest :
    (i : Interface) (cutoff : Option String) (earlier : String → Bool) (b rest : Settings)
    → ((p : String) → has_key rest p ≡ true → has_key b p ≡ true)
    → Compares i cutoff earlier b
    → Compares i cutoff earlier rest
unfolding Compares
Compares-rest i none earlier b rest k h = tt
Compares-rest i (some cutoff) earlier b rest k h = λ p e. h p (k p e)

contains-keep_if :
    (expired : Bool) (point p : String) (points : List String)
    → contains (keep_if expired point points) p
      ≡ (if expired then p == point || contains points p else contains points p)
contains-keep_if true point p points = refl
contains-keep_if false point p points = refl

-- The points that are listed.
Lists : Option String → (String → Bool) → Settings → List String → Type 0
unfolding has_key
Lists cutoff earlier b points =
    (p : String) → contains points p ≡ (has_key b p && goes cutoff earlier p)

keep_if-Lists :
    (cutoff : Option String) (earlier : String → Bool) (b rest : Settings) (point : String)
    (points : List String)
    → ((p : String) → has_key b p ≡ (p == point || has_key rest p))
    → Lists cutoff earlier rest points
    → Lists cutoff earlier b (keep_if (goes cutoff earlier point) point points)
unfolding Lists
keep_if-Lists cutoff earlier b rest point points k h p = elim (Bool-cases (p == point)) [
  | inl e ↦
      let same : goes cutoff earlier p ≡ goes cutoff earlier point =
        ap (goes cutoff earlier) (eq_of_== p point e) in
      ground (arith, contains-keep_if (goes cutoff earlier point) point p points, h p, k p, same)
  | inr e ↦ ground (arith, contains-keep_if (goes cutoff earlier point) point p points, h p, k p)
]

expired_points-Lists :
    (i : Interface) (cutoff : Option String) (earlier : String → Bool) (b : Settings)
    → Compares i cutoff earlier b
    → Returns (Lists cutoff earlier b) (expired_points i cutoff b)
unfolding expired_points has_key Lists
expired_points-Lists i cutoff earlier empty h = λ p. refl
expired_points-Lists i cutoff earlier (leaf point v rest) h =
    rw (is_expired-ok i cutoff earlier (leaf point v rest) point h (ground (arith, eq_refl point)))
      (Returns->>= (Lists cutoff earlier rest) (Lists cutoff earlier (leaf point v rest)) _ _
        (expired_points-Lists i cutoff earlier rest
          (Compares-rest i cutoff earlier (leaf point v rest) rest (λ p e. ground arith) h))
        (λ points listed.
          keep_if-Lists cutoff earlier (leaf point v rest) rest point points (λ p. ground arith)
            listed))
expired_points-Lists i cutoff earlier (section point t rest) h =
    rw
      (is_expired-ok i cutoff earlier (section point t rest) point h
        (ground (arith, eq_refl point)))
      (Returns->>= (Lists cutoff earlier rest) (Lists cutoff earlier (section point t rest)) _ _
        (expired_points-Lists i cutoff earlier rest
          (Compares-rest i cutoff earlier (section point t rest) rest (λ p e. ground arith) h))
        (λ points listed.
          keep_if-Lists cutoff earlier (section point t rest) rest point points (λ p. ground arith)
            listed))

-- What is kept of a point's broadcasts, where `None` counts as nothing.
unfoldable pub IsKept : Option String → (String → Bool) → Settings → Settings → Type 0
unfolding find
IsKept cutoff earlier before after =
    (p n : String) (q : Keys)
    → drop_none (find (p ∷ n ∷ q) after)
      ≡ (if goes cutoff earlier p then none else drop_none (find (p ∷ n ∷ q) before))

drop_none_twice : (v : Option (Option Item)) → drop_none (drop_none v) ≡ drop_none v
drop_none_twice none = refl
drop_none_twice (some none) = refl
drop_none_twice (some (some x)) = refl

drop_if :
    (b : Bool) (v : Option (Option Item))
    → drop_none (if b then none else drop_none v) ≡ (if b then none else drop_none v)
drop_if true v = refl
drop_if false v = drop_none_twice v

expired_eq :
    (expired key hit : Bool) (v : Option (Option Item))
    → hit ≡ (key && expired)
    → (key ≡ false → v ≡ none)
    → (if hit then none else drop_none v) ≡ (if expired then none else drop_none v)
expired_eq expired true hit v e h = rw e refl
expired_eq true false hit v e h = rw e (ap drop_none (h refl))
expired_eq false false hit v e h = rw e refl

and_true : (b : Bool) → (b && (true && true)) ≡ b
and_true true = refl
and_true false = refl

expire_points-IsKept :
    (i : Interface) (shape : Shape) (mgr : BroadcastMgr) (cutoff : Option String)
    (earlier : String → Bool) (points : List String)
    → shape [] ≡ true
    → HasShape (whole shape) mgr.broadcasts
    → ((p : String) → contains points p ≡ (has_key mgr.broadcasts p && goes cutoff earlier p))
    → Returns
        (λ r. IsKept cutoff earlier mgr.broadcasts r.0.broadcasts)
        (expire_points i mgr cutoff points)
unfolding expire_points IsKept IsCleared
expire_points-IsKept i shape mgr cutoff earlier [] root h listed = λ p n q.
    expired_eq (goes cutoff earlier p) (has_key mgr.broadcasts p) false
      (find (p ∷ n ∷ q) mgr.broadcasts) (listed p) (find-none p (n ∷ q) mgr.broadcasts)
expire_points-IsKept i shape mgr cutoff earlier (point ∷ points) root h listed =
    Returns->>= (λ c. IsCleared shape (point ∷ points) [] [] mgr.broadcasts c.0.broadcasts)
      (λ r. IsKept cutoff earlier mgr.broadcasts r.0.broadcasts) _ _
      (clear_broadcast-IsCleared i shape mgr (point ∷ points) [] [] root h)
      (λ c (hc, pruned, seen) p n q.
        ap drop_none (seen p n q)
        ∙ drop_if (contains (point ∷ points) p && (true && true)) (find (p ∷ n ∷ q) mgr.broadcasts)
        ∙ expired_eq (goes cutoff earlier p) (has_key mgr.broadcasts p)
            (contains (point ∷ points) p && (true && true)) (find (p ∷ n ∷ q) mgr.broadcasts)
            (and_true (contains (point ∷ points) p) ∙ listed p)
            (find-none p (n ∷ q) mgr.broadcasts))

-- When the broadcasts have the shape of the configuration, and each point that they have, but for the names of
-- all cycles, compares with the cutoff if there is one, `expire_broadcast` raises nothing. Where `None` counts
-- as no setting, the broadcasts to all points are gone without a cutoff; with one, those to the points before it
-- are gone. All others are as they were, those to the names of all cycles among them.
pub expire_broadcast-IsKept :
    (i : Interface) (shape : Shape) (mgr : BroadcastMgr) (cutoff : Option String)
    (earlier : String → Bool)
    → shape [] ≡ true
    → HasShape (whole shape) mgr.broadcasts
    → Compares i cutoff earlier mgr.broadcasts
    → Returns
        (λ expired. IsKept cutoff earlier mgr.broadcasts expired.0.broadcasts)
        (expire_broadcast i mgr cutoff)
unfolding expire_broadcast Lists
expire_broadcast-IsKept i shape mgr cutoff earlier root h compares =
    Returns->>= (Lists cutoff earlier mgr.broadcasts)
      (λ expired. IsKept cutoff earlier mgr.broadcasts expired.0.broadcasts) _ _
      (expired_points-Lists i cutoff earlier mgr.broadcasts compares)
      (λ points listed. expire_points-IsKept i shape mgr cutoff earlier points root h listed)
