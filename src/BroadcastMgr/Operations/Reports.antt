-- ===== src/BroadcastMgr/Operations/Reports.antt =====
-- `put_broadcast` puts each setting that nothing speaks against.
use cylc_flow.Prelude.{
  ◌≡◌, refl, sym, subst, ◌⊎◌, inl, inr, String, true, false, ◌&&◌, some, List, [], ◌∷◌, ◌++◌, All,
  string_eq, nat_eq,
}
use cylc_flow.Prelude.Assoc.{Assoc, put, has}
use cylc_flow.Prelude.Result.{Result}
use cylc_flow.Prelude.Int.{int_eq}
use cylc_flow.BroadcastMgr.{Settings, empty, Found, missing, value, dict, find_key, addict}
use cylc_flow.BroadcastMgr.Dict.{has_key, Shape, HasShape, whole}
use cylc_flow.BroadcastMgr.Operations.{
  Row, BroadcastMgr, Interface, Put, Changed, existing, put_settings, put_found, put_namespace,
  standard_point, add_point, put_point, put_validated, put_setting, check_rows, finish_put,
  put_broadcast, db_put_broadcast, delta_if,
}
use cylc_flow.BroadcastMgr.Operations.Rows.{
  IsReportable, both_hold, put_namespace-Keeps, put_point-Keeps, put_validated-Keeps,
}
use cylc_flow.BroadcastMgr.Operations.Overrides.{IsSound, IsPut, put_broadcast-IsPut}
use cylc_flow.Prelude.Result.{
  fold_result, Returns, Ensures, Ensures-any, Ensures->>=, Ensures-fold_result,
}

unfoldable pub In : {A : Type 0} → A → List A → Type 0
In x [] = ⊥
In x (y ∷ ys) = (y ≡ x) ⊎ In x ys

In-append : {A : Type 0} (x : A) (xs ys : List A) → In x xs → In x (xs ++ ys)
unfolding In
In-append x [] ys h = absurd h
In-append x (y ∷ xs) ys (inl e) = inl e
In-append x (y ∷ xs) ys (inr h) = inr (In-append x xs ys h)

In-snoc : {A : Type 0} (x : A) (xs : List A) → In x (xs ++ x ∷ [])
unfolding In
In-snoc x [] = inl refl
In-snoc x (y ∷ xs) = inr (In-snoc x xs)

-- What one of the rounds brings about and all of them keep.
Ensures-round {ℓ} :
    {E : Type 0} {S : Type ℓ} {A : Type 0} (P : S → Type 0) (f : S → A → Result E S) (x : A)
    → ((s : S) (a : A) → P s → Ensures P (f s a))
    → ((s : S) → Ensures P (f s x))
    → (s : S) (xs : List A) → In x xs
    → Ensures P (fold_result f s xs)
unfolding fold_result In
Ensures-round P f x keeps adds s [] h = absurd h
Ensures-round P f x keeps adds s (y ∷ xs) (inl e) =
    Ensures->>= P P (f s y) (λ s'. fold_result f s' xs)
      (subst (λ a. Ensures P (f s a)) (sym e) (adds s))
      (λ s' h. Ensures-fold_result P f keeps s' xs h)
Ensures-round P f x keeps adds s (y ∷ xs) (inr h) =
    Ensures->>= (λ s'. Unit {0}) P (f s y) (λ s'. fold_result f s' xs)
      (Ensures-any (Unit {0}) (f s y) tt) (λ s' k. Ensures-round P f x keeps adds s' xs h)

-- Nothing speaks against a setting: it has a coerced form, which the run mode allows; the point is good; the namespace
-- is known; and the platform settings of the namespace never conflict with it.
unfoldable pub IsAccepted :
    Interface → Assoc String (List String) → Settings → Settings → String → String → String → Type 0
unfolding has_key has
IsAccepted i ancestors setting coerced point_string point namespace =
    (i.validate setting ≡ some coerced)
    × ((has_key coerced "run mode" && i.is_workflow_only) ≡ false)
    × (standard_point i point_string ≡ (point, false))
    × (has ancestors namespace ≡ true)
    × ((d : Settings) → i.mixes namespace d coerced ≡ false)

module _ (i : Interface) (ancestors : Assoc String (List String)) (setting coerced : Settings)
    (point_string point namespace : String) where
  abbrev Added : Put → Type 0
  Added put = In (point, namespace, setting) put.modified_settings

  added :
      (other : Settings) (rows : List Row) (p n : String)
      → In (point, namespace, setting) rows
      → In (point, namespace, setting) (rows ++ (p, n, other) ∷ [])
  added other rows p n h = In-append (point, namespace, setting) rows ((p, n, other) ∷ []) h

  found-Added :
      (put : Put) (f : Found)
      → IsAccepted i ancestors setting coerced point_string point namespace
      → Ensures Added (put_found i setting coerced point namespace put f)
  unfolding put_settings IsAccepted
  found-Added put missing h = rw (h.4 empty) tt
  found-Added put (dict t) h =
      Ensures->>= (λ d. Unit {0}) Added (existing t namespace) _
        (Ensures-any (Unit {0}) (existing t namespace) tt)
        (λ d k. rw (h.4 d) (
          Ensures->>= (λ d'. Unit {0}) Added (addict d coerced) _
            (Ensures-any (Unit {0}) (addict d coerced) tt)
            (λ d' k'. In-snoc (point, namespace, setting) put.modified_settings)))
  found-Added put (value v) h = tt

  point-Added :
      (namespaces : List String) (put : Put)
      → IsAccepted i ancestors setting coerced point_string point namespace
      → In namespace namespaces
      → Ensures Added (put_point i ancestors namespaces setting coerced put point_string)
  unfolding put_point put_namespace IsAccepted
  point-Added namespaces put h listed = rw (h.2) (
      Ensures-round Added (put_namespace i ancestors setting coerced point false) namespace
        (λ s a k.
          put_namespace-Keeps i ancestors (In (point, namespace, setting)) setting (added setting)
            coerced point false s a k)
        (λ s. rw (h.3, put_namespace) (found-Added s (find_key s.put_broadcasts point) h))
        (add_point point false put) namespaces listed)

  setting-Added :
      (points namespaces : List String) (put : Put)
      → IsAccepted i ancestors setting coerced point_string point namespace
      → In point_string points
      → In namespace namespaces
      → Ensures Added (put_setting i ancestors points namespaces put setting)
  unfolding put_setting put_validated IsAccepted
  setting-Added points namespaces put h at_point listed =
      rw (h.0, h.1)
        (Ensures-round Added (put_point i ancestors namespaces setting coerced) point_string
          (λ s a k.
            put_point-Keeps i ancestors (In (point, namespace, setting)) setting (added setting)
              namespaces coerced s a k)
          (λ s. point-Added namespaces s h listed) put points at_point)

-- The row goes to the database.
unfoldable pub IsWritten : BroadcastMgr → Row → Changed → Type 0
unfolding In
IsWritten mgr row changed =
    (rows : List Row) × (changed.0.effects
      ≡ mgr.effects ++ db_put_broadcast rows false ∷ delta_if rows)
    × In row rows

-- When the validator returns settings in the shape of the configuration, the broadcasts have it, and the first
-- entries of each setting lead to a value, `put_broadcast` raises nothing; and when nothing speaks against one
-- of the settings at one of the points and one of the namespaces, a row with the point in its standard form, the
-- namespace and the setting is among those that go to the database, and so among the changes of the broadcasts.
pub put_broadcast-IsWritten :
    (i : Interface) (shape : Shape) (mgr : BroadcastMgr) (points namespaces : List String)
    (settings : List Settings) (setting coerced : Settings) (point_string point namespace : String)
    → IsSound i shape
    → HasShape (whole shape) mgr.broadcasts
    → All IsReportable settings
    → IsAccepted i mgr.linearized_ancestors setting coerced point_string point namespace
    → In setting settings
    → In point_string points
    → In namespace namespaces
    → Returns
        (λ changed. IsPut i shape mgr changed × IsWritten mgr (point, namespace, setting) changed)
        (put_broadcast i mgr points namespaces settings)
unfolding put_broadcast finish_put IsWritten put_setting
put_broadcast-IsWritten i shape mgr points namespaces settings setting coerced point_string point
      namespace sound h reportable accepted a b c =
    both_hold (IsPut i shape mgr) (IsWritten mgr (point, namespace, setting))
      (put_broadcast i mgr points namespaces settings)
      (put_broadcast-IsPut i shape mgr points namespaces settings sound h reportable)
      (Ensures->>= (Added i mgr.linearized_ancestors setting coerced point_string point namespace)
        (IsWritten mgr (point, namespace, setting)) _ _
        (Ensures-round
          (Added i mgr.linearized_ancestors setting coerced point_string point namespace)
          (put_setting i mgr.linearized_ancestors points namespaces) setting
          (λ s x k.
            put_validated-Keeps i mgr.linearized_ancestors (In (point, namespace, setting)) x
              (added i mgr.linearized_ancestors setting coerced point_string point namespace x)
              points namespaces s (i.validate x) k)
          (λ s.
            setting-Added i mgr.linearized_ancestors setting coerced point_string point namespace
              points namespaces s accepted b c)
          _ settings a)
        (λ put added.
          Ensures->>= (λ u. Unit {0}) (IsWritten mgr (point, namespace, setting))
            (check_rows put.modified_settings) _
            (Ensures-any (Unit {0}) (check_rows put.modified_settings) tt)
            (λ u k. (put.modified_settings, refl, added))))
