-- ===== src/BroadcastMgr/Operations/Rows.antt =====
-- The rows that `put_broadcast` collects for the database.
use cylc_flow.Prelude.{
  ◌≡◌, refl, inl, inr, String, Bool, true, false, ◌&&◌, Option, none, some, List, [], ◌∷◌, ◌++◌,
  All, string_eq, nat_eq, Bool-cases,
}
use cylc_flow.Prelude.Assoc.{Assoc, has}
use cylc_flow.Prelude.Result.{
  Result, ok, err, fold_result, Returns, Ensures, Ensures-any, Ensures->>=, Ensures-fold_result,
}
use cylc_flow.Prelude.Int.{int_eq}
use cylc_flow.BroadcastMgr.{
  Item, Settings, empty, leaf, section, Found, missing, value, dict, find_key, addict,
}
use Prim.Native.String.{◌++◌ as ◌<>◌}
use cylc_flow.BroadcastMgr.Dict.{has_key}
use cylc_flow.BroadcastMgr.Keys.{bracket, change_from}
use cylc_flow.BroadcastMgr.Operations.{
  Row, Interface, Put, existing, put_settings, put_found, put_namespace, standard_point, add_point,
  put_point, put_validated, put_setting, check_rows,
}

-- The first entries lead to a value, not to an empty dictionary.
unfoldable pub IsReportable : Settings → Type 0
IsReportable empty = ⊥
IsReportable (leaf k v rest) = Unit {0}
IsReportable (section k s rest) = IsReportable s

abbrev pub AreReportable : List Row → Type 0
AreReportable [] = Unit {0}
AreReportable ((p, n, s) ∷ rows) = IsReportable s × AreReportable rows

AreReportable-snoc :
    (rows : List Row) (p n : String) (s : Settings)
    → IsReportable s
    → AreReportable rows
    → AreReportable (rows ++ (p, n, s) ∷ [])
AreReportable-snoc [] p n s h k = (h, tt)
AreReportable-snoc ((p', n', s') ∷ rows) p n s h (a, b) = (a, AreReportable-snoc rows p n s h b)

change_from-some :
    (keys_str : String) (s : Settings)
    → IsReportable s
    → (change : String × Option Item) × (change_from keys_str s ≡ some change)
unfolding IsReportable change_from
change_from-some keys_str empty h = absurd h
change_from-some keys_str (leaf k v rest) h = (_, refl)
change_from-some keys_str (section k s rest) h = change_from-some (keys_str <> bracket k) s h

pub check_rows-ok : (rows : List Row) → AreReportable rows → check_rows rows ≡ ok tt
unfolding check_rows
check_rows-ok [] h = refl
check_rows-ok ((p, n, s) ∷ rows) (a, b) =
    let (change, e) = change_from-some "" s a in rw e (check_rows-ok rows b)

pub both_hold {ℓ} :
    {E : Type 0} {A : Type ℓ} (P Q : A → Type 0) (r : Result E A)
    → Returns P r
    → Ensures Q r
    → Returns (λ a. P a × Q a) r
both_hold P Q (err e) h k = absurd h
both_hold P Q (ok a) h k = (h, k)

-- What the rows keep when the setting is added for any point and namespace.
module _ (i : Interface) (ancestors : Assoc String (List String)) (P : List Row → Type 0)
    (setting : Settings)
    (grows : (rows : List Row) (p n : String) → P rows → P (rows ++ (p, n, setting) ∷ [])) where
  abbrev Keeps : Put → Type 0
  Keeps put = P put.modified_settings

  put_settings-Keeps :
      (coerced : Settings) (point namespace : String) (t : Settings) (put : Put)
      → Keeps put
      → Ensures Keeps (put_settings i setting coerced point namespace t put)
  unfolding put_settings
  put_settings-Keeps coerced point namespace t put h =
      Ensures->>= (λ d. Unit {0}) Keeps (existing t namespace) _
        (Ensures-any (Unit {0}) (existing t namespace) tt)
        (λ d k. elim (Bool-cases (i.mixes namespace d coerced)) [
          | inl mixed ↦ rw mixed h
          | inr fits ↦ rw fits (
              Ensures->>= (λ d'. Unit {0}) Keeps (addict d coerced) _
                (Ensures-any (Unit {0}) (addict d coerced) tt)
                (λ d' k'. grows put.modified_settings point namespace h))
        ])

  put_found-Keeps :
      (coerced : Settings) (point namespace : String) (put : Put) (f : Found)
      → Keeps put
      → Ensures Keeps (put_found i setting coerced point namespace put f)
  put_found-Keeps coerced point namespace put missing h =
      elim (Bool-cases (i.mixes namespace empty coerced)) [
        | inl mixed ↦ rw mixed h
        | inr fits ↦ rw fits tt
      ]
  put_found-Keeps coerced point namespace put (dict t) h =
      put_settings-Keeps coerced point namespace t put h
  put_found-Keeps coerced point namespace put (value v) h = tt

  pub put_namespace-Keeps :
      (coerced : Settings) (point : String) (bad : Bool) (put : Put) (namespace : String)
      → Keeps put
      → Ensures Keeps (put_namespace i ancestors setting coerced point bad put namespace)
  unfolding put_namespace
  put_namespace-Keeps coerced point bad put namespace h =
      elim (Bool-cases (has ancestors namespace)) [
        | inr unknown ↦ rw (unknown, put_namespace) h
        | inl known ↦ elim (Bool-cases bad) [
          | inl b ↦ rw (known, b, put_namespace) h
          | inr b ↦
              rw (known, b, put_namespace)
                (put_found-Keeps coerced point namespace put (find_key put.put_broadcasts point) h)
        ]
      ]

  add_point-Keeps :
      (point : String) (bad : Bool) (put : Put) → Keeps put → Keeps (add_point point bad put)
  add_point-Keeps point true put h = h
  add_point-Keeps point false put h = elim (Bool-cases (has_key put.put_broadcasts point)) [
    | inl old ↦ rw (old, add_point) h
    | inr new ↦ rw (new, add_point) h
  ]

  pub put_point-Keeps :
      (namespaces : List String) (coerced : Settings) (put : Put) (point_string : String)
      → Keeps put
      → Ensures Keeps (put_point i ancestors namespaces setting coerced put point_string)
  unfolding put_point
  put_point-Keeps namespaces coerced put point_string h =
      let (point, bad) = standard_point i point_string in
      Ensures-fold_result Keeps (put_namespace i ancestors setting coerced point bad)
        (λ s a k. put_namespace-Keeps coerced point bad s a k) (add_point point bad put) namespaces
        (add_point-Keeps point bad put h)

  pub put_validated-Keeps :
      (points namespaces : List String) (put : Put) (validated : Option Settings)
      → Keeps put
      → Ensures Keeps (put_validated i ancestors points namespaces put setting validated)
  unfolding put_validated
  put_validated-Keeps points namespaces put none h = h
  put_validated-Keeps points namespaces put (some coerced) h =
      elim (Bool-cases (has_key coerced "run mode" && i.is_workflow_only)) [
        | inl b ↦ rw b h
        | inr b ↦ rw b (
            Ensures-fold_result Keeps (put_point i ancestors namespaces setting coerced)
              (λ s a k. put_point-Keeps namespaces coerced s a k) put points h)
      ]

-- A loop in which a round keeps something for the elements that have a property.
Ensures-fold_All {ℓ} :
    {E : Type 0} {S : Type ℓ} {A : Type 0} (Q : A → Type 0) (P : S → Type 0)
    (f : S → A → Result E S)
    → ((s : S) (a : A) → Q a → P s → Ensures P (f s a))
    → (s : S) (xs : List A) → All Q xs
    → P s
    → Ensures P (fold_result f s xs)
unfolding fold_result
Ensures-fold_All Q P f step s [] q h = h
Ensures-fold_All Q P f step s (x ∷ xs) (q, qs) h =
    Ensures->>= P P (f s x) (λ s'. fold_result f s' xs) (step s x q h)
      (λ s' h'. Ensures-fold_All Q P f step s' xs qs h')

-- The rows are reportable when all the settings are.
pub put_setting-AreReportable :
    (i : Interface) (ancestors : Assoc String (List String)) (points namespaces : List String)
    (put : Put) (settings : List Settings)
    → All IsReportable settings
    → AreReportable put.modified_settings
    → Ensures
        (λ put'. AreReportable put'.modified_settings)
        (fold_result (put_setting i ancestors points namespaces) put settings)
unfolding put_setting
put_setting-AreReportable i ancestors points namespaces put settings all_reportable h =
    Ensures-fold_All IsReportable (λ put'. AreReportable put'.modified_settings)
      (put_setting i ancestors points namespaces)
      (λ s a reportable k.
        put_validated-Keeps i ancestors AreReportable a
          (λ rows p n rest. AreReportable-snoc rows p n a reportable rest) points namespaces s
          (i.validate a) k)
      put settings all_reportable h
