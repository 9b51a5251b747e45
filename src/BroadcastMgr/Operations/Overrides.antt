-- ===== src/BroadcastMgr/Operations/Overrides.antt =====
-- `put_broadcast` returns, and what it reports as modified is what it changes.
use cylc_flow.Prelude.{
  ◌≡◌, refl, sym, ◌∙◌, ap, inl, inr, String, Bool, true, false, not, ◌&&◌, Option, none, some, List,
  [], ◌∷◌, ◌++◌, All, if◌then◌else◌, ◌==◌, string_eq, nat_eq, eq_of_==, arith, Bool-cases,
}
use cylc_flow.Prelude.Assoc.{Assoc, keys, put, has}
use cylc_flow.Prelude.Result.{ok, ◌>>=◌}
use cylc_flow.Prelude.Int.{int_eq}
use cylc_flow.BroadcastMgr.{
  Item, Settings, empty, BroadcastError, Found, missing, value, dict, same_settings, find_key,
  set_section, addict, Keys,
}
use cylc_flow.BroadcastMgr.Dict.{
  or_else, find, has_key, Shape, under, HasShape, whole, has_key-set_section, find-set_section,
  find_key-missing, find-none,
}
use cylc_flow.BroadcastMgr.Overlay.{
  HasShape-set_section, FoundAs, find_key-FoundAs, find_empty, IsOver, addict-Adds,
}
use cylc_flow.BroadcastMgr.Operations.{
  Row, BroadcastMgr, Interface, Put, Changed, refuse, existing_of, existing, put_settings,
  put_found, put_namespace, standard_point, add_point, put_point, put_validated, put_setting,
  finish_put, put_broadcast, add_once, uniq_from, uniq, same_row, db_put_broadcast, delta_if,
}
use cylc_flow.BroadcastMgr.Operations.Rows.{
  IsReportable, AreReportable, check_rows-ok, both_hold, put_setting-AreReportable,
}
use cylc_flow.Prelude.Result.{fold_result, Returns, Returns->>=, Returns-mono, Returns-fold_result}

-- What is kept of broadcasts: a value, which may be `None`, for a point, a namespace and keys.
abbrev pub View : Type 0
View = String → String → Keys → Option (Option Item)

unfoldable pub view : Settings → View
unfolding find
view broadcasts point namespace keys = find (point ∷ namespace ∷ keys) broadcasts

abbrev pub coerced_of : Interface → Settings → Settings
coerced_of i setting = elim (i.validate setting) [ none ↦ empty | some coerced ↦ coerced ]

-- The settings of a row, coerced, over those of its point and namespace.
unfoldable pub override : Interface → Row → View → View
unfolding find
override i (p, n, setting) v point namespace keys =
    let old = v point namespace keys in
    if point == p && namespace == n then or_else (find keys (coerced_of i setting)) old else old

unfoldable pub overrides : Interface → List Row → View → View
unfolding override
overrides i [] v = v
overrides i (row ∷ rows) v = overrides i rows (override i row v)

overrides-snoc :
    (i : Interface) (rows : List Row) (row : Row) (v : View)
    → overrides i (rows ++ row ∷ []) v ≡ override i row (overrides i rows v)
unfolding overrides
overrides-snoc i [] row v = refl
overrides-snoc i (r ∷ rows) row v = overrides-snoc i rows row (override i r v)

-- Coerced settings have the shape of the configuration.
unfoldable pub IsSound : Interface → Shape → Type 0
unfolding HasShape
IsSound i shape = (shape [] ≡ true) × ((s c : Settings) → i.validate s ≡ some c → HasShape shape c)

module _ (i : Interface) (shape : Shape) (old : View) where
  -- What holds of the variables of `put_broadcast`.
  unfoldable Describes : Put → Type 0
  unfolding HasShape view overrides
  Describes put =
      HasShape (whole shape) put.put_broadcasts
      × ((p n : String) (q : Keys)
          → view put.put_broadcasts p n q ≡ overrides i put.modified_settings old p n q)

  -- It holds, and the point has a dictionary.
  abbrev DescribesAt : String → Put → Type 0
  DescribesAt point put = Describes put × (has_key put.put_broadcasts point ≡ true)

  abbrev Stands : Settings → String → Settings → Type 0
  Stands t namespace d = HasShape shape d × ((q : Keys) → find (namespace ∷ q) t ≡ find q d)

  found-existing :
      (t : Settings) (namespace : String) (f : Found) (point : String)
      → FoundAs (under point (whole shape)) t namespace f
      → Returns (Stands t namespace) (existing_of f)
  unfolding FoundAs HasShape
  found-existing t namespace missing point h = (tt, λ q. h q ∙ sym (find_empty q))
  found-existing t namespace (dict d) point h = h
  found-existing t namespace (value v) point h = absurd h

  override-eq :
      (setting coerced : Settings) (point namespace : String) (v : View) (p n : String) (q : Keys)
      → i.validate setting ≡ some coerced
      → override i (point, namespace, setting) v p n q
        ≡ (if p == point && n == namespace then or_else (find q coerced) (v p n q) else v p n q)
  unfolding override
  override-eq setting coerced point namespace v p n q e =
      let same : coerced_of i setting ≡ coerced = rw (e, coerced_of) refl in
      ap (λ c. if p == point && n == namespace then or_else (find q c) (v p n q) else v p n q) same

  view-put :
      (b t d d' coerced setting : Settings) (point namespace : String) (rows : List Row)
      → i.validate setting ≡ some coerced
      → ((q : Keys) → find (point ∷ q) b ≡ find q t)
      → ((q : Keys) → find (namespace ∷ q) t ≡ find q d)
      → IsOver coerced d d'
      → ((p n : String) (q : Keys) → view b p n q ≡ overrides i rows old p n q)
      → (p n : String) (q : Keys)
      → view (set_section b point (set_section t namespace d')) p n q
        ≡ overrides i (rows ++ (point, namespace, setting) ∷ []) old p n q
  unfolding view
  view-put b t d d' coerced setting point namespace rows e ft fd over h p n q =
      rw
        (
          overrides-snoc i rows (point, namespace, setting) old,
          override-eq setting coerced point namespace (overrides i rows old) p n q e,
        )
        (ground (
          arith,
          find-set_section b point (set_section t namespace d') p (n ∷ q),
          find-set_section t namespace d' n q,
          over q,
          ft (n ∷ q),
          fd q,
          h p n q,
          eq_of_== p point,
          eq_of_== n namespace,
        ))

  has_key-put :
      (b t : Settings) (point : String)
      → has_key b point ≡ true
      → has_key (set_section b point t) point ≡ true
  has_key-put b t point h = ground (arith, has_key-set_section b point point t)

  put_settings-Describes :
      (setting coerced t : Settings) (point namespace : String) (put : Put)
      → shape [] ≡ true
      → i.validate setting ≡ some coerced
      → HasShape shape coerced
      → HasShape (under point (whole shape)) t
      → ((q : Keys) → find (point ∷ q) put.put_broadcasts ≡ find q t)
      → DescribesAt point put
      → Returns (DescribesAt point) (put_settings i setting coerced point namespace t put)
  unfolding put_settings Describes
  put_settings-Describes setting coerced t point namespace put root e shaped ht ft ((h, v), k) =
      Returns->>= (Stands t namespace) (DescribesAt point) (existing t namespace) _
        (found-existing t namespace (find_key t namespace) point
          (find_key-FoundAs (under point (whole shape)) t namespace ht root))
        (λ d (hd, fd).
          let (d', e', hd', over) = addict-Adds shape d coerced hd shaped in
          elim (i.mixes namespace d coerced)
            as (λ mixes. Returns (DescribesAt point) (
              if mixes
              then ok (refuse setting put)
              else addict d coerced >>= λ d'. ok record put {
                put_broadcasts = set_section put.put_broadcasts point (set_section t namespace d');
                modified_settings = put.modified_settings ++ (point, namespace, setting) ∷ [];
              })) [
                | true ↦ ((h, v), k)
                | false ↦ rw e' (
                  (
                    HasShape-set_section (whole shape) put.put_broadcasts point
                        (set_section t namespace d') h refl
                        (HasShape-set_section (under point (whole shape)) t namespace d' ht root
                          hd'),
                    view-put put.put_broadcasts t d d' coerced setting point namespace
                        put.modified_settings e ft fd over v,
                  ),
                  has_key-put put.put_broadcasts (set_section t namespace d') point k,
                )
              ])

  put_found-Describes :
      (setting coerced : Settings) (point namespace : String) (put : Put) (f : Found)
      → shape [] ≡ true
      → i.validate setting ≡ some coerced
      → HasShape shape coerced
      → find_key put.put_broadcasts point ≡ f
      → FoundAs (whole shape) put.put_broadcasts point f
      → DescribesAt point put
      → Returns (DescribesAt point) (put_found i setting coerced point namespace put f)
  unfolding FoundAs
  put_found-Describes setting coerced point namespace put missing root e shaped found h (d, k) =
      let fresh = find_key-missing put.put_broadcasts point found in absurd (ground arith)
  put_found-Describes setting coerced point namespace put (dict t) root e shaped found (ht, ft) h =
      put_settings-Describes setting coerced t point namespace put root e shaped ht ft h
  put_found-Describes setting coerced point namespace put (value v) root e shaped found h d =
      absurd h

  put_namespace-Describes :
      (ancestors : Assoc String (List String)) (setting coerced : Settings)
      (point namespace : String) (put : Put)
      → shape [] ≡ true
      → i.validate setting ≡ some coerced
      → HasShape shape coerced
      → DescribesAt point put
      → Returns
          (DescribesAt point)
          (put_namespace i ancestors setting coerced point false put namespace)
  unfolding put_namespace Describes
  put_namespace-Describes ancestors setting coerced point namespace put root e shaped h =
      elim (has ancestors namespace)
        as (λ known. Returns (DescribesAt point) (
          if not known
          then ok record put { refused_namespaces = add_once namespace put.refused_namespaces }
          else put_found i setting coerced point namespace put
              (find_key put.put_broadcasts point))) [
                | true ↦
                    put_found-Describes setting coerced point namespace put
                      (find_key put.put_broadcasts point) root e shaped refl
                      (find_key-FoundAs (whole shape) put.put_broadcasts point h.0.0 refl) h
                | false ↦ h
              ]

  bad_namespace-Describes :
      (ancestors : Assoc String (List String)) (setting coerced : Settings) (point : String)
      (put : Put) (namespace : String)
      → Describes put
      → Returns Describes (put_namespace i ancestors setting coerced point true put namespace)
  unfolding put_namespace Describes
  bad_namespace-Describes ancestors setting coerced point put namespace h =
      elim (has ancestors namespace)
        as (λ known. Returns {E = BroadcastError} Describes (
          if not known
          then ok record put { refused_namespaces = add_once namespace put.refused_namespaces }
          else ok put)) [ true ↦ h | false ↦ h ]

  view-add_point :
      (b : Settings) (point p n : String) (q : Keys)
      → has_key b point ≡ false
      → view (set_section b point empty) p n q ≡ view b p n q
  unfolding view
  view-add_point b point p n q h = ground (
    arith,
    find-set_section b point empty p (n ∷ q),
    find_empty (n ∷ q),
    find-none p (n ∷ q) b,
    eq_of_== p point,
  )

  add_point-Describes :
      (point : String) (put : Put) → Describes put → DescribesAt point (add_point point false put)
  unfolding Describes HasShape
  add_point-Describes point put (h, v) = elim (Bool-cases (has_key put.put_broadcasts point)) [
    | inl old ↦ rw (old, add_point) ((h, v), old)
    | inr new ↦
        rw (new, add_point)
          (
            (
              HasShape-set_section (whole shape) put.put_broadcasts point empty h refl tt,
              λ p n q. view-add_point put.put_broadcasts point p n q new ∙ v p n q,
            ),
            ground (arith, has_key-set_section put.put_broadcasts point point empty),
          )
  ]

  put_point-Describes :
      (ancestors : Assoc String (List String)) (namespaces : List String)
      (setting coerced : Settings) (put : Put) (point_string : String)
      → shape [] ≡ true
      → i.validate setting ≡ some coerced
      → HasShape shape coerced
      → Describes put
      → Returns Describes (put_point i ancestors namespaces setting coerced put point_string)
  unfolding put_point Describes
  put_point-Describes ancestors namespaces setting coerced put point_string root e shaped h =
      go (standard_point i point_string)
    where
      good :
          (point : String)
          → Returns Describes (
              fold_result
                (put_namespace i ancestors setting coerced point false)
                (add_point point false put)
                namespaces)
      good point =
          Returns-mono (DescribesAt point) Describes _
            (Returns-fold_result (DescribesAt point)
              (put_namespace i ancestors setting coerced point false)
              (λ s a. put_namespace-Describes ancestors setting coerced point a s root e shaped)
              (add_point point false put) namespaces (add_point-Describes point put h))
            (λ s d. d.0)

      go :
          (pb : String × Bool)
          → Returns Describes (
              fold_result
                (put_namespace i ancestors setting coerced pb.0 pb.1)
                (add_point pb.0 pb.1 put)
                namespaces)
      go (point, true) =
          Returns-fold_result Describes (put_namespace i ancestors setting coerced point true)
            (λ s a. bad_namespace-Describes ancestors setting coerced point s a)
            (add_point point true put) namespaces h
      go (point, false) = good point

  put_validated-Describes :
      (ancestors : Assoc String (List String)) (points namespaces : List String) (put : Put)
      (setting : Settings) (validated : Option Settings)
      → IsSound i shape
      → i.validate setting ≡ validated
      → Describes put
      → Returns Describes (put_validated i ancestors points namespaces put setting validated)
  unfolding put_validated IsSound Describes
  put_validated-Describes ancestors points namespaces put setting none sound e h = h
  put_validated-Describes ancestors points namespaces put setting (some coerced) (root, sound) e h =
      elim (has_key coerced "run mode" && i.is_workflow_only)
        as (λ b. Returns {E = BroadcastError} Describes (
          if b
          then ok (refuse setting put)
          else fold_result (put_point i ancestors namespaces setting coerced) put points)) [
            | true ↦ h
            | false ↦
                Returns-fold_result Describes (put_point i ancestors namespaces setting coerced)
                  (λ s a.
                    put_point-Describes ancestors namespaces setting coerced s a root e
                      (sound setting coerced e))
                  put points h
          ]

-- What `put_broadcast` promises.
unfoldable pub IsPut : Interface → Shape → BroadcastMgr → Changed → Type 0
unfolding HasShape view overrides uniq_from same_settings
IsPut i shape mgr (changed, modified, bad) =
    HasShape (whole shape) changed.broadcasts
    × (rows : List Row) × (changed.effects
        ≡ mgr.effects ++ db_put_broadcast rows false ∷ delta_if rows)
    × (changed.ext_triggers ≡ mgr.ext_triggers)
    × (modified ≡ uniq same_row rows)
    × ((p n : String) (q : Keys)
        → view changed.broadcasts p n q ≡ overrides i rows (view mgr.broadcasts) p n q)

-- When the validator returns settings in the shape of the configuration, the broadcasts have it, and the first
-- entries of each setting lead to a value, `put_broadcast` raises nothing and keeps the shape of the broadcasts:
-- the broadcasts afterwards are those before with each row that goes to the database, in order, laid over
-- those of its point and namespace in its coerced form. The rows are those it returns but for duplicates, and
-- the data store is told when there are any.
pub put_broadcast-IsPut :
    (i : Interface) (shape : Shape) (mgr : BroadcastMgr) (points namespaces : List String)
    (settings : List Settings)
    → IsSound i shape
    → HasShape (whole shape) mgr.broadcasts
    → All IsReportable settings
    → Returns (IsPut i shape mgr) (put_broadcast i mgr points namespaces settings)
unfolding put_broadcast put_setting IsPut finish_put Describes overrides
put_broadcast-IsPut i shape mgr points namespaces settings sound h reportable =
    Returns->>=
      (λ put. Describes i shape (view mgr.broadcasts) put × AreReportable put.modified_settings)
      (IsPut i shape mgr) _ _
      (both_hold (Describes i shape (view mgr.broadcasts))
        (λ put. AreReportable put.modified_settings) _
        (Returns-fold_result (Describes i shape (view mgr.broadcasts))
          (put_setting i mgr.linearized_ancestors points namespaces)
          (λ s a d.
            put_validated-Describes i shape (view mgr.broadcasts) mgr.linearized_ancestors points
              namespaces s a (i.validate a) sound refl d)
          _ settings (h, λ p n q. refl))
        (put_setting-AreReportable i mgr.linearized_ancestors points namespaces _ settings
          reportable tt))
      (λ put ((shaped, seen), written).
        rw (check_rows-ok put.modified_settings written)
          (shaped, put.modified_settings, refl, refl, refl, seen))
