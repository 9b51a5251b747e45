-- ===== src/TaskQueues/Indep/Owner.antt =====
-- After `_make_indep` each task is in one queue.
use cylc_flow.Prelude.{
  ◌≡◌, refl, ◌≢◌, inl, inr, String, true, false, some, List, [], ◌∷◌, contains, IsNodup, All, ◌==◌,
  string_eq, nat_eq, eq_refl, arith, Option-cases,
}
use cylc_flow.Prelude.Assoc.{keys, get, put}
use cylc_flow.Prelude.Result.{ok}
use cylc_flow.TaskQueues.Indep.{
  QueueConfig, q_default, Configs, Assigned, assign_members, make_indep_from, make_indep,
}
use cylc_flow.TaskQueues.Indep.Config.{
  in_queue, in_queue-nil, in_queue-put, Inv, assign_members-Inv,
}

-- Between two queues nothing is pending, and the queues that are still to come own nothing.
record Between (known coming : List String) (s : Assigned) : Type 0 where
  inv : Inv known "" [] s
  unseen : (q a : String) → contains coming q ≡ true → get s.seen a ≢ some q

-- The names of the queues, without repetitions and without the default, and the sets of members.
abbrev pub AreQueues : Configs → Type 0
AreQueues queues =
    IsNodup (keys queues)
    × (contains (keys queues) q_default ≡ false)
    × All (λ queue. IsNodup queue.1.members) queues

Inv-rename :
    (known : List String) (p q : String) (s : Assigned) → Inv known p [] s → Inv known q [] s
Inv-rename known p q s inv = record {
  owner = λ r a h. ground (arith, inv.owner r a);
  kept = inv.kept;
  others = inv.others;
  listed = λ a h. absurd (cc);
  fresh = λ a h. absurd (cc);
  no_default = inv.no_default;
}

module _ (known : List String) (qname : String) (config : QueueConfig) (coming : List String)
    (s : Assigned) (new : contains coming qname ≡ false) (not_default : qname ≢ q_default)
    (between : Between known (qname ∷ coming) s) where
  abbrev added : Assigned
  added = record s { queues = put s.queues qname config }

  Inv-added : Inv known qname config.members added
  Inv-added = record {
    owner = λ q a h. ground (arith, in_queue-put s.queues qname q a config, between.inv.owner q a);
    kept = λ q a h.
        ground
          (arith, in_queue-put s.queues qname q a config, between.inv.kept q a, between.unseen q a);
    others = λ a k h.
        ground (arith, in_queue-put s.queues qname q_default a config, between.inv.others a);
    listed = λ a h. ground (arith, in_queue-put s.queues qname qname a config);
    fresh = λ a h. ground (arith, between.unseen qname a);
    no_default = between.inv.no_default;
  }

  Between-queue :
      IsNodup config.members
      → (s' : Assigned) × (assign_members qname added config.members ≡ ok s')
        × Between known coming s'
  Between-queue d =
      let (s', p, inv, old) =
        assign_members-Inv known qname not_default config.members added d Inv-added in
      (
        s',
        p,
        record {
          inv = Inv-rename known qname "" s' inv;
          unseen = λ q a h e. ground (arith, old q a e, between.unseen q a);
        },
      )

make_indep_from-Between :
    (known : List String) (queues : Configs) (s : Assigned)
    → AreQueues queues
    → Between known (keys queues) s
    → (s' : Assigned) × (make_indep_from s queues ≡ ok s') × Between known [] s'
unfolding make_indep_from
make_indep_from-Between known [] s h b = (s, refl, b)
make_indep_from-Between known ((qname, config) ∷ queues) s (d, no_default, sets) b =
    let not_default : qname ≢ q_default = ground arith in
    let (s', p, b') = Between-queue known qname config (keys queues) s d.0 not_default b sets.0 in
    let (s'', p', b'') = make_indep_from-Between known queues s' (d.1, ground arith, sets.1) b' in
    let other : (qname == q_default) ≡ false = ground arith in (s'', rw other (rw p p'), b'')

abbrev start : QueueConfig → Assigned
start default = record { queues = put [] q_default default; seen = [] }

Between-start :
    (default : QueueConfig) (queues : Configs)
    → Between default.members (keys queues) (start default)
unfolding get
Between-start default queues = record {
  inv = record {
    owner = λ q a h. ground (arith, in_queue-put [] q_default q a default, in_queue-nil q a);
    kept = λ q a h. absurd (cc);
    others = λ a k h. ground (arith, in_queue-put [] q_default q_default a default);
    listed = λ a h. absurd (cc);
    fresh = λ a h. absurd (cc);
    no_default = λ a h. cc;
  };
  unseen = λ q a h e. cc;
}

make_indep-start :
    (default : QueueConfig) (queues : Configs) (s : Assigned)
    → make_indep_from (start default) queues ≡ ok s
    → make_indep ((q_default, default) ∷ queues) ≡ ok s.queues
unfolding make_indep
make_indep-start default queues s p = rw (eq_refl q_default) (rw p)

Inv-unique :
    (known : List String) (s : Assigned)
    → Inv known "" [] s
    → (a q q' : String) → in_queue s.queues q a ≡ true
    → in_queue s.queues q' a ≡ true
    → q ≡ q'
Inv-unique known s inv a q q' h h' = ground (arith, inv.owner q a h, inv.owner q' a h')

Inv-somewhere :
    (known : List String) (s : Assigned)
    → Inv known "" [] s
    → (a : String) → contains known a ≡ true
    → (q : String) × (in_queue s.queues q a ≡ true)
Inv-somewhere known s inv a h = elim (Option-cases (get s.seen a)) [
  | inl e ↦ (q_default, inv.others a h e)
  | inr (q, e) ↦ (q, inv.kept q a e)
]

-- `_make_indep` does not raise when the default queue comes first and the members are sets. After
-- it each member of the default queue (each task) is in some queue, and no name at all is in two
-- queues.
pub make_indep_owner :
    (default : QueueConfig) (queues : Configs)
    → AreQueues queues
    → (out : Configs) × (make_indep ((q_default, default) ∷ queues) ≡ ok out)
      × ((a : String)
          → contains default.members a ≡ true
          → (q : String) × (in_queue out q a ≡ true))
      × ((a q q' : String) → in_queue out q a ≡ true → in_queue out q' a ≡ true → q ≡ q')
make_indep_owner default queues h =
    let (s, p, b) =
      make_indep_from-Between default.members queues (start default) h
        (Between-start default queues) in
    (
      s.queues,
      make_indep-start default queues s p,
      Inv-somewhere default.members s b.inv,
      Inv-unique default.members s b.inv,
    )
