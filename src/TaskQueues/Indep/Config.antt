-- ===== src/TaskQueues/Indep/Config.antt =====
-- `_make_indep` gives each task name to one queue.
use cylc_flow.Prelude.{
  ◌≡◌, refl, ap, ◌≢◌, ◌⊎◌, inl, inr, String, Bool, true, false, not, ◌&&◌, ◌||◌, none, some, List,
  [], ◌∷◌, contains, IsNodup, contains-append, if◌then◌else◌, ◌==◌, string_eq, nat_eq, arith,
  Option-cases,
}
use cylc_flow.Prelude.Assoc.{get, put, get-put}
use cylc_flow.Prelude.Result.{ok}
use cylc_flow.TaskQueues.Indep.{
  QueueConfig, q_default, Configs, add_name, discard, drop_default, remove_from, add_to, Assigned,
  assign_member, assign_members,
}

-- `a` is a member of the queue named `q`.
unfoldable pub in_queue : Configs → String → String → Bool
in_queue queues q a = elim (get queues q) [ none ↦ false | some c ↦ contains c.members a ]

pub in_queue-nil : (q a : String) → in_queue [] q a ≡ false
unfolding in_queue get
in_queue-nil q a = refl

pub in_queue-put :
    (queues : Configs) (k q a : String) (c : QueueConfig)
    → in_queue (put queues k c) q a ≡ (if q == k then contains c.members a else in_queue queues q a)
unfolding in_queue
in_queue-put queues k q a c = ground (arith, get-put queues k q c)

contains-discard :
    (xs : List String) (a b : String) → contains (discard xs a) b ≡ (contains xs b && not (b == a))
contains-discard [] a b = refl
contains-discard (x ∷ xs) a b = ground (arith, contains-discard xs a b)

contains-add_name :
    (xs : List String) (a b : String) → contains (add_name xs a) b ≡ (contains xs b || b == a)
contains-add_name xs a b = ground (arith, contains-append xs (a ∷ []) b)

in_queue-drop_default :
    (queues : Configs) (m q a : String)
    → in_queue (drop_default queues m) q a ≡ (in_queue queues q a && not (q == q_default && a == m))
unfolding in_queue drop_default
in_queue-drop_default queues m q a = elim (Option-cases (get queues q_default)) [
  | inl e ↦ rw (e, drop_default) (ground arith)
  | inr (c, e) ↦
      rw (e, drop_default)
        (ground (
          arith,
          get-put queues q_default q (record c { members = discard c.members m }),
          contains-discard c.members m a,
        ))
]

in_queue-remove_from :
    (queues : Configs) (k m : String)
    → in_queue queues k m ≡ true
    → (queues' : Configs) × (remove_from queues k m ≡ ok queues')
      × ((q a : String) → in_queue queues' q a ≡ (in_queue queues q a && not (q == k && a == m)))
unfolding in_queue remove_from
in_queue-remove_from queues k m h = elim (Option-cases (get queues k)) [
  | inl e ↦ absurd (ground arith)
  | inr (c, e) ↦
      let c' : QueueConfig = record c { members = discard c.members m } in
      (
        put queues k c',
        ground arith,
        λ q a. ground (arith, get-put queues k q c', contains-discard c.members m a),
      )
]

in_queue-add_to :
    (queues : Configs) (k m : String)
    → in_queue queues k m ≡ true
    → (queues' : Configs) × (add_to queues k m ≡ ok queues')
      × ((q a : String) → in_queue queues' q a ≡ (in_queue queues q a || (q == k && a == m)))
unfolding in_queue add_to
in_queue-add_to queues k m h = elim (Option-cases (get queues k)) [
  | inl e ↦ absurd (ground arith)
  | inr (c, e) ↦
      let c' : QueueConfig = record c { members = add_name c.members m } in
      (
        put queues k c',
        ground arith,
        λ q a. ground (arith, get-put queues k q c', contains-add_name c.members m a),
      )
]

-- The loop invariant, with the members of queue `qname` that are still to be assigned, and `known`
-- the members of the default queue at the start.
pub record Inv (known : List String) (qname : String) (pending : List String) (s : Assigned)
    : Type 0 where
  -- a member is in the queue it was assigned to last, in the default queue, or pending
  pub owner :
      (q a : String)
      → in_queue s.queues q a ≡ true
      → (get s.seen a ≡ some q)
        ⊎ ((get s.seen a ≡ none) × (q ≡ q_default))
        ⊎ ((q ≡ qname) × (contains pending a ≡ true))
  pub kept : (q a : String) → get s.seen a ≡ some q → in_queue s.queues q a ≡ true
  pub others :
      (a : String)
      → contains known a ≡ true
      → get s.seen a ≡ none
      → in_queue s.queues q_default a ≡ true
  pub listed : (a : String) → contains pending a ≡ true → in_queue s.queues qname a ≡ true
  pub fresh : (a : String) → contains pending a ≡ true → get s.seen a ≢ some qname
  pub no_default : (a : String) → get s.seen a ≢ some q_default

-- What one assignment does to the membership relation, whichever branch it takes.
record Effect (qname m : String) (s s' : Assigned) : Type 0 where
  seen_lem : s'.seen ≡ put s.seen m qname
  queues_lem :
      (q a : String)
      → in_queue s'.queues q a ≡ (if a == m then q == qname else in_queue s.queues q a)

module _ (qname m : String) (s : Assigned) {queues' : Configs} where
  assign_member_again :
      (oldq : String)
      → get s.seen m ≡ some oldq
      → remove_from (drop_default s.queues m) oldq m ≡ ok queues'
      → assign_member qname s m ≡ ok (record { queues = queues'; seen = put s.seen m qname })
  unfolding assign_member
  assign_member_again oldq e p = rw (e, p)

  assign_member_first :
      get s.seen m ≡ none
      → add_to (drop_default s.queues m) qname m ≡ ok queues'
      → assign_member qname s m ≡ ok (record { queues = queues'; seen = put s.seen m qname })
  unfolding assign_member
  assign_member_first e p = rw (e, p)

module _ (known : List String) (qname : String) (not_default : qname ≢ q_default) where
  assign_member-Effect :
      (m : String) (ms : List String) (s : Assigned)
      → Inv known qname (m ∷ ms) s
      → contains ms m ≡ false
      → (s' : Assigned) × (assign_member qname s m ≡ ok s') × Effect qname m s s'
  assign_member-Effect m ms s inv new = elim (Option-cases (get s.seen m)) [
    | inl e ↦
        let (queues', p, view) =
          in_queue-add_to (drop_default s.queues m) qname m
            (ground (arith, in_queue-drop_default s.queues m qname m, inv.listed m)) in
        (
          record { queues = queues'; seen = put s.seen m qname },
          assign_member_first qname m s e p,
          record {
            seen_lem = refl;
            queues_lem = λ q a. ground (
              arith,
              view q a,
              in_queue-drop_default s.queues m q a,
              inv.owner q a,
              inv.listed m,
            );
          },
        )
    | inr (oldq, e) ↦
        let (queues', p, view) = in_queue-remove_from (drop_default s.queues m) oldq m (
          ground
            (arith, in_queue-drop_default s.queues m oldq m, inv.kept oldq m, inv.no_default m)) in
        (
          record { queues = queues'; seen = put s.seen m qname },
          assign_member_again qname m s oldq e p,
          record {
            seen_lem = refl;
            queues_lem = λ q a. ground (
              arith,
              view q a,
              in_queue-drop_default s.queues m q a,
              inv.owner q a,
              inv.listed m,
              inv.fresh m,
            );
          },
        )
  ]

  Inv-step :
      (m : String) (ms : List String) (s s' : Assigned)
      → contains ms m ≡ false
      → Inv known qname (m ∷ ms) s
      → Effect qname m s s'
      → Inv known qname ms s'
  Inv-step m ms s s' new inv eff = record {
    owner = λ q a h. ground (
      arith,
      eff.queues_lem q a,
      ap (λ d. get d a) eff.seen_lem,
      get-put s.seen m a qname,
      inv.owner q a,
    );
    kept = λ q a h. ground (
      arith,
      eff.queues_lem q a,
      ap (λ d. get d a) eff.seen_lem,
      get-put s.seen m a qname,
      inv.kept q a,
    );
    others = λ a k h. ground (
      arith,
      eff.queues_lem q_default a,
      ap (λ d. get d a) eff.seen_lem,
      get-put s.seen m a qname,
      inv.others a,
    );
    listed = λ a h. ground (arith, eff.queues_lem qname a, inv.listed a);
    fresh = λ a h.
        ground (arith, ap (λ d. get d a) eff.seen_lem, get-put s.seen m a qname, inv.fresh a);
    no_default = λ a.
        ground (arith, ap (λ d. get d a) eff.seen_lem, get-put s.seen m a qname, inv.no_default a);
  }

  -- The inner loop does not raise, and assigns names to its own queue only.
  pub assign_members-Inv :
      (ms : List String) (s : Assigned)
      → IsNodup ms
      → Inv known qname ms s
      → (s' : Assigned) × (assign_members qname s ms ≡ ok s')
        × Inv known qname [] s'
        × ((q a : String) → get s'.seen a ≡ some q → (q ≡ qname) ⊎ (get s.seen a ≡ some q))
  unfolding assign_members
  assign_members-Inv [] s d inv = (s, refl, inv, λ q a h. inr h)
  assign_members-Inv (m ∷ ms) s d inv =
      let (s', p, eff) = assign_member-Effect m ms s inv d.0 in
      let (s'', p', inv', old) = assign_members-Inv ms s' d.1 (Inv-step m ms s s' d.0 inv eff) in
      (
        s'',
        rw p p',
        inv',
        λ q a h.
            ground (arith, old q a h, ap (λ d. get d a) eff.seen_lem, get-put s.seen m a qname),
      )
