-- ===== src/XtriggerMgr/Tests.antt =====
-- Runs of the xtrigger manager at concrete inputs.
use cylc_flow.Prelude.{
  ◌≡◌, refl, subst, String, true, false, some, [], ◌∷◌, string_eq, nat_eq, String_discrete, arith,
}
use cylc_flow.Prelude.Assoc.{keys}
use cylc_flow.Prelude.Result.{ok, ◌>>=◌}
use cylc_flow.Prelude.Int.{int_eq}
use cylc_flow.BroadcastMgr.{empty}
use cylc_flow.BroadcastMgr.Dict.{Shape, HasShape, whole}
use cylc_flow.BroadcastMgr.Operations.{BroadcastMgr, Interface}
use cylc_flow.BroadcastMgr.Operations.Overrides.{IsSound}
use cylc_flow.Prelude.Result.{Returns}
use cylc_flow.XtriggerMgr.{
  put_command, delta_task_xtrigger, delta_xtrigger, put_xtriggers, XtriggerManager, TaskProxy, Env,
  Calling, call_xtriggers_async, callback, force_satisfy, force_satisfy_all,
}
use cylc_flow.XtriggerMgr.Active.{Reach, init, call, return, IsAccounted, Reach-IsAccounted}
use cylc_flow.XtriggerMgr.Sound.{IsCalled, call_xtriggers_async-IsCalled}

abbrev shape : Shape
shape keys = true

abbrev i : Interface
i = record {
  validate = λ s. some empty;
  is_workflow_only = false;
  standardise_point_string = λ p. some p;
  mixes = λ namespace a b. false;
  is_before = λ p q. some false;
  comes_before = λ a b. true;
  value_text = λ v. "text";
}

i-IsSound : IsSound i shape
unfolding IsSound HasShape
i-IsSound = (refl, λ s c h. let same : empty ≡ c = ground arith in subst (HasShape shape) same tt)

abbrev broadcasts : BroadcastMgr
broadcasts = record {
  linearized_ancestors = ("foo", "foo" ∷ []) ∷ [];
  broadcasts = empty;
  ext_triggers = [];
  effects = [];
}

abbrev sigs : String → String
sigs label = label

abbrev env : Env
env = record {
  signature = λ itask label. some (sigs label);
  interval = λ label. 10;
  wall_clock = λ sig. true;
  now = 5;
}

abbrev loaded : XtriggerManager
loaded = record {
  labels = "data" ∷ "clock" ∷ "other" ∷ [];
  wall_clock_labels = "clock" ∷ [];
  t_next_call = [];
  sat_xtrig = ("data", ("file", "a") ∷ []) ∷ [];
  active = [];
  do_housekeeping = false;
  effects = [];
}

abbrev foo : TaskProxy
foo = record {
  point = "1";
  name = "foo";
  xtriggers = ("data", false) ∷ ("clock", false) ∷ ("other", false) ∷ [];
}

broadcasts-HasShape : HasShape (whole shape) empty
unfolding HasShape
broadcasts-HasShape = tt

call_xtriggers_async-IsCalled_example :
    Returns (IsCalled shape sigs loaded foo) (call_xtriggers_async i env loaded broadcasts foo)
call_xtriggers_async-IsCalled_example =
    call_xtriggers_async-IsCalled i shape env sigs loaded broadcasts foo i-IsSound
      broadcasts-HasShape (λ l h. refl)

abbrev bar : TaskProxy
bar = record { point = "1"; name = "bar"; xtriggers = ("other", false) ∷ [] }

abbrev made : XtriggerManager
made = record {
  labels = "other" ∷ [];
  wall_clock_labels = [];
  t_next_call = [];
  sat_xtrig = [];
  active = [];
  do_housekeeping = false;
  effects = [];
}

abbrev called : Calling
called = record {
  mgr = record made {
    t_next_call = ("other", 15) ∷ [];
    active = "other" ∷ [];
    effects = put_command "other" ∷ [];
  };
  broadcasts = broadcasts;
  satisfied = ("other", false) ∷ [];
}

abbrev returned : XtriggerManager
returned = record called.mgr {
  sat_xtrig = ("other", []) ∷ [];
  active = [];
  do_housekeeping = true;
  effects = put_command "other" ∷ delta_xtrigger "other" ∷ put_xtriggers "other" ∷ [];
}

reached : Reach ("other" ∷ []) returned
unfolding call_xtriggers_async callback String_discrete
reached =
    return [] called.mgr returned "other" (some (true, []))
      (call [] made i env broadcasts bar called (init ("other" ∷ []) []) refl) refl

Reach-IsAccounted_example : IsAccounted ("other" ∷ []) returned
Reach-IsAccounted_example = Reach-IsAccounted ("other" ∷ []) returned reached

forced :
    force_satisfy env loaded
      (record foo { xtriggers = ("data", true) ∷ ("clock", false) ∷ ("gone", false) ∷ [] })
      (("all", true) ∷ [])
    ≡ ok (
      ("data", true) ∷ ("clock", true) ∷ ("gone", true) ∷ [],
      delta_task_xtrigger "clock" "clock" true ∷ [],
    )
unfolding force_satisfy String_discrete
forced = refl

unforced :
    (force_satisfy_all env loaded foo >>= λ f.
    force_satisfy env loaded
      (record foo { xtriggers = f.0 })
      (("data", false) ∷ ("bar", true) ∷ []))
    ≡ ok (
      ("data", false) ∷ ("clock", true) ∷ ("other", true) ∷ [],
      delta_task_xtrigger "data" "data" false ∷ [],
    )
unfolding force_satisfy force_satisfy_all String_discrete
unforced = refl
