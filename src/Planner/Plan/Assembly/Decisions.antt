-- ===== src/Planner/Plan/Assembly/Decisions.antt =====
-- src/planner/ExecutionPlanner.cpp: what a plan promises.
use hetero_accel.Base.{
  ℕ, ◌≡◌, refl, sym, ◌∙◌, subst, inl, inr, Bool, true, false, not, ◌&&◌, ◌||◌, Option, none, some,
  List, arith, ltb, leb, ◌==◌, Bool-cases, Option-cases,
}
use hetero_accel.ModelTypes.{ExecutionStrategy}
use hetero_accel.Planner.Types.{
  ModelRequirements, ExecutionMode, ModelExecutionPlan, CapabilityReport, PlannerConfig, Registry,
  Warning, PlanReason, Explanation,
}
use hetero_accel.Planner.{Candidate, select_engine, is_empty, device_usable, String}
use hetero_accel.Planner.Engines.{From, serves_option, select_engine-Selects}
use hetero_accel.Planner.Plan.{
  Slot, Context, Choice, capacity, device, fits, partial, choose, engine_for, engine_mode,
  is_hybrid,
}
use hetero_accel.Planner.Plan.Choices.{grounds, grounds_option, choose-grounds}
use hetero_accel.Planner.Plan.Assembly.{
  chosen_plan, plan_for, any_eligible, make_context, plan, is_unknown_format, any_eligible,
}
use hetero_accel.Planner.Plan.Notes.{
  warn, add_reason, unsupported_plan, blank_plan, fail_with_rejections, unknown_memory_plan,
  noted_plan, finish_context, note_rejections, not_chosen_plan, only_annotated,
  is_unknown_quantization, rejections, is_unknown_quantization,
}
use hetero_accel.Planner.Plan.Assembly.Keeps.{
  Same, when-Same, chosen_plan-Same, same_trans, reason-Same, warn-Same,
}

-- The memory behind each residency, and whether the plan may be executed.
abbrev pub backed : ℕ → ExecutionStrategy → Bool → ℕ → Bool
backed model_bytes ExecutionStrategy.full_resident executable budget =
    executable && leb model_bytes budget
backed model_bytes ExecutionStrategy.partial_resident executable budget =
    executable && ltb budget model_bytes
backed model_bytes ExecutionStrategy.streaming executable budget = not executable
backed model_bytes ExecutionStrategy.cpu_fallback executable budget =
    executable && leb model_bytes budget
backed model_bytes _ executable budget = false

abbrev pub within : ℕ → Option ℕ → Bool
within ceiling none = ceiling == 0
within ceiling (some limit) = (ceiling == 0) || leb limit ceiling

-- A candidate of the list that is eligible and has the key.
abbrev pub Names : List Candidate → String → Type 0
Names cs key = (e : Candidate) × From cs none (some e) × ((e.eligible ≡ true) × (e.key ≡ key))

-- A plan that is not viable is not executable and has no mode. A viable one has the memory its
-- residency needs, is executable unless it is a streaming plan, is hybrid if it is partial, names an
-- eligible engine, and keeps
-- to the context ceiling.
pub record Honest (c : Context) (p : ModelExecutionPlan) : Type 0 where
  pub refused : p.viable ≡ false → (p.executable ≡ false) × (p.mode ≡ ExecutionMode.unsupported)
  pub memory :
      p.viable ≡ true → backed c.model_bytes p.residency p.executable p.memory_budget_bytes ≡ true
  pub split :
      p.viable ≡ true
      → p.residency ≡ ExecutionStrategy.partial_resident
      → p.mode ≡ ExecutionMode.hybrid
  pub engine : p.viable ≡ true → Names c.candidates p.engine_key
  pub context : p.viable ≡ true → within c.config.context_ceiling p.context_limit ≡ true

refused-Honest :
    (c : Context) (p : ModelExecutionPlan)
    → p.viable ≡ false
    → p.executable ≡ false
    → p.mode ≡ ExecutionMode.unsupported
    → Honest c p
refused-Honest c p v e m = record {
  refused = λ _. (e, m);
  memory = λ h. cc;
  split = λ h. cc;
  engine = λ h. cc;
  context = λ h. cc;
}

grounds-backed :
    (c : Context) (x : Choice)
    → grounds c x ≡ true
    → backed c.model_bytes x.residency x.executable (capacity (device c x.slot)) ≡ true
unfolding fits partial
grounds-backed c x h = ground (arith, h)

grounds-streaming :
    (c : Context) (x : Choice)
    → grounds c x ≡ true
    → x.residency ≡ ExecutionStrategy.streaming
    → x.executable ≡ false
grounds-streaming c x h e = ground (arith, h, e)

grounds-hybrid :
    (c : Context) (x : Choice)
    → grounds c x ≡ true
    → x.residency ≡ ExecutionStrategy.partial_resident
    → x.mode ≡ ExecutionMode.hybrid
grounds-hybrid c x h e =
    let on : is_hybrid x.mode ≡ true = ground (arith, h, e) in ground (arith, on)

select_engine-Names :
    (cs : List Candidate) (mode : ExecutionMode) (e : Candidate)
    → select_engine cs mode ≡ some e
    → Names cs e.key
select_engine-Names cs mode e h =
    let (found, (good, from)) = select_engine-Selects cs mode in
    let good' : serves_option mode (some e) ≡ true =
      subst (λ o. serves_option mode o ≡ true) h good in
    (e, subst (λ o. From cs none o) h from, (ground (arith, good'), refl))

engine_for-Names :
    (c : Context) (x : Choice) (e : Candidate) → engine_for c x ≡ some e → Names c.candidates e.key
unfolding engine_for
engine_for-Names c x e h = elim (Option-cases (select_engine c.candidates (engine_mode x))) [
  | inl none_there ↦
      select_engine-Names c.candidates ExecutionMode.hybrid e (ground (arith, h, none_there))
  | inr (e', there) ↦ select_engine-Names c.candidates (engine_mode x) e (ground (arith, h, there))
]

finish_context-within :
    (c : Context) (p : ModelExecutionPlan)
    → p.context_limit ≡ none
    → within c.config.context_ceiling (finish_context c p).context_limit ≡ true
unfolding finish_context
finish_context-within c p h = ground (arith, h)

chosen-Honest :
    (c : Context) (x : Choice) (e : Candidate) (p : ModelExecutionPlan)
    → choose c ≡ some x
    → engine_for c x ≡ some e
    → within c.config.context_ceiling p.context_limit ≡ true
    → Honest c (chosen_plan c x e p)
chosen-Honest c x e p chosen carried bound =
    let good : grounds c x ≡ true =
      subst (λ o. grounds_option c o ≡ true) chosen (choose-grounds c) in
    let s = chosen_plan-Same c x e p (grounds-streaming c x good) in
    record {
      refused = λ h. let v = s.viable in cc;
      memory = λ h. rw s.residency (rw s.executable (rw s.budget (grounds-backed c x good)));
      split = λ h e. s.mode ∙ grounds-hybrid c x good (sym s.residency ∙ e);
      engine = λ h. rw s.engine (engine_for-Names c x e carried);
      context = λ h. rw s.context bound;
    }

-- The decision of a refusal.
abbrev Refused : ModelExecutionPlan → Type 0
Refused p = (p.viable ≡ false) × ((p.executable ≡ false) × (p.mode ≡ ExecutionMode.unsupported))

abbrev from_refused : (c : Context) (p : ModelExecutionPlan) → Refused p → Honest c p
from_refused c p (v, (e, m)) = refused-Honest c p v e m

same-Refused : (p q : ModelExecutionPlan) → Same p q → Refused p → Refused q
same-Refused p q s (v, (e, m)) = (s.viable ∙ v, (s.executable ∙ e, s.mode ∙ m))

fail-Refused :
    (c : Context) (r : PlanReason) (x : Explanation) → Refused (fail_with_rejections c r x)
unfolding fail_with_rejections unsupported_plan blank_plan
fail-Refused c r x =
    let p : ModelExecutionPlan = record (unsupported_plan r x) {
      estimated_model_memory_bytes = c.model_bytes;
      rejected_engines = rejections c.candidates;
    } in
    same-Refused p _
      (when-Same (not (is_empty (rejections c.candidates))) (add_reason PlanReason.engine_rejected)
        p (reason-Same _ p))
      (refl, (refl, refl))

finish_context-Refused :
    (c : Context) (p : ModelExecutionPlan) → Refused p → Refused (finish_context c p)
unfolding finish_context
finish_context-Refused c p (v, (e, m)) = (ground (arith, v), (ground (arith, e), ground (arith, m)))

unknown-Refused : (c : Context) → Refused (unknown_memory_plan c)
unfolding unknown_memory_plan note_rejections
unknown-Refused c = finish_context-Refused c _ (refl, (refl, refl))

not_chosen-Refused : (c : Context) (p : ModelExecutionPlan) → Refused (not_chosen_plan c p)
unfolding not_chosen_plan
not_chosen-Refused c p =
    let q : ModelExecutionPlan = record p {
      viable = false;
      executable = false;
      mode = ExecutionMode.unsupported;
    } in
    let a =
      when-Same (not (fits c Slot.cpu) && device_usable (device c Slot.cpu))
        (add_reason PlanReason.insufficient_ram) q (reason-Same _ q) in
    let b =
      when-Same
        (not (device_usable (device c Slot.cpu))
          && not (device_usable (device c Slot.vulkan))
          && not (device_usable (device c Slot.cuda)))
        (add_reason PlanReason.engine_unavailable) _ (reason-Same _ _) in
    let d =
      when-Same (only_annotated _) (add_reason PlanReason.engine_unavailable) _ (reason-Same _ _) in
    let s = same_trans a (same_trans b d) in (s.viable, (s.executable, s.mode))

noted_plan-context : (c : Context) → (noted_plan c).context_limit ≡ none
unfolding noted_plan blank_plan
noted_plan-context c =
    let p : ModelExecutionPlan = record blank_plan {
      estimated_model_memory_bytes = c.model_bytes;
    } in
    let note : ModelExecutionPlan → ModelExecutionPlan =
      λ q. warn Warning.quantization_is_unknown (add_reason PlanReason.quantization_unknown q) in
    let warned : ModelExecutionPlan → ModelExecutionPlan = λ q.
      warn Warning.report_contradicts_devices (add_reason PlanReason.contradictory_capability q) in
    let a = when-Same (is_unknown_quantization c.requirements.quantization) note p (noted-Same p) in
    let b =
      when-Same
        (c.report.full_residency_feasible
          && not (fits c Slot.cpu || fits c Slot.vulkan || fits c Slot.cuda))
        warned _ (contradicted-Same _) in
    b.context ∙ a.context
  where
    noted-Same :
        (q : ModelExecutionPlan)
        → Same q
            (warn Warning.quantization_is_unknown (add_reason PlanReason.quantization_unknown q))
    noted-Same q = same_trans (reason-Same _ q) (warn-Same _ _)

    contradicted-Same :
        (q : ModelExecutionPlan)
        → Same q (
            warn Warning.report_contradicts_devices
              (add_reason PlanReason.contradictory_capability q))
    contradicted-Same q = same_trans (reason-Same _ q) (warn-Same _ _)

plan_for-Honest : (c : Context) → Honest c (plan_for c)
unfolding plan_for note_rejections
plan_for-Honest c =
    let ready = finish_context c (note_rejections c (noted_plan c)) in
    elim (Bool-cases (any_eligible c.candidates)) [
      | inr off ↦ rw off (from_refused c _ (fail-Refused c _ _))
      | inl on ↦ elim (Bool-cases c.memory_known) [
        | inr dark ↦
            let e : plan_for c ≡ unknown_memory_plan c = ground (arith, on, dark) in
            rw e (from_refused c _ (unknown-Refused c))
        | inl lit ↦ elim (Option-cases (choose c)) [
          | inl nothing ↦
              let e : plan_for c ≡ not_chosen_plan c ready = ground (arith, on, lit, nothing) in
              rw e (from_refused c _ (not_chosen-Refused c ready))
          | inr (x, chosen) ↦ elim (Option-cases (engine_for c x)) [
            | inl nothing ↦
                let e : plan_for c
                    ≡ fail_with_rejections c PlanReason.engine_unavailable
                        Explanation.backend_not_advertised =
                  ground (arith, on, lit, chosen, nothing) in
                rw e (from_refused c _ (fail-Refused c _ _))
            | inr (engine, carried) ↦
                let e : plan_for c ≡ chosen_plan c x engine ready =
                  ground (arith, on, lit, chosen, carried) in
                rw e (
                  chosen-Honest c x engine ready chosen carried (
                    finish_context-within c (note_rejections c (noted_plan c))
                      (noted_plan-context c)))
          ]
        ]
      ]
    ]

-- Whatever the requirements, the report, the registry and the configuration, the plan is honest: if it
-- is not viable, it is not executable and its mode is unsupported; if it is viable, then its device
-- holds the whole model for a full residency or the CPU fallback and less than the model for a
-- partial one, it is executable unless it is a streaming plan, a partial one
-- is in hybrid mode, its engine is an eligible candidate, and its context limit is at most the configured ceiling where there is one.
pub plan-Honest :
    (requirements : ModelRequirements) (report : CapabilityReport) (registry : Registry)
    (config : PlannerConfig)
    → Honest
        (make_context requirements report registry config)
        (plan requirements report registry config)
unfolding plan unsupported_plan blank_plan
plan-Honest requirements report registry config =
    let c = make_context requirements report registry config in
    elim (Bool-cases (
      not config.allow_accelerator
      && not config.allow_partial_residency
      && not config.allow_streaming_plan
      && not config.allow_cpu_fallback)) [
        | inl off ↦ rw off (refused-Honest c _ refl refl refl)
        | inr on ↦ rw on (elim (Bool-cases (is_unknown_format requirements.format)) [
          | inl unknown ↦ rw unknown (refused-Honest c _ refl refl refl)
          | inr format ↦ rw format (elim (Bool-cases (is_empty registry)) [
            | inl empty ↦ rw empty (refused-Honest c _ refl refl refl)
            | inr some_engine ↦ rw some_engine (plan_for-Honest c)
          ])
        ])
      ]
