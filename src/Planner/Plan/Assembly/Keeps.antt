-- ===== src/Planner/Plan/Assembly/Keeps.antt =====
-- src/planner/ExecutionPlanner.cpp: the parts of a plan that the notes, the explanation and the
-- layer budget leave as they are.
use hetero_accel.Base.{◌≡◌, refl, sym, ◌∙◌, Bool, true, false, some}
use hetero_accel.ModelTypes.{ExecutionStrategy}
use hetero_accel.Planner.Types.{ExecutionMode, ModelExecutionPlan, PlanReason, Warning}
use hetero_accel.Planner.{Candidate}
use hetero_accel.Planner.Plan.{Context, Choice, capacity, device}
use hetero_accel.Planner.Plan.Assembly.{
  full_plan, partial_plan, streaming_plan, cpu_plan, chosen_plan, is_streaming,
}
use hetero_accel.Planner.Plan.Notes.{add_reason, warn, when}

-- Two plans with the same decision.
pub record Same (p q : ModelExecutionPlan) : Type 0 where
  pub viable : q.viable ≡ p.viable
  pub executable : q.executable ≡ p.executable
  pub engine : q.engine_key ≡ p.engine_key
  pub mode : q.mode ≡ p.mode
  pub residency : q.residency ≡ p.residency
  pub budget : q.memory_budget_bytes ≡ p.memory_budget_bytes
  pub context : q.context_limit ≡ p.context_limit

abbrev pub same_refl : (p : ModelExecutionPlan) → Same p p
same_refl p = record {
  viable = refl;
  executable = refl;
  engine = refl;
  mode = refl;
  residency = refl;
  budget = refl;
  context = refl;
}

pub same_trans : {p q r : ModelExecutionPlan} → Same p q → Same q r → Same p r
same_trans a b = record {
  viable = b.viable ∙ a.viable;
  executable = b.executable ∙ a.executable;
  engine = b.engine ∙ a.engine;
  mode = b.mode ∙ a.mode;
  residency = b.residency ∙ a.residency;
  budget = b.budget ∙ a.budget;
  context = b.context ∙ a.context;
}

pub when-Same :
    (b : Bool) (f : ModelExecutionPlan → ModelExecutionPlan) (p : ModelExecutionPlan)
    → Same p (f p)
    → Same p (when b f p)
when-Same true f p h = h
when-Same false f p h = same_refl p

pub reason-Same : (r : PlanReason) (p : ModelExecutionPlan) → Same p (add_reason r p)
reason-Same r p = record {
  viable = refl;
  executable = refl;
  engine = refl;
  mode = refl;
  residency = refl;
  budget = refl;
  context = refl;
}

pub warn-Same : (w : Warning) (p : ModelExecutionPlan) → Same p (warn w p)
warn-Same w p = record {
  viable = refl;
  executable = refl;
  engine = refl;
  mode = refl;
  residency = refl;
  budget = refl;
  context = refl;
}

full_plan-Same :
    (c : Context) (x : Choice) (e : Candidate) (p : ModelExecutionPlan) → Same p (full_plan c x e p)
unfolding full_plan
full_plan-Same c x e p =
    let a =
      when-Same _ (add_reason PlanReason.cuda_feasible) p
        (reason-Same PlanReason.cuda_feasible p) in
    let b =
      when-Same _ (add_reason PlanReason.vulkan_feasible) _
        (reason-Same PlanReason.vulkan_feasible _) in
    let d = same_trans a b in
    record {
      viable = d.viable;
      executable = d.executable;
      engine = d.engine;
      mode = d.mode;
      residency = d.residency;
      budget = d.budget;
      context = d.context;
    }

partial_plan-Same :
    (c : Context) (x : Choice) (e : Candidate) (p : ModelExecutionPlan)
    → Same p (partial_plan c x e p)
unfolding partial_plan
partial_plan-Same c x e p =
    let q : ModelExecutionPlan =
      add_reason PlanReason.partial_residency
        (add_reason PlanReason.accelerator_memory_insufficient p) in
    let a =
      when-Same _ (add_reason PlanReason.cuda_feasible) q
        (reason-Same PlanReason.cuda_feasible q) in
    let b =
      when-Same _ (add_reason PlanReason.vulkan_feasible) _
        (reason-Same PlanReason.vulkan_feasible _) in
    let d = same_trans a b in
    record {
      viable = d.viable;
      executable = d.executable;
      engine = d.engine;
      mode = d.mode;
      residency = d.residency;
      budget = d.budget;
      context = d.context;
    }

cpu_plan-Same : (c : Context) (e : Candidate) (p : ModelExecutionPlan) → Same p (cpu_plan c e p)
unfolding cpu_plan
cpu_plan-Same c e p =
    let q : ModelExecutionPlan = record (add_reason PlanReason.cpu_fallback p) {
      gpu_layer_budget = some 0;
    } in
    let a =
      when-Same _ (warn Warning.vulkan_not_usable) q (warn-Same Warning.vulkan_not_usable q) in
    let b = when-Same _ (warn Warning.cuda_not_usable) _ (warn-Same Warning.cuda_not_usable _) in
    let d = same_trans a b in
    record {
      viable = d.viable;
      executable = d.executable;
      engine = d.engine;
      mode = d.mode;
      residency = d.residency;
      budget = d.budget;
      context = d.context;
    }

-- The decision of a choice, carried by an engine.
abbrev pub placed : Context → Choice → Candidate → ModelExecutionPlan → ModelExecutionPlan
placed c x e p = record p {
  viable = true;
  executable = x.executable;
  engine_key = e.key;
  mode = x.mode;
  residency = x.residency;
  memory_budget_bytes = capacity (device c x.slot);
}

explained-Same :
    (c : Context) (mode : ExecutionMode) (s : ExecutionStrategy) (x : Choice) (e : Candidate)
    (p : ModelExecutionPlan)
    → (s ≡ ExecutionStrategy.streaming → p.executable ≡ false)
    → Same p (elim s [
      | ExecutionStrategy.full_resident ↦ full_plan c x e p
      | ExecutionStrategy.partial_resident ↦ partial_plan c x e p
      | ExecutionStrategy.streaming ↦ streaming_plan c p
      | ExecutionStrategy.cpu_fallback ↦ cpu_plan c e p
      | _ ↦ p
    ])
unfolding streaming_plan
explained-Same c mode ExecutionStrategy.full_resident x e p h = full_plan-Same c x e p
explained-Same c mode ExecutionStrategy.partial_resident x e p h = partial_plan-Same c x e p
explained-Same c mode ExecutionStrategy.streaming x e p h = record {
  viable = refl;
  executable = sym (h refl);
  engine = refl;
  mode = refl;
  residency = refl;
  budget = refl;
  context = refl;
}
explained-Same c mode ExecutionStrategy.cpu_fallback x e p h = cpu_plan-Same c e p
explained-Same c mode ExecutionStrategy.auto x e p h = same_refl p
explained-Same c mode ExecutionStrategy.memory_pressure x e p h = same_refl p
explained-Same c mode ExecutionStrategy.accelerator_offload x e p h = same_refl p
explained-Same c mode ExecutionStrategy.hybrid x e p h = same_refl p

-- The plan for a choice holds what was chosen.
pub chosen_plan-Same :
    (c : Context) (x : Choice) (e : Candidate) (p : ModelExecutionPlan)
    → (x.residency ≡ ExecutionStrategy.streaming → x.executable ≡ false)
    → Same (placed c x e p) (chosen_plan c x e p)
unfolding chosen_plan
chosen_plan-Same c x e p h =
    let q : ModelExecutionPlan = record (placed c x e p) {
      confidence = x.confidence;
      streaming_required = is_streaming x.residency;
    } in
    let a = explained-Same c x.mode x.residency x e q h in
    let b =
      when-Same _ (warn Warning.cuda_advertised_but_unavailable) _
        (warn-Same Warning.cuda_advertised_but_unavailable _) in
    let d = same_trans a b in
    record {
      viable = d.viable;
      executable = d.executable;
      engine = d.engine;
      mode = d.mode;
      residency = d.residency;
      budget = d.budget;
      context = d.context;
    }
