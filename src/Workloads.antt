-- ===== src/Workloads.antt =====
-- src/scheduler/WorkloadRegistry.cpp: the registry of concurrent workloads. Each method holds the
-- mutex, so it is one step; the clock is an argument.
use Prim.Native.String.{String}
pub mod Calls
mod Tests
use hetero_accel.Base.{
  ℕ, zero, suc, ◌+◌, ◌-◌, ◌*◌, ◌/◌, ◌%◌, ◌^◌, ◌≤◌, ◌<◌, min, max, ◌≡◌, refl, sym, ap, ◌∙◌, subst,
  ◌≢◌, ◌⊎◌, inl, inr, Bool, true, false, not, ◌&&◌, ◌||◌, Option, none, some, List, [], ◌∷◌, ◌++◌,
  map, arith, ltb, leb, ◌==◌, if◌then◌else◌, is_some, one_if, ==→≡, ==_self, ltb-false, or-false,
  Bool-cases, Option-cases, length, All, length-append, take, take-take, drop, length-take,
  drop-append, take-append, append_assoc, length-drop, u64_mod, u32_mod, add64, mul64,
}
use hetero_accel.Base.Map.{
  Map, lookup, put, erase, Distinct, Each, total, lookup-put, lookup-erase, put-Distinct,
  erase-Distinct, total-put_old, total-put_new, total-erase, length-erase, total-get,
  total-le-length, Each-map, Each-lookup, Each-put, Each-erase,
}

pub data WorkloadPriority : Type 0 where
  background normal high critical : WorkloadPriority

abbrev pub rank : WorkloadPriority → ℕ
rank background = 0
rank normal = 1
rank high = 2
rank critical = 3

pub data WorkloadState : Type 0 where
  queued running completed cancelled failed : WorkloadState

pub data WorkloadClass : Type 0 where
  default_class low_latency throughput memory_bound compute_bound : WorkloadClass
  streaming background_class interactive batch : WorkloadClass

pub record WorkloadEntry : Type 0 where
  pub id : ℕ
  pub name : String
  pub model_path : String
  pub priority : WorkloadPriority
  pub wclass : WorkloadClass
  pub state : WorkloadState
  pub queued_at : ℕ
  pub started_at : ℕ
  pub finished_at : ℕ
  pub cancel_requested : Bool
  pub error : String

pub record WorkloadRegistry : Type 0 where
  pub next_id : ℕ
  pub entries : Map WorkloadEntry

pub empty_registry : WorkloadRegistry
empty_registry = record { next_id = 1; entries = [] }

-- The times of a new entry are 0, and its error is empty.
pub register_workload :
    String → String → WorkloadPriority → WorkloadClass → ℕ → WorkloadRegistry → ℕ × WorkloadRegistry
register_workload name path priority wclass now r = (
  r.next_id,
  record {
    next_id = add64 r.next_id 1;
    entries =
        put r.next_id
          (record (entry_or_new (lookup r.next_id r.entries)) {
            id = r.next_id;
            name = name;
            model_path = path;
            priority = priority;
            wclass = wclass;
            state = queued;
            queued_at = now;
            cancel_requested = false;
          })
          r.entries;
  },
)
  where
    entry_or_new : Option WorkloadEntry → WorkloadEntry
    entry_or_new (some e) = e
    entry_or_new none = record {
      id = 0;
      name = "";
      model_path = "";
      priority = normal;
      wclass = default_class;
      state = queued;
      queued_at = 0;
      started_at = 0;
      finished_at = 0;
      cancel_requested = false;
      error = "";
    }

-- A change of the entry, if there is one.
abbrev pub change : ℕ → (WorkloadEntry → WorkloadEntry) → WorkloadRegistry → WorkloadRegistry
change id f r = elim (lookup id r.entries) [
  | none ↦ r
  | some e ↦ record r { entries = put id (f e) r.entries }
]

abbrev pub is_queued : WorkloadState → Bool
is_queued queued = true
is_queued _ = false

abbrev pub cancelled_entry : ℕ → WorkloadEntry → WorkloadEntry
cancelled_entry now e =
    if is_queued e.state
    then record e { cancel_requested = true; state = cancelled; finished_at = now }
    else record e { cancel_requested = true }

pub cancel : ℕ → ℕ → WorkloadRegistry → Bool × WorkloadRegistry
cancel id now r = (is_some (lookup id r.entries), change id (cancelled_entry now) r)

pub set_running : ℕ → ℕ → WorkloadRegistry → WorkloadRegistry
set_running id now r = change id (λ e. record e { state = running; started_at = now }) r

pub set_completed : ℕ → ℕ → WorkloadRegistry → WorkloadRegistry
set_completed id now r = change id (λ e. record e { state = completed; finished_at = now }) r

pub set_failed : ℕ → String → ℕ → WorkloadRegistry → WorkloadRegistry
set_failed id message now r =
    change id (λ e. record e { state = failed; error = message; finished_at = now }) r

pub set_cancelled : ℕ → ℕ → WorkloadRegistry → WorkloadRegistry
set_cancelled id now r = change id (λ e. record e { state = cancelled; finished_at = now }) r

-- `cancelFlag`: what the flag of the entry reads, or none for a null pointer.
pub cancel_flag : ℕ → WorkloadRegistry → Option Bool
cancel_flag id r = elim (lookup id r.entries) [ none ↦ none | some e ↦ some e.cancel_requested ]

pub get_state : ℕ → WorkloadRegistry → WorkloadState
get_state id r = elim (lookup id r.entries) [ none ↦ failed | some e ↦ e.state ]

pub is_cancelled : ℕ → WorkloadRegistry → Bool
is_cancelled id r = elim (lookup id r.entries) [ none ↦ false | some e ↦ e.cancel_requested ]

pub get_class : ℕ → WorkloadRegistry → WorkloadClass
get_class id r = elim (lookup id r.entries) [ none ↦ default_class | some e ↦ e.wclass ]

abbrev pub is_active : WorkloadState → Bool
is_active queued = true
is_active running = true
is_active _ = false

pub active_entries : Map WorkloadEntry → List WorkloadEntry
active_entries [] = []
active_entries ((id, e) ∷ m) = if is_active e.state then e ∷ active_entries m else active_entries m

-- `std::sort` by descending priority. It leaves the order of equal ones open.
pub insert_entry : WorkloadEntry → List WorkloadEntry → List WorkloadEntry
insert_entry e [] = e ∷ []
insert_entry e (x ∷ xs) =
    if ltb (rank e.priority) (rank x.priority) then x ∷ insert_entry e xs else e ∷ x ∷ xs

pub sort_entries : List WorkloadEntry → List WorkloadEntry
unfolding insert_entry
sort_entries [] = []
sort_entries (x ∷ xs) = insert_entry x (sort_entries xs)

pub active_workloads_sorted : WorkloadRegistry → List WorkloadEntry
unfolding active_entries sort_entries
active_workloads_sorted r = sort_entries (active_entries r.entries)

pub snapshot : WorkloadRegistry → List WorkloadEntry
snapshot r = map (λ (e : ℕ × WorkloadEntry). e.1) r.entries

abbrev pub is_terminal : WorkloadState → Bool
is_terminal completed = true
is_terminal failed = true
is_terminal cancelled = true
is_terminal _ = false

-- The loop of `pruneOld`. Whether the time since `finished_at` is more than the limit is an argument.
pub prune : (ℕ → Bool) → Map WorkloadEntry → Map WorkloadEntry
prune is_old [] = []
prune is_old ((id, e) ∷ m) =
    if is_terminal e.state && is_old e.finished_at then prune is_old m else (id, e) ∷ prune is_old m

pub prune_old : (ℕ → Bool) → WorkloadRegistry → WorkloadRegistry
unfolding prune
prune_old is_old r = record r { entries = prune is_old r.entries }

pub total_count : WorkloadRegistry → ℕ
total_count r = length r.entries

pub count_active : Map WorkloadEntry → ℕ
count_active [] = 0
count_active ((id, e) ∷ m) = one_if (is_active e.state) + count_active m

pub active_count : WorkloadRegistry → ℕ
unfolding count_active
active_count r = count_active r.entries
