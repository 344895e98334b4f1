-- ===== src/Protocol/Names/Laws.antt =====
-- How `CommandName` and `InitCommand` of internal/protocol.go answer each other.
use roadrunner_temporal.Base.{
  String, ◌≡◌, refl, ◌⊎◌, inl, inr, false, some, List, [], ◌∷◌, switch, All, eq_iff, str_eq, arith,
  Bool-cases, Option-cases,
}
use roadrunner_temporal.Vendor.{Vendor}
use roadrunner_temporal.Errors.{ok}
use roadrunner_temporal.Protocol.{
  Command, get_worker_info, invoke_activity, invoke_local_activity, start_workflow, invoke_signal,
  invoke_query, invoke_update, cancel_workflow, destroy_workflow, get_stack_trace, execute_activity,
  execute_local_activity, execute_child_workflow, get_child_workflow_execution, new_timer,
  side_effect, get_version, complete_workflow, continue_as_new, upsert_workflow_search_attributes,
  signal_external_workflow, cancel_external_workflow, undefined_response, cancel, panic, Dynamic,
  pointer,
}
use roadrunner_temporal.Protocol.Names.{name_of, command_name, zero_commands, init_command}

-- A command with this name, or the one struct that has no name.
abbrev Fits : {v : Vendor} → String → Command v → Type 0
Fits n c = (name_of c ≡ some n) ⊎ ((n ≡ "UndefinedResponse") × (c ≡ undefined_response ""))

switch-Fits :
    {v : Vendor} (cases : List (String × Command v)) (n : String) {c : Command v}
    → All (λ e. Fits e.0 e.1) cases
    → switch n cases ≡ some c
    → Fits n c
switch-Fits [] n h e = cc
switch-Fits ((m, d) ∷ cases) n h e = elim (Bool-cases (str_eq n m)) [
  | inl hit ↦ ground (arith, eq_iff n m)
  | inr miss ↦ switch-Fits cases n h.1 (ground arith)
]

zero_commands-Fits : (v : Vendor) → All (λ e. Fits e.0 e.1) (zero_commands v)
unfolding zero_commands name_of
zero_commands-Fits v = (
  inl refl,
  (
    inl refl,
    (
      inl refl,
      (
        inl refl,
        (
          inl refl,
          (
            inl refl,
            (
              inl refl,
              (
                inl refl,
                (
                  inl refl,
                  (
                    inl refl,
                    (
                      inl refl,
                      (
                        inl refl,
                        (
                          inl refl,
                          (
                            inl refl,
                            (
                              inl refl,
                              (
                                inl refl,
                                (
                                  inl refl,
                                  (
                                    inl refl,
                                    (
                                      inl refl,
                                      (
                                        inl refl,
                                        (inl refl, (inl refl, (inr (refl, refl), (inl refl, tt)))),
                                      ),
                                    ),
                                  ),
                                ),
                              ),
                            ),
                          ),
                        ),
                      ),
                    ),
                  ),
                ),
              ),
            ),
          ),
        ),
      ),
    ),
  ),
)

-- `InitCommand` gives a pointer to a command that `CommandName` calls by the name that it was given,
-- for every name that it knows but one: "UndefinedResponse", which makes an `UndefinedResponse`.
pub command_name-init_command :
    {v : Vendor} (show : Dynamic v → String) (n : String) {d : Dynamic v}
    → init_command v n ≡ ok d
    → (command_name show d ≡ ok n)
      ⊎ ((n ≡ "UndefinedResponse") × (d ≡ pointer (undefined_response "")))
unfolding init_command command_name
command_name-init_command {v} show n h = elim (Option-cases (switch n (zero_commands v))) [
  | inl unknown ↦ absurd (ground arith)
  | inr (c, found) ↦ elim (switch-Fits (zero_commands v) n (zero_commands-Fits v) found) [
    | inl named ↦ ground arith
    | inr (u, z) ↦ ground arith
  ]
]

-- The commands that the worker and the plugin can both read back: all but the local activity's
-- invocation, which goes to the worker only, and the undefined response, which has no name.
abbrev pub Receivable : {v : Vendor} → Command v → Type 0
Receivable (invoke_local_activity _ _) = ⊥
Receivable (undefined_response _) = ⊥
Receivable _ = Unit {0}

abbrev pub Reads : {v : Vendor} → Command v → Command v → String → Type 0
Reads {v} c z n =
    (name_of c ≡ some n)
    × (str_eq n "" ≡ false)
    × (init_command v n ≡ ok (pointer z))
    × (name_of z ≡ name_of c)

pub Receivable-Reads :
    {v : Vendor} (c : Command v) → Receivable c → (n : String) × (z : Command v) × Reads c z n
unfolding init_command name_of
Receivable-Reads (get_worker_info _) h = (_, _, (refl, refl, refl, refl))
Receivable-Reads (invoke_activity _ _ _) h = (_, _, (refl, refl, refl, refl))
Receivable-Reads (start_workflow _ _) h = (_, _, (refl, refl, refl, refl))
Receivable-Reads (invoke_signal _ _) h = (_, _, (refl, refl, refl, refl))
Receivable-Reads (invoke_query _ _) h = (_, _, (refl, refl, refl, refl))
Receivable-Reads (invoke_update _) h = (_, _, (refl, refl, refl, refl))
Receivable-Reads (cancel_workflow _) h = (_, _, (refl, refl, refl, refl))
Receivable-Reads (destroy_workflow _) h = (_, _, (refl, refl, refl, refl))
Receivable-Reads (get_stack_trace _) h = (_, _, (refl, refl, refl, refl))
Receivable-Reads (execute_activity _ _) h = (_, _, (refl, refl, refl, refl))
Receivable-Reads (execute_local_activity _ _) h = (_, _, (refl, refl, refl, refl))
Receivable-Reads (execute_child_workflow _ _) h = (_, _, (refl, refl, refl, refl))
Receivable-Reads (get_child_workflow_execution _) h = (_, _, (refl, refl, refl, refl))
Receivable-Reads (new_timer _) h = (_, _, (refl, refl, refl, refl))
Receivable-Reads (side_effect) h = (_, _, (refl, refl, refl, refl))
Receivable-Reads (get_version _ _ _) h = (_, _, (refl, refl, refl, refl))
Receivable-Reads (complete_workflow) h = (_, _, (refl, refl, refl, refl))
Receivable-Reads (continue_as_new _ _) h = (_, _, (refl, refl, refl, refl))
Receivable-Reads (upsert_workflow_search_attributes _) h = (_, _, (refl, refl, refl, refl))
Receivable-Reads (signal_external_workflow _) h = (_, _, (refl, refl, refl, refl))
Receivable-Reads (cancel_external_workflow _ _ _) h = (_, _, (refl, refl, refl, refl))
Receivable-Reads (cancel _) h = (_, _, (refl, refl, refl, refl))
Receivable-Reads (panic _) h = (_, _, (refl, refl, refl, refl))
Receivable-Reads (invoke_local_activity _ _) h = elim h [ ]
Receivable-Reads (undefined_response _) h = elim h [ ]
