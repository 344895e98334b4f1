-- ===== src/Info/Last.antt =====
-- The maps of info.go hold, under each name, the last of the entries that have it.
use roadrunner_temporal.Base.{
  String, str_eq, ◌≡◌, refl, sym, ap, ◌∙◌, Bool-cases, inl, inr, Option, none, some, List, [], ◌∷◌,
  ◌++◌, if◌then◌else◌,
}
use roadrunner_temporal.Codec.{WorkerInfo, WorkflowEntry, ActivityEntry}
use roadrunner_temporal.Info.{
  Named, no_names, name_entry, add_workflows, add_activities, workflows_loop, workflows_info,
  activities_loop, activities_info,
}

abbrev pub or_other : {A : Type 0} → Option A → Option A → Option A
or_other none b = b
or_other (some a) b = some a

-- The last member with the name.
abbrev pub last_named : {A : Type 0} → (A → String) → String → List A → Option A
last_named name_of name [] = none
last_named name_of name (a ∷ rest) =
    or_other (last_named name_of name rest) (if str_eq name (name_of a) then some a else none)

or_other_assoc :
    {A : Type 0} (a b c : Option A) → or_other (or_other a b) c ≡ or_other a (or_other b c)
or_other_assoc none b c = refl
or_other_assoc (some a) b c = refl

or_other-none : {A : Type 0} (a : Option A) → or_other a none ≡ a
or_other-none none = refl
or_other-none (some a) = refl

last_named-append :
    {A : Type 0} (name_of : A → String) (name : String) (xs ys : List A)
    → last_named name_of name (xs ++ ys)
      ≡ or_other (last_named name_of name ys) (last_named name_of name xs)
last_named-append name_of name [] ys = sym (or_other-none (last_named name_of name ys))
last_named-append name_of name (x ∷ xs) ys =
    ap (λ o. or_other o (if str_eq name (name_of x) then some x else none))
      (last_named-append name_of name xs ys)
    ∙ or_other_assoc (last_named name_of name ys) (last_named name_of name xs) _

name_entry_lem :
    {A : Type 0} (key name : String) (a : A) (m : Named A)
    → name_entry key a m name ≡ or_other (if str_eq name key then some a else none) (m name)
name_entry_lem key name a m = elim (Bool-cases (str_eq name key)) [
  | inl e ↦ rw e refl
  | inr e ↦ rw e refl
]

workflow_name : WorkflowEntry → String
workflow_name e = e.name

add_workflows-last :
    (es : List WorkflowEntry) (m : Named WorkflowEntry) (name : String)
    → add_workflows es m name ≡ or_other (last_named (λ e. e.name) name es) (m name)
add_workflows-last [] m name = refl
add_workflows-last (e ∷ es) m name =
    add_workflows-last es (name_entry e.name e m) name
    ∙ ap (λ o. or_other (last_named (λ e. e.name) name es) o) (name_entry_lem e.name name e m)
    ∙ sym (or_other_assoc (last_named (λ e. e.name) name es) _ (m name))

add_activities-last :
    (es : List ActivityEntry) (m : Named ActivityEntry) (name : String)
    → add_activities es m name ≡ or_other (last_named (λ e. e.name) name es) (m name)
add_activities-last [] m name = refl
add_activities-last (e ∷ es) m name =
    add_activities-last es (name_entry e.name e m) name
    ∙ ap (λ o. or_other (last_named (λ e. e.name) name es) o) (name_entry_lem e.name name e m)
    ∙ sym (or_other_assoc (last_named (λ e. e.name) name es) _ (m name))

module _ {Options : Type 0} where
  abbrev pub all_workflows : List (WorkerInfo Options) → List WorkflowEntry
  all_workflows [] = []
  all_workflows (w ∷ ws) = w.workflows ++ all_workflows ws

  abbrev pub all_activities : List (WorkerInfo Options) → List ActivityEntry
  all_activities [] = []
  all_activities (w ∷ ws) = w.activities ++ all_activities ws

  workflows_loop-last :
      (wi : List (WorkerInfo Options)) (m : Named WorkflowEntry) (name : String)
      → workflows_loop wi m name
        ≡ or_other (last_named (λ e. e.name) name (all_workflows wi)) (m name)
  workflows_loop-last [] m name = refl
  workflows_loop-last (w ∷ ws) m name =
      workflows_loop-last ws (add_workflows w.workflows m) name
      ∙ ap (λ o. or_other (last_named (λ e. e.name) name (all_workflows ws)) o)
          (add_workflows-last w.workflows m name)
      ∙ sym (or_other_assoc (last_named (λ e. e.name) name (all_workflows ws)) _ (m name))
      ∙ ap (λ o. or_other o (m name))
          (sym (last_named-append (λ e. e.name) name w.workflows (all_workflows ws)))

  activities_loop-last :
      (wi : List (WorkerInfo Options)) (m : Named ActivityEntry) (name : String)
      → activities_loop wi m name
        ≡ or_other (last_named (λ e. e.name) name (all_activities wi)) (m name)
  activities_loop-last [] m name = refl
  activities_loop-last (w ∷ ws) m name =
      activities_loop-last ws (add_activities w.activities m) name
      ∙ ap (λ o. or_other (last_named (λ e. e.name) name (all_activities ws)) o)
          (add_activities-last w.activities m name)
      ∙ sym (or_other_assoc (last_named (λ e. e.name) name (all_activities ws)) _ (m name))
      ∙ ap (λ o. or_other o (m name))
          (sym (last_named-append (λ e. e.name) name w.activities (all_activities ws)))

  -- Under a name, the map of workflows holds the last workflow of that name among those of all
  -- workers in their order, or nothing if there is none; and so does the map of activities.
  pub infos-last :
      (wi : List (WorkerInfo Options)) (name : String)
      → (workflows_info wi name ≡ last_named (λ e. e.name) name (all_workflows wi))
        × (activities_info wi name ≡ last_named (λ e. e.name) name (all_activities wi))
  unfolding workflows_info activities_info
  infos-last wi name = (
    workflows_loop-last wi no_names name ∙ or_other-none _,
    activities_loop-last wi no_names name ∙ or_other-none _,
  )
