-- ===== src/Protocol/Params/Laws.antt =====
-- What the SDK gets for the options that a worker sends (internal/protocol.go).
use roadrunner_temporal.Base.{
  ℕ, suc, String, ◌≡◌, ◌≢◌, ◌⊎◌, refl, sym, ap, ◌∙◌, ◌≤◌, ◌<◌, ◌*◌, ◌+◌, ◌-◌, ◌%◌, false, Option,
  str_eq, eq_iff, Bool-cases, inl, inr, subst, if_true, if_false, arith,
}
use roadrunner_temporal.Base.Int.{
  ℤ, pos, negsuc, pos_part, neg_part, is_zero, half_range, full_range, signed, scale64,
}
use roadrunner_temporal.Vendor.{Vendor}
use roadrunner_temporal.Protocol.{
  Payloads, WorkflowInfo, ActivityOptions, LocalActivityOptions, ChildOptions,
}
use roadrunner_temporal.Protocol.Params.{
  or_default, or_minute, minute, activity_params, local_activity_params, workflow_params,
  to_duration,
}

-- A number of milliseconds that 64 bits hold in nanoseconds.
abbrev pub InRange : ℤ → Type 0
InRange ms = pos_part ms + neg_part ms ≤ 9223372036854

abbrev pub exact : ℤ → ℤ
exact (pos n) = pos (1000000 * n)
exact (negsuc n) = negsuc (1000000 * suc n - 1)

signed_pos : (n : ℕ) → n < half_range → signed (n % full_range) ≡ pos n
signed_pos n h = let e : n % full_range ≡ n = omega (arith, h) in rw e (ground (arith, h))

signed_neg :
    (n : ℕ) → n < half_range → signed ((full_range - suc n % full_range) % full_range) ≡ negsuc n
signed_neg n h =
    let e : (full_range - suc n % full_range) % full_range ≡ full_range - suc n =
      omega (arith, h) in
    rw e (ground (arith, h))

-- For a number of milliseconds within 9223372036854 of zero, about 292 years, `ToDuration` gives
-- exactly as many nanoseconds times a million, with no wrap-around.
pub to_duration-exact : (ms : ℤ) → InRange ms → to_duration ms ≡ exact ms
unfolding to_duration scale64
to_duration-exact (pos n) h = signed_pos (1000000 * n) (omega (arith, h))
to_duration-exact (negsuc n) h =
    let e : 1000000 * suc n ≡ suc (1000000 * suc n - 1) = omega arith in
    subst
      (λ (k : ℕ).
        signed ((full_range - k % full_range) % full_range) ≡ negsuc (1000000 * suc n - 1))
      (sym e) (signed_neg (1000000 * suc n - 1) (omega (arith, h)))

-- One millisecond more wraps around to a negative duration.
pub to_duration-wraps : to_duration (pos 9223372036855) ≡ negsuc 9223372036854551615
unfolding to_duration scale64
to_duration-wraps = refl

-- The name that the worker asked for, or the other one if it asked for none.
abbrev pub Chosen : String → String → String → Type 0
Chosen asked other got = ((asked ≡ "") × (got ≡ other)) ⊎ ((asked ≢ "") × (got ≡ asked))

or_default-Chosen : (asked other : String) → Chosen asked other (or_default asked other)
or_default-Chosen asked other = elim (Bool-cases (str_eq asked "")) [
  | inl e ↦ inl ((eq_iff asked "").0 e, if_true _ _ e)
  | inr e ↦ inr ((λ q. let t = (eq_iff asked "").1 q in cc), if_false _ _ e)
]

or_minute-nonzero : (t : ℤ) → is_zero (or_minute t) ≡ false
or_minute-nonzero t = elim (Bool-cases (is_zero t)) [
  | inl e ↦ rw e
  | inr e ↦ ap is_zero (if_false minute t e) ∙ e
]

module _ {v : Vendor} (info : WorkflowInfo v) (name : String) (payloads : Option (Payloads v))
    (header : Option v.Header) where
  -- An activity and a child workflow run on the task queue that the worker named, and on the
  -- workflow's own if it named none; neither timeout of a local activity is ever zero; and the input,
  -- the header and the name reach the SDK as the worker sent them.
  pub params_complete :
      (o : ActivityOptions v) (l : LocalActivityOptions v) (c : ChildOptions v)
      → let a = activity_params info name o payloads header in
        let b = local_activity_params info name l payloads header in
        let d = workflow_params info name c payloads header in
        Chosen o.task_queue_name info.task_queue_name a.options.task_queue_name
        × Chosen c.task_queue_name info.task_queue_name d.options.task_queue_name
        × (is_zero b.start_to_close_timeout ≡ false)
        × (is_zero b.schedule_to_close_timeout ≡ false)
        × (a.input ≡ payloads)
        × (b.input ≡ payloads)
        × (d.input ≡ payloads)
        × (a.header ≡ header)
        × (b.header ≡ header)
        × (d.header ≡ header)
        × (a.activity_type ≡ name)
        × (b.activity_type ≡ name)
        × (d.workflow_type ≡ name)
  unfolding activity_params local_activity_params workflow_params
  params_complete o l c = (
    or_default-Chosen o.task_queue_name info.task_queue_name,
    or_default-Chosen c.task_queue_name info.task_queue_name,
    or_minute-nonzero l.start_to_close_timeout,
    or_minute-nonzero l.schedule_to_close_timeout,
    refl,
    refl,
    refl,
    refl,
    refl,
    refl,
    refl,
    refl,
    refl,
  )
