-- ===== src/Protocol/Params.antt =====
-- The parameters that internal/protocol.go makes of a worker's command for the SDK.
pub mod Laws
use mathlib.Core.Option
use roadrunner_temporal.Base.{String, List, Option, none, some, str_eq, if◌then◌else◌}
use roadrunner_temporal.Base.Int.{ℤ, pos, is_zero, scale64}
use roadrunner_temporal.Vendor.{Vendor}
use roadrunner_temporal.Protocol.{
  Payloads, WorkflowInfo, ActivityOptions, RetryPolicy, LocalActivityOptions, ChildOptions,
}

pub record ActivityParams (v : Vendor) : Type 0 where
  pub options : ActivityOptions v
  pub activity_type : String
  pub input : Option (Payloads v)
  pub header : Option v.Header

-- `temporal.RetryPolicy`.
pub record SdkRetryPolicy (v : Vendor) : Type 0 where
  pub initial_interval : ℤ
  pub backoff_coefficient : v.Float64
  pub maximum_interval : ℤ
  pub maximum_attempts : ℤ
  pub non_retryable_error_types : List String

-- `ActivityFn` is the closure of aggregatedpool/local_activity.go over the header. `ScheduledTime`
-- is the wall clock and is left out; `WorkflowInfo` is the environment's.
pub record LocalActivityParams (v : Vendor) : Type 0 where
  pub schedule_to_close_timeout : ℤ
  pub start_to_close_timeout : ℤ
  pub retry_policy : Option (SdkRetryPolicy v)
  pub activity_type : String
  pub input : Option (Payloads v)
  pub info : WorkflowInfo v
  pub header : Option v.Header

pub record ChildParams (v : Vendor) : Type 0 where
  pub options : ChildOptions v
  pub workflow_type : String
  pub input : Option (Payloads v)
  pub header : Option v.Header

abbrev pub or_default : String → String → String
or_default s d = if str_eq s "" then d else s

-- `ifNotNil`.
abbrev pub if_not_nil : Option ℤ → ℤ
if_not_nil none = pos 0
if_not_nil (some d) = d

unfoldable pub sdk_policy : {v : Vendor} → RetryPolicy v → SdkRetryPolicy v
sdk_policy p = record {
  initial_interval = if_not_nil p.initial_interval;
  backoff_coefficient = p.backoff_coefficient;
  maximum_interval = if_not_nil p.maximum_interval;
  maximum_attempts = p.maximum_attempts;
  non_retryable_error_types = p.non_retryable_error_types;
}

abbrev pub minute : ℤ
minute = pos 60000000000

abbrev pub or_minute : ℤ → ℤ
or_minute t = if is_zero t then minute else t

module _ {v : Vendor} (info : WorkflowInfo v) where
  unfoldable pub activity_params :
      String → ActivityOptions v → Option (Payloads v) → Option v.Header → ActivityParams v
  activity_params name o payloads header = record {
    options = record o { task_queue_name = or_default o.task_queue_name info.task_queue_name };
    activity_type = name;
    input = payloads;
    header = header;
  }

  unfoldable pub local_activity_params :
      String
      → LocalActivityOptions v
      → Option (Payloads v)
      → Option v.Header
      → LocalActivityParams v
  unfolding sdk_policy
  local_activity_params name o payloads header = record {
    start_to_close_timeout = or_minute o.start_to_close_timeout;
    schedule_to_close_timeout = or_minute o.schedule_to_close_timeout;
    retry_policy = Option.map sdk_policy o.retry_policy;
    activity_type = name;
    input = payloads;
    info = info;
    header = header;
  }

  unfoldable pub workflow_params :
      String → ChildOptions v → Option (Payloads v) → Option v.Header → ChildParams v
  workflow_params name o payloads header = record {
    options = record o { task_queue_name = or_default o.task_queue_name info.task_queue_name };
    workflow_type = name;
    input = payloads;
    header = header;
  }

-- `time.Millisecond * time.Duration(cmd.Milliseconds)`, in nanoseconds.
unfoldable pub to_duration : ℤ → ℤ
unfolding scale64
to_duration ms = scale64 1000000 ms
