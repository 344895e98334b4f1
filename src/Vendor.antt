-- ===== src/Vendor.antt =====
-- What the program takes from the Temporal SDK and API without looking inside: opaque types, their
-- zero values, and the conversions that the SDK offers. A type of this record stands for a struct
-- of `go.temporal.io/...`, or for those of its fields that the program only passes on.
use roadrunner_temporal.Base.{String, Option}

pub record Vendor : Type 1 where
  -- `commonpb.Payload`, `commonpb.Header`, `failure.Failure`, and an error value made elsewhere.
  pub Payload : Type 0
  pub Header : Type 0
  pub Failure : Type 0
  pub Fault : Type 0
  -- The fields of option structs and of execution infos that are passed on unread, and a number
  -- that no code here computes with.
  pub ActivityRest : Type 0
  pub ChildRest : Type 0
  pub InfoRest : Type 0
  pub Float64 : Type 0
  pub SearchAttributes : Type 0
  pub no_activity_rest : ActivityRest
  pub no_child_rest : ChildRest
  pub no_info_rest : InfoRest
  pub no_attributes : SearchAttributes
  -- Handles and values that the workflow environment returns.
  pub ActivityId : Type 0
  pub LocalActivityId : Type 0
  pub TimerId : Type 0
  pub Version : Type 0
  pub Execution : Type 0
  -- `failure.Failure.Message`, and the default failure converter, with what it makes of a nil
  -- failure.
  pub failure_message : Failure → String
  pub failure_to_error : Failure → Fault
  pub nil_failure_error : Option Fault
  pub error_to_failure : Fault → Failure
