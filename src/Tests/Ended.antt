-- ===== src/Tests/Ended.antt =====
-- Runs of the workflow of aggregatedpool in which it is inspected and closed.
use roadrunner_temporal.Base.{none, [], ◌∷◌, ◌++◌}
use roadrunner_temporal.Protocol.{empty_message}
use roadrunner_temporal.Workflow.{Workflow, Services}
use roadrunner_temporal.Workflow.Exchange.{decode}
use roadrunner_temporal.Tests.{demo_vendor, demo_environment, demo_services, demo_update}

-- One update waits, and every reply of the worker is one empty message.
abbrev waiting_services : Services demo_vendor
waiting_services = record demo_services {
  env = record demo_environment { updates = λ l. demo_update ∷ [] };
  codec = record {
    encode = λ ctx p ms. (p, none);
    decode = λ p acc. (acc ++ empty_message demo_vendor ∷ [], none);
  };
}
