-- ===== src/Plugin/Loop/Answers.antt =====
-- Every stopped worker that the loop of plugin.go hears of is answered by a reset.
use roadrunner_temporal.Base.{ℕ, ◌+◌, String, ◌≡◌, Bool, List, [], ◌∷◌, ◌++◌, length, if◌then◌else◌}
use roadrunner_temporal.Vendor.{Vendor}
use roadrunner_temporal.Exec.{Exit, returns, stops}
use roadrunner_temporal.Exec.Triple.{Triple}
use roadrunner_temporal.Plugin.{World, Plugin}
use roadrunner_temporal.Plugin.Loop.{Input, worker_stopped, stop_signal, handle_stopped}
use roadrunner_temporal.Plugin.Loop.Counting.{Counts}

-- The messages of the events that arrive before the signal to stop.
abbrev pub heard : List Input → List String
heard [] = []
heard (stop_signal ∷ inputs) = []
heard (worker_stopped message ∷ inputs) = message ∷ heard inputs

module _ {v : Vendor} (w : World v) where
  -- The messages in which a process id is found.
  abbrev pub matches : ℕ → List String → ℕ
  matches n [] = 0
  matches n (message ∷ messages) =
      (if w.contains message (w.itoa n) then 1 else 0) + matches n messages

  abbrev one : Bool → ℕ
  one b = if b then 1 else 0

  -- Of the events, the messages `answered` were each answered by one reset that returned, and the reset
  -- for the one after them failed in the way in which the loop ended.
  pub record Broken (messages : List String) (a b n : ℕ) (r : Exit v (Unit {0}) × Plugin w)
      : Type 0 where
    pub answered : List String
    pub failed : String
    pub unheard : List String
    pub all : messages ≡ answered ++ failed ∷ unheard
    pub last : Plugin w
    pub counted : Counts w (a + length answered) (b + matches n answered) n last
    pub ended : r ≡ handle_stopped w failed last

  abbrev pub Counted : List String → ℕ → ℕ → ℕ → Exit v (Unit {0}) × Plugin w → Type 0
  Counted messages a b n (returns u, p) =
      Counts w (a + length messages) (b + matches n messages) n p
  Counted messages a b n (stops x, p) = Broken messages a b n (stops x, p)
