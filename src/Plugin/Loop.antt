-- ===== src/Plugin/Loop.antt =====
-- The loop that `Serve` of plugin.go starts: it takes the events of stopped workers, one after the
-- other, until the signal to stop arrives.
pub mod Counting
pub mod Answers
use roadrunner_temporal.Base.{String, Bool, true, false, List, [], ◌∷◌}
use roadrunner_temporal.Vendor.{Vendor}
use roadrunner_temporal.Errors.{GoError, wrap, errore}
use roadrunner_temporal.Exec.{Exit, returns, stops, error, Exec, pure, ◌>>=◌, ◌>>◌}
use roadrunner_temporal.Plugin.{World, Plugin, Method, reset, reset_ap}

-- What the loop's `select` takes next.
pub data Input : Type 0 where
  worker_stopped : (message : String) → Input
  stop_signal : Input

module _ {v : Vendor} (w : World v) where
  -- The message of the event names a process; if that is the workflow worker's, everything is reset.
  unfoldable pub restart : Bool → Method w (Unit {0})
  restart true = reset w
  restart false = reset_ap w

  abbrev pub reset_error : {A : Type 0} → String → Exit v A → Exit v A
  reset_error message (stops (error e)) =
      stops (
        error
          (wrap "temporal_plugin_serve" (errore "error during reset: %#v, event: %s" e message)))
  reset_error message r = r

  unfoldable pub handle_stopped : String → Method w (Unit {0})
  unfolding restart
  handle_stopped message p =
      let (r, p') = restart (w.contains message (w.itoa p.ww_pid)) p in (reset_error message r, p')

  -- The loop ends with an error, which goes to the channel of `Serve`, with the signal to stop, or not
  -- at all, when it waits for more than the inputs.
  unfoldable pub serve_loop : List Input → Method w (Unit {0})
  unfolding handle_stopped
  serve_loop [] = pure tt
  serve_loop (stop_signal ∷ inputs) = pure tt
  serve_loop (worker_stopped message ∷ inputs) =
      let rest = serve_loop inputs in handle_stopped message >> rest
