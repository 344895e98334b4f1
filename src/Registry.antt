-- ===== src/Registry.antt =====
-- registry/registry.go: the executions of child workflows, by the id of the command that started
-- them, and who waits for one. An `Entry` is what `Push` stores, and a `Listener` what `Listen`
-- stores; the call of a listener is left to the caller, which gets it as a value. The mutex only
-- guards that call.
pub mod Delivery
use roadrunner_temporal.Base.{ℕ, Option, none, some, List, [], ◌∷◌, Map, load, store, empty_map}

pub record IdRegistry (Entry Listener : Type 0) : Type 0 where
  pub ids : Map Entry
  pub listeners : Map Listener

module _ {Entry Listener : Type 0} where
  -- `new(registry.IDRegistry)`.
  abbrev pub new_registry : IdRegistry Entry Listener
  new_registry = record { ids = empty_map; listeners = empty_map }

  abbrev pub to_listener : Option Listener → Entry → Option (Listener × Entry)
  to_listener none e = none
  to_listener (some l) e = some (l, e)

  abbrev pub with_entry : Listener → Option Entry → Option (Listener × Entry)
  with_entry l none = none
  with_entry l (some e) = some (l, e)

  -- The two halves of `Listen`: the store, then the load and the call.
  unfoldable pub listen_store : ℕ → Listener → IdRegistry Entry Listener → IdRegistry Entry Listener
  listen_store id cl r = record r { listeners = store id cl r.listeners }

  unfoldable pub listen_load : ℕ → Listener → IdRegistry Entry Listener → Option (Listener × Entry)
  listen_load id cl r = with_entry cl (load id r.ids)

  unfoldable pub listen :
      ℕ
      → Listener
      → IdRegistry Entry Listener
      → Option (Listener × Entry) × IdRegistry Entry Listener
  unfolding listen_store listen_load
  listen id cl r = let r' = listen_store id cl r in (listen_load id cl r', r')

  -- The two halves of `Push`.
  unfoldable pub push_store : ℕ → Entry → IdRegistry Entry Listener → IdRegistry Entry Listener
  push_store id e r = record r { ids = store id e r.ids }

  unfoldable pub push_load : ℕ → Entry → IdRegistry Entry Listener → Option (Listener × Entry)
  push_load id e r = to_listener (load id r.listeners) e

  unfoldable pub push :
      ℕ → Entry → IdRegistry Entry Listener → Option (Listener × Entry) × IdRegistry Entry Listener
  unfolding push_store push_load
  push id e r = let r' = push_store id e r in (push_load id e r', r')
