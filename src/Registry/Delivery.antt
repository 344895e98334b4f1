-- ===== src/Registry/Delivery.antt =====
-- Who hears of a child workflow from registry/registry.go, in every order of events. `Listen` and
-- `Push` each store and then load, and both may be under way at once.
use roadrunner_temporal.Base.{
  ℕ, ◌+◌, ◌≤◌, ◌≡◌, refl, Option, none, some, List, [], ◌∷◌, ◌++◌, All, All-append, arith, length,
  length-append, ==_refl, subst, subst₂,
}
use roadrunner_temporal.Registry.{
  IdRegistry, listen_store, listen_load, listen, push_store, push_load, push,
}

pub data Phase : Type 0 where
  before stored finished : Phase

pub data Turn : Type 0 where
  listens pushes : Turn

abbrev Holds : {A : Type 0} → Phase → A → Option A → Type 0
Holds before a o = o ≡ none
Holds stored a o = o ≡ some a
Holds finished a o = o ≡ some a

abbrev done : Phase → ℕ
done finished = 1
done p = 0

abbrev Heard : Phase → Phase → ℕ → Type 0
Heard finished finished n = 1 ≤ n
Heard p q n = Unit {0}

-- One call of `Listen` and one of `Push`, how far each has come, and the listeners called so far.
pub record Race (Entry Listener : Type 0) : Type 0 where
  pub registry : IdRegistry Entry Listener
  pub listen_phase : Phase
  pub push_phase : Phase
  pub notices : List (Listener × Entry)

abbrev pub phase_of : {Entry Listener : Type 0} → Turn → Race Entry Listener → Phase
phase_of listens r = r.listen_phase
phase_of pushes r = r.push_phase

module _ {Entry Listener : Type 0} where
  abbrev pub with_notice :
      Option (Listener × Entry) → List (Listener × Entry) → List (Listener × Entry)
  with_notice none ns = ns
  with_notice (some n) ns = ns ++ n ∷ []

  abbrev pub at_phases :
      Phase → Phase → IdRegistry Entry Listener → List (Listener × Entry) → Race Entry Listener
  at_phases lp pp reg ns = record {
    registry = reg;
    listen_phase = lp;
    push_phase = pp;
    notices = ns;
  }

  module _ (id : ℕ) (l : Listener) (e : Entry) where
    unfoldable pub advance : Turn → Phase → Race Entry Listener → Race Entry Listener
    unfolding listen_store listen_load push_store push_load
    advance listens before r = record r {
      registry = listen_store id l r.registry;
      listen_phase = stored;
    }
    advance listens stored r = record r {
      listen_phase = finished;
      notices = with_notice (listen_load id l r.registry) r.notices;
    }
    advance listens finished r = r
    advance pushes before r = record r {
      registry = push_store id e r.registry;
      push_phase = stored;
    }
    advance pushes stored r = record r {
      push_phase = finished;
      notices = with_notice (push_load id e r.registry) r.notices;
    }
    advance pushes finished r = r

    unfoldable pub race : List Turn → Race Entry Listener → Race Entry Listener
    race [] r = r
    race (t ∷ ts) r = race ts (advance t (phase_of t r) r)

    record Inv (r : Race Entry Listener) : Type 0 where
      listener : Holds r.listen_phase l (r.registry.listeners id)
      entry : Holds r.push_phase e (r.registry.ids id)
      heard : Heard r.listen_phase r.push_phase (length r.notices)
      at_most : length r.notices ≤ done r.listen_phase + done r.push_phase
      same : All (λ n. n ≡ (l, e)) r.notices

    notice_again :
        (ns : List (Listener × Entry))
        → All (λ n. n ≡ (l, e)) ns
        → All (λ n. n ≡ (l, e)) (ns ++ (l, e) ∷ [])
    notice_again ns h = All-append _ ns ((l, e) ∷ []) h (refl, tt)

    advance-Inv :
        (t : Turn) (lp pp : Phase) (reg : IdRegistry Entry Listener) (ns : List (Listener × Entry))
        → Inv (at_phases lp pp reg ns)
        → let r = at_phases lp pp reg ns in Inv (advance t (phase_of t r) r)
    unfolding advance
    advance-Inv listens before before reg ns i =
        ground (arith, ==_refl id, notice_again ns i.same, length-append ns ((l, e) ∷ []))
    advance-Inv _ _ _ reg ns i =
        ground (arith, ==_refl id, notice_again ns i.same, length-append ns ((l, e) ∷ []))

    race-Inv : (ts : List Turn) (r : Race Entry Listener) → Inv r → Inv (race ts r)
    unfolding race
    race-Inv [] r i = i
    race-Inv (t ∷ ts) r i =
        race-Inv ts _ (advance-Inv t r.listen_phase r.push_phase r.registry r.notices i)

    -- If nobody listens for an id and nothing was pushed for it, then one `Listen` and one `Push`
    -- of that id that overlap in any way, once both have ended, have called the listener at least
    -- once and at most twice, each time with the entry that was pushed.
    pub race-delivers :
        (ts : List Turn) (reg : IdRegistry Entry Listener) (r : Race Entry Listener)
        → reg.listeners id ≡ none
        → reg.ids id ≡ none
        → race ts (at_phases before before reg []) ≡ r
        → r.listen_phase ≡ finished
        → r.push_phase ≡ finished
        → (1 ≤ length r.notices) × (length r.notices ≤ 2) × All (λ n. n ≡ (l, e)) r.notices
    race-delivers ts reg r nobody nothing runs a b = finish (subst Inv runs ended)
      where
        ended : Inv (race ts (at_phases before before reg []))
        ended = race-Inv ts (at_phases before before reg []) (record {
          listener = nobody;
          entry = nothing;
          heard = tt;
          at_most = omega arith;
          same = tt;
        })

        finish :
            Inv r
            → (1 ≤ length r.notices) × (length r.notices ≤ 2) × All (λ n. n ≡ (l, e)) r.notices
        finish i = (
          subst₂ (λ p q. Heard p q (length r.notices)) a b i.heard,
          subst₂ (λ p q. length r.notices ≤ done p + done q) a b i.at_most,
          i.same,
        )

    -- The two calls can each see the other's store, and then the listener is called twice.
    pub race_twice :
        (reg : IdRegistry Entry Listener)
        → (race (listens ∷ pushes ∷ listens ∷ pushes ∷ []) (at_phases before before reg [])).notices
          ≡ (l, e) ∷ (l, e) ∷ []
    unfolding race advance
    race_twice reg = rw (==_refl id)

    -- If nobody listens for an id and nothing was pushed for it, then a `Listen` and a `Push` of that
    -- id with no overlap call the listener exactly once, with the entry that was pushed, whichever
    -- comes first, and leave the same registry in both orders.
    pub listen-push :
        (reg : IdRegistry Entry Listener)
        → reg.listeners id ≡ none
        → reg.ids id ≡ none
        → ((listen id l reg).0 ≡ none)
          × ((push id e (listen id l reg).1).0 ≡ some (l, e))
          × ((push id e reg).0 ≡ none)
          × ((listen id l (push id e reg).1).0 ≡ some (l, e))
          × ((push id e (listen id l reg).1).1 ≡ (listen id l (push id e reg).1).1)
    unfolding listen push
    listen-push reg nobody nothing = (rw nothing, rw (==_refl id), rw nobody, rw (==_refl id), refl)
