-- ===== src/DataConverter/Passed.antt =====
-- data_converter/converter.go: what comes back of the values that the converter sent.
use roadrunner_temporal.Base.{
  ℕ, ◌≡◌, refl, ap, subst, ◌∙◌, Option, none, some, List, [], ◌∷◌, ◌++◌, map,
}
use roadrunner_temporal.Vendor.{Vendor}
use roadrunner_temporal.Errors.{ok}
use roadrunner_temporal.Protocol.{Payloads}
use roadrunner_temporal.Exec.{returns, or_fail, continue}
use roadrunner_temporal.DataConverter.{
  Any, aggregated, other, proxy, pointer, Memory, Fallback, DataConverter, first_aggregated,
  passed_or, to_payloads, from_payload, write_proxy, read_all, from_payloads,
}

-- Two lists of one length whose members are related in turn.
module _ {A B : Type 0} (R : A → B → Type 0) where
  abbrev pub Pairwise : List A → List B → Type 0
  Pairwise [] [] = Unit
  Pairwise [] (b ∷ bs) = ⊥
  Pairwise (a ∷ to) [] = ⊥
  Pairwise (a ∷ to) (b ∷ bs) = R a b × Pairwise to bs

module _ {v : Vendor} (dc : Fallback v) where
  -- A payload that the fallback makes of a value.
  abbrev pub Encodes : dc.Value → v.Payload → Type 0
  Encodes x p = dc.to_payload (other x) ≡ ok p

  -- What a data converter of the SDK keeps: `ToPayloads` makes one payload of each value, and
  -- `FromPayload` writes back what `ToPayload` took, if the pointer is one to the value's type.
  pub record IsConverter (Fits : dc.Pointer → dc.Value → Type 0)
      (write : dc.Pointer → dc.Value → dc.Others → dc.Others) : Type 0 where
    pub each :
        (xs : List dc.Value) (ps : Payloads v)
        → dc.to_payloads (map other xs) ≡ ok (some ps)
        → Pairwise Encodes xs ps
    pub back :
        (x : dc.Value) (p : v.Payload) (a : dc.Pointer) (m : Memory v dc.Others)
        → Encodes x p
        → Fits a x
        → dc.from_payload p (pointer a) m ≡ (none, record m { others = write a x m.others })

  module _ (write : dc.Pointer → dc.Value → dc.Others → dc.Others) where
    abbrev pub write_all : List dc.Pointer → List dc.Value → dc.Others → dc.Others
    write_all [] xs o = o
    write_all (a ∷ to) [] o = o
    write_all (a ∷ to) (x ∷ xs) o = write_all to xs (write a x o)

module _ {v : Vendor} (r : DataConverter v) where
  first_other : (xs : List r.dc.Value) → first_aggregated r (map other xs) ≡ none
  first_other [] = refl
  first_other (x ∷ xs) = first_other xs

  module _ (Fits : r.dc.Pointer → r.dc.Value → Type 0)
      (write : r.dc.Pointer → r.dc.Value → r.dc.Others → r.dc.Others)
      (kept : IsConverter r.dc Fits write) where
    read_all-writes :
        (to : List r.dc.Pointer) (xs : List r.dc.Value) (ps : Payloads v) (m : Memory v r.dc.Others)
        → Pairwise Fits to xs
        → Pairwise (Encodes r.dc) xs ps
        → read_all r ps (map pointer to) m
          ≡ (returns tt, record m { others = write_all r.dc write to xs m.others })
    unfolding read_all from_payload
    read_all-writes [] [] [] m fits sent = refl
    read_all-writes [] [] (p ∷ ps) m fits sent = absurd sent
    read_all-writes [] (x ∷ xs) ps m fits sent = absurd fits
    read_all-writes (a ∷ to) [] ps m fits sent = absurd fits
    read_all-writes (a ∷ to) (x ∷ xs) [] m fits sent = absurd sent
    read_all-writes (a ∷ to) (x ∷ xs) (p ∷ ps) m fits sent =
        ap (λ d. let (e, s) = or_fail d.0 d.1 in continue e (λ _. read_all r ps (map pointer to)) s)
          (kept.back x p a m sent.0 fits.0)
        ∙ read_all-writes to xs ps (record m { others = write a x m.others }) fits.1 sent.1

    -- No pointer here is a `**commonpb.Payloads`, so the loop reads them one by one.
    from_pointers :
        (to : List r.dc.Pointer) (ps : Payloads v) (m : Memory v r.dc.Others)
        → from_payloads r (some ps) (map pointer to) m ≡ read_all r ps (map pointer to) m
    unfolding from_payloads
    from_pointers [] ps m = refl
    from_pointers (a ∷ to) ps m = refl

    -- What the converter makes of plain values it reads back: if the fallback is a converter, every
    -- pointer fits its value, and `ToPayloads` succeeds, then `FromPayloads` succeeds, writes each value
    -- through its pointer, and changes nothing else.
    pub from_payloads-to_payloads :
        (to : List r.dc.Pointer) (xs : List r.dc.Value) (ps : Payloads v) (m : Memory v r.dc.Others)
        → Pairwise Fits to xs
        → to_payloads r (map other xs) ≡ ok (some ps)
        → from_payloads r (some ps) (map pointer to) m
          ≡ (returns tt, record m { others = write_all r.dc write to xs m.others })
    unfolding to_payloads
    from_payloads-to_payloads to xs ps m fits sent =
        from_pointers to ps m
        ∙ read_all-writes to xs ps m fits (
            kept.each xs ps (
              subst (λ o. passed_or r o (r.dc.to_payloads (map other xs)) ≡ ok (some ps))
                (first_other xs) sent))

  first_aggregated-append :
      (xs : List r.dc.Value) (ps : Option (Payloads v)) (rest : List (Any v r.dc.Value))
      → first_aggregated r (map other xs ++ aggregated ps ∷ rest) ≡ some ps
  first_aggregated-append [] ps rest = refl
  first_aggregated-append (x ∷ xs) ps rest = first_aggregated-append xs ps rest

  -- Payloads among the values are sent as they are, whatever stands around them, and are received as
  -- they are by a variable for payloads; the fallback is not asked.
  payloads_pass :
      (xs : List r.dc.Value) (ps : Payloads v) (rest : List (Any v r.dc.Value)) (n : ℕ)
      (m : Memory v r.dc.Others)
      → (to_payloads r (map other xs ++ aggregated (some ps) ∷ rest) ≡ ok (some ps))
        × (from_payloads r (some ps) (proxy n ∷ []) m ≡ (returns tt, write_proxy r n ps m))
  unfolding to_payloads from_payloads
  payloads_pass xs ps rest n m = (
    ap (λ o. passed_or r o (r.dc.to_payloads (map other xs ++ aggregated (some ps) ∷ rest)))
        (first_aggregated-append xs (some ps) rest),
    refl,
  )
