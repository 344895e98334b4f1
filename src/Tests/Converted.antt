-- ===== src/Tests/Converted.antt =====
-- A run of the data converter on a fallback whose values and payloads are numbers.
use roadrunner_temporal.Base.{
  ℕ, ◌≡◌, refl, sym, ap, subst, ◌∙◌, none, some, List, [], ◌∷◌, map, Option,
}
use roadrunner_temporal.Errors.{GoError, Result, ok, err, str, ◌>>=◌, ok-injective}
use roadrunner_temporal.DataConverter.{
  Any, aggregated, other, Target, proxy, pointer, Memory, Fallback, new_data_converter, to_payloads,
  from_payloads,
}
use roadrunner_temporal.DataConverter.Passed.{
  Pairwise, Encodes, IsConverter, from_payloads-to_payloads,
}
use roadrunner_temporal.Exec.{returns}
use roadrunner_temporal.Tests.{demo_vendor}

abbrev collected : List (Any demo_vendor ℕ) → Result demo_vendor (List ℕ)
collected [] = ok []
collected (aggregated ps ∷ values) = err (str "not converted here")
collected (other n ∷ values) = collected values >>= λ ns. ok (n ∷ ns)

abbrev convert : Any demo_vendor ℕ → Result demo_vendor ℕ
convert (other n) = ok n
convert (aggregated ps) = err (str "not converted here")

-- A variable is written by a new first entry for it.
abbrev read_number :
    ℕ
    → Target ℕ
    → Memory demo_vendor (List (ℕ × ℕ))
    → Option (GoError demo_vendor) × Memory demo_vendor (List (ℕ × ℕ))
read_number p (pointer a) m = (none, record m { others = (a, p) ∷ m.others })
read_number p (proxy n) m = (some (str "not converted here"), m)

abbrev numbers : Fallback demo_vendor
numbers = record {
  Value = ℕ;
  Pointer = ℕ;
  Others = List (ℕ × ℕ);
  to_payloads = λ values. collected values >>= λ ns. ok (some ns);
  to_payload = convert;
  from_payload = λ p t m. read_number p t m;
}

abbrev write_number : ℕ → ℕ → List (ℕ × ℕ) → List (ℕ × ℕ)
write_number a n o = (a, n) ∷ o

abbrev AnyNumber : ℕ → ℕ → Type 0
AnyNumber a n = Unit

collected-other : (ns : List ℕ) → collected (map other ns) ≡ ok ns
collected-other [] = refl
collected-other (n ∷ ns) = ap (λ r. r >>= λ ms. ok (n ∷ ms)) (collected-other ns)

all_encoded : (ns : List ℕ) → Pairwise (Encodes numbers) ns ns
all_encoded [] = tt
all_encoded (n ∷ ns) = (refl, all_encoded ns)

numbers-IsConverter : IsConverter numbers AnyNumber write_number
numbers-IsConverter = record {
  each = λ ns ps h. subst (Pairwise (Encodes numbers) ns) (same ns ps h) (all_encoded ns);
  back = λ n p a m e f.
      ap (λ q. (none, record m { others = (a, q) ∷ m.others })) (sym (ok-injective e));
}
  where
    same :
        (ns ps : List ℕ)
        → (collected (map other ns) >>= λ ms. ok (some ms)) ≡ ok (some ps)
        → ns ≡ ps
    same ns ps h =
        some_equal
          (ok-injective (sym (ap (λ r. r >>= λ ms. ok (some ms)) (collected-other ns)) ∙ h))
      where
        some_equal : ◌≡◌ {A = Option (List ℕ)} (some ns) (some ps) → ns ≡ ps
        some_equal e = cc

abbrev empty_memory : Memory demo_vendor (List (ℕ × ℕ))
empty_memory = record { proxied = λ k. none; others = [] }

two_sent :
    to_payloads (new_data_converter numbers) (map other (7 ∷ 8 ∷ [])) ≡ ok (some (7 ∷ 8 ∷ []))
unfolding to_payloads
two_sent = refl

from_payloads-to_payloads_example :
    from_payloads
      (new_data_converter numbers)
      (some (7 ∷ 8 ∷ []))
      (pointer 0 ∷ pointer 1 ∷ [])
      empty_memory
    ≡ (returns tt, record empty_memory { others = (1, 8) ∷ (0, 7) ∷ [] })
from_payloads-to_payloads_example =
    from_payloads-to_payloads (new_data_converter numbers) AnyNumber write_number
      numbers-IsConverter (0 ∷ 1 ∷ []) (7 ∷ 8 ∷ []) (7 ∷ 8 ∷ []) empty_memory (tt, (tt, tt))
      two_sent
