-- ===== src/Collector/Storing.antt =====
-- What `store_if_in_range` and `fetch_and_store_range` of src/heron/ingest/collector.py store and count.
use heron_mail.Prelude.{List, [], ap, arith, length, refl, subst, suc, ℕ, ◌+◌, ◌∷◌, ◌≡◌}
use heron_mail.Result.{err, ok, ok-injective}
use heron_mail.Collector.{
  CollectorResult, FetchedMessage, Library, Outcome, Store, StoreOutcome, Target, and_then,
  count_outcome, outside_range, store_all, store_if_in_range, stored_duplicate, stored_new,
  total_in_range,
}

and_then-ok {ℓ κ} :
    {A : Type ℓ} {B : Type κ} (r : Outcome A) (f : Store → A → Outcome B) (s : Store) (b : B)
    → and_then r f ≡ (s, ok b)
    → (t : Store) × (a : A) × (r ≡ (t, ok a)) × (f t a ≡ (s, ok b))
and_then-ok (t, ok a) f s b e = (t, a, refl, e)
and_then-ok {B = B} (t, err x) f s b e = cc (ap (λ (o : Outcome B). o.1) e)

-- Where every message could be stored, as many are counted as were fetched, and each is counted as new,
-- as a duplicate or as outside the range, once.
pub store_all_counts :
    (lib : Library) (store after : Store) (target : Target) (messages : List (ℕ × FetchedMessage))
    (now : ℕ) (r : CollectorResult)
    → store_all lib store target messages now ≡ (after, ok r)
    → (r.fetched ≡ length messages) × (r.fetched ≡ total_in_range r + r.outside_range)
unfolding store_all
store_all_counts lib store after target [] now r e =
    let same = ok-injective _ _ (ap (λ (o : Outcome CollectorResult). o.1) e) in
    subst
      (λ (c : CollectorResult). (c.fetched ≡ 0) × (c.fetched ≡ total_in_range c + c.outside_range))
      same (refl, refl)
store_all_counts lib store after target ((uid, message) ∷ rest) now r e =
    let (s, outcome, stored, e₁) =
      and_then-ok (store_if_in_range lib store target uid message now) _ after r e in
    let (s', counts, others, e₂) = and_then-ok (store_all lib s target rest now) _ after r e₁ in
    let same = ok-injective _ _ (ap (λ (o : Outcome CollectorResult). o.1) e₂) in
    let before = store_all_counts lib s s' target rest now counts others in
    subst
      (λ (c : CollectorResult).
        (c.fetched ≡ suc (length rest)) × (c.fetched ≡ total_in_range c + c.outside_range))
      same (counted outcome counts (length rest) before)
  where
    counted :
        (outcome : StoreOutcome) (c : CollectorResult) (n : ℕ)
        → (c.fetched ≡ n) × (c.fetched ≡ total_in_range c + c.outside_range)
        → ((count_outcome outcome c).fetched ≡ suc n)
          × ((count_outcome outcome c).fetched
              ≡ total_in_range (count_outcome outcome c) + (count_outcome outcome c).outside_range)
    counted stored_new c n h = (omega (arith, h.0), omega (arith, h.1))
    counted stored_duplicate c n h = (omega (arith, h.0), omega (arith, h.1))
    counted outside_range c n h = (omega (arith, h.0), omega (arith, h.1))
