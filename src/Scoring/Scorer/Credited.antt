-- ===== src/Scoring/Scorer/Credited.antt =====
-- The multipliers that a log is credited with, and their cap groups (backend/src/scoring.rs).
use log.Base.{
  ℕ, ◌+◌, ◌≤◌, ◌≡◌, ◌∙◌, ap, refl, Bool, true, not, ◌||◌, List, [], ◌∷◌, ◌++◌, arith, inl, inr,
  Bool-cases, if◌then◌else◌, select, length, length-append,
}
use log.Base.Int.{pos, add_i64, wrap_at, half_i64, ◌+ℤ◌}
use log.Base.Text.{Text, text_eq, text_eq_iff}
use log.Base.Table.{Table, lookup, text_eq_instance}
use log.Contact.{Contact}
use log.Scoring.Module.{ScoringModule, MultiplierCandidate}
use log.Scoring.Scorer.{
  ContestScorer, fresh_scorer, contains, take_multipliers, add_qso, add_qsos, add_new, add_dupe,
  recalculate_score, is_dupe, is_capped, increment, cap_key,
}
use log.Scoring.Scorer.Totals.{count_of, count-increment}

-- Every candidate whose key passes the test is of the cap group.
abbrev pub OwnGroup : (Text → Bool) → Text → List MultiplierCandidate → Type 0
OwnGroup own group [] = Unit {0}
OwnGroup own group (c ∷ cs) = (own c.key ≡ true → cap_key c ≡ group) × OwnGroup own group cs

select-push :
    (own : Text → Bool) (keys : List Text) (k : Text)
    → length (select own (keys ++ k ∷ [])) ≡ length (select own keys) + (if own k then 1 else 0)
select-push own [] k = elim (Bool-cases (own k)) [ inl e ↦ rw e refl | inr e ↦ rw e refl ]
select-push own (j ∷ keys) k = elim (Bool-cases (own j)) [
  | inl e ↦ rw e (omega (arith, select-push own keys k))
  | inr e ↦ rw e (select-push own keys k)
]

-- The keys with the test are no more than the count of the group.
abbrev Counted : (Text → Bool) → Text → List Text → Table Text ℕ → Type 0
Counted own group keys counts = length (select own keys) ≤ count_of group counts

push-Counted :
    (own : Text → Bool) (group : Text) (c : MultiplierCandidate) (keys : List Text)
    (counts : Table Text ℕ)
    → (own c.key ≡ true → cap_key c ≡ group)
    → Counted own group keys counts
    → Counted own group (keys ++ c.key ∷ []) (increment (cap_key c) counts)
push-Counted own group c keys counts o h =
    rw (select-push own keys c.key, count-increment (cap_key c) group counts)
      (elim (Bool-cases (own c.key)) [
        | inl e ↦
            let same : text_eq (cap_key c) group ≡ true = (text_eq_iff (cap_key c) group).1 (o e) in
            rw (e, same) (omega (arith, h))
        | inr e ↦ rw e (ground arith)
      ])

take_multipliers-Counted :
    (own : Text → Bool) (group : Text) (cs : List MultiplierCandidate) (keys : List Text)
    (counts : Table Text ℕ) (n : ℕ)
    → OwnGroup own group cs
    → Counted own group keys counts
    → let taken = take_multipliers cs keys counts n in
      Counted own group taken.0 taken.1 × (length taken.0 + n ≡ length keys + taken.2)
unfolding take_multipliers
take_multipliers-Counted own group [] keys counts n o h = (h, refl)
take_multipliers-Counted own group (c ∷ cs) keys counts n o h =
    elim (Bool-cases (not (contains keys c.key || is_capped c counts))) [
      | inl e ↦
          let ih =
            take_multipliers-Counted own group cs (keys ++ c.key ∷ [])
              (increment (cap_key c) counts) (n + 1) o.1
              (push-Counted own group c keys counts o.0 h) in
          rw (take_multipliers, e) (ih.0, omega (arith, ih.1, length-append keys (c.key ∷ [])))
      | inr e ↦ rw (take_multipliers, e) (take_multipliers-Counted own group cs keys counts n o.1 h)
    ]

wrap-add : (a b : ℕ) → add_i64 (wrap_at half_i64 (pos a)) (pos b) ≡ wrap_at half_i64 (pos (a + b))
unfolding add_i64 ◌+ℤ◌
wrap-add a b = ground arith

wrapped :
    (a b n : ℕ) → a + b ≡ n → add_i64 (wrap_at half_i64 (pos a)) (pos b) ≡ wrap_at half_i64 (pos n)
wrapped a b n e = wrap-add a b ∙ ap (λ m. wrap_at half_i64 (pos m)) e

module _ (module_ : ScoringModule) (own : Text → Bool) (group : Text)
    (owned : (c : Contact) → OwnGroup own group (module_.multiplier_candidates_for c)) where
  record Credited (s : ContestScorer) : Type 0 where
    counted : Counted own group s.multiplier_keys s.multiplier_counts
    raw : s.raw_multiplier_count ≡ wrap_at half_i64 (pos (length s.multiplier_keys))

  add_qso-Credited :
      (s : ContestScorer) (c : Contact) → Credited s → Credited (add_qso module_ s c).0
  unfolding add_qso add_new add_dupe recalculate_score
  add_qso-Credited s c h =
      elim (Bool-cases (is_dupe module_ (module_.dupe_key_for c) s.dupe_keys).1) [
        | inl d ↦ rw d (record {
          counted = h.counted;
          raw =
              ap (λ z. add_i64 z (pos 0)) h.raw
              ∙ wrapped (length s.multiplier_keys) 0 (length s.multiplier_keys) (omega arith);
        })
        | inr n ↦
            let after =
              take_multipliers (module_.multiplier_candidates_for c) s.multiplier_keys
                s.multiplier_counts 0 in
            let taken =
              take_multipliers-Counted own group (module_.multiplier_candidates_for c)
                s.multiplier_keys s.multiplier_counts 0 (owned c) h.counted in
            rw n (record {
              counted = taken.0;
              raw =
                  ap (λ z. add_i64 z (pos after.2)) h.raw
                  ∙ wrapped (length s.multiplier_keys) after.2 (length after.0)
                      (omega (arith, taken.1));
            })
      ]

  add_qsos-Credited :
      (s : ContestScorer) (cs : List Contact) → Credited s → Credited (add_qsos module_ s cs).0
  unfolding add_qsos
  add_qsos-Credited s [] h = h
  add_qsos-Credited s (c ∷ cs) h =
      add_qsos-Credited (add_qso module_ s c).0 cs (add_qso-Credited s c h)

  -- The credited keys with the test are no more than the count of the group, and the raw count of
  -- multipliers is the number of the credited keys.
  pub multipliers-Credited :
      (cs : List Contact)
      → let s = (add_qsos module_ fresh_scorer cs).0 in
        (length (select own s.multiplier_keys) ≤ count_of group s.multiplier_counts)
        × (s.raw_multiplier_count ≡ wrap_at half_i64 (pos (length s.multiplier_keys)))
  unfolding lookup
  multipliers-Credited cs =
      let ok = add_qsos-Credited fresh_scorer cs (record { counted = omega arith; raw = refl }) in
      (ok.counted, ok.raw)
