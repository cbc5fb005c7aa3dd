-- ===== src/Scoring/Scorer/Caps.antt =====
-- Multiplier caps and distinct multiplier keys (backend/src/scoring.rs).
use log.Base.{
  ℕ, ◌+◌, ◌≤◌, ◌≡◌, refl, Bool, true, false, not, ◌&&◌, ◌||◌, ap, some, List, [], ◌∷◌, ◌++◌, arith,
  inl, inr, Bool-cases, if◌then◌else◌, leb,
}
use log.Base.Text.{Text, text_eq, text_eq_iff}
use log.Base.Table.{Table, lookup, text_eq_instance}
use log.Contact.{Contact}
use log.Scoring.Module.{ScoringModule, MultiplierCandidate}
use log.Scoring.Scorer.{
  ContestScorer, fresh_scorer, contains, take_multipliers, add_qso, add_qsos, add_new, add_dupe,
  is_dupe, is_capped, increment, cap_key,
}
use log.Scoring.Scorer.Totals.{count_of, count-increment}

-- Every candidate of the cap group has this maximum.
abbrev pub Capped : Text → ℕ → List MultiplierCandidate → Type 0
Capped group maximum [] = Unit {0}
Capped group maximum (c ∷ cs) =
    (cap_key c ≡ group → c.max_count ≡ some maximum) × Capped group maximum cs

abbrev pub Distinct : List Text → Type 0
Distinct [] = Unit {0}
Distinct (k ∷ ks) = (contains ks k ≡ false) × Distinct ks

abbrev next_counts : MultiplierCandidate → List Text → Table Text ℕ → Table Text ℕ
next_counts c keys counts =
    if not (contains keys c.key || is_capped c counts) then increment (cap_key c) counts else counts

capped_lem :
    (maximum : ℕ) (c : MultiplierCandidate) (counts : Table Text ℕ)
    → c.max_count ≡ some maximum
    → is_capped c counts ≡ leb maximum (count_of (cap_key c) counts)
unfolding is_capped
capped_lem maximum c counts e = rw e refl

count_step :
    (group : Text) (c : MultiplierCandidate) (keys : List Text) (counts : Table Text ℕ)
    → count_of group (next_counts c keys counts)
      ≡ count_of group counts
        + (if not (contains keys c.key || is_capped c counts) && text_eq (cap_key c) group
            then 1
            else 0)
count_step group c keys counts =
    elim (Bool-cases (not (contains keys c.key || is_capped c counts))) [
      | inl f ↦ rw (f, count-increment (cap_key c) group counts) refl
      | inr f ↦ rw f (omega arith)
    ]

cap_step :
    (group : Text) (maximum : ℕ) (c : MultiplierCandidate) (keys : List Text)
    (counts : Table Text ℕ)
    → (cap_key c ≡ group → c.max_count ≡ some maximum)
    → count_of group counts ≤ maximum
    → count_of group (next_counts c keys counts) ≤ maximum
cap_step group maximum c keys counts same_cap h = elim (Bool-cases (text_eq (cap_key c) group)) [
  | inr other ↦ rw (count_step group c keys counts) (ground arith)
  | inl own ↦
      let e = (text_eq_iff (cap_key c) group).0 own in
      let full = capped_lem maximum c counts (same_cap e) in
      rw (count_step group c keys counts) (ground (arith, ap (λ (k : Text). count_of k counts) e))
]

cap_multipliers :
    (group : Text) (maximum : ℕ) (cs : List MultiplierCandidate) (keys : List Text)
    (counts : Table Text ℕ) (n : ℕ)
    → Capped group maximum cs
    → count_of group counts ≤ maximum
    → count_of group (take_multipliers cs keys counts n).1 ≤ maximum
unfolding take_multipliers
cap_multipliers group maximum [] keys counts n caps h = h
cap_multipliers group maximum (c ∷ cs) keys counts n caps h =
    let fresh = not (contains keys c.key || is_capped c counts) in
    cap_multipliers group maximum cs (if fresh then keys ++ c.key ∷ [] else keys)
      (next_counts c keys counts) (if fresh then n + 1 else n) caps.1
      (cap_step group maximum c keys counts caps.0 h)

contains-append :
    (ks : List Text) (k j : Text) → contains (ks ++ k ∷ []) j ≡ (contains ks j || text_eq k j)
contains-append [] k j = ground arith
contains-append (i ∷ ks) k j = ground (arith, contains-append ks k j)

Distinct-append :
    (ks : List Text) (k : Text) → contains ks k ≡ false → Distinct ks → Distinct (ks ++ k ∷ [])
Distinct-append [] k h d = (refl, tt)
Distinct-append (i ∷ ks) k h d = (
  rw (contains-append ks k i) (ground (arith, text_eq_iff i k, text_eq_iff k i)),
  Distinct-append ks k (ground arith) d.1,
)

Distinct-step :
    (c : MultiplierCandidate) (keys : List Text) (fresh : Bool)
    → (fresh ≡ true → contains keys c.key ≡ false)
    → Distinct keys
    → Distinct (if fresh then keys ++ c.key ∷ [] else keys)
Distinct-step c keys true h d = Distinct-append keys c.key (h refl) d
Distinct-step c keys false h d = d

Distinct-multipliers :
    (cs : List MultiplierCandidate) (keys : List Text) (counts : Table Text ℕ) (n : ℕ)
    → Distinct keys
    → Distinct (take_multipliers cs keys counts n).0
unfolding take_multipliers
Distinct-multipliers [] keys counts n d = d
Distinct-multipliers (c ∷ cs) keys counts n d =
    let fresh = not (contains keys c.key || is_capped c counts) in
    Distinct-multipliers cs (if fresh then keys ++ c.key ∷ [] else keys) (next_counts c keys counts)
      (if fresh then n + 1 else n) (Distinct-step c keys fresh (λ e. ground arith) d)

module _ (module_ : ScoringModule) where
  -- What holds of the multipliers while a log is scored: their keys are distinct, and the count of
  -- a cap group does not pass its maximum.
  pub record MultipliersOk (group : Text) (maximum : ℕ) (s : ContestScorer) : Type 0 where
    pub distinct : Distinct s.multiplier_keys
    pub capped : count_of group s.multiplier_counts ≤ maximum

  add_qso-MultipliersOk :
      (group : Text) (maximum : ℕ)
      (caps : (c : Contact) → Capped group maximum (module_.multiplier_candidates_for c))
      (s : ContestScorer) (c : Contact)
      → MultipliersOk group maximum s
      → MultipliersOk group maximum (add_qso module_ s c).0
  unfolding add_qso add_new add_dupe
  add_qso-MultipliersOk group maximum caps s c h =
      elim (Bool-cases (is_dupe module_ (module_.dupe_key_for c) s.dupe_keys).1) [
        | inl d ↦ rw d (record { distinct = h.distinct; capped = h.capped })
        | inr n ↦ rw n (record {
          distinct =
              Distinct-multipliers (module_.multiplier_candidates_for c) s.multiplier_keys
                s.multiplier_counts 0 h.distinct;
          capped =
              cap_multipliers group maximum (module_.multiplier_candidates_for c) s.multiplier_keys
                s.multiplier_counts 0 (caps c) h.capped;
        })
      ]

  add_qsos-MultipliersOk :
      (group : Text) (maximum : ℕ)
      (caps : (c : Contact) → Capped group maximum (module_.multiplier_candidates_for c))
      (s : ContestScorer) (cs : List Contact)
      → MultipliersOk group maximum s
      → MultipliersOk group maximum (add_qsos module_ s cs).0
  unfolding add_qsos
  add_qsos-MultipliersOk group maximum caps s [] h = h
  add_qsos-MultipliersOk group maximum caps s (c ∷ cs) h =
      add_qsos-MultipliersOk group maximum caps (add_qso module_ s c).0 cs
        (add_qso-MultipliersOk group maximum caps s c h)

  -- However a log is made up, no multiplier counts twice, and a cap group whose candidates agree on
  -- their maximum never counts more multipliers than that.
  pub multipliers-Capped :
      (group : Text) (maximum : ℕ)
      → ((c : Contact) → Capped group maximum (module_.multiplier_candidates_for c))
      → (cs : List Contact)
      → let s = (add_qsos module_ fresh_scorer cs).0 in
        Distinct s.multiplier_keys × (count_of group s.multiplier_counts ≤ maximum)
  unfolding lookup
  multipliers-Capped group maximum caps cs =
      let ok =
        add_qsos-MultipliersOk group maximum caps fresh_scorer cs
          (record { distinct = tt; capped = omega arith }) in
      (ok.distinct, ok.capped)
