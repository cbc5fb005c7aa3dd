-- ===== src/Dxcc/Rules/Fuel.antt =====
-- The loop over the modifiers of a CTY rule and its fuel (`parse_rule` of backend/src/dxcc.rs).
use log.Base.{
  ℕ, zero, suc, ◌+◌, ◌≤◌, ◌<◌, ◌≡◌, ◌==◌, refl, Bool, true, false, Option, none, some, List, [],
  ◌∷◌, length, arith, Bool-cases, inl, inr, ◌⊎◌, Option-cases, if◌then◌else◌,
}
use log.Base.Text.{Text, split_once, trim, parse_unsigned}
use log.Dxcc.Rules.{
  DxccRule, Result, ok, err, ◌>>=◌, parse_wrapped_modifier, apply_modifier, parse_modifiers,
  modifier_kinds, unterminated, CtyError, out_of_fuel, bad_number, bad_location, ok_or,
  parse_u8_field, parse_f64_field, set_cq_zone, set_itu_zone, set_continent, set_utc_offset,
  set_location,
}

abbrev Rest : Text → Option (Text × Text) → Type 0
Rest s none = Unit {0}
Rest s (some p) = length p.1 < length s

split_once-Rest : (d : ℕ) (s : Text) → Rest s (split_once d s)
unfolding split_once
split_once-Rest d [] = tt
split_once-Rest d (c ∷ s) = elim (Bool-cases (c == d)) [
  | inl e ↦ rw e (omega arith)
  | inr e ↦ rw e (longer (split_once d s) (split_once-Rest d s))
]
  where
    longer :
        (o : Option (Text × Text))
        → Rest s o
        → Rest (c ∷ s) (log.Base.Lists.◌>>=◌ o (λ p. some (c ∷ p.0, p.1)))
    longer none h = tt
    longer (some p) h = omega arith

abbrev pub is_out_of_fuel : CtyError → Bool
is_out_of_fuel out_of_fuel = true
is_out_of_fuel _ = false

-- The result is not that of a loop without fuel.
abbrev pub Finished : {A : Type 0} → Result A → Type 0
Finished (err e) = is_out_of_fuel e ≡ false
Finished (ok a) = Unit {0}

bind-Finished :
    {A B : Type 0} (v : Result A) (f : A → Result B)
    → Finished v
    → ((a : A) → Finished (f a))
    → Finished (v >>= f)
bind-Finished (err e) f h k = h
bind-Finished (ok a) f h k = k a

ok_or-Finished :
    {A : Type 0} (e : CtyError) (o : Option A) → is_out_of_fuel e ≡ false → Finished (ok_or e o)
ok_or-Finished e none h = h
ok_or-Finished e (some a) h = tt

abbrev Wrapped : Text → Result (Option (Text × Text)) → Type 0
Wrapped s (err e) = is_out_of_fuel e ≡ false
Wrapped s (ok o) = Rest s o

Wrapped-Rest : (o c : ℕ) (s : Text) → Wrapped s (parse_wrapped_modifier o c s)
unfolding parse_wrapped_modifier
Wrapped-Rest o c [] = tt
Wrapped-Rest o c (x ∷ s) = elim (Bool-cases (x == o)) [
  | inl e ↦ rw e (closed (split_once c s) (split_once-Rest c s))
  | inr e ↦ rw e tt
]
  where
    closed :
        (p : Option (Text × Text))
        → Rest s p
        → Wrapped (x ∷ s) (elim p [ none ↦ err unterminated | some q ↦ ok (some q) ])
    closed none h = refl
    closed (some p) h = omega arith

module _ {F : Type 0} (parse_f64 : Text → Option F) where
  abbrev Left : Text → Result (DxccRule F × Text) → Type 0
  Left s (err e) = is_out_of_fuel e ≡ false
  Left s (ok p) = length p.1 < length s

  set_then-Left :
      (s rest : Text) (v : Result (DxccRule F))
      → length rest < length s
      → Finished v
      → Left s (v >>= λ r. ok (r, rest))
  set_then-Left s rest (err e) h k = k
  set_then-Left s rest (ok r) h k = h

  found-Left :
      (s : Text) (setter : DxccRule F → Text → Result (DxccRule F)) (r : DxccRule F)
      (next : Result (DxccRule F × Text)) (found : Result (Option (Text × Text)))
      → ((value : Text) → Finished (setter r value))
      → Wrapped s found
      → Left s next
      → Left s
          (found >>= λ o. elim o [ none ↦ next | some p ↦ (setter r p.0 >>= λ r'. ok (r', p.1)) ])
  found-Left s setter r next (err e) q w h = w
  found-Left s setter r next (ok none) q w h = h
  found-Left s setter r next (ok (some p)) q w h = set_then-Left s p.1 (setter r p.0) w (q p.0)

  -- The setters of these kinds have errors of their own.
  abbrev AllFinished : List (ℕ × ℕ × (DxccRule F → Text → Result (DxccRule F))) → Type 0
  AllFinished [] = Unit {0}
  AllFinished ((o, c, setter) ∷ kinds) =
      ((r : DxccRule F) (value : Text) → Finished (setter r value)) × AllFinished kinds

  number-Finished : (value : Text) → Finished (parse_f64_field parse_f64 value)
  unfolding parse_f64_field
  number-Finished value = ok_or-Finished bad_number (parse_f64 (trim value)) refl

  zone-Finished : (value : Text) → Finished (parse_u8_field value)
  unfolding parse_u8_field
  zone-Finished value = ok_or-Finished bad_number (parse_unsigned 255 (trim value)) refl

  modifier_kinds-AllFinished : AllFinished (modifier_kinds parse_f64)
  unfolding set_cq_zone set_itu_zone set_continent set_utc_offset set_location
  modifier_kinds-AllFinished = (
    λ r value. bind-Finished (parse_u8_field value) _ (zone-Finished value) (λ n. tt),
    (
      λ r value. bind-Finished (parse_u8_field value) _ (zone-Finished value) (λ n. tt),
      (
        λ r value. tt,
        (
          λ r value.
              bind-Finished (parse_f64_field parse_f64 value) _ (number-Finished value) (λ x. tt),
          (
            λ r value.
                bind-Finished (ok_or bad_location (split_once b'/' value)) _
                  (ok_or-Finished bad_location (split_once b'/' value) refl)
                  (λ p. bind-Finished (parse_f64_field parse_f64 p.0) _ (number-Finished p.0) (λ x.
                    bind-Finished (parse_f64_field parse_f64 p.1) _ (number-Finished p.1)
                      (λ y. tt))),
            tt,
          ),
        ),
      ),
    ),
  )

  -- What one modifier leaves is shorter.
  apply_modifier-Left :
      (kinds : List (ℕ × ℕ × (DxccRule F → Text → Result (DxccRule F)))) (r : DxccRule F) (s : Text)
      → AllFinished kinds
      → Left s (apply_modifier parse_f64 kinds r s)
  unfolding apply_modifier
  apply_modifier-Left [] r s q = refl
  apply_modifier-Left ((o, c, setter) ∷ kinds) r s q =
      found-Left s setter r (apply_modifier parse_f64 kinds r s) (parse_wrapped_modifier o c s)
        (q.0 r) (Wrapped-Rest o c s) (apply_modifier-Left kinds r s q.1)

  then-same :
      (s : Text) (m n : ℕ) (v : Result (DxccRule F × Text))
      → Left s v
      → ((r : DxccRule F) (rest : Text)
          → length rest < length s
          → parse_modifiers parse_f64 m r rest ≡ parse_modifiers parse_f64 n r rest)
      → (v >>= λ p. parse_modifiers parse_f64 m p.0 p.1)
        ≡ (v >>= λ p. parse_modifiers parse_f64 n p.0 p.1)
  then-same s m n (err e) h same = refl
  then-same s m n (ok p) h same = same p.0 p.1 h

  -- Any two amounts that are at least the length of the text give the same.
  parse_modifiers_same :
      (m n : ℕ) (r : DxccRule F) (s : Text)
      → length s ≤ m
      → length s ≤ n
      → parse_modifiers parse_f64 m r s ≡ parse_modifiers parse_f64 n r s
  unfolding parse_modifiers
  parse_modifiers_same m n r [] h k = refl
  parse_modifiers_same zero n r (c ∷ s) h k = ground arith
  parse_modifiers_same (suc m) zero r (c ∷ s) h k = ground arith
  parse_modifiers_same (suc m) (suc n) r (c ∷ s) h k =
      then-same (c ∷ s) m n (apply_modifier parse_f64 (modifier_kinds parse_f64) r (c ∷ s))
        (apply_modifier-Left (modifier_kinds parse_f64) r (c ∷ s) modifier_kinds-AllFinished)
        (λ r' rest l. parse_modifiers_same m n r' rest (omega arith) (omega arith))

  then-Finished :
      (s : Text) (m : ℕ) (v : Result (DxccRule F × Text))
      → Left s v
      → ((r : DxccRule F) (rest : Text)
          → length rest < length s
          → Finished (parse_modifiers parse_f64 m r rest))
      → Finished (v >>= λ p. parse_modifiers parse_f64 m p.0 p.1)
  then-Finished s m (err e) h k = h
  then-Finished s m (ok p) h k = k p.0 p.1 h

  parse_modifiers-Finished :
      (m : ℕ) (r : DxccRule F) (s : Text)
      → length s ≤ m
      → Finished (parse_modifiers parse_f64 m r s)
  unfolding parse_modifiers
  parse_modifiers-Finished m r [] h = tt
  parse_modifiers-Finished zero r (c ∷ s) h = ground arith
  parse_modifiers-Finished (suc m) r (c ∷ s) h =
      then-Finished (c ∷ s) m (apply_modifier parse_f64 (modifier_kinds parse_f64) r (c ∷ s))
        (apply_modifier-Left (modifier_kinds parse_f64) r (c ∷ s) modifier_kinds-AllFinished)
        (λ r' rest l. parse_modifiers-Finished m r' rest (omega arith))

  -- The loop over the modifiers ends before its fuel does: with as many rounds as the text has
  -- characters, or more, the result is never that of a loop out of fuel, and it does not depend on how
  -- many more there are.
  pub parse_modifiers_fuel :
      (m : ℕ) (r : DxccRule F) (s : Text)
      → length s ≤ m
      → Finished (parse_modifiers parse_f64 m r s)
        × (parse_modifiers parse_f64 m r s ≡ parse_modifiers parse_f64 (length s) r s)
  parse_modifiers_fuel m r s h =
      (parse_modifiers-Finished m r s h, parse_modifiers_same m (length s) r s h (omega arith))
