-- ===== src/Adif/Decimal.antt =====
-- Decimal lengths of fields, printed and read (`serialize_field` and `parse_tag` of
-- backend/src/adif.rs).
use log.Base.{
  ℕ, zero, suc, ◌+◌, ◌-◌, ◌*◌, ◌/◌, ◌%◌, ◌≤◌, ◌<◌, ◌≡◌, ◌∙◌, ap, refl, true, false, some, [], ◌∷◌,
  arith, inl, inr, Bool-cases, ltb, leb, ◌==◌, all, subst,
}
use log.Base.Int.{pos}
use log.Base.Text.{Text, is_digit, digits_from, decimal_on, decimal, parse_unsigned}

abbrev pub pow10 : ℕ → ℕ
pow10 zero = 1
pow10 (suc f) = 10 * pow10 f

digits_from-digit :
    (m d : ℕ) (acc : Text)
    → d < 10
    → digits_from m ((b'0' + d) ∷ acc) ≡ digits_from (m * 10 + d) acc
unfolding digits_from
digits_from-digit m d acc h =
    let e : is_digit (b'0' + d) ≡ true = ground arith in
    let k : m * 10 + (b'0' + d - b'0') ≡ m * 10 + d = omega arith in rw (e, k) refl

first_digits : (n : ℕ) (acc : Text) → n < 10 → digits_from 0 ((b'0' + n) ∷ acc) ≡ digits_from n acc
first_digits n acc h =
    let k : 0 * 10 + n ≡ n = omega arith in
    digits_from-digit 0 n acc h ∙ ap (λ m. digits_from m acc) k

digits_from-decimal_on :
    (f n : ℕ) (acc : Text)
    → n < pow10 f
    → digits_from 0 (decimal_on (suc f) n acc) ≡ digits_from n acc
unfolding decimal_on
digits_from-decimal_on zero n acc h =
    let e : ltb n 10 ≡ true = ground arith in rw e (first_digits n acc (omega arith))
digits_from-decimal_on (suc f) n acc h = elim (Bool-cases (ltb n 10)) [
  | inl e ↦ rw e (first_digits n acc (ground arith))
  | inr e ↦
      let k : n / 10 * 10 + n % 10 ≡ n = omega arith in
      rw e (
        digits_from-decimal_on f (n / 10) ((b'0' + n % 10) ∷ acc) (omega arith)
        ∙ digits_from-digit (n / 10) (n % 10) acc (omega arith)
        ∙ ap (λ m. digits_from m acc) k)
]

decimal_on-digits :
    (f n : ℕ) (acc : Text) → all is_digit acc ≡ true → all is_digit (decimal_on f n acc) ≡ true
unfolding decimal_on
decimal_on-digits zero n acc h = h
decimal_on-digits (suc f) n acc h =
    let last : is_digit (b'0' + n % 10) ≡ true = ground arith in
    let next : all is_digit ((b'0' + n % 10) ∷ acc) ≡ true = rw last h in
    elim (Bool-cases (ltb n 10)) [
      | inl e ↦ let one : is_digit (b'0' + n) ≡ true = ground arith in rw (e, one) h
      | inr e ↦ rw e (decimal_on-digits f (n / 10) ((b'0' + n % 10) ∷ acc) next)
    ]

decimal_on-some :
    (f n : ℕ) (acc : Text) → (d : ℕ) × (ds : Text) × (decimal_on (suc f) n acc ≡ d ∷ ds)
unfolding decimal_on
decimal_on-some zero n acc = elim (Bool-cases (ltb n 10)) [
  | inl e ↦ rw e (b'0' + n, acc, refl)
  | inr e ↦ rw e (b'0' + n % 10, acc, refl)
]
decimal_on-some (suc f) n acc = elim (Bool-cases (ltb n 10)) [
  | inl e ↦ rw e (b'0' + n, acc, refl)
  | inr e ↦ rw e (decimal_on-some f (n / 10) ((b'0' + n % 10) ∷ acc))
]

pub decimal-digits : (n : ℕ) → all is_digit (decimal (pos n)) ≡ true
unfolding decimal
decimal-digits n = decimal_on-digits 20 n [] refl

parse_unsigned-digits :
    (max n : ℕ) (s : Text)
    → all is_digit s ≡ true
    → (d : ℕ) × (ds : Text) × (s ≡ d ∷ ds)
    → digits_from 0 s ≡ some n
    → n ≤ max
    → parse_unsigned max s ≡ some n
unfolding parse_unsigned
parse_unsigned-digits max n s a (d, ds, e) r h =
    let k : all is_digit (d ∷ ds) ≡ true = subst (λ t. all is_digit t ≡ true) e a in
    let r' : digits_from 0 (d ∷ ds) ≡ some n = subst (λ t. digits_from 0 t ≡ some n) e r in
    let plus : (d == b'+') ≡ false = first_digit d k in
    let fits : leb n max ≡ true = ground arith in rw (e, plus, r', fits) refl
  where
    first_digit : (d : ℕ) → all is_digit (d ∷ ds) ≡ true → (d == b'+') ≡ false
    first_digit d k = ground arith

-- A number of at most 19 digits is read back.
pub parse_unsigned-decimal :
    (max n : ℕ) → n < pow10 19 → n ≤ max → parse_unsigned max (decimal (pos n)) ≡ some n
unfolding decimal digits_from
parse_unsigned-decimal max n h k =
    parse_unsigned-digits max n (decimal_on 20 n []) (decimal_on-digits 20 n [] refl)
      (decimal_on-some 19 n []) (digits_from-decimal_on 19 n [] h) k
