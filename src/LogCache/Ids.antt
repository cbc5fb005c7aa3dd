-- ===== src/LogCache/Ids.antt =====
-- Distinct ids among the cached contacts: merging and inserting (backend/src/log_cache.rs).
use log.Base.{
  ℕ, zero, suc, ◌+◌, ◌≤◌, ◌≡◌, ◌∙◌, sym, ap, refl, Bool, true, Option, none, some, List, [], ◌∷◌,
  ◌++◌, arith, inl, inr, Bool-cases, Option-cases, if◌then◌else◌, ◌>>=◌, position, take, drop, set,
}
use log.Base.Position.{count_if, count_if-append, count_if-take-drop, count_none}
use log.Base.Int.{ℤ, eq_ℤ, eq_ℤ_iff}
use log.Contact.{Contact, contact_id}
use log.Scoring.Incremental.Removal.{is_id}
use log.LogCache.Cached.{merge_contact, merge_all}
use log.LogCache.Positions.{OnceEach, is_id-none, is_id-some}

-- One more contact, with an id that no contact of the list has.
pub New : Contact → List Contact → Type 0
New c cs = (id : ℤ) → is_id id c ≡ true → count_if (is_id id) cs ≡ 0

pub New-unknown :
    (c : Contact) (cs : List Contact) (k : ℤ)
    → contact_id c ≡ some k
    → position (is_id k) cs ≡ none
    → New c cs
unfolding New
New-unknown c cs k e q id b =
    let i : k ≡ id = (eq_ℤ_iff k id).0 (sym (is_id-some id k c e) ∙ b) in
    let z : count_if (is_id k) cs ≡ 0 = count_none (is_id k) cs q in rw i at z

pub New-no_id : (c : Contact) (cs : List Contact) → contact_id c ≡ none → New c cs
unfolding New
New-no_id c cs e id b = absurd (let k = sym (is_id-none id c e) ∙ b in ground arith)

one_more :
    (p : Contact → Bool) (c : Contact) (n : ℕ)
    → (p c ≡ true → n ≡ 0)
    → n ≤ 1
    → (if p c then suc n else n) ≤ 1
one_more p c n h l = elim (Bool-cases (p c)) [
  | inl b ↦ let z = h b in rw b (omega arith)
  | inr b ↦ rw b l
]

pub placed-OnceEach :
    (index : ℕ) (c : Contact) (cs : List Contact)
    → New c cs
    → OnceEach cs
    → OnceEach (take index cs ++ c ∷ drop index cs)
unfolding New
placed-OnceEach index c cs n h id =
    let front = count_if (is_id id) (take index cs) in
    let back = count_if (is_id id) (drop index cs) in
    let whole : front + back ≡ count_if (is_id id) cs = count_if-take-drop (is_id id) index cs in
    rw (count_if-append (is_id id) (take index cs) (c ∷ drop index cs))
      (elim (Bool-cases (is_id id c)) [
        | inl b ↦ let z = n id b in rw b (omega arith)
        | inr b ↦ let l = h id in rw b (omega arith)
      ])

pushed-OnceEach :
    (c : Contact) (cs : List Contact) → New c cs → OnceEach cs → OnceEach (cs ++ c ∷ [])
unfolding New
pushed-OnceEach c cs n h id =
    rw (count_if-append (is_id id) cs (c ∷ [])) (elim (Bool-cases (is_id id c)) [
      | inl b ↦ let z = n id b in rw b (omega arith)
      | inr b ↦ let l = h id in rw b (omega arith)
    ])

same_id :
    (k id : ℤ) (c d : Contact) → contact_id c ≡ some k → is_id k d ≡ true → is_id id c ≡ is_id id d
same_id k id c d e b = elim (Option-cases (contact_id d)) [
  | inl n ↦ absurd (let f = sym (is_id-none k d n) ∙ b in ground arith)
  | inr (j, g) ↦
      let i : j ≡ k = (eq_ℤ_iff j k).0 (sym (is_id-some k j d g) ∙ b) in
      is_id-some id k c e ∙ sym (is_id-some id j d g ∙ ap (λ x. eq_ℤ x id) i)
]

not_first : (o : Option ℕ) → (o >>= λ n. some (suc n)) ≡ some 0 → ⊥
not_first none h = ground arith
not_first (some n) h = ground arith

before : (o : Option ℕ) (index : ℕ) → (o >>= λ n. some (suc n)) ≡ some (suc index) → o ≡ some index
before none index h = ground arith
before (some n) index h = ground arith

-- Replacing the first contact that has an id by one with that id.
replaced_count :
    (k id : ℤ) (c : Contact) (index : ℕ) (cs : List Contact)
    → contact_id c ≡ some k
    → position (is_id k) cs ≡ some index
    → count_if (is_id id) (set cs index c) ≡ count_if (is_id id) cs
replaced_count k id c index [] e q = refl
replaced_count k id c zero (d ∷ cs) e q = elim (Bool-cases (is_id k d)) [
  | inl b ↦ rw (same_id k id c d e b) refl
  | inr b ↦ absurd (not_first (position (is_id k) cs) (rw b at q))
]
replaced_count k id c (suc index) (d ∷ cs) e q = elim (Bool-cases (is_id k d)) [
  | inl b ↦ absurd (let r : some 0 ≡ some (suc index) = rw b at q in ground arith)
  | inr b ↦
      rw (replaced_count k id c index cs e (before (position (is_id k) cs) index (rw b at q))) refl
]

pub merge_contact-OnceEach :
    (c : Contact) (cs : List Contact) → OnceEach cs → OnceEach (merge_contact cs c)
unfolding merge_contact
merge_contact-OnceEach c cs h = elim (Option-cases (contact_id c)) [
  | inl e ↦ rw (merge_contact, e) (pushed-OnceEach c cs (New-no_id c cs e) h)
  | inr (k, e) ↦ elim (Option-cases (position (is_id k) cs)) [
    | inl q ↦ rw (merge_contact, e, q) (pushed-OnceEach c cs (New-unknown c cs k e q) h)
    | inr (index, q) ↦
        rw (merge_contact, e, q) (λ id. rw (replaced_count k id c index cs e q) (h id))
  ]
]

pub merge_all-OnceEach :
    (cs committed : List Contact) → OnceEach cs → OnceEach (merge_all cs committed)
unfolding merge_all
merge_all-OnceEach cs [] h = h
merge_all-OnceEach cs (c ∷ committed) h =
    merge_all-OnceEach (merge_contact cs c) committed (merge_contact-OnceEach c cs h)
