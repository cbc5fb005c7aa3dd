-- ===== src/Dxcc/Lookup/Longest.antt =====
-- Which rule decides: the longest prefix, or an exact rule of the WAEDC list.
use log.Base.{
  ℕ, ◌≤◌, ◌≡◌, ◌∙◌, Bool, true, not, ◌&&◌, none, some, List, [], ◌∷◌, select, arith, leb,
  if◌then◌else◌, ◌⊎◌, inl, inr, Bool-cases,
}
use log.Base.Text.{Text, byte_len, text_eq, text_eq_iff}
use log.Dxcc.Rules.{DxccEntity, DxccRule}
use log.Dxcc.Lookup.{longest, best_prefix, prefix_matches, best_exact, better_exact, is_waedc}

module _ {F : Type 0} where
  abbrev pub size : DxccRule F → ℕ
  size rule = byte_len rule.pattern_text

  -- `r` is a rule of the list that fits, and no rule of the list that fits is longer.
  abbrev pub NoneLonger : Text → DxccRule F → List (DxccRule F) → Type 0
  NoneLonger callsign r [] = Unit {0}
  NoneLonger callsign r (x ∷ rules) =
      (prefix_matches callsign x ≡ true → size x ≤ size r) × NoneLonger callsign r rules

  abbrev pub Fits : Text → DxccRule F → List (DxccRule F) → Type 0
  Fits callsign r [] = ⊥
  Fits callsign r (x ∷ rules) =
      ((r ≡ x) × (prefix_matches callsign x ≡ true)) ⊎ Fits callsign r rules

  abbrev longer : DxccRule F → DxccRule F → DxccRule F
  longer b x = if leb (size b) (size x) then x else b

  longer_le :
      (b x r : DxccRule F) → size (longer b x) ≤ size r → (size b ≤ size r) × (size x ≤ size r)
  longer_le b x r h = elim (Bool-cases (leb (size b) (size x))) [
    | inl e ↦ let k : size x ≤ size r = rw e at h in ground arith
    | inr e ↦ let k : size b ≤ size r = rw e at h in ground arith
  ]

  longer_is : (b x : DxccRule F) → (longer b x ≡ b) ⊎ (longer b x ≡ x)
  longer_is b x = elim (Bool-cases (leb (size b) (size x))) [
    | inl e ↦ inr (rw e)
    | inr e ↦ inl (rw e)
  ]

  longest-bounds :
      (callsign : Text) (b r : DxccRule F) (rules : List (DxccRule F))
      → longest (some b) (select (prefix_matches callsign) rules) ≡ some r
      → (size b ≤ size r) × NoneLonger callsign r rules
  unfolding longest
  longest-bounds callsign b r [] h = ground arith
  longest-bounds callsign b r (x ∷ rules) h = elim (Bool-cases (prefix_matches callsign x)) [
    | inl p ↦
        let ih = longest-bounds callsign (longer b x) r rules (rw p at h) in
        let both = longer_le b x r ih.0 in (both.0, ((λ _. both.1), ih.1))
    | inr p ↦ let ih = longest-bounds callsign b r rules (rw p at h) in (ih.0, ((λ q. cc), ih.1))
  ]

  longest-Fits :
      (callsign : Text) (b r : DxccRule F) (rules : List (DxccRule F))
      → longest (some b) (select (prefix_matches callsign) rules) ≡ some r
      → (r ≡ b) ⊎ Fits callsign r rules
  unfolding longest
  longest-Fits callsign b r [] h = inl (cc)
  longest-Fits callsign b r (x ∷ rules) h = elim (Bool-cases (prefix_matches callsign x)) [
    | inl p ↦ elim (longest-Fits callsign (longer b x) r rules (rw p at h)) [
      | inl e ↦ elim (longer_is b x) [ inl f ↦ inl (e ∙ f) | inr f ↦ inr (inl (e ∙ f, p)) ]
      | inr m ↦ inr (inr m)
    ]
    | inr p ↦ elim (longest-Fits callsign b r rules (rw p at h)) [
      | inl e ↦ inl e
      | inr m ↦ inr (inr m)
    ]
  ]

  -- A prefix lookup uses a rule of the file that fits the callsign, and no rule that fits has a
  -- longer pattern.
  pub best_prefix_lem :
      (callsign : Text) (r : DxccRule F) (rules : List (DxccRule F))
      → best_prefix rules callsign ≡ some r
      → Fits callsign r rules × NoneLonger callsign r rules
  unfolding best_prefix longest
  best_prefix_lem callsign r [] h = cc
  best_prefix_lem callsign r (x ∷ rules) h = elim (Bool-cases (prefix_matches callsign x)) [
    | inl p ↦
        let q : longest (some x) (select (prefix_matches callsign) rules) ≡ some r = rw p at h in
        let b = longest-bounds callsign x r rules q in
        (first_or p (longest-Fits callsign x r rules q), ((λ _. b.0), b.1))
    | inr p ↦
        let q : best_prefix rules callsign ≡ some r = rw p at h in
        let ih = best_prefix_lem callsign r rules q in (inr ih.0, ((λ t. cc), ih.1))
  ]
    where
      first_or :
          prefix_matches callsign x ≡ true
          → (r ≡ x) ⊎ Fits callsign r rules
          → Fits callsign r (x ∷ rules)
      first_or p (inl e) = inl (e, p)
      first_or p (inr m) = inr m

  -- A rule of the file that decides an exact lookup: it is exact and its pattern is the callsign.
  abbrev pub Decides : Text → DxccRule F → Type 0
  Decides callsign r = (r.exact ≡ true) × (r.pattern_text ≡ callsign)

  abbrev pub AllDecided : List (DxccEntity F) → Text → DxccRule F → List (DxccRule F) → Type 0
  AllDecided entities callsign r [] = Unit {0}
  AllDecided entities callsign r (x ∷ rules) =
      (Decides callsign x → is_waedc entities x ≡ true → is_waedc entities r ≡ true)
      × AllDecided entities callsign r rules

  abbrev wins : List (DxccEntity F) → Text → DxccRule F → DxccRule F → Bool
  wins entities callsign b x =
      (x.exact && text_eq x.pattern_text callsign)
      && (is_waedc entities x && not (is_waedc entities b))

  abbrev winner : List (DxccEntity F) → Text → DxccRule F → DxccRule F → DxccRule F
  winner entities callsign b x = if wins entities callsign b x then x else b

  better_exact-winner :
      (entities : List (DxccEntity F)) (callsign : Text) (b x : DxccRule F)
      → better_exact entities callsign (some b) x ≡ some (winner entities callsign b x)
  unfolding better_exact
  better_exact-winner entities callsign b x = ground (arith, text_eq_iff x.pattern_text callsign)

  abbrev Keeps : List (DxccEntity F) → Text → DxccRule F → DxccRule F → Type 0
  Keeps entities callsign b c =
      (Decides callsign b → Decides callsign c)
      × (is_waedc entities b ≡ true → is_waedc entities c ≡ true)

  winner-Keeps :
      (entities : List (DxccEntity F)) (callsign : Text) (b x : DxccRule F)
      → Keeps entities callsign b (winner entities callsign b x)
        × (Decides callsign x
            → is_waedc entities x ≡ true
            → is_waedc entities (winner entities callsign b x) ≡ true)
  winner-Keeps entities callsign b x = elim (Bool-cases (wins entities callsign b x)) [
    | inl w ↦ rw w (
      ((λ d. ground (arith, text_eq_iff x.pattern_text callsign)), (λ e. ground arith)),
      (λ d e. e),
    )
    | inr w ↦
        rw w (((λ d. d), (λ e. e)), (λ d e. ground (arith, text_eq_iff x.pattern_text callsign)))
  ]

  best_exact-Keeps :
      (entities : List (DxccEntity F)) (callsign : Text) (b r : DxccRule F)
      (rules : List (DxccRule F))
      → best_exact entities callsign (some b) rules ≡ some r
      → Keeps entities callsign b r × AllDecided entities callsign r rules
  unfolding best_exact
  best_exact-Keeps entities callsign b r [] h =
      let e : b ≡ r = ground arith in rw e (((λ d. d), (λ d. d)), tt)
  best_exact-Keeps entities callsign b r (x ∷ rules) h =
      let c = winner entities callsign b x in
      let ih =
        best_exact-Keeps entities callsign c r rules
          (rw (better_exact-winner entities callsign b x) at h) in
      let w = winner-Keeps entities callsign b x in
      (((λ d. ih.0.0 (w.0.0 d)), (λ e. ih.0.1 (w.0.1 e))), ((λ d e. ih.0.1 (w.1 d e)), ih.1))

  -- The rule of an exact lookup is exact and has the callsign as its pattern, and it belongs to
  -- the WAEDC list if any rule of the file with these two properties does.
  pub best_exact_lem :
      (entities : List (DxccEntity F)) (callsign : Text) (r : DxccRule F)
      (rules : List (DxccRule F))
      → best_exact entities callsign none rules ≡ some r
      → Decides callsign r × AllDecided entities callsign r rules
  unfolding best_exact better_exact
  best_exact_lem entities callsign r [] h = cc
  best_exact_lem entities callsign r (x ∷ rules) h =
      elim (Bool-cases (x.exact && text_eq x.pattern_text callsign)) [
        | inl d ↦
            let q : best_exact entities callsign (some x) rules ≡ some r = ground arith in
            let k = best_exact-Keeps entities callsign x r rules q in
            (k.0.0 (ground (arith, text_eq_iff x.pattern_text callsign)), ((λ _. k.0.1), k.1))
        | inr n ↦
            let q : best_exact entities callsign none rules ≡ some r = ground arith in
            let ih = best_exact_lem entities callsign r rules q in
            (ih.0, ((λ d e. ground (arith, text_eq_iff x.pattern_text callsign)), ih.1))
      ]
