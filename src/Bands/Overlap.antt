-- ===== src/Bands/Overlap.antt =====
-- The overlap check of a band catalogue and the band of a frequency (backend/src/bands.rs).
use log.Base.{
  ℕ, ◌+◌, ◌≤◌, ◌≡◌, ◌∙◌, sym, refl, true, false, some, List, [], ◌∷◌, arith, leb, ◌⊎◌, inl, inr,
  Bool-cases, if◌then◌else◌, find_first,
}
use log.Bands.{
  Band, BandCsvRow, Result, ok, err, BandError, catalog_empty, overlap, insert_by_lower,
  sort_by_lower, windows_apart, validate_non_overlapping, covers, band_for_frequency, load_bands,
  load_rows, is_empty_catalog, max_i64,
}

abbrev pub InBands : Band → List Band → Type 0
InBands b [] = ⊥
InBands b (c ∷ cs) = (b ≡ c) ⊎ InBands b cs

-- Every band of the list begins at the given frequency or above.
abbrev From : ℕ → List Band → Type 0
From n [] = Unit {0}
From n (b ∷ bs) = (n ≤ b.lower_hz) × From n bs

abbrev Sorted : List Band → Type 0
Sorted [] = Unit {0}
Sorted (b ∷ bs) = From b.lower_hz bs × Sorted bs

From-le : (m n : ℕ) (bs : List Band) → m ≤ n → From n bs → From m bs
From-le m n [] h t = tt
From-le m n (b ∷ bs) h t = ((let k = t.0 in ground arith), From-le m n bs h t.1)

insert-From :
    (n : ℕ) (b : Band) (bs : List Band) → n ≤ b.lower_hz → From n bs → From n (insert_by_lower b bs)
unfolding insert_by_lower
insert-From n b [] h t = (h, tt)
insert-From n b (c ∷ cs) h t = elim (Bool-cases (leb b.lower_hz c.lower_hz)) [
  | inl e ↦ rw e (h, t)
  | inr e ↦ rw e (t.0, insert-From n b cs h t.1)
]

insert-Sorted : (b : Band) (bs : List Band) → Sorted bs → Sorted (insert_by_lower b bs)
unfolding insert_by_lower
insert-Sorted b [] t = (tt, tt)
insert-Sorted b (c ∷ cs) t = elim (Bool-cases (leb b.lower_hz c.lower_hz)) [
  | inl e ↦
      let k : b.lower_hz ≤ c.lower_hz = ground arith in
      rw e ((k, From-le b.lower_hz c.lower_hz cs k t.0), t)
  | inr e ↦
      let k : c.lower_hz ≤ b.lower_hz = ground arith in
      rw e (insert-From c.lower_hz b cs k t.0, insert-Sorted b cs t.1)
]

sort-Sorted : (bs : List Band) → Sorted (sort_by_lower bs)
unfolding sort_by_lower
sort-Sorted [] = tt
sort-Sorted (b ∷ bs) = insert-Sorted b (sort_by_lower bs) (sort-Sorted bs)

insert-InBands :
    (a b : Band) (bs : List Band) → (a ≡ b) ⊎ InBands a bs → InBands a (insert_by_lower b bs)
unfolding insert_by_lower
insert-InBands a b [] m = m
insert-InBands a b (c ∷ cs) m = elim (Bool-cases (leb b.lower_hz c.lower_hz)) [
  | inl e ↦ rw e m
  | inr e ↦ rw e (elim m [
    | inl g ↦ inr (insert-InBands a b cs (inl g))
    | inr (inl g) ↦ inl g
    | inr (inr g) ↦ inr (insert-InBands a b cs (inr g))
  ])
]

sort-InBands : (a : Band) (bs : List Band) → InBands a bs → InBands a (sort_by_lower bs)
unfolding sort_by_lower
sort-InBands a [] m = elim m [ ]
sort-InBands a (b ∷ bs) (inl e) = insert-InBands a b (sort_by_lower bs) (inl e)
sort-InBands a (b ∷ bs) (inr m) = insert-InBands a b (sort_by_lower bs) (inr (sort-InBands a bs m))

From-lower : (n : ℕ) (b : Band) (bs : List Band) → From n bs → InBands b bs → n ≤ b.lower_hz
From-lower n b [] t m = elim m [ ]
From-lower n b (c ∷ cs) t (inl e) = rw e t.0
From-lower n b (c ∷ cs) t (inr m) = From-lower n b cs t.1 m

-- What follows a band of a sorted list without overlaps begins above its end.
apart-From :
    (b : Band) (bs : List Band)
    → Sorted bs
    → windows_apart (b ∷ bs) ≡ true
    → From (b.upper_hz + 1) bs
unfolding windows_apart
apart-From b [] s h = tt
apart-From b (c ∷ cs) s h =
    let k : b.upper_hz + 1 ≤ c.lower_hz = ground arith in
    (k, From-le (b.upper_hz + 1) c.lower_hz cs k s.0)

apart-rest : (b : Band) (bs : List Band) → windows_apart (b ∷ bs) ≡ true → windows_apart bs ≡ true
unfolding windows_apart
apart-rest b [] h = refl
apart-rest b (c ∷ cs) h = ground arith

covers-below :
    (f : ℕ) (b c : Band) → covers f b ≡ true → covers f c ≡ true → b.upper_hz + 1 ≤ c.lower_hz → ⊥
covers-below f b c h k l = ground arith

one_band :
    (f : ℕ) (b c : Band) (bs : List Band)
    → Sorted bs
    → windows_apart bs ≡ true
    → covers f b ≡ true
    → covers f c ≡ true
    → InBands b bs
    → InBands c bs
    → b ≡ c
one_band f b c [] s w h k m n = elim m [ ]
one_band f b c (d ∷ ds) s w h k (inl e) (inl g) = e ∙ sym g
one_band f b c (d ∷ ds) s w h k (inl e) (inr n) =
    let l = From-lower (d.upper_hz + 1) c ds (apart-From d ds s.1 w) n in
    absurd (covers-below f b c h k (rw e l))
one_band f b c (d ∷ ds) s w h k (inr m) (inl g) =
    let l = From-lower (d.upper_hz + 1) b ds (apart-From d ds s.1 w) m in
    absurd (covers-below f c b k h (rw g l))
one_band f b c (d ∷ ds) s w h k (inr m) (inr n) = one_band f b c ds s.1 (apart-rest d ds w) h k m n

abbrev Found : ℕ → List Band → Type 0
Found f bs = (c : Band) × (find_first (covers f) bs ≡ some c) × InBands c bs × (covers f c ≡ true)

find_first-Found :
    (f : ℕ) (b : Band) (bs : List Band) → InBands b bs → covers f b ≡ true → Found f bs
find_first-Found f b [] m h = elim m [ ]
find_first-Found f b (c ∷ cs) m h = elim (Bool-cases (covers f c)) [
  | inl e ↦ (c, rw e refl, inl refl, e)
  | inr e ↦ elim m [
    | inl g ↦ absurd (no_cover (rw g at h) e)
    | inr n ↦ let r = find_first-Found f b cs n h in (r.0, rw e r.1, inr r.2, r.3)
  ]
]
  where
    no_cover : covers f c ≡ true → covers f c ≡ false → ⊥
    no_cover x y = ground arith

Result-cases :
    (r : Result (List Band)) → ((e : BandError) × (r ≡ err e)) ⊎ ((bs : List Band) × (r ≡ ok bs))
Result-cases (ok bs) = inr (bs, refl)
Result-cases (err e) = inl (e, refl)

ok_if_apart :
    (loaded bands : List Band)
    → (if is_empty_catalog loaded
        then err catalog_empty
        else if validate_non_overlapping loaded
        then ok loaded
        else err overlap)
      ≡ ok bands
    → validate_non_overlapping bands ≡ true
ok_if_apart loaded bands h = ground arith

load_bands-apart :
    (iaru_region : ℕ) (rows : List BandCsvRow) (bands : List Band)
    → load_bands iaru_region rows ≡ ok bands
    → validate_non_overlapping bands ≡ true
unfolding load_bands
load_bands-apart iaru_region rows bands h = elim (Result-cases (load_rows iaru_region [] 0 rows)) [
  | inl (e, q) ↦ let k : err e ≡ ok bands = rw q at h in ground arith
  | inr (loaded, q) ↦ ok_if_apart loaded bands (rw q at h)
]

-- In a loaded catalogue, a frequency that a band of it covers and that fits `i64` is found to be
-- on that band, in whatever order the file lists the bands.
pub band_for_frequency-load_bands :
    (iaru_region : ℕ) (rows : List BandCsvRow) (bands : List Band) (b : Band) (frequency_hz : ℕ)
    → load_bands iaru_region rows ≡ ok bands
    → InBands b bands
    → covers frequency_hz b ≡ true
    → frequency_hz ≤ max_i64
    → band_for_frequency bands frequency_hz ≡ some b
unfolding band_for_frequency validate_non_overlapping
band_for_frequency-load_bands iaru_region rows bands b f h m k l =
    let r = find_first-Found f b bands m k in
    let w = load_bands-apart iaru_region rows bands h in
    let e : r.0 ≡ b =
      one_band f r.0 b (sort_by_lower bands) (sort-Sorted bands) w r.3 k
        (sort-InBands r.0 bands r.2) (sort-InBands b bands m) in
    let q : leb f max_i64 ≡ true = ground arith in rw (q, r.1, e) refl
