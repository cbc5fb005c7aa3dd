-- ===== src/GridDistance.antt =====
-- backend/src/grid_distance.rs: Maidenhead locators and great-circle distances. `f64` and its
-- functions are a parameter.
use log.Base.{ℕ, ◌-◌, ◌&&◌, Option, none, some, ◌∷◌, leb, if◌then◌else◌, ◌>>=◌}
use log.Base.Int.{ℤ, pos, negsuc}
use log.Base.Text.{Text, trim, to_upper}

pub record Floats : Type 1 where
  pub F : Type 0
  -- The literal of the value n / d, and `as f64`.
  pub ratio : ℤ → ℕ → F
  pub of_ℤ : ℤ → F
  pub add : F → F → F
  pub sub : F → F → F
  pub mul : F → F → F
  pub div : F → F → F
  pub powi : F → ℕ → F
  pub clamp : F → F → F → F
  pub to_radians : F → F
  pub sin : F → F
  pub cos : F → F
  pub sqrt : F → F
  pub asin : F → F
  -- `.ceil() as i64`
  pub ceil_i64 : F → ℤ

unfoldable pub letter_index : ℕ → Option ℕ
letter_index c = if leb b'A' c && leb c b'R' then some (c - b'A') else none

unfoldable pub digit_index : ℕ → Option ℕ
digit_index c = if leb b'0' c && leb c b'9' then some (c - b'0') else none

module _ (fl : Floats) where
  open fl use {F, ratio, of_ℤ, add, sub, mul, div, powi, clamp, to_radians, sin, cos, sqrt, asin}

  pub record GridCenter : Type 0 where
    pub latitude_degrees : F
    pub longitude_degrees : F

  abbrev grid_center : ℕ → ℕ → ℕ → ℕ → GridCenter
  grid_center field_longitude field_latitude square_longitude square_latitude = record {
    longitude_degrees =
        add
          (add (add (of_ℤ (negsuc 179)) (mul (of_ℤ (pos field_longitude)) (of_ℤ (pos 20))))
            (mul (of_ℤ (pos square_longitude)) (of_ℤ (pos 2))))
          (of_ℤ (pos 1));
    latitude_degrees =
        add
          (add (add (of_ℤ (negsuc 89)) (mul (of_ℤ (pos field_latitude)) (of_ℤ (pos 10))))
            (of_ℤ (pos square_latitude)))
          (ratio (pos 1) 2);
  }

  unfoldable pub center_of : Text → Option GridCenter
  center_of (a ∷ b ∷ c ∷ d ∷ rest) = do
    field_longitude ← letter_index a
    field_latitude ← letter_index b
    square_longitude ← digit_index c
    square_latitude ← digit_index d
    some (grid_center field_longitude field_latitude square_longitude square_latitude)
  center_of _ = none

  -- Longer locators count by their first four characters.
  unfoldable pub four_character_grid_center : Text → Option GridCenter
  unfolding center_of
  four_character_grid_center locator = center_of (to_upper (trim locator))

  unfoldable pub distance_kilometers : GridCenter → GridCenter → F
  distance_kilometers first second =
      let latitude_delta = to_radians (sub second.latitude_degrees first.latitude_degrees) in
      let longitude_delta = to_radians (sub second.longitude_degrees first.longitude_degrees) in
      let first_latitude = to_radians first.latitude_degrees in
      let second_latitude = to_radians second.latitude_degrees in
      let haversine = add (powi (sin (div latitude_delta (of_ℤ (pos 2)))) 2) (
        mul (mul (cos first_latitude) (cos second_latitude))
          (powi (sin (div longitude_delta (of_ℤ (pos 2)))) 2)) in
      mul (mul (of_ℤ (pos 2)) (ratio (pos 63710088) 10000))
        (asin (sqrt (clamp haversine (of_ℤ (pos 0)) (of_ℤ (pos 1)))))

  unfoldable pub grid_distance_kilometers : Text → Text → Option F
  unfolding four_character_grid_center distance_kilometers
  grid_distance_kilometers station_locator contact_locator = do
    station ← four_character_grid_center station_locator
    other ← four_character_grid_center contact_locator
    some (distance_kilometers station other)
