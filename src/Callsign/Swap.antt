-- ===== src/Callsign/Swap.antt =====
-- Which way round a portable callsign is written (`resolve_pair` of backend/src/callsign.rs).
use log.Base.{◌≡◌, ◌↔◌, refl, Bool, true, false, arith, length}
use log.Base.Text.{Text}
use log.Callsign.{resolve_pair, resolve_by, is_callsign_like}

-- Both parts look like callsigns and have the same length.
abbrev pub IsTie : Text → Text → Type 0
IsTie left right =
    (is_callsign_like left ≡ true) × (is_callsign_like right ≡ true) × (length left ≡ length right)

swap_tie :
    (a b : Bool) (l r : Text)
    → (resolve_by a b l r).0 ≡ (resolve_by b a r l).0
    → a ≡ true
    → b ≡ true
    → length l ≡ length r
    → l ≡ r
unfolding resolve_by
swap_tie false b l r e p q h = cc
swap_tie true false l r e p q h = cc
swap_tie true true l r e p q h = ground arith

swap_same :
    (a b : Bool) (l r : Text)
    → ((a ≡ true) × (b ≡ true) × (length l ≡ length r) → l ≡ r)
    → (resolve_by a b l r).0 ≡ (resolve_by b a r l).0
unfolding resolve_by
swap_same false false l r h = refl
swap_same false true l r h = refl
swap_same true false l r h = refl
swap_same true true l r h = ground arith

-- Swapping the two parts of a portable callsign leaves the base as it is, exactly if the parts
-- are equal or are not both callsign-like and of one length.
pub resolve_pair-swap :
    (l r : Text) → ((resolve_pair l r).0 ≡ (resolve_pair r l).0) ↔ (IsTie l r → l ≡ r)
unfolding resolve_pair
resolve_pair-swap l r = (
  λ e t. swap_tie (is_callsign_like l) (is_callsign_like r) l r e t.0 t.1 t.2,
  swap_same (is_callsign_like l) (is_callsign_like r) l r,
)
