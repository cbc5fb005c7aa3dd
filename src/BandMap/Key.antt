-- ===== src/BandMap/Key.antt =====
-- Equality of the keys that identify a spot (`BandMapDedupeKey` of backend/src/bandmap.rs).
use log.Base.{◌≡◌, ◌↔◌, Bool, true, false, ◌&&◌, arith, ◌==◌, ==_iff}
use log.Base.Int.{eq_ℤ, eq_ℤ_iff}
use log.Base.Text.{text_eq, text_eq_iff}
use log.Base.Table.{Eq, same, same_iff, int_eq, option_eq}
use log.BandMap.Types.{
  BandMapDedupeKey, cluster_key, local_key, local_unknown_band_key, in_use_key, cq_key,
}

abbrev pub key_beq : BandMapDedupeKey → BandMapDedupeKey → Bool
key_beq (cluster_key s) (cluster_key s2) = (s == s2)
key_beq (local_key l b d) (local_key l2 b2 d2) = same l l2 && text_eq b b2 && text_eq d d2
key_beq (local_unknown_band_key l f d) (local_unknown_band_key l2 f2 d2) =
    same l l2 && (f == f2) && text_eq d d2
key_beq (in_use_key f) (in_use_key f2) = (f == f2)
key_beq (cq_key r b) (cq_key r2 b2) = eq_ℤ r r2 && text_eq b b2
key_beq _ _ = false

pub key_beq_iff : (a b : BandMapDedupeKey) → (key_beq a b ≡ true) ↔ (a ≡ b)
key_beq_iff (cluster_key s) (cluster_key s2) = ground (arith, ==_iff s s2)
key_beq_iff (cluster_key s) (local_key l2 b2 d2) = ground arith
key_beq_iff (cluster_key s) (local_unknown_band_key l2 f2 d2) = ground arith
key_beq_iff (cluster_key s) (in_use_key f2) = ground arith
key_beq_iff (cluster_key s) (cq_key r2 b2) = ground arith
key_beq_iff (local_key l b d) (cluster_key s2) = ground arith
key_beq_iff (local_key l b d) (local_key l2 b2 d2) =
    ground (arith, same_iff l l2, text_eq_iff b b2, text_eq_iff d d2)
key_beq_iff (local_key l b d) (local_unknown_band_key l2 f2 d2) = ground arith
key_beq_iff (local_key l b d) (in_use_key f2) = ground arith
key_beq_iff (local_key l b d) (cq_key r2 b2) = ground arith
key_beq_iff (local_unknown_band_key l f d) (cluster_key s2) = ground arith
key_beq_iff (local_unknown_band_key l f d) (local_key l2 b2 d2) = ground arith
key_beq_iff (local_unknown_band_key l f d) (local_unknown_band_key l2 f2 d2) =
    ground (arith, same_iff l l2, ==_iff f f2, text_eq_iff d d2)
key_beq_iff (local_unknown_band_key l f d) (in_use_key f2) = ground arith
key_beq_iff (local_unknown_band_key l f d) (cq_key r2 b2) = ground arith
key_beq_iff (in_use_key f) (cluster_key s2) = ground arith
key_beq_iff (in_use_key f) (local_key l2 b2 d2) = ground arith
key_beq_iff (in_use_key f) (local_unknown_band_key l2 f2 d2) = ground arith
key_beq_iff (in_use_key f) (in_use_key f2) = ground (arith, ==_iff f f2)
key_beq_iff (in_use_key f) (cq_key r2 b2) = ground arith
key_beq_iff (cq_key r b) (cluster_key s2) = ground arith
key_beq_iff (cq_key r b) (local_key l2 b2 d2) = ground arith
key_beq_iff (cq_key r b) (local_unknown_band_key l2 f2 d2) = ground arith
key_beq_iff (cq_key r b) (in_use_key f2) = ground arith
key_beq_iff (cq_key r b) (cq_key r2 b2) = ground (arith, eq_ℤ_iff r r2, text_eq_iff b b2)

instance abbrev pub key_eq : Eq BandMapDedupeKey
key_eq = record { beq = key_beq; beq_iff = key_beq_iff }
