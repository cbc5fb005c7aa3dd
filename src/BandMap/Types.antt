-- ===== src/BandMap/Types.antt =====
-- The spots of the band map and what identifies them (backend/src/bandmap.rs, and the spots that
-- backend/src/dxcluster.rs hands over).
use log.Base.{ℕ, Option}
use log.Base.Int.{ℤ}
use log.Base.Text.{Text}
use log.Contact.{Fields}

pub data BandMapSpotType : Type 0 where
  dx rbn local in_use cq : BandMapSpotType

pub record DxClusterRbnSpot : Type 0 where
  pub mode : Text
  pub db : ℤ
  pub speed : Option ℕ
  pub speed_unit : Option Text
  pub info : Text
  pub loc : Option Text

pub record DxClusterSpot : Type 0 where
  pub id : ℕ
  pub received_at : ℕ
  pub source : Text
  pub call_de : Text
  pub call_dx : Text
  pub frequency_hz : ℕ
  pub utc : ℕ
  pub loc : Option Text
  pub comment : Option Text
  pub rbn_spot : Option DxClusterRbnSpot

pub record BandMapSpot : Type 0 where
  pub id : ℕ
  pub received_at : ℕ
  pub spot_type : BandMapSpotType
  pub source : Text
  pub call_de : Text
  pub call_dx : Text
  pub frequency_hz : ℕ
  pub utc : ℕ
  pub loc : Option Text
  pub comment : Option Text
  pub rbn_spot : Option DxClusterRbnSpot
  pub band_name : Option Text
  pub radio_id : Option ℤ
  pub radio_name : Option Text
  pub log_id : Option ℤ
  pub exchange_fields : Option Fields

pub record BandMapSpotCandidate : Type 0 where
  pub received_at : ℕ
  pub spot_type : BandMapSpotType
  pub source : Text
  pub call_de : Text
  pub call_dx : Text
  pub frequency_hz : ℕ
  pub utc : ℕ
  pub loc : Option Text
  pub comment : Option Text
  pub rbn_spot : Option DxClusterRbnSpot
  pub band_name : Option Text
  pub radio_id : Option ℤ
  pub radio_name : Option Text
  pub log_id : Option ℤ
  pub exchange_fields : Option Fields

pub record LocalSpotInput : Type 0 where
  pub frequency_hz : ℕ
  pub call_dx : Text
  pub comment : Option Text
  pub radio_id : Option ℤ
  pub radio_name : Option Text
  pub log_id : Option ℤ
  pub exchange_fields : Option Fields
  pub received_at : Option ℕ

pub record CqSpotInput : Type 0 where
  pub frequency_hz : ℕ
  pub radio_id : ℤ
  pub radio_name : Text

-- A band map event: the spot that was stored, or the id of one that was removed.
pub data BandMapEvent : Type 0 where
  spot_upserted : ℕ → BandMapSpot → BandMapEvent
  spot_deleted : ℕ → ℕ → BandMapEvent

pub data BandMapDedupeKey : Type 0 where
  cluster_key : ℕ → BandMapDedupeKey
  local_key : Option ℤ → Text → Text → BandMapDedupeKey
  local_unknown_band_key : Option ℤ → ℕ → Text → BandMapDedupeKey
  in_use_key : ℕ → BandMapDedupeKey
  cq_key : ℤ → Text → BandMapDedupeKey

pub data UpsertOutcome : Type 0 where
  inserted updated refreshed : BandMapSpot → UpsertOutcome
