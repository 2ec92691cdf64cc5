-- ===== src/Profile.antt =====
-- src/core/profile_record.h.
use remmina_krunner.Base.{Text, List}

pub record ProfileRecord : Type 0 where
  pub opaque_id : Text
  pub source_path : Text
  pub launch_path : Text
  pub name : Text
  pub server : Text
  pub labels : List Text
  pub labels_display : Text
  pub protocol : Text
