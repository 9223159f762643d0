-- ===== src/Uapi.antt =====
-- src/uapi.h: a boot entry of the UAPI group's specification.
use pcr_oracle.Common.{Bool, Option}
use pcr_oracle.Common.Bytes.{CString}

-- `none` is NULL.
pub record UapiBootEntry : Type 0 where
  pub title : Option CString
  pub efi : Bool
  pub sort_key : Option CString
  pub version : Option CString
  pub machine_id : Option CString
  pub architecture : Option CString
  pub image_path : Option CString
  pub initrd_path : Option CString
  pub options : Option CString
