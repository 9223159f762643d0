-- ===== src/EventLog/Shim.antt =====
-- src/shim.c: the variables of the shim loader and their copies at run time.
use pcr_oracle.Common.{
  Bool, true, false, Option, none, some, List, [], ◌∷◌, ◌++◌, if◌then◌else◌, take,
}
use pcr_oracle.Common.Bytes.{CString, codes, octets_eq}

-- `shim_variables`: `name` and `rtname`.
abbrev pub shim_variables : List (CString × CString)
shim_variables =
    (codes "MokList", codes "MokListRT")
    ∷ (codes "MokListX", codes "MokListXRT")
    ∷ (codes "MokSBState", codes "MokSBStateRT")
    ∷ (codes "MokDBState", codes "MokIgnoreDB")
    ∷ (codes "MokListTrusted", codes "MokListTrustedRT")
    ∷ (codes "MokPolicy", codes "MokPolicyRT")
    ∷ (codes "SbatLevel", codes "SbatLevelRT")
    ∷ []

-- SHIM_EFIVAR_GUUID
abbrev shim_efivar_guuid : CString
shim_efivar_guuid = codes "605dab50-e046-4300-abb6-3dd810dd8b23"

-- The loop over the table.
unfoldable pub find_rtname : List (CString × CString) → CString → Option CString
find_rtname [] name = none
find_rtname ((var, rtname) ∷ vars) name =
    if octets_eq var name then some rtname else find_rtname vars name

unfoldable pub shim_variable_get_rtname : CString → Option CString
unfolding find_rtname
shim_variable_get_rtname name = find_rtname shim_variables name

unfoldable pub shim_variable_name_valid : CString → Bool
unfolding find_rtname
shim_variable_name_valid name = elim (find_rtname shim_variables name) [
  | none ↦ false
  | some rtname ↦ true
]

-- snprintf() into `namebuf[128]`.
unfoldable pub shim_variable_get_full_rtname : CString → Option CString
unfolding find_rtname
shim_variable_get_full_rtname name = elim (find_rtname shim_variables name) [
  | none ↦ none
  | some rtname ↦ some (take 127 (rtname ++ (b'-' ∷ shim_efivar_guuid)))
]
