-- ===== src/Defs/Errors.antt =====
-- src/defs/errors.ts: the command_status codes by name, and the names by code.
pub mod Unique
use smpp_js.Prelude.{
  ℕ, Bool, true, false, Option, none, some, List, [], ◌∷◌, String, string_eq, nat_eq, find, put,
  if◌then◌else◌,
}

unfoldable pub errors : List (String × ℕ)
errors =
    ("ESME_ROK", 0x0000)
    ∷ ("ESME_RINVMSGLEN", 0x0001)
    ∷ ("ESME_RINVCMDLEN", 0x0002)
    ∷ ("ESME_RINVCMDID", 0x0003)
    ∷ ("ESME_RINVBNDSTS", 0x0004)
    ∷ ("ESME_RALYBND", 0x0005)
    ∷ ("ESME_RINVPRTFLG", 0x0006)
    ∷ ("ESME_RINVREGDLVFLG", 0x0007)
    ∷ ("ESME_RSYSERR", 0x0008)
    ∷ ("ESME_RINVSRCADR", 0x000A)
    ∷ ("ESME_RINVDSTADR", 0x000B)
    ∷ ("ESME_RINVMSGID", 0x000C)
    ∷ ("ESME_RBINDFAIL", 0x000D)
    ∷ ("ESME_RINVPASWD", 0x000E)
    ∷ ("ESME_RINVSYSID", 0x000F)
    ∷ ("ESME_RCANCELFAIL", 0x0011)
    ∷ ("ESME_RREPLACEFAIL", 0x0013)
    ∷ ("ESME_RMSGQFUL", 0x0014)
    ∷ ("ESME_RINVSERTYP", 0x0015)
    ∷ ("ESME_RINVNUMDESTS", 0x0033)
    ∷ ("ESME_RINVDLNAME", 0x0034)
    ∷ ("ESME_RINVDESTFLAG", 0x0040)
    ∷ ("ESME_RINVSUBREP", 0x0042)
    ∷ ("ESME_RINVESMCLASS", 0x0043)
    ∷ ("ESME_RCNTSUBDL", 0x0044)
    ∷ ("ESME_RSUBMITFAIL", 0x0045)
    ∷ ("ESME_RINVSRCTON", 0x0048)
    ∷ ("ESME_RINVSRCNPI", 0x0049)
    ∷ ("ESME_RINVDSTTON", 0x0050)
    ∷ ("ESME_RINVDSTNPI", 0x0051)
    ∷ ("ESME_RINVSYSTYP", 0x0053)
    ∷ ("ESME_RINVREPFLAG", 0x0054)
    ∷ ("ESME_RINVNUMMSGS", 0x0055)
    ∷ ("ESME_RTHROTTLED", 0x0058)
    ∷ ("ESME_RINVSCHED", 0x0061)
    ∷ ("ESME_RINVEXPIRY", 0x0062)
    ∷ ("ESME_RINVDFTMSGID", 0x0063)
    ∷ ("ESME_RX_T_APPN", 0x0064)
    ∷ ("ESME_RX_P_APPN", 0x0065)
    ∷ ("ESME_RX_R_APPN", 0x0066)
    ∷ ("ESME_RQUERYFAIL", 0x0067)
    ∷ ("ESME_RINVTLVSTREAM", 0x00C0)
    ∷ ("ESME_RTLVNOTALLWD", 0x00C1)
    ∷ ("ESME_RINVTLVLEN", 0x00C2)
    ∷ ("ESME_RMISSINGTLV", 0x00C3)
    ∷ ("ESME_RINVTLVVAL", 0x00C4)
    ∷ ("ESME_RDELIVERYFAILURE", 0x00FE)
    ∷ ("ESME_RUNKNOWNERR", 0x00FF)
    ∷ ("ESME_RSERTYPUNAUTH", 0x0100)
    ∷ ("ESME_RPROHIBITED", 0x0101)
    ∷ ("ESME_RSERTYPUNAVAIL", 0x0102)
    ∷ ("ESME_RSERTYPDENIED", 0x0103)
    ∷ ("ESME_RINVDCS", 0x0104)
    ∷ ("ESME_RINVSRCADDRSUBUNIT", 0x0105)
    ∷ ("ESME_RINVDSTADDRSUBUNIT", 0x0106)
    ∷ ("ESME_RINVBCASTFREQINT", 0x0107)
    ∷ ("ESME_RINVBCASTALIAS_NAME", 0x0108)
    ∷ ("ESME_RINVBCASTAREAFMT", 0x0109)
    ∷ ("ESME_RINVNUMBCAST_AREAS", 0x010A)
    ∷ ("ESME_RINVBCASTCNTTYPE", 0x010B)
    ∷ ("ESME_RINVBCASTMSGCLASS", 0x010C)
    ∷ ("ESME_RBCASTFAIL", 0x010D)
    ∷ ("ESME_RBCASTQUERYFAIL", 0x010E)
    ∷ ("ESME_RBCASTCANCELFAIL", 0x010F)
    ∷ ("ESME_RINVBCAST_REP", 0x0110)
    ∷ ("ESME_RINVBCASTSRVGRP", 0x0111)
    ∷ ("ESME_RINVBCASTCHANIND", 0x0112)
    ∷ []

abbrev by_code : List (String × ℕ) → List (ℕ × String) → List (ℕ × String)
by_code [] found = found
by_code ((name, code) ∷ later) found = by_code later (put code name found)

-- A later name of the same code would take the earlier one's place.
unfoldable pub errors_by_id : List (ℕ × String)
unfolding errors
errors_by_id = by_code errors []

unfoldable pub is_error_name : String → Bool
unfolding errors
is_error_name value = elim (find value errors) [ none ↦ false | some _ ↦ true ]

unfoldable pub error_name_by_id : ℕ → Option String
unfolding errors_by_id is_error_name
error_name_by_id id = elim (find id errors_by_id) [
  | none ↦ none
  | some name ↦ if is_error_name name then some name else none
]
