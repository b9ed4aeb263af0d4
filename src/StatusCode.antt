-- ===== src/StatusCode.antt =====
-- statuscode/statuscode.go: the status words of U2F responses.
use linux_id.Common.{ℕ}

abbrev pub no_error : ℕ
no_error = 0x9000

-- The request was rejected due to test-of-user-presence being required.
abbrev pub conditions_not_satisfied : ℕ
conditions_not_satisfied = 0x6985

-- The request was rejected due to an invalid key handle.
abbrev pub wrong_data : ℕ
wrong_data = 0x6A80

abbrev pub cla_not_supported : ℕ
cla_not_supported = 0x6E00

abbrev pub ins_not_supported : ℕ
ins_not_supported = 0x6D00
