-- ===== src/Cmpi.antt =====
-- The status codes of CMPI that the providers return, and the numbers of src/svpc_types.h.
use libvirt_cim.Prelude.{ℕ}

-- `CMPIrc`; the message of a CMPIStatus is not kept
pub data Rc : Type 0 where
  rc_ok rc_err_failed rc_err_not_found rc_err_not_supported rc_err_invalid_parameter : Rc

-- EnabledState and RequestedState
abbrev pub cim_state_unknown : ℕ
cim_state_unknown = 0

abbrev pub cim_state_enabled : ℕ
cim_state_enabled = 2

abbrev pub cim_state_disabled : ℕ
cim_state_disabled = 3

abbrev pub cim_state_shutdown : ℕ
cim_state_shutdown = 4

abbrev pub cim_state_suspended : ℕ
cim_state_suspended = 6

abbrev pub cim_state_paused : ℕ
cim_state_paused = 9

abbrev pub cim_state_reboot : ℕ
cim_state_reboot = 10

abbrev pub cim_state_reset : ℕ
cim_state_reset = 11

-- HealthState
abbrev pub cim_health_unknown : ℕ
cim_health_unknown = 0

abbrev pub cim_health_ok : ℕ
cim_health_ok = 5

abbrev pub cim_health_major_failure : ℕ
cim_health_major_failure = 20

-- OperatingStatus
abbrev pub cim_oping_status_unknown : ℕ
cim_oping_status_unknown = 0

abbrev pub cim_oping_status_stopped : ℕ
cim_oping_status_stopped = 5

abbrev pub cim_oping_status_aborted : ℕ
cim_oping_status_aborted = 6

abbrev pub cim_oping_status_dormant : ℕ
cim_oping_status_dormant = 7

abbrev pub cim_oping_status_migrating : ℕ
cim_oping_status_migrating = 9

abbrev pub cim_oping_status_started : ℕ
cim_oping_status_started = 32768

-- OperationalStatus
abbrev pub cim_op_status_unknown : ℕ
cim_op_status_unknown = 0

abbrev pub cim_op_status_ok : ℕ
cim_op_status_ok = 2

abbrev pub cim_op_status_error : ℕ
cim_op_status_error = 6

abbrev pub cim_op_status_dormant : ℕ
cim_op_status_dormant = 15
