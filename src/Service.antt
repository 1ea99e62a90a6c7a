-- ===== src/Service.antt =====
-- code/device-agent/agent/ServiceManager.cpp: the agent's calls of the Windows service control
-- manager. What the manager answers to each call is an argument.
pub mod Waiting
pub mod Examples
use azure_client_tools.Base.{
  ℕ, zero, suc, ◌+◌, ◌-◌, ◌*◌, ◌/◌, ◌%◌, ◌^◌, ◌≡◌, refl, Bool, true, false, Option, none, some,
  ◌==◌, if◌then◌else◌, Result, ok, err, ◌>>=◌, ◌>>◌, require, not,
}

-- The call whose failure an exception reports.
pub data Failure : Type 0 where
  open_sc_manager open_service query_service_status query_service_config start_service : Failure
  control_service change_service_config : Failure

abbrev pub service_running : ℕ
service_running = 4

-- Whether each call succeeds, and the values that it yields.
pub record ServiceControl : Type 0 where
  pub manager_opens : Bool
  pub service_opens : Bool
  pub current_state : Option ℕ
  -- `!QueryServiceConfig(NULL) && ERROR_INSUFFICIENT_BUFFER != GetLastError()` fails.
  pub config_size_known : Bool
  pub config_start_type : Option ℕ
  pub starts : Bool
  pub controls : Bool
  pub changes_config : Bool

abbrev or_throw {ℓ} : {A : Type ℓ} → Option A → Failure → Result Failure A
or_throw none e = err e
or_throw (some a) e = ok a

unfoldable pub get_status : ServiceControl → Result Failure ℕ
get_status c = do
  require c.manager_opens open_sc_manager
  require c.service_opens open_service
  or_throw c.current_state query_service_status

unfoldable pub get_start_type : ServiceControl → Result Failure ℕ
get_start_type c = do
  require c.manager_opens open_sc_manager
  require c.service_opens open_service
  require c.config_size_known query_service_config
  or_throw c.config_start_type query_service_config

-- What StartStop asked of the manager.
pub data Request : Type 0 where
  nothing sent_start sent_stop : Request

-- The part of StartStop behind the query of the state.
unfoldable pub start_stop_in : ServiceControl → Bool → ℕ → Result Failure Request
start_stop_in c true state =
    if state == service_running
    then ok nothing
    else (require c.starts start_service >>= λ _. ok sent_start)
start_stop_in c false state =
    if not (state == service_running)
    then ok nothing
    else (require c.controls control_service >>= λ _. ok sent_stop)

unfoldable pub start_stop : ServiceControl → Bool → Result Failure Request
unfolding start_stop_in
start_stop c start = do
  require c.manager_opens open_sc_manager
  require c.service_opens open_service
  state ← or_throw c.current_state query_service_status
  start_stop_in c start state

unfoldable pub start : ServiceControl → Result Failure Request
start c = start_stop c true

unfoldable pub stop : ServiceControl → Result Failure Request
stop c = start_stop c false

unfoldable pub set_start_type : ServiceControl → Result Failure (Unit {0})
set_start_type c = do
  require c.manager_opens open_sc_manager
  require c.service_opens open_service
  require c.changes_config change_service_config

pub data Waited : Type 0 where
  reached timed_out : ℕ → Waited
  threw : ℕ → Failure → Waited
  -- The fuel ran out: the loop is still running.
  running : Waited

abbrev pub u32_mod : ℕ
u32_mod = 2 ^ 32

-- The loop of WaitStatus, with the number of polls made. `polls` is what GetStatus does at each.
-- `maxWaitInSeconds` is decremented in the condition and again in the body, modulo 2^32.
unfoldable pub wait_status : ℕ → (ℕ → Result Failure ℕ) → ℕ → ℕ → ℕ → Waited
wait_status zero polls status max_wait made = running
wait_status (suc fuel) polls status max_wait made =
    let next =
      wait_status fuel polls status (((max_wait + u32_mod - 1) % u32_mod + u32_mod - 1) % u32_mod)
        (made + 1) in
    elim (polls made) [
      | err e ↦ if max_wait == 0 then timed_out made else threw made e
      | ok s ↦
          if max_wait == 0 then timed_out made else if status == s then reached (made + 1) else next
    ]
