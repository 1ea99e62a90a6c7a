-- ===== src/Client.antt =====
-- code/device-agent/agent/AzureDMClient.cpp: how the agent gets its connection to the hub, renews it
-- before its token expires, and gives it back. What gives the connection string, the clock and the
-- IoT Hub SDK are arguments.
pub mod Retrieval
pub mod Provisioning
pub mod Balance
pub mod Handles
pub mod Runs
pub mod Renewal
pub mod Examples
use azure_client_tools.Base.{
  ℕ, zero, suc, ◌+◌, ◌-◌, ◌*◌, ◌%◌, ◌^◌, ◌≡◌, Bool, true, false, ◌||◌, List, [], ◌∷◌, ◌++◌, Option,
  none, some, length, ltb, ◌==◌, if◌then◌else◌, Result, ok, err, ◌>>=◌, require, Text, codes, pos,
}
use azure_client_tools.Reporting.{Exception, dm}

pub record Parameters : Type 0 where
  pub connection_string : Text
  pub dps_enabled : Bool
  pub device_slot : ℕ
  pub dm_slot : ℕ
  -- In seconds, unsigned numbers of 32 bits.
  pub sas_token_expiry : ℕ
  pub sas_renewal_grace : ℕ

-- What the agent asks of the SDK and tells its handlers, in order. A handle is a number.
pub data Event : Type 0 where
  created destroyed : ℕ → Event
  -- EnableIoTHubNotifications and SignalConnectionStatusChanged.
  notifications status : Bool → Event
  stop_signalled : Event

-- The fields of AzureDMClient, the copies of the handles in AzureRawHost, the locals of Run, and what
-- has happened so far.
pub record Client : Type 0 where
  pub device_client_handle : Option ℕ
  pub module_client_handle : Option ℕ
  pub host_device_handle : Option ℕ
  pub host_module_handle : Option ℕ
  pub sas_token_timestamp : ℕ
  pub renewal_absolute_start : ℕ
  pub first_time : Bool
  pub connected : Bool
  pub log : List Event

unfoldable pub new_client : Client
new_client = record {
  device_client_handle = none;
  module_client_handle = none;
  host_device_handle = none;
  host_module_handle = none;
  sas_token_timestamp = 0;
  renewal_absolute_start = 0;
  first_time = true;
  connected = false;
  log = [];
}

-- What one round of the loop of Run meets: the stop event, the clock, the time stamp of the connection
-- string (or what platform_init or GetConnectionString throws), the new handle, and whether the SDK
-- takes the callbacks for methods and twins.
pub record Round : Type 0 where
  pub stop : Bool
  pub now : ℕ
  pub timestamp : Result Exception ℕ
  pub handle : Option ℕ
  pub takes_methods : Bool → Bool
  pub takes_twins : Bool → Bool

-- The SDK makes no handle: DM_ERROR_OPERATION_FAILED; the name of its function is not kept.
unfoldable pub create_failed : Exception
create_failed = dm (record { subsystem = codes "IotHub"; code = pos 1014; message = [] })

-- The SDK refuses a callback; its result code and the name of its function are not kept.
unfoldable pub sdk_failed : Exception
sdk_failed = dm (record { subsystem = codes "IotHub"; code = pos 1; message = [] })

abbrev is_some : Option ℕ → Bool
is_some none = false
is_some (some h) = true

-- AzureRawHost::EnableIoTHubNotifications.
unfoldable pub enable_notifications : Bool → Round → Client → Result Exception Client
enable_notifications enable r c =
    let c' = record c { log = c.log ++ notifications enable ∷ [] } in
    if is_some c.host_device_handle || is_some c.host_module_handle
    then (require (r.takes_methods enable) sdk_failed >>= λ _.
        (require (r.takes_twins enable) sdk_failed >>= λ _. ok c'))
    else ok c'

-- AzureRawHost::SignalConnectionStatusChanged.
unfoldable pub signal_status : Bool → Client → Client
signal_status online c = record c { log = c.log ++ status online ∷ [] }

abbrev pub destruction : Option ℕ → List Event
destruction none = []
destruction (some h) = destroyed h ∷ []

unfoldable pub deinitialize_connection : Client → Client
deinitialize_connection c = record c {
  device_client_handle = none;
  module_client_handle = none;
  log = (c.log ++ destruction c.device_client_handle) ++ destruction c.module_client_handle;
}

unfoldable pub with_handle : Parameters → ℕ → Client → Client
with_handle p h c =
    let c' = record c { log = c.log ++ created h ∷ [] } in
    if p.device_slot == p.dm_slot
    then record c' { device_client_handle = some h; host_device_handle = some h }
    else record c' { module_client_handle = some h; host_module_handle = some h }

create_handle : Parameters → Option ℕ → Client → Result Exception Client
unfolding with_handle
create_handle p none c = err create_failed
create_handle p (some h) c = ok (with_handle p h c)

unfoldable pub initialize_connection : Parameters → Round → Client → Result Exception Client
unfolding create_handle
initialize_connection p r c =
    r.timestamp >>= λ t. create_handle p r.handle (record c { sas_token_timestamp = t })

unfoldable pub disconnect : Round → Client → Result Exception Client
unfolding deinitialize_connection signal_status
disconnect r c =
    if c.connected
    then (enable_notifications false r c >>= λ c'.
        ok (record (deinitialize_connection (signal_status false c')) { connected = false }))
    else ok c

-- The products are taken in 32 bits, the difference and the sum in 64.
unfoldable pub renewal_start : Parameters → ℕ
renewal_start p =
    ((p.sas_token_expiry * 1000) % 2 ^ 32 + 2 ^ 64 - (p.sas_renewal_grace * 1000) % 2 ^ 32) % 2 ^ 64

unfoldable pub connect : Parameters → Round → Client → Result Exception Client
unfolding initialize_connection enable_notifications signal_status renewal_start
connect p r c = initialize_connection p r c >>= λ c₁.
    (enable_notifications true r c₁ >>= λ c₂. ok (record (signal_status true c₂) {
      connected = true;
      first_time = false;
      renewal_absolute_start = (c₂.sas_token_timestamp + renewal_start p) % 2 ^ 64;
    }))

unfoldable pub is_due : Round → Client → Bool
is_due r c = if c.first_time then true else ltb c.renewal_absolute_start r.now

-- How a round ends: the loop goes on, is left, or an exception leaves Run.
pub data Ended : Type 0 where
  continues : Client → Ended
  leaves : Client → Ended
  throws : Exception → Ended

ended : Result Exception Client → Ended
ended (ok c) = continues c
ended (err e) = throws e

unfoldable pub run_round : Parameters → Round → Client → Ended
unfolding ended disconnect connect is_due
run_round p r c =
    if r.stop
    then leaves c
    else if is_due r c
    then ended (disconnect r c >>= connect p r)
    else continues c

-- The loop over the rounds so far.
unfoldable pub run_rounds : Parameters → List Round → Client → Ended
unfolding run_round
run_rounds p [] c = continues c
run_rounds p (r ∷ rs) c = elim (run_round p r c) [
  | continues c' ↦ run_rounds p rs c'
  | leaves c' ↦ leaves c'
  | throws e ↦ throws e
]

-- AzureRawHost::Destroy, as far as the handles go.
unfoldable pub destroy_host : Client → Client
destroy_host c = record c {
  host_device_handle = none;
  host_module_handle = none;
  log = (c.log ++ destruction c.host_device_handle) ++ destruction c.host_module_handle;
}

unfoldable pub deinitialize : Client → Client
unfolding destroy_host deinitialize_connection
deinitialize c = deinitialize_connection (destroy_host c)

-- The end of Run.
unfoldable pub finish : Round → Client → Result Exception Client
unfolding enable_notifications signal_status deinitialize
finish r c = enable_notifications false r c >>= λ c₁.
    let c₂ = signal_status false c₁ in
    ok (deinitialize (record c₂ { log = c₂.log ++ stop_signalled ∷ [] }))
