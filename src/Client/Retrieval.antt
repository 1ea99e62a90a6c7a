-- ===== src/Client/Retrieval.antt =====
-- GetConnectionString of AzureDMClient: the TPM, and the provisioning service if it is enabled.
use azure_client_tools.Base.{
  ℕ, zero, suc, ◌+◌, Bool, true, false, [], ◌∷◌, Option, none, some, length, ◌==◌, if◌then◌else◌,
  Result, ok, err, Text, codes, pos,
}
use azure_client_tools.Client.{Parameters}
use azure_client_tools.Reporting.{Exception, dm}

unfoldable pub dps_failed : Exception
dps_failed = dm (record {
  subsystem = codes "DeviceAgent";
  code = pos 1016;
  message = codes "Unable to retrieve the connection string for IoT Hub!";
})

-- What GetConnectionString returns (with the time stamp) or throws; `waiting` means that its loop is
-- still running.
pub data Connection : Type 0 where
  connection : Text → ℕ → Connection
  threw : Exception → Connection
  waiting : Connection

-- The clock, the TPM and the provisioning service, at each round of the loop.
pub record Sources : Type 0 where
  pub tick_count : ℕ → ℕ
  pub tpm : ℕ → Result Exception Text
  pub provision_device : ℕ → Result Exception (Unit {0})

-- The TPM's answer counts if it is not empty.
abbrev pub found : Result Exception Text → Option Text
found (ok []) = none
found (ok (c ∷ s)) = some (c ∷ s)
found (err e) = none

-- The loop, from the given round on.
unfoldable pub tpm_connection : Parameters → Sources → ℕ → ℕ → Bool → Connection
tpm_connection p w zero i tried_dps = waiting
tpm_connection p w (suc fuel) i tried_dps =
    let after_dps = tpm_connection p w fuel (i + 1) true in
    let after_sleep = tpm_connection p w fuel (i + 1) tried_dps in
    elim (found (w.tpm i)) [
      | some s ↦ connection s (w.tick_count i)
      | none ↦
          if p.dps_enabled
          then if tried_dps
            then threw dps_failed
            else (elim (w.provision_device i) [ err e ↦ threw e | ok _ ↦ after_dps ])
          else after_sleep
    ]

unfoldable pub get_connection_string : Parameters → Sources → ℕ → Connection
get_connection_string p w fuel =
    if length p.connection_string == 0
    then tpm_connection p w fuel 0 false
    else connection p.connection_string (w.tick_count 0)
