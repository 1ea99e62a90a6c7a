-- ===== src/Client/Examples.antt =====
-- A client that connects once, and the sources that a connection string comes from.
use azure_client_tools.Base.{
  ℕ, zero, suc, ◌<◌, ◌+◌, ◌-◌, ◌*◌, ◌≡◌, refl, ◌⊎◌, inl, Bool, true, false, [], ◌∷◌, ◌++◌, none,
  some, ltb, Text, codes, Result, ok, err, arith,
}
use azure_client_tools.Reporting.{Exception, std}
use azure_client_tools.Client.{
  created, destroyed, notifications, status, stop_signalled, Parameters, Round, Client, new_client,
  run_round, run_rounds, continues, leaves, connect, disconnect, initialize_connection,
  enable_notifications, finish, is_due, with_handle, signal_status, renewal_start, deinitialize,
  deinitialize_connection, destroy_host,
}
use azure_client_tools.Client.Retrieval.{
  connection, threw, Sources, found, dps_failed, tpm_connection,
}
use azure_client_tools.Client.Provisioning.{tpm_connection_with_dps, tpm_connection_without_dps}
use azure_client_tools.Client.Balance.{held, handles_created, handles_destroyed}
use azure_client_tools.Client.Runs.{handles_balance, last_handle_destroyed_twice}
use azure_client_tools.Client.Renewal.{is_due_in_time, grace_too_long}

abbrev parameters : Bool → ℕ → Parameters
parameters dps grace = record {
  connection_string = [];
  dps_enabled = dps;
  device_slot = 0;
  dm_slot = 0;
  sas_token_expiry = 3600;
  sas_renewal_grace = grace;
}

-- The TPM answers at the second attempt.
abbrev second_answer : ℕ → Result Exception Text
second_answer n = elim n [ zero ↦ err (std (codes "empty")) | suc _ ↦ ok (codes "HostName") ]

abbrev sources : Sources
sources = record { tick_count = λ i. 1000 + i; tpm = second_answer; provision_device = λ i. ok tt }

tpm_connection_with_dps_example :
    ((s : Text) × (found (sources.tpm 0) ≡ some s)
      × (tpm_connection (parameters true 600) sources 5 0 false
          ≡ connection s (sources.tick_count 0)))
    ⊎ ((found (sources.tpm 0) ≡ none)
        × (((e : Exception) × (sources.provision_device 0 ≡ err e)
              × (tpm_connection (parameters true 600) sources 5 0 false ≡ threw e))
            ⊎ ((sources.provision_device 0 ≡ ok tt)
                × (((s : Text) × (found (sources.tpm 1) ≡ some s)
                      × (tpm_connection (parameters true 600) sources 5 0 false
                          ≡ connection s (sources.tick_count 1)))
                    ⊎ ((found (sources.tpm 1) ≡ none)
                        × (tpm_connection (parameters true 600) sources 5 0 false
                            ≡ threw dps_failed))))))
tpm_connection_with_dps_example =
    tpm_connection_with_dps (parameters true 600) sources 5 refl (omega arith)

no_answer_before : (j : ℕ) → j < 1 → found (second_answer j) ≡ none
no_answer_before zero h = refl
no_answer_before (suc j) h = absurd (omega arith)

tpm_connection_without_dps_example :
    tpm_connection (parameters false 600) sources 5 0 false ≡ connection (codes "HostName") 1001
tpm_connection_without_dps_example =
    tpm_connection_without_dps (parameters false 600) sources 1 5 (codes "HostName") refl
      no_answer_before refl (omega arith)

abbrev round : Bool → ℕ → Round
round stop now = record {
  stop = stop;
  now = now;
  timestamp = ok 500;
  handle = some 7;
  takes_methods = λ b. true;
  takes_twins = λ b. true;
}

-- The client after its first connection.
abbrev online_client : ℕ → Client
online_client start = record {
  device_client_handle = some 7;
  module_client_handle = none;
  host_device_handle = some 7;
  host_module_handle = none;
  sas_token_timestamp = 500;
  renewal_absolute_start = start;
  first_time = false;
  connected = true;
  log = created 7 ∷ notifications true ∷ status true ∷ [];
}

goes_online :
    run_rounds (parameters true 600) (round false 0 ∷ []) new_client
    ≡ continues (online_client 3000500)
unfolding run_rounds run_round new_client is_due disconnect connect initialize_connection
    with_handle enable_notifications signal_status renewal_start
goes_online = refl

goes_online_and_stops :
    run_rounds (parameters true 600) (round false 0 ∷ round true 1 ∷ []) new_client
    ≡ leaves (online_client 3000500)
unfolding run_rounds run_round new_client is_due disconnect connect initialize_connection
    with_handle enable_notifications signal_status renewal_start
goes_online_and_stops = refl

-- A grace period of 3700 seconds is longer than the expiry interval.
goes_online_for_good :
    run_rounds (parameters true 3700) (round false 0 ∷ []) new_client
    ≡ continues (online_client 18446744073709452116)
unfolding run_rounds run_round new_client is_due disconnect connect initialize_connection
    with_handle enable_notifications signal_status renewal_start
goes_online_for_good = refl

handles_balance_example :
    (handles_created (online_client 3000500).log
      ≡ handles_destroyed (online_client 3000500).log ++ held (online_client 3000500))
    × (((online_client 3000500).connected ≡ true
          → (h : ℕ) × (held (online_client 3000500) ≡ h ∷ []))
        × ((online_client 3000500).connected ≡ false → held (online_client 3000500) ≡ []))
handles_balance_example =
    handles_balance (parameters true 600) (round false 0 ∷ []) (online_client 3000500)
      (inl goes_online)

abbrev gone_client : Client
gone_client = record {
  device_client_handle = none;
  module_client_handle = none;
  host_device_handle = none;
  host_module_handle = none;
  sas_token_timestamp = 500;
  renewal_absolute_start = 3000500;
  first_time = false;
  connected = true;
  log =
      created 7
      ∷ notifications true
      ∷ status true
      ∷ notifications false
      ∷ status false
      ∷ stop_signalled
      ∷ destroyed 7
      ∷ destroyed 7
      ∷ [];
}

last_handle_destroyed_twice_example :
    (h : ℕ) × (handles_created gone_client.log
      ≡ handles_destroyed (online_client 3000500).log ++ h ∷ [])
    × (handles_destroyed gone_client.log
        ≡ handles_destroyed (online_client 3000500).log ++ h ∷ h ∷ [])
last_handle_destroyed_twice_example =
    last_handle_destroyed_twice (parameters true 600) (round false 0 ∷ round true 1 ∷ [])
      (round true 1) (online_client 3000500) gone_client goes_online_and_stops refl
      (unfold finish enable_notifications signal_status deinitialize deinitialize_connection
          destroy_host in
        refl)

is_due_in_time_example :
    is_due (round false 9000000) (online_client 3000500) ≡ ltb (500 + (3600 - 600) * 1000) 9000000
is_due_in_time_example =
    is_due_in_time (parameters true 600) (round false 0 ∷ []) (online_client 3000500)
      (round false 9000000) (omega arith) (omega arith) (inl goes_online) refl (omega arith)

grace_too_long_example : is_due (round false 9000000) (online_client 18446744073709452116) ≡ false
grace_too_long_example =
    grace_too_long (parameters true 3700) (round false 0 ∷ []) (online_client 18446744073709452116)
      (round false 9000000) (omega arith) (omega arith) (inl goes_online_for_good) refl
      (omega arith) (omega arith)
