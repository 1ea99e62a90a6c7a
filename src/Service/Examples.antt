-- ===== src/Service/Examples.antt =====
-- A service that stays stopped.
use azure_client_tools.Base.{ℕ, ◌≡◌, refl, Result, ok, arith}
use azure_client_tools.Service.{Failure, service_running, timed_out, running, wait_status}
use azure_client_tools.Service.Waiting.{NeverReaches, wait_status_even, wait_status_odd}

-- SERVICE_STOPPED.
abbrev stopped_polls : ℕ → Result Failure ℕ
stopped_polls i = ok 1

stays_stopped : NeverReaches stopped_polls service_running
stays_stopped i = (1, refl, omega arith)

wait_status_even_example : wait_status 100 stopped_polls service_running 60 0 ≡ timed_out 30
wait_status_even_example =
    wait_status_even 30 stopped_polls service_running 0 100 (omega arith) stays_stopped
      (omega arith)

wait_status_odd_example : wait_status 1000 stopped_polls service_running 61 0 ≡ running
wait_status_odd_example =
    wait_status_odd 30 stopped_polls service_running 0 1000 (omega arith) stays_stopped
