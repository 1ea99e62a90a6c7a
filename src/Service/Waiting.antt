-- ===== src/Service/Waiting.antt =====
-- How long ServiceManager::WaitStatus waits.
use azure_client_tools.Base.{
  ℕ, zero, suc, ◌+◌, ◌-◌, ◌%◌, ◌^◌, ◌<◌, ◌≡◌, ◌≢◌, refl, Result, ok, arith,
}
use azure_client_tools.Service.{Failure, timed_out, running, u32_mod, wait_status}

-- The service never gets into the wanted state, and the manager answers each poll.
abbrev pub NeverReaches : (ℕ → Result Failure ℕ) → ℕ → Type 0
NeverReaches polls status = (i : ℕ) → (s : ℕ) × (polls i ≡ ok s) × (status ≢ s)

-- Where a service never gets into the wanted state and each poll is answered: for an even number
-- of seconds WaitStatus gives up, after half as many polls (and so half as many seconds) as it is
-- asked to wait for.
pub wait_status_even :
    (half : ℕ) (polls : ℕ → Result Failure ℕ) (status made fuel : ℕ)
    → half + half < u32_mod
    → NeverReaches polls status
    → half < fuel
    → wait_status fuel polls status (half + half) made ≡ timed_out (made + half)
unfolding wait_status
wait_status_even half polls status made zero w never f = absurd (omega arith)
wait_status_even zero polls status made (suc fuel) w never f =
    let (s, e, ne) = never made in ground arith
wait_status_even (suc half) polls status made (suc fuel) w never f =
    let (s, e, ne) = never made in
    let next : ((suc half + suc half + u32_mod - 1) % u32_mod + u32_mod - 1) % u32_mod
        ≡ half + half =
      omega arith in
    ground
      (arith, wait_status_even half polls status (made + 1) fuel (omega arith) never (omega arith))

-- Where a service never gets into the wanted state and each poll is answered: for an odd number of
-- seconds the count jumps from 1 over 0 to 2^32 - 1, and WaitStatus never gives up, whatever
-- number of polls it makes.
pub wait_status_odd :
    (half : ℕ) (polls : ℕ → Result Failure ℕ) (status made fuel : ℕ)
    → half + half + 1 < u32_mod
    → NeverReaches polls status
    → wait_status fuel polls status (half + half + 1) made ≡ running
unfolding wait_status
wait_status_odd half polls status made zero w never = refl
wait_status_odd zero polls status made (suc fuel) w never =
    let (s, e, ne) = never made in
    let rest = wait_status_odd (2 ^ 31 - 1) polls status (made + 1) fuel (omega arith) never in
    ground (arith, rest)
wait_status_odd (suc half) polls status made (suc fuel) w never =
    let (s, e, ne) = never made in
    let next : ((suc half + suc half + 1 + u32_mod - 1) % u32_mod + u32_mod - 1) % u32_mod
        ≡ half + half + 1 =
      omega arith in
    ground (arith, wait_status_odd half polls status (made + 1) fuel (omega arith) never)
