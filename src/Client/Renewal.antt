-- ===== src/Client/Renewal.antt =====
-- When Run renews its connection.
use azure_client_tools.Base.{
  ◌+◌, ◌-◌, ◌*◌, ◌%◌, ◌^◌, ◌≤◌, ◌<◌, ◌≡◌, sym, subst, inl, inr, true, false, List, ok, Result-cases,
  ltb, arith,
}
use azure_client_tools.Client.{
  Parameters, Client, new_client, Round, enable_notifications, connect, initialize_connection,
  signal_status, renewal_start, run_rounds, is_due,
}
use azure_client_tools.Client.Runs.{Arrives, Went, unchanged, reconnected, run_rounds-keeps}

abbrev IsScheduled : Parameters → Client → Type 0
IsScheduled p c =
    c.first_time ≡ false
    → c.renewal_absolute_start ≡ (c.sas_token_timestamp + renewal_start p) % 2 ^ 64

connect-IsScheduled :
    (p : Parameters) (r : Round) (d c' : Client) → connect p r d ≡ ok c' → IsScheduled p c'
unfolding connect signal_status
connect-IsScheduled p r d c' e first = elim (Result-cases (initialize_connection p r d)) [
  | inr (x, f) ↦ absurd (ground (arith, e, f))
  | inl (c₁, f) ↦ elim (Result-cases (enable_notifications true r c₁)) [
    | inr (x, g) ↦ absurd (ground (arith, e, f, g))
    | inl (c₂, g) ↦ ground (arith, e, f, g)
  ]
]

Went-IsScheduled :
    (p : Parameters) (r : Round) (c c' : Client)
    → IsScheduled p c
    → Went p r c c'
    → IsScheduled p c'
Went-IsScheduled p r c c' i (unchanged e) = subst (IsScheduled p) (sym e) i
Went-IsScheduled p r c c' i (reconnected d f g) = connect-IsScheduled p r d c' g

new_client-IsScheduled : (p : Parameters) → IsScheduled p new_client
unfolding new_client
new_client-IsScheduled p e = cc

-- If the expiry interval and the grace period, in milliseconds, fit 32 bits, if the grace period
-- is not longer than the interval and the time stamp is far from the end of the clock: then after
-- the first connection, wherever the loop of Run arrives, the next round renews exactly if its
-- clock is later than the time stamp of the connection string plus the expiry interval less the
-- grace period.
pub is_due_in_time :
    (p : Parameters) (rs : List Round) (c : Client) (r : Round)
    → p.sas_token_expiry * 1000 < 2 ^ 32
    → p.sas_renewal_grace ≤ p.sas_token_expiry
    → Arrives (run_rounds p rs new_client) c
    → c.first_time ≡ false
    → c.sas_token_timestamp + p.sas_token_expiry * 1000 < 2 ^ 64
    → is_due r c
      ≡ ltb (c.sas_token_timestamp + (p.sas_token_expiry - p.sas_renewal_grace) * 1000) r.now
unfolding is_due renewal_start
is_due_in_time p rs c r fits grace a first clock =
    let set =
      run_rounds-keeps (IsScheduled p) p (Went-IsScheduled p) rs new_client c
        (new_client-IsScheduled p) a first in
    let start : c.renewal_absolute_start
        ≡ c.sas_token_timestamp + (p.sas_token_expiry - p.sas_renewal_grace) * 1000 =
      omega (arith, set) in
    rw (first, start)

-- If the grace period is longer than the expiry interval, the grace period fits 32 bits in
-- milliseconds, and the time stamp of the connection string is smaller than the difference, then,
-- after the first connection, a round does not renew the connection, whatever its clock says below
-- 2^63.
pub grace_too_long :
    (p : Parameters) (rs : List Round) (c : Client) (r : Round)
    → p.sas_renewal_grace * 1000 < 2 ^ 32
    → p.sas_token_expiry < p.sas_renewal_grace
    → Arrives (run_rounds p rs new_client) c
    → c.first_time ≡ false
    → c.sas_token_timestamp < (p.sas_renewal_grace - p.sas_token_expiry) * 1000
    → r.now < 2 ^ 63
    → is_due r c ≡ false
unfolding is_due renewal_start
grace_too_long p rs c r fits grace a first early now =
    let set =
      run_rounds-keeps (IsScheduled p) p (Went-IsScheduled p) rs new_client c
        (new_client-IsScheduled p) a first in
    let start : r.now < c.renewal_absolute_start = omega (arith, set) in
    rw first (ground (arith, start))
