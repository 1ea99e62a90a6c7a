-- ===== src/Remote/Crossing.antt =====
-- A result that one side writes and the other reads, and the statuses that cross.
use azure_client_tools.Base.{◌≡◌, refl, ap, ◌∙◌, text_eq, Result, ok, err, ◌>>=◌}
use azure_client_tools.Remote.{
  Call, returns, with_result, checked, ConnectionStatus, offline, online, status_to_string,
  status_from_string, connection_to_string, connection_from_string,
}
use azure_client_tools.Reporting.{
  DeploymentStatus, succeeded, not_started, pending, failed, unknown, Exception,
}

-- A result that is written and read back.
pub bind_bind {ℓ κ μ} :
    {A : Type ℓ} {B : Type κ} {C : Type μ} (o : Result Exception A) (f : A → Result Exception B)
    (g : B → Result Exception C)
    → (o >>= f >>= g) ≡ (o >>= λ a. f a >>= g)
bind_bind (ok a) f g = refl
bind_bind (err e) f g = refl

pub bind_same {ℓ κ} :
    {A : Type ℓ} {B : Type κ} (o : Result Exception A) (f g : A → Result Exception B)
    → ((a : A) → f a ≡ g a)
    → (o >>= f) ≡ (o >>= g)
bind_same (ok a) f g same = same a
bind_same (err e) f g same = refl

pub bind_ok {ℓ} : {A : Type ℓ} (o : Result Exception A) → (o >>= ok) ≡ o
bind_ok (ok a) = refl
bind_ok (err e) = refl

-- A call whose result is written by the one side and read by the other.
pub written_and_read {ℓ κ μ ν} :
    {S : Type ℓ} {A : Type κ} {B : Type μ} {C : Type ν} (c : Call S A)
    (write : A → Result Exception B) (read : B → Result Exception C) (seen : A → Result Exception C)
    → ((a : A) → (write a >>= read) ≡ seen a)
    → with_result (with_result c write) read ≡ with_result c seen
written_and_read c write read seen same =
    ap (λ o. record { state = c.state; outcome = o })
      (bind_bind c.outcome write read ∙ bind_same c.outcome (λ a. write a >>= read) seen same)

pub with_result-ok {ℓ κ} : {S : Type ℓ} {A : Type κ} (c : Call S A) → with_result c ok ≡ c
with_result-ok c = ap (λ o. record { state = c.state; outcome = o }) (bind_ok c.outcome)

-- The same for a method that does not change the handler.
pub answered_and_read {ℓ κ μ ν} :
    {S : Type ℓ} {A : Type κ} {B : Type μ} {C : Type ν} (o : Result Exception A) (s : S)
    (write : A → B) (read : B → Result Exception C) (seen : A → Result Exception C)
    → ((a : A) → read (write a) ≡ seen a)
    → with_result (checked o s (λ a. returns (write a) s)) read
      ≡ record { state = s; outcome = o >>= seen }
answered_and_read (ok a) s write read seen same =
    ap (λ o. record { state = s; outcome = o }) (same a)
answered_and_read (err e) s write read seen same = refl

pub connection_from_string-to_string :
    (s : ConnectionStatus) → connection_from_string (connection_to_string s) ≡ ok s
unfolding connection_from_string connection_to_string text_eq
connection_from_string-to_string offline = refl
connection_from_string-to_string online = refl

-- The statuses that can cross, and the exception for the others.
unfoldable pub crossing_status : DeploymentStatus → Result Exception DeploymentStatus
unfolding status_to_string
crossing_status s = status_to_string s >>= λ text. ok s

pub status_from_string-to_string :
    (s : DeploymentStatus) → (status_to_string s >>= status_from_string) ≡ crossing_status s
unfolding crossing_status status_to_string status_from_string text_eq
status_from_string-to_string succeeded = refl
status_from_string-to_string not_started = refl
status_from_string-to_string pending = refl
status_from_string-to_string failed = refl
status_from_string-to_string unknown = refl
