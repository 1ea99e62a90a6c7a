-- ===== src/Client/Provisioning.antt =====
-- How GetConnectionString ends.
use azure_client_tools.Base.{
  ℕ, zero, suc, ◌+◌, ◌≤◌, ◌<◌, ◌≡◌, ap, ◌∙◌, ◌⊎◌, inl, inr, true, false, none, some, ok, err,
  Result-cases, Option-cases, Bool-cases, ◌==◌, arith, Text,
}
use azure_client_tools.Reporting.{Exception}
use azure_client_tools.Client.{Parameters}
use azure_client_tools.Client.Retrieval.{
  connection, threw, Sources, found, dps_failed, tpm_connection,
}

-- With provisioning enabled, the loop of GetConnectionString ends after at most two rounds. It
-- returns the first answer of the TPM with the time stamp of that round; it throws what the
-- provisioning after the first round throws, or, if the TPM has no answer even after that
-- provisioning, the exception for that.
pub tpm_connection_with_dps :
    (p : Parameters) (w : Sources) (fuel : ℕ)
    → p.dps_enabled ≡ true
    → 2 ≤ fuel
    → ((s : Text) × (found (w.tpm 0) ≡ some s)
        × (tpm_connection p w fuel 0 false ≡ connection s (w.tick_count 0)))
      ⊎ ((found (w.tpm 0) ≡ none)
          × (((e : Exception) × (w.provision_device 0 ≡ err e)
                × (tpm_connection p w fuel 0 false ≡ threw e))
              ⊎ ((w.provision_device 0 ≡ ok tt)
                  × (((s : Text) × (found (w.tpm 1) ≡ some s)
                        × (tpm_connection p w fuel 0 false ≡ connection s (w.tick_count 1)))
                      ⊎ ((found (w.tpm 1) ≡ none)
                          × (tpm_connection p w fuel 0 false ≡ threw dps_failed))))))
unfolding tpm_connection
tpm_connection_with_dps p w zero d f = absurd (omega arith)
tpm_connection_with_dps p w (suc zero) d f = absurd (omega arith)
tpm_connection_with_dps p w (suc (suc fuel)) d f = elim (Option-cases (found (w.tpm 0))) [
  | inr (s, h) ↦ inl (s, h, rw (h, tpm_connection))
  | inl h ↦ elim (Result-cases (w.provision_device 0)) [
    | inr (e, g) ↦ inr (h, inl (e, g, ground (arith, h, g, d)))
    | inl (_, g) ↦ elim (Option-cases (found (w.tpm 1))) [
      | inr (s, k) ↦ inr (h, inr (g, inl (s, k, ground (arith, h, g, d, k))))
      | inl k ↦ inr (h, inr (g, inr (k, ground (arith, h, g, d, k))))
    ]
  ]
]

without_dps_from :
    (p : Parameters) (w : Sources) (fuel i n : ℕ) (s : Text)
    → p.dps_enabled ≡ false
    → ((j : ℕ) → j < n → found (w.tpm j) ≡ none)
    → found (w.tpm n) ≡ some s
    → i ≤ n
    → n < i + fuel
    → tpm_connection p w fuel i false ≡ connection s (w.tick_count n)
unfolding tpm_connection
without_dps_from p w zero i n s d before at le f = absurd (omega arith)
without_dps_from p w (suc fuel) i n s d before at le f = elim (Bool-cases (i == n)) [
  | inl e ↦
      let same : i ≡ n = ground arith in
      let at_i : found (w.tpm i) ≡ some s = ap (λ k. found (w.tpm k)) same ∙ at in
      rw (at_i, tpm_connection) (ap (λ k. connection s (w.tick_count k)) same)
  | inr ne ↦
      let first = before i (ground arith) in
      let rest = without_dps_from p w fuel (i + 1) n s d before at (ground arith) (omega arith) in
      ground (arith, rest, first, d)
]

-- Without provisioning, the loop of GetConnectionString waits until the TPM has an answer: where
-- there is one, it returns the first, with the time stamp of that round.
pub tpm_connection_without_dps :
    (p : Parameters) (w : Sources) (n fuel : ℕ) (s : Text)
    → p.dps_enabled ≡ false
    → ((j : ℕ) → j < n → found (w.tpm j) ≡ none)
    → found (w.tpm n) ≡ some s
    → n < fuel
    → tpm_connection p w fuel 0 false ≡ connection s (w.tick_count n)
tpm_connection_without_dps p w n fuel s d before at f =
    without_dps_from p w fuel 0 n s d before at (omega arith) (omega arith)
