-- ===== src/Reporting/Errors/Outcomes.antt =====
-- What RunOperation records, and the status that follows from it.
use azure_client_tools.Base.{
  ◌≤◌, ◌<◌, ◌≡◌, ◌↔◌, refl, sym, subst, ap, ◌∙◌, codes, negsuc, text_eq_iff, ◌⊎◌, inl, inr, List,
  [], ◌∷◌, Option, none, some, arith, Text, lookup, lookup-insert, length-insert, length, text_eq,
  Bool-cases, Option-cases, ◌==◌, if◌then◌else◌,
}
use azure_client_tools.Reporting.{succeeded, failed, Exception, dm, std}
use azure_client_tools.Reporting.Errors.{
  ReportedError, new_error, ErrorList, error_of, run_operation, run_operations, final_status,
  count_errors, NoneThrows,
}

run_operation-state {ℓ} :
    {S : Type ℓ} (id : Text) (errors : ErrorList) (action : S → S × Option Exception) (s : S)
    → (run_operation id errors action s).state ≡ (action s).0
unfolding run_operation
run_operation-state id errors action s = ground arith

run_operation-grow {ℓ} :
    {S : Type ℓ} (id : Text) (errors : ErrorList) (action : S → S × Option Exception) (s : S)
    → (length errors ≤ length (run_operation id errors action s).errors)
      × (((action s).1 ≡ none) ⊎ (0 < length (run_operation id errors action s).errors))
unfolding run_operation
run_operation-grow id errors action s = elim (Option-cases (action s).1) [
  | inl h ↦ (rw (h, run_operation) (omega arith), inl h)
  | inr (e, h) ↦ (
    rw (h, run_operation) (length-insert id (error_of id e) errors).0,
    inr (rw (h, run_operation) (length-insert id (error_of id e) errors).1),
  )
]

run_operations-grow {ℓ} :
    {S : Type ℓ} (ops : List (Text × (S → S × Option Exception))) (errors : ErrorList) (s : S)
    → length errors ≤ length (run_operations ops errors s).1
unfolding run_operations
run_operations-grow [] errors s = omega arith
run_operations-grow ((id, action) ∷ ops) errors s =
    let r = run_operation id errors action s in
    omega
      (arith, (run_operation-grow id errors action s).0, run_operations-grow ops r.errors r.state)

errors_if_thrown {ℓ} :
    {S : Type ℓ} (ops : List (Text × (S → S × Option Exception))) (errors : ErrorList) (s : S)
    → length (run_operations ops errors s).1 ≡ 0
    → NoneThrows ops s
unfolding run_operations
errors_if_thrown [] errors s e = tt
errors_if_thrown {S} ((id, action) ∷ ops) errors s e =
    let r = run_operation id errors action s in
    let grow = run_operations-grow ops r.errors r.state in
    (
      elim (run_operation-grow id errors action s).1 [
        | inl h ↦ h
        | inr h ↦ absurd (omega (arith, h, grow, e))
      ],
      subst (NoneThrows ops) (run_operation-state id errors action s)
          (errors_if_thrown ops r.errors r.state e),
    )

run_operation-none {ℓ} :
    {S : Type ℓ} (id : Text) (errors : ErrorList) (action : S → S × Option Exception) (s : S)
    → (action s).1 ≡ none
    → (run_operation id errors action s).errors ≡ errors
unfolding run_operation
run_operation-none id errors action s h = rw (h, run_operation)

no_errors_if_none {ℓ} :
    {S : Type ℓ} (ops : List (Text × (S → S × Option Exception))) (errors : ErrorList) (s : S)
    → NoneThrows ops s
    → (run_operations ops errors s).1 ≡ errors
unfolding run_operations
no_errors_if_none [] errors s h = refl
no_errors_if_none ((id, action) ∷ ops) errors s h =
    let r = run_operation id errors action s in
    no_errors_if_none ops r.errors r.state
      (subst (NoneThrows ops) (sym (run_operation-state id errors action s)) h.1)
    ∙ run_operation-none id errors action s h.0

-- A handler that starts with an empty error list reports success exactly if none of its operations
-- threw, and failure otherwise.
pub final_status-run_operations {ℓ} :
    {S : Type ℓ} (ops : List (Text × (S → S × Option Exception))) (s : S)
    → ((final_status (run_operations ops [] s).1 ≡ succeeded) ↔ NoneThrows ops s)
      × (¬ NoneThrows ops s → final_status (run_operations ops [] s).1 ≡ failed)
unfolding final_status
final_status-run_operations ops s = (
  (λ e. errors_if_thrown ops [] s (ground (arith, e)), λ h. rw (no_errors_if_none ops [] s h)),
  λ n. elim (Bool-cases (count_errors (run_operations ops [] s).1 == 0)) [
    | inl z ↦ absurd (n (errors_if_thrown ops [] s (ground arith)))
    | inr z ↦ rw z
  ],
)

-- What the error list says of an exception of the operation of that name.
abbrev pub Describes : Text → Exception → ReportedError → Type 0
Describes id (dm e) r =
    (r.context ≡ id)
    × (r.subsystem ≡ e.subsystem)
    × (r.code ≡ e.code)
    × (r.message ≡ e.message)
    × (r.parameters ≡ [])
Describes id (std what) r =
    (r.context ≡ id)
    × (r.subsystem ≡ codes "unknown")
    × (r.code ≡ negsuc 0)
    × (r.message ≡ what)
    × (r.parameters ≡ [])

error_of-Describes : (id : Text) (e : Exception) → Describes id e (error_of id e)
unfolding error_of new_error
error_of-Describes id (dm e) = (refl, refl, refl, refl, refl)
error_of-Describes id (std what) = (refl, refl, refl, refl, refl)

-- The last exception of an operation of that name, each action being run from where the one before it
-- left, whether that threw or not.
unfoldable pub last_thrown {ℓ} :
    {S : Type ℓ} → List (Text × (S → S × Option Exception)) → S → Text → Option Exception
last_thrown [] s j = none
last_thrown ((id, action) ∷ rest) s j = elim (last_thrown rest (action s).0 j) [
  | some e ↦ some e
  | none ↦ if text_eq j id then (action s).1 else none
]

-- What the actions make of the state if all of them run.
unfoldable pub after_all {ℓ} : {S : Type ℓ} → List (Text × (S → S × Option Exception)) → S → S
after_all [] s = s
after_all ((id, action) ∷ rest) s = after_all rest (action s).0

-- The error under a name, in a list that grew from another one.
abbrev pub Reports : Option Exception → Text → ErrorList → ErrorList → Type 0
Reports none j errors errors' = lookup j errors' ≡ lookup j errors
Reports (some e) j errors errors' =
    (r : ReportedError) × (lookup j errors' ≡ some r) × Describes j e r

run_operation-Reports {ℓ} :
    {S : Type ℓ} (id j : Text) (errors : ErrorList) (action : S → S × Option Exception) (s : S)
    → Reports
        (if text_eq j id then (action s).1 else none)
        j
        errors
        (run_operation id errors action s).errors
unfolding run_operation
run_operation-Reports id j errors action s = elim (Option-cases (action s).1) [
  | inl h ↦ elim (Bool-cases (text_eq j id)) [
    | inl y ↦ rw (y, h, run_operation) refl
    | inr n ↦ rw (n, h, run_operation) refl
  ]
  | inr (e, h) ↦ elim (Bool-cases (text_eq j id)) [
    | inl y ↦
        rw (y, h, run_operation)
          (
            error_of id e,
            lookup-insert j id (error_of id e) errors ∙ rw y refl,
            subst (λ i. Describes i e (error_of id e)) (sym ((text_eq_iff j id).0 y))
                (error_of-Describes id e),
          )
    | inr n ↦ rw (n, h, run_operation) (lookup-insert j id (error_of id e) errors ∙ rw n refl)
  ]
]

Reports-kept :
    (o : Option Exception) (j : Text) (errors errors' errors'' : ErrorList)
    → lookup j errors'' ≡ lookup j errors'
    → Reports o j errors errors'
    → Reports o j errors errors''
Reports-kept none j errors errors' errors'' k r = k ∙ r
Reports-kept (some e) j errors errors' errors'' k (r, at, d) = (r, k ∙ at, d)

-- The operations of a handler all run, each from the state that the one before it left, also behind
-- one that threw. Of each name the error list then holds what the last exception of an operation of
-- that name says: its subsystem, code and message, or "unknown" and -1 with the text of an exception
-- that is none of the program's own, and the name as the context. Where none was thrown under a name
-- the list holds what it held.
pub run_operations-Reports {ℓ} :
    {S : Type ℓ} (ops : List (Text × (S → S × Option Exception))) (errors : ErrorList) (s : S)
    → ((run_operations ops errors s).0 ≡ after_all ops s)
      × ((j : Text) → Reports (last_thrown ops s j) j errors (run_operations ops errors s).1)
unfolding run_operations after_all last_thrown
run_operations-Reports [] errors s = (refl, λ j. refl)
run_operations-Reports ((id, action) ∷ ops) errors s =
    let r = run_operation id errors action s in
    let (state, reports) = run_operations-Reports ops r.errors r.state in
    let same = run_operation-state id errors action s in
    (
      state ∙ ap (after_all ops) same,
      λ j.
          let rest =
            subst
              (λ t.
                Reports (last_thrown ops t j) j r.errors (run_operations ops r.errors r.state).1)
              same (reports j) in
          elim (Option-cases (last_thrown ops (action s).0 j)) [
            | inr (e, h) ↦
                rw (h, last_thrown)
                  (subst (λ o. Reports o j r.errors (run_operations ops r.errors r.state).1) h rest)
            | inl h ↦
                let kept =
                  subst (λ o. Reports o j r.errors (run_operations ops r.errors r.state).1) h
                    rest in
                rw (h, last_thrown)
                  (Reports-kept (if text_eq j id then (action s).1 else none) j errors r.errors
                    (run_operations ops r.errors r.state).1 kept
                    (run_operation-Reports id j errors action s))
          ],
    )
