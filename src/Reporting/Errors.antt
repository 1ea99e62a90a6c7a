-- ===== src/Reporting/Errors.antt =====
-- ReportedError.cpp, ReportedErrorList.cpp and Operation::RunOperation of Operation.cpp.
pub mod Outcomes
use azure_client_tools.Base.{
  ℕ, suc, ◌+◌, ◌≤◌, ◌<◌, ◌≡◌, ◌↔◌, refl, ◌⊎◌, inl, inr, Bool, true, false, List, [], ◌∷◌, Option,
  none, some, arith, Text, codes, Map, insert, lookup, lookup-insert, text_eq, text_eq_iff,
  text_eq_refl, length, ℤ, pos, negsuc, Result, ok, err, ◌==◌, if◌then◌else◌, Bool-cases, All,
}
use azure_client_tools.Reporting.{
  DeploymentStatus, succeeded, failed, DmException, Exception, dm, std,
}

-- JsonErrorSubsystemUnknown.
abbrev pub subsystem_unknown : Text
subsystem_unknown = codes "unknown"

-- JsonErrorGenericCode.
abbrev pub generic_code : ℤ
generic_code = negsuc 0

pub record ReportedError : Type 0 where
  pub subsystem : Text
  pub context : Text
  pub code : ℤ
  pub message : Text
  pub parameters : Map Text

unfoldable pub new_error : ReportedError
new_error = record {
  subsystem = subsystem_unknown;
  context = [];
  code = pos 0;
  message = [];
  parameters = [];
}

unfoldable pub add_parameters : Text → Text → ReportedError → ReportedError
add_parameters name value e = record e { parameters = insert name value e.parameters }

abbrev pub ErrorList : Type 0
ErrorList = Map ReportedError

unfoldable pub add_error : Text → ReportedError → ErrorList → ErrorList
add_error operation_id e errors = insert operation_id e errors

unfoldable pub count_errors : ErrorList → ℕ
count_errors errors = length errors

unfoldable pub remove_all : ErrorList → ErrorList
remove_all errors = []

-- What the `catch` clauses of RunOperation make of an exception.
unfoldable pub error_of : Text → Exception → ReportedError
unfolding new_error
error_of sub_group_id (dm e) = record new_error {
  context = sub_group_id;
  subsystem = e.subsystem;
  code = e.code;
  message = e.message;
}
error_of sub_group_id (std what) = record new_error {
  context = sub_group_id;
  subsystem = subsystem_unknown;
  code = generic_code;
  message = what;
}

-- RunOperation catches DMException and std::exception, the two kinds of Exception; others would leave
-- it and are not modelled.
--
-- The new state of what the action changes, the new error list and whether the action returned. An
-- action that throws keeps what it had changed.
pub record Ran {ℓ} (S : Type ℓ) : Type ℓ where
  pub state : S
  pub errors : ErrorList
  pub passed : Bool

unfoldable pub run_operation {ℓ} :
    {S : Type ℓ} → Text → ErrorList → (S → S × Option Exception) → S → Ran S
unfolding error_of add_error
run_operation sub_group_id errors action s =
    let (s', thrown) = action s in
    elim thrown [
      | none ↦ record { state = s'; errors = errors; passed = true }
      | some e ↦ record {
        state = s';
        errors = add_error sub_group_id (error_of sub_group_id e) errors;
        passed = false;
      }
    ]

-- The operations of a handler, one after the other, over one error list.
unfoldable pub run_operations {ℓ} :
    {S : Type ℓ} → List (Text × (S → S × Option Exception)) → ErrorList → S → S × ErrorList
run_operations [] errors s = (s, errors)
run_operations ((id, action) ∷ rest) errors s =
    let r = run_operation id errors action s in run_operations rest r.errors r.state

-- The status of HandlerBase::FinalizeAndReport.
unfoldable pub final_status : ErrorList → DeploymentStatus
unfolding count_errors
final_status errors = if count_errors errors == 0 then succeeded else failed

-- No operation of the list throws when the operations run in turn from a state.
abbrev pub NoneThrows {ℓ} : {S : Type ℓ} → List (Text × (S → S × Option Exception)) → S → Type 0
NoneThrows [] s = Unit
NoneThrows ((id, action) ∷ rest) s = ((action s).1 ≡ none) × NoneThrows rest (action s).0
