-- ===== src/Samples.antt =====
-- A small JSON library and plug-ins to try the models on: they show that what the models assume of the
-- real ones can hold.
mod Documents
mod Written
mod Laws
pub use Documents.*
pub use Laws.{json-IsLawful}
use azure_client_tools.Base.{
  ℕ, ◌+◌, ◌≡◌, refl, Bool, true, false, List, [], ◌∷◌, ◌++◌, Option, none, some, Text, text_eq,
  codes, ℤ, pos, if◌then◌else◌, ok, arith,
}
use azure_client_tools.Reporting.{pending}
use azure_client_tools.Host.{Handlers, Called, Hub, RawHandlerInfo, AzureRawHost}

-- A handler that counts its calls; it is active, and answers with code 200.
pub record Counter : Type 0 where
  pub id : Text
  pub calls : ℕ

abbrev pub called : {A : Type 0} → Counter → A → Called Counter A
called c a = record { handler = record c { calls = c.calls + 1 }; outcome = ok a }

abbrev pub counters : Handlers json
counters = record {
  Handler = Counter;
  get_id = λ c. c.id;
  start = λ c config. called c true;
  stop = λ c. c;
  on_connection_status_changed = λ c online. called c tt;
  set_deployment_status = λ c status. called c tt;
  get_deployment_status_json = λ c. ok (json.empty_object);
  invoke = λ c v. called c (record { is_present = true; code = pos 200; payload = [] });
  create_raw_handler = λ id. ok (record { id = id; calls = 0 });
}

abbrev pub open_hub : Hub
open_hub = record { accepts = λ n. true; now = λ n. codes "2019-01-01T00:00:00" }

abbrev pub handler_a : RawHandlerInfo Counter
handler_a = record {
  is_active = true;
  raw_handler = record { id = codes "a"; calls = 0 };
  dependencies = codes "b" ∷ [];
}

-- "a" depends on "b"; both are active.
abbrev pub two_handlers : AzureRawHost Counter Value
two_handlers = record {
  has_device_client = true;
  has_module_client = false;
  reported_sections_summary = record {
    id = codes "__summary";
    deployment_status = pending;
    sections = [];
    deployments = [];
  };
  raw_handler_map =
      (codes "a", handler_a)
      ∷ (
        codes "b",
        record {
          is_active = true;
          raw_handler = record { id = codes "b"; calls = 0 };
          dependencies = [];
        },
      )
      ∷ [];
  raw_handler_sequence = codes "b" ∷ codes "a" ∷ [];
  sent = [];
}
