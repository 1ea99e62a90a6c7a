-- ===== src/Transport/Pipe/Examples.antt =====
-- A pipe in message mode that is a list of units, and two messages that go through it.
use azure_client_tools.Base.{
  ℕ, ◌≤◌, ◌<◌, ◌≡◌, refl, true, false, List, [], ◌∷◌, ◌++◌, some, length, take, drop, ltb, arith,
  if◌then◌else◌, ok,
}
use azure_client_tools.Transport.Bytes.{Bytes}
use azure_client_tools.Transport.Packets.{Message, request, response, zeros}
use azure_client_tools.Transport.Packets.RoundTrip.{length-zeros}
use azure_client_tools.Transport.Pipe.{Pipe, Write, Read, IsMessageMode}
use azure_client_tools.Transport.Pipe.Exchange.{
  AllReadable, write_messages, read_messages, read_messages-write_messages,
}

abbrev write_unit : List Bytes → Bytes → Write (List Bytes)
write_unit us b = record { pipe = us ++ b ∷ []; succeeded = true; written = length b }

abbrev read_unit : List Bytes → ℕ → Read (List Bytes)
read_unit [] n = record { pipe = []; succeeded = false; more_data = false; bytes = [] }
read_unit (b ∷ us) n =
    if ltb n (length b)
    then record { pipe = drop n b ∷ us; succeeded = false; more_data = true; bytes = take n b }
    else record { pipe = us; succeeded = true; more_data = false; bytes = b }

abbrev unit_pipe : Pipe
unit_pipe = record { State = List Bytes; write_file = write_unit; read_file = read_unit }

read_unit_whole :
    (s : List Bytes) (n : ℕ) (b : Bytes) (rest : List Bytes)
    → s ≡ b ∷ rest
    → length b ≤ n
    → ((read_unit s n).succeeded ≡ true)
      × ((read_unit s n).bytes ≡ b)
      × ((read_unit s n).pipe ≡ rest)
read_unit_whole s n b rest e h = rw e (ground (arith, h))

read_unit_part :
    (s : List Bytes) (n : ℕ) (b : Bytes) (rest : List Bytes)
    → s ≡ b ∷ rest
    → n < length b
    → ((read_unit s n).more_data ≡ true)
      × ((read_unit s n).bytes ≡ take n b)
      × ((read_unit s n).pipe ≡ drop n b ∷ rest)
read_unit_part s n b rest e h = rw e (ground (arith, h))

abbrev message_mode : IsMessageMode unit_pipe
message_mode = record {
  units = λ s. s;
  write_succeeds = λ s b. refl;
  write_all = λ s b. refl;
  write_units = λ s b. refl;
  read_unit = read_unit_whole;
  read_part = read_unit_part;
}

abbrev short_message : Message
short_message = record {
  message_type = response;
  call_type = 0;
  error_code = 5;
  contents = 65 ∷ [];
}

abbrev long_message : Message
long_message = record {
  message_type = request;
  call_type = 2;
  error_code = 0;
  contents = zeros 30000;
}

readable : AllReadable 2 (long_message ∷ short_message ∷ [])
readable = (
  record {
    message_type_u32 = omega arith;
    call_type_u32 = omega arith;
    error_code_u32 = omega arith;
    fits = omega (arith, length-zeros 30000);
  },
  omega (arith, length-zeros 30000),
  (
    record {
      message_type_u32 = omega arith;
      call_type_u32 = omega arith;
      error_code_u32 = omega arith;
      fits = omega arith;
    },
    omega arith,
    tt,
  ),
)

read_messages-write_messages_example :
    (s' s'' : List Bytes) × (write_messages unit_pipe (long_message ∷ short_message ∷ []) []
      ≡ ok s')
    × (read_messages unit_pipe 2 2 s' ≡ some (long_message ∷ short_message ∷ [], s''))
    × (s'' ≡ [])
read_messages-write_messages_example =
    read_messages-write_messages unit_pipe message_mode 2 (long_message ∷ short_message ∷ []) []
      readable refl
