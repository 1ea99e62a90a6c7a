-- ===== src/Transport/Packets.antt =====
-- code/device-agent/common/Plugins/Message.h, Message.cpp and the packets of
-- PluginNamedPipeBaseTransport.cpp. A `size_t` is 64 bits wide; `none` is undefined behaviour (an
-- access out of bounds, or to bytes that were never written).
pub mod RoundTrip
pub mod Examples
use azure_client_tools.Base.{
  ℕ, zero, suc, ◌+◌, ◌-◌, ◌*◌, ◌/◌, ◌%◌, ◌^◌, ◌≡◌, refl, List, [], ◌∷◌, ◌++◌, Option, none, some,
  length, take, drop, ltb, if◌then◌else◌,
}
use azure_client_tools.Transport.Bytes.{Bytes, le_bytes, of_le_bytes}

-- IPC_BUFFER_SIZE less the three `size_t` of the header.
abbrev pub max_payload_size : ℕ
max_payload_size = 20456

abbrev pub size_mod : ℕ
size_mod = 2 ^ 64

-- `payload` is what has been written into the array, from its start.
pub record Packet : Type 0 where
  pub index : ℕ
  pub count : ℕ
  pub payload_size : ℕ
  pub payload : Bytes

-- The enums are kept as the 32-bit numbers that are sent.
pub record Message : Type 0 where
  pub message_type : ℕ
  pub call_type : ℕ
  pub error_code : ℕ
  pub contents : Bytes

abbrev pub undefined_message : ℕ
undefined_message = 0

abbrev pub request : ℕ
request = 1

abbrev pub response : ℕ
response = 2

abbrev pub header_size : ℕ
header_size = 12

-- The three fields at the start of a Message.
unfoldable pub header : Message → Bytes
header m = le_bytes 4 m.message_type ++ (le_bytes 4 m.call_type ++ le_bytes 4 m.error_code)

-- The loop of MessageToPackets, with the rounds left; `size` wraps around in the last one.
unfoldable pub packets_from : ℕ → ℕ → ℕ → ℕ → Bytes → List Packet
packets_from zero i packet_count size to_write = []
packets_from (suc rounds) i packet_count size to_write =
    let n = if ltb max_payload_size size then max_payload_size else size in
    record {
      index = i;
      count = packet_count;
      payload_size = n;
      payload = take n (drop (i * max_payload_size) to_write);
    }
    ∷ packets_from rounds (i + 1) packet_count ((size + size_mod - max_payload_size) % size_mod)
        to_write

unfoldable pub message_to_packets : Message → List Packet
unfolding packets_from header
message_to_packets m =
    let to_write = header m ++ m.contents in
    let size = header_size + length m.contents in
    let packet_count = size / max_payload_size + 1 in
    packets_from packet_count 0 packet_count size to_write

unfoldable pub total_size : List Packet → ℕ
total_size [] = 0
total_size (p ∷ ps) = p.payload_size + total_size ps

unfoldable pub zeros : ℕ → Bytes
zeros zero = []
zeros (suc n) = 0 ∷ zeros n

-- memcpy of `n` bytes of `from` to `buffer + offset`.
unfoldable pub copy_to : ℕ → ℕ → Bytes → Bytes → Option Bytes
copy_to offset n from buffer =
    if ltb (length from) n
    then none
    else if ltb (length buffer) (offset + n)
    then none
    else some (take offset buffer ++ (take n from ++ drop (offset + n) buffer))

infixl 5 ◌>>=◌
abbrev pub ◌>>=◌ {ℓ κ} : {A : Type ℓ} {B : Type κ} → Option A → (A → Option B) → Option B
none >>= f = none
some a >>= f = f a

-- The second loop of PacketsToMessage.
unfoldable pub copy_packets : List Packet → ℕ → Bytes → Option Bytes
unfolding copy_to
copy_packets [] i buffer = some buffer
copy_packets (p ∷ ps) i buffer = do
  b ← copy_to (i * max_payload_size) p.payload_size p.payload buffer
  copy_packets ps (i + 1) b

unfoldable pub message_of_bytes : Bytes → Option Message
message_of_bytes b =
    if ltb (length b) header_size
    then none
    else some (record {
      message_type = of_le_bytes (take 4 b);
      call_type = of_le_bytes (take 4 (drop 4 b));
      error_code = of_le_bytes (take 4 (drop 8 b));
      contents = drop header_size b;
    })

unfoldable pub packets_to_message : List Packet → Option Message
unfolding copy_packets message_of_bytes total_size zeros
packets_to_message ps = do b ← copy_packets ps 0 (zeros (total_size ps)); message_of_bytes b
