-- ===== src/Transport/Pipe.antt =====
-- WriteMessage and ReadMessage of code/device-agent/common/Plugins/PluginNamedPipeBaseTransport.cpp.
-- The pipe is the operating system's; here it is what WriteFile and ReadFile do to it.
pub mod Reading
pub mod Exchange
pub mod Examples
use azure_client_tools.Base.{
  ℕ, zero, suc, ◌+◌, ◌-◌, ◌%◌, ◌^◌, ◌≤◌, ◌<◌, ◌≡◌, Bool, true, false, not, ◌||◌, ◌&&◌, List, [],
  ◌∷◌, ◌++◌, Option, none, some, length, take, drop, ltb, ◌==◌, if◌then◌else◌, Result, ok, err,
  ◌>>=◌, require, codes, pos,
}
use azure_client_tools.Reporting.{Exception, dm}
use azure_client_tools.Transport.Bytes.{Bytes, le_bytes, of_le_bytes}
use azure_client_tools.Transport.Packets.{
  Packet, Message, max_payload_size, size_mod, message_to_packets, packets_to_message,
}

-- What WriteFile returns, and the number of bytes written.
pub record Write (S : Type 0) : Type 0 where
  pub pipe : S
  pub succeeded : Bool
  pub written : ℕ

-- What ReadFile returns, and whether the last error is ERROR_MORE_DATA.
pub record Read (S : Type 0) : Type 0 where
  pub pipe : S
  pub succeeded : Bool
  pub more_data : Bool
  pub bytes : Bytes

pub record Pipe : Type 1 where
  pub State : Type 0
  pub write_file : State → Bytes → Write State
  pub read_file : State → ℕ → Read State

-- An open pipe with PIPE_TYPE_MESSAGE and PIPE_READMODE_MESSAGE, as the documentation of Windows
-- describes it: what one call writes is one unit, and a reader with a buffer that is too short gets the
-- rest of the unit with its next call.
pub record IsMessageMode (P : Pipe) : Type 0 where
  pub units : P.State → List Bytes
  pub write_succeeds : (s : P.State) (b : Bytes) → (P.write_file s b).succeeded ≡ true
  pub write_all : (s : P.State) (b : Bytes) → (P.write_file s b).written ≡ length b
  pub write_units : (s : P.State) (b : Bytes) → units (P.write_file s b).pipe ≡ units s ++ b ∷ []
  pub read_unit :
      (s : P.State) (n : ℕ) (b : Bytes) (rest : List Bytes)
      → units s ≡ b ∷ rest
      → length b ≤ n
      → ((P.read_file s n).succeeded ≡ true)
        × ((P.read_file s n).bytes ≡ b)
        × (units (P.read_file s n).pipe ≡ rest)
  pub read_part :
      (s : P.State) (n : ℕ) (b : Bytes) (rest : List Bytes)
      → units s ≡ b ∷ rest
      → n < length b
      → ((P.read_file s n).more_data ≡ true)
        × ((P.read_file s n).bytes ≡ take n b)
        × (units (P.read_file s n).pipe ≡ drop n b ∷ rest)

-- Three `size_t`.
abbrev pub packet_header_size : ℕ
packet_header_size = 24

-- The bytes of a packet from its start on, as far as its payload goes.
unfoldable pub packet_bytes : Packet → Bytes
packet_bytes p =
    le_bytes 8 p.index
    ++ (le_bytes 8 p.count ++ (le_bytes 8 p.payload_size ++ take p.payload_size p.payload))

unfoldable pub write_failed : Exception
write_failed = dm (record {
  subsystem = codes "Windows";
  code = pos 0;
  message = codes "WriteFile to named pipe failed";
})

-- The packet that the bytes of a header make, before its payload is read; what they lack stays 0.
unfoldable pub packet_of_header : Bytes → Packet
packet_of_header b = record {
  index = of_le_bytes (take 8 b);
  count = of_le_bytes (take 8 (drop 8 b));
  payload_size = of_le_bytes (take 8 (drop 16 b));
  payload = [];
}

-- How the loop of ReadMessage ends. `overflowed` is undefined behaviour: more bytes were read into a
-- payload than it holds.
pub data Gathered (S : Type 0) : Type 0 where
  gathered : List Packet → S → Gathered S
  ended : S → Gathered S
  overflowed : Gathered S
  running : Gathered S

-- What ReadMessage returns.
pub data Received (S : Type 0) : Type 0 where
  received : Message → S → Received S
  null_message : S → Received S
  undefined : Received S
  unfinished : Received S

module _ (P : Pipe) where
  open P use {State, write_file, read_file}

  -- The loop of WriteMessage.
  unfoldable pub write_packets : List Packet → State → Result Exception State
  unfolding packet_bytes
  write_packets [] s = ok s
  write_packets (p ∷ ps) s =
      let to_write = (packet_header_size + p.payload_size) % 2 ^ 32 in
      let w = write_file s (take to_write (packet_bytes p)) in
      (require (w.succeeded && (to_write == w.written)) write_failed >>= λ _.
      write_packets ps w.pipe)

  unfoldable pub write_message : Message → State → Result Exception State
  unfolding write_packets
  write_message m s = write_packets (message_to_packets m) s

  -- One round of the loop of ReadMessage: its packet, where it gets one.
  pub data Round : Type 0 where
    packet : Packet → State → Round
    no_packet : State → Round
    too_long : Round

  round_of_payload : Packet → Read State → Round
  round_of_payload p r =
      if not r.succeeded || (length r.bytes == 0)
      then no_packet r.pipe
      else if ltb max_payload_size (length r.bytes)
      then too_long
      else packet (record p { payload = r.bytes }) r.pipe

  round_of_header : Read State → Round
  unfolding round_of_payload packet_of_header
  round_of_header h =
      let p = packet_of_header h.bytes in
      let payload = read_file h.pipe (p.payload_size % 2 ^ 32) in
      if (not h.succeeded && not h.more_data) || (length h.bytes == 0)
      then no_packet h.pipe
      else if p.payload_size == 0
      then packet p h.pipe
      else round_of_payload p payload

  unfoldable pub read_packet : State → Round
  unfolding round_of_header
  read_packet s = round_of_header (read_file s packet_header_size)

  -- `packet.index == packet.count - 1`, modulo 2^64.
  abbrev is_last : Packet → Bool
  is_last p = p.index == (p.count + size_mod - 1) % size_mod

  unfoldable pub read_packets : ℕ → State → List Packet → Gathered State
  unfolding read_packet
  read_packets zero s packets = running
  read_packets (suc fuel) s packets = elim (read_packet s) [
    | packet p s' ↦
        let rest = read_packets fuel s' (packets ++ p ∷ []) in
        if is_last p then gathered (packets ++ p ∷ []) s' else rest
    | no_packet s' ↦ ended s'
    | too_long ↦ overflowed
  ]

  received_of : Option Message → State → Received State
  received_of none s = undefined
  received_of (some m) s = received m s

  unfoldable pub read_message : ℕ → State → Received State
  unfolding read_packets received_of
  read_message fuel s = elim (read_packets fuel s []) [
    | gathered packets s' ↦ received_of (packets_to_message packets) s'
    | ended s' ↦ null_message s'
    | overflowed ↦ undefined
    | running ↦ unfinished
  ]
