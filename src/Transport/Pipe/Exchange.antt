-- ===== src/Transport/Pipe/Exchange.antt =====
-- Messages that one end writes and the other end reads.
use azure_client_tools.Base.{
  ℕ, zero, suc, ◌+◌, ◌-◌, ◌*◌, ◌/◌, ◌%◌, ◌^◌, ◌≤◌, ◌<◌, ◌≡◌, refl, sym, ap, ◌∙◌, inl, inr, true,
  false, List, [], ◌∷◌, ◌++◌, Option, none, some, length, take, take_all, length-append, append-nil,
  append_assoc, ltb, ◌==◌, if◌then◌else◌, Result, ok, ◌>>=◌, arith, map, Bool-cases,
}
use azure_client_tools.Reporting.{Exception}
use azure_client_tools.Transport.Bytes.{Bytes}
use azure_client_tools.Transport.Packets.{
  Packet, Message, max_payload_size, size_mod, message_to_packets, packets_from, header,
  header_size,
}
use azure_client_tools.Transport.Packets.RoundTrip.{
  IsSendable, length-header, length-chunk, packets_to_message-message_to_packets,
}
use azure_client_tools.Transport.Pipe.{
  Pipe, IsMessageMode, packet_header_size, packet_bytes, gathered, received, write_packets,
  write_message, read_packets, read_message,
}
use azure_client_tools.Transport.Pipe.Reading.{
  IsWhole, length-packet_bytes, read_packet-packet_bytes,
}

-- The packets from the `i`th to the last of `count`.
abbrev IsStream : ℕ → ℕ → List Packet → Type 0
IsStream count i [] = i ≡ count
IsStream count i (p ∷ ps) =
    IsWhole p × (p.index ≡ i) × (p.count ≡ count) × (i < count) × IsStream count (i + 1) ps

packets_from-IsStream :
    (rounds i count size : ℕ) (dat : Bytes)
    → length dat < size_mod
    → i * max_payload_size + size ≡ length dat
    → rounds ≡ size / max_payload_size + 1
    → i + rounds ≡ count
    → count < size_mod
    → IsStream count i (packets_from rounds i count size dat)
unfolding packets_from
packets_from-IsStream zero i count size dat w e r c k = absurd (omega arith)
packets_from-IsStream (suc rounds) i count size dat w e r c k =
    let n = if ltb max_payload_size size then max_payload_size else size in
    let n_le : n ≤ size = ground arith in
    let n_max : n ≤ max_payload_size = ground arith in
    let rest : IsStream count (i + 1)
        (packets_from rounds (i + 1) count ((size + size_mod - max_payload_size) % size_mod) dat) =
      elim (Bool-cases (ltb size max_payload_size)) [
        | inl last ↦ let none_left : rounds ≡ 0 = ground arith in rw none_left (omega arith)
        | inr more ↦
            let le : max_payload_size ≤ size = ground arith in
            packets_from-IsStream rounds (i + 1) count
              ((size + size_mod - max_payload_size) % size_mod) dat w (omega arith) (omega arith)
              (omega arith) k
      ] in
    (
      record {
        index_fits = omega arith;
        count_fits = k;
        payload_fits = n_max;
        length_right = length-chunk (i * max_payload_size) n dat (omega arith);
      },
      refl,
      refl,
      omega arith,
      rest,
    )

-- The number of packets that MessageToPackets makes of a message.
abbrev pub packet_count : Message → ℕ
packet_count m = (header_size + length m.contents) / max_payload_size + 1

-- What a message needs: it is sendable, and the fuel is enough for its packets.
abbrev pub AllReadable : ℕ → List Message → Type 0
AllReadable fuel [] = Unit
AllReadable fuel (m ∷ ms) = IsSendable m × (packet_count m ≤ fuel) × AllReadable fuel ms

module _ (P : Pipe) where
  open P use {State}

  -- Messages that are written one after the other.
  unfoldable pub write_messages : List Message → State → Result Exception State
  write_messages [] s = ok s
  write_messages (m ∷ ms) s = write_message P m s >>= write_messages ms

  -- So many calls of ReadMessage, if each returns a message.
  unfoldable pub read_messages : ℕ → ℕ → State → Option (List Message × State)
  read_messages fuel zero s = some ([], s)
  read_messages fuel (suc n) s = elim (read_message P fuel s) [
    | received m s' ↦ elim (read_messages fuel n s') [
      | none ↦ none
      | some (ms, s'') ↦ some (m ∷ ms, s'')
    ]
    | _ ↦ none
  ]

module _ (P : Pipe) (laws : IsMessageMode P) where
  open P use {State, write_file, read_file}
  open laws use {units}

  write_packets-IsStream :
      (count i : ℕ) (ps : List Packet) (s : State)
      → IsStream count i ps
      → (s' : State) × (write_packets P ps s ≡ ok s') × (units s' ≡ units s ++ map packet_bytes ps)
  unfolding write_packets
  write_packets-IsStream count i [] s g = (s, refl, sym (append-nil (units s)))
  write_packets-IsStream count i (p ∷ ps) s (w, _, _, _, g) =
      let to_write = (packet_header_size + p.payload_size) % 2 ^ 32 in
      let len : to_write ≡ packet_header_size + p.payload_size = omega (arith, w.payload_fits) in
      let all : take to_write (packet_bytes p) ≡ packet_bytes p =
        take_all to_write (packet_bytes p) (omega (arith, length-packet_bytes p w)) in
      let r = write_file s (take to_write (packet_bytes p)) in
      let (s', e, u) = write_packets-IsStream count (i + 1) ps r.pipe g in
      (
        s',
        ground (
          arith,
          len,
          all,
          e,
          laws.write_succeeds s (packet_bytes p),
          laws.write_all s (packet_bytes p),
          length-packet_bytes p w,
        ),
        u
            ∙ ap (λ us. us ++ map packet_bytes ps)
                (laws.write_units s (take to_write (packet_bytes p)))
            ∙ rw (all, append_assoc),
      )

  read_packets-IsStream :
      (fuel count i : ℕ) (p : Packet) (ps acc : List Packet) (s : State) (rest : List Bytes)
      → IsStream count i (p ∷ ps)
      → units s ≡ map packet_bytes (p ∷ ps) ++ rest
      → length (p ∷ ps) ≤ fuel
      → (s' : State) × (read_packets P fuel s acc ≡ gathered (acc ++ p ∷ ps) s') × (units s' ≡ rest)
  unfolding read_packets
  read_packets-IsStream zero count i p ps acc s rest g u f = absurd (omega arith)
  read_packets-IsStream (suc fuel) count i p [] acc s rest (w, ix, ct, lt, g) u f =
      let (s', e, left) = read_packet-packet_bytes P laws p s rest w u in
      let last : (p.index == (p.count + size_mod - 1) % size_mod) ≡ true =
        ground (arith, w.count_fits) in
      (s', rw (e, read_packets) (rw last), left)
  read_packets-IsStream (suc fuel) count i p (q ∷ qs) acc s rest (w, ix, ct, lt, g) u f =
      let (s', e, left) =
        read_packet-packet_bytes P laws p s (map packet_bytes (q ∷ qs) ++ rest) w u in
      let (s'', e', left') =
        read_packets-IsStream fuel count (i + 1) q qs (acc ++ p ∷ []) s' rest g left
          (omega arith) in
      let more : (p.index == (p.count + size_mod - 1) % size_mod) ≡ false =
        ground (arith, w.count_fits, g) in
      (
        s'',
        rw (e, read_packets)
            (rw (more, e') (ap (λ l. gathered l s'') (append_assoc acc (p ∷ []) (q ∷ qs)))),
        left',
      )

  read_whole :
      (fuel count : ℕ) (ps : List Packet) (s : State) (rest : List Bytes)
      → IsStream count 0 ps
      → 0 < count
      → units s ≡ map packet_bytes ps ++ rest
      → length ps ≤ fuel
      → (s' : State) × (read_packets P fuel s [] ≡ gathered ps s') × (units s' ≡ rest)
  read_whole fuel count [] s rest g pos_count u f = absurd (omega (arith, g))
  read_whole fuel count (p ∷ ps) s rest g pos_count u f =
      read_packets-IsStream fuel count 0 p ps [] s rest g u f

  message_to_packets-IsStream :
      (m : Message) → IsSendable m → IsStream (packet_count m) 0 (message_to_packets m)
  unfolding message_to_packets
  message_to_packets-IsStream m v =
      let len : length (header m ++ m.contents) ≡ header_size + length m.contents =
        omega (arith, length-append (header m) m.contents, length-header m) in
      packets_from-IsStream (packet_count m) 0 (packet_count m) (header_size + length m.contents)
        (header m ++ m.contents) (omega (arith, v.fits)) (omega arith) refl (omega arith)
        (omega (arith, v.fits))

  length-IsStream : (count i : ℕ) (ps : List Packet) → IsStream count i ps → i + length ps ≡ count
  length-IsStream count i [] g = omega (arith, g)
  length-IsStream count i (p ∷ ps) (_, _, _, _, g) =
      omega (arith, length-IsStream count (i + 1) ps g)

  read_message-units :
      (fuel : ℕ) (m : Message) (s : State) (rest : List Bytes)
      → IsSendable m
      → units s ≡ map packet_bytes (message_to_packets m) ++ rest
      → packet_count m ≤ fuel
      → (s' : State) × (read_message P fuel s ≡ received m s') × (units s' ≡ rest)
  unfolding read_message
  read_message-units fuel m s rest v u f =
      let g = message_to_packets-IsStream m v in
      let (s', e, left) =
        read_whole fuel (packet_count m) (message_to_packets m) s rest g (omega arith) u
          (omega (arith, f, length-IsStream (packet_count m) 0 (message_to_packets m) g)) in
      (s', rw (e, read_message) (rw (packets_to_message-message_to_packets m v)), left)

  write_message-units :
      (m : Message) (s : State)
      → IsSendable m
      → (s' : State) × (write_message P m s ≡ ok s')
        × (units s' ≡ units s ++ map packet_bytes (message_to_packets m))
  unfolding write_message
  write_message-units m s v =
      write_packets-IsStream (packet_count m) 0 (message_to_packets m) s
        (message_to_packets-IsStream m v)

  -- The units of messages, in order.
  unfoldable all_units : List Message → List Bytes
  all_units [] = []
  all_units (m ∷ ms) = map packet_bytes (message_to_packets m) ++ all_units ms

  write_messages-units :
      (fuel : ℕ) (ms : List Message) (s : State)
      → AllReadable fuel ms
      → (s' : State) × (write_messages P ms s ≡ ok s') × (units s' ≡ units s ++ all_units ms)
  unfolding write_messages all_units
  write_messages-units fuel [] s v = (s, refl, sym (append-nil (units s)))
  write_messages-units fuel (m ∷ ms) s (v, _, vs) =
      let (s', e, u) = write_message-units m s v in
      let (s'', e', u') = write_messages-units fuel ms s' vs in
      (
        s'',
        rw e e',
        u'
            ∙ ap (λ us. us ++ all_units ms) u
            ∙ append_assoc (units s) (map packet_bytes (message_to_packets m)) (all_units ms),
      )

  read_messages-units :
      (fuel : ℕ) (ms : List Message) (s : State)
      → AllReadable fuel ms
      → units s ≡ all_units ms
      → (s' : State) × (read_messages P fuel (length ms) s ≡ some (ms, s')) × (units s' ≡ [])
  unfolding read_messages all_units
  read_messages-units fuel [] s v u = (s, refl, u)
  read_messages-units fuel (m ∷ ms) s (v, f, vs) u =
      let (s', e, left) = read_message-units fuel m s (all_units ms) v u f in
      let (s'', e', left') = read_messages-units fuel ms s' vs left in
      (s'', rw (e, read_messages) (rw e'), left')

  -- Sendable messages that WriteMessage writes into an empty pipe in message mode, one after the other,
  -- are all written without an exception, and so many calls of ReadMessage at the other end return
  -- exactly these messages in this order and leave the pipe empty. Each call ends after as many rounds as
  -- its message has packets.
  pub read_messages-write_messages :
      (fuel : ℕ) (ms : List Message) (s : State)
      → AllReadable fuel ms
      → units s ≡ []
      → (s' s'' : State) × (write_messages P ms s ≡ ok s')
        × (read_messages P fuel (length ms) s' ≡ some (ms, s''))
        × (units s'' ≡ [])
  read_messages-write_messages fuel ms s v empty =
      let (s', e, u) = write_messages-units fuel ms s v in
      let (s'', e', left) =
        read_messages-units fuel ms s' v (u ∙ ap (λ us. us ++ all_units ms) empty) in
      (s', s'', e, e', left)
