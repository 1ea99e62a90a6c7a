-- ===== src/Transport/Pipe/Reading.antt =====
-- What WriteMessage writes to a pipe in message mode, ReadMessage reads.
use azure_client_tools.Base.{
  ◌+◌, ◌%◌, ◌^◌, ◌≤◌, ◌<◌, ◌≡◌, ap, ◌∙◌, inl, inr, true, List, [], ◌∷◌, ◌++◌, length, take, drop,
  take_all, length-take, length-append, append-nil, append_assoc, ◌==◌, arith, Bool-cases,
}
use azure_client_tools.Transport.Bytes.{
  Bytes, le_bytes, length-le_bytes, of_le_bytes-le_bytes, take_prefix, drop_prefix,
}
use azure_client_tools.Transport.Packets.{Packet, max_payload_size, size_mod}
use azure_client_tools.Transport.Pipe.{
  Pipe, Read, IsMessageMode, packet_header_size, packet_bytes, packet_of_header, packet,
  read_packet, round_of_header, round_of_payload,
}

-- The fields fit a `size_t`, and the payload is as long as the header says and fits its array.
pub record IsWhole (p : Packet) : Type 0 where
  pub index_fits : p.index < size_mod
  pub count_fits : p.count < size_mod
  pub payload_fits : p.payload_size ≤ max_payload_size
  pub length_right : length p.payload ≡ p.payload_size

pub length-packet_bytes :
    (p : Packet) → IsWhole p → length (packet_bytes p) ≡ packet_header_size + p.payload_size
unfolding packet_bytes
length-packet_bytes p w = omega (
  arith,
  length-append (le_bytes 8 p.index)
      (le_bytes 8 p.count ++ (le_bytes 8 p.payload_size ++ take p.payload_size p.payload)),
  length-append (le_bytes 8 p.count) (le_bytes 8 p.payload_size ++ take p.payload_size p.payload),
  length-append (le_bytes 8 p.payload_size) (take p.payload_size p.payload),
  length-le_bytes 8 p.index,
  length-le_bytes 8 p.count,
  length-le_bytes 8 p.payload_size,
  length-take p.payload_size p.payload,
  w.length_right,
)

words : Packet → Bytes
words p = le_bytes 8 p.index ++ (le_bytes 8 p.count ++ le_bytes 8 p.payload_size)

length-words : (p : Packet) → length (words p) ≡ packet_header_size
unfolding words
length-words p = omega (
  arith,
  length-append (le_bytes 8 p.index) (le_bytes 8 p.count ++ le_bytes 8 p.payload_size),
  length-append (le_bytes 8 p.count) (le_bytes 8 p.payload_size),
  length-le_bytes 8 p.index,
  length-le_bytes 8 p.count,
  length-le_bytes 8 p.payload_size,
)

packet_bytes-words : (p : Packet) → IsWhole p → packet_bytes p ≡ words p ++ p.payload
unfolding packet_bytes words
packet_bytes-words p w =
    rw (take_all p.payload_size p.payload (omega (arith, w.length_right))) (simp append_assoc)

packet_of_header-words :
    (p : Packet) → IsWhole p → packet_of_header (words p) ≡ record p { payload = [] }
unfolding packet_of_header words
packet_of_header-words p w = ground (
  arith,
  take_prefix 8 (le_bytes 8 p.index) (le_bytes 8 p.count ++ le_bytes 8 p.payload_size)
      (length-le_bytes 8 p.index),
  drop_prefix 8 (le_bytes 8 p.index) (le_bytes 8 p.count ++ le_bytes 8 p.payload_size)
      (length-le_bytes 8 p.index),
  take_prefix 8 (le_bytes 8 p.count) (le_bytes 8 p.payload_size) (length-le_bytes 8 p.count),
  third,
  take_all 8 (le_bytes 8 p.payload_size) (omega (arith, length-le_bytes 8 p.payload_size)),
  of_le_bytes-le_bytes 8 p.index (omega (arith, w.index_fits)),
  of_le_bytes-le_bytes 8 p.count (omega (arith, w.count_fits)),
  of_le_bytes-le_bytes 8 p.payload_size (omega (arith, w.payload_fits)),
)
  where
    third :
        drop 16 (le_bytes 8 p.index ++ (le_bytes 8 p.count ++ le_bytes 8 p.payload_size))
        ≡ le_bytes 8 p.payload_size
    third =
        rw (← append_assoc (le_bytes 8 p.index) (le_bytes 8 p.count) (le_bytes 8 p.payload_size)) (
          drop_prefix 16 (le_bytes 8 p.index ++ le_bytes 8 p.count) (le_bytes 8 p.payload_size) (
            omega (
              arith,
              length-append (le_bytes 8 p.index) (le_bytes 8 p.count),
              length-le_bytes 8 p.index,
              length-le_bytes 8 p.count,
            )))

module _ (P : Pipe) (laws : IsMessageMode P) where
  open P use {State, write_file, read_file}
  open laws use {units}

  round_of_header-empty :
      (h : Read State) (p : Packet)
      → h.succeeded ≡ true
      → length h.bytes ≡ packet_header_size
      → packet_of_header h.bytes ≡ p
      → p.payload_size ≡ 0
      → round_of_header P h ≡ packet p h.pipe
  unfolding round_of_header
  round_of_header-empty h p s l e z = ground (arith, s, l, e, z)

  round_of_header-full :
      (h : Read State) (p : Packet) (b : Bytes)
      → h.more_data ≡ true
      → length h.bytes ≡ packet_header_size
      → packet_of_header h.bytes ≡ p
      → 0 < p.payload_size
      → p.payload_size ≤ max_payload_size
      → length b ≡ p.payload_size
      → let r = read_file h.pipe p.payload_size in
        r.succeeded ≡ true
        → r.bytes ≡ b
        → round_of_header P h ≡ packet (record p { payload = b }) r.pipe
  unfolding round_of_header round_of_payload
  round_of_header-full h p b m l e pos_size fits lb s rb =
      let same : (packet_of_header h.bytes).payload_size % 2 ^ 32 ≡ p.payload_size =
        omega (arith, ap (λ q. q.payload_size) e) in
      ground (arith, m, l, e, lb, s, rb, same)

  -- A whole packet that is the next unit of the pipe is read as it was.
  pub read_packet-packet_bytes :
      (p : Packet) (s : State) (rest : List Bytes)
      → IsWhole p
      → units s ≡ packet_bytes p ∷ rest
      → (s' : State) × (read_packet P s ≡ packet p s') × (units s' ≡ rest)
  unfolding read_packet
  read_packet-packet_bytes p s rest w u = elim (Bool-cases (p.payload_size == 0)) [
    | inl z ↦
        let none_left : p.payload ≡ [] = ground (arith, w.length_right) in
        let (ok_read, bytes, left) =
          laws.read_unit s packet_header_size (packet_bytes p) rest u
            (ground (arith, length-packet_bytes p w)) in
        let same : (read_file s packet_header_size).bytes ≡ words p =
          bytes ∙ packet_bytes-words p w ∙ rw (none_left, append-nil) in
        (
          _,
          round_of_header-empty (read_file s packet_header_size) p ok_read
              (ap length same ∙ length-words p)
              (ap packet_of_header same ∙ packet_of_header-words p w ∙ ground (arith, none_left))
              (ground arith),
          left,
        )
    | inr n ↦
        let (more, bytes, left) =
          laws.read_part s packet_header_size (packet_bytes p) rest u
            (ground (arith, length-packet_bytes p w)) in
        let same : (read_file s packet_header_size).bytes ≡ words p =
          bytes
          ∙ ap (take packet_header_size) (packet_bytes-words p w)
          ∙ take_prefix packet_header_size (words p) p.payload (length-words p) in
        let part : drop packet_header_size (packet_bytes p) ≡ p.payload =
          ap (drop packet_header_size) (packet_bytes-words p w)
          ∙ drop_prefix packet_header_size (words p) p.payload (length-words p) in
        let (ok_read, payload, gone) =
          laws.read_unit (read_file s packet_header_size).pipe p.payload_size p.payload rest
            (left ∙ ap (λ b. b ∷ rest) part) (omega (arith, w.length_right)) in
        (
          _,
          round_of_header-full (read_file s packet_header_size) (record p { payload = [] })
              p.payload more (ap length same ∙ length-words p)
              (ap packet_of_header same ∙ packet_of_header-words p w) (ground arith) w.payload_fits
              w.length_right ok_read payload,
          gone,
        )
  ]
