-- ===== src/Transport/Packets/RoundTrip.antt =====
-- A message that is cut into packets is put together again.
use azure_client_tools.Base.{
  ℕ, zero, suc, ◌+◌, ◌-◌, ◌*◌, ◌/◌, ◌%◌, ◌^◌, ◌≤◌, ◌<◌, ◌≡◌, refl, subst, ap, ◌++◌, some, arith,
  length, take, drop, take_all, drop_all, length-take, length-drop, length-append, ltb,
  if◌then◌else◌, Bool-cases, inl, inr, append-nil, append_assoc,
}
use azure_client_tools.Transport.Bytes.{
  Bytes, le_bytes, length-le_bytes, of_le_bytes-le_bytes, take_prefix, drop_prefix, take-add,
}
use azure_client_tools.Transport.Packets.{
  Message, max_payload_size, size_mod, header_size, header, packets_from, message_to_packets,
  total_size, zeros, copy_to, copy_packets, message_of_bytes, packets_to_message,
}

pub length-zeros : (n : ℕ) → length (zeros n) ≡ n
unfolding zeros
length-zeros zero = refl
length-zeros (suc n) = ap suc (length-zeros n)

pub length-chunk :
    (off n : ℕ) (dat : Bytes) → off + n ≤ length dat → length (take n (drop off dat)) ≡ n
length-chunk off n dat h = omega (arith, length-take n (drop off dat), length-drop off dat)

-- What a buffer holds after `n` bytes at `off` were written behind a part that is right.
abbrev extended : ℕ → ℕ → Bytes → Bytes → Bytes
extended off n dat buffer = take (off + n) dat ++ drop (off + n) buffer

copy_to-extended :
    (off n : ℕ) (dat buffer : Bytes)
    → length buffer ≡ length dat
    → off + n ≤ length dat
    → take off buffer ≡ take off dat
    → copy_to off n (take n (drop off dat)) buffer ≡ some (extended off n dat buffer)
unfolding copy_to
copy_to-extended off n dat buffer len fits good = ground (
  arith,
  length-chunk off n dat fits,
  take_all n (take n (drop off dat)) (omega (arith, length-chunk off n dat fits)),
  append_assoc (take off dat) (take n (drop off dat)) (drop (off + n) buffer),
  take-add off n dat,
)

length-extended :
    (off n : ℕ) (dat buffer : Bytes)
    → length buffer ≡ length dat
    → off + n ≤ length dat
    → length (extended off n dat buffer) ≡ length dat
length-extended off n dat buffer len fits = omega (
  arith,
  length-append (take (off + n) dat) (drop (off + n) buffer),
  length-take (off + n) dat,
  length-drop (off + n) buffer,
)

take-extended :
    (off n : ℕ) (dat buffer : Bytes)
    → off + n ≤ length dat
    → take (off + n) (extended off n dat buffer) ≡ take (off + n) dat
take-extended off n dat buffer fits =
    take_prefix (off + n) (take (off + n) dat) (drop (off + n) buffer)
      (omega (arith, length-take (off + n) dat))

extended_all :
    (off n : ℕ) (dat buffer : Bytes)
    → length buffer ≡ length dat
    → off + n ≡ length dat
    → extended off n dat buffer ≡ dat
extended_all off n dat buffer len e =
    rw (take_all (off + n) dat (omega arith), drop_all (off + n) buffer (omega arith), append-nil)

-- The packets of the bytes from the `i`th on, copied into a buffer that is right up to there.
copy_packets-packets_from :
    (rounds i packet_count size : ℕ) (dat buffer : Bytes)
    → length dat < size_mod
    → i * max_payload_size + size ≡ length dat
    → rounds ≡ size / max_payload_size + 1
    → length buffer ≡ length dat
    → take (i * max_payload_size) buffer ≡ take (i * max_payload_size) dat
    → copy_packets (packets_from rounds i packet_count size dat) i buffer ≡ some dat
unfolding copy_packets packets_from
copy_packets-packets_from zero i packet_count size dat buffer w e r len good = absurd (omega arith)
copy_packets-packets_from (suc rounds) i packet_count size dat buffer w e r len good =
    elim (Bool-cases (ltb size max_payload_size)) [
      | inl last ↦
          let n : (if ltb max_payload_size size then max_payload_size else size) ≡ size =
            ground arith in
          let none_left : rounds ≡ 0 = ground arith in
          rw
            (
              n,
              none_left,
              copy_to-extended (i * max_payload_size) size dat buffer len (omega arith) good,
            )
            (ap some (extended_all (i * max_payload_size) size dat buffer len (omega arith)))
      | inr more ↦
          let n : (if ltb max_payload_size size then max_payload_size else size)
              ≡ max_payload_size =
            ground arith in
          let le : max_payload_size ≤ size = ground arith in
          rw
            (
              n,
              copy_to-extended (i * max_payload_size) max_payload_size dat buffer len (omega arith)
                  good,
            )
            (copy_packets-packets_from rounds (i + 1) packet_count
              ((size + size_mod - max_payload_size) % size_mod) dat
              (extended (i * max_payload_size) max_payload_size dat buffer) w (omega arith)
              (omega arith)
              (length-extended (i * max_payload_size) max_payload_size dat buffer len (omega arith))
              (subst
                (λ k.
                  take k (extended (i * max_payload_size) max_payload_size dat buffer) ≡ take k dat)
                (omega arith)
                (take-extended (i * max_payload_size) max_payload_size dat buffer (omega arith))))
    ]

total_size-packets_from :
    (rounds i packet_count size : ℕ) (dat : Bytes)
    → size < size_mod
    → rounds ≡ size / max_payload_size + 1
    → total_size (packets_from rounds i packet_count size dat) ≡ size
unfolding total_size packets_from
total_size-packets_from zero i packet_count size dat w r = absurd (omega arith)
total_size-packets_from (suc zero) i packet_count size dat w r = ground arith
total_size-packets_from (suc (suc rounds)) i packet_count size dat w r =
    let rest =
      total_size-packets_from (suc rounds) (i + 1) packet_count
        ((size + size_mod - max_payload_size) % size_mod) dat (omega arith) (omega arith) in
    ground (arith, rest)

pub length-header : (m : Message) → length (header m) ≡ header_size
unfolding header
length-header m = omega (
  arith,
  length-append (le_bytes 4 m.message_type) (le_bytes 4 m.call_type ++ le_bytes 4 m.error_code),
  length-append (le_bytes 4 m.call_type) (le_bytes 4 m.error_code),
  length-le_bytes 4 m.message_type,
  length-le_bytes 4 m.call_type,
  length-le_bytes 4 m.error_code,
)

-- The three header fields are 32-bit numbers, and the whole message fits a `size_t`.
pub record IsSendable (m : Message) : Type 0 where
  pub message_type_u32 : m.message_type < 2 ^ 32
  pub call_type_u32 : m.call_type < 2 ^ 32
  pub error_code_u32 : m.error_code < 2 ^ 32
  pub fits : header_size + length m.contents < size_mod

-- The first three words of a sequence of bytes, and the rest.
take_words :
    (a b c d : Bytes)
    → length a ≡ 4
    → length b ≡ 4
    → length c ≡ 4
    → (take 4 ((a ++ (b ++ c)) ++ d) ≡ a)
      × (take 4 (drop 4 ((a ++ (b ++ c)) ++ d)) ≡ b)
      × (take 4 (drop 8 ((a ++ (b ++ c)) ++ d)) ≡ c)
      × (drop 12 ((a ++ (b ++ c)) ++ d) ≡ d)
take_words a b c d ha hb hc = (
  simp append_assoc (take_prefix 4 a (b ++ (c ++ d)) ha),
  simp (append_assoc, drop_prefix 4 a (b ++ (c ++ d)) ha) (take_prefix 4 b (c ++ d) hb),
  simp append_assoc (
      rw
        (
          ← append_assoc a b (c ++ d),
          drop_prefix 8 (a ++ b) (c ++ d) (omega (arith, length-append a b)),
        )
        (take_prefix 4 c d hc)),
  drop_prefix 12 (a ++ (b ++ c)) d (omega (arith, length-append a (b ++ c), length-append b c)),
)

message_of_bytes-header :
    (m : Message) → IsSendable m → message_of_bytes (header m ++ m.contents) ≡ some m
unfolding message_of_bytes
message_of_bytes-header m v =
    let (t0, t4, t8, d12) =
      take_words (le_bytes 4 m.message_type) (le_bytes 4 m.call_type) (le_bytes 4 m.error_code)
        m.contents (length-le_bytes 4 m.message_type) (length-le_bytes 4 m.call_type)
        (length-le_bytes 4 m.error_code) in
    unfold header in
    ground (
      arith,
      length-append (header m) m.contents,
      length-header m,
      t0,
      t4,
      t8,
      d12,
      of_le_bytes-le_bytes 4 m.message_type (omega arith),
      of_le_bytes-le_bytes 4 m.call_type (omega arith),
      of_le_bytes-le_bytes 4 m.error_code (omega arith),
    )

-- For a message whose three header fields are 32-bit numbers and whose size fits a size_t: cutting
-- it into packets and putting these together again gives the message back, whatever its length, a
-- multiple of the capacity of a packet included; no copy leaves its buffer.
pub packets_to_message-message_to_packets :
    (m : Message) → IsSendable m → packets_to_message (message_to_packets m) ≡ some m
unfolding packets_to_message message_to_packets
packets_to_message-message_to_packets m v =
    let to_write = header m ++ m.contents in
    let size = header_size + length m.contents in
    let len : length to_write ≡ size =
      omega (arith, length-append (header m) m.contents, length-header m) in
    let packet_count = size / max_payload_size + 1 in
    let packets = packets_from packet_count 0 packet_count size to_write in
    let same = total_size-packets_from packet_count 0 packet_count size to_write v.fits refl in
    rw
      (copy_packets-packets_from packet_count 0 packet_count size to_write
        (zeros (total_size packets)) (omega arith) (omega arith) refl
        (omega (arith, length-zeros (total_size packets))) refl)
      (message_of_bytes-header m v)
