-- ===== src/Transport/Packets/Examples.antt =====
-- A message that needs two packets.
use azure_client_tools.Base.{◌≡◌, some, arith}
use azure_client_tools.Transport.Packets.{
  Message, request, zeros, message_to_packets, packets_to_message,
}
use azure_client_tools.Transport.Packets.RoundTrip.{
  IsSendable, length-zeros, packets_to_message-message_to_packets,
}

abbrev long_message : Message
long_message = record {
  message_type = request;
  call_type = 7;
  error_code = 0;
  contents = zeros 30000;
}

long_message-IsSendable : IsSendable long_message
long_message-IsSendable = record {
  message_type_u32 = omega arith;
  call_type_u32 = omega arith;
  error_code_u32 = omega arith;
  fits = omega (arith, length-zeros 30000);
}

packets_to_message-message_to_packets_example :
    packets_to_message (message_to_packets long_message) ≡ some long_message
packets_to_message-message_to_packets_example =
    packets_to_message-message_to_packets long_message long_message-IsSendable
