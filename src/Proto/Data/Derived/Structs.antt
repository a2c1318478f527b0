-- ===== src/Proto/Data/Derived/Structs.antt =====
-- The structs of dersp/src/proto/data.rs and the key of dersp/src/crypto.rs as the input of the
-- macros of codec-derive/src/lib.rs.
use dersp.Prelude.{none, some, [], ◌∷◌}
use dersp.Crypto.Keys.{PublicKey}
use dersp.Proto.Data.Frames.{
  ServerKey, ClientInfo, ForwardPacket, Header, PeerPresent, RecvPacket, SendPacket, ServerInfo,
  WatchConns,
}
use dersp.Derive.Syntax.{DeriveInput}
use dersp.Derive.Meaning.{Object}
use dersp.Proto.Data.Derived.Program.{
  syn, program, plain_field, struct_input, tuple_input, u32_type, bytes_type, key_type,
  frame_type_type, array_type, word, array, bytes, key, frame_type,
}

abbrev pub server_key_input : DeriveInput syn
server_key_input =
    struct_input "ServerKey"
      (plain_field "magic" (array_type 8) ∷ plain_field "public_key" key_type ∷ [])

abbrev pub server_key_object : ServerKey → Object program
server_key_object x = record {
  path = "ServerKey" ∷ [];
  slots = (some "magic", array 8 x.magic) ∷ (some "public_key", key x.public_key) ∷ [];
}

abbrev pub client_info_input : DeriveInput syn
client_info_input = struct_input "ClientInfo" (
    plain_field "public_key" key_type
    ∷ plain_field "nonce" (array_type 24)
    ∷ plain_field "cipher_text" bytes_type
    ∷ [])

abbrev pub client_info_object : ClientInfo → Object program
client_info_object x = record {
  path = "ClientInfo" ∷ [];
  slots =
      (some "public_key", key x.public_key)
      ∷ (some "nonce", array 24 x.nonce)
      ∷ (some "cipher_text", bytes x.cipher_text)
      ∷ [];
}

abbrev pub server_info_input : DeriveInput syn
server_info_input = struct_input "ServerInfo" (plain_field "data" bytes_type ∷ [])

abbrev pub server_info_object : ServerInfo → Object program
server_info_object x = record {
  path = "ServerInfo" ∷ [];
  slots = (some "data", bytes x.bytes) ∷ [];
}

abbrev pub send_packet_input : DeriveInput syn
send_packet_input =
    struct_input "SendPacket"
      (plain_field "target" key_type ∷ plain_field "payload" bytes_type ∷ [])

abbrev pub send_packet_object : SendPacket → Object program
send_packet_object x = record {
  path = "SendPacket" ∷ [];
  slots = (some "target", key x.target) ∷ (some "payload", bytes x.payload) ∷ [];
}

abbrev pub recv_packet_input : DeriveInput syn
recv_packet_input =
    struct_input "RecvPacket"
      (plain_field "target" key_type ∷ plain_field "payload" bytes_type ∷ [])

abbrev pub recv_packet_object : RecvPacket → Object program
recv_packet_object x = record {
  path = "RecvPacket" ∷ [];
  slots = (some "target", key x.target) ∷ (some "payload", bytes x.payload) ∷ [];
}

abbrev pub forward_packet_input : DeriveInput syn
forward_packet_input = struct_input "ForwardPacket" (
    plain_field "source" key_type
    ∷ plain_field "target" key_type
    ∷ plain_field "payload" bytes_type
    ∷ [])

abbrev pub forward_packet_object : ForwardPacket → Object program
forward_packet_object x = record {
  path = "ForwardPacket" ∷ [];
  slots =
      (some "source", key x.source)
      ∷ (some "target", key x.target)
      ∷ (some "payload", bytes x.payload)
      ∷ [];
}

abbrev pub peer_present_input : DeriveInput syn
peer_present_input = struct_input "PeerPresent" (plain_field "public_key" key_type ∷ [])

abbrev pub peer_present_object : PeerPresent → Object program
peer_present_object x = record {
  path = "PeerPresent" ∷ [];
  slots = (some "public_key", key x.public_key) ∷ [];
}

abbrev pub watch_conns_input : DeriveInput syn
watch_conns_input = struct_input "WatchConns" (plain_field "data" bytes_type ∷ [])

abbrev pub watch_conns_object : WatchConns → Object program
watch_conns_object x = record {
  path = "WatchConns" ∷ [];
  slots = (some "data", bytes x.bytes) ∷ [];
}

abbrev pub header_input : DeriveInput syn
header_input =
    struct_input "Header"
      (plain_field "frame_type" frame_type_type ∷ plain_field "size" u32_type ∷ [])

abbrev pub header_object : Header → Object program
header_object x = record {
  path = "Header" ∷ [];
  slots = (some "frame_type", frame_type x.frame_type) ∷ (some "size", word x.size) ∷ [];
}

-- `PublicKey` of dersp/src/crypto.rs
abbrev pub public_key_input : DeriveInput syn
public_key_input = tuple_input "PublicKey" (array_type 32)

abbrev pub public_key_object : PublicKey → Object program
public_key_object k = record { path = "PublicKey" ∷ []; slots = (none, array 32 k.bytes) ∷ [] }
