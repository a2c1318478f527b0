-- ===== src/Proto/Data/Derived/Tags.antt =====
-- `FrameType` of dersp/src/proto/data.rs as the input of the macros of codec-derive/src/lib.rs.
use dersp.Prelude.{ℕ, none, [], ◌∷◌}
use Prim.Native.String.{String}
use dersp.Proto.Data.FrameType.{FrameType}
use dersp.Derive.Syntax.{DeriveInput, Attribute, Variant, enum_of, unnamed_fields, unit_fields}
use dersp.Derive.Meaning.{Object}
use dersp.Proto.Data.Derived.Program.{syn, program, no_tokens, in_parens, u8_type, byte}

abbrev pub tagged : String → ℕ → Variant syn
tagged name n = record {
  attrs = record { path = "tag" ∷ []; tokens = in_parens n } ∷ [];
  ident = name;
  fields = unit_fields;
}

abbrev pub unknown_attribute : Attribute syn
unknown_attribute = record { path = "unknown" ∷ []; tokens = no_tokens }

abbrev pub frame_type_input : DeriveInput syn
frame_type_input = record {
  attrs = [];
  ident = "FrameType";
  generics = [];
  body = enum_of (
      tagged "ServerKey" 0x01
      ∷ tagged "ClientInfo" 0x02
      ∷ tagged "ServerInfo" 0x03
      ∷ tagged "SendPacket" 0x04
      ∷ tagged "RecvPacket" 0x05
      ∷ tagged "KeepAlive" 0x06
      ∷ tagged "NotePreferred" 0x07
      ∷ tagged "PeerGone" 0x08
      ∷ tagged "PeerPresent" 0x09
      ∷ tagged "ForwardPacket" 0x0A
      ∷ tagged "WatchConns" 0x10
      ∷ tagged "ClosePeer" 0x11
      ∷ tagged "Ping" 0x12
      ∷ tagged "Pong" 0x13
      ∷ tagged "ControlMessage" 0x14
      ∷ record {
        attrs = unknown_attribute ∷ [];
        ident = "Unkonow";
        fields =
            unnamed_fields
              (record { attrs = unknown_attribute ∷ []; ident = none; ty = u8_type } ∷ []);
      }
      ∷ []);
}

abbrev pub frame_type_object : FrameType → Object program
frame_type_object FrameType.server_key = record {
  path = "FrameType" ∷ "ServerKey" ∷ [];
  slots = [];
}
frame_type_object FrameType.client_info = record {
  path = "FrameType" ∷ "ClientInfo" ∷ [];
  slots = [];
}
frame_type_object FrameType.server_info = record {
  path = "FrameType" ∷ "ServerInfo" ∷ [];
  slots = [];
}
frame_type_object FrameType.send_packet = record {
  path = "FrameType" ∷ "SendPacket" ∷ [];
  slots = [];
}
frame_type_object FrameType.recv_packet = record {
  path = "FrameType" ∷ "RecvPacket" ∷ [];
  slots = [];
}
frame_type_object FrameType.keep_alive = record {
  path = "FrameType" ∷ "KeepAlive" ∷ [];
  slots = [];
}
frame_type_object FrameType.note_preferred = record {
  path = "FrameType" ∷ "NotePreferred" ∷ [];
  slots = [];
}
frame_type_object FrameType.peer_gone = record { path = "FrameType" ∷ "PeerGone" ∷ []; slots = [] }
frame_type_object FrameType.peer_present = record {
  path = "FrameType" ∷ "PeerPresent" ∷ [];
  slots = [];
}
frame_type_object FrameType.forward_packet = record {
  path = "FrameType" ∷ "ForwardPacket" ∷ [];
  slots = [];
}
frame_type_object FrameType.watch_conns = record {
  path = "FrameType" ∷ "WatchConns" ∷ [];
  slots = [];
}
frame_type_object FrameType.close_peer = record {
  path = "FrameType" ∷ "ClosePeer" ∷ [];
  slots = [];
}
frame_type_object FrameType.ping = record { path = "FrameType" ∷ "Ping" ∷ []; slots = [] }
frame_type_object FrameType.pong = record { path = "FrameType" ∷ "Pong" ∷ []; slots = [] }
frame_type_object FrameType.control_message = record {
  path = "FrameType" ∷ "ControlMessage" ∷ [];
  slots = [];
}
frame_type_object (FrameType.unkonow t) = record {
  path = "FrameType" ∷ "Unkonow" ∷ [];
  slots = (none, byte t) ∷ [];
}
