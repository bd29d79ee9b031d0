-- ===== src/Dot1x/Modules.antt =====
-- subset/dot1x/authenticator/eap_module.py and radius_module.py: the queues of messages to be sent and
-- the table of RADIUS packets.
use daq.Base.{
  ℕ, ◌+◌, ◌*◌, ◌%◌, String, Bool, true, Option, none, some, List, [], ◌∷◌, ◌++◌, if◌then◌else◌,
  nat_eq, string_eq, pair_eq,
}
use daq.Base.Dict.{Dict, insert}

-- `identity_message`: an IdentityMessage with its identity; `failure_message`: a FailureMessage;
-- `other_message`: any other message or the bytes of one, by a number.
pub data EapMessage : Type 0 where
  identity_message : String → EapMessage
  failure_message : EapMessage
  other_message : ℕ → EapMessage

pub record RadiusPacketInfo : Type 0 where
  pub payload : EapMessage
  pub src_mac : String
  pub identity : Option String
  pub state : Option ℕ
  pub port_id : ℕ

pub data PacketType : Type 0 where
  access_reject access_accept access_challenge : PacketType

-- A thread takes messages from `outbound_message_queue`, where None only wakes it up; `sent` is what it
-- has given to the socket. `receive_eap_messages` sets `authenticator_mac`, the octets of an address.
pub record EapModule : Type 0 where
  pub authenticator_mac : List ℕ
  pub outbound_message_queue : List (Option (String × EapMessage))
  pub shut_down : Bool
  pub sent : List (String × EapMessage)

-- `packet_id_to_mac` and `packet_id_to_request_authenticator` are filled together.
pub record RadiusModule : Type 0 where
  pub outbound_message_queue : List (Option RadiusPacketInfo)
  pub next_radius_id : ℕ
  pub packet_id_to_mac : Dict ℕ (String × ℕ)
  pub packet_id_to_request_authenticator : Dict ℕ ℕ
  pub shut_down : Bool
  pub sent : List (ℕ × RadiusPacketInfo)

unfoldable pub send_packed_eap_message : String × EapMessage → EapModule → EapModule
send_packed_eap_message message e = record e {
  outbound_message_queue = e.outbound_message_queue ++ some message ∷ [];
}

-- The request for an identity.
unfoldable pub send_eapol_response : String → EapModule → EapModule
unfolding send_packed_eap_message
send_eapol_response src_mac e = send_packed_eap_message (src_mac, identity_message "") e

unfoldable pub send_eap_message : String → EapMessage → EapModule → EapModule
unfolding send_packed_eap_message
send_eap_message src_mac message e = send_packed_eap_message (src_mac, message) e

-- A round of the loop of `send_eap_messages`; where the queue is empty the thread waits.
unfoldable pub send_eap_round : EapModule → EapModule
send_eap_round e = if e.shut_down then e else elim e.outbound_message_queue [
  | [] ↦ e
  | none ∷ queue ↦ record e { outbound_message_queue = queue }
  | some message ∷ queue ↦ record e {
    outbound_message_queue = queue;
    sent = e.sent ++ message ∷ [];
  }
]

unfoldable pub shut_down_eap : EapModule → EapModule
shut_down_eap e = record e {
  shut_down = true;
  outbound_message_queue = e.outbound_message_queue ++ none ∷ [];
}

-- The last three octets of an address, the last two together; none where it raises.
unfoldable pub port_id_to_int : List ℕ → Option ℕ
port_id_to_int (_ ∷ _ ∷ _ ∷ dp ∷ port_half_1 ∷ port_half_2 ∷ []) =
    some (dp * 65536 + (port_half_1 * 256 + port_half_2))
port_id_to_int _ = none

unfoldable pub get_next_radius_packet_id : RadiusModule → ℕ × RadiusModule
get_next_radius_packet_id r =
    (r.next_radius_id, record r { next_radius_id = (r.next_radius_id + 1) % 256 })

-- What `_encode_radius_response` keeps of the packet; `fresh` is the request authenticator that
-- `os.urandom` gives.
unfoldable pub encode_radius_response : ℕ → RadiusPacketInfo → RadiusModule → ℕ × RadiusModule
unfolding get_next_radius_packet_id
encode_radius_response fresh info r =
    let (radius_packet_id, s) = get_next_radius_packet_id r in
    (
      radius_packet_id,
      record s {
        packet_id_to_mac = insert radius_packet_id (info.src_mac, info.port_id) s.packet_id_to_mac;
        packet_id_to_request_authenticator =
            insert radius_packet_id fresh s.packet_id_to_request_authenticator;
      },
    )

unfoldable pub send_radius_packet : RadiusPacketInfo → RadiusModule → RadiusModule
send_radius_packet info r = record r {
  outbound_message_queue = r.outbound_message_queue ++ some info ∷ [];
}

-- A round of the loop of `send_radius_messages`.
unfoldable pub send_radius_round : ℕ → RadiusModule → RadiusModule
unfolding encode_radius_response
send_radius_round fresh r = if r.shut_down then r else elim r.outbound_message_queue [
  | [] ↦ r
  | none ∷ queue ↦ record r { outbound_message_queue = queue }
  | some info ∷ queue ↦
      (let (radius_packet_id, s) =
          encode_radius_response fresh info (record r { outbound_message_queue = queue }) in
        record s { sent = s.sent ++ (radius_packet_id, info) ∷ [] })
]

unfoldable pub shut_down_radius : RadiusModule → RadiusModule
shut_down_radius r = record r {
  shut_down = true;
  outbound_message_queue = r.outbound_message_queue ++ none ∷ [];
}
