-- ===== src/Dot1x/Packets.antt =====
-- subset/dot1x/authenticator/radius_module.py: the numbers of RADIUS packets, which are used again after
-- 256 packets.
use daq.Base.{
  ℕ, ◌+◌, ◌%◌, ◌≤◌, ◌<◌, String, ◌≡◌, refl, some, List, [], ◌∷◌, arith, nat_eq, string_eq, length,
  pair_eq,
}
use daq.Base.Dict.{get, get-insert}
use daq.Dot1x.Modules.{RadiusPacketInfo, RadiusModule, encode_radius_response}

-- Packets that are encoded one after the other, each with its request authenticator.
abbrev pub encode_all : List (ℕ × RadiusPacketInfo) → RadiusModule → RadiusModule
encode_all [] r = r
encode_all ((fresh, info) ∷ packets) r = encode_all packets (encode_radius_response fresh info r).1

-- A number that was given `behind` packets before the next one stays in use for what is left of 256.
kept-packet_id :
    (packets : List (ℕ × RadiusPacketInfo)) (id behind fresh : ℕ) (owner : String × ℕ)
    (r : RadiusModule)
    → id < 256
    → 0 < behind
    → r.next_radius_id ≡ (id + behind) % 256
    → behind + length packets ≤ 256
    → get id r.packet_id_to_mac ≡ some owner
    → get id r.packet_id_to_request_authenticator ≡ some fresh
    → (get id (encode_all packets r).packet_id_to_mac ≡ some owner)
      × (get id (encode_all packets r).packet_id_to_request_authenticator ≡ some fresh)
unfolding encode_radius_response
kept-packet_id [] id behind fresh owner r small past next few mac auth = (mac, auth)
kept-packet_id ((f, info) ∷ packets) id behind fresh owner r small past next few mac auth =
    kept-packet_id packets id (behind + 1) fresh owner (encode_radius_response f info r).1 small
      (omega arith) (omega (arith, next)) (omega arith)
      (ground (
        arith,
        mac,
        get-insert id r.next_radius_id (info.src_mac, info.port_id) r.packet_id_to_mac,
      ))
      (ground (arith, auth, get-insert id r.next_radius_id f r.packet_id_to_request_authenticator))

-- A RADIUS packet gets a number below 256, and the answer to it finds the device that the packet is about
-- and the request authenticator it was sent with, if fewer than 256 packets have been encoded since and
-- the next number was below 256.
pub encode_radius_response-packet_id :
    (fresh : ℕ) (info : RadiusPacketInfo) (packets : List (ℕ × RadiusPacketInfo)) (r : RadiusModule)
    → r.next_radius_id < 256
    → length packets < 256
    → let (id, s) = encode_radius_response fresh info r in
      (id < 256)
      × (s.next_radius_id < 256)
      × (get id (encode_all packets s).packet_id_to_mac ≡ some (info.src_mac, info.port_id))
      × (get id (encode_all packets s).packet_id_to_request_authenticator ≡ some fresh)
unfolding encode_radius_response
encode_radius_response-packet_id fresh info packets r small few =
    let kept =
      kept-packet_id packets r.next_radius_id 1 fresh (info.src_mac, info.port_id)
        (encode_radius_response fresh info r).1 small (omega arith) refl (omega arith)
        (ground (
          arith,
          get-insert r.next_radius_id r.next_radius_id (info.src_mac, info.port_id)
              r.packet_id_to_mac,
        ))
        (ground (
          arith,
          get-insert r.next_radius_id r.next_radius_id fresh r.packet_id_to_request_authenticator,
        )) in
    (small, omega arith, kept.0, kept.1)
