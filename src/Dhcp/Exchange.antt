-- ===== src/Dhcp/Exchange.antt =====
-- daq/dhcp_monitor.py: a whole exchange of a device.
use daq.Base.{String, Bool, ◌||◌, List, [], ◌∷◌, if◌then◌else◌, ◌==◌, nat_eq, string_eq, pair_eq}
use daq.Dhcp.{DhcpLine, start, ip_line, mac_line, message_line}

-- The types that end an exchange.
abbrev pub is_reply : String → Bool
is_reply dhcp_type = dhcp_type == "ACK" || dhcp_type == "Offer"

abbrev pub exchange : Bool → String → String → String → List DhcpLine
exchange ip_first ip mac dhcp_type =
    start
    ∷ (if ip_first then ip_line ip else mac_line mac)
    ∷ (if ip_first then mac_line mac else ip_line ip)
    ∷ message_line dhcp_type
    ∷ []
