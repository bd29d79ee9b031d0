-- ===== src/Dot1x/Settled.antt =====
-- subset/dot1x/authenticator/authenticator.py: what holds of a device that has its result.
use daq.Base.{
  String, ◌≡◌, ◌≢◌, Bool, Option, none, some, [], ◌∷◌, arith, nat_eq, string_eq, All, pair_eq,
}
use daq.Base.Dict.{Dict, values, get, insert, erase, get-insert, get-erase}
use daq.Dot1x.Modules.{EapMessage, RadiusPacketInfo}
use daq.Dot1x.Machine.{
  AuthStateMachine, Authenticator, process_test_result, send_eap_response, send_radius_request,
}

-- Each state machine is kept by its own address.
abbrev pub IsKeyed : Dict String AuthStateMachine → Type 0
IsKeyed [] = Unit
IsKeyed ((mac, m) ∷ d) = (m.src_mac ≡ mac) × IsKeyed d

-- The device has the result, and no state machine.
pub record IsSettled (mac : String) (result : Bool) (a : Authenticator) : Type 0 where
  pub recorded : get mac a.results ≡ some result
  pub gone : get mac a.state_machines ≡ none
  pub keyed : IsKeyed a.state_machines

pub IsKeyed-insert :
    (mac : String) (m : AuthStateMachine) (d : Dict String AuthStateMachine)
    → m.src_mac ≡ mac
    → IsKeyed d
    → IsKeyed (insert mac m d)
IsKeyed-insert mac m [] same h = (same, tt)
IsKeyed-insert mac m ((k, n) ∷ d) same h =
    ground (arith, IsKeyed-insert mac m d same h.1, string_eq.beq_iff mac k)

IsKeyed-erase :
    (mac : String) (d : Dict String AuthStateMachine) → IsKeyed d → IsKeyed (erase mac d)
IsKeyed-erase mac [] h = tt
IsKeyed-erase mac ((k, n) ∷ d) h = ground (arith, IsKeyed-erase mac d h.1)

pub get-IsKeyed :
    (mac : String) (m : AuthStateMachine) (d : Dict String AuthStateMachine)
    → IsKeyed d
    → get mac d ≡ some m
    → m.src_mac ≡ mac
get-IsKeyed mac m ((k, n) ∷ d) h found =
    ground (arith, get-IsKeyed mac m d h.1, h.0, string_eq.beq_iff mac k)
get-IsKeyed mac m [] h found = ground arith

pub values-IsKeyed :
    (mac : String) (d : Dict String AuthStateMachine)
    → IsKeyed d
    → get mac d ≡ none
    → All (λ m. m.src_mac ≢ mac) (values d)
values-IsKeyed mac [] h gone = tt
values-IsKeyed mac ((k, n) ∷ d) h gone = (
  λ same. ground (arith, gone, h.0, string_eq.beq_iff mac k),
  values-IsKeyed mac d h.1 (ground (arith, gone)),
)

module _ (mac : String) (result : Bool) where
  pub result-IsSettled :
      (src_mac : String) (is_success : Bool) (a : Authenticator)
      → src_mac ≢ mac
      → IsSettled mac result a
      → IsSettled mac result (process_test_result (some src_mac) is_success a).1
  unfolding process_test_result
  result-IsSettled src_mac is_success a ne h = record {
    recorded = ground (
      arith,
      h.recorded,
      get-insert mac src_mac is_success a.results,
      string_eq.beq_iff mac src_mac,
    );
    gone = ground (arith, h.gone, get-erase mac src_mac a.state_machines);
    keyed = ground (arith, IsKeyed-erase src_mac a.state_machines h.keyed);
  }

  pub eap-IsSettled :
      (src_mac : String) (message : Option EapMessage) (a : Authenticator)
      → IsSettled mac result a
      → IsSettled mac result (send_eap_response src_mac message a)
  unfolding send_eap_response
  eap-IsSettled src_mac none a h = record { recorded = h.recorded; gone = h.gone; keyed = h.keyed }
  eap-IsSettled src_mac (some message) a h = record {
    recorded = h.recorded;
    gone = h.gone;
    keyed = h.keyed;
  }

  pub radius-IsSettled :
      (info : RadiusPacketInfo) (a : Authenticator)
      → IsSettled mac result a
      → IsSettled mac result (send_radius_request info a)
  unfolding send_radius_request
  radius-IsSettled info a h = record { recorded = h.recorded; gone = h.gone; keyed = h.keyed }
