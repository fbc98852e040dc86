-- ===== src/Protocol/Ports.antt =====
-- The table of the ports (PORT_NAME_MAP of df10ch_setup_pkg/device_drv.py): which output a name
-- stands for.
use df10ch_atmolight_control.Prelude.{
  ℕ, ◌≡◌, refl, Bool, true, false, bit_and, ◌&&◌, not, List, [], ◌∷◌, Text, some, arith, ◌==◌,
  text_eq, text_eq→eq,
}
use df10ch_atmolight_control.Protocol.{Port, port_name_map, lookup_port}

-- Whether an output that drives `pins` of `port` drives the pin of this entry: the test of
-- ControllerConfig.read.
abbrev pub drives : ℕ → ℕ → ℕ × ℕ → Bool
drives out_port out_pins (port, pin) = out_port == port && not (bit_and out_pins pin == 0)

bool_eq : Bool → Bool → Bool
bool_eq true b = b
bool_eq false b = not b

all_ports : (Port → Bool) → List Port → Bool
all_ports p [] = true
all_ports p (e ∷ es) = p e && all_ports p es

abbrev separates : Port → Port → Bool
separates (n, (port, pin)) (m, other) = bool_eq (drives port pin other) (text_eq n m)

port_table : all_ports (λ e. all_ports (separates e) port_name_map) port_name_map ≡ true
unfolding all_ports bool_eq text_eq port_name_map
port_table = refl

lookup-all_ports :
    (p : Port → Bool) (es : List Port) (name : Text) (out : ℕ × ℕ)
    → all_ports p es ≡ true
    → lookup_port name es ≡ some out
    → p (name, out) ≡ true
unfolding all_ports lookup_port
lookup-all_ports p [] name out h l = cc
lookup-all_ports p ((n, o) ∷ es) name out h l =
    ground (arith, lookup-all_ports p es name out, text_eq→eq n name)

-- The output of one name drives the pin of another exactly if the names are the same.
pub port-drives_iff :
    (name other : Text) (port pin : ℕ) (out : ℕ × ℕ)
    → lookup_port name port_name_map ≡ some (port, pin)
    → lookup_port other port_name_map ≡ some out
    → drives port pin out ≡ text_eq name other
unfolding bool_eq
port-drives_iff name other port pin out h k = ground (
  arith,
  lookup-all_ports (separates (name, (port, pin))) port_name_map other out
      (lookup-all_ports (λ e. all_ports (separates e) port_name_map) port_name_map name (port, pin)
        port_table h)
      k,
)

idle_table : all_ports (λ e. not (drives 0 0 e.1)) port_name_map ≡ true
unfolding all_ports port_name_map
idle_table = refl

-- An entry of the channel map without pins drives no output.
pub idle-drives :
    (name : Text) (out : ℕ × ℕ) → lookup_port name port_name_map ≡ some out → drives 0 0 out ≡ false
idle-drives name out h =
    not_true (drives 0 0 out)
      (lookup-all_ports (λ e. not (drives 0 0 e.1)) port_name_map name out idle_table h)
  where
    not_true : (b : Bool) → not b ≡ true → b ≡ false
    not_true true e = cc
    not_true false e = refl
