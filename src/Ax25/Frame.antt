-- ===== src/Ax25/Frame.antt =====
-- AX.25 frames, src/ax25/frame.rs: construction of UI frames, `encode`, `decode` and the line for
-- the monitor.
pub mod Roundtrip
pub mod Accepts
use rfircd.Prelude.{
  ℕ, suc, zero, ◌+◌, ◌*◌, Bool, true, false, not, ◌&&◌, ◌||◌, List, [], ◌∷◌, ◌++◌, map, Option,
  none, some, Bytes, Text, Result, ok, err, ◌>>=◌, ◌>>◌, guard, ok_or, Fault, error, fail, bit_and,
  ltb, leb, ◌==◌, if◌then◌else◌, length, is_empty,
}
use rfircd.Prelude.Slices.{slice_from, get_from}
use rfircd.Prelude.{get_elem?}
use rfircd.Callsign.{Callsign, to_string}
use rfircd.Ax25.{Ax25Error, truncated, bad_address, too_many_digipeaters}
use rfircd.Ax25.Address
use rfircd.Ax25.Address.{Address, address_len}

abbrev pub control_ui : ℕ
control_ui = 0x03

abbrev pub pid_no_l3 : ℕ
pid_no_l3 = 0xF0

abbrev pub max_digipeaters : ℕ
max_digipeaters = 8

pub record Ax25Frame : Type 0 where
  pub destination : Address
  pub source : Address
  pub digipeaters : List Address
  pub control : ℕ
  pub pid : Option ℕ
  pub info : Bytes

unfoldable pub ui : Callsign → Callsign → List Callsign → Bytes → Result (Fault Ax25Error) Ax25Frame
ui source destination path info =
    if ltb max_digipeaters (length path)
    then fail too_many_digipeaters
    else ok (record {
      destination = Address.with_c_bit (Address.new destination) true;
      source = Address.new source;
      digipeaters = map Address.new path;
      control = control_ui;
      pid = some pid_no_l3;
      info = info;
    })

-- The test of `is_ui`, on the control octet.
abbrev pub is_ui_control : ℕ → Bool
is_ui_control control = bit_and control 0xEF == control_ui

-- I and UI frames carry a PID.
abbrev pub carries_pid : ℕ → Bool
carries_pid control = is_ui_control control || bit_and control 0x01 == 0

unfoldable pub is_ui : Ax25Frame → Bool
is_ui f = is_ui_control f.control

-- The digipeaters, with the extension bit on the last.
unfoldable pub encode_digipeaters : List Address → Bytes
encode_digipeaters [] = []
encode_digipeaters (d ∷ ds) =
    Address.encode (record d { last = is_empty ds }) ++ encode_digipeaters ds

abbrev pub pid_octets : Option ℕ → Bytes
pid_octets none = []
pid_octets (some p) = p ∷ []

unfoldable pub encode : Ax25Frame → Bytes
encode f =
    Address.encode (record (f.destination) { last = false })
    ++ (Address.encode (record (f.source) { last = is_empty f.digipeaters })
        ++ (encode_digipeaters f.digipeaters ++ (f.control ∷ (pid_octets f.pid ++ f.info))))

-- The loop over the digipeaters, with the room that is left under `max_digipeaters`. The result has
-- the offset behind them.
unfoldable pub decode_digipeaters :
    ℕ → Bytes → ℕ → Bool → Result (Fault Ax25Error) (List Address × ℕ)
decode_digipeaters room buf offset true = ok ([], offset)
decode_digipeaters zero buf offset false = fail too_many_digipeaters
decode_digipeaters (suc room) buf offset false = do
  rest ← ok_or (get_from buf offset) (error truncated)
  digi ← Address.decode rest
  (digis, end) ← decode_digipeaters room buf (offset + address_len) digi.last
  ok (digi ∷ digis, end)

abbrev pub octet_at : Bytes → ℕ → Result (Fault Ax25Error) ℕ
octet_at buf i = ok_or (get_elem? buf i) (error truncated)

-- The PID and the information field behind a control octet at `offset - 1`.
unfoldable pub decode_tail : Bytes → ℕ → ℕ → Result (Fault Ax25Error) (Option ℕ × Bytes)
decode_tail buf control offset =
    if carries_pid control
    then (octet_at buf offset >>= λ pid.
        slice_from buf (offset + 1) >>= λ info. ok (some pid, info))
    else ok (none, [])

abbrev pub normal : Address → Address
normal a = record a { last = false }

unfoldable pub decode : Bytes → Result (Fault Ax25Error) Ax25Frame
decode buf = do
  destination ← Address.decode buf
  guard (not destination.last) (error bad_address)
  rest ← slice_from buf address_len
  source ← Address.decode rest
  (digis, offset) ← decode_digipeaters max_digipeaters buf (address_len * 2) source.last
  control ← octet_at buf offset
  (pid, info) ← decode_tail buf control (offset + 1)
  ok (record {
    destination = normal destination;
    source = normal source;
    digipeaters = map normal digis;
    control = control;
    pid = pid;
    info = info;
  })

unfoldable pub monitor_path : List Address → Text
monitor_path [] = []
monitor_path (d ∷ ds) =
    (b',' ∷ (to_string d.call ++ (if d.c_bit then b'*' ∷ [] else []))) ++ monitor_path ds

abbrev pub monitor_char : ℕ → ℕ
monitor_char b = if leb 0x20 b && ltb b 0x7f then b else b'.'

unfoldable pub to_monitor_line : Ax25Frame → Text
to_monitor_line f =
    to_string f.source.call
    ++ (b'>'
        ∷ (to_string f.destination.call
            ++ (monitor_path f.digipeaters ++ (b':' ∷ map monitor_char f.info))))
