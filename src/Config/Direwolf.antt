-- ===== src/Config/Direwolf.antt =====
-- The cross-check against a configuration of Direwolf, `check_direwolf_conf` of src/config.rs. The file
-- is given as its text, or as absent where it cannot be read.
use rfircd.Prelude.{
  ℕ, ◌*◌, Bool, true, List, [], ◌∷◌, Option, none, some, Text, Result, ◌>>=◌, ◌>>◌, guard, ok_or,
  map, ◌==◌, if◌then◌else◌,
}
use rfircd.Prelude.Chars.{is_whitespace, trim, split_by, parse_u32, ascii_upper, text_beq}
use rfircd.Irc.Message.{split}
use rfircd.Config.{DutyConfig}

pub data DirewolfError : Type 0 where
  unreadable no_modem : DirewolfError
  other_modem other_txdelay other_txtail : ℕ → DirewolfError

-- What the loop over the lines has found.
pub record Modem : Type 0 where
  pub baud : Option ℕ
  pub txdelay : Option ℕ
  pub txtail : Option ℕ

abbrev pub no_modem_yet : Modem
no_modem_yet = record { baud = none; txdelay = none; txtail = none }

abbrev pub modem_key : Text
modem_key = b'M' ∷ b'O' ∷ b'D' ∷ b'E' ∷ b'M' ∷ []

abbrev pub txdelay_key : Text
txdelay_key = b'T' ∷ b'X' ∷ b'D' ∷ b'E' ∷ b'L' ∷ b'A' ∷ b'Y' ∷ []

abbrev pub txtail_key : Text
txtail_key = b'T' ∷ b'X' ∷ b'T' ∷ b'A' ∷ b'I' ∷ b'L' ∷ []

-- `first().and_then(parse)` of the words behind the key.
unfoldable pub first_number : List Text → Option ℕ
unfolding parse_u32
first_number [] = none
first_number (w ∷ ws) = parse_u32 w

abbrev pub or_else : Option ℕ → Option ℕ → Option ℕ
or_else none old = old
or_else (some v) old = some v

-- A line, as its words: a `MODEM` without a number leaves what was found, the others do not.
unfoldable pub read_words : Modem → List Text → Modem
unfolding first_number text_beq
read_words m [] = m
read_words m (w ∷ ws) =
    let key = map ascii_upper w in
    if text_beq key modem_key
    then record m { baud = or_else (first_number ws) m.baud }
    else if text_beq key txdelay_key
    then record m { txdelay = first_number ws }
    else if text_beq key txtail_key
    then record m { txtail = first_number ws }
    else m

-- What is before the first `#`.
abbrev pub uncommented : Text → Text
uncommented line = elim (split b'#' line) [ [] ↦ [] | w ∷ ws ↦ w ]

-- `lines` also drops the CR at the end of a line, which `trim` does here.
unfoldable pub read_line : Modem → Text → Modem
unfolding read_words split trim split_by
read_line m raw = read_words m (split_by is_whitespace (trim (uncommented raw)))

unfoldable pub read_lines : Modem → List Text → Modem
unfolding read_line
read_lines m [] = m
read_lines m (raw ∷ raws) = read_lines (read_line m raw) raws

-- A number of units of 10 ms against a number of milliseconds.
abbrev pub agrees : Option ℕ → ℕ → Bool
agrees none ms = true
agrees (some units) ms = units * 10 == ms

abbrev pub units_of : Option ℕ → ℕ
units_of none = 0
units_of (some units) = units

unfoldable pub check_modem : Modem → DutyConfig → Result DirewolfError (Unit {0})
check_modem m duty = ok_or m.baud no_modem >>= λ baud.
    guard (baud == duty.baud) (other_modem baud)
    >> guard (agrees m.txdelay duty.txdelay_ms) (other_txdelay (units_of m.txdelay))
    >> guard (agrees m.txtail duty.txtail_ms) (other_txtail (units_of m.txtail))

unfoldable pub check_direwolf_conf : Option Text → DutyConfig → Result DirewolfError (Unit {0})
unfolding read_lines check_modem split
check_direwolf_conf file duty =
    ok_or file unreadable >>= λ text. check_modem (read_lines no_modem_yet (split 10 text)) duty
