-- ===== src/Kiss.antt =====
-- KISS framing, src/ax25/kiss.rs: `encode` with its byte stuffing and the incremental decoder
-- `KissDecoder`. An octet is a number below 256; `&mut self` is the decoder passed in and out.
pub mod Decode
pub mod Stream
pub mod Bounds
use rfircd.Prelude.{
  ℕ, ◌+◌, ◌*◌, ◌/◌, ◌%◌, Bool, true, false, not, ◌&&◌, List, [], ◌∷◌, ◌++◌, Option, none, some,
  Bytes, bit_and, bit_or, ltb, leb, ◌==◌, if◌then◌else◌, length, is_empty,
}

abbrev pub fend : ℕ
fend = 0xC0

abbrev pub fesc : ℕ
fesc = 0xDB

abbrev pub tfend : ℕ
tfend = 0xDC

abbrev pub tfesc : ℕ
tfesc = 0xDD

abbrev pub cmd_data : ℕ
cmd_data = 0x00

-- What `stuff` appends for one octet.
unfoldable pub stuff : ℕ → Bytes
stuff b = if b == fend then fesc ∷ tfend ∷ [] else if b == fesc then fesc ∷ tfesc ∷ [] else b ∷ []

unfoldable pub stuff_all : Bytes → Bytes
stuff_all [] = []
stuff_all (b ∷ bs) = stuff b ++ stuff_all bs

-- `((port & 0x0F) << 4) | (command & 0x0F)`; the masked port does not overflow the shift.
unfoldable pub type_octet : ℕ → ℕ → ℕ
type_octet port command = bit_or (bit_and port 0x0F * 16) (bit_and command 0x0F)

unfoldable pub encode : ℕ → ℕ → Bytes → Bytes
encode port command payload =
    fend ∷ (stuff (type_octet port command) ++ (stuff_all payload ++ (fend ∷ [])))

pub record KissFrame : Type 0 where
  pub port : ℕ
  pub command : ℕ
  pub payload : Bytes

pub record KissDecoder : Type 0 where
  pub buf : Bytes
  pub in_frame : Bool
  pub escaped : Bool
  pub max_frame : ℕ

-- `KissDecoder::new`.
unfoldable pub new : ℕ → KissDecoder
new max_frame = record { buf = []; in_frame = false; escaped = false; max_frame = max_frame }

-- `take_frame`, on the buffer.
unfoldable pub take_frame : Bytes → Option KissFrame
take_frame [] = none
take_frame (first ∷ rest) =
    some (record { port = first / 16; command = bit_and first 0x0F; payload = rest })

abbrev pub frame_list : Option KissFrame → List KissFrame
frame_list none = []
frame_list (some f) = f ∷ []

-- The octet `other` of the last arm after the escape is taken into account, with the buffer: an
-- escape that is followed by anything else drops the buffer and keeps the octet.
unfoldable pub unescape : Bool → Bytes → ℕ → ℕ × Bytes
unescape false buf other = (other, buf)
unescape true buf other =
    if other == tfend then (fend, buf) else if other == tfesc then (fesc, buf) else (other, [])

-- The end of the last arm: an octet over the limit gives the frame up.
unfoldable pub store : KissDecoder → ℕ × Bytes → KissDecoder
store d (byte, buf) =
    if leb d.max_frame (length buf)
    then record d { in_frame = false; buf = []; escaped = false }
    else record d { buf = buf ++ (byte ∷ []); escaped = false }

-- One round of the loop in `push`: the decoder after the octet, and the frame that it completes.
unfoldable pub step : KissDecoder → ℕ → KissDecoder × List KissFrame
unfolding take_frame store unescape
step d b =
    if b == fend
    then (
      record d { buf = []; escaped = false; in_frame = true },
      if d.in_frame && not (is_empty d.buf) then frame_list (take_frame d.buf) else [],
    )
    else if not d.in_frame
    then (d, [])
    else if b == fesc
    then (record d { escaped = true }, [])
    else (store d (unescape d.escaped d.buf b), [])

unfoldable pub push : KissDecoder → Bytes → KissDecoder × List KissFrame
push d [] = (d, [])
push d (b ∷ bs) = let (d', out) = step d b in let (d'', rest) = push d' bs in (d'', out ++ rest)
