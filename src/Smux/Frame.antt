-- ===== src/Smux/Frame.antt =====
-- lib/smux/frame.go, and what the send loop and readFrame of lib/smux/session.go do with a frame:
-- its layout on the wire, VERSION(1) | CMD(1) | LENGTH(2) | STREAMID(4) | DATA(LENGTH).
pub mod RoundTrip
use revese_server.Base.Io.{read_full, read_full-append}
use revese_server.Base.{
  ℕ, suc, ◌+◌, ◌%◌, ◌<◌, ◌≤◌, ◌≡◌, Bool, true, false, not, Option, none, some, List, [], ◌∷◌, ◌++◌,
  ltb, leb, ◌==◌, if◌then◌else◌, length, take, drop, get_or, put_uint16, put_uint32, uint16_at,
  uint32_at, IsByte, All,
}

abbrev pub version : ℕ
version = 1

-- The command bytes of `const ( cmdSYN byte = iota … )`.
abbrev pub cmd_syn : ℕ
cmd_syn = 0

abbrev pub cmd_fin : ℕ
cmd_fin = 1

abbrev pub cmd_psh : ℕ
cmd_psh = 2

abbrev pub cmd_nop : ℕ
cmd_nop = 3

abbrev pub cmd_ack : ℕ
cmd_ack = 4

abbrev pub cmd_ful : ℕ
cmd_ful = 5

abbrev pub cmd_emp : ℕ
cmd_emp = 6

abbrev pub header_size : ℕ
header_size = 8

-- The field `data` of the source is `payload` here.
pub record Frame : Type 0 where
  pub ver : ℕ
  pub cmd : ℕ
  pub sid : ℕ
  pub payload : List ℕ

-- The fields hold what their Go types can hold.
pub record IsFrame (f : Frame) : Type 0 where
  pub ver_byte : f.ver < 256
  pub cmd_byte : f.cmd < 256
  pub sid_word : f.sid < 4294967296
  pub data_bytes : All IsByte f.payload

-- A frame of the protocol that the receive loop can read.
pub record Sendable (f : Frame) : Type 0 where
  pub ver : f.ver ≡ version
  pub cmd : f.cmd < 7
  pub words : IsFrame f
  pub short : length f.payload < 65528

unfoldable pub new_frame : ℕ → ℕ → Frame
new_frame cmd sid = record { ver = version; cmd = cmd; sid = sid; payload = [] }

-- The accessors of rawHeader, on a buffer of header_size bytes at least.
abbrev pub version_of : List ℕ → ℕ
version_of h = get_or h 0 0

abbrev pub cmd_of : List ℕ → ℕ
cmd_of h = get_or h 1 0

abbrev pub length_of : List ℕ → ℕ
length_of h = uint16_at h 2

abbrev pub stream_id_of : List ℕ → ℕ
stream_id_of h = uint32_at h 4

abbrev pub header_bytes : Frame → List ℕ
header_bytes f = f.ver ∷ f.cmd ∷ (put_uint16 (length f.payload % 65536) ++ put_uint32 f.sid)

-- The bytes of a frame as the send loop lays them out in its buffer of 65536 + header_size bytes.
-- `none` is the panic of the slice buf[:headerSize+len(data)] that is longer than the buffer.
unfoldable pub frame_bytes : Frame → Option (List ℕ)
frame_bytes f = if leb (length f.payload) 65536 then some (header_bytes f ++ f.payload) else none

-- The bytes of several frames, one after the other.
unfoldable pub wire_bytes : List Frame → Option (List ℕ)
wire_bytes [] = some []
wire_bytes (f ∷ fs) = elim (frame_bytes f) [
  | none ↦ none
  | some b ↦ elim (wire_bytes fs) [ none ↦ none | some bs ↦ some (b ++ bs) ]
]

-- What a step that can fail or panic does.
pub data ReadError : Type 0 where
  conn_error invalid_protocol : ReadError

pub data ReadResult : Type 0 where
  frame : Frame → List ℕ → ReadResult
  failed : ReadError → ReadResult
  panicked : ReadResult

-- The second half of readFrame. `headerSize+length` is computed in uint16: from 65528 on it wraps,
-- and buffer[headerSize:headerSize+length] is then a slice whose end lies before its start.
unfoldable pub read_payload : Frame → ℕ → List ℕ → ReadResult
read_payload f len input =
    if len == 0
    then frame f input
    else if ltb ((header_size + len) % 65536) header_size
    then panicked
    else elim (read_full len input) [
      | none ↦ failed conn_error
      | some (p, rest) ↦ frame (record f { payload = p }) rest
    ]

-- readFrame.
unfoldable pub read_frame : List ℕ → ReadResult
read_frame input = elim (read_full header_size input) [
  | none ↦ failed conn_error
  | some (h, rest) ↦
      if version_of h == version
      then read_payload
          (record { ver = version_of h; cmd = cmd_of h; sid = stream_id_of h; payload = [] })
          (length_of h) rest
      else failed invalid_protocol
]
