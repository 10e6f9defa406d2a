-- ===== src/Host/Serial.antt =====
-- How the host finds the replies in what the port delivers: update_tools/win-uart/comm/physerialthread.cpp.
pub mod Heads
pub mod Chunks
pub mod Frames
pub mod Reads
use fw_bootloader.Common.{
  ℕ, zero, suc, ◌+◌, ◌*◌, List, [], ◌∷◌, ◌++◌, Option, none, some, ◌&&◌, ltb, ◌==◌, if◌then◌else◌,
  length, take, drop, word16,
}
use fw_bootloader.Host.Crc.{crc16}

-- `m_alreadyReadBuffer` and `m_rawRemoteCmdQueue`.
pub record SerialPort : Type 0 where
  pub already_read : List ℕ
  pub remote_cmds : List (List ℕ)

-- `removeUntilFindHead`: the head is looked for while more than two bytes are left.
pub remove_until_find_head : List ℕ → List ℕ
remove_until_find_head (x ∷ y ∷ z ∷ buf) =
    let later = remove_until_find_head (y ∷ z ∷ buf) in
    if x == 0xAA && y == 0x55 then x ∷ y ∷ z ∷ buf else later
remove_until_find_head buf = buf

-- One round of the loop on the bytes from the head on: not enough of them, a packet whose CRC is not
-- right, or a packet; the last two with the bytes that are left.
pub data Scanned : Type 0 where
  not_enough : Scanned
  invalid : (left : List ℕ) → Scanned
  packet : (cmd left : List ℕ) → Scanned

-- The CRC that was received against that of the bytes before.
-- `rest` is what stands behind the payload, at least two bytes of it.
pub check_packet : List ℕ → List ℕ → List ℕ → Scanned
check_packet buf payload (lo ∷ hi ∷ left) =
    if word16 lo hi == crc16 (take 4 buf ++ payload)
    then packet payload left
    else invalid (drop 2 buf)
check_packet buf payload rest = not_enough

pub read_packet : List ℕ → Scanned
read_packet (a ∷ b ∷ c ∷ d ∷ body) =
    let payload_len = word16 c d in
    if ltb (4 + length body) (2 + 2 + payload_len + 2)
    then not_enough
    else check_packet (a ∷ b ∷ c ∷ d ∷ body) (take payload_len body) (drop payload_len body)
read_packet buf = not_enough

-- What the round does with it; `none` leaves the loop.
pub advance : SerialPort → Scanned → Option SerialPort
advance port not_enough = none
advance port (invalid left) = some (record port { already_read = remove_until_find_head left })
advance port (packet cmd left) = some (record {
  already_read = remove_until_find_head left;
  remote_cmds = port.remote_cmds ++ cmd ∷ [];
})

-- `while (m_alreadyReadBuffer.size() > 2 + 2 + 2)`
pub parse_round : SerialPort → Option SerialPort
parse_round port =
    if ltb 6 (length port.already_read) then advance port (read_packet port.already_read) else none

-- The loop, for at most `rounds` rounds.
pub parse_packets : ℕ → SerialPort → SerialPort
parse_packets zero port = port
parse_packets (suc rounds) port = elim (parse_round port) [
  | none ↦ port
  | some next ↦ parse_packets rounds next
]

-- `on_readReady` when the port delivers `cur`. A round takes two bytes at least, so that the length of
-- the buffer is enough rounds.
pub from_head : SerialPort → SerialPort
from_head port = record port { already_read = remove_until_find_head port.already_read }

pub settle : SerialPort → SerialPort
settle port = parse_packets (length port.already_read) (from_head port)

pub on_read_ready : List ℕ → SerialPort → SerialPort
on_read_ready cur port =
    let buf = port.already_read ++ cur in
    let waiting : SerialPort = record port { already_read = buf } in
    if ltb (length buf) 4 then waiting else settle waiting

-- The deliveries one after the other.
pub reads : List (List ℕ) → SerialPort → SerialPort
reads [] port = port
reads (cur ∷ more) port = reads more (on_read_ready cur port)
