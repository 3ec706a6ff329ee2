-- ===== src/Gateway.antt =====
-- gateway/esp32_ota/esp32_ota.ino: `loop`, the bridge between the TCP socket and the UART. The
-- sockets and the serial port are the Arduino core's: a turn is given what its calls return, and
-- the bytes that wait on either side are lists, oldest first. Their writes take all that they are
-- given.
pub mod Pipe
use mathlib.Core.Path.{subst}
use mathlib.Core.List.{append_assoc, append-nil}
use bootloader_ota.Base.{
  ℕ, ◌≡◌, ◌∙◌, sym, ap, arith, Bool, true, ◌&&◌, not, ltb, if◌then◌else◌, Option, none, some, List,
  [], ◌∷◌, ◌++◌, length, length-drop, ◌+◌, ◌<◌, ◌≤◌, ◌⊎◌, inl, inr, refl, take, drop,
  take-append-drop, min,
}

-- The size of `buf`.
abbrev pub buf_size : ℕ
buf_size = 512

-- A client: whether it tests true and is connected, what waits to be read, what was written to it.
pub record Client : Type 0 where
  pub exists : Bool
  pub connected : Bool
  pub waits : List ℕ
  pub sent : List ℕ

-- The client, and Serial1: what waits from the STM32, what was written to it.
pub record Bridge : Type 0 where
  pub client : Client
  pub serial_waits : List ℕ
  pub serial_sent : List ℕ

-- What the calls of one turn return: `server.available()`, and the counts of the two reads. A
-- negative count is 0 here: both are tested for more than 0.
pub record Answers : Type 0 where
  pub incoming : Option Client
  pub client_got : ℕ
  pub serial_got : ℕ

abbrev pub is_open : Client → Bool
is_open c = c.exists && c.connected

-- A new client takes the place of one that has gone, and what the UART was saying is dropped.
unfoldable pub accept : Answers → Bridge → Bridge
accept a b = if is_open b.client then b else elim a.incoming [
  | none ↦ b
  | some c ↦ if c.exists then record b { client = c; serial_waits = [] } else b
]

-- `n` of what waits, cut to the buffer and to what the read returns.
abbrev pub read_count : ℕ → List ℕ → ℕ
read_count got waits = min got (if ltb buf_size (length waits) then buf_size else length waits)

unfoldable pub socket_to_serial : ℕ → Bridge → Bridge
socket_to_serial got b =
    let n = read_count got b.client.waits in
    if ltb 0 n
    then record b {
      client = record (b.client) { waits = drop n b.client.waits };
      serial_sent = b.serial_sent ++ take n b.client.waits;
    }
    else b

unfoldable pub serial_to_socket : ℕ → Bridge → Bridge
serial_to_socket got b =
    let n = read_count got b.serial_waits in
    if ltb 0 n
    then record b {
      client = record (b.client) { sent = b.client.sent ++ take n b.serial_waits };
      serial_waits = drop n b.serial_waits;
    }
    else b

unfoldable pub loop : Answers → Bridge → Bridge
loop a b =
    let served = accept a b in
    if not (is_open served.client)
    then served
    else serial_to_socket a.serial_got (socket_to_serial a.client_got served)

-- Between two turns bytes arrive on both sides.
abbrev pub arrives : List ℕ → List ℕ → Bridge → Bridge
arrives net uart b = record b {
  client = record (b.client) { waits = b.client.waits ++ net };
  serial_waits = b.serial_waits ++ uart;
}

-- Turns, each after the arrivals before it.
unfoldable pub session : List (List ℕ × List ℕ × Answers) → Bridge → Bridge
session [] b = b
session ((net, uart, a) ∷ rest) b = session rest (loop a (arrives net uart b))

abbrev pub from_net : List (List ℕ × List ℕ × Answers) → List ℕ
from_net [] = []
from_net ((net, uart, a) ∷ rest) = net ++ from_net rest

abbrev pub from_uart : List (List ℕ × List ℕ × Answers) → List ℕ
from_uart [] = []
from_uart ((net, uart, a) ∷ rest) = uart ++ from_uart rest
