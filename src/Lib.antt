-- ===== src/Lib.antt =====
-- The firmware of a bootloader with over-the-air update, for a microcontroller with 1 MB of flash: a
-- bootloader (bootloader/), the drivers that it shares with the application (drivers/), and the
-- definitions that both include (shared/). On reset bootloader/main.c reads a record of the two image
-- slots, decides which image runs, listens to a host for a while, and hands over. While it listens,
-- bytes that the UART's interrupt has put into a ring are assembled into frames, and the frames'
-- commands write an image into the slot that is not active, and then a record that puts that image on
-- trial. The record is kept in duplicate on two pages of flash.
--
-- The files, and what they model:
--   Base and the files below it: tests, lists, fixed-width words, memory as a function of the
--   address. A uint32_t keeps its wrap-around as % 2 ^ 32.
--   Layout: the constants of shared/metadata.h. Metadata: metadata_t as a record, slot[2] as its
--   fields first and second, and its 48 bytes; Metadata/Codec reads them back.
--   Crc: drivers/crc.c. The CRC unit is hardware, and a parameter: CrcUnit says what a byte written to
--   the data register does to it, and that the register has 32 bits.
--   Flash: drivers/flash.c, one function for each of its functions. The controller is hardware, and a
--   parameter: Controller holds its reactions to the register accesses. Flash/Frame states as laws
--   (IsController) what a controller may change at most; they also hold of one that fails or loses
--   power. Flash/Guard is about the bootloader's pages, Flash/Verify about the read-back. A loop that
--   polls the busy flag takes as many turns as the controller's patience; the theorems hold for any
--   number. Flash/Working states what the reference manual says of a healthy part (IsWorking): an
--   operation whose preconditions hold ends within the patience and has its effect. Flash/Erases,
--   Flash/Bytes and Flash/Writes are about the driver on such a part.
--   Store: drivers/metadata_mgr.c. Store/Valid is about what a read returns, Store/Atomic about a
--   write that is cut short, Store/Committed about one that succeeds. CounterBelow says that no usable
--   page holds the last counter value, which would take more erases than a page survives; Store/Room
--   counts the records that are left until then. Store/Works is about writes under a working
--   controller, Store/Erased about metadata_erase_all.
--   Uart: the receive side of bootloader/src/uart.c. An interrupt is given the status flags and the
--   byte that it reads. Uart/Ring compares the ring with a queue. Uart/Format has the number formats,
--   with the ten places of the digit buffer as the bound of the digit loop, and Uart/Configure the
--   set-up of a USART with the divider of shared/board.h; Uart/Pins has the clocks and pins of both
--   links, over registers as functions from the number of a bit to the bit (Uart/Registers).
--   Systick: bootloader/src/systick.c. A wait is given the ticks between two looks at the count.
--   Protocol: bootloader/src/protocol_mgr.c with shared/protocol.h. Protocol/State has the static
--   variables as the record Machine, with the flash, the ring and the bytes sent so far; each function
--   of the file takes a Machine and returns the next. Protocol/Send, Handlers and Receive are the
--   code; Transfer, Data, Start, Finish, Sizes, Bounds, Contain, Buffer, Wire, Recognise and Damaged are
--   about it. Protocol/Steady and Timed say which bytes leave the transfer's state and timeout alone.
--   Protocol/Session and the files below it follow a whole update on a working board, from its opening
--   (Opens) over its blocks (Block, Stream, Update) to its end (Ends, Frames, Complete). Between its
--   frames the line may bring noise, damaged frames, the last frame again or questions (Line, Quiet,
--   Sending); Messages says behind which bytes the transfer is open. Protocol/Poll is the poll
--   over the ring, and Protocol/Over says that no handler looks at the ring.
--   Boot: bootloader/main.c and shared/boot_request.h. main is cut into what it settles before it
--   listens (decide) and the loop that listens (update_loop), which is given the turns it makes: the
--   interrupts since the last turn and the time. Boot/Decision, Boot/Trial and Boot/Window are about
--   these. Boot/Strikes chains the decisions of boots between which nothing is recorded,
--   Boot/Installed is what the boot after an update finds, Boot/Updated and Boot/Rejected the way from
--   an update over its trial back to the image before it, Boot/Confirms and Boot/Accepted the way over
--   a confirmation to all later boots. Boot/Deliver brings bytes from the interrupt through the
--   ring to the receiver, Boot/Pieces a whole update in pieces and with pauses, and Boot/Served is main with a host that sends an update in its window.
--   Boot/Console has the text on the console, and Boot/Jump is jump_to_application, as a list of
--   accesses that a small core runs.
--   App: app/main.c, its confirmation, its update trigger and a pass of its main loop, which is given
--   what it observes. App/Confirm, App/Trigger and App/Cycle are about these. App/Setup
--   is its set-up of the links, App/Report what it writes before its loop. App/Link is its polled
--   receive path, over a parameter for the USART's registers (Receiver) whose flags behave as the
--   reference manual says (IsReceiving); App/Loop joins the passes, with the bytes that the host puts
--   on the line before each, up to the reset with a boot request and the boot that finds it.
--   Iwdg: drivers/iwdg.c, the search of iwdg_start, the register writes and the flags.
--   Fault: drivers/fault.c, the characters of its report.
--   Gateway: the loop of gateway/esp32_ota/esp32_ota.ino. The Arduino core is not in the repository:
--   a turn is given what its calls return, and the writes take all that they are given. Gateway/Pipe is
--   about its two directions.
--   Examples: a concrete CRC unit, that of tests/host/fake_hw.c, a controller that does what it is
--   told, another that is a working one by proof, a memory with two images and a record, and the
--   theorems applied to them.
--
-- Conventions. uart_flush and iwdg_feed only touch registers, and have no part in the handlers' and
-- the loop's states. A pointer argument is the value that it points to, so a NULL argument and its status
-- have no counterpart. Interrupts are taken between the turns of the update loop. A loop over an
-- array is recursion on its length or on the list; the drain of the ring has the budget of the source
-- as its bound.
--
-- Not modelled: the clock of the CRC unit and the pin of the LED; the waits for the transmitter; the
-- order in which bootloader/main.c sets its peripherals up; the messages of the application's loop,
-- but for the result of its confirmation; the assembly of the
-- fault entries and of the start-up code; linker scripts; the tools in Python, which run on the host;
-- the set-up of the gateway, which only starts its libraries.
pub mod Base
pub mod Layout
pub mod Crc
pub mod Flash
pub mod Metadata
pub mod Store
pub mod Uart
pub mod Systick
pub mod Protocol
pub mod Boot
pub mod App
pub mod Iwdg
pub mod Fault
pub mod Gateway
pub mod Examples
