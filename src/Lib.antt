-- ===== src/Lib.antt =====
-- DLink, the debugger that connects GDB to a RISC-V target: a USB device whose firmware is a GDB
-- server over a JTAG or two-wire test access port.
--
-- The program and its model. A packet of the remote protocol arrives over USB in pieces
-- (server/gdb-server/source/gdb-packet.c), the server works on it and answers
-- (server/gdb-server/source/gdb-server.c); it reaches the target through the debug module
-- (arch/riscv/source/riscv-target.c), which it reaches through the test access port
-- (arch/riscv/source/riscv-tap.c), and the flash of the target through the target's SPI controller
-- (flash/source/flash.c).
--
-- - Base: the names that all files share: tests on numbers, lists, blocks in buffers, the bits of words.
-- - Codec: bin_to_hex, hex_to_bin, uint32_to_hex_le, uint64_to_hex_le, hex_to_uint32_le,
--   hex_to_uint64_le, bin_encode and bin_decode of gdb-server.c, on lists of bytes.
-- - Packet: the two tasks of gdb-packet.c. `receive` is the loop over the pieces that the USB core hands
--   over (scan, advance), `deliver` what goes into the queue, `frame` and `transmit` the two halves of
--   the answering task, `respond` both.
-- - Tap: riscv-tap.c over a record `Pins` of the pin operations. Tap/Controller is the state machine
--   of IEEE 1149.1, against which the scans are checked.
-- - Flash/Spi and Flash/Chip: flash.c over a record `Bus` of the target's memory access.
-- - Opcodes: the instruction encoders of arch/riscv/include/opcodes.h.
-- - Target/Dmi: rv_dtm_sync, rv_dmi_read, rv_dmi_write over a record `Link`, which riscv-tap.c
--   fills (`tap_link`). Target/Dmi/Transport is a transport module as the debug specification has it.
-- - Target/Memory: rv_memory_read, rv_memory_write, rv_target_read_memory, rv_target_write_memory over
--   a record `Dmi`, which the functions of Target/Dmi fill (`dmi_over`).
-- - Target/Register: rv_register_read, rv_register_write and rv_program_exec over `Dmi`;
--   Target/Register/Buffer is the access through the program buffer, Target/Register/Access is
--   rv_target_read_register and rv_target_write_register. Target/Register/Machine is a 32-bit hart as the
--   debug specification has it.
-- - Target/Breakpoint: rv_target_insert_breakpoint, rv_target_remove_breakpoint over a record `Hart`
--   of the target's memory and registers.
--   Target/Breakpoint/Stored is the software breakpoints over rv_memory_read and rv_memory_write.
-- - Target/Watchpoint: rv_parse_watchpoint_inst. Target/Watchpoint/Compressed has the 16-bit formats of the
--   "C" extension, on a 32-bit target.
-- - Target/Halt: rv_target_halt_check over `Hart` and the read of the status.
-- - Target/Control: rv_target_reset, rv_target_halt, rv_target_resume, rv_target_step,
--   rv_target_fini_pre, rv_target_read_core_registers and rv_target_write_core_registers.
-- - Target/Init: rv_target_init_post over a record `Wires` of riscv-tap.c, and
--   rv_target_init_after_halted. Target/Init/Session is rv_target_init, rv_target_deinit,
--   rv_target_set_protocol and what the server asks about the hart.
-- - Server: gdb-server.c over a record `Target` of the operations of riscv-target.c and flash.c. `State` is
--   gdb_server_i with the responses in the queue; Server/Memory, Server/Registers and Server/Custom are
--   the handlers, Server/Poll is a round of gdb_server_poll, with the packet that the queue hands over.
--   Server/Scan is what the server uses of sscanf, strchr, strncmp and printf. Server/Task is
--   gdb_server_vTask of dlink.c from power-on. Server/Keeps is the invariant of the state, and `IsSized`
--   what the server relies on of the target for it.
-- - Device: the server over riscv-target.c, whose functions fill the fields of `Target` for memory,
--   registers and run control (`over_module`).
-- - Wire: a command from the pieces in which it arrives, over the queue, to a round of the server, and its
--   response on the way back. Wire/Memory is a read of memory over Device, and
--   Wire/Unmarked is what comes outside of a packet.
-- - Usb: soc/gd32vf103/*/cdc_acm_core.c over a record `Core` of the USB core and the UART.
-- - Serial: the interrupt of soc/gd32vf103/*/usb-serial.c over the same record.
--
-- Numbers are natural numbers, with the reduction modulo 2³², 2⁶⁴ or 2⁸ written where the code has the
-- type; bit fields are quotients and remainders. A write past the end of a buffer is `none`. State is
-- passed explicitly, in `do` blocks over Base/Action where a step can fail to come back; what a function
-- reads of hardware is a field of a record that it is given.
--
-- Fuel. The two loops of flash.c without a bound, the wait for the chip and the emptying of the receive
-- queue, and the wait for an abstract command take a number of rounds and give `none` beyond it. The loop
-- of flash_write takes as many rounds as there are bytes, which is enough because each round programs one
-- byte at least. rv_target_read_register, rv_target_write_register and the functions that they use call each
-- other: they stand on five levels of calls, and a call below them gives `none`. All other loops are
-- structural.
--
-- Not modelled: the RTOS calls with their delays, the USB core and its descriptors, the UART and the pins
-- below the records above, the LEDs, and the settings of clocks and interrupts of the boards
-- (soc/*/*/board.c, gd32vf103_hw.c), which are calls of the vendors' libraries. The two copies of
-- cdc_acm_core.c and of usb-serial.c are the same.
pub mod Base
pub mod Codec
pub mod Device
pub mod Packet
pub mod Tap
pub mod Flash
pub mod Opcodes
pub mod Serial
pub mod Server
pub mod Target
pub mod Usb
pub mod Wire
