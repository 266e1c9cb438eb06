-- ===== src/Lib.antt =====
-- libTPM: a library that sends TPM 2.0 commands to a TPM behind an SPI controller.
--
-- A command goes down through these parts, and its response comes back the same way:
--   src/tpm2_cmds.c builds a command in a `tpm_cmd`, sends it through the function table
--   `interface`, and reads the response; src/tpm2_fifo.c is the table: it moves the bytes
--   through the TPM's registers, with timed waits; src/tpm2_fifo_spi.c reads and writes a
--   register as an SPI transaction; the platform brings the SPI controller and a timer, or
--   src/timer/posix_timer_ops.c is the timer.
--
-- Where each part is modelled:
--   Outcome         the return codes of include/tpm2.h. A C function that returns a status and
--                   writes through pointers is an action on the state of what lies below it; it
--                   ends with a value, an error code, undefined behaviour (`fault`) or a loop out
--                   of fuel (`hang`). Outcome/Spec has the rules for postconditions.
--   Endian          include/endian_private.h, for a host of either byte order; words in memory.
--   Platform, Timer include/transport/spi.h and include/platform/tpm_platform.h, which a platform
--                   fills, are parameters; src/timer/posix_timer_ops.c over them.
--   Bus             the three register calls and two timer calls that src/tpm2_fifo.c makes.
--                   Bus/Laws states what the register protocol relies on; Bus/Log logs the
--                   writes that succeed, Bus/Taken the bytes read from one register.
--   Spi             all of src/tpm2_fifo_spi.c; `spi_bus` is the register bus it makes. Spi/Laws
--                   states what it relies on in the platform: the order of the controller's calls,
--                   full transfers, a timer of the caller's that runs out; Spi/Obeys fills the laws of
--                   Bus/Laws. The POSIX timer is modelled, but has no theorem.
--   Registers       the constants of include/tpm2_private.h and include/tpm2.h, src/tpm2_chip.c.
--   Buffer          `struct tpm_cmd` as its bytes.
--   Fifo            all of src/tpm2_fifo.c, over any register bus: Fifo/Send and Fifo/Receive
--                   are `tpm2_fifo_send` and `tpm2_fifo_receive` with their loops.
--   Interface       `struct interface_ops` and `tpm_interface_getops`.
--   Command         the builder, the iterator, the transfer, and the commands Startup, PCR_Extend,
--                   PCR_Read and PCR_Allocate of src/tpm2_cmds.c.
--   Capability      GetCapability of src/tpm2_cmds.c: one page, the parsers, the queries over all
--                   pages and the callbacks.
--   Tests           a bus that plays back a response, a controller that obeys the laws, and the
--                   theorems at concrete values.
--
-- Names are those of the C code. A helper stands for a loop or for the rest of a function; its
-- comment says which.
--
-- Pointers and arrays. NULL is modelled for `interface`, `tpm_spidev`, the timer, the digest of
-- `tpm_pcr_extend`, the array of `tpm_pcr_read_single`, the password of PCR_Allocate and the
-- iterator; the refusals of the other NULL arguments (chip, query, callback and output pointers of
-- PCR_Allocate and of Capability) are left out. The accesses of src/tpm2_fifo.c and of
-- src/tpm2_fifo_spi.c outside of their arrays are faults. Where src/tpm2_cmds.c has tested the
-- bound first, there is no fault in the model: a write of the builder outside of its array would
-- change nothing, and a read of a response or of the iterator outside of its array would give 0.
--
-- Fuel: a loop that a timer ends takes `polls` rounds at most, where the laws of a bus say that a
-- timer runs out after fewer than `polls` calls. `while (index < len)` in sending and
-- `while (*size < read_size)` in receiving take as many rounds as there are bytes, since each
-- round moves one byte at least.
--
-- Not modelled: log output (include/debug.h, the log backends, `output_tpm_status`), which changes
-- no state; the build files and the test of the installed package.
pub mod Base
pub mod Outcome
pub mod Endian
pub mod Platform
pub mod Timer
pub mod Bus
pub mod Spi
pub mod Registers
pub mod Buffer
pub mod Fifo
pub mod Interface
pub mod Command
pub mod Capability
mod Tests
