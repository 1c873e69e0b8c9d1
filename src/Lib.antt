-- ===== src/Lib.antt =====
-- switcher is a daemon that lets a browser read and switch the pins of port expanders. This
-- library models the HTTP front end, the I/O core, the drivers, the handler of the configuration
-- file, and how `main` puts them together.
--
-- How the parts interact. mongoose calls `event_handler` (src/http.c), which parses the URI into
-- an `io_data` and calls `perform_io` (src/io.c) on the configuration. `perform_io` checks the
-- indices and calls the `read` and `write` pointers of the device's driver: PCF8574
-- (src/pcf8574.c) and MCP23017 (src/mcp23017.c) over the I2C bus driver (src/io_i2c_linux.c), or
-- the PiFace board (src/dev_piface.c) over SPI (src/pfio.c). Driver and core report through the
-- two callbacks of src/http.c, which write the reply's content. The configuration itself is built
-- by the entries of the configuration file (src/parse_config.c).
--
-- What lies outside the program, that is the kernel, the SMBus functions of
-- include/external/linux/i2c-dev.h, the heap and mongoose, is not modelled but asked: each call
-- is an `Event` in the log of the `World`, and an `Env`, which every theorem quantifies over,
-- answers it. Undefined behaviour (a null or wild pointer, a shift out of range, a write past a
-- buffer) is the result `fault`. `Returns P r` says that `r` ends without it, in a state that
-- satisfies `P`.
--
--   Base, Base/*       numbers, lists, bits and bytes that the other files share
--   Libc, Libc/*       strtol, strtoul, strtok_r, strncmp and the formats of printf that are used;
--                      Numbers, Numerals: printed and written numbers; Tokens, Split: tokens
--   World, World/*     calls, environments, the monad `Io`, and total correctness;
--                      Weight, Quiet: the calls of malloc and free
--   Config             include/io.h, include/io_fwd.h: the data, and when a configuration is valid
--   Driver             include/io.h: dev_drv and bus_drv, the tables of function pointers
--   I2cLinux           src/io_i2c_linux.c; Total: whatever the kernel answers; Traffic: its calls;
--                      Quiet: the blocks of a transfer
--   Mcp23017           src/mcp23017.c; Total and Traffic likewise
--   Pcf8574            src/pcf8574.c
--   Pfio               src/pfio.c; Total: transfers; Pins: masks and writes of single pins;
--                      Latch: what the outputs hold; Start: pfio_init
--   Piface             src/dev_piface.c
--   Tables             the drivers' handles; Ready: the contract of IoCore/Contract;
--                      EndToEnd, Board: a request down to the calls of the kernel;
--                      PinMap: sequences of requests on an array of pins;
--                      PinStart: the same from io_init on;
--                      Prepared, Start: io_init; OpenBus, Discard, Shutdown, Stoppable:
--                      conf_deinit, io_deinit and when they can run; Blocks, Frees: what they
--                      give back; Makes: the blocks of io_init
--   IoCore             src/io.c, perform_io and conf_init; Lifecycle: io_init, io_deinit, conf_deinit;
--                      Contract, Ready, Serve, Wiring: any request; Requests: refused and named ones;
--                      SubDevice, Effects: values written and read; Loop, Init: conf_init
--   ParseConfig        src/parse_config.c; Sections, Devices: the entries of a section; File, Build,
--                      Grow, Whole: a file; Overflow: a ninth bus; Board: the sections
--                      of a PiFace; Sample: a file that ends with them, up to the pins;
--                      Held, Made: the blocks that are made
--   Http               src/http.c; Uri, RoundTrip: URIs that are printed; Reading, Reference: any URI;
--                      Message: the log message; Serve: the handler; Quiet: the blocks of a request
--   CommandLine        src/main.c, the options; Last: what a command line comes to
--   Daemon             src/main.c, daemonize; Rule: a rule for its calls; Verdict: how it ends;
--                      Instance: a second instance
--   Main               src/main.c, around the rest; Life: the set-up; Whole: from the command line;
--                      Requests: a sequence of requests; Stop, Frees: the signal handler;
--                      Quiet, Wired, Balance: the blocks of a run;
--                      Session: all of it, one after the other
--   Trace              src/trace.c; Stateless: a sequence of calls
--   Tests              configurations and environments, and the theorems applied to them
--
-- How state corresponds. A struct is a record with the source's field names, and a `void*` field
-- the block that it owns, or `none` for NULL. A function that changes the bus, device or
-- configuration behind a pointer returns it. The message buffer that is handed down to the
-- callbacks is `buf` of the `World`, the static pointer of src/pfio.c its `spi`. Numbers are the
-- native ones; a cast to a narrower type is written as `%` or `to_int32`. `1 << 31` is taken as
-- the bit pattern that the compiler gives it.
--
-- Bounds and fuel. Printing a number takes 33 rounds at most, which is enough below 2^32 in any
-- base; the loop of `pfio_get_pin_number` has fuel for its 8 rounds. Loops over the arrays
-- recurse on the number of rounds, and a round past the end of an array is a `fault`.
--
-- How a process ends. A step that may call `exit` gives a `Fate`: `exits code`, or `goes_on` with
-- what follows. What `getopt` returns is a list of options, what a configuration file holds a
-- function of its path. `fork` is a call like any other: its answer says which of the two
-- processes is followed.
--
-- Not modelled: src/ini.c (a copy of inih; the entries that it hands to the handler are an
-- argument of `parse_config`), mongoose, a submodule (that `mg_create_server` has no memory for a
-- server included), the calls of `trace_printf` in the other files, and signals that arrive in
-- the middle of a call.
pub mod Base
pub mod Libc
pub mod World
pub mod Config
pub mod Daemon
pub mod CommandLine
pub mod Trace
pub mod Driver
pub mod I2cLinux
pub mod Mcp23017
pub mod Pcf8574
pub mod Pfio
pub mod Piface
pub mod Tables
pub mod IoCore
pub mod ParseConfig
pub mod Http
pub mod Main
mod Tests
