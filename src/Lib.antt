-- ===== src/Lib.antt =====
-- Verification library of the Kendryte K210 base project.
--
-- The repository holds drivers for a board with a Kendryte K210 and an ESP32 or ESP8266. This library
-- models the parts of drivers/ that have logic of their own, each as functions by clauses over a record of
-- its state, and proves how they behave.
--
-- The parts, and where they are modelled:
--  - drivers/TBPipe/TBPipe.cpp (Pipe): the ring buffer that a UART interrupt writes and the main code
--    reads. `write`, `read_start`, `read_end`, `read_exact` and `clear` are Write, ReadStart, ReadEnd,
--    ReadExact and Clear. Pipe/Contents and Pipe/Inv give the abstract view, a list of bytes, and the
--    invariant; Pipe/Session has the interleavings of interrupt and reader as a step relation.
--  - drivers/TBPipe/TBinParse.cpp (BinParse): messages with an 8-byte header and a checksum. `append`,
--    `next_message`, `parse_header` and `fill_header` are Append, NextMessage, ParseHeader and
--    TBinFillHeader. BinParse/Inv has the invariant and the abstract view, the bytes not yet parsed;
--    BinParse/Run has runs of the parser against the stream of messages.
--  - drivers/TBPipe/TBParse.cpp (TextParse): lines of text, and packets behind a prefix that a
--    BinPrefixParser recognises. The virtual class is the record `PrefixParser`, which `next_message`
--    takes; TextParse/Prefix has its three implementations, TextParse/Sizes and EspSize the sizes that
--    they announce. TextParse/Outcome says what a call of NextMessage makes of the bytes not yet parsed.
--  - drivers/flash/flash.c: FlashBus has the four transfer functions over the registers of SPI3, Flash the
--    commands, Flash/Data the loops over a block of data. A register write is recorded; the values that
--    the volatile reads give are an input.
--  - drivers/camera/gc0328/src/cambus.c (Camera/Bus) and gc0328.c (Camera/Tables, Camera/Gc0328): the bus
--    of the camera sensor, its register tables and its driver. The SDK and maix_i2c are the record `Sdk`
--    of functions, which the definitions take as an argument.
--  - drivers/camera/gc0328/src/sipeed_i2c.c (I2c): the I2C controllers. I2c/Master has
--    maix_i2c_send_data and maix_i2c_recv_data, I2c/Slave the slave and its interrupt; I2c/Effects has
--    rules for what a part of the code does to the hardware whatever the registers read as, I2c/Progress
--    rules for what it takes to make it return.
--  - Maixduino_esp32/main (Esp32): the firmware of the ESP32. Esp32/Commands has the codes of
--    Esp32CommandList.h; Esp32/Sockets, Transfer, Wifi and Device have the handlers of
--    CommandHandler.cpp, under its names; Esp32/Handle has the table of handlers, `handle`, and the
--    loop of sketch.ino.cpp (`loop`, `serve`). The WiFi library and ESP-IDF are the record `Net` of
--    Esp32/Net, the globals the record of Esp32/Server.
--  - drivers/esp32: Esp32/Link has the transfer of a frame and the polling of SPI2 (esp32_transfer of
--    esp32_spi.cpp, and spi2_slave.cpp), Esp32/Client the commands of the network, Esp32/Sock those of
--    sockets and of the server. What pins, clocks and registers give is an input. Esp32/Session,
--    Esp32/Fetch and Esp32/Open have the driver and the firmware together.
--
-- Conventions: numbers are the native ones, and a sum or difference of 32-bit words keeps its wrap-around
-- (`add32`, `sub32`, `u8`, `u16`, `u32` of Prelude/Words). A buffer behind a pointer is a list (Memory); an
-- access outside it is the fault `none`, so a theorem that a call returns says that it stays inside. An
-- allocation succeeds. A function that changes an object returns the new one.
--
-- Loops: those over a table or a block recurse on it or on a bound that its length gives. `scan` of
-- TextParse has as many rounds of fuel as bytes are left, plus one, and `write_loop`, `write_page` and
-- `read_loop` of Flash/Data as many as bytes are left, plus one, since every round moves at least one
-- byte. The polling loops of FlashBus and of `wait_ready` have the reads that are still to come as fuel,
-- plus one, since every round takes a read: they end without a result only where the input has ended.
-- The polling loops of Esp32/Link and I2c/Master have the same fuel.
--
-- Not modelled: drivers/esp8266 and drivers/stm32_program (not yet); the set-up of pins and registers in drivers/esp32, and the hardware tests of the sketch;
-- Maixduino_esp32/arduino, a copy of the WiFiNINA firmware; the programs under base/src and
-- drivers/MessageDebug (input and output only), and sdk/, a copy of the vendor's SDK.
pub mod Prelude
pub mod Memory
pub mod Bits
pub mod Bytes
pub mod Pipe
pub mod BinParse
pub mod TextParse
pub mod FlashBus
pub mod Flash
pub mod Camera
pub mod Esp32
pub mod I2c
