-- ===== src/Lib.antt =====
-- EpoxyDuino compiles Arduino sketches for a Unix host: it emulates the Arduino core and some of its
-- libraries, and lets a test drive the emulated board. This library models the parts below and states
-- what they do.
--
-- Base: shared lists, texts as lists of bytes, bits of a word, and integers.
--
-- Board (cores/epoxy/Arduino.cpp): the globals of the file as one record, which each operation takes
-- and answers. U is the state of the sketch; the functions of the sketch are parameters that change
-- the board. A function pointer is a number that names the function.
--   Board/Pins: digitalWrite(), digitalRead(), digitalWriteValue() and digitalReadValue(). The two
--     32-bit words of pin levels are native numbers with the library's bit operations.
--   Board/Interrupts: the handler table, attachInterrupt(), attachInterruptArg(), detachInterrupt(),
--     checkInterrupts() and triggerInterrupt(). Core stands for the macro of the emulated core.
--   Board/Yield: the yield service callbacks, and pump(), which runs them and the interrupts.
--   Board/Clock: millis(), micros(), delay(), delayMicroseconds(), and the simulated time of
--     cores/epoxy/epoxy_test/ArduinoTest.inc. The loop of a simulated wait runs on fuel; wait_micros
--     gives it one round for each slice of 1000 microseconds and two more, which is enough for every
--     wait. In real time it runs wait_real, whose fuel is one more than the microseconds to wait; the
--     host's clock and usleep() are parameters.
--
-- Number (cores/epoxy/avr_stdlib.cpp, cores/epoxy/Print.cpp): itoa(), utoa(), ltoa(), ultoa() and
-- Print::printNumber(). The loops run on 64 rounds, as many as a 64-bit number has bits.
--
-- Script/Parser (cores/epoxy/epoxy_test/Script): every function of ScriptParser on a line and a count
-- of errors. The table of pin names is a parameter. getPeriodUs() is undefined where an int overflows.
--
-- Script/Event (cores/epoxy/epoxy_test/Script): the events of a script, which the injector raises:
-- the commands at, pin, wait, sync and bitstream, and the step to the next line. A script is the text
-- that is left of its input; it is the user state of the board that its events run on.
--
-- Address (cores/epoxy/IPAddress.cpp): reading and printing of IPv4 addresses, by Number, and their
-- 32-bit words (Address/Words).
--
-- Eeprom (libraries/EpoxyEepromEsp/src): the EEPROM of the ESP cores: begin(), read(), write(), get(),
-- put(), the assignment through operator[], commit() and end(). The file and the allocator are the
-- parameter FileSystem of Eeprom/File, with the law Keeps.
--
-- EepromAvr (libraries/EpoxyEepromAvr/src): the EEPROM of the AVR, whose cells are bytes of a file;
-- pread() and pwrite() are the parameter Cells, with the law Stores.
--
-- Watchdog (cores/epoxy/esp32_wdt.cpp): the loop watchdog of the ESP32. Every operation and every
-- round of the monitor's thread is a step; Watchdog/Steps has the step relation. The time and the
-- environment are arguments.
--
-- Update (libraries/EpoxyUpdate/src): the firmware update and what it records. The files of the sink
-- are the parameter Sink, whose law Works describes files that never fail. Update/Json has a reader of
-- JSON strings.
--
-- Injector (cores/epoxy/epoxy_test/Injection): the loop of the injector's thread, one round at a time
-- as it runs under its lock, over any kind of event; delay_us() of the thread that waits for it; and
-- the event that sets a pin. The rounds that a delay waits for are fuel; Injector/Finish gives a
-- number of rounds that is enough.
--
-- Wifi (libraries/EpoxyMockWiFi): WiFiClass, which answers by the name of the network. Wifi/State has
--   the object and its construction, Wifi/Station begin(), config() and disconnect(), Wifi/Access the
--   access point and the modes, Wifi/Scan the scan, Wifi/Events the queue of events and the service
--   that pump() calls, Wifi/Sockets the sockets, which reach no network. Wifi/Calls runs sequences of
--   calls and services. Every operation takes what
--   millis() reads, a 64-bit number; what a handler does comes after the service that calls it.
--
-- Mdns (libraries/EpoxymDNS): MDNSResponder and the C interface, over the functions of Avahi, which are
--   the parameter Avahi of Mdns/Responder; Browser of Mdns/Query has those of the query that waits.
--   Mdns/Search is a search with its callbacks, Mdns/Collected about what it collects, Mdns/Advertise
--   the announcements, Mdns/Query the query that waits, its results and the mock services, Mdns/Async
--   the queries that do not wait, with the step relation of Mdns/Async/Runs, Mdns/Served a query on a
--   board whose pump advances it, Mdns/Results the results
--   of ESP-IDF, for which the grants of malloc() are a parameter. The field wild becomes true where the code uses memory that was freed. A notifier runs
--   after the function that calls it. The loops that wait for the client have the rounds of the code;
--   the loop of getAsyncQueryResults() has the readings of the clock as a list, that of the query
--   that waits has a fuel, and both answer none where these do not suffice.
--
-- Files (libraries/EpoxyFS/src): the file system of the host as the one of a board. The calls of the
-- host are the parameter Host. Files/Paths is about the joining of paths, Files/Modes about the
-- modes of files, Files/Listing about the entries of a directory, whose loop runs on as much fuel as
-- there are names.
--
-- Serial (cores/epoxy/StdioSerial.h, StdioSerial.cpp, PtySerial.cpp): the serial ports over the calls of
-- the host, which are the parameter Terminal, with the law Delivers.
--
-- int has 32 bits; unsigned long and size_t have 64, as on the hosts that the source names. Signed
-- numbers that wrap are kept as bit patterns.
--
-- Not modelled: the start and stop of threads, floating point numbers, the opening of a script, String
-- and Stream, Wire and SPI, the copy of the file system classes of the ESP8266 core, the mocks of
-- FastLED and the timers, and the copy of a Base64 library. No two of the parts above share a mutable
-- object but for the board.
pub mod Base
pub mod Board
pub mod Number
pub mod Script
pub mod Eeprom
pub mod Address
pub mod Injector
pub mod Watchdog
pub mod EepromAvr
pub mod Update
pub mod Mdns
pub mod Wifi
pub mod Files
pub mod Serial
