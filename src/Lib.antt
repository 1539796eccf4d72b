-- ===== src/Lib.antt =====
-- A model of bhwi, a sans-IO interface to Bitcoin hardware wallets, and the theorems about it.
--
-- The program. The crate bhwi has one interpreter for each maker of devices. An interpreter is a state
-- machine: `start` turns a command into the first message for the device, `exchange` takes a response
-- and gives the next message or nothing, and `end` gives the result. It does no input or output; the
-- crate bhwi-async drives it over a transport, and bhwi-cli and bhwi-wasm are its users. The modules
-- here are the protocol logic of four makers:
--
-- - BitBox: bhwi/src/bitbox/u2f.rs, the framing of messages in 64-byte HID reports. BitBox/U2f has
--   `U2fHid` with encode and decode, RoundTrip and Safety what they promise each other.
-- - Coldcard: bhwi/src/coldcard. Request and Response are api.rs, the bytes of each request and the
--   reader of each response; Encrypt is encrypt.rs, the engine of the encrypted channel; Machine is
--   mod.rs, with the commands, the states and `start`, and its children Handlers and Files have the
--   handler of each state and Exchange has `exchange` and `end`. Upload, Download, Safety,
--   Invariant and Starts are the proofs. Convert is the conversion of a command, with the checks of what
--   is registered; its proof is Registered.
-- - Ledger: Ledger/Apdu is bhwi/src/ledger/apdu.rs, the frames of commands and responses with their
--   codes; Ledger/Command is command.rs beside it, the APDU of each command; Ledger/Merkle is merkle.rs,
--   the Merkle trees of lists that a device asks about; Ledger/Store is store.rs, which answers a
--   device's requests for preimages, leaves, proofs and the rest of a long answer, and Ledger/Maps the
--   part of it on mappings. Ledger/Yield is the part of mod.rs and psbt.rs that reads a yielded
--   signature, Ledger/Psbt the rest of psbt.rs, a PSBT as the pairs of version 2, with the storing of
--   signatures. Ledger/Wallet is wallet.rs, over Policy, which is bhwi/src/policy.rs.
--   Ledger/Interpreter is mod.rs: the commands, the states and `start`; its child Exchange has
--   `exchange` and `end`, Convert the conversion of a command. Yield/Returns,
--   Store/Growth, Maps/Sorted, Maps/Known, Wallet/Known and Interpreter/Maps, Starts, Safety, Invariant, Session,
--   Interrupts and Streams are the proofs.
-- - Jade: bhwi/src/jade. Api is api.rs, Jade itself mod.rs with the commands, the states and `start`;
--   Exchange has `exchange` and `end`, Convert the conversion of a command. Fragments, Unlock, Safety,
--   Errors and Convert/Names are the proofs.
--
-- Common is bhwi/src/common.rs, the commands that all devices share. Async/Driver is the loop
-- `run_command_inner` of bhwi-async/src/lib.rs over an interpreter and its channels; Runs and Plain
-- are proofs, the latter with the interpreter of Ledger.
--
-- Transport has the HID transports of bhwi-async/src/transport, the packets in which the messages of the
-- parts above travel: LedgerHid is ledger/hid.rs there, ColdcardHid is coldcard/hid.rs, and BitBoxHid is
-- bitbox/hid.rs, the frames of BitBox/U2f and the loop that asks again while the device is not ready;
-- Frames and Retry are its proofs.
--
-- Prelude has the shared notation: Boolean tests, lists over the native numbers, slices and chunks,
-- bytes and words, UTF-8 and lines, and `Outcome`, what a fallible call does. Tests has the theorems at
-- concrete inputs, with concrete functions for all parameters.
--
-- How code is read. A byte is a number, and where the code keeps a value in a `u8`, `u16` or `u32` the
-- wrap-around is written out (`% 256`, `% 65536`) or follows from a conversion that is checked. `usize`
-- is unbounded: what is added there are lengths of buffers in memory. `err` is `Err`, `panic` is an
-- index out of range, a failed assertion or an unwrap of nothing: a slice is `take` and `drop` behind a
-- `check` of its bounds. A method that changes its object gives the new object; for the Coldcard
-- interpreter also beside an error.
--
-- Fuel. The loop of the driver gets fuel for its passes; the theorem on it says how many are enough.
-- `decimal` gets one more than the number. encode_loop and decode_loop get the length of the message:
-- each round takes a byte of it at least. `retry_loop` of BitBoxHid gets the number of packets that come:
-- each round reads one at least. `Merkle.build` gets one more than the number of leaves, which a call
-- halves; floor_lg_loop its argument, which t reaches by doubling. `chunks` gets the length of the slice. The theorems that an
-- operation returns or gives a result hold of these definitions, so the fuel is enough. The loops of
-- Coldcard's upload and download are run by the driver; there the theorems are on the sequence of
-- exchanges itself.
--
-- The loops that read packets recur on what the channel delivers.
--
-- Parameters. SHA-256, the curve and the cipher of Coldcard's channel, and the types and codecs of the
-- crate bitcoin (variable-length integers, extended keys, signatures, PSBTs, derivation paths, script
-- pushes) are not in the repository. They are the records Consensus, Bitcoin, Cipher and Keys,
-- and the argument sha256; Consensus has the laws of the integers' codec that the code relies on.
-- Miniscript has the policies and keys of the crate miniscript, PsbtCrate, LedgerCrates and JadeCrates
-- what those parts use; their laws say that calls return, that a descriptor has a key, that a vector
-- is read back as it was written, that a reader reads no more than there is, and that a request can be
-- written into memory. ColdcardCrates has the shape of a descriptor, its keys and its JSON text.
--
-- Not modelled: the interpreter of BitBox with its Noise channel, protobuf messages and signing; the
-- conversions of responses and errors to the common ones, which are renamings; the texts of errors;
-- the transport of Ledger's emulator; the methods of the trait HWI of bhwi-async; bhwi/src/device.rs. The
-- module
-- `serialize` of bhwi/src/ledger/psbt.rs is a copy of code of rust-bitcoin. The command line tools and
-- the browser bindings are input and output.
pub mod Prelude
pub mod BitBox
pub mod Coldcard
pub mod Policy
pub mod Common
pub mod Ledger
pub mod Jade
pub mod Transport
pub mod Async
mod Tests
