-- ===== src/Lib.antt =====
-- okeanos: a boot loader for small boards that speaks a framed protocol with its host, and the
-- device programs around it. This library models the parts that carry the wire formats.
--
-- The serial protocol (common/okboot-common, device/okboot). A sender makes a message of a type and
-- a payload into a frame: the preamble, a length of four bytes, and the COBS encoding, under an xor
-- value, of the type, the payload and a CRC-32. The receiver feeds the bytes one at a time to a
-- layer that looks for the preamble and then decodes.
--   Frame/Message   common/okboot-common/src/lib.rs: message types, constants.
--   Frame/Encode    common/okboot-common/src/frame/encode.rs: `encode_length`, `FrameEncoder`.
--   Frame/Preamble  common/okboot-common/src/frame/decode.rs: `PreambleDecoder`.
--   Frame/Cobs      the same file: `CobsDecoder`; Cobs/Spec is COBS by itself, on whole lists.
--   Frame/Layer     the same file: `FrameLayer`, over the two decoders.
--   Frame/Crc       the crate crc32fast, as a parameter with the laws of its documentation.
--   Boot/Transmit   device/okboot/src/buf.rs: `TransmitBuffer`, the circular buffer.
--   Boot/Receive    the same file: `ReceiveBuffer`.
--   Boot/Writer     the same file: `FrameWriter` and `FrameSink`, which write frames into the
--                   transmit buffer; `postcard::to_slice` is a parameter.
--
-- The download (device/okboot, host/okdude). The loop of the device feeds bytes to the frame layer
-- and hands packets to a protocol: first the handshake, then version 2, which asks for the metadata
-- and for one chunk after the other, inflates them and gives what comes out to a loader.
--   Boot/Timeouts   device/okboot/src/timeouts.rs, and `Timeouts` of protocol.rs.
--   Boot/Relocation device/okboot/src/stub.rs, `Relocation`: where an image goes that would
--                   overwrite the loader. Relocation/Image has what memory then holds.
--   Boot/V2         device/okboot/src/protocol/v2.rs: the states; V2/Loader has `BinLoader` and
--                   `ElfLoader`, V2/Chunk `recv_chunk`, V2/Protocol the handlers. Loader/Content
--                   says what a loader and memory hold of a file, Chunk/Input what of its chunks the
--                   inflater has taken.
--   Boot/Protocol   device/okboot/src/protocol.rs: Protocol/Handshake is handshake.rs and
--                   `flush_to_fifo`, Protocol/Engine the loop of `run`; Engine/Sent says which
--                   packets a run puts together, Engine/Formats what is booted by the format.
--   Host/Decoder    host/okdude/src/v2.rs: `Decoder`.
--   Host/Upload     the same file: the answers to the device, and the arguments; Upload/Encode is
--                   `encode` of host/okdude/src/upload.rs.
--   Host/Receive    host/okdude/src/upload.rs: `recv_with_print_string`, on a list of what the
--                   terminal and the clock answer.
--   Host/Promotion  the same file: `try_promotion_handshake`, with `AllowedVersions` and its iterator
--                   of common/okboot-common/src/device.rs.
--   Host/Suboot     host/okdude/src/suboot.rs: the upload by the legacy protocol.
--   Boot/Legacy     device/okboot/src/legacy.rs: the download by it.
-- The crates miniz_oxide, elf and postcard are parameters: `Inflate` of Boot/V2 has what is relied
-- on of the inflater, and `StopsAtEnd` of Chunk/Input that it takes nothing behind the end of its
-- stream. What postcard reads is asked for only of the packets that are received. Memory is a function from addresses to bytes. A round of the loop of `run`
-- reads the clock once. The loop of `recv_chunk` takes fuel, one for each call of the inflater:
-- Chunk/Fuel shows how much is enough. What is printed is left out, also where it goes through the
-- sink; a program that is entered ends the run.
--
-- PPP on the network board (device/antimony/src/net). Frames with a check sequence carry the
-- control protocols LCP and IPCP, which one automaton negotiates.
--   Ppp/Hdlc        hdlc.rs: the octets and the frame check sequence.
--   Ppp/Frame       ../net.rs: `Buffer` and `try_from_hdlc_frame`.
--   Ppp/Lcp, Ppp/Ipcp  lcp.rs, ipcp.rs: the options.
--   Ppp/Control     control.rs: packets, the option iterator; Control/Protocols has `Lcp` and
--                   `Ipcp`, and Control/Automaton the automaton.
--   Ppp/Phy         phy.rs: the ring of receive buffers, `RecvChannel`; Phy/Xmit has
--                   `XmitChannel`, Phy/Drain `drain_uart_buffer`. An interrupt is a call with the
--                   room that the UART has, or with the bytes that it holds.
--   Ppp/Inner       ../net.rs: `PppInner` and the turn of `run`: a frame, or, where there is none,
--                   the poll and the new address of the host, before smoltcp is called.
--
-- The kernel support of quartz (device/quartz/src/arch/arm1176).
--   Quartz/Pmm      pmm.rs: the physical memory manager, regions of four sizes in bitmaps.
--   Quartz/TicketLock  sync/ticket.rs: the lock as a relation of steps; a run counts the tickets.
--
-- State is passed explicitly: an operation on `&mut self` is a function to the new state and the
-- result. A byte is a native number; conversions that cut are written with `%`. `Outcome` is a
-- value, an error or a panic. `usize` has 64 bits in the frame layer, and 32 in the relocation and
-- in the count of chunks. Slices that the source borrows are lists; the
-- buffer of an encoder stays with its borrower. The automaton lists the frames that it sends, and
-- takes fuel for the options of one packet: each option that is read moves the iterator on by two
-- bytes or more, so a packet's length in bytes and one more is enough where no option overflows.
-- The loops of the host over what it reads take as many turns as there are answers, and one more,
-- as every turn takes an answer. Printing, peripherals, the jump into a program and the stubs in
-- assembly, the files, threads and terminal of the host tool, the network stack above PPP and the
-- other device programs are not modelled: they are hardware, assembly or calls of other crates.
--
-- Prelude has the notation, the Boolean tests, lists measured by native numbers, `Outcome` and
-- words; the witnesses and tests are in Tests.
pub mod Prelude
pub mod Frame
pub mod Boot
pub mod Host
pub mod Ppp
pub mod Quartz
pub mod Tests
