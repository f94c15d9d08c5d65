-- ===== src/Lib.antt =====
-- gdbserver: a stub of the GDB remote serial protocol for Magenta, on amd64.
--
-- The program. A debugger connects to bin/debugserver and sends packets. The server takes them out
-- of their frame, acknowledges them, and gives the payload to the command handler; responses, stop
-- replies and notifications go back in frames of their own. The debugged process, its threads,
-- their registers, breakpoints and exceptions are in lib/inferior-control, over the kernel's
-- calls; the encodings are in lib/debugger-utils.
--
-- The files, each with the code it is about:
--   Base           shared names, Boolean tests, lists, byte strings, signed integers
--   Hex            lib/debugger-utils/util.cc: HexCharToByte to DecodeString
--   Packet         bin/debugserver/util.cc: FindUnescapedChar, VerifyPacket, ExtractParameters
--   Ftl            the conversions of lib/ftl that the code calls, as parameters with laws
--   ThreadId       bin/debugserver/util.cc: ParseThreadId, EncodeThreadId, BuildErrorPacket
--   Rsp            bin/debugserver/server.{h,cc}: frames, acknowledgments, write tasks, notifications
--   ThreadActions  bin/debugserver/thread-action-list.{h,cc}: the argument of vCont
--   StopReply      bin/debugserver/stop-reply-packet.{h,cc}
--   Breakpoints    lib/inferior-control/breakpoint.cc, breakpoint-amd64.cc, memory-process.cc
--   Registers      lib/inferior-control/registers.cc, registers-amd64.cc
--   Thread         lib/inferior-control/thread.cc, and the single-step breakpoint; Thread.Signals is
--                  about arch-amd64.cc
--   Process        lib/inferior-control/process.cc (Launch, Control, ThreadMap, Dsos) and exception-port.cc
--                  (Port; Worker is about the thread that waits on the port)
--   Exceptions     Process::OnException and the delegate functions of bin/debugserver/server.cc
--   Handlers       bin/debugserver/cmd-handler.cc: the handlers of c, C, D, g, G, H, m, M, T, vAttach,
--                  vCont, vKill and vRun, and of the queries; Handlers.Monitor also has
--                  SetParameter and GetParameter of server.cc, and Handlers.Dispatch joins them
--   Argv           lib/debugger-utils/util.cc: EscapeNonPrintableString, BuildArgv, ArgvToString, basename
--   Debugserver    bin/debugserver/server.cc: OnBytesRead with HandleCommand of cmd-handler.cc
--   ByteBlock      lib/debugger-utils/byte-block.h, byte-block-file.cc, and ReadString of util-mx.cc
--   Elf            lib/debugger-utils/elf-reader.{h,cc}; Elf.BuildId is about ReadBuildId
--   Symtab         lib/debugger-utils/elf-symtab.{h,cc}
--   Dso            lib/debugger-utils/dso-list.{h,cc}
--   Cpuid          lib/debugger-utils/x86-cpuid.{h,cc}; Cpuid.Trace is about x86-pt.{h,cc}
--   Scanf          the conversions of sscanf that BuildIds and LoadMaps use
--   BuildIds       lib/debugger-utils/build-ids.{h,cc}
--   LoadMaps       lib/debugger-utils/load-maps.{h,cc}
--   Ktrace         lib/debugger-utils/ktrace-reader.{h,cc}: ReadFile
--   Decoder        lib/intel-pt-decode/decoder.{h,cc}; Decoder.Sideband is about sideband.cc
--   Ipt            bin/ipt/control.{h,cc}; Ipt.Config and Ipt.Server are about server.{h,cc}, Ipt.Options
--                  and Ipt.Actions about main.cc
--   Tests          the theorems at concrete inputs
--
-- How the code is read. Strings and buffers are lists of numbers below 256. An operation takes the
-- state of its object and returns the new one; a `bool` result stands beside the new state, an
-- early return without a change is `none`. In Process, Exceptions, Handlers, StopReply,
-- ThreadActions, Elf, Dso and Symtab `none` is a failed FTL_DCHECK, where the program stops; in Ipt.Options it is a refused command
-- line. Sums in a uint8_t, and the uint64_t keys of the exception port, are taken modulo 2^8 and
-- 2^64, and the size of a trace buffer, an int, wraps around at 2^32. Handles, keys and ids are 0 where they are invalid. An object that is compared by its
-- address (a pending notification) carries the address as a number.
--
-- What is a parameter. The kernel's calls (MemoryCalls, ThreadCalls, ProcessCalls), launchpad, the
-- command line of ftl, and lib/ftl are arguments of the definitions, and so are the calls on a
-- file (FileCalls), the cpuid instruction (Cpuid.Instruction), libipt and simple-pt
-- (Decoder.Libraries), the devices of a trace (Ipt.Devices), qsort, the growth of getline's
-- buffer, and the layout of a kernel trace's tags (KtraceFormat). A call answers as it likes; the
-- laws that some theorems ask for are named (MemoryLaws: a written byte is read back; FtlLaws:
-- numbers are printed and read back, and a text is split at its separators; GrowLaws: getline's
-- buffer holds the line and never shrinks; DescriptorLaws: the open descriptors are those that
-- were opened and not closed; CopyLaws: reads give the bytes of a buffer and writes append), and
-- Ftl.Sample and Tests give functions that satisfy them.
--
-- Fuel. The loops of the vCont parser and of BuildArgvFor_vRun and BuildArgv run on fuel: the
-- length of the text, since each round takes a byte at least. The link maps and the notes of an
-- object are read from memory and may be linked in a circle: their loops get the fuel from the
-- caller, and theorems say how much is enough for link maps that come to an end, and for a segment
-- of well-formed notes. A binary search has fuel for one round more than there are elements,
-- reading a kernel trace for one more than there are bytes, and copying a trace buffer for as many
-- rounds as it has bytes. Copying ktrace's records (DumpPerf) gets its fuel from the caller, since
-- the loop of the code may not end.
--
-- What is not modelled. FTL_LOG output; sockets, threads and the message loop, whose order of
-- events is taken as any sequence of steps (Rsp.Invariant, Process.Worker); the other
-- architectures, which report that they are unsupported; RunProgram and main of bin/ipt, and
-- bin/ipt-dump; functions that only print.
pub mod Base
pub mod Hex
pub mod Packet
pub mod Ftl
pub mod ThreadId
pub mod Rsp
pub mod ThreadActions
pub mod StopReply
pub mod Breakpoints
pub mod Registers
pub mod Thread
pub mod Process
pub mod Exceptions
pub mod Handlers
pub mod Debugserver
pub mod Argv
pub mod ByteBlock
pub mod Elf
pub mod Dso
pub mod Symtab
pub mod Cpuid
pub mod Scanf
pub mod BuildIds
pub mod LoadMaps
pub mod Ktrace
pub mod Decoder
pub mod Ipt
pub mod Tests
