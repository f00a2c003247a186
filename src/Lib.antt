-- ===== src/Lib.antt =====
-- Verification library of the basic Windows drivers.
--
-- The repository holds sample kernel drivers and the programs that drive them. The parts are separate
-- binaries; they meet at the system's interfaces only: the controller registers the callout driver's
-- keys with the filtering platform and passes its process identifier in a filter's context, and the
-- booster's client sends the booster's driver a control request. The library models ten groups
-- of parts, each by a module with children, over the shared helpers of Base (tests on the native numbers, lists,
-- 32-bit words, NTSTATUS and the macros that read it, `int`).
--
-- FilterDriver: the NDIS lightweight filter, src/FilterDriver/main.cpp and src/FilterDriver/NfdCore.hpp.
--   Ndis          packets, status codes and the actions that a handler makes visible
--   Module        MS_FILTER and the state monad of its handlers: a record and a trace, newest first
--   DataPath      FilterSendNetBufferLists, FilterSendNetBufferListsComplete,
--                 FilterReceiveNetBufferLists, FilterReturnNetBufferLists
--   Interleaving  the handlers of DataPath, in the retail build, cut into the steps of calls that run at
--                 once: each shared access is a step. Counting and Exact have what the counters count,
--                 Progress the moves that are left, and Alone ties the steps to the handlers
--   Control       FilterPause, FilterRestart, FilterSetModuleOptions, FilterDevicePnPEventNotify
--   Run           the calls that NDIS makes of one module, in any order
--   Driver        the globals, the memory and the list of modules
--   Attach        FilterAttach and FilterDetach
--   Entry         DriverEntry, DriverUnload, the driver's device and its dispatch routines
--   Memory, Names, Attachment, Consistency, Resources, Locking, Sends, Receives, Forwarding, States
--                 the lemmas and theorems, by what they are about
-- Callouts: the filtering platform's callout driver, src/WPFCalloutDriver.
--   System        its globals (include/Globals.hpp), callouts (include/Callouts.hpp) and calls
--   Registration  its src/Driver.cpp, and the registration functions of its src/Callouts.cpp
--   Classify      the classify and notify functions of Callouts.cpp, GetProcessId of Util.cpp; Logging
--                 has LogFilter
--   Registered, Matching, ProcessId
--                 the theorems; ProcessId also models AddContext of
--                 src/WFPController/WindowsFilteringPlatform/wfpcontroller.wfp.cpp
-- Booster: src/PriorityBooster (Device: main.cpp, PriorityBooster.cpp, PriorityBoosterCommon.hpp) and
--   src/PriorityBoosterClient (Client: PriorityBoosterClient.cpp); Requests and Holdings hold the theorems.
-- Engine: src/WFPController/WindowsFilteringPlatform (wfpcontroller.wfp.cpp, wfpcontroller.wfp.callout.cpp) and
--   src/WFPController/main.cpp.
--   Platform      the filtering platform: the calls made of it, and what it answers
--   State         the members of WFPEngine and Callout
--   Handles       std::shared_ptr to a session: the last holder to let go closes it
--   Operations    the methods of Callout and WFPEngine
--   Controller    main: the words that are read, and what each does
--   Startup       src/WFPController/WinSock/wfpcontroller.winsock.winsockinit.cpp, and main with its object
--   Sequence, Sessions, Tracking (with Adding), Installed, Refinement, Destruction, Running, Ending, Leavings,
--   Scope, Steps, SetUp
--                 the lemmas and theorems: which sessions are open, which callouts the platform holds,
--                 when the loop ends, and what main leaves behind. Controller and Running use Sockets, and
--                 Startup and Scope use Errors.
-- Errors: src/WFPController/Error, and the classes WinSockError and WFPError (src/WFPController/WinSock,
--   src/WFPController/WindowsFilteringPlatform).
--   Format        FormatErrorMessage, with the replacement fields that it uses
--   Translate     FormatCode and TranslateErrorCode
--   Classes       the constructors of the three classes
--   Reading, Released, Lines
--                 the theorems
-- Keys: the keys of src/WFPController/wfpcontroller.identifiers.ixx and those of
--   src/WPFCalloutDriver/include/Callouts.hpp; Agreement joins Callouts and Engine.
-- IntegerList: src/SampleWdmDriver/src. Memory has AllocateMemory and DriverUnload of DriverMain.cpp,
--   Operators.cpp and the spin lock's classes.
-- NetworkFilter: src/NetworkFilterDriver2/main.cpp (Driver); Lifetime holds the theorems.
-- Kmdf: src/EmptyKMDFDriver (EmptyDriver), src/KmdfHelloWorld (HelloWorld) and src/WDFTestDriver (TestDriver),
--   over the calls of Framework; Startup holds the theorems.
-- Sockets: src/WFPController/WinSock/wfpcontroller.winsock.socket.cpp. Socket has the members of the class,
--   Reporting the exception at the end of Connect, with Strings and Errors, and Ownership and Connecting the
--   theorems.
-- Strings: src/WFPController/Strings/wfpcontroller.strings.cpp. Text has what the code uses of
--   std::wstring, Split has TokeniseString, Replace and Erase, Converting ConvertString, Older the two older
--   conversions and DoCaseInsensitiveMatch; Search and Pieces have the lemmas, and
--   Tokens, Replacing, Divergence, Terminators and Matching the theorems.
-- Each part has a module Examples with its tests and the theorems at concrete inputs.
--
-- How the code is rendered. A pointer or a handle is a number and null is 0; memory is a function from
-- addresses. Each call that leaves the code is an entry of a trace, newest first, and what the system
-- answers is an argument: a status in a record of replies. A ULONG counter keeps its wrap-around, by `% 2
-- ^ 32`. Where the code tests DBG, the build is an argument. A list of modules is the kit's LIST_ENTRY, an
-- interface with laws (FilterDriver.Driver.ListApi); the flag macros of NDIS
-- (FilterDriver.Ndis.NdisFlags), NT_SUCCESS and NT_ERROR (Base.NtStatus.NtMacros), CTL_CODE
-- (Booster.Device.Kit), std::stoul and std::stoi (Booster.Client.Library), the filtering platform
-- (Engine.Platform.Platform), the pool's routines (IntegerList.Memory.MemoryRoutines), the
-- conversions between encodings (Strings.Converting.Encoder, Strings.Older.Converter), tolower, MAKEWORD
-- and the system's messages (Errors.Translate.System) are parameters too.
--
-- Fuel. The loops of TokeniseString and Replace take fuel, since they do not end on every input; one
-- unit more than the text is long is enough when the delimiter is not empty, because every turn moves
-- on by at least one character. The loop of the controller's main takes fuel too; one unit more than the
-- number of words is enough when one of them is "exit". A decimal number
-- takes a unit of fuel for each digit; a DWORD has ten at most. All other loops are recursion on a list.
--
-- Not modelled. Lines printed for debugging, except where the callouts' lines carry the matched port; the
-- fields of MS_FILTER that no code reads; IRQL, except in ScopedSpinLock. Calls that run at once are
-- modelled for the data path of one module in the retail build (FilterDriver.Interleaving) with
-- sequentially consistent memory; elsewhere handlers run one after the other, and the traces show the
-- order of lock operations inside each. The messages with which each place of WFPController throws, except
-- in WinSockInit and at the end of Socket::Connect; how an exception is made is modelled in Errors. The
-- class Filter of src/WFPController, whose one method is empty. IntList of SampleWdmDriver and the
-- DriverEntry that makes one and deletes it: no code initialises the root of that list. ProtoDriver has
-- build files only.
pub mod Base
pub mod FilterDriver
pub mod Booster
pub mod Callouts
pub mod Engine
pub mod Errors
pub mod IntegerList
pub mod NetworkFilter
pub mod Keys
pub mod Kmdf
pub mod Sockets
pub mod Strings
