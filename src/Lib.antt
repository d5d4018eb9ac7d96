-- ===== src/Lib.antt =====
-- The C core of matlab-zmq: MEX functions that hand the calls of MATLAB to libzmq.
--
-- Each file of src/core is one MEX function, which tests its arguments, converts them to C values
-- in blocks of MATLAB's memory manager, calls libzmq, and converts what comes back or throws a
-- MATLAB error. The files of src/util are what they share: the conversions (conversions.c), the
-- tables of socket types (socket.c) and socket options (sockopt.c), and the errors (errors.c).
--
-- How a function is modelled. A MEX function is a function from a state to an outcome and a state
-- (Mex/Exec): it returns its outputs, throws what it gives to mexErrMsgIdAndTxt, or does what C
-- leaves undefined, such as a read past the end of a buffer or of prhs, or a free of a block that is
-- not allocated. The state (Mex/Memory) has the blocks that are allocated, the calls of libzmq with
-- their arguments, the warnings, and the world: MATLAB's and libzmq's own state, with errno. The
-- MATLAB API (mex.h), libzmq (zmq.h) and doubles are not code of the repository: they are the fields
-- of the record Host in Mex/Host, and IsLawful lists what their documentation says as hypotheses.
-- A cast of a double to an integer type is undefined in C unless its truncation is a value of that
-- type: the fields casts_to_* of the host say for which arrays it is one, the casts of the model are
-- undefined for all others, and the theorems have what they need of this as hypotheses. A warning
-- is recorded with its arguments; what a format makes of arguments of other types is not modelled.
-- The values of the C constants are fields too (Mex/Constants). A statement `Ends Q E run`
-- (Mex/Exec/Ends) says that the run is defined, that Q holds where it returns, and E where it throws.
--
-- Which file models which part:
--   Prelude                  numbers, lists, C strings, integers in memory
--   Mex                      outcomes, the host, memory, and the laws of both
--   Util/Table               the loops over constant tables of errors.c, socket.c and sockopt.c
--   Util/Errors              src/util/errors.c: find_error_by_id, handle_error
--   Util/Conversions/Matrix  src/util/conversions.c: the loop of the *_matrix_to_m functions
--   Util/Conversions/ToM     src/util/conversions.c: the *_to_m functions
--   Util/Conversions/FromM   src/util/conversions.c: the *_from_m functions
--   Util/Socket              src/util/socket.c: socket types, socket_error
--   Util/Sockopt             src/util/sockopt.c: socket options, their types, mechanisms
--   Core/Result              how a return code of libzmq is handed to MATLAB
--   Core/Endpoint            src/core/bind.c, unbind.c, connect.c, disconnect.c: mexFunction
--   Core/Send                src/core/send.c: mexFunction, configure_message, configure_flag
--   Core/Recv                src/core/recv.c: mexFunction, configure_flag, configure_return,
--                            configure_buffer_length
--   Core/Setsockopt          src/core/setsockopt.c: mexFunction
--   Core/Close               src/core/close.c: mexFunction
--   Core/Context             src/core/ctx_new.c, ctx_shutdown.c, ctx_term.c: mexFunction
--   Core/Arguments           the tests of the arguments that nine of the functions share
--   Core/Name                the copy of a name: src/core/socket.c get_socket_type, ctx_get.c and
--                            ctx_set.c get_option_name
--   Core/Socket              src/core/socket.c: mexFunction, core_socket
--   Core/Getsockopt          src/core/getsockopt.c: mexFunction
--   Core/ContextOptions      src/core/ctx_get.c: mexFunction, core_ctx_get; src/core/ctx_set.c:
--                            mexFunction, core_ctx_set
--   Core/Poll                src/core/poll.c: mexFunction, validate_input, parse_poll_items,
--                            create_output
--   Core/Version             src/core/version.c: mexFunction
--   Core/Roundtrip           the conversions of an option, to C and back
--   Session                  the functions together: commands, what each may do (Spec), and sequences
--                            of commands that return or throw (Traces, Blocks)
--   Tests                    a concrete host, and the theorems at concrete inputs
--
-- The proofs of a component stand in its Laws file and, where that is too large,
-- in files beside it (Flags, Options, Return, Values, SetOption, GetOption, Selected, Get, Set,
-- Items, Errors, Outputs, Types, Names, MechanismNames, MechanismLaws, Decimal).
--
-- Bounds. No definition runs out of fuel: the loops run over tables, over the arguments or up to a
-- given count, and ten digits are enough for an int. Integers have the widths of the 64-bit
-- platforms for which the repository has binaries, little-endian and in two's complement, except
-- for pointers, whose size is a field of the host. The int counters of the matrix loops are natural
-- numbers, which agree with them below 2 ^ 31. mxCalloc and mxMalloc may return NULL, which most of
-- the code tests for. Where it does not (Core/Name, Core/Poll, Core/Version) the hypothesis
-- Allocates says what MATLAB documents: mxCalloc ends the function itself where it finds no memory.
-- A second output of Core/Poll exists where MATLAB has put something there before the call (the
-- field output_set of the host).
--
-- Not modelled: the MATLAB classes of lib, JeroSocket.m, make.m, the benchmarks, the examples
-- and the tests, which are not C; of sockopt.h and the other headers, the declarations.
pub mod Prelude
pub mod Mex
pub mod Util
pub mod Core
pub mod Session
pub mod Tests
