-- ===== src/Lib.antt =====
-- A verification library for TinyC+, a compiler in C for a small language, with its runtime.
--
-- The compiler (compiler/) turns a source into C: a lexer, a parser, semantic analysis and code
-- generation over interned types. The programs that it makes are linked with the runtime
-- (runtime/): checked memory, strings, threads and channels, the Protobuf wire format, HTTP/2, a
-- terminal interface and the gap buffer of the editor.
--
-- Prelude has the names that all files share, and texts as lists of their bytes (Prelude.Text).
-- Machine has what C gives: size_t arithmetic with its wrap-around at 2^64 (add_size, sub_size,
-- mul_size), blocks of memory as functions from offsets to bytes with memcpy and memmove, the
-- allocator as a parameter that may refuse any request, and what the bit operations come to on
-- masks and fields.
--
-- Runtime.Gap is runtime/gapbuffer.c. `Gap` is TcGap (the fields data and end are called block and
-- stop), and the functions keep the names of the source without the prefix tc_gap_: create, seek,
-- insert, text, clean in Gap; previous, next, left, right, backspace, delete in Gap.Cursor;
-- line_start, line_end, home, to_end (tc_gap_end), line, column, vertical, goto_line, find,
-- cut_line in Gap.Lines. Loops recur on the rounds that are left; only the loop of tc_gap_column
-- takes fuel, one round for each byte before the cursor. Gap.Valid has the invariant and the text
-- that a buffer stands for: the bytes before the gap and those behind it. Text is at most 2^26
-- bytes, so that no counter of type int overflows.
--
-- Runtime.Protobuf is runtime/protobuf.c. Writer has TcPbWriter and the tc_pb_write functions,
-- Reader has TcPbReader and the tc_pb_read functions, tc_pb_next and tc_pb_skip. The doubling of
-- tc_pb_append has fuel for 20 rounds, which from 128 bytes passes the limit of 2^26; the skipping
-- of nested groups has two rounds for each byte of the input and two more. Both are shown to be
-- enough. The data of a writer is NULL exactly while its capacity is 0. Protobuf.Utf8 has
-- tc_pb_valid_utf8, with a round for each byte, and beside it UTF-8 as an encoder of scalar values.
--
-- Runtime.Channel is the bounded channel of runtime/concurrent.c. Each operation is one critical
-- section of the channel's mutex; where the code waits on a condition variable the result is
-- `waits`, and the section runs again when the thread wakes up. Channel.History has any number of
-- threads whose critical sections interleave. malloc is taken to grant no more than PTRDIFF_MAX
-- bytes.
--
-- Runtime.Semaphore is the semaphore of runtime/concurrent.c and the event, which is the same struct.
-- Each operation is one critical section. Semaphore.Wakeups has the threads and the condition
-- variable: a thread that waits is parked, a signal wakes a parked thread if there is one, and a
-- parked thread may also wake without a signal, as pthread_cond_wait allows.
--
-- Runtime.Pool is TcJob and TcPool of runtime/concurrent.c. Jobs are known by the addresses that
-- malloc hands out, so that the queue is a chain of links; Pool.Chain says which queue a pool stands
-- for, where malloc hands out no memory that is in use. `submit`, `next_job` (the critical section of
-- pool_worker) and `stop` are the critical sections; Pool.Workers has the submitters, the workers and
-- the destruction, which interleave in any way: a worker is parked, awake, running or gone.
--
-- Runtime.Future is TcFuture, whose operations keep their names (tc_future_then is then_do), and
-- Future.History the threads that share one: each holds a reference while it calls an operation, and
-- hands the continuations that the operation took over one by one when it has released the lock. What
-- tc_pool_submit answers to a continuation may differ from call to call. Runtime.Scheduler is the
-- count of pending tasks with tc_scheduler_start and tc_scheduler_shutdown, and Runtime.Atomic
-- TcAtomic; both are of runtime/concurrent.c too.
--
-- Runtime.Grpc is runtime/grpc.c without nghttp2 and the sockets. Message has TcGrpcBuffer, the frame
-- of a message and TcGrpcResponse; Stream has TcGrpcStream and the callbacks for its headers and data,
-- which are functions of what nghttp2 hands them; Server has the routes, tc_grpc_answer,
-- tc_grpc_server_add and the end of tc_grpc_call. What nghttp2 carries from one side to the other is
-- headers in their order (Headers has a stream that hears them) and bytes in chunks of any sizes. The doubling of tc_grpc_buffer_add has fuel for 24 rounds, which from
-- 256 bytes, and from one, passes the limit of 2^22 + 5.
--
-- Runtime.Library is of runtime/library.c and runtime/tiny_runtime.h: the functions on strings, under
-- their names without tc_string_ or in full where those are taken, the checks of index and slice, and
-- the hashes. A TinyString is the list of its bytes. Library.Strings has what the searches find.
--
-- Runtime.Tui is of runtime/tui.c: tc_utf8_encode and tc_utf8_decode, and the cells of a window with
-- tc_ui_clear, tc_ui_put, tc_ui_text and tc_ui_text_clip, whose loop has a round for each byte.
--
-- Compiler.Lexer is compiler/lexer.c. A source is the list of its bytes, which a zero ends; Cursor is
-- s + i with line and col, Tokens the token array of the context. Scan has one round of the loop of
-- lex (scan), push, the loop and lex; Number and Literal the parts for literals. A loop is a body
-- that gives the next state or what the loop ends with, on fuel (Compiler.Loop): a byte that is left
-- is a round, and one round more. tc_error does not return: it is the result `error`. Running out of
-- fuel is the result `stuck`, which none of the results below allows. ctype.h is that of the "C" locale.
--
-- Compiler.Buffer is the buffer of compiler/util.c that generated code is written into: buf_grow, whose
-- loop of doublings has fuel for 64 rounds, and buf_add. An exit of the process is a result.
--
-- Compiler.Types is compiler/types.c. Table has the fields of Context that it uses: the list of
-- types, newest first, the primitive types that were made (builtin) and the counter of numbers. A
-- type is known by its place in the list counted from the oldest, so that pointers compare as
-- places do. Types has the lookup of places, Types.Equal type_equal, with fuel for the depth of its
-- calls, Types.Create the functions that find or make a type, under their names in the source.
-- Types.Closed says when a table is sound: every type refers to older ones only, the primitive
-- types are in the table, and no type has the name "Function" and items, which the parser gives to
-- the types of functions before it changes them; Types.Change has such changes. tc_alloc either
-- succeeds or ends the run.
--
-- Compiler.Parser is compiler/parser.c, with the functions' names of the source; a branch of a long
-- function has a name of its own. State is what the parser changes of Context, the tokens from pos
-- on, the depth of nesting and the table of types. A part of the parser is a function from a state
-- to a result and a state, put together in do blocks. Parser.Tree has the nodes, whose links are
-- trees; owners and declarations are numbers of nodes. Parser.Integer is strtoull with base 0.
-- TypeName has parse_type, Ahead the functions that look ahead, Lambda, Primary and Expr the
-- expressions, Variable and Stmt the statements, Declaration, Class and Program the declarations
-- and parse. The functions that parser.c declares ahead are fields of a record (TypeName.Below)
-- that the other functions take; Program.declared_ahead ties them, with fuel for the depth of the
-- calls. Each such call has taken a token before, so the number of tokens is enough. A loop takes a
-- token in each round, and has as many rounds as there are tokens, and one more. Parser.Runs says
-- what every part keeps, Parser.Steps and Parser.Loops show it for the smallest parts and the
-- loops, Parser.Parts has the rules that put parts together, and TypeRuns, ExprRuns, StmtRuns and
-- DeclarationRuns go through the functions. Compiler.Front is lex and then parse on a new context,
-- as compiler/main.c runs them to print the tree.
--
-- Compiler.Semantic is of compiler/semantic.c: promote and numeric_common, and returns, which decides
-- whether a statement returns on every path; one walk over the nodes gives what its loops over the
-- statements of a block and the cases of a switch need. Semantic.Paths has the ways through a
-- statement, and Semantic.Conversions the usual arithmetic conversions of C.
--
-- Not modelled: the release of memory; native threads, mutexes and condition variables; files,
-- sockets, processes and the terminal, with its keys and widgets; the printing of tokens and trees; the compiler's driver, its
-- modules and generics, the rest of the semantic analysis and code generation; nghttp2 and TinyCC.
pub mod Prelude
pub mod Machine
pub mod Runtime
pub mod Compiler
