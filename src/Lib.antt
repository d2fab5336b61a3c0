-- ===== src/Lib.antt =====
-- A model of the core of mario_js, a small JavaScript engine in C: the containers and the arithmetic that
-- its virtual machine stands on (mario/mario.c, mario/mario.h) and the scanner that its compiler reads tokens
-- from (mario/lex/mario_lex.c, mario/lex/mario_lex.h).
--
-- The parts. The engine keeps the members of its objects and its scopes in hash maps, its nodes and scopes
-- in pointer arrays, and the values of BigInt literals in big integers; the compiler
-- moves the scanner's read head over the source text and emits instruction words into the bytecode buffer,
-- whose strings stand in a pointer array that a hash map indexes. The garbage collector walks from the roots
-- of the machine over the hash maps of members and over the closures of functions.
--
--   Prelude   names and lemmas that the other modules share: lists measured by the native numbers,
--             integers, bitwise operations as arithmetic.
--   BigNum    bignum_t: the magnitude is the list of its limbs in use, least significant first, the sign
--             one of three. Order (bn_cmp_abs, bn_cmp), Add (bn_add_abs, bn_sub_abs, bn_add, bn_sub), Mul
--             (bn_mul), Small (bn_mul_small_inplace, bn_add_small_inplace, bn_divmod_small_inplace), BitAt
--             and Div (bn_divmod_abs, bn_div, bn_mod), Shift (bn_shl, bn_shr_mag, bn_shr). Limbs and Spec
--             say what the limbs stand for; Div.Long and Div.Signed are about the division.
--   HashMap   hash_map_t: the buckets are a list of chains of keys and values, so the capacity is its
--             length and a map without a bucket array has none. Keys, Chains, Buckets and Resize carry
--             the lemmas, Laws what the operations do.
--   Array     m_array_t: the buffer is the list of its slots, NULL is an absent pointer. Slots is about the
--             loops that move items, Laws about the operations.
--   Lexer     lex_t: the source text as its bytes, the two characters of the read head, the token. Head is
--             the invariant of the read head, Space the white space, Comment the comments, Utf the encoder
--             of code points, Escape the escapes of strings, Position lines and columns,
--             and Token the names, numbers and strings of lex_get_basic_token.
--   ByteCode  bytecode_t: the code is the list of the allocated words, the table of strings an Array and its
--             index a HashMap. Instr and Words are the instruction words, Emit what bc_add appends, Strings
--             the table and the index together (bc_addstr, bc_getstrindex), Jumps the patching of jumps
--             (bc_set_instr, bc_add_instr) and the handlers that take them, Marks the scan for jump targets
--             (bc_mark_jump_targets), Literals the numbers (bc_gen_str) and the handlers that push them.
--             A number literal rewrites its own words when the machine runs it with its cache of constants:
--             Literals.Cache, Literals.Repeat and Literals.Others are about literals that run again.
--   Mstr      mstr_t: the buffer is the list of its bytes, a C string the list of its bytes without the NUL.
--             Laws is about copies and appends, Split about mstr_split, which fills an Array.
--   Gc        the garbage collector: the vars of a heap and their functions by index, with the two flags of the
--             marking beside them. gc_mark with its calls for members, owners and captured chains; Roots the
--             roots and the two phases of gc_vars; Weak the registry of weak references and finalizers; Trigger
--             the guards of gc; CRoots the roots that natives park; Closure the binding of a function to the
--             one around it; Links the doubly linked list of add_to_gc and remove_from_gc and the
--             second step of gc_vars, which moves freed vars to the free list. Refers
--             says what a var refers to and Reachable which vars the kinds of roots lead to; Paths, Count, Walk and Visit are about a walk of gc_mark, Collect
--             and Unmark about the phases together.
--   Tests     the theorems at concrete inputs.
--
-- Words and loops. Numbers are natural numbers with the wrap of their type written out (% u32, % u64). A
-- carry or borrow loop over limbs recurs on the limbs; a loop over a bounded number of digits recurs on the
-- digits left; the loops of the scanner over the text run on rounds, one more than the bytes of the
-- source, each of which takes a byte, and give nothing when the rounds run out. Past the terminator, where a
-- name that the source ends in an unfinished \u makes the code read, the model of a run reads nothing. gc_mark is recursive on
-- fuel for the depth of its calls: each call that goes deeper flags one more var, so one more than the
-- number of the vars is enough. The walk over captured chains recurs on the rounds that its guard leaves.
--
-- Taken from outside. A new block of memory (mario_malloc, which the platform gives) holds anything: Array,
-- Mstr and ByteCode take its contents as a parameter. strtoull, strtoll and strtod are parameters of the
-- literals, with what the C library documents of strtoll on decimal digits as a hypothesis. The order of
-- the two halves of a 64-bit number in memory is a parameter. Whether a reallocation succeeds is a
-- parameter of Gc.CRoots. Whether
-- char is signed is a parameter of HashMap, where the hash depends on it; the scanner takes a char as its
-- byte.
--
-- Not modelled: capacities of limbs, the buffers of the scanner's strings, the pools of the virtual
-- machine, freeing and who owns a key, the operator tokens of the scanner (lex_get_char_token), the
-- printing of numbers (mstr_from_int) and mstr_to, the source map of the bytecode, the values of variables,
-- their reference counts and their teardown (var_free, var_clean), what the sweep of gc_vars does with a var that
-- passes its test (the write of gc_vars at the head included), the reuse of free vars (get_from_free),
-- the finalizers that run (vm_drain_finalizers), the virtual machine but for the handlers named above, the
-- compiler, the JIT, the built-in classes and the natives of the host.
pub mod Prelude
pub mod BigNum
pub mod HashMap
pub mod Mstr
pub mod Lexer
pub mod Array
pub mod ByteCode
pub mod Gc
pub mod Tests
