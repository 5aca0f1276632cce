-- ===== src/Lib.antt =====
-- dlis_parser: a parser for well logs in the DLIS format (RP66), an addon for Node written in C++.
-- A file is a storage unit label and visible records; a visible record holds segments of logical
-- records; a logical record is explicitly formatted (a set: a template of attributes, then objects
-- with values) or holds the data of a frame, channel by channel. The file comes in chunks. The
-- parser takes what is complete, keeps the rest, and sends messages and lines of curves.
--
-- The parts, and where they stand:
--   Base          numbers, integers, lists and options that all modules share
--   Codec         node-addon/src/common.cc and common.h
--     Memory      the bytes that a pointer leads to
--     Number      parse_ushort to parse_uvari
--     Text        parse_ident, parse_ascii, parse_obname, parse_objref, parse_dtime, trim
--     Outcome     what a call leads to: a result, exit, or undefined behaviour
--     Value       parse_value and the union it fills
--     Serialize   serialize_list_add and its relatives
--   Dlis          node-addon/src/dlis.cc and dlis.h
--     State       dlis_s, parse_state_s, frame_s, channel_s, dlis_init
--     Flags       the lrs_attr_ and eflr_comp_ tests
--     Trailing    padding_len, trailing_len
--     Template    the eflr_set_template_ functions
--     Headers     parse_sul, parse_vr_header, parse_lrs_header and the trailer
--     Skip        lrs_skip_unparsed_buff
--     Strings     sized_str_cmp, obname_cmp, channel_obname_cmp, frame_obname_cmp
--     Eflr, Iflr  the components of sets, and the data of frames
--     Heap        the lists of frames and channels
--     Events      the callbacks
--     NextState   next_state
--     Rounds      the rounds of the loop, one for each state of the parser
--     Parse       parse, the loop that calls all of these
--     Input       dlis_read, which takes a chunk in and parses
--     Reading     do_parse, which reads the file in pieces and sends the last message
--     Curve       write_to_curve_file and is_null_value
--     Measure     the number that every round of the loop in parse lowers
--     Sound       the states that the callbacks and the loop lead to: pointers and waiting bytes
-- A function of the source has the name of the source. It takes the state as an argument and gives
-- the new one back; a result of -1 is `none`. `exit` is a call of exit, `fault` is an access that C
-- leaves undefined, `hang` is a loop over a list of frames or channels that never ends: it has made
-- more steps than there are objects, so the list goes round. A callback adds to the state's events.
--
-- Memory is a function from addresses to bytes; the four buffers of 65536 bytes stand in it one
-- behind the other. Frames and channels are two lists, and their pointers are positions in them. An
-- unsigned int keeps its wrap-around; an int that counts bytes of a buffer does not overflow. A
-- double is the bits it was made from, and arithmetic on it is kept as an expression.
--
-- Loops run on structural recursion where the source walks over bytes. `parse_loop` and
-- `skip_blocks` take fuel; `skip_blocks` is given one round for each byte of the buffer, and a round
-- passes twelve. For `parse_loop` six rounds and three for each byte of a buffer and of the waiting
-- bytes are enough (`read_fuel`), since a round lowers three times the bytes that are left plus a rank
-- of the state, but for one state in which the program never returns.
--
-- The loop of `do_parse` is given one read more than the file has bytes; a read takes 4000.
--
-- Not modelled: the socket and the curve files on disk, printing (of a line of a curve the fields
-- are modelled, not their digits), the binding to Node, and the vendored libraries binn and libzmq.
-- The name of a curve file is a hash of a text that joins the logical file, origin, copy number and
-- name; here it is these four, so two channels whose texts are equal by chance stay apart. A file is
-- the list of its bytes. What the program asks of binn is recorded as
-- the list of its calls. What `dlis_init` leaves uninitialised is whatever the given state holds.
pub mod Base
pub mod Codec
pub mod Dlis
