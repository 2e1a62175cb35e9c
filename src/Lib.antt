-- ===== src/Lib.antt =====
-- The core of HORACE: records of observed events, their wire format, and their handling.
--
-- The program is a set of endpoints that exchange records. A record is a channel number and a list
-- of attributes; an attribute has a number and a content of one of eight classes, and a session
-- says which class a number has. Records are written to octet writers and read from octet readers.
--
--   Common      Outcomes (a value or an exception), machine words, lists, Boolean tests, the
--               operations of std::string (Text), decimal numerals, and postconditions of fallible
--               operations.
--   Wire        Integers on the wire. Wire.Unsigned and Wire.Signed are
--               horace/unsigned_base128_integer.cc and horace/signed_base128_integer.cc, with the
--               base-128 reads of horace/octet_reader.cc; Wire.Fixed has the fixed-width reads and
--               writes of horace/octet_reader.cc and horace/octet_writer.cc; Wire.Octets the plain
--               reads, where a stream is the list of octets that are still to come; Wire.Input and
--               Wire.Output the buffers of horace/octet_reader.cc and horace/octet_writer.cc, where
--               a direct write may fail when it has written a part.
--   Attribute   The attribute classes and horace/attribute_list.cc: the data, the numbers (Ids),
--               insertion in canonical order (Order), searching (Lookup), comparisons (Equal), and
--               `length` and `write` (Encode).
--   Session     horace/session_context.cc: types and labels, reserved (Session, Labels) and defined
--               by the records of a session.
--   Parse       `attribute::parse` of horace/attribute.cc, the constructors of the attribute
--               classes and of attribute lists from a reader.
--   Record      horace/record.cc. The constructor from a reader threads the session through the
--               definitions that the record carries.
--   Writer      horace/simple_session_writer.cc: the state machine that endpoints with a store
--               implement. The handlers of a subclass are a parameter, their calls are logged, and a
--               state is left also where an operation throws.
--   Builder     horace/session_builder.cc: the session record of a source.
--   PacketBuilder
--               horace/packet_record_builder.cc: the records of a captured packet.
--   LogBuilder  horace/log_record_builder.cc: the record of a log message.
--   SourceId    horace/source_id.cc: which source identifiers are accepted.
--   Uri         horace/uri.cc: the components of a URI and the URI that they make.
--   QueryString horace/query_string.cc: the parameters of a query string.
--   Netblock    horace/inet4_netblock.cc and horace/inet6_netblock.cc: the readers of netblocks.
--   Filter      horace/address_filter.cc: the compiler of netblocks to a program for the packet
--               filter of the kernel (Filter.Machine, a parameter with its documented behaviour),
--               and the filter object.
--   Syslog      endpoints/syslog+udp/syslog_parser.cc: the readers (Syslog, Fields), and
--               `read_message` with the calls of horace/log_record_builder.h that it makes (Message).
--   NewWriter   horace/new_session_writer.cc and horace/event_signer.cc: a captured session on its way
--               to an endpoint (Session), and the thread of the signer beside it, as steps in any
--               order (Chain). The session writer of the endpoint, the hash and the signature are
--               parameters.
--   FileStore   endpoints/horace+file: the names of spoolfiles (Spoolfile), the scan of a directory
--               of them (Scanner), the session writer (Output) and the session reader (Input). What
--               creates, opens, lists and deletes files is a parameter; the writer has, for each
--               file, the octets that went to its octet writer, and the reader those up to its end.
--   LeapSecond  horace/leap_second_corrector.cc, with the report of ntp_adjtime as an argument.
--   Tests       The theorems at concrete inputs.
--
-- Machine integers are natural numbers with the wrap-around written out; an int or an int64_t is
-- its two's complement pattern. Undefined behaviour, such as a shift by the width or more, is an
-- error of the model, and so is running out of fuel.
--
-- Fuel: the loops that shift a 64-bit word by seven or eight get ten or nine rounds, which the
-- theorems on lengths show to be enough. Parsing gets twice the number of octets left and one
-- more: each member takes two octets at least and costs two calls.
--
-- The decoding of a query string takes an octet at least in each round, and a buffered read fills the
-- buffer at most once for each octet. Twenty digits are enough for an unsigned long.
--
-- Not modelled: the ownership of attributes by lists; changes that a session keeps although the
-- record that made them then fails; what is printed; when octets of a spoolfile leave a buffer or
-- reach the disk; and the other endpoints, which are glue around system calls.
pub mod Common
pub mod Wire
pub mod Attribute
pub mod Session
pub mod Parse
pub mod Record
pub mod SourceId
pub mod Uri
pub mod QueryString
pub mod Netblock
pub mod Filter
pub mod Syslog
pub mod NewWriter
pub mod Builder
pub mod LogBuilder
pub mod PacketBuilder
pub mod Writer
pub mod FileStore
pub mod LeapSecond
pub mod Tests
