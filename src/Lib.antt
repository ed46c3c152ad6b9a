-- ===== src/Lib.antt =====
-- cecil-rs: reading and writing .NET assemblies. This library models the crates that the others
-- stand on: `cecil-core`, the instruction codec of `cecil-cil`, and of `cecil-metadata` the tables,
-- the heaps, the reader and the builder.
--
-- The parts and their files:
--   Base             what all files share: tests and lists over native numbers, integers, bits
--   Core.Error       crates/cecil-core/src/error.rs. `Result` has two ends more than the code's: a
--                    panic, and a loop of the model that has used up its fuel
--   Core.Reader      crates/cecil-core/src/io.rs, `ByteReader`. A read takes a reader to a value and
--                    the moved reader. Laws: what a read takes from known bytes. Safety: what it does
--                    on any bytes
--   Core.Writer      crates/cecil-core/src/io.rs, `ByteWriter`. Laws: the bytes of each write.
--                    RoundTrip and Signed: compressed integers. Align: the loop of `align`
--   Core.TableIndex, Core.TokenType, Core.Token
--                    crates/cecil-core/src/token.rs: the tables, the types of tokens and the tokens
--   Cil.Code, Cil.OpCode, Cil.OpCodes, Cil.Instruction
--                    crates/cecil-cil/src/code.rs, opcode.rs, opcodes.rs, instruction.rs: the 219
--                    instructions, their descriptors, the two tables by which a byte finds its
--                    descriptor, operands
--   Cil.Variable     crates/cecil-cil/src/variable.rs
--   Cil.Read         crates/cecil-cil/src/body.rs, `read_code` and what it calls
--   Cil.Write        crates/cecil-cil/src/body.rs, `write_code` and what it calls
--   Cil.RoundTrip    one against the other: operands, instructions, bodies
--   Cil.Header       crates/cecil-cil/src/body.rs, the header of a method body. Fat: the bytes of a fat one
--   Cil.Exceptions   crates/cecil-cil/src/exceptions.rs: a clause in either form, and in
--                    Cil.Exceptions.Section the sections of clauses
--   Cil.Body         crates/cecil-cil/src/body.rs, `decode_method_body` and `encode_method_body`. RoundTrip:
--                    one against the other, from NoHandlers and WithHandlers
--   Cil.Safety, Cil.Encoding
--                    `read_code` on any bytes, and `write_code` on any instructions
--   Metadata.Coded   crates/cecil-core/src/token.rs and crates/cecil-metadata/src/tables.rs: indices
--                    that several tables share
--   Metadata.Schema, Metadata.TableSet
--                    crates/cecil-metadata/src/tables.rs: the columns of each table, and the layout
--                    of the table stream. Layout: one row. Invariant and Step: the loop over the
--                    tables. Cells, Bounds, Disjoint, Total: `cell_location`. Checked:
--                    `compute_checked`
--   Metadata.Heaps   crates/cecil-metadata/src/heaps.rs: lookups by index
--   Metadata.Root    crates/cecil-metadata/src/root.rs: the directory of streams
--   Metadata.Reader  crates/cecil-metadata/src/reader.rs: parsing a root, and its cells
--   Metadata.Builder crates/cecil-metadata/src/builder.rs: HeapIndex, the chains of payloads with one
--                    hash; HeapBuffer, the heaps of strings and blobs, which both fill the interface
--                    `Interning`, over which runs of insertions are studied; UserStrings and Guids,
--                    the other heaps; Rows and Finalize, `MetadataBuilder`
--
-- `Cil.Read` runs on `Core.Reader`, `Cil.Write` on `Core.Writer`; both share the descriptors of
-- `Cil.OpCodes`. A proof about the codec never opens a read or a write: it composes the records
-- `Decodes`, `Writes`, `Round` and `Takes`.
--
-- `Metadata.Reader` runs on `Metadata.Root` for the streams, on `Metadata.Heaps` for their payloads and
-- on `Metadata.TableSet` for the places of cells; the heaps that `Metadata.Builder` writes are those that
-- `Metadata.Heaps` reads. A string is the list of the bytes of its UTF-8 form. The hash of the builder's
-- maps and the conversions between UTF-8 and UTF-16 are the standard library's, and are parameters; a
-- map from hashes or table numbers is a function.
--
-- Numbers. A `usize` is a natural number; where a sum can wrap or overflow, this is written out. A
-- byte and an unsigned word are natural numbers, a signed word is an integer, and a float is the
-- pattern of its bits. `checked_add`, `checked_sub` and `checked_mul` on `i32` are the operation on
-- integers and a test of the range.
--
-- Fuel. The loop of `read_code` has the size of the code as fuel: each round takes a byte. The loop
-- of `align` has the alignment as fuel: a round is one byte closer to a multiple of it. The loop over
-- exception sections has a round for each byte and one more. A search along a chain of the heap index
-- has a round for each entry and one more, since a chain goes down in the entries.
--
-- Not modelled: the texts of error messages, `Display`, capacities of vectors, and the parts that
-- rest on these: the reader's budget of materialisation, portable executables,
-- debug files, the object model.
pub mod Base
pub mod Core
pub mod Cil
pub mod Metadata
