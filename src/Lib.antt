-- ===== src/Lib.antt =====
-- libSloppy, a library of C++ helper classes: the parts that read, write and hold data.
--
-- The parts and how they interact. Memory.h has views of and owners of blocks of memory; the messages
-- of Net are written into a string of bytes and read through such views. String.h has the class
-- estring, which the CSV classes, the templates, the reader of configuration files and its checks use;
-- the templates look strings up in a configuration file. The queues, the
-- worker threads and the ranges stand alone.
--
-- Where the parts are modelled:
-- - Base: Boolean tests, lists under native numbers, the results of functions that throw (Result, with
--   the exceptions of the code and undefined behaviour as errors), integers.
-- - Memory (Sloppy/Memory.h): ArrayView as the list of its elements (elem_at is elemAt, slice_by_idx
--   and slice_by_count are the slices, chop_left and chop_right change the view). Memory.Arrays:
--   ManagedArray as address, contents and ownership; its operations return the array and the address of
--   the block that is deleted. The allocator is a parameter. Memory.Arrays.Ownership has the theorems.
--   Memory.Files (Sloppy/Memory.cpp and the class MemFile of Sloppy/Memory.h): reads of a mapped file.
-- - Net (Sloppy/Net/Net.cpp, Net.h): Net.Words has byte order, for hosts of either one; Net.Out is
--   OutMessage and TypedOutMessage, Net.In InMessage and TypedInMessage, a getter being a function from
--   the message to a result and the message after it. Theorems: Net.RoundTrip and below (what is written
--   is read back), Net.Safety (no read outside the message), Net.Refusals (errors), Net.Typed.
-- - Text (Sloppy/String.cpp, String.h): estring as the list of its bytes. Text.Edit has left, right,
--   slice and the like, Text.Trim trimming, Text.Search find and replace, Text.Split split and the
--   joining constructor, Text.Numbers isInt and isDouble, Text.Args arg (theorem in Text.Tags), Text.Case toUpper and
--   toLower, Text.Print to_string and stol. Text.Cuts, Text.Parts, Text.Joined and Text.Replaced
--   have the theorems on splitting.
-- - Csv (Sloppy/CSV.cpp, CSV.h): Csv.Escape has the escaping of strings, Csv.Values CSV_Value and its
--   text, Csv.Rows CSV_Row with splitInputInChunks, Csv.HeaderMap the map from headers to columns,
--   Csv.Tables CSV_Table and Csv.Texts its text. Theorems on escaping are in Csv.Unescape, on rows in
--   Csv.Scans, Csv.Fields, Csv.Quoting, Csv.RoundTrip and Csv.RowFaults, on tables in Csv.Names,
--   Csv.Columns, Csv.Models, Csv.HeaderRules, Csv.Naming and Csv.Renaming.
-- - Queue (Sloppy/ThreadSafeQueue.h): both queues; Queue.Steps has the interleavings of the writers and
--   the reader as a step relation, Queue.Reader the theorems.
-- - Range (Sloppy/GenericRange.h): GenericRange over any four relation operators; Range.Bounds has the
--   theorems.
-- - Config (Sloppy/ConfigFileParser/ConstraintChecker.cpp): the checks of integer ranges and string
--   lengths on top of Text.Numbers, with theorems in Config.Checks. Config.Parser
--   (Sloppy/ConfigFileParser/ConfigFileParser.cpp) has the sections, the getters and fillFromStream, of
--   which the regular expressions are functions on a line; theorems in Config.Lines and Config.Reading.
--   Config.Constraints has the other constraints, the checks of the parser and getValueAsBool, with
--   theorems in Config.Agreement; what the file system, the dates and the time zones say is the record
--   Environment.
-- - Worker (Sloppy/CyclicWorkerThread.cpp, CyclicWorkerThread.h): the calls of the controller and the
--   state machine; Worker.Loop has the main loop and the runs of both threads, Worker.Stats
--   (Sloppy/ThreadStats.cpp) the statistics. Theorems: Worker.Invariant, Worker.Transitions,
--   Worker.Liveness, Worker.Faults, Worker.Counts.
-- - Template (Sloppy/TemplateProcessor/TemplateSys.cpp, TemplateSys.h): the items of a syntax tree;
--   Template.Tokens has the regular expressions and checks of tokens, Template.Parse SyntaxTree::parse,
--   Template.Store the names, strings and variables of a store, Template.Render the rendering
--   (getSyntaxSubtree is get_syntax_subtree, getTemplate_Recursive get_template). Theorems on parsing are
--   in Template.Links, Template.Total, Template.Matches, Template.Parsing and Template.EmptyToken, on
--   rendering in Template.InProgress, Template.Lookups, Template.Ends, Template.Rendering and
--   Template.StoreFaults.
--
-- Conventions. size_t has 64 bits, and what wraps round is written out. A member function that changes
-- its object takes the object and returns it. Objects are distinct in an assignment, as self-assignment
-- has its own test in the code. Functions of the standard library (find, erase, stoi on ASCII digits,
-- isspace in the C locale, regex_replace for literal expressions) are modelled by what they do.
--
-- Bounds and fuel. The loops of split and replaceAll run on fuel one more than the length of the
-- string: each round moves on by a non-empty delimiter, and the theorems on them say that the result
-- is not that of lacking fuel. The walk through a syntax tree runs on fuel, one for each step to a
-- child, a sibling or an included template: a step leads to a later item of the tree, and a template
-- cannot be included while it is in progress. Digits are written in 20 rounds, more than a 64-bit
-- number has digits. The other loops are recursions on their data. What a step of a worker's thread
-- takes of time, and how its waiting ends, is an argument of the step.
--
-- Not modelled: the files of a template store, sockets and the classes of the other
-- directories (cryptography, mail, HTML, dates), and the vendored json.hpp, date.h and tz.
pub mod Base
pub mod Memory
pub mod Net
pub mod Text
pub mod Csv
pub mod Queue
pub mod Range
pub mod Config
pub mod Worker
pub mod Template
