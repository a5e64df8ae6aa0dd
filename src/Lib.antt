-- ===== src/Lib.antt =====
-- serify: a model of the conformance runner for serializers, and the theorems about it.
--
-- serify runs the same test cases through workers, one process for each language. The runner
-- (internal/orch) binds every worker to a type and a format, lets each serialize the data of a case,
-- compares the bytes with those of a reference worker, lets each deserialize the reference's bytes and,
-- on request, those of every other worker. Each verdict is a row of a table (internal/report), which
-- decides the exit code. A worker process is driven over its pipes (internal/worker) by messages
-- (internal/proto), which the worker's library (lib/go/serify) answers.
--
-- The files:
--   Base      what the source takes from Go's library: byte strings, maps as association lists, hex,
--             decimal and quoted text, sorting; tests and list lemmas
--   Kind      internal/kind/kind.go: the scalar kinds and SplitTopLevel; Kind/Split is its theorem
--   Conf      the types of internal/conf/conf.go: schemas, test cases, suites, expected skips
--   Proto     the messages of internal/proto/proto.go; Proto/Encode is EncodeData, with encodeCase and
--             jsonRoundTrip of internal/orch/orch.go, and Proto/Keys says what they keep
--   Cmp       internal/cmp/cmp.go: HexDiff and DataDiff; Cmp/Equal says when they are empty, Cmp/Window
--             what they show
--   Worker    internal/worker/worker.go: Bind and Send, and Worker/Life for Start, ping and Stop;
--             Worker/Death is about the flag `dead`, Worker/Match about which answers are accepted
--   Report    internal/report/report.go: Add, Success, the counters of printTable; Report/Cells is about
--             one cell, Report/Failures about the exit code, Report/Interleave about goroutines;
--             Report/Types is unimplementedTypes; Report/Records is Records of
--             internal/report/records.go, and Report/Grid its theorems
--   Orch      internal/orch/orch.go: Orch has the verdicts, Orch/Rounds the three rounds of a case,
--             Orch/Case the matrix and Run, Orch/Suite RunSuite, and Orch/Skips is
--             internal/orch/coverage.go. Orch/Verdict, Orch/Pending, Orch/Complete, Orch/Untouched,
--             Orch/Compared, Orch/Exit, Orch/Matrix, Orch/Placed, Orch/Coverage, Orch/Ids and
--             Orch/Declared hold the theorems; Orch/Fleet takes the workers of Worker as the orchestrator's
--   Serve     lib/go/serify/run.go: the state of a worker's loop, bind and the audits; Serve/Dispatch is
--             the switch on the op and the loop, Serve/Answered and Serve/Bound are its theorems, and
--             Serve/Runner joins it to the runner's Send; Serve/Wired takes the field maps of Wire as its
--             Codec
--   Wire      lib/go/serify/protocol.go: Wire/Json reads JSON values, Wire/Decode is DecodeFieldMap,
--             with its steps in Wire/Decode/Parts, Wire/Encode EncodeFieldMap, Wire/Schema is
--             SchemaFields of internal/proto/proto.go and FieldType.String of internal/conf/conf.go,
--             Wire/Typed the types of field maps; Wire/Access is lib/go/serify/fieldmap.go.
--             Wire/RoundTrip, Wire/Types, Wire/Lost and Wire/Kept hold the theorems; Wire/Utf8 says which
--             texts JSON keeps; Wire/Text, Wire/Scalars, Wire/Elems, Wire/Forms, Wire/Sizes, Wire/Fresh,
--             Wire/Slices, Wire/Structs, Wire/Shapes, Wire/Arms, Wire/Ranges, Wire/Collect and
--             Wire/Sound hold lemmas
--   Schema    internal/conf/schema.go: the sections of a type file and the resolver; Schema/Resolve is
--             typeOf, with ParseType of internal/conf/conf.go; Schema/Data is
--             internal/conf/casedata.go, and Schema/Validate is validate of internal/conf/conf.go.
--             Schema/Read and Schema/Loops hold the theorems on typeOf, with the lemmas in Schema/Text
--             and Schema/Parse, Schema/Ranges that on case data, with its lemmas in Schema/Fits and
--             Schema/Items, and Schema/Valid that on validate
--   Each part's Tests file applies the theorems to concrete data.
--
-- How the source is read:
--   - strings and byte slices are lists of numbers; a Go map is an association list in one of the orders
--     in which range may take it; an error is its text, with a kind where the source tests for one
--   - a method under a mutex is one step on an explicit state; a goroutine of a round acts on its own
--     worker, and its rows are added in the order of the languages
--   - the operating system (Process), the machine's floats (Floats), github.com/google/go-cmp (GoCmp),
--     json.Unmarshal (Json), the conversions of floats in a worker (Go), the nodes of
--     gopkg.in/yaml.v3 (Yaml) and the user's functions (Codec, Format) are parameters. The orchestrator
--     takes the workers as the interface WorkerApi, the worker's loop the field maps as Codec
--   - hexRows runs on fuel, the number of offsets plus one, and the decimal and hex digits of a number
--     on the number plus one
--   - typeOf calls itself on parts of an expression and on the expressions of named types, and runs on
--     fuel: the depth of a type plus one reads its text. What an array of negative length would be is
--     left open, as the outcome `outside`
--   - a field map keeps its pairs in the order of its fields, and the JSON of an object the order of its
--     keys; a slice has the Go type of its elements
--   - what JSON carries is written out: numbers come back as float64, a byte of a string or a key that is
--     no part of valid UTF-8 becomes U+FFFD (Base/Utf8), and a NaN or an infinity cannot be written. A
--     line of a worker's loop is the response that is read from it, or none where it is empty
--   - bytes are numbers below 256 where a theorem needs it, and lengths are not bounded by 2 ^ 63
--
-- Not modelled: the reading of files in internal/conf, the printed forms of the report, the builder and
-- the command line, which are input and output; in lib/go/serify the reflection, whose values have no
-- counterpart here, the comparison of field maps in the audits and the suite that runs in one process;
-- and the libraries of other languages.
pub mod Base
pub mod Kind
pub mod Conf
pub mod Cmp
pub mod Proto
pub mod Worker
pub mod Report
pub mod Orch
pub mod Serve
pub mod Wire
pub mod Schema
