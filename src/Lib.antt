-- ===== src/Lib.antt =====
-- Pola PCE, a Path Computation Element for segment routing. A router (the PCC) opens a PCEP
-- session to it, reports the state of its SR Policies (PCRpt), answers requests or refuses them
-- (PCErr), and takes policies from it (PCInitiate, PCUpd). The development models the wire format
-- of PCEP (pkg/packet/pcep), the segments, the SR Policies and the traffic engineering database
-- (pkg/table), the path computation on that database (pkg/cspf) and a session with its tables
-- (pkg/server), and proves what each part promises to the others.
--
-- How the parts interact. A session reads a message header and a body, and the packet package
-- decodes the body into objects and these into TLVs. A state report goes to RegisterSRPolicy or to
-- DeleteSRPolicy, which change the session's list of policies. A request of the PCE takes an
-- SRP-ID and records what it asked for under it, as an intent. The report that answers the request
-- takes the intent, and a PCErr message or a failure to send makes the session forget it. The
-- database takes the elements of a BGP-LS update, and the path computation reads it: that every
-- update keeps it closed is what the path computation rests on.
--
-- Base and its children are shared: the Boolean tests, lists measured by native numbers, the
-- results of Go functions, and byte slices. A Go function with an error is a `Result`: `ok`, `err`
-- with the kind of the error in place of its text, `panic` for a run-time fault of an index or a
-- slice, and `stuck` for a loop that used up its fuel. `Ends` excludes the last two. Bytes are
-- numbers, an integer of w bits wraps by `% 2 ^ w`, and a slice of bytes is a list. Base.Bytes has
-- encoding/binary's accessors, Net what the code uses of net/netip and unicode/utf8, with
-- netip.ParseAddr in Net.Parse, and Strconv what it uses of strconv. A text is its bytes.
--
-- - Pcep.Wire: pkg/packet/pcep/pcep_util.go and tlv_common.go. Wire.Frame is about decodeTLVLength
--   and Wire.Padding about paddedLength.
-- - Pcep.Tlv: pkg/packet/pcep/tlv.go. Types has a constructor for every TLV, Write and Serialize
--   the Serialize and Len methods, Read the decoders of the single TLVs, and Sequence decodeTLV,
--   decodeTLVSequence and the TLV that holds TLVs (PathSetupTypeCapability). Ends, LeafEnds and
--   SequenceEnds are about faults and termination, Lengths about Len, and RoundTrip about reading
--   back what was written, for the TLVs that RoundTrip.WellFormed describes.
-- - Pcep.Header: CommonHeader and CommonObjectHeader, of message.go and object.go.
-- - Pcep.PcErr: SrpObject, PCEPErrorObject and PCErrMessage, of object.go and message.go.
-- - Pcep.Report: the structs of a state report, of object.go, and the methods that the session
--   reads them with. Report.Ero has the explicit route object and its three subobjects, Ero.Decode
--   their decoders, and Ero.Write and Ero.WriteSrv6 the making and writing of an SR-ERO and of an
--   SRv6-ERO. Ero.Prefix has the writing of the IPv4 prefix and is about its round trip.
--   Ero.Subobjects, Ero.Progress and Ero.Total are about faults and termination, Ero.Lengths and
--   Ero.LengthsSrv6 about what is written.
-- - Pcep.Objects: the other objects of object.go. Objects itself has the decoders, Objects.Write and
--   Objects.Policy the making and writing of what the PCE sends. The body of an object is a slice of
--   the message, whose capacity goes on to the end of it: a decoder takes what lies beyond the body,
--   too, since it may read it.
-- - Pcep.Reports: PCRptMessage of message.go, which puts the objects of a message together to state
--   reports. Reports.Framed is about its loop.
-- - Pcep.Requests: the other messages of message.go, and PolaCapability of capability.go.
--   Requests.Lengths and Requests.Policy are about the lengths of the objects that the PCE sends,
--   Requests.Initiate and Requests.Update about the lengths of the two messages.
-- - Table.Segment and Table.Policy: pkg/table/sr_policy.go.
-- - Table.Ted: pkg/table/ted.go, and the functions of sr_policy.go that make a segment of a text or
--   of a node. What the map and the links point to is in a store, and a pointer is a number in it.
--   Ted.Update has the UpdateTED methods, Ted.Closed and Ted.Kept are about the closed database,
--   Ted.Reads and Ted.Present about what is read from a node or a link.
-- - Table.SidValidate: pkg/table/sid_validate.go, with sets as lists of their members.
--   SidValidate.Labels and SidValidate.Known are about the labels of the index, SidValidate.Missing
--   about MissingSegments and SidValidate.Families about HasMixedSegmentTypes.
-- - Cspf: pkg/cspf/cspf.go. The map of nodes of a search is a list under distinct IDs, and a
--   parameter, `visit`, is the order in which Go iterates over it, some permutation in each round.
--   Cspf.Loose has loose source routing. Cspf.Walk states what is computed: the walks and the routes
--   of a database. Cspf.Nodes and Cspf.Next are about the map and nextNode, Cspf.Chain about the way
--   back over prevNode, Cspf.Invariant states what the loop keeps, Cspf.Relax, Cspf.Link and
--   Cspf.Links follow the links of a node, Cspf.Round a round of the loop and Cspf.Search all of
--   them, Cspf.Cover and Cspf.Shortest conclude, and Cspf.Joins, Cspf.Passes and Cspf.Plain are about
--   loose source routing.
-- - Server.SrpId, Server.Allocation, Server.Send, Server.Intents, Server.Session, Server.Policies
--   and Server.Errors: pkg/server/session.go. A `Session` is the struct, less its connection, logger
--   and locks. An operation that holds a lock takes a session and gives the changed one. Sending a
--   request holds none from the allocation of its SRP-ID to its end: what other goroutines do to
--   the session in between is a parameter, `Others`, and so is the connection's Write. The map of intents is an association list, whose keys the operations keep distinct,
--   and the pointers to policies are places in the session's list. Policies.Table states the list
--   as a map from PLSP-IDs, and Policies.Register and Policies.Delete the operations on that map.
-- - Server.Sessions: pkg/server/server.go, the list of sessions. A pointer to a session is a
--   number, and a store gives the session. `Step` is a round of Serve, the end of a session or a
--   change that a session makes to itself, so that an interleaving of the goroutines is a sequence
--   of steps. Sessions.Pointers is about lists of pointers, Sessions.Reach about the states that
--   the server reaches, and Sessions.Search about SearchSession.
-- - Tests: the theorems applied to concrete inputs.
--
-- Bounds and fuel. A loop over bytes has the length of its input as fuel, and each round takes
-- four bytes at least (a TLV or object header) or eight (an ERO subobject). The nesting of TLVs
-- has the length of the input as its depth: a nested sequence is shorter than the TLV that holds
-- it. The loop over the objects of a PCRpt message has its fuel as an argument, since it need not
-- end. The search for an SRP-ID makes max - 1 attempts, as the source does. SRP-IDs and their head
-- are numbers of 32 bits, and the head wraps as in Go. A path search has a round more than the
-- database has nodes as its fuel, since each round calculates a node that was not calculated, and
-- the way back over prevNode has as many. Costs wrap at 2^32 as in Go; the theorems on paths assume
-- that the number of nodes times the greatest metric stays below it.
--
-- Not modelled: the dispatch on messages and its goroutines in pkg/server, the printing of the
-- database, the gRPC server, the import of BGP-LS, and MetricObject.Serialize, which nothing calls.
-- Logging, configuration, text output and connections are input and output. A value of a
-- TLV whose length exceeds 16 bits is outside the model. The text of an error is not modelled,
-- only which check failed.
pub mod Base
pub mod Net
pub mod Strconv
pub mod Pcep
pub mod Table
pub mod Cspf
pub mod Server
pub mod Tests
