-- ===== src/Lib.antt =====
-- The loader of OPC UA nodesets (README.md): the elements of an XML nodeset are read into a
-- `Nodeset`, its references are resolved, and its nodes are sorted so that a server can add them
-- one after the other.
--
-- The parts of the program and the files that model them:
--   src/Node.c, src/Node.h                 Container (the growable array of node pointers), Node
--   include/NodesetLoader/NodesetLoader.h  Node (the structs of the node classes)
--   src/CharAllocator.c                    Arena (regions, blocks and the bytes in them)
--   src/AliasList.c                        AliasList
--   src/Nodeset.h                          Nodeset (the state that all operations share)
--   src/Nodeset.c                          Nodeset.Search (Nodeset_findByNodeId),
--                                          Nodeset.Sort (Nodeset_sort and its parts),
--                                          Build (what the XML handlers call), with
--                                          Build.Attributes and Build.Fields
--   (the functions that free memory)       Release
--   src/NodesetLoader.c                    Loader (parser states and context), Loader.Start,
--                                          Loader.End, Loader.Run (the three handlers),
--                                          Loader.Import (NodesetLoader_importFile, _sort)
--   backends/open62541/src/internal.h      Backend (the context; the server's interface)
--   backends/open62541/src/import.c        Backend.Namespaces, Backend.Parents,
--                                          Backend.Dimensions, Backend.Handlers,
--                                          Backend.AddNodes, Backend.Load
--   backends/open62541/src/DataTypeImporter.c
--                                          Backend.Encodings, Backend.Members,
--                                          Backend.DataTypes
--   backends/stdout/examples/main.c        Stdout
--   backends/open62541/examples            Examples (iterate.c), Examples.DataTypes
--                                          (dataTypeImport.c)
-- A definition has the name of its function without the module's prefix: `Nodeset_sortNodeClass`
-- is `sort_node_class`. Modules below these hold lemmas and theorems; Base holds what all share,
-- Ua what is taken from open62541, Samples concrete instances of the parameters, Tests runs.
--
-- How the parts are joined: the parser calls the handlers of Loader with elements and characters,
-- these call Build, which allocates texts in the arena, enters aliases and adds nodes to the
-- containers; Nodeset.Sort then moves the nodes from the containers of their classes to
-- `sorted_nodes`, and `for_each_node` hands them out in that order. The backend's `load_file` sets up
-- a context, imports a file with a callback that enters namespaces, sorts, and makes each sorted
-- node a call of the server, in three passes.
--
-- Conventions. Nodes live on a heap, a function from addresses; address 0 is NULL. A C string is the
-- list of its bytes, and a pointer that may be NULL is an `Option`. `Exec` has a value `fault` for
-- what the language leaves undefined: a NULL dereference, a cast to a struct that was not
-- allocated, a read in front of a buffer, a write or a string that does not end within its region
-- of the arena. Allocation fails where a flag says so (Container, Arena);
-- Build, Loader and Nodeset.Sort take it to succeed. Sizes are natural numbers, with the wrap-around
-- of `size_t` written out where the code decrements.
--
-- Bounds of the loops: a pass over a container has as many rounds as nodes, since a round either
-- takes a node away or goes on to the next; the retry of `sort_node_class` runs at most once more
-- than there are nodes, since every retry but the last took one away; the retry of `sort` over the
-- instance classes runs at most `rounds` times for the same reason; either of the two leaves
-- `out_of_fuel` in the log if it has to stop for want of fuel. The binary search halves its window. `load_namespaces` asks the server for one namespace after the other; fuel above the
-- number of the server's namespaces is enough. `iterate` follows references of the server; fuel
-- above the depth of the hierarchy is enough, if there is no circle. All other loops are recursions
-- on a list.
--
-- Parameters: open62541's node ids, their order and equality and the parsing of ids and names (Ua),
-- and how it prints an id; the C library's `qsort` (QSort); the callbacks of a file context
-- (FileContext); the events of libxml2, the position that it keeps and what it returns (Event,
-- Parser); the server with its namespaces, data types and decoding of values (Server), of which
-- KeepsNamespaces states what is documented of the namespace table.
--
-- Memory. A deletion is the list of the calls that give memory back, with blocks named by their
-- owners. What open62541 allocates inside ids, names and strings is one entry for each call that
-- clears it; whether two ids share it is not modelled, so that the code's repeated clearing of an id
-- that an alias shares does not fault here. A definition that a second Definition element of the
-- same UADataType replaces has no name: the code never frees it, and the list does not tell of it.
--
-- Not modelled: AddNodeContext_clear, which only frees what open62541 allocated; the set-up of
-- libxml2 in src/NodesetLoader.c; the translation of log levels and the texts of messages; how
-- the example programs make and run their server; tests.
pub mod Base
pub mod Ua
pub mod Container
pub mod Arena
pub mod Node
pub mod AliasList
pub mod Nodeset
pub mod Build
pub mod Loader
pub mod Backend
pub mod Release
pub mod Stdout
pub mod Examples
pub mod Samples
pub mod Tests
