-- ===== src/Lib.antt =====
-- diffmonger: incremental backups as a tree of snapshots.
--
-- A repository is a directory with one subdirectory for each node (src/RepositoryStructure.cpp).
-- Node n holds the difference to its parent, n with its lowest set bit cleared, so that a restore
-- reads the Fenwick path of a node; a node dies three times its lowest set bit later, which keeps
-- the number of nodes logarithmic (src/diffmonger.hpp). The breadcrumb is the first node that is not
-- trusted yet; the controller (src/Controller.cpp) trusts a new node after a quarantine
-- (src/Trust.cpp) and prunes what dies with it.
--
-- Parts and files:
--   Base           numbers, tests, lists, 64-bit words, integers
--   Error          the exceptions that are thrown, and results
--   Tree           src/diffmonger.hpp: fenwick_path_exc_root, fenwick_path_inc_root, fenwick_parent,
--                  alive_after, time_of_demise, prune. A functor is the list of the nodes it is
--                  called with, and how the call ends. Tree/Spec has what they are to compute.
--   Node           src/Node.hpp
--   Serialisation  libs/util/include/diffmonger/util/Serialisation.hpp
--   Encoded        the files id, breadcrumb and initargs: src/BackendDriver.cpp and
--                  src/RepositoryStructure.cpp
--   Repository     src/RepositoryStructure.cpp: the state is the files, operations are functions of
--                  it; one that may throw also returns its result, and keeps the changes made
--                  before. Repository/Commit has the temporary snapshot and, of src/Controller.cpp,
--                  store_snapshot, Repository/Relative the nodes by their distance, and
--                  Repository/Create the creation and the opening of a repository.
--   Trust          src/Trust.cpp: maybeUpdateBreadcrumb
--   Controller     src/Controller.cpp: prune and prune_repository. Controller/Steps has the file
--                  operations that pruning is made of.
--   Uuid           libs/util/src/Uuid.cpp and its header
--   Zfs            src/zfs.cpp and src/zfs.hpp: names, guids and the listing of snapshots. The
--                  commands of Zfs/Commands run under a parameter that answers each one.
--   ZfsDriver      src/ZfsDriver.cpp: the ids of snapshots and the methods of the driver
--   Sodium         the functions of libsodium that are called, as an interface with its laws
--   KeyPair        src/KeyPair.cpp: key pairs, their file form and their decryption
--   Encryption     src/EncryptionUtil.cpp: encryptToFd and decryptFromFd, on the bytes read and
--                  written. Encryption/Laws has the messages, Encryption/Entries the key slots.
--   KeySlots       the key files of src/RepositoryStructure.cpp, and decryptKeyPair
--   Payload        src/Controller.cpp: the encryption and decryption of payloads by the key slots
--   Backend        src/BackendDriver.hpp: a backend as an interface, which ZfsDriver fills
--   Restore        src/Controller.cpp: restore. Restore/Backend has the laws that it relies on in a
--                  backend, Restore/Driver what the ZFS driver promises of them,
--                  Restore/Run the loop, Repository/Nodes the list of nodes that it uses.
--   Snapshot       src/Controller.cpp: _snapshot and snapshot, whose state is the repository and the
--                  world of the backend. Snapshot/Source has what they rely on in a backend, and
--                  when both are in order, Snapshot/Restored the restore of what was taken,
--                  Snapshot/Encrypted that with the encryption,
--                  Snapshot/Driver what the ZFS driver promises by what zfs does, and Snapshot/History what a
--                  repository goes through from its creation.
--   Export         src/Controller.cpp: snapshot_import and export_repository
--   Parser         libs/util/include/diffmonger/util/parser/Parser.hpp: Parser/Arguments has what an
--                  argument is, Parser/Parse the parser, Parser/Values the values, Parser/Render
--                  the grammar. A command is its number, since it stays where it is in memory.
--   CommandLine    src/CommandLineInterface.cpp: the nodes, the durations and the password of the
--                  command line
--   Examples       runs on small inputs
--
-- Bounds: nodes are 64-bit words. alive_after throws for a node of 2 ^ 63 or more, so the laws
-- of the tree are for smaller ones. The loops of the tree have fuel for one round for each bit,
-- 64, or 65 for a path with its end. The rounds of prune_repository are fuel, of which a run
-- takes one for each node that it trusts and one more. The loop of getNextSnapshotNode has fuel
-- too; it does not always end. The listing of snapshots has its length as fuel, which is enough
-- since each line has a newline; the loops of decryptFromFd have fuel for their rounds, one for
-- each entry and for each message. The list of the nodes has fuel for getNextSnapshotNode and
-- for the untrusted ones. A snapshot is repeated while the backend has an old one, and has fuel
-- for its rounds. The parser has fuel for one round more than there are arguments, which is
-- always enough. Time points are integers that fit 64 bits; sums and products of them wrap around.
--
-- Not modelled: the processes and pipes between the driver, the encryption and an import command,
-- what they read and write being arguments or parameters; of the command line, the
-- terminal, the commands, which pass their parameters on, and the printed documentation; random
-- numbers (they are arguments), the vendored libsodium; of the driver, its factory. The lock is held
-- throughout, and errors of the file system other than a missing file, a key slot that is taken
-- and a rename onto a directory that is not empty do not occur.
pub mod Base
pub mod Error
pub mod Tree
pub mod Node
pub mod Payload
pub mod Serialisation
pub mod Encoded
pub mod Repository
pub mod Trust
pub mod Controller
pub mod Examples
pub mod Uuid
pub mod Zfs
pub mod ZfsDriver
pub mod Sodium
pub mod KeyPair
pub mod Encryption
pub mod Restore
pub mod KeySlots
pub mod Backend
pub mod Snapshot
pub mod Export
pub mod Parser
pub mod CommandLine
