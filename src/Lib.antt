-- ===== src/Lib.antt =====
-- cargo-stylus: the command line tool that builds, checks, deploys and replays Stylus contracts.
--
-- The development models the tool's own logic; what it asks of a node, of cargo or of Docker is a
-- parameter. Its parts, each a module with the name of the file that it is about:
--
-- Trace (main/src/trace.rs): a transaction's trace, as JSON, is parsed into a tree of host calls, and
--   handed out in order. Kinds has `HostioKind`, `Hostio` and `TraceFrame`; Json
--   what is used of `serde_json::Value`; Names the two ways in which a call's name is used; Cursor
--   the macros of `parse_frame`, as actions on the members and bytes that are left; Parse
--   `parse_frame` itself; Print its specification, the format that it reads, and beside it the steps
--   that the script main/src/query.js reports for EVM calls, which are not in it; Reader
--   `FrameReader`.
-- Hostio (main/src/hostio.rs): the functions that the contract under replay calls instead of the
--   node's. State has the globals, the guest's memory and the macros `frame!` and `copy!`; Data,
--   Account, Chain, Calls, Math and Console have a function for each function of the file; Call is
--   the table of them, whose children prove what holds of all: Serves, Delivers and Mismatch of the
--   calls that return, Returns that they do.
-- Rpc: what the commands ask of a node, and the monad of a command, whose state is the list of the
--   transactions that have been sent. Rpc/Keeps and Rpc/Sends are its logic: commands that send
--   nothing, and what a command that succeeds has sent.
-- Check (main/src/check.rs): whether a contract is active, and the fee of its activation.
-- Deploy (main/src/deploy): Calldata has the init code, with the part of the EVM that it runs on in
--   Calldata/Evm; Config the arguments and the parameters; Transactions the transactions of a
--   deployment without a constructor, Deployer the one with it, Command the command `deploy`, which
--   begins with Check.
-- Activate (main/src/activate.rs), Cache (main/src/cache.rs): the other commands that send something.
-- Verify (main/src/verify.rs): the comparison of a deployment with a local build, by Check and the
--   init code of Deploy.
-- Project (main/src/project.rs): the build of a project. Project itself computes the hash from the
--   files; Toolchain reads the toolchain file and the manifest; Walk finds the files, whose trees are
--   Common/Files; Wasm adds the hash to the wasm and strips and compresses it; Build runs cargo and
--   finds the wasm file that it has written, with Build/Names about the names in the manifest and
--   Build/Hashed about the hash.
-- Cli (main/src/main.rs): the command line. Config has the options of the subcommands, Display the text
--   that a configuration is shown as and Words how it is split again, for the container that the
--   command may run in; Startup the programs that take over a subcommand; Run the dispatch of the
--   subcommands; Replay the replay of a transaction: the debugger, the shared library and its call.
-- Docker (main/src/docker.rs): reproducible builds. A run keeps the list of the calls of docker, which
--   Docker/Runs gives for each of the ways that it can end, from the steps that succeed (Docker/Steps)
--   and those that do where docker can be started (Docker/Starts). Docker/Calls has the calls written
--   out, Docker/Hosts which hosts are supported, and Docker/Images when there is an image.
-- GetInitcode (main/src/get_initcode.rs), ExportAbi (main/src/export_abi.rs), NewProject
--   (main/src/new.rs): the commands that write the init code, print the ABI and make a new project.
-- Wallet (main/src/wallet.rs, main/src/util/text.rs): the key that the transactions are signed with.
-- Gen (main/src/gen.rs): C bindings. Gen/Text has the lines of the methods and the two files of a
--   contract, Gen/Storage those of the storage, Gen the directories and the files written to them.
-- Trace/Fetch (main/src/trace.rs): what `Trace::new` and `Trace::simulate` make of the node's answers.
-- Tests: the inputs of the unit tests, and instances of the parameters.
--
-- A nested frame is parsed by `parse_frame` itself; the model has fuel, one unit for each level of
-- nesting, and a value is given more than its depth. The walk over directories has fuel, one unit for
-- each directory that it takes from its stack; one more than there are directories is enough. All other
-- loops are structural. A
-- panic is the value `panic` of `Outcome`, and `none` in the monads of the host functions, which end
-- the process. Machine integers are native numbers; where a value is narrowed, `% 2 ^ w` is written
-- out. A u32 that the guest's memory receives is little-endian, as on the hosts that the tool runs
-- on; so are the sizes of `String` (24 bytes) and `Box<[u8]>` (16 bytes).
--
-- Parameters: the crate `hex`, of which it is used that decoding undoes encoding; the derive of
-- `HostioKind::name`; the bytes behind a box in memory; the node, whose answers may depend on what has
-- been sent; alloy's coder and hashes; the parsing of a fee as a decimal number; the signers of a
-- wallet; the programs docker, cargo, git, gdb and lldb; solc's output; the crates glob, toml,
-- wasmparser and brotli; clap, whose result is a value of Config; the shared library under replay; the
-- file system; which characters beyond ASCII are alphanumeric. Not modelled: what is printed, unless a
-- finding is about it, colours and macros, the JSON text itself, the connection to the endpoint, the
-- conversion of a fee in gwei by floating point, and the script query.js, which
-- runs in the node.
pub mod Common
pub mod Trace
pub mod Hostio
pub mod Rpc
pub mod Check
pub mod Cli
pub mod Docker
pub mod GetInitcode
pub mod Wallet
pub mod ExportAbi
pub mod NewProject
pub mod Gen
pub mod Deploy
pub mod Activate
pub mod Verify
pub mod Project
pub mod Cache
pub mod Tests
