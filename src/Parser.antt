-- ===== src/Parser.antt =====
-- libs/util/include/diffmonger/util/parser/Parser.hpp: the parser of the command line.
--
-- Commands stay where they are in memory, so a command is its number, and the object graph is a part
-- of the state: the subcommands and the parameters of each command. What the subclasses of a command
-- do is an interface. The texts of the errors and of the documentation are not modelled, so that
-- `with_context`, which lengthens them, does nothing.
pub mod TextMap
pub mod Parameters
pub mod Arguments
pub mod Parse
pub mod Values
pub mod KeyValues
pub mod Finalise
pub mod Refused
pub mod Render
pub mod RoundTrip
