-- ===== src/World.antt =====
-- What the program shares with its surroundings: the calls it makes, with the replies it got, as a
-- trace (newest first); the surroundings as functions from the trace to the next reply, so that
-- they may answer each call differently and other hosts may act in between; and the attributes
-- that the objects of one agent process keep.
mod State
mod Calls
mod Triples
mod Effects
unfoldable pub use State.*
unfoldable pub use Calls.*
pub use Triples.*
pub use Effects.*
