-- ===== src/Predictor.antt =====
-- src/oracle.c: the predictor. It takes the events of the log, hashes them anew with the files of the
-- running system, and extends the predicted PCR values with the results.
pub mod Extend
pub mod Strategy
pub mod StopEvent
pub mod Prescan
pub mod Parsing
pub mod Update
pub mod Stopping
pub mod Round
pub mod Replay
pub mod Verify
pub mod Compare
mod Tests
