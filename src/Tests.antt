-- ===== src/Tests.antt =====
-- A small MATLAB and libzmq, and the theorems at concrete inputs.
mod World
mod Runs
mod Conversions
mod Receive
mod Options
mod Contexts
mod Sockets
mod Polls
mod Sessions
