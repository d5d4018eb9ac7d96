-- ===== src/Mex.antt =====
-- What the MEX functions stand on: exceptions and faults, the interface of MATLAB and libzmq,
-- and the blocks that a MEX function allocates.
pub mod Exec
pub mod Constants
pub mod Host
pub mod Memory
