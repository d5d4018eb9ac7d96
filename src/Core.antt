-- ===== src/Core.antt =====
-- src/core: the MEX functions of `+zmq/+core`. Each takes `prhs` and gives the `plhs` that it sets.
pub mod Arguments
pub mod Result
pub mod Endpoint
pub mod Send
pub mod Recv
pub mod Close
pub mod Setsockopt
pub mod Context
pub mod Name
pub mod Socket
pub mod Version
pub mod Getsockopt
pub mod ContextOptions
pub mod Poll
pub mod Roundtrip
