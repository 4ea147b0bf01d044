-- ===== src/Connection.antt =====
-- src/daemon/connection.rs: one connection to Ebbflow. What the network and the clock do is an
-- argument of each function; what the connection does to its surroundings is its result.
pub mod Stream
pub mod Framing
pub mod Establish
pub mod Local
pub mod Run
pub mod Copy
pub mod Proxy
pub mod Dialogue
pub mod Whole
pub mod Serves
pub mod Delivers
pub mod Handshake
pub mod LocalCases
pub mod Backoff
