-- ===== src/Util.antt =====
-- util.py: texts as lists of characters, addresses, exports, files, and the services of Consul.
pub mod Text
pub mod Address
pub mod Replace
pub mod Parse
pub mod Files
