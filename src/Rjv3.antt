-- ===== src/Rjv3.antt =====
-- packet_plugin/rjv3: the plugin for RJv3 authentication. `Prop` is the list of private
-- properties, `Crc` and `Encode` the checksum and the bit coding, `Keepalive` the heartbeat, and
-- `Options` the options of the plugin, `Session` what it does with received frames and its alarms,
-- and `Append` what it adds to the frames that are sent.
pub mod Prop
pub mod Crc
pub mod Encode
pub mod Keepalive
pub mod Options
pub mod Session
pub mod Append
